-- ===== src/Examples/Descriptors.antt =====
-- Segments, gates and tables at concrete values.
use mini_isolation_lab.Base.{
  ◌+◌, ◌≡◌, refl, arith, some, List, [], ◌∷◌, ◌++◌, map, length, replicate,
}
use mini_isolation_lab.Machine.{ok}
use mini_isolation_lab.Gdt.{GdtEntry, Gdtr, gdt_null_entry, gdt_entry_set, gdt_default_table}
use mini_isolation_lab.Gdt.Layout.{
  base_of, limit_of, flags_of, descriptor_bits, gdt_entry_set-decodes,
}
use mini_isolation_lab.Gdt.Table.{gdt_default_table-segments}
use mini_isolation_lab.Idt.{IdtGate, Idtr, zero_gate, idt_gate_set}
use mini_isolation_lab.Idt.Layout.{handler_of, present_of, level_of, type_of, idt_gate_set-decodes}
use mini_isolation_lab.Cpu.{Tables, descriptor_tables_init, descriptor_tables_init-loads}
use mini_isolation_lab.Examples.World.{machine}

abbrev z : GdtEntry
z = gdt_null_entry

gdt_entry_set-decodes_example :
    (e : GdtEntry) × (gdt_entry_set (some z) 0x12345678 0x000abcde 0x89 0x04 ≡ some e)
    × (base_of e ≡ 0x12345678)
    × (limit_of e ≡ 0x000abcde)
    × (flags_of e ≡ 0x04)
    × (e.access ≡ 0x89)
gdt_entry_set-decodes_example = gdt_entry_set-decodes z 0x12345678 0x000abcde 0x89 0x04

gdt_default_table-segments_example :
    (ts : List GdtEntry) × (gdt_default_table z (some (z ∷ z ∷ z ∷ z ∷ z ∷ z ∷ [])) 6 machine
      ≡ ok (some (ts ++ (z ∷ []))) machine)
    × (map descriptor_bits ts
        ≡ 0 ∷ 0x00af9a000000ffff ∷ 0x00cf92000000ffff ∷ 0x00affa000000ffff ∷ 0x00cff2000000ffff
          ∷ [])
gdt_default_table-segments_example =
    gdt_default_table-segments z z z z z z (z ∷ []) 6 machine (omega arith)

abbrev used : IdtGate
used = record {
  offset_low = 1;
  selector = 8;
  ist = 0;
  type_attr = 0x8e;
  offset_mid = 2;
  offset_high = 3;
  reserved = 0;
}

idt_gate_set-decodes_example :
    (g : IdtGate) × (idt_gate_set (some used) 0x123456789abcdef0 0x08 9 0x0e 3 ≡ some g)
    × (handler_of g ≡ 0x123456789abcdef0)
    × (g.selector ≡ 0x08)
    × (g.ist ≡ 1)
    × (present_of g ≡ 1)
    × (level_of g ≡ 3)
    × (type_of g ≡ 0x0e)
    × (g.reserved ≡ 0)
idt_gate_set-decodes_example =
    idt_gate_set-decodes used 0x123456789abcdef0 0x08 9 0x0e 3 (omega arith)

abbrev gdtr : Gdtr
gdtr = record { limit = 0; base = 0 }

abbrev idtr : Idtr
idtr = record { limit = 0; base = 0 }

abbrev gates : List IdtGate
gates = replicate 256 used

descriptor_tables_init-loads_example :
    (t : Tables) × (descriptor_tables_init z
        (record {
          boot_gdt = z ∷ z ∷ z ∷ z ∷ z ∷ [];
          boot_gdt_at = 500;
          boot_idt = gates;
          boot_idt_at = 600;
          gdt_register = gdtr;
          idt_register = idtr;
        })
        machine
      ≡ ok t machine)
    × (map descriptor_bits t.boot_gdt
        ≡ 0 ∷ 0x00af9a000000ffff ∷ 0x00cf92000000ffff ∷ 0x00affa000000ffff ∷ 0x00cff2000000ffff
          ∷ [])
    × (t.boot_idt ≡ replicate (length gates) zero_gate)
    × ((t.gdt_register.limit + 1 ≡ 40) × (t.gdt_register.base ≡ 500))
    × ((t.idt_register.limit + 1 ≡ 4096) × (t.idt_register.base ≡ 600))
descriptor_tables_init-loads_example =
    descriptor_tables_init-loads z z z z z z gates 500 600 gdtr idtr machine refl (omega arith)
      (omega arith)
