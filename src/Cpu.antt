-- ===== src/Cpu.antt =====
-- The descriptor tables of mini-kernel/kernel/arch/x86_64/cpu.c. The port and halt instructions of that
-- file are in Console.
use mini_isolation_lab.Base.{
  ◌<◌, ◌≡◌, refl, arith, Option, none, some, List, [], ◌∷◌, map, length, replicate, append-nil, ◌+◌,
}
use mini_isolation_lab.Machine.{Addr, World, ok, Cmd, pure, ◌>>=◌, must}
use mini_isolation_lab.Gdt.{GdtEntry, Gdtr, gdt_default_table, gdt_default_entries, gdtr_make}
use mini_isolation_lab.Idt.{IdtGate, Idtr, idt_clear, idt_default_entries, idtr_make, zero_gate}
use mini_isolation_lab.Gdt.Layout.{descriptor_bits, gdtr_make-covers}
use mini_isolation_lab.Gdt.Table.{gdt_default_table-segments}
use mini_isolation_lab.Idt.Layout.{idt_clear-clears, idtr_make-covers}

-- The kernel's two tables with their addresses, and the registers that `lgdt` and `lidt` load.
pub record Tables : Type 0 where
  pub boot_gdt : List GdtEntry
  pub boot_gdt_at : Addr
  pub boot_idt : List IdtGate
  pub boot_idt_at : Addr
  pub gdt_register : Gdtr
  pub idt_register : Idtr

unfoldable pub lgdt : Option Gdtr → Tables → Tables
lgdt none t = t
lgdt (some gdtr) t = record t { gdt_register = gdtr }

unfoldable pub lidt : Option Idtr → Tables → Tables
lidt none t = t
lidt (some idtr) t = record t { idt_register = idtr }

-- `stale` is what an uninitialised segment descriptor holds.
pub descriptor_tables_init : GdtEntry → Tables → Cmd Tables
descriptor_tables_init stale t = do
  filled ← gdt_default_table stale (some t.boot_gdt) gdt_default_entries
  gdt ← must filled
  cleared ← idt_clear (some t.boot_idt) idt_default_entries
  idt ← must cleared
  let gdtr = gdtr_make t.boot_gdt_at gdt_default_entries
  let idtr = idtr_make t.boot_idt_at idt_default_entries
  let loaded = lgdt (some gdtr) (record t { boot_gdt = gdt; boot_idt = idt })
  pure (lidt (some idtr) loaded)

-- `kx86_descriptor_tables_init` on a segment table of five entries and an interrupt table of 256
-- gates, at addresses other than null: it returns, the segments are the null one and the flat code
-- and data segments of levels 0 and 3, every gate is zero, and the registers hold the two
-- addresses with the limits of 40 and 4096 bytes.
pub descriptor_tables_init-loads :
    (stale a b c d e : GdtEntry) (gates : List IdtGate) (gdt_at idt_at : Addr) (gr : Gdtr)
    (ir : Idtr) (w : World)
    → length gates ≡ idt_default_entries
    → 0 < gdt_at
    → 0 < idt_at
    → (t : Tables) × (descriptor_tables_init stale
          (record {
            boot_gdt = a ∷ b ∷ c ∷ d ∷ e ∷ [];
            boot_gdt_at = gdt_at;
            boot_idt = gates;
            boot_idt_at = idt_at;
            gdt_register = gr;
            idt_register = ir;
          })
          w
        ≡ ok t w)
      × (map descriptor_bits t.boot_gdt
          ≡ 0 ∷ 0x00af9a000000ffff ∷ 0x00cf92000000ffff ∷ 0x00affa000000ffff ∷ 0x00cff2000000ffff
            ∷ [])
      × (t.boot_idt ≡ replicate (length gates) zero_gate)
      × ((t.gdt_register.limit + 1 ≡ 40) × (t.gdt_register.base ≡ gdt_at))
      × ((t.idt_register.limit + 1 ≡ 4096) × (t.idt_register.base ≡ idt_at))
unfolding descriptor_tables_init lgdt lidt
descriptor_tables_init-loads stale a b c d e gates gdt_at idt_at gr ir w size hg hi =
    let (ts, filled, bits) =
      gdt_default_table-segments stale a b c d e [] gdt_default_entries w (omega arith) in
    let plain = append-nil ts in
    let plain_gates = append-nil gates in
    let plain_cleared = append-nil (replicate (length gates) zero_gate) in
    let all = idt_clear-clears gates [] w in
    let cs = replicate (length gates) zero_gate in
    let idt : idt_clear (some gates) idt_default_entries w ≡ ok (some cs) w = cc in
    let gdt : gdt_default_table stale (some (a ∷ b ∷ c ∷ d ∷ e ∷ [])) gdt_default_entries w
        ≡ ok (some ts) w =
      cc in
    (
      record {
        boot_gdt = ts;
        boot_gdt_at = gdt_at;
        boot_idt = cs;
        boot_idt_at = idt_at;
        gdt_register = gdtr_make gdt_at gdt_default_entries;
        idt_register = idtr_make idt_at idt_default_entries;
      },
      rw (gdt, idt),
      bits,
      refl,
      gdtr_make-covers gdt_at gdt_default_entries hg (omega arith) (omega arith),
      idtr_make-covers idt_at idt_default_entries hi (omega arith) (omega arith),
    )
