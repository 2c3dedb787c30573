-- ===== src/Idt.antt =====
-- mini-kernel/kernel/arch/x86_64/idt.c and the part of mini-kernel/kernel/include/kernel/arch.h about
-- interrupts. A mask with 2 ^ k - 1 is `% 2 ^ k`, a shift is `* 2 ^ k` or `/ 2 ^ k`.
pub mod Layout
use mini_isolation_lab.Base.{
  ℕ, zero, suc, ◌+◌, ◌-◌, ◌*◌, ◌/◌, ◌%◌, ◌^◌, bit_or, Option, none, some, List, length, set, ltb,
  ◌==◌, ◌||◌, if◌then◌else◌,
}
use mini_isolation_lab.Base.Words.{u8, u16, u32}
use mini_isolation_lab.Machine.{Addr, Cmd, pure, ◌>>=◌, must}

abbrev pub idt_default_entries : ℕ
idt_default_entries = 256

abbrev gate_interrupt : ℕ
gate_interrupt = 0x0e

abbrev gate_trap : ℕ
gate_trap = 0x0f

abbrev gate_present : ℕ
gate_present = 0x80

-- `struct kx86_idt_gate`.
pub record IdtGate : Type 0 where
  pub offset_low : ℕ
  pub selector : ℕ
  pub ist : ℕ
  pub type_attr : ℕ
  pub offset_mid : ℕ
  pub offset_high : ℕ
  pub reserved : ℕ

abbrev pub sizeof_idt_gate : ℕ
sizeof_idt_gate = 16

-- `struct kx86_idtr`.
pub record Idtr : Type 0 where
  pub limit : ℕ
  pub base : ℕ

abbrev pub idt_ring_bits : ℕ → ℕ
idt_ring_bits dpl = u8 ((dpl % 2 ^ 2) * 2 ^ 5)

unfoldable pub idt_gate_set :
    Option IdtGate → (handler selector ist gate_type dpl : ℕ) → Option IdtGate
idt_gate_set none handler selector ist gate_type dpl = none
idt_gate_set (some gate) handler selector ist gate_type dpl = some (record gate {
  offset_low = u16 (handler % 2 ^ 16);
  selector = selector;
  ist = u8 (ist % 2 ^ 3);
  type_attr = u8 (bit_or (bit_or gate_present (idt_ring_bits dpl)) (gate_type % 2 ^ 4));
  offset_mid = u16 ((handler / 2 ^ 16) % 2 ^ 16);
  offset_high = u32 ((handler / 2 ^ 32) % 2 ^ 32);
  reserved = 0;
})

-- The local `gate` of the source is not initialised: its old value is a parameter.
unfoldable pub idt_interrupt_gate : IdtGate → (handler selector : ℕ) → Option IdtGate
idt_interrupt_gate gate handler selector =
    idt_gate_set (some gate) handler selector 0 gate_interrupt 0

unfoldable pub idt_trap_gate : IdtGate → (handler selector dpl : ℕ) → Option IdtGate
idt_trap_gate gate handler selector dpl = idt_gate_set (some gate) handler selector 0 gate_trap dpl

abbrev pub zero_gate : IdtGate
zero_gate = record {
  offset_low = 0;
  selector = 0;
  ist = 0;
  type_attr = 0;
  offset_mid = 0;
  offset_high = 0;
  reserved = 0;
}

-- `for (size_t i = 0; i < count; ++i)` from index `i`, with this many rounds left. A write past the
-- array is a fault.
unfoldable pub clear_loop : ℕ → List IdtGate → ℕ → Cmd (List IdtGate)
clear_loop zero gates i = pure gates
clear_loop (suc n) gates i = do
  next ← must (if ltb i (length gates) then some (set gates i zero_gate) else none)
  clear_loop n next (i + 1)

unfoldable pub idt_clear : Option (List IdtGate) → ℕ → Cmd (Option (List IdtGate))
idt_clear none count = pure none
idt_clear (some gates) count = do cleared ← clear_loop count gates 0; pure (some cleared)

-- `gates` is the array's address.
unfoldable pub idtr_make : (gates : Addr) → (count : ℕ) → Idtr
idtr_make gates count =
    if (gates == 0) || (count == 0)
    then record { limit = 0; base = 0 }
    else record { limit = u16 (count * sizeof_idt_gate - 1); base = gates }
