-- ===== src/Idt/Layout.antt =====
-- The gates that idt.c packs, read back the way a processor reads them.
use mini_isolation_lab.Base.{
  ℕ, ◌+◌, ◌*◌, ◌/◌, ◌%◌, ◌^◌, ◌≤◌, ◌<◌, some, ◌≡◌, refl, true, arith, ◌==◌, ==_iff, bit_or, List,
  [], ◌∷◌, ◌++◌, length, replicate, set, ltb, length-append, append_assoc, ap,
}
use mini_isolation_lab.Base.Bits.{tested, tested_lem}
use mini_isolation_lab.Machine.{Addr, World, ok}
use mini_isolation_lab.Idt.{
  IdtGate, idt_gate_set, idt_clear, clear_loop, idtr_make, sizeof_idt_gate, zero_gate,
}

-- The handler's address, the presence, the privilege level and the type of a gate.
abbrev pub handler_of : IdtGate → ℕ
handler_of g = g.offset_low + g.offset_mid * 2 ^ 16 + g.offset_high * 2 ^ 32

abbrev pub present_of : IdtGate → ℕ
present_of g = g.type_attr / 2 ^ 7

abbrev pub level_of : IdtGate → ℕ
level_of g = g.type_attr / 2 ^ 5 % 2 ^ 2

abbrev pub type_of : IdtGate → ℕ
type_of g = g.type_attr % 2 ^ 4

attr_table :
    tested
      (λ x.
        (bit_or (bit_or 0x80 (x / 16 * 2 ^ 5 % 2 ^ 8)) (x % 16) % 2 ^ 8)
        == 0x80 + x / 16 * 2 ^ 5 + x % 16)
      64
      0
    ≡ true
unfolding tested
attr_table = refl

attr_lem :
    (d g : ℕ)
    → d < 4
    → g < 16
    → bit_or (bit_or 0x80 (d * 2 ^ 5 % 2 ^ 8)) g % 2 ^ 8 ≡ 0x80 + d * 2 ^ 5 + g
attr_lem d g hd hg =
    let q : (d * 16 + g) / 16 ≡ d = omega arith in
    let r : (d * 16 + g) % 16 ≡ g = omega arith in
    let t =
      (==_iff _ _).0 (tested_lem _ 64 0 (d * 16 + g) attr_table (omega arith) (omega arith)) in
    cc

-- A gate set by `kx86_idt_gate_set` for a 64-bit handler is read back: the handler, the selector,
-- the low bits of the stack index, the privilege level and the type, present and with nothing
-- reserved, whatever the gate held.
pub idt_gate_set-decodes :
    (old : IdtGate) (handler selector ist gate_type dpl : ℕ)
    → handler < 2 ^ 64
    → (g : IdtGate) × (idt_gate_set (some old) handler selector ist gate_type dpl ≡ some g)
      × (handler_of g ≡ handler)
      × (g.selector ≡ selector)
      × (g.ist ≡ ist % 2 ^ 3)
      × (present_of g ≡ 1)
      × (level_of g ≡ dpl % 2 ^ 2)
      × (type_of g ≡ gate_type % 2 ^ 4)
      × (g.reserved ≡ 0)
unfolding idt_gate_set
idt_gate_set-decodes old handler selector ist gate_type dpl h =
    let attr = attr_lem (dpl % 2 ^ 2) (gate_type % 2 ^ 4) (omega arith) (omega arith) in
    (
      _,
      refl,
      omega arith,
      refl,
      omega arith,
      omega (arith, attr),
      omega (arith, attr),
      omega (arith, attr),
      refl,
    )

set-append :
    (xs ys : List IdtGate) (x v : IdtGate) → set (xs ++ (x ∷ ys)) (length xs) v ≡ xs ++ (v ∷ ys)
set-append [] ys x v = refl
set-append (a ∷ xs) ys x v = ap (λ zs. a ∷ zs) (set-append xs ys x v)

inside_append :
    (xs ys : List IdtGate) (x : IdtGate) → ltb (length xs) (length (xs ++ (x ∷ ys))) ≡ true
inside_append xs ys x = let e = length-append xs (x ∷ ys) in ground arith

clear_loop-clears :
    (cleared gates rest : List IdtGate) (w : World)
    → clear_loop (length gates) (cleared ++ (gates ++ rest)) (length cleared) w
      ≡ ok (cleared ++ (replicate (length gates) zero_gate ++ rest)) w
unfolding clear_loop
clear_loop-clears cleared [] rest w = refl
clear_loop-clears cleared (g ∷ gates) rest w =
    let z = zero_gate in
    let one = z ∷ [] in
    let cs = replicate (length gates) z in
    let next = clear_loop-clears (cleared ++ one) gates rest w in
    let before = append_assoc cleared one (gates ++ rest) in
    let after = append_assoc cleared one (cs ++ rest) in
    let at = length-append cleared one in
    let continued : clear_loop (length gates) (cleared ++ (z ∷ (gates ++ rest)))
          (length cleared + 1) w
        ≡ ok (cleared ++ (z ∷ (cs ++ rest))) w =
      cc in
    rw (inside_append cleared (gates ++ rest) g, set-append cleared (gates ++ rest) g z, continued)

-- `kx86_idt_clear` clears the first gates of an array that has as many, and leaves the others.
pub idt_clear-clears :
    (gates rest : List IdtGate) (w : World)
    → idt_clear (some (gates ++ rest)) (length gates) w
      ≡ ok (some (replicate (length gates) zero_gate ++ rest)) w
unfolding idt_clear
idt_clear-clears gates rest w = rw (clear_loop-clears [] gates rest w)

-- The register value for an interrupt table at an address other than null with 1 to 4096 gates:
-- the limit is the offset of the table's last byte, and the base is the address.
pub idtr_make-covers :
    (gates : Addr) (count : ℕ)
    → 0 < gates
    → 0 < count
    → count ≤ 4096
    → ((idtr_make gates count).limit + 1 ≡ count * sizeof_idt_gate)
      × ((idtr_make gates count).base ≡ gates)
unfolding idtr_make
idtr_make-covers gates count hg hc hm = (ground arith, ground arith)
