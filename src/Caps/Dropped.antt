-- ===== src/Caps/Dropped.antt =====
-- The value of drop_capabilities.c and the capabilities of the process.
use Prim.Native.String.{String}
use mini_isolation_lab.Base.{
  ℕ, ◌≤◌, ◌≡◌, ◌↔◌, inl, inr, refl, arith, Bool, true, false, Bool-cases, Option, none, some, ◌==◌,
  ◌!=◌, ◌||◌, ◌&&◌, if◌then◌else◌, ◌*◌, ◌^◌, ap, ◌∙◌, sym,
}
use mini_isolation_lab.Base.Bits.{bit_or_zero}
use mini_isolation_lab.Base.Words.{u32, u64}
use mini_isolation_lab.Host.{CapData, Event, called, Call, done, eperm, eacces}
use mini_isolation_lab.Host.Paths.{End, Stop, Always, Quiet, Quiet-then, on_answer}
use mini_isolation_lab.Status.Reading.{
  Counted, counting, Reads, Reads-then, print_status_field-Reads, field-then,
}
use mini_isolation_lab.Caps.{
  die, print_cap_snapshot, get_caps, drop_process_caps, effective_caps_to_u64, try_raw_socket,
  judge, drop_and_check, main,
}

-- Whether all the sets were given up, and the last sets that were read since then.
pub record Seen : Type 0 where
  pub given_up : Bool
  pub caps : Option (CapData × CapData)

abbrev pub is_empty : CapData → Bool
is_empty c = (c.effective == 0) && (c.permitted == 0) && (c.inheritable == 0)

abbrev pub step : Seen → Event → Seen
step m (called (Call.capset (low, high)) (done n)) = record {
  given_up = is_empty low && is_empty high;
  caps = none;
}
step m (called Call.capget (done caps)) = record m { caps = some caps }
step m _ = m

abbrev pub start : Counted Seen
start = record { lines = 0; seen = record { given_up = false; caps = none } }

-- Neither half has an effective capability.
abbrev pub powerless : CapData × CapData → Bool
powerless (low, high) = (u32 low.effective == 0) && (u32 high.effective == 0)

-- 0 is returned exactly when the sets read after the process gave everything up have no effective capability. Otherwise the
-- program has ended with `exit(1)`, or it has read this many lines and reads on.
abbrev pub Dropped : ℕ → Counted Seen → ℕ → End ℕ → Type 0
Dropped fuel m e (End.returned n) =
    (m.seen.given_up ≡ true)
    × ((caps : CapData × CapData) × (m.seen.caps ≡ some caps)
        × (n ≡ (if powerless caps then 0 else 1)))
Dropped fuel m e (End.stopped (Stop.exits n)) = n ≡ 1
Dropped fuel m e (End.stopped Stop.unfinished) = fuel ≤ m.lines
Dropped fuel m e _ = ⊥

-- The 64 bits of both halves are 0 exactly if neither half has an effective capability.
pub effective_caps_to_u64-powerless :
    (caps : CapData × CapData) → (effective_caps_to_u64 caps ≡ 0) ↔ (powerless caps ≡ true)
effective_caps_to_u64-powerless (low, high) = (there, back)
  where
    there : effective_caps_to_u64 (low, high) ≡ 0 → powerless (low, high) ≡ true
    there h =
        let zeros = bit_or_zero (u64 (u32 high.effective * 2 ^ 32)) (u32 low.effective) h in
        let high_zero : u32 high.effective ≡ 0 = omega (arith, zeros.0) in
        rw (zeros.1, high_zero) refl

    back : powerless (low, high) ≡ true → effective_caps_to_u64 (low, high) ≡ 0
    back h =
        let low_zero : u32 low.effective ≡ 0 = ground (arith, h) in
        let high_zero : u32 high.effective ≡ 0 = ground (arith, h) in rw (low_zero, high_zero) refl

-- The monitor at a number of lines.
abbrev at : ℕ → Seen → Counted Seen
at n a = record { lines = n; seen = a }

snapshot-Reads :
    (fuel n : ℕ) (label : String) (a : Seen) (e : ℕ)
    → Always (counting step) (Reads step fuel a) (print_cap_snapshot fuel label) (at n a) e
unfolding print_cap_snapshot
snapshot-Reads fuel n label a e =
    field-then step (Reads step fuel a) _ fuel n label "Uid:" a e long (λ n1 e1.
      field-then step (Reads step fuel a) _ fuel n1 label "CapInh:" a e1 long (λ n2 e2.
        field-then step (Reads step fuel a) _ fuel n2 label "CapPrm:" a e2 long (λ n3 e3.
          field-then step (Reads step fuel a) _ fuel n3 label "CapEff:" a e3 long
            (λ n4 e4. print_status_field-Reads step fuel n4 label "CapBnd:" a e4))))
  where
    long :
        (m' : Counted Seen) (e' : ℕ)
        → fuel ≤ m'.lines
        → m'.seen ≡ a
        → Reads step fuel a {B = Unit {0}} m' e' (End.stopped Stop.unfinished)
    long m' e' l same = (l, same)

try_raw_socket-Quiet :
    (label : String) (m : Counted Seen) (e : ℕ)
    → Always (counting step) (Quiet (counting step) m) (try_raw_socket label) m e
unfolding try_raw_socket
try_raw_socket-Quiet label m e =
    on_answer _
      (λ x. elim (Bool-cases ((x == eperm) || (x == eacces))) [
        | inl denied ↦ rw (denied, Always) refl
        | inr other ↦ rw (other, Always) refl
      ])
      (λ fd. λ closed. refl)

-- Once everything is given up and read again.
abbrev reread : CapData × CapData → Seen
reread caps = record { given_up = true; caps = some caps }

is_zero : (n : ℕ) → (n != 0) ≡ false → n ≡ 0
is_zero n h = ground (arith, h)

some_left :
    (caps : CapData × CapData) → (effective_caps_to_u64 caps != 0) ≡ true → powerless caps ≡ false
some_left caps h = elim (Bool-cases (powerless caps)) [
  | inl p ↦
      let nothing = (effective_caps_to_u64-powerless caps).1 p in
      let clash : false ≡ true = ap (λ n. n != 0) (sym nothing) ∙ h in
      absurd (ground (arith, clash))
  | inr p ↦ p
]

judge-Dropped :
    (fuel n : ℕ) (before caps : CapData × CapData) (e : ℕ)
    → Always (counting step) (Dropped fuel) (judge before caps) (at n (reread caps)) e
unfolding judge
judge-Dropped fuel n (low, high) caps e = elim (Bool-cases (effective_caps_to_u64 caps != 0)) [
  | inl left ↦ rw (left, Always) (refl, (caps, refl, rw (some_left caps left) refl))
  | inr gone ↦
      let p =
        (effective_caps_to_u64-powerless caps).0 (is_zero (effective_caps_to_u64 caps) gone) in
      elim (Bool-cases ((u32 low.effective == 0) && (u32 high.effective == 0))) [
        | inl already ↦ rw (gone, already, Always) (refl, (caps, refl, rw p refl))
        | inr dropped ↦ rw (gone, dropped, Always) (refl, (caps, refl, rw p refl))
      ]
]

drop_and_check-Dropped :
    (fuel n : ℕ) (before : CapData × CapData) (a : Seen) (e : ℕ)
    → Always (counting step) (Dropped fuel) (drop_and_check fuel before) (at n a) e
unfolding drop_and_check drop_process_caps get_caps die
drop_and_check-Dropped fuel n before a e =
    on_answer _ (λ x. refl)
      (λ set.
        let gone : Seen = record { given_up = true; caps = none } in
        Reads-then step fuel gone (Dropped fuel) (print_cap_snapshot fuel "after") _ (at n gone) e
          (snapshot-Reads fuel n "after" gone e) (λ m' e' l same. l)
          (λ u n' e'.
            on_answer _ (λ x. refl)
              (λ caps.
                Quiet-then (counting step) (Dropped fuel) (try_raw_socket "after drop") _
                  (at n' (reread caps)) (at n' (reread caps)) e'
                  (try_raw_socket-Quiet "after drop" (at n' (reread caps)) e')
                  (λ v y. judge-Dropped fuel n' before caps y))))

-- `main` of drop_capabilities.c, whatever the kernel answers: it returns after the process has
-- given up all its sets and has read them again, with 0 exactly if neither half of them has an
-- effective capability, and 1 otherwise. It may end with `exit(1)`, and it is unfinished only
-- after as many lines of the status file as it has rounds.
pub main-Dropped : (fuel e : ℕ) → Always (counting step) (Dropped fuel) (main fuel) start e
unfolding main get_caps die
main-Dropped fuel e =
    Reads-then step fuel start.seen (Dropped fuel) (print_cap_snapshot fuel "before") _ start e
      (snapshot-Reads fuel 0 "before" start.seen e) (λ m' e' l same. l)
      (λ u n e'.
        on_answer _ (λ x. refl)
          (λ caps.
            let m : Counted Seen = at n (record { given_up = false; caps = some caps }) in
            Quiet-then (counting step) (Dropped fuel) (try_raw_socket "before drop") _ m m e'
              (try_raw_socket-Quiet "before drop" m e')
              (λ v y. drop_and_check-Dropped fuel n caps m.seen y)))
