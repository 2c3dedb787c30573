-- ===== src/Base/Bits.antt =====
-- `|` of words whose set bits do not meet, by evaluation over all the values.
use mini_isolation_lab.Base.Tests.{◌==◌, ==_iff, if◌then◌else◌, Bool-cases}
use Prim.Native.Nat.{
  ℕ, zero, suc, ◌+◌, ◌*◌, ◌/◌, ◌%◌, ◌≤◌, ◌<◌, max, digits, bit_or, bit_or-bitwise,
}
use mathlib.Core.Path.{◌≡◌, refl, sym, ap, ◌∙◌}
use mathlib.Core.Bool.{Bool, true, false}
use mathlib.Core.Logic.{inl, inr}
use native.Mathlib.Omega.{arith}

-- The test holds at every one of the next numbers, from `i` on.
unfoldable pub tested : (ℕ → Bool) → (left i : ℕ) → Bool
tested test zero i = true
tested test (suc left) i = if test i then tested test left (i + 1) else false

pub tested_lem :
    (test : ℕ → Bool) (left i x : ℕ)
    → tested test left i ≡ true
    → i ≤ x
    → x < i + left
    → test x ≡ true
unfolding tested
tested_lem test zero i x h low high = absurd (omega arith)
tested_lem test (suc left) i x h low high = elim (Bool-cases (test i)) [
  | inr fails ↦ ground (arith, fails)
  | inl holds ↦ elim (Bool-cases (x == i)) [
    | inl e ↦ ap test ((==_iff x i).0 e) ∙ holds
    | inr e ↦ tested_lem test left (i + 1) x (rw holds at h) (ground arith) (omega arith)
  ]
]

nibble_table : tested (λ x. bit_or (x % 16) (x / 16 * 16) == x) 256 0 ≡ true
unfolding tested
nibble_table = refl

bit_or_digits : (x : ℕ) → x < 256 → bit_or (x % 16) (x / 16 * 16) ≡ x
bit_or_digits x h = (==_iff _ x).0 (tested_lem _ 256 0 x nibble_table (omega arith) h)

-- A low nibble and a high nibble.
pub bit_or_nibbles : (a b : ℕ) → a < 16 → b < 16 → bit_or a (b * 16) ≡ a + b * 16
bit_or_nibbles a b ha hb =
    ap (λ y. bit_or y (b * 16)) (omega arith)
    ∙ ap (λ y. bit_or ((a + b * 16) % 16) (y * 16)) (omega arith)
    ∙ bit_or_digits (a + b * 16) (omega arith)

digits_zero : (n a b : ℕ) → a ≤ n → digits (λ d. d) max n a b ≡ 0 → (a ≡ 0) × (b ≡ 0)
digits_zero zero a b fits h = (omega (arith, fits), h)
digits_zero (suc n) zero b fits h = (refl, h)
digits_zero (suc n) (suc a) b fits h =
    let rest = digits_zero n (suc a / 2) (b / 2) (omega (arith, fits)) (omega (arith, h)) in
    (omega (arith, h, rest), omega (arith, h, rest))

-- `|` is 0 only of zeros.
pub bit_or_zero : (a b : ℕ) → bit_or a b ≡ 0 → (a ≡ 0) × (b ≡ 0)
bit_or_zero a b h = digits_zero a a b (omega arith) (sym (bit_or-bitwise a b) ∙ h)
