-- ===== src/Host/Format.antt =====
-- Texts: string literals, decimal numbers and `snprintf`.
use Prim.Native.Char.{code}
use Prim.Native.String.{String}
use mini_isolation_lab.Base.{
  ℕ, zero, suc, ◌+◌, ◌-◌, ◌*◌, ◌/◌, ◌%◌, ◌^◌, ◌≤◌, ◌<◌, ◌≡◌, refl, ap, ◌∙◌, arith, true, false,
  Bool-cases, inl, inr, [], ◌∷◌, ◌++◌, length, length-append, ltb,
}
use native.Mathlib.Nat.{pow-succ'}
use mini_isolation_lab.Host.{Text}

-- The characters of a literal; those of the programs are ASCII.
abbrev pub chars : String → Text
chars String.[] = []
chars (String.◌∷◌ c s) = code c ∷ chars s

-- A decimal number, with this many digits at most.
unfoldable pub digits : ℕ → ℕ → Text
digits zero n = []
digits (suc k) n = elim (ltb n 10) [
  | true ↦ (b'0' + n) ∷ []
  | false ↦ digits k (n / 10) ++ ((b'0' + n % 10) ∷ [])
]

-- `%d` and `%ld` of a number that is not negative; 20 digits hold every 64-bit word.
abbrev pub decimal : ℕ → Text
decimal n = digits 20 n

-- A text read as a number.
unfoldable pub read_from : ℕ → Text → ℕ
read_from acc [] = acc
read_from acc (c ∷ cs) = read_from (acc * 10 + (c - b'0')) cs

-- `snprintf`: at most one byte less than the buffer has, and the length that the whole text has.
unfoldable pub take : ℕ → Text → Text
take zero cs = []
take (suc n) [] = []
take (suc n) (c ∷ cs) = c ∷ take n cs

abbrev pub snprintf : (size : ℕ) → Text → Text × ℕ
snprintf size cs = (take (size - 1) cs, length cs)

pub take-whole : (n : ℕ) (cs : Text) → length cs ≤ n → take n cs ≡ cs
unfolding take
take-whole zero [] h = refl
take-whole zero (c ∷ cs) h = absurd (omega arith)
take-whole (suc n) [] h = refl
take-whole (suc n) (c ∷ cs) h = ap (λ t. c ∷ t) (take-whole n cs (omega arith))

read_from-append :
    (acc : ℕ) (xs ys : Text) → read_from acc (xs ++ ys) ≡ read_from (read_from acc xs) ys
unfolding read_from
read_from-append acc [] ys = refl
read_from-append acc (x ∷ xs) ys = read_from-append (acc * 10 + (x - b'0')) xs ys

digits-lt : (k n : ℕ) → length (digits k n) ≤ k
unfolding digits
digits-lt zero n = omega arith
digits-lt (suc k) n = elim (Bool-cases (ltb n 10)) [
  | inl small ↦ ground (arith, small)
  | inr large ↦
      ground (
        arith,
        large,
        digits-lt k (n / 10),
        length-append (digits k (n / 10)) ((b'0' + n % 10) ∷ []),
      )
]

-- A decimal number has at most 20 digits.
pub decimal-le : (n : ℕ) → length (decimal n) ≤ 20
decimal-le n = digits-lt 20 n

pow_suc : (k : ℕ) → 10 ^ suc k ≡ 10 * 10 ^ k
pow_suc k = pow-succ' 10 k

last_digit : (acc d : ℕ) → read_from acc ((b'0' + d) ∷ []) ≡ acc * 10 + d
unfolding read_from
last_digit acc d = omega arith

more_digits : (k n : ℕ) → ltb n 10 ≡ false → n < 10 ^ suc k → 0 < k
more_digits zero n large h = absurd (ground (arith, large))
more_digits (suc k) n large h = omega arith

read_from-digits : (k n : ℕ) → n < 10 ^ k → 0 < k → read_from 0 (digits k n) ≡ n
unfolding digits
read_from-digits zero n h p = absurd (omega arith)
read_from-digits (suc k) n h p = elim (Bool-cases (ltb n 10)) [
  | inl small ↦ rw (small, digits) (last_digit 0 n ∙ omega arith)
  | inr large ↦
      let tail = read_from-digits k (n / 10) (omega (arith, pow_suc k)) (more_digits k n large h) in
      rw (large, digits, read_from-append 0 (digits k (n / 10)) ((b'0' + n % 10) ∷ []), tail)
        (last_digit (n / 10) (n % 10) ∙ omega arith)
]

-- The decimal digits of a 64-bit word are read back as the word.
pub read_from-decimal : (n : ℕ) → n < 2 ^ 64 → read_from 0 (decimal n) ≡ n
read_from-decimal n h = read_from-digits 20 n (omega arith) (omega arith)
