-- ===== src/Base/Words.antt =====
-- Machine words as native numbers below a power of two, with the wrap-around written out. A signed
-- word is its two's complement bit pattern.
use mini_isolation_lab.Base.Tests.{ltb, leb, if◌then◌else◌}
use Prim.Native.Nat.{ℕ, ◌+◌, ◌-◌, ◌/◌, ◌%◌, ◌^◌, ◌<◌}
use mathlib.Core.Path.{◌≡◌}
use mathlib.Core.Bool.{Bool}
use mathlib.Core.Option.{Option, none, some}
use mathlib.Core.List.{List, [], ◌∷◌}
use native.Mathlib.Omega.{arith}

-- The conversions to `uint8_t`, `uint16_t`, `uint32_t` and `uintptr_t`.
abbrev pub u8 : ℕ → ℕ
u8 x = x % 2 ^ 8

abbrev pub u16 : ℕ → ℕ
u16 x = x % 2 ^ 16

abbrev pub u32 : ℕ → ℕ
u32 x = x % 2 ^ 32

abbrev pub u64 : ℕ → ℕ
u64 x = x % 2 ^ 64

-- -1 as an `int` and as an `intptr_t`.
abbrev pub minus_one32 : ℕ
minus_one32 = 2 ^ 32 - 1

abbrev pub minus_one64 : ℕ
minus_one64 = 2 ^ 64 - 1

-- `x < 0` for an `int`.
abbrev pub is_negative32 : ℕ → Bool
is_negative32 x = leb (2 ^ 31) x

-- The conversion of an `int` to `uintptr_t` extends the sign.
abbrev pub sign_extend : ℕ → ℕ
sign_extend x = if is_negative32 x then x + (2 ^ 64 - 2 ^ 32) else x

-- `__builtin_add_overflow` on 64-bit words: `none` when the sum does not fit.
abbrev pub add_overflow : ℕ → ℕ → Option ℕ
add_overflow a b = if ltb (a + b) (2 ^ 64) then some (a + b) else none

-- A conversion of an `int` to `uintptr_t` and back loses nothing.
pub u32-sign_extend : (x : ℕ) → x < 2 ^ 32 → u32 (sign_extend x) ≡ x
u32-sign_extend x h = ground arith

-- The bytes of a word in the order in which a little-endian machine stores them.
abbrev pub le_bytes32 : ℕ → List ℕ
le_bytes32 x = u8 x ∷ u8 (x / 2 ^ 8) ∷ u8 (x / 2 ^ 16) ∷ u8 (x / 2 ^ 24) ∷ []

abbrev pub le_bytes64 : ℕ → List ℕ
le_bytes64 x =
    u8 x
    ∷ u8 (x / 2 ^ 8)
    ∷ u8 (x / 2 ^ 16)
    ∷ u8 (x / 2 ^ 24)
    ∷ u8 (x / 2 ^ 32)
    ∷ u8 (x / 2 ^ 40)
    ∷ u8 (x / 2 ^ 48)
    ∷ u8 (x / 2 ^ 56)
    ∷ []
