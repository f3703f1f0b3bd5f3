-- ===== src/Base/Word.antt =====
-- Words of 32 bits. A `u32` or an `i32` is its bit pattern, a number below 2 ^ 32, so a cast
-- between the two is no change.
use Prim.Native.Nat.{ℕ, ◌+◌, ◌-◌, ◌*◌, ◌/◌, ◌%◌, ◌^◌, ◌<◌, bit_and}
use mathlib.Core.Path.{◌≡◌}
use mathlib.Core.Bool.{Bool, true, false}
use native.Mathlib.Omega.{arith}
use systemscope.Base.Tests.{ltb, ◌!=◌, if◌then◌else◌}
use systemscope.Base.Bits.{bit_and_shifted, bit_and_mask}

infixl 75 ◌<<◌ ◌>>◌ ◌>>ₐ◌
-- `x << k` and `x >> k` on a `u32`.
abbrev pub ◌<<◌ : ℕ → ℕ → ℕ
x << k = x * 2 ^ k % 2 ^ 32

abbrev pub ◌>>◌ : ℕ → ℕ → ℕ
x >> k = x / 2 ^ k

-- `(x as i32) >> k`, for a `k` up to 32: the sign fills the upper bits.
abbrev pub ◌>>ₐ◌ : ℕ → ℕ → ℕ
x >>ₐ k = if ltb x (2 ^ 31) then x / 2 ^ k else x / 2 ^ k + (2 ^ 32 - 2 ^ (32 - k))

-- `wrapping_add` and `wrapping_sub`.
infixl 65 ◌+%◌ ◌-%◌
abbrev pub ◌+%◌ : ℕ → ℕ → ℕ
a +% b = (a + b) % 2 ^ 32

abbrev pub ◌-%◌ : ℕ → ℕ → ℕ
a -% b = (a + 2 ^ 32 - b) % 2 ^ 32

-- `!x`.
abbrev pub complement : ℕ → ℕ
complement x = 2 ^ 32 - 1 - x

-- `(a as i32) < (b as i32)`: the order of the patterns with the sign bit flipped.
abbrev pub lts : ℕ → ℕ → Bool
lts a b = ltb ((a + 2 ^ 31) % 2 ^ 32) ((b + 2 ^ 31) % 2 ^ 32)

-- `x & bit != 0`.
abbrev pub has : ℕ → ℕ → Bool
has x bit = bit_and x bit != 0

-- `u32::from(b)`.
abbrev pub from_bool : Bool → ℕ
from_bool true = 1
from_bool false = 0

-- The bit `k` of a number, as arithmetic.
abbrev pub digit : ℕ → ℕ → ℕ
digit k x = x / 2 ^ k % 2

-- `x & !0b11` clears the two low bits.
pub clear_low_two : (x : ℕ) → x < 2 ^ 32 → bit_and x (complement 3) ≡ x / 4 * 4
clear_low_two x h = omega (arith, bit_and_shifted 2 x (2 ^ 30 - 1), bit_and_mask 30 (x / 4))
