-- ===== src/Base/Bits.antt =====
-- The native bit operations at variables, as arithmetic on the binary digits.
use Prim.Native.Nat.{
  ℕ, zero, suc, ◌+◌, ◌-◌, ◌*◌, ◌/◌, ◌%◌, ◌^◌, ◌≤◌, ◌<◌, min, max, differ, digits, bitwise, bit_and,
  bit_or, bit_xor, bit_and-bitwise, bit_or-bitwise, bit_xor-bitwise,
}
use mathlib.Core.Path.{◌≡◌, refl, ap, sym, ◌∙◌}
use native.Mathlib.Nat.{pow-suc, pow-succ', one-le-pow, div-div-eq-div-mul, div-add-mod', le_refl}
use native.Mathlib.Omega.{arith}

-- One binary digit of a native operation: `tail` is what it gives of `0`, `op` what it gives of two
-- digits.
module _ (tail : ℕ → ℕ) (op : ℕ → ℕ → ℕ) where
  -- Fuel that is spare is not used.
  one_spare : (n x y : ℕ) → x ≤ n → digits tail op (suc n) x y ≡ digits tail op n x y
  one_spare n zero y h = nothing_left n y
    where
      nothing_left : (n y : ℕ) → digits tail op (suc n) 0 y ≡ digits tail op n 0 y
      nothing_left zero y = refl
      nothing_left (suc n) y = refl
  one_spare zero (suc x) y h = absurd (omega arith)
  one_spare (suc n) (suc x) y h =
      ap (λ k. k * 2 + op (suc x % 2) (y % 2)) (one_spare n (suc x / 2) (y / 2) (omega arith))

  spare_fuel : (spare x y n : ℕ) → x ≤ n → digits tail op (n + spare) x y ≡ digits tail op n x y
  spare_fuel zero x y n h = ap (λ k. digits tail op k x y) (omega arith)
  spare_fuel (suc spare) x y n h =
      let next : n + suc spare ≡ suc (n + spare) = omega arith in
      ap (λ k. digits tail op k x y) next
      ∙ (one_spare (n + spare) x y (omega arith) ∙ spare_fuel spare x y n h)

  lowest_digit :
      (x y : ℕ)
      → bitwise tail op (suc x / 2) (y / 2) * 2 + op (suc x % 2) (y % 2) ≡ bitwise tail op (suc x) y
  lowest_digit x y =
      let half = suc x / 2 in
      let used = spare_fuel (x - half) half (y / 2) half (le_refl half) in
      let fuel : half + (x - half) ≡ x = omega arith in
      ap (λ k. k * 2 + op (suc x % 2) (y % 2))
        (sym used ∙ ap (λ k. digits tail op k half (y / 2)) fuel)

pub bit_and_step : (x y : ℕ) → bit_and x y ≡ bit_and (x / 2) (y / 2) * 2 + min (x % 2) (y % 2)
bit_and_step zero y = omega (arith, bit_and-bitwise 0 y, bit_and-bitwise 0 (y / 2))
bit_and_step (suc x) y = simp bit_and-bitwise (sym (lowest_digit (λ k. 0) min x y))

pub bit_or_step : (x y : ℕ) → bit_or x y ≡ bit_or (x / 2) (y / 2) * 2 + max (x % 2) (y % 2)
bit_or_step zero y = omega (arith, bit_or-bitwise 0 y, bit_or-bitwise 0 (y / 2))
bit_or_step (suc x) y = simp bit_or-bitwise (sym (lowest_digit (λ k. k) max x y))

-- With 0 on the right, below a limit.
with_zero : (limit x : ℕ) → x ≤ limit → (bit_or x 0 ≡ x) × (bit_and x 0 ≡ 0)
with_zero limit zero h = (refl, refl)
with_zero zero (suc x) h = absurd (omega arith)
with_zero (suc limit) (suc x) h =
    let (union, meet) = with_zero limit (suc x / 2) (omega arith) in
    (omega (arith, union, bit_or_step (suc x) 0), omega (arith, meet, bit_and_step (suc x) 0))

pub bit_or-zero : (x : ℕ) → bit_or x 0 ≡ x
bit_or-zero x = (with_zero x x (le_refl x)).0

pub bit_and-zero : (x : ℕ) → bit_and x 0 ≡ 0
bit_and-zero x = (with_zero x x (le_refl x)).1

double_power : (x k : ℕ) → x * 2 ^ suc k ≡ x * 2 ^ k * 2
double_power x k = ap (λ (t : ℕ). x * t) (pow-suc 2 k) ∙ omega arith

-- The union of a number above `k` zero digits with one of `k` digits is the sum.
pub bit_or_fields : (k high low : ℕ) → low < 2 ^ k → bit_or (high * 2 ^ k) low ≡ high * 2 ^ k + low
bit_or_fields zero high low h = ground (arith, bit_or-zero high)
bit_or_fields (suc k) high low h =
    let halves = bit_or_fields k high (low / 2) (omega arith) in
    ground (arith, halves, double_power high k, bit_or_step (high * 2 ^ suc k) low)

div-two-pow : (x k : ℕ) → x / 2 ^ suc k ≡ x / 2 / 2 ^ k
div-two-pow x k = ap (λ t. x / t) (pow-succ' 2 k) ∙ sym (div-div-eq-div-mul x 2 (2 ^ k))

-- A mask `m` shifted over `k` zero digits selects from the number without its low `k` digits.
pub bit_and_shifted : (k a m : ℕ) → bit_and a (m * 2 ^ k) ≡ bit_and (a / 2 ^ k) m * 2 ^ k
bit_and_shifted zero a m = ground arith
bit_and_shifted (suc k) a m = ground (
  arith,
  bit_and_step a (m * 2 ^ suc k),
  double_power m k,
  double_power (bit_and (a / 2 ^ suc k) m) k,
  div-two-pow a k,
  bit_and_shifted k (a / 2) m,
)

pub bit_and-one : (x : ℕ) → bit_and x 1 ≡ x % 2
bit_and-one x = omega (arith, bit_and-zero (x / 2), bit_and_step x 1)

low_ones : (k high low : ℕ) → low < 2 ^ k → bit_and (high * 2 ^ k + low) (2 ^ k - 1) ≡ low
low_ones zero high low h = rw bit_and-zero (omega arith)
low_ones (suc k) high low h =
    let halves = low_ones k high (low / 2) (omega (arith, pow-suc 2 k)) in
    let step = bit_and_step (high * 2 ^ suc k + low) (2 ^ suc k - 1) in
    ground (arith, halves, step, pow-suc 2 k, double_power high k)

-- A mask of `k` low ones is the remainder by `2 ^ k`.
pub bit_and_mask : (k x : ℕ) → bit_and x (2 ^ k - 1) ≡ x % 2 ^ k
bit_and_mask k x =
    let parts = low_ones k (x / 2 ^ k) (x % 2 ^ k) in ground (arith, parts, one-le-pow k 2)

-- A mask of one digit.
pub bit_and_digit : (k a : ℕ) → bit_and a (2 ^ k) ≡ a / 2 ^ k % 2 * 2 ^ k
bit_and_digit k a = ground (arith, bit_and_shifted k a 1, bit_and-one (a / 2 ^ k))

-- Masks that share no digit select parts that add up.
bit_and_add_fuel :
    (f a m n : ℕ) → a ≤ f → bit_and m n ≡ 0 → bit_and a (m + n) ≡ bit_and a m + bit_and a n
bit_and_add_fuel f zero m n p h =
    omega (arith, bit_and-bitwise 0 (m + n), bit_and-bitwise 0 m, bit_and-bitwise 0 n)
bit_and_add_fuel zero (suc a) m n p h = absurd (omega arith)
bit_and_add_fuel (suc f) (suc a) m n p h =
    let split = bit_and_step m n in
    let sum : (m + n) / 2 ≡ m / 2 + n / 2 = omega arith in
    let ih = bit_and_add_fuel f (suc a / 2) (m / 2) (n / 2) (omega arith) (omega arith) in
    ground (
      arith,
      bit_and_step (suc a) (m + n),
      bit_and_step (suc a) m,
      bit_and_step (suc a) n,
      split,
      sum,
      ih,
    )

pub bit_and_add : (a m n : ℕ) → bit_and m n ≡ 0 → bit_and a (m + n) ≡ bit_and a m + bit_and a n
bit_and_add a m n h = bit_and_add_fuel a a m n (le_refl a) h

bit_or_comm_fuel : (f a b : ℕ) → a ≤ f → bit_or a b ≡ bit_or b a
bit_or_comm_fuel f zero b p = omega (arith, bit_or-bitwise 0 b, bit_or-zero b)
bit_or_comm_fuel zero (suc a) b p = absurd (omega arith)
bit_or_comm_fuel (suc f) (suc a) b p = omega (
  arith,
  bit_or_step (suc a) b,
  bit_or_step b (suc a),
  bit_or_comm_fuel f (suc a / 2) (b / 2) (omega arith),
)

pub bit_or_comm : (a b : ℕ) → bit_or a b ≡ bit_or b a
bit_or_comm a b = bit_or_comm_fuel a a b (le_refl a)

-- The union of a multiple of `2 ^ k` and a number below it is their sum.
pub bit_or_add : (k x y : ℕ) → x % 2 ^ k ≡ 0 → y < 2 ^ k → bit_or x y ≡ x + y
bit_or_add k x y h l =
    let e : x ≡ x / 2 ^ k * 2 ^ k = omega (arith, div-add-mod' x (2 ^ k)) in
    rw e (bit_or_fields k (x / 2 ^ k) y l)

pub bit_xor_step : (a b : ℕ) → bit_xor a b ≡ bit_xor (a / 2) (b / 2) * 2 + differ (a % 2) (b % 2)
bit_xor_step zero b = simp bit_xor-bitwise (omega arith)
bit_xor_step (suc a) b = simp bit_xor-bitwise (sym (lowest_digit (λ k. k) differ a b))

differ_digits : (x y : ℕ) → x < 2 → y < 2 → differ x y ≤ 1
differ_digits zero y p q = omega arith
differ_digits (suc x) zero p q = omega arith
differ_digits (suc zero) (suc y) p q = omega arith
differ_digits (suc (suc x)) (suc y) p q = absurd (omega arith)

differ-le : (a b : ℕ) → differ (a % 2) (b % 2) ≤ 1
differ-le a b = differ_digits (a % 2) (b % 2) (omega arith) (omega arith)

-- The operations on numbers of `k` digits give numbers of `k` digits.
pub bit_and-lt : (k a b : ℕ) → a < 2 ^ k → bit_and a b < 2 ^ k
bit_and-lt zero a b h = ground (arith, bit_and-bitwise 0 b)
bit_and-lt (suc k) a b h = omega (
  arith,
  bit_and_step a b,
  pow-suc 2 k,
  bit_and-lt k (a / 2) (b / 2) (omega (arith, pow-suc 2 k)),
)

pub bit_or-lt : (k a b : ℕ) → a < 2 ^ k → b < 2 ^ k → bit_or a b < 2 ^ k
bit_or-lt zero a b h l = ground (arith, bit_or-bitwise 0 b)
bit_or-lt (suc k) a b h l = omega (
  arith,
  bit_or_step a b,
  pow-suc 2 k,
  bit_or-lt k (a / 2) (b / 2) (omega (arith, pow-suc 2 k)) (omega (arith, pow-suc 2 k)),
)

pub bit_xor-lt : (k a b : ℕ) → a < 2 ^ k → b < 2 ^ k → bit_xor a b < 2 ^ k
bit_xor-lt zero a b h l = ground (arith, bit_xor-bitwise 0 b)
bit_xor-lt (suc k) a b h l = omega (
  arith,
  bit_xor_step a b,
  differ-le a b,
  pow-suc 2 k,
  bit_xor-lt k (a / 2) (b / 2) (omega (arith, pow-suc 2 k)) (omega (arith, pow-suc 2 k)),
)
