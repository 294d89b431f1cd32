-- ===== src/Common/Testbit.antt =====
-- The bits of a number, and of `|`.
use Prim.Native.Nat.{ℕ, zero, suc, ◌+◌, ◌*◌, ◌/◌, ◌%◌, ◌^◌, ◌≤◌, ◌<◌, max, bit_or, bit_or-bitwise}
use enb_l1_b4860_ppc.Common.Digits.{bitwise-suc}
use mathlib.Core.Path.{◌≡◌, refl, ap, ◌∙◌}
use mathlib.Core.Logic.{◌≢◌}
use native.Mathlib.Nat.{pow-suc, le_refl}
use enb_l1_b4860_ppc.Common.Bits.{two_pow_suc}
use native.Mathlib.Omega.{arith}

-- Bit `k` of a number, 0 or 1.
unfoldable pub testbit : ℕ → ℕ → ℕ
testbit zero a = a % 2
testbit (suc k) a = testbit k (a / 2)

pub or_none : (y : ℕ) → bit_or 0 y ≡ y
or_none y = bit_or-bitwise 0 y

pub halves_or : (x y : ℕ) → bit_or x y ≡ bit_or (x / 2) (y / 2) * 2 + max (x % 2) (y % 2)
halves_or zero y = ground (arith, or_none y, or_none (y / 2))
halves_or (suc x) y = omega (
  arith,
  bitwise-suc (λ b. b) max x y,
  bit_or-bitwise (suc x) y,
  bit_or-bitwise (suc x / 2) (y / 2),
)

pub testbit-or : (k a b : ℕ) → testbit k (bit_or a b) ≡ max (testbit k a) (testbit k b)
unfolding testbit
testbit-or zero a b = ground (arith, halves_or a b)
testbit-or (suc k) a b =
    let half : bit_or a b / 2 ≡ bit_or (a / 2) (b / 2) = ground (arith, halves_or a b) in
    rw half (testbit-or k (a / 2) (b / 2))

pub testbit_le : (k a : ℕ) → testbit k a ≤ 1
unfolding testbit
testbit_le zero a = omega arith
testbit_le (suc k) a = testbit_le k (a / 2)

pub testbit-zero : (k : ℕ) → testbit k 0 ≡ 0
unfolding testbit
testbit-zero zero = refl
testbit-zero (suc k) = testbit-zero k

pub testbit-pow_self : (k : ℕ) → testbit k (2 ^ k) ≡ 1
unfolding testbit
testbit-pow_self zero = refl
testbit-pow_self (suc k) =
    let half : 2 ^ suc k / 2 ≡ 2 ^ k = omega (arith, pow-suc 2 k) in rw half (testbit-pow_self k)

pub testbit-pow_ne : (k j : ℕ) → k ≢ j → testbit k (2 ^ j) ≡ 0
unfolding testbit
testbit-pow_ne zero zero h = absurd (h refl)
testbit-pow_ne zero (suc j) h = omega (arith, pow-suc 2 j)
testbit-pow_ne (suc k) zero h = testbit-zero k
testbit-pow_ne (suc k) (suc j) h =
    let half : 2 ^ suc j / 2 ≡ 2 ^ j = omega (arith, pow-suc 2 j) in
    rw half (testbit-pow_ne k j (λ e. h (ap suc e)))

-- `|` with 0, for the numbers up to a bound.
or_zero_upto : (bound x : ℕ) → x ≤ bound → bit_or x 0 ≡ x
or_zero_upto bound zero h = or_none 0
or_zero_upto zero (suc x) h = absurd (omega arith)
or_zero_upto (suc bound) (suc x) h =
    let half = or_zero_upto bound (suc x / 2) (omega arith) in
    ground (arith, halves_or (suc x) 0, half)

-- A field of `k` bits below another does not overlap it.
pub or_fields : (k x y : ℕ) → y < 2 ^ k → bit_or (x * 2 ^ k) y ≡ x * 2 ^ k + y
or_fields zero x y h =
    let none_left : y ≡ 0 = omega arith in
    let whole : x * 2 ^ 0 ≡ x = omega arith in
    rw (none_left, whole) (or_zero_upto x x (le_refl x) ∙ omega arith)
or_fields (suc k) x y h =
    let twice : x * 2 ^ suc k ≡ 2 * (x * 2 ^ k) =
      omega (arith, ap (λ (t : ℕ). x * t) (two_pow_suc k)) in
    let half = or_fields k x (y / 2) (omega (arith, h, two_pow_suc k)) in
    ground (arith, halves_or (x * 2 ^ suc k) y, twice, half)
