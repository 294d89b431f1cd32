-- ===== src/Common/Bits.antt =====
-- `&` with a mask of low ones is a remainder, and `n & (n - 1)` clears the lowest one.
use Prim.Native.Nat.{
  ℕ, zero, suc, ◌+◌, ◌-◌, ◌*◌, ◌/◌, ◌%◌, ◌^◌, ◌≤◌, ◌<◌, min, bit_and, bit_and-bitwise,
}
use enb_l1_b4860_ppc.Common.Digits.{bitwise-suc}
use mathlib.Core.Path.{◌≡◌, ap}
use mathlib.Core.Logic.{◌⊎◌, inl, inr}
use native.Mathlib.Nat.{le_refl, pow-suc, one-le-pow}
use native.Mathlib.Omega.{arith}

none_and : (y : ℕ) → bit_and 0 y ≡ 0
none_and y = bit_and-bitwise 0 y

pub halves : (x y : ℕ) → bit_and x y ≡ bit_and (x / 2) (y / 2) * 2 + min (x % 2) (y % 2)
halves zero y = ground (arith, none_and y, none_and (y / 2))
halves (suc x) y = omega (
  arith,
  bitwise-suc (λ b. zero) min x y,
  bit_and-bitwise (suc x) y,
  bit_and-bitwise (suc x / 2) (y / 2),
)

-- `&` with 0, and of a number with itself, for the numbers up to a bound.
and_none_upto : (bound x : ℕ) → x ≤ bound → bit_and x 0 ≡ 0
and_none_upto bound zero h = none_and 0
and_none_upto zero (suc x) h = absurd (omega arith)
and_none_upto (suc bound) (suc x) h =
    let half = and_none_upto bound (suc x / 2) (omega arith) in
    omega (arith, halves (suc x) 0, half)

and_same_upto : (bound x : ℕ) → x ≤ bound → bit_and x x ≡ x
and_same_upto bound zero h = none_and 0
and_same_upto zero (suc x) h = absurd (omega arith)
and_same_upto (suc bound) (suc x) h =
    let half = and_same_upto bound (suc x / 2) (omega arith) in
    omega (arith, halves (suc x) (suc x), half)

pub bit_and-zero : (x : ℕ) → bit_and x 0 ≡ 0
bit_and-zero x = and_none_upto x x (le_refl x)

pub two_pow_suc : (k : ℕ) → 2 ^ suc k ≡ 2 * 2 ^ k
two_pow_suc k = omega (arith, pow-suc 2 k)

-- The low `k` bits of a number whose other bits are those of `q`.
bit_and-low : (k q r : ℕ) → r < 2 ^ k → bit_and (q * 2 ^ k + r) (2 ^ k - 1) ≡ r
bit_and-low zero q r h = ground (arith, bit_and-zero (q * 1 + r))
bit_and-low (suc k) q r h = ground (
  arith,
  two_pow_suc k,
  ap (λ (t : ℕ). q * t) (two_pow_suc k),
  halves (q * 2 ^ suc k + r) (2 ^ suc k - 1),
  bit_and-low k q (r / 2) (omega (arith, two_pow_suc k)),
)

pub bit_and_mask : (k a : ℕ) → bit_and a (2 ^ k - 1) ≡ a % 2 ^ k
bit_and_mask k a = ground (arith, one-le-pow k 2, bit_and-low k (a / 2 ^ k) (a % 2 ^ k))

-- `n & (n - 1)` at an even and at an odd number.
clear_even : (m : ℕ) → 0 < m → bit_and (2 * m) (2 * m - 1) ≡ 2 * bit_and m (m - 1)
clear_even m h = ground (arith, halves (2 * m) (2 * m - 1))

clear_odd : (m : ℕ) → bit_and (2 * m + 1) (2 * m) ≡ 2 * m
clear_odd m = ground (arith, halves (2 * m + 1) (2 * m), and_same_upto m m (le_refl m))

abbrev pub Cleared : ℕ → ℕ → ℕ → Type 0
Cleared k n c = ((c ≡ 0) × (n ≡ 2 ^ k)) ⊎ ((2 ^ k ≤ c) × (c < n))

Cleared-even :
    (k n m : ℕ)
    → n ≡ 2 * m
    → 0 < m
    → Cleared k m (bit_and m (m - 1))
    → Cleared (suc k) n (bit_and n (n - 1))
Cleared-even k n m e pos (inl (z, p)) =
    inl (ground (arith, clear_even m), omega (arith, two_pow_suc k))
Cleared-even k n m e pos (inr (lo, hi)) =
    inr (ground (arith, clear_even m, two_pow_suc k), ground (arith, clear_even m))

-- Between two powers of two, `n & (n - 1)` is 0 at the lower one only, and falls but not below it.
pub clear_bounds : (k n : ℕ) → 2 ^ k ≤ n → n < 2 ^ suc k → Cleared k n (bit_and n (n - 1))
clear_bounds zero n lo hi = ground (arith, bit_and-zero 1)
clear_bounds (suc k) n lo hi = ground (
  arith,
  two_pow_suc k,
  two_pow_suc (suc k),
  one-le-pow k 2,
  clear_odd (n / 2),
  Cleared-even k n (n / 2),
  clear_bounds k (n / 2),
)

-- Each clearing leaves one more low zero.
pub clear_zeros :
    (j q n : ℕ) → 0 < n → n ≡ q * 2 ^ j → (r : ℕ) × (bit_and n (n - 1) ≡ r * 2 ^ suc j)
clear_zeros zero q n pos e = (bit_and n (n - 1) / 2, omega (arith, halves n (n - 1)))
clear_zeros (suc j) q n pos e =
    let twice : q * 2 ^ suc j ≡ 2 * (q * 2 ^ j) =
      omega (arith, ap (λ (t : ℕ). q * t) (two_pow_suc j)) in
    let (r, c) = clear_zeros j q (n / 2) (omega arith) (omega arith) in
    (r, ground (arith, clear_even (n / 2), ap (λ (t : ℕ). r * t) (two_pow_suc (suc j))))
