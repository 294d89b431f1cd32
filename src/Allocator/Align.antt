-- ===== src/Allocator/Align.antt =====
-- Clearing the low bits of an address.
use enb_l1_b4860_ppc.Common.{
  ℕ, zero, suc, ◌+◌, ◌-◌, ◌*◌, ◌/◌, ◌%◌, ◌^◌, ◌≤◌, ◌<◌, ◌≡◌, ap, sym, subst, arith, bit_and,
  mod-eq_of_lt,
}
use native.Mathlib.Nat.{one-le-pow, div-lt_iff_lt-mul, mul-mod_left}
use enb_l1_b4860_ppc.Common.Bits.{halves, bit_and_mask, two_pow_suc}
use enb_l1_b4860_ppc.Allocator.Ops.{align_down}

pow_split : (k m : ℕ) → 2 ^ (k + m) ≡ 2 ^ m * 2 ^ k
pow_split zero m = let h : 0 + m ≡ m = omega arith in omega (arith, ap (λ (t : ℕ). 2 ^ t) h)
pow_split (suc k) m =
    ground (arith, pow_split k m, two_pow_suc (k + m), ap (λ (t : ℕ). 2 ^ m * t) (two_pow_suc k))

pub clear_low :
    (m k q r : ℕ)
    → q < 2 ^ m
    → r < 2 ^ k
    → bit_and (q * 2 ^ k + r) ((2 ^ m - 1) * 2 ^ k) ≡ q * 2 ^ k
clear_low m zero q r hq hr =
    let x : q * 2 ^ 0 + r ≡ q = omega arith in
    let y : (2 ^ m - 1) * 2 ^ 0 ≡ 2 ^ m - 1 = omega arith in
    rw (x, y, bit_and_mask m q) (omega (arith, mod-eq_of_lt hq))
clear_low m (suc k) q r hq hr = ground (
  arith,
  two_pow_suc k,
  ap (λ (t : ℕ). q * t) (two_pow_suc k),
  ap (λ (t : ℕ). (2 ^ m - 1) * t) (two_pow_suc k),
  halves (q * 2 ^ suc k + r) ((2 ^ m - 1) * 2 ^ suc k),
  clear_low m k q (r / 2) hq (omega (arith, two_pow_suc k)),
)

pred_mul : (p b : ℕ) → 0 < p → (p - 1) * b + b ≡ p * b
pred_mul zero b h = absurd (omega arith)
pred_mul (suc p) b h = grind arith

-- For an alignment that is a power of two, what is cleared is the remainder.
pub align_down_pow :
    (k m a : ℕ) → k + m ≡ 64 → a < 2 ^ 64 → align_down a (2 ^ k) ≡ a / 2 ^ k * 2 ^ k
align_down_pow k m a h hi =
    let b : 0 < 2 ^ k = ground (arith, one-le-pow k 2) in
    let e : 2 ^ 64 ≡ 2 ^ m * 2 ^ k = omega (arith, ap (λ (t : ℕ). 2 ^ t) h, pow_split k m) in
    let mask : 2 ^ 64 - 2 ^ k ≡ (2 ^ m - 1) * 2 ^ k =
      omega (arith, e, pred_mul (2 ^ m) (2 ^ k) (ground (arith, one-le-pow m 2))) in
    let parts : a ≡ a / 2 ^ k * 2 ^ k + a % 2 ^ k = grind arith in
    let few : a / 2 ^ k < 2 ^ m =
      grind (arith, div-lt_iff_lt-mul {k = 2 ^ k} {x = a} {y = 2 ^ m} b) in
    let small : a % 2 ^ k < 2 ^ k = grind arith in
    rw mask (
      subst (λ (t : ℕ). bit_and t ((2 ^ m - 1) * 2 ^ k) ≡ a / 2 ^ k * 2 ^ k) (sym parts)
        (clear_low m k (a / 2 ^ k) (a % 2 ^ k) few small))

-- It is the multiple of the alignment at or below the address.
pub align_down-below :
    (k m a : ℕ)
    → k + m ≡ 64
    → a < 2 ^ 64
    → (align_down a (2 ^ k) % 2 ^ k ≡ 0)
      × (align_down a (2 ^ k) ≤ a)
      × (a < align_down a (2 ^ k) + 2 ^ k)
align_down-below k m a h hi =
    let b : 0 < 2 ^ k = ground (arith, one-le-pow k 2) in
    rw (align_down_pow k m a h hi) (mul-mod_left (a / 2 ^ k) (2 ^ k), grind arith, grind arith)

pub half_word : (k m : ℕ) → k + suc m ≡ 64 → 2 ^ k ≤ 2 ^ 63
half_word k m h =
    let e : k + m ≡ 63 = omega arith in
    let f : 2 ^ 63 ≡ 2 ^ m * 2 ^ k = omega (arith, ap (λ (t : ℕ). 2 ^ t) e, pow_split k m) in
    omega (arith, f, pred_mul (2 ^ m) (2 ^ k) (ground (arith, one-le-pow m 2)))
