-- ===== src/BlockQueue/Capacity.antt =====
-- The capacity that `block_queue_init` chooses: `power_of_two_round_up`.
use enb_l1_b4860_ppc.Common.{
  mod-eq_of_lt, ℕ, zero, suc, ◌+◌, ◌-◌, ◌*◌, ◌^◌, ◌≤◌, ◌<◌, ◌≡◌, refl, inl, inr, true, false, leb,
  some, arith, bit_and, sub32, word_mod, one-le-pow, pow-suc, dec_lt, pow-le-pow_right, [],
  length-replicate,
}
use enb_l1_b4860_ppc.Common.Bits.{clear_bounds, clear_zeros}
use enb_l1_b4860_ppc.BlockQueue.{BlockQueue, no_item, clear_low, power_of_two_round_up, init, fresh}
use enb_l1_b4860_ppc.BlockQueue.Inv.{IsValid}
use enb_l1_b4860_ppc.BlockQueue.Refine.{contents, IsOpen}

-- A positive number lies between two powers of two.
log_bounds : (n : ℕ) → 0 < n → (k : ℕ) × (2 ^ k ≤ n) × (n < 2 ^ suc k)
log_bounds zero h = absurd (omega arith)
log_bounds (suc zero) h = (0, omega arith, omega arith)
log_bounds (suc (suc n)) h =
    let (k, lo, hi) = log_bounds (suc n) (omega arith) in
    elim (dec_lt (suc (suc n)) (2 ^ suc k)) [
      | yes p ↦ (k, omega arith, p)
      | no p ↦ (suc k, omega arith, omega (arith, pow-suc 2 (suc k), one-le-pow (suc k) 2))
    ]

-- The loop ends, at the highest power of two that is not above `n`. Every round adds a low zero,
-- so a number below `2 ^ (k + 1)` with `j` low zeros takes at most `k + 1 - j` rounds.
clear_low-eq :
    (fuel k j q n : ℕ)
    → 2 ^ k ≤ n
    → n < 2 ^ suc k
    → 2 ^ suc k ≤ word_mod
    → n ≡ q * 2 ^ j
    → k < fuel + j
    → clear_low fuel n ≡ some (2 ^ k)
unfolding clear_low
clear_low-eq zero k j zero n lo hi word zeros enough = absurd (omega (arith, one-le-pow k 2))
clear_low-eq zero k j (suc q) n lo hi word zeros enough =
    let many : suc k ≤ j = omega arith in
    absurd (omega (arith, pow-le-pow_right {n = 2} (omega arith) many))
clear_low-eq (suc fuel) k j q n lo hi word zeros enough =
    let pos : 0 < n = omega (arith, one-le-pow k 2) in
    let minus : sub32 n 1 ≡ n - 1 = omega arith in
    let (r, next) = clear_zeros j q n pos zeros in
    rw minus (elim (clear_bounds k n lo hi) [
      | inl (gone, p) ↦ ground (arith)
      | inr (lo', hi') ↦ ground (
        arith,
        one-le-pow k 2,
        clear_low-eq fuel k (suc j) r (bit_and n (n - 1)) lo' (omega arith) word next (omega arith),
      )
    ])

exponent_lt : (k b : ℕ) → 2 ^ k < 2 ^ b → k < b
exponent_lt k b h = elim (dec_lt k b) [
  | yes p ↦ p
  | no p ↦
      let above : b ≤ k = omega arith in
      absurd (omega (arith, pow-le-pow_right {n = 2} (omega arith) above))
]

-- For 2 to 2 ^ 30 the loop ends and gives the least power of two that is not below `n`; it is within
-- the range of an int.
pub power_of_two_round_up-least :
    (n : ℕ)
    → 2 ≤ n
    → n ≤ 2 ^ 30
    → (k : ℕ) × (power_of_two_round_up n ≡ some (2 ^ k)) × (n ≤ 2 ^ k) × (2 ^ k ≤ 2 * (n - 1))
unfolding power_of_two_round_up
power_of_two_round_up-least n two top =
    let (k, lo, hi) = log_bounds (n - 1) (omega arith) in
    let small : 2 ^ k < 2 ^ 30 = omega arith in
    let few : k < 32 = exponent_lt k 32 (omega arith) in
    let word = pow-le-pow_right {n = 2} (omega arith) {i = suc k} {j = 32} few in
    let in_range : leb (2 ^ 30) (2 ^ k) ≡ false = ground (arith, small) in
    let minus : sub32 n 1 ≡ n - 1 = omega arith in
    let ends = clear_low-eq 32 k 0 (n - 1) (n - 1) lo hi word (omega arith) (omega arith) in
    (
      suc k,
      rw (power_of_two_round_up, minus, ends, in_range) (ground (arith, pow-suc 2 k)),
      omega (arith),
      omega (arith, pow-suc 2 k),
    )

fresh-IsValid : (k : ℕ) → k ≤ 30 → 2 ^ k ≤ 2 ^ 30 → IsValid (fresh (2 ^ k))
fresh-IsValid k h fits = record {
  exponent = k;
  exponent_le = h;
  power = refl;
  small = fits;
  storage = omega (arith, length-replicate (2 ^ k) no_item);
  head_in = one-le-pow k 2 (omega arith);
  tail_in = one-le-pow k 2 (omega arith);
  count = omega arith;
  apart = ground (arith, mod-eq_of_lt {n = 0} {m = 2 ^ k} (one-le-pow k 2 (omega arith)));
}

-- What block_queue_init returns for a length from 2 to 2 ^ 30, if both calls of calloc succeed, is a
-- valid, empty, unbroken queue with room for at least that many items, and for fewer than twice as
-- many.
pub init-IsValid :
    (n : ℕ)
    → 2 ≤ n
    → n ≤ 2 ^ 30
    → (q : BlockQueue) × (init true n ≡ some q)
      × IsValid q
      × IsOpen q
      × (contents q ≡ [])
      × (n ≤ q.len)
      × (q.len < 2 * n)
unfolding init
init-IsValid n two top =
    let (k, ends, lo, hi) = power_of_two_round_up-least n two (omega arith) in
    let few : k < 31 = exponent_lt k 31 (omega arith) in
    let below : k ≤ 30 = omega arith in
    let fits = pow-le-pow_right {n = 2} (omega arith) below in
    (fresh (2 ^ k), rw ends, fresh-IsValid k below fits, (refl, refl), refl, lo, omega arith)
