-- ===== src/Time/Laws.antt =====
-- The operations on time values, in microseconds.
use enb_l1_b4860_ppc.Common.{ℕ, ◌+◌, ◌-◌, ◌*◌, ◌/◌, ◌^◌, ◌<◌, ◌≡◌, ◌↔◌, true, arith}
use enb_l1_b4860_ppc.Time.{
  Timeval, timeval_add, timeval_sub, timeval_get_monotone, timeval_from_monotone_us,
}

abbrev pub micros : Timeval → ℕ
micros t = t.tv_sec * 1000000 + t.tv_usec

-- The seconds are a long that is not negative, and the microseconds are less than a second.
pub record IsNormal (t : Timeval) : Type 0 where
  pub sec : t.tv_sec < 2 ^ 31
  pub usec : t.tv_usec < 1000000

-- The sum of two normal time values, when its seconds fit, is normal and is their sum in
-- microseconds.
pub timeval_add-micros :
    {a b : Timeval}
    → IsNormal a
    → IsNormal b
    → a.tv_sec + b.tv_sec + 1 < 2 ^ 31
    → IsNormal (timeval_add a b) × (micros (timeval_add a b) ≡ micros a + micros b)
unfolding timeval_add
timeval_add-micros {a} {b} v w h = (ground (arith, v, w), ground (arith, v, w))

-- `timeval_sub` on normal time values says whether the first is the earlier one, and gives the
-- distance of the two in microseconds as a normal time value.
pub timeval_sub-micros :
    {a b : Timeval}
    → IsNormal a
    → IsNormal b
    → (let (negative, t) = timeval_sub a b in
        ((negative ≡ true) ↔ (micros a < micros b))
        × IsNormal t
        × (micros t ≡ (micros a - micros b) + (micros b - micros a)))
unfolding timeval_sub
timeval_sub-micros {a} {b} v w = (ground (arith, v, w), ground (arith, v, w), ground (arith, v, w))

-- `timeval_get_monotone` on a normal time value is its microseconds exactly if these are below
-- 2 ^ 31, which is less than 36 minutes.
pub timeval_get_monotone_iff :
    {a : Timeval} → IsNormal a → (timeval_get_monotone a ≡ micros a) ↔ (micros a < 2 ^ 31)
unfolding timeval_get_monotone
timeval_get_monotone_iff {a} v = ground (arith, v)

-- A number of microseconds whose seconds fit in a long is kept by `timeval_from_monotone_us`, as a
-- normal time value.
pub timeval_from_monotone_us-micros :
    (us : ℕ)
    → us / 1000000 < 2 ^ 31
    → IsNormal (timeval_from_monotone_us us) × (micros (timeval_from_monotone_us us) ≡ us)
unfolding timeval_from_monotone_us
timeval_from_monotone_us-micros us h = (ground arith, ground arith)
