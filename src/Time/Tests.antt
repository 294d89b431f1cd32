-- ===== src/Time/Tests.antt =====
-- Time values on both sides of a carry.
use enb_l1_b4860_ppc.Common.{◌+◌, ◌-◌, ◌^◌, ◌<◌, ◌≡◌, ◌↔◌, refl, true, arith}
use enb_l1_b4860_ppc.Time.{Timeval, timeval_sub, timeval_get_monotone}
use enb_l1_b4860_ppc.Time.Laws.{micros, IsNormal, timeval_sub-micros}

abbrev early : Timeval
early = record { tv_sec = 10; tv_usec = 900000 }

abbrev late : Timeval
late = record { tv_sec = 12; tv_usec = 200000 }

early-IsNormal : IsNormal early
early-IsNormal = record { sec = omega arith; usec = omega arith }

late-IsNormal : IsNormal late
late-IsNormal = record { sec = omega arith; usec = omega arith }

timeval_sub-late : timeval_sub early late ≡ (true, record { tv_sec = 1; tv_usec = 300000 })
unfolding timeval_sub
timeval_sub-late = refl

-- An hour does not fit.
timeval_get_monotone-hour :
    timeval_get_monotone (record { tv_sec = 3600; tv_usec = 0 }) ≡ 2 ^ 64 - 694967296
unfolding timeval_get_monotone
timeval_get_monotone-hour = refl

timeval_sub-micros_example :
    let (negative, t) = timeval_sub early late in
    ((negative ≡ true) ↔ (micros early < micros late))
    × IsNormal t
    × (micros t ≡ (micros early - micros late) + (micros late - micros early))
timeval_sub-micros_example = timeval_sub-micros early-IsNormal late-IsNormal
