-- ===== src/Time.antt =====
-- lib/core/time.c: arithmetic on struct timeval. Its fields are of type long with 32 bits; they are
-- kept as words, which are the values of the fields as long as these are not negative.
pub mod Laws
mod Tests
use enb_l1_b4860_ppc.Common.{
  ℕ, ◌+◌, ◌-◌, ◌*◌, ◌/◌, ◌%◌, ◌^◌, Bool, true, false, if◌then◌else◌, leb, ltb, add32, sub32,
  word_mod,
}

pub record Timeval : Type 0 where
  pub tv_sec : ℕ
  pub tv_usec : ℕ

-- `timeval_add`
unfoldable pub timeval_add : Timeval → Timeval → Timeval
timeval_add a b =
    let sec = add32 a.tv_sec b.tv_sec in
    let usec = add32 a.tv_usec b.tv_usec in
    if leb 1000000 usec
    then record { tv_sec = add32 sec 1; tv_usec = sub32 usec 1000000 }
    else record { tv_sec = sec; tv_usec = usec }

-- The difference when the first is the later one: the first halves of the three branches.
abbrev pub difference : Timeval → Timeval → Timeval
difference a b =
    if leb b.tv_usec a.tv_usec
    then record { tv_sec = sub32 a.tv_sec b.tv_sec; tv_usec = sub32 a.tv_usec b.tv_usec }
    else record {
      tv_sec = sub32 (sub32 a.tv_sec b.tv_sec) 1;
      tv_usec = add32 (sub32 1000000 b.tv_usec) a.tv_usec;
    }

-- `timeval_sub`: whether the difference is negative, and its absolute value.
unfoldable pub timeval_sub : Timeval → Timeval → Bool × Timeval
timeval_sub a b =
    if ltb b.tv_sec a.tv_sec
    then (false, difference a b)
    else if ltb a.tv_sec b.tv_sec
    then (true, difference b a)
    else if leb b.tv_usec a.tv_usec
    then (false, record { tv_sec = 0; tv_usec = sub32 a.tv_usec b.tv_usec })
    else (true, record { tv_sec = 0; tv_usec = sub32 b.tv_usec a.tv_usec })

-- A long as a uint64_t.
abbrev pub sign_extend : ℕ → ℕ
sign_extend w = if ltb w (2 ^ 31) then w else w + 2 ^ 64 - 2 ^ 32

-- `timeval_get_monotone`: the sum is of type long.
unfoldable pub timeval_get_monotone : Timeval → ℕ
timeval_get_monotone a = sign_extend ((a.tv_sec * 1000000 + a.tv_usec) % word_mod)

-- `timeval_from_monotone_us`
unfoldable pub timeval_from_monotone_us : ℕ → Timeval
timeval_from_monotone_us us = record { tv_sec = us / 1000000 % word_mod; tv_usec = us % 1000000 }
