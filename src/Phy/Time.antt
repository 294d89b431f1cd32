-- ===== src/Phy/Time.antt =====
-- The time of the air interface.
use enb_l1_b4860_ppc.Common.{ℕ, ◌+◌, ◌*◌, ◌%◌, ◌<◌, ◌≡◌, ◌≢◌, arith}
use enb_l1_b4860_ppc.Phy.{Clock, next_abs, set_time}

-- For a frame below 1024 and a subframe below 10, phy_common_set_time sets the TTI to send to theirs;
-- the TTI that is received is 4 before and the one that is scheduled for the uplink 4 after it, modulo
-- 10240, and each of them has its frame and its subframe.
set_time-cycle :
    (c : Clock) (frame subframe : ℕ)
    → frame < 1024
    → subframe < 10
    → (let c' = set_time c frame subframe in
        (c'.tti_tx ≡ frame * 10 + subframe)
        × ((c'.tti_rx + 4) % 10240 ≡ c'.tti_tx)
        × (c'.tti_sched_ul ≡ (c'.tti_rx + 8) % 10240)
        × (c'.frame_rx * 10 + c'.sf_rx ≡ c'.tti_rx)
        × (c'.frame_sched_ul * 10 + c'.sf_sched_ul ≡ c'.tti_sched_ul)
        × (c'.frame_rx < 1024)
        × (c'.sf_rx < 10)
        × (c'.frame_sched_ul < 1024)
        × (c'.sf_sched_ul < 10))
unfolding set_time
set_time-cycle c frame subframe hf hs = ground arith

-- In two TTIs one after the other, not at the end of the cycle, the helper TTI is set anew and does
-- not count on: whatever it was, after both it is the TTI modulo 10240, unless it stood exactly at
-- the first of them.
set_time-abs :
    (c : Clock) (frame subframe : ℕ)
    → frame < 1024
    → subframe < 9
    → c.abs_tti_tx % 10240 ≢ frame * 10 + subframe
    → (set_time (set_time c frame subframe) frame (subframe + 1)).abs_tti_tx
      ≡ frame * 10 + subframe + 1
unfolding set_time next_abs
set_time-abs c frame subframe hf hs other = ground arith
