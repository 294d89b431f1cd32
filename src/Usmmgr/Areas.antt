-- ===== src/Usmmgr/Areas.antt =====
-- The areas that are mapped on demand.
use enb_l1_b4860_ppc.Common.{ℕ, ◌≡◌, ◌≢◌, ◌⊎◌, true, false, arith}
use enb_l1_b4860_ppc.Usmmgr.{
  MemRange, Usmmgr, get_area, get_shared_ctrl_area, get_dsp_ccsr_area, get_pa_ccsr_area,
}

get_area-again :
    (mapped mapped' : ℕ → ℕ → ℕ) (sys kept r r' : MemRange)
    → mapped sys.phys_addr sys.size ≢ 0
    → ((get_area mapped sys kept r).0 ≡ false)
      ⊎ (((get_area mapped sys kept r).1 ≡ (get_area mapped sys kept r).2)
          × (get_area mapped' sys (get_area mapped sys kept r).2 r'
              ≡ (true, (get_area mapped sys kept r).1, (get_area mapped sys kept r).2)))
unfolding get_area
get_area-again mapped mapped' sys kept r r' h = ground arith

-- Each of the three functions for an area fails, or it returns the range that any later call
-- returns too, whatever mmap would then answer and whatever the caller's range held; the first
-- mmap does not return 0.
pub areas-kept :
    (mapped mapped' : ℕ → ℕ → ℕ) (m : Usmmgr) (r r' : MemRange)
    → ((p n : ℕ) → mapped p n ≢ 0)
    → (let (ok, s, m') = get_shared_ctrl_area mapped m r in
        (ok ≡ false) ⊎ (get_shared_ctrl_area mapped' m' r' ≡ (true, s, m')))
      × (let (ok, s, m') = get_dsp_ccsr_area mapped m r in
          (ok ≡ false) ⊎ (get_dsp_ccsr_area mapped' m' r' ≡ (true, s, m')))
      × (let (ok, s, m') = get_pa_ccsr_area mapped m r in
          (ok ≡ false) ⊎ (get_pa_ccsr_area mapped' m' r' ≡ (true, s, m')))
unfolding get_shared_ctrl_area get_dsp_ccsr_area get_pa_ccsr_area
areas-kept mapped mapped' m r r' h = (
  ground (arith, get_area-again mapped mapped' m.sh_ctrl_area m.shared_area r r' (h _ _)),
  ground (arith, get_area-again mapped mapped' m.dsp_ccsrbar m.dsp_ccsr r r' (h _ _)),
  ground (arith, get_area-again mapped mapped' m.pa_ccsrbar m.pa_ccsr r r' (h _ _)),
)
