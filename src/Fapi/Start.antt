-- ===== src/Fapi/Start.antt =====
-- b4860/fapi_b4860.c: emptying the channel from L1, and waiting for the DSP. The loop that empties
-- the channel runs on fuel; `seen` are the states of the process's IPC at the polls of is_dsp_up.
pub mod Laws
use enb_l1_b4860_ppc.Common.{
  ℕ, zero, suc, ◌+◌, ◌/◌, ◌^◌, Bool, true, false, Option, none, some, ◌==◌, if◌then◌else◌, bit_and,
}
use enb_l1_b4860_ppc.Ipc.{Code, success, channel_empty, Ipc, recv_ptr, chk_recv_status}
use enb_l1_b4860_ppc.Fapi.{ipc_sc2pa_ch_id}

module _ (lock : ℕ → Bool) (p2v : ℕ → ℕ) where
  -- `do ret = fsl_ipc_recv_ptr(...) while (ret == 0)`: the last code, and the state.
  unfoldable pub drain : ℕ → Ipc → Option (Code × Ipc)
  drain zero ipc = none
  drain (suc fuel) ipc =
      let (code, bd, ipc') = recv_ptr lock p2v ipc_sc2pa_ch_id ipc in
      let rest = drain fuel ipc' in elim code [ success ↦ rest | err ↦ some (err, ipc') ]

  -- `ipc_reset_channel`, which does not look at its parameter.
  unfoldable pub ipc_reset_channel : ℕ → ℕ → Ipc → Option (Code × Ipc)
  unfolding drain
  ipc_reset_channel fuel ch_id ipc = elim (drain fuel ipc) [
    | none ↦ none
    | some (code, ipc') ↦ elim code [
      | channel_empty ↦ some (success, ipc')
      | err ↦ some (err, ipc')
    ]
  ]

-- The loop of `is_dsp_up`, from round `i` on.
unfoldable pub poll : ℕ → ℕ → (ℕ → Ipc) → Bool
poll zero i seen = false
poll (suc n) i seen =
    let rest = poll n (i + 1) seen in
    if bit_and (chk_recv_status (seen i) / 2 ^ 63) 1 == 0 then rest else true

-- `is_dsp_up`
unfoldable pub is_dsp_up : (ℕ → Ipc) → Bool
unfolding poll
is_dsp_up seen = poll 32 0 seen
