-- ===== src/Ipc/Hold.antt =====
-- Reading in two steps: hold a descriptor, and acknowledge it later.
use enb_l1_b4860_ppc.Common.{ℕ, ◌<◌, ◌≡◌, Bool, none, some, arith}
use enb_l1_b4860_ppc.Channel.{initialized}
use enb_l1_b4860_ppc.Ipc.{
  Ipc, channel_at, recv_ptr, recv_ptr_hold, recv_msg_ptr, set_consumed_status,
}

module _ (lock : ℕ → Bool) (p2v : ℕ → ℕ) (id : ℕ) where
  -- `fsl_ipc_recv_ptr_hold` and then `fsl_ipc_set_consumed_status` have together the code, the
  -- descriptor and the effect of `fsl_ipc_recv_ptr`, on a channel that exists and is opened.
  pub hold-consumed-eq-recv :
      (ipc : Ipc)
      → id < ipc.max_channels
      → (channel_at ipc id).producer_initialized ≡ initialized
      → (let (code, bd) = recv_ptr_hold lock p2v id ipc in
          (code, bd, (set_consumed_status lock p2v id ipc).1))
        ≡ recv_ptr lock p2v id ipc
  unfolding recv_ptr recv_ptr_hold set_consumed_status
  hold-consumed-eq-recv ipc h e = ground arith

  -- `fsl_ipc_recv_msg_ptr` gives the mapped address and the length of the descriptor that
  -- `fsl_ipc_recv_ptr_hold` gives, with the same code, on a channel that is opened.
  pub recv_msg_ptr-eq_hold :
      (ipc : Ipc)
      → (channel_at ipc id).producer_initialized ≡ initialized
      → recv_msg_ptr lock p2v id ipc ≡ (
          let (code, bd) = recv_ptr_hold lock p2v id ipc in
          (code, elim bd [ none ↦ none | some b ↦ some (p2v b.msg_ptr, b.msg_len) ]))
  unfolding recv_msg_ptr recv_ptr_hold
  recv_msg_ptr-eq_hold ipc e = ground arith
