-- ===== src/Ipc/Errors.antt =====
-- When the transfers of pointers and messages succeed, and what they do when they fail.
use enb_l1_b4860_ppc.Common.{ℕ, ◌<◌, ◌≡◌, ◌⊎◌, ◌↔◌, Bool, true, none, arith}
use enb_l1_b4860_ppc.Channel.{initialized}
use enb_l1_b4860_ppc.Channel.Ring.{IsRing, pending, is_full_iff, is_empty_iff}
use enb_l1_b4860_ppc.Ipc.{
  success, Ipc, channel_at, open_prod_ch, send_ptr, send_msg, send_msg_opened, recv_ptr, recv_msg,
  set_consumed_status,
}

module _ (lock : ℕ → Bool) (p2v : ℕ → ℕ) (id : ℕ) where
  -- Each of fsl_ipc_send_ptr, fsl_ipc_send_msg, fsl_ipc_recv_ptr, fsl_ipc_recv_msg and
  -- fsl_ipc_set_consumed_status returns ERR_SUCCESS, or it leaves the state as it was and stores
  -- nothing through its pointers; fsl_ipc_send_msg has marked the channel as opened all the same.
  pub failure-keeps :
      (ipc : Ipc) (a n : ℕ)
      → (((send_ptr lock p2v id a n ipc).0 ≡ success) ⊎ ((send_ptr lock p2v id a n ipc).1 ≡ ipc))
        × (((send_msg lock p2v id a n ipc).0 ≡ success)
            ⊎ ((send_msg lock p2v id a n ipc).1 ≡ open_prod_ch id ipc))
        × (((recv_ptr lock p2v id ipc).0 ≡ success)
            ⊎ (((recv_ptr lock p2v id ipc).1 ≡ none) × ((recv_ptr lock p2v id ipc).2 ≡ ipc)))
        × (((recv_msg lock p2v id a ipc).0 ≡ success)
            ⊎ (((recv_msg lock p2v id a ipc).1 ≡ none) × ((recv_msg lock p2v id a ipc).2 ≡ ipc)))
        × (((set_consumed_status lock p2v id ipc).0 ≡ success)
            ⊎ ((set_consumed_status lock p2v id ipc).1 ≡ ipc))
  unfolding send_ptr send_msg send_msg_opened recv_ptr recv_msg set_consumed_status
  failure-keeps ipc a n = ground arith

  -- On a valid ring `fsl_ipc_send_ptr` succeeds exactly when the consumer has opened the channel,
  -- the semaphore can be had and fewer descriptors wait than the ring holds.
  pub send_ptr-success_iff :
      (ipc : Ipc) (a n : ℕ)
      → IsRing (channel_at ipc id)
      → ((send_ptr lock p2v id a n ipc).0 ≡ success) ↔ (
          ((channel_at ipc id).consumer_initialized ≡ initialized)
          × (lock id ≡ true)
          × (pending (channel_at ipc id) < (channel_at ipc id).bd_ring_size))
  unfolding send_ptr
  send_ptr-success_iff ipc a n v = ground (arith, v, is_full_iff v)

  -- `fsl_ipc_recv_ptr` succeeds exactly when the channel exists, its producer has opened it, the
  -- semaphore can be had and a descriptor waits.
  pub recv_ptr-success_iff :
      (ipc : Ipc)
      → IsRing (channel_at ipc id)
      → ((recv_ptr lock p2v id ipc).0 ≡ success) ↔ (
          (id < ipc.max_channels)
          × ((channel_at ipc id).producer_initialized ≡ initialized)
          × (lock id ≡ true)
          × (0 < pending (channel_at ipc id)))
  unfolding recv_ptr
  recv_ptr-success_iff ipc v = ground (arith, v, is_empty_iff v)
