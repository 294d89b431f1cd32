-- ===== src/Fapi/Requests.antt =====
-- b4860/fapi_b4860.c: the requests of L2 to L1. A request takes a buffer of the ring, writes its
-- message behind the head, sets the length from the message and sends it.
use enb_l1_b4860_ppc.Common.{ℕ, ◌+◌, Bool, true, false, ◌==◌, if◌then◌else◌, Option, none, some}
use enb_l1_b4860_ppc.BlockQueue.{pop}
use enb_l1_b4860_ppc.Ipc.{Code, success, copy}
use enb_l1_b4860_ppc.Ipc.TxRequest.{store32}
use enb_l1_b4860_ppc.Shm.{Shm}
use enb_l1_b4860_ppc.Usmmgr.{Usmmgr}
use enb_l1_b4860_ppc.Fapi.{
  Fapi, p5_ipc, put_queue, with_memory, alloc_send_msg, alloc_cpri_eth_msg, ipc_send_msg,
  ipc_msg_size, length_at,
}
use enb_l1_b4860_ppc.Fapi.Messages.{
  DlConfigRequest, UlConfigRequest, channel_p5_req, channel_p7_req, channel_cpri_eth, header,
  set_length_from_l1, config_request_id, config_size, start_request_id, start_size, stop_request_id,
  stop_size, dl_config_body, dl_config_length, ul_config_body, ul_config_length, hi_dci0_body,
  hi_dci0_length,
}
use enb_l1_b4860_ppc.Fapi.TxData.{tx_request_message}

-- What fapi_p5_config_request writes: the configuration, also to `g_fapi_cfg_req`, and the header.
abbrev pub config_message : ℕ → ℕ → ℕ → (ℕ → ℕ) → ℕ → ℕ
config_message cfg config body m =
    header body config_request_id config_size
      (copy (copy m body config config_size) cfg config config_size)

-- What fapi_p5_config_request returns: -1; 1, with `*resp` NULL; or 0, with the answer in `*resp`.
pub data ConfigResult : Type 0 where
  send_failed no_answer : ConfigResult
  answered : ℕ → ConfigResult

module _ (shm : Shm) (usmmgr : Usmmgr) (lock : ℕ → Bool) (local : ℕ) where
  -- What the requests do: allocate, write the message, set the length, send.
  unfoldable pub request : ℕ → (ℕ → (ℕ → ℕ) → ℕ → ℕ) → Fapi → Code × Fapi
  unfolding alloc_send_msg ipc_send_msg
  request channel write f =
      let (msg, f') = alloc_send_msg channel f in
      let m = set_length_from_l1 msg (write (msg + ipc_msg_size) f'.ipc.memory) in
      ipc_send_msg shm usmmgr lock local msg (with_memory m f')

  -- `fapi_p5_config_request`; `woken` is the state in which block_queue_pop returns, and `none` says
  -- that it waits on.
  unfoldable pub p5_config_request : ℕ → Fapi → Fapi → Option (ConfigResult × Fapi)
  unfolding request
  p5_config_request config woken f =
      let (code, f') = request channel_p5_req (config_message f.g_fapi_cfg_req config) f in
      elim code [
        | success ↦ elim (pop (woken.queues p5_ipc)) [
          | none ↦ none
          | some (answer, q) ↦ some (
            (if answer == 0 then no_answer else answered answer),
            record woken { queues = put_queue woken.queues p5_ipc q },
          )
        ]
        | _ ↦ some (send_failed, f')
      ]

  -- `fapi_p5_start_request`, whether it returns 0. Afterwards the CPRI Ethernet link is started.
  unfoldable pub p5_start_request : Fapi → Bool × Fapi
  unfolding request
  p5_start_request f =
      let (code, f') =
        request channel_p5_req (λ body m. header body start_request_id start_size m) f in
      elim code [ success ↦ (true, record f' { cpri_eth_started = true }) | _ ↦ (false, f') ]

  -- `fapi_p5_stop_request`, and the P7 requests, which return 0 whether or not the message is sent:
  -- the code is the one that they log.
  unfoldable pub p5_stop_request : Fapi → Code × Fapi
  unfolding request
  p5_stop_request f = request channel_p5_req (λ body m. header body stop_request_id stop_size m) f

  -- `fapi_p7_dl_config_request`
  unfoldable pub p7_dl_config_request : DlConfigRequest → Fapi → Code × Fapi
  unfolding request
  p7_dl_config_request r f =
      request channel_p7_req
        (λ body m. store32 (body + 4) (dl_config_length r) (dl_config_body r body m)) f

  -- `fapi_p7_ul_config_request`
  unfoldable pub p7_ul_config_request : UlConfigRequest → Fapi → Code × Fapi
  unfolding request
  p7_ul_config_request r f =
      request channel_p7_req
        (λ body m. store32 (body + 4) (ul_config_length r) (ul_config_body r body m)) f

  -- `fapi_p7_hi_dci0_request`
  unfoldable pub p7_hi_dci0_request : DlConfigRequest → Fapi → Code × Fapi
  unfolding request
  p7_hi_dci0_request r f =
      request channel_p7_req
        (λ body m. store32 (body + 4) (hi_dci0_length r) (hi_dci0_body r body m)) f

  -- `fapi_p7_tx_request`
  unfoldable pub p7_tx_request : DlConfigRequest → Fapi → Code × Fapi
  unfolding request
  p7_tx_request r f = request channel_p7_req (tx_request_message shm r) f

  -- `fapi_b4860_fapi_cpri_eth_send`, which returns 0 as well.
  unfoldable pub cpri_eth_send : ℕ → ℕ → Fapi → Code × Fapi
  unfolding alloc_cpri_eth_msg ipc_send_msg
  cpri_eth_send data_at len f =
      let (msg, f') = alloc_cpri_eth_msg channel_cpri_eth f in
      let m = copy f'.ipc.memory (msg + ipc_msg_size) data_at len in
      ipc_send_msg shm usmmgr lock local msg
        (with_memory (store32 (msg + length_at) (ipc_msg_size + len) m) f')
