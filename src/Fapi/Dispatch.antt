-- ===== src/Fapi/Dispatch.antt =====
-- b4860/fapi_b4860.c: the thread that receives the messages of L1 and hands them on. A round of its
-- loop receives a message and finds out what is to be done with it; the call that does it is a step
-- of its own, since block_queue_push waits while a queue is full. The counter p7_msg_num, which the
-- thread keeps and does not use, is left out.
pub mod Fifo
pub mod Routes
pub mod System
pub mod Order
pub mod Translate
use enb_l1_b4860_ppc.Common.{
  ℕ, zero, suc, ◌+◌, Bool, Option, none, some, ◌∷◌, ◌==◌, if◌then◌else◌, leb,
}
use enb_l1_b4860_ppc.BlockQueue.{push, try_push}
use enb_l1_b4860_ppc.Ipc.{success, Ipc, recv_ptr_block}
use enb_l1_b4860_ppc.Ipc.TxRequest.{store32, load32}
use enb_l1_b4860_ppc.Shm.{Shm}
use enb_l1_b4860_ppc.Usmmgr.{Usmmgr}
use enb_l1_b4860_ppc.Fapi.{
  Fapi, QueueName, p5_ipc, p7_ipc, p7_subframe_ind, p7_rach_ind, p7_rx_ind, p7_harq_ind, p7_sr_ind,
  p7_cqi_ind, p7_crc_ind, p8_ind, put_queue, with_memory, ipc_p2v, ipc_sc2pa_ch_id, body_addr_at,
}
use enb_l1_b4860_ppc.Fapi.Messages.{channel_cpri_eth}

-- FAPI_CHANNEL_P5_IND, FAPI_CHANNEL_P7_IND, FAPI_CHANNEL_LOG, FAPI_CHANNEL_P8_IND,
-- FAPI_CHANNELS_NUM
abbrev pub channel_p5_ind : ℕ
channel_p5_ind = 1

abbrev pub channel_p7_ind : ℕ
channel_p7_ind = 3

abbrev pub channel_log : ℕ
channel_log = 5

abbrev pub channel_p8_ind : ℕ
channel_p8_ind = 9

abbrev pub channels_num : ℕ
channels_num = 10

-- FAPI_RX_ULSCH_INDICATION, and the queue for each `message_id` of an indication of P7.
abbrev pub rx_ulsch_indication : ℕ
rx_ulsch_indication = 0x87

unfoldable pub p7_queue : ℕ → QueueName
p7_queue id =
    if id == 0x82
    then p7_subframe_ind
    else if id == 0x88
    then p7_rach_ind
    else if id == rx_ulsch_indication
    then p7_rx_ind
    else if id == 0x8a
    then p7_sr_ind
    else if id == 0x85
    then p7_harq_ind
    else if id == 0x8b
    then p7_cqi_ind
    else if id == 0x86
    then p7_crc_ind
    else p7_ipc

-- The call that a round ends with: block_queue_push of a message, block_queue_try_push on the queue
-- of P8, or none.
pub data Work : Type 0 where
  no_work : Work
  push_work : QueueName → ℕ → Work
  p8_work : ℕ → Work

module _ (p2v : ℕ → ℕ) where
  -- The loop over the PDUs of an RX.indication, of 32 bytes each with the pointer to its data last.
  unfoldable pub translate_pdus : ℕ → ℕ → (ℕ → ℕ) → ℕ → ℕ
  translate_pdus zero at m = m
  translate_pdus (suc n) at m =
      translate_pdus n (at + 32) (store32 (at + 28) (p2v (load32 (at + 28) m)) m)

-- `fapi_b4860_process_p7_message`
unfoldable pub process_p7_message : (ℕ → ℕ) → ℕ → Fapi → Work × Fapi
unfolding translate_pdus p7_queue
process_p7_message p2v msg f =
    let id = load32 msg f.ipc.memory in
    let count = load32 (msg + 16) f.ipc.memory in
    if id == rx_ulsch_indication
    then (push_work p7_rx_ind msg, with_memory (translate_pdus p2v count (msg + 20) f.ipc.memory) f)
    else (push_work (p7_queue id) msg, f)

-- What the thread does with the address of a message that it has received.
unfoldable pub handle : (ℕ → ℕ) → ℕ → Fapi → Work × Fapi
unfolding process_p7_message
handle p2v msg_addr f =
    let msg = p2v msg_addr in
    let channel = load32 msg f.ipc.memory in
    let body = p2v (load32 (msg + body_addr_at) f.ipc.memory) in
    if msg_addr == 0
    then (no_work, f)
    else if msg == 0
    then (no_work, f)
    else if leb channels_num channel
    then (no_work, f)
    else if channel == channel_cpri_eth
    then (
      no_work,
      record (with_memory (store32 (msg + body_addr_at) body f.ipc.memory) f) {
        cpri_msgs = msg ∷ f.cpri_msgs;
      },
    )
    else if channel == channel_p5_ind
    then (push_work p5_ipc body, f)
    else if channel == channel_p7_ind
    then process_p7_message p2v body f
    else if channel == channel_p8_ind
    then (p8_work body, f)
    else if channel == channel_log
    then (no_work, record f { log_msgs = body ∷ f.log_msgs })
    else (no_work, f)

-- The call that is left to do; `none` says that it waits.
unfoldable pub perform : Work → Fapi → Option Fapi
perform no_work f = some f
perform (push_work name x) f = elim (push (f.queues name) x 8) [
  | none ↦ none
  | some (done, q) ↦ some (record f { queues = put_queue f.queues name q })
]
perform (p8_work x) f =
    some (record f { queues = put_queue f.queues p8_ind (try_push (f.queues p8_ind) x 8).1 })

module _ (shm : Shm) (usmmgr : Usmmgr) (lock : ℕ → Bool) where
  -- One round of the loop of `fapi_thread`, up to that call; `got`, `ready_mask` and `woken` are
  -- those of fsl_ipc_recv_ptr_block.
  unfoldable pub thread_round : ℕ → ℕ → Ipc → Fapi → Work × Fapi
  unfolding handle
  thread_round got ready_mask woken f =
      let (code, bd, ipc') =
        recv_ptr_block lock (ipc_p2v shm usmmgr) ipc_sc2pa_ch_id f.ipc got ready_mask woken in
      elim code [
        | success ↦ elim bd [
          | none ↦ (no_work, record f { ipc = ipc' })
          | some bd ↦ handle (ipc_p2v shm usmmgr) bd.msg_ptr (record f { ipc = ipc' })
        ]
        | _ ↦ (no_work, record f { ipc = ipc' })
      ]
