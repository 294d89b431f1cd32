-- ===== src/Fapi.antt =====
-- b4860/fapi_b4860.c: the adaptation of the FAPI to the message channels of the DSP, which runs the
-- layer 1. The state has the process's IPC state with its memory, the two rings of buffers, and the
-- queues on which the threads of L2 wait. A pointer is a number and 0 is NULL; a word of 32 bits
-- stands in memory highest byte first. Parameters are `shm` and `usmmgr`, by which the addresses of
-- the shared memory are translated; `lock`, whether the semaphore of a channel is obtained; and
-- `local`, the address of the local variable `ipc_msg`. The mutexes make each function one step.
pub mod Memory
pub mod Send
pub mod Buffers
pub mod Messages
pub mod TxData
pub mod Requests
pub mod Reach
pub mod Writes
pub mod Frames
pub mod Lists
pub mod P7
pub mod Framed
pub mod TwoLists
pub mod Config
pub mod Tx
pub mod Dispatch
pub mod Start
pub mod Sample
mod Tests
use enb_l1_b4860_ppc.Common.{ℕ, ◌+◌, Bool, List, ◌==◌, if◌then◌else◌, get_or, add32}
use enb_l1_b4860_ppc.BlockQueue.{BlockQueue}
use enb_l1_b4860_ppc.Ipc.{Code, success, minus_one, Ipc, send_msg}
use enb_l1_b4860_ppc.Ipc.TxRequest.{store32, load32}
use enb_l1_b4860_ppc.Shm.{Shm}
use enb_l1_b4860_ppc.Usmmgr.{MemRange, Usmmgr, usmmgr_p2v, usmmgr_v2p}

-- The queues, by the names of the static variables less fapi_ and _queue.
pub data QueueName : Type 0 where
  p5_ipc p7_ipc p7_subframe_ind p7_rach_ind p7_rx_ind p7_harq_ind p7_sr_ind p7_cqi_ind : QueueName
  p7_crc_ind p8_ind : QueueName

abbrev pub queue_number : QueueName → ℕ
queue_number p5_ipc = 0
queue_number p7_ipc = 1
queue_number p7_subframe_ind = 2
queue_number p7_rach_ind = 3
queue_number p7_rx_ind = 4
queue_number p7_harq_ind = 5
queue_number p7_sr_ind = 6
queue_number p7_cqi_ind = 7
queue_number p7_crc_ind = 8
queue_number p8_ind = 9

-- The static variables of the file, with what they point to. `g_fapi_cfg_req` is the address of that
-- variable, `cpri_eth_started` whether the CPRI Ethernet link was started, `cpri_msgs` are the
-- messages that were handed to it and `log_msgs` those that were logged, last first.
pub record Fapi : Type 0 where
  pub ipc : Ipc
  pub tx_req_data_bufs : List MemRange
  pub tx_req_data_buf_ptr : ℕ
  pub cpri_eth_bufs : List MemRange
  pub cpri_eth_buf_ptr : ℕ
  pub queues : QueueName → BlockQueue
  pub g_fapi_cfg_req : ℕ
  pub cpri_eth_started : Bool
  pub cpri_msgs : List ℕ
  pub log_msgs : List ℕ

abbrev pub put_queue : (QueueName → BlockQueue) → QueueName → BlockQueue → QueueName → BlockQueue
put_queue queues name q n = if queue_number n == queue_number name then q else queues n

abbrev pub with_memory : (ℕ → ℕ) → Fapi → Fapi
with_memory m f = record f { ipc = record f.ipc { memory = m } }

-- IPC_MSG_CH_ID, IPC_PA2SC_CH_ID, IPC_SC2PA_CH_ID
abbrev pub ipc_msg_ch_id : ℕ
ipc_msg_ch_id = 2

abbrev pub ipc_pa2sc_ch_id : ℕ
ipc_pa2sc_ch_id = 4

abbrev pub ipc_sc2pa_ch_id : ℕ
ipc_sc2pa_ch_id = 5

-- FAPI_TX_REQ_BUF_NUM, FAPI_TX_REQ_BUF_SIZE, FAPI_CPRI_ETH_BUF_NUM, FAPI_CPRI_ETH_BUF_SIZE
abbrev pub tx_req_buf_num : ℕ
tx_req_buf_num = 16

abbrev pub tx_req_buf_size : ℕ
tx_req_buf_size = 65536

abbrev pub cpri_eth_buf_num : ℕ
cpri_eth_buf_num = 1024

abbrev pub cpri_eth_buf_size : ℕ
cpri_eth_buf_size = 4096

-- The offsets in `fapi_ipc_msg_t`, whose channel_id comes first, and its size.
abbrev pub length_at : ℕ
length_at = 4

abbrev pub body_addr_at : ℕ
body_addr_at = 8

abbrev pub phys_addr_at : ℕ
phys_addr_at = 12

abbrev pub ipc_msg_size : ℕ
ipc_msg_size = 16

-- Past the end of an array of ranges.
abbrev pub no_range : MemRange
no_range = record { phys_addr = 0; vaddr = 0; size = 0 }

-- The index after `ptr` in a ring of `num` buffers.
unfoldable pub next_buf : ℕ → ℕ → ℕ
next_buf num ptr = let next = add32 ptr 1 in if next == num then 0 else next

-- The three words that an allocation writes at the head of its buffer.
abbrev pub message_head : ℕ → MemRange → (ℕ → ℕ) → ℕ → ℕ
message_head id r m =
    store32 (r.vaddr + length_at) 0
      (store32 (r.vaddr + phys_addr_at) r.phys_addr (store32 r.vaddr id m))

-- `fapi_alloc_send_msg`; the body is `ipc_msg_size` bytes behind the message that it returns.
unfoldable pub alloc_send_msg : ℕ → Fapi → ℕ × Fapi
unfolding next_buf
alloc_send_msg id f =
    let r = get_or f.tx_req_data_bufs f.tx_req_data_buf_ptr no_range in
    (
      r.vaddr,
      record (with_memory (message_head id r f.ipc.memory) f) {
        tx_req_data_buf_ptr = next_buf tx_req_buf_num f.tx_req_data_buf_ptr;
      },
    )

-- `fapi_alloc_cpri_eth_msg`
unfoldable pub alloc_cpri_eth_msg : ℕ → Fapi → ℕ × Fapi
unfolding next_buf
alloc_cpri_eth_msg id f =
    let r = get_or f.cpri_eth_bufs f.cpri_eth_buf_ptr no_range in
    (
      r.vaddr,
      record (with_memory (message_head id r f.ipc.memory) f) {
        cpri_eth_buf_ptr = next_buf cpri_eth_buf_num f.cpri_eth_buf_ptr;
      },
    )

-- `ipc_p2v`
unfoldable pub ipc_p2v : Shm → Usmmgr → ℕ → ℕ
unfolding usmmgr_p2v
ipc_p2v shm usmmgr phys_addr = usmmgr_p2v shm usmmgr phys_addr

-- `ipc_v2p`
unfoldable pub ipc_v2p : Shm → ℕ → ℕ
ipc_v2p shm addr = usmmgr_v2p shm addr

-- The local message of `ipc_send_msg`: channel_id, body_addr and length, in that order.
abbrev pub local_msg : ℕ → ℕ → ℕ → ℕ → (ℕ → ℕ) → ℕ → ℕ
local_msg local id body_addr len m =
    store32 (local + length_at) len (store32 (local + body_addr_at) body_addr (store32 local id m))

-- The memory once `ipc_send_msg` has filled in `body_addr` and its local message.
abbrev pub to_send : ℕ → ℕ → (ℕ → ℕ) → ℕ → ℕ
to_send local msg m =
    let phys = load32 (msg + phys_addr_at) m in
    let filled = store32 (msg + body_addr_at) (phys + ipc_msg_size) m in
    local_msg local (load32 msg filled) phys (load32 (msg + length_at) filled) filled

module _ (shm : Shm) (usmmgr : Usmmgr) (lock : ℕ → Bool) (local : ℕ) where
  -- `ipc_send_msg`
  unfoldable pub ipc_send_msg : ℕ → Fapi → Code × Fapi
  ipc_send_msg msg f =
      let m = to_send local msg f.ipc.memory in
      let f' = with_memory m f in
      let (code, ipc') =
        send_msg lock (ipc_p2v shm usmmgr) ipc_pa2sc_ch_id local ipc_msg_size f'.ipc in
      if load32 (msg + length_at) f.ipc.memory == 0
      then (minus_one, f')
      else (code, record f { ipc = ipc' })

  -- `ipc_send_l1_msg`, for the message of L1 at `hdr` in the range `r`.
  unfoldable pub ipc_send_l1_msg : ℕ → MemRange → ℕ → Fapi → Code × Fapi
  ipc_send_l1_msg id r hdr f =
      let m = local_msg local id r.phys_addr (load32 (hdr + 4) f.ipc.memory) f.ipc.memory in
      let (code, ipc') =
        send_msg lock (ipc_p2v shm usmmgr) ipc_pa2sc_ch_id local ipc_msg_size
          (with_memory m f).ipc in
      (code, record f { ipc = ipc' })
