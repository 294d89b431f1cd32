-- ===== src/Ipc/TxRequest.antt =====
-- b4860/libb4860/ipc/lib/fsl_ipc_channel.c: transmit requests, whose data the DMA engine copies, and
-- whose last descriptors advance the producer of the channel. Addresses have 32 bits. Parameters
-- are, as for the other transfers, `lock` and `p2v`, and `channel_paddr`, the physical address of a
-- channel.
pub mod Wanted
pub mod Laws
mod Tests
use enb_l1_b4860_ppc.Common.{
  ℕ, ◌+◌, ◌-◌, ◌*◌, ◌/◌, ◌%◌, ◌^◌, Bool, true, false, not, ◌&&◌, Option, none, some, List, [], ◌∷◌,
  ◌++◌, ◌==◌, if◌then◌else◌, ltb, leb, word_mod, set, add32,
}
use enb_l1_b4860_ppc.Channel.{
  Channel, Bd, Indication, virtual_int, pa_mpic, dsp_mesh, dsp_mpic_msi, no_int, initialized,
  is_full, producer_bd, write_bd,
}
use enb_l1_b4860_ppc.Ipc.{Ipc, channel_at, put_channel, copy, gcr_offset}
use enb_l1_b4860_ppc.Dma.{Dma, Entry, Descriptor, list_clear, add_entries, start, is_busy}

-- `sg_entry_t`
pub record SgEntry : Type 0 where
  pub src_addr : ℕ
  pub len : ℕ
  pub is_tb_start : Bool
  pub is_valid : Bool

-- The fields of `ipc_userspace_t` that only transmit requests use.
pub record TxState : Type 0 where
  pub txreq_tb_lbuff_paddr : ℕ
  pub max_txreq_lbuff_size : ℕ
  pub dsp_ccsr_phys : ℕ
  pub udma : Dma
  pub txreq_inprocess : Bool

pub data TxCode : Type 0 where
  tx_success tx_channel_not_found tx_lock_failed tx_producer_not_init tx_consumer_not_init : TxCode
  tx_channel_full tx_no_address tx_max_msg_size_excd : TxCode

-- MAX_TX_REQ_MSG_SIZE
abbrev pub max_tx_req_msg_size : ℕ
max_tx_req_msg_size = 1020

-- A word of 32 bits in memory, highest byte first.
unfoldable pub store32 : ℕ → ℕ → (ℕ → ℕ) → ℕ → ℕ
store32 addr v mem a =
    if a == addr
    then v / 2 ^ 24 % 256
    else if a == addr + 1
    then v / 2 ^ 16 % 256
    else if a == addr + 2
    then v / 2 ^ 8 % 256
    else if a == addr + 3
    then v % 256
    else mem a

unfoldable pub load32 : ℕ → (ℕ → ℕ) → ℕ
load32 addr mem =
    mem addr * 2 ^ 24 + mem (addr + 1) * 2 ^ 16 + mem (addr + 2) * 2 ^ 8 + mem (addr + 3)

-- The loop over the scatter list: the parts follow one another from an address on.
unfoldable pub gather : ℕ → List SgEntry → List Entry
gather phys [] = []
gather phys (e ∷ es) =
    let rest = gather ((phys + e.len) % word_mod) es in
    if e.is_valid then record { src = e.src_addr; dest = phys; length = e.len } ∷ rest else []

-- The test for OS_HET_VIRTUAL_INT
abbrev pub if_virtual_int {ℓ} : {A : Type ℓ} → Indication → A → A → A
if_virtual_int virtual_int x y = x
if_virtual_int pa_mpic x y = y
if_virtual_int dsp_mesh x y = y
if_virtual_int dsp_mpic_msi x y = y
if_virtual_int no_int x y = y

-- `txreq_tb_lbuff_paddr` and the sizes of a number of buffers
abbrev pub lbuff : TxState → ℕ → ℕ
lbuff tx n = (tx.txreq_tb_lbuff_paddr + n * tx.max_txreq_lbuff_size) % word_mod

-- The next multiple of 32, for the list of descriptors.
unfoldable pub align32 : ℕ → ℕ
align32 a = if a % 32 == 0 then a else (a + (32 - a % 32)) % word_mod

-- `fsl_ipc_get_last_tx_req_status`: TXREQ_ERR, TXREQ_IN_PROCESS, TXREQ_DONE
pub data TxStatus : Type 0 where
  txreq_done txreq_in_process txreq_err : TxStatus

unfoldable pub get_last_tx_req_status : TxState → TxStatus × TxState
get_last_tx_req_status tx =
    if not tx.txreq_inprocess
    then (txreq_err, tx)
    else if is_busy tx.udma
    then (txreq_in_process, tx)
    else (txreq_done, record tx { txreq_inprocess = false })

-- `fsl_uspace_dma_start`, whose code is ignored.
unfoldable pub start_dma : Dma → Dma
unfolding start
start_dma d = elim (start d) [ none ↦ d | some r ↦ r.1 ]

-- The offsets in `os_het_ipc_channel_t` of tracker.producer_num and of LOCAL_PRODUCER_NUM, with a
-- uint64_t at a multiple of 8.
abbrev pub producer_num_at : ℕ
producer_num_at = 16

abbrev pub local_producer_num_at : ℕ
local_producer_num_at = 60

module _ (lock : ℕ → Bool) (p2v : ℕ → ℕ) (channel_paddr : ℕ → ℕ) where
  -- `fsl_ipc_configure_txreq`, with `fsl_uspace_dma_init`: `engine` is what it opens and maps.
  unfoldable pub configure_txreq : ℕ → ℕ → ℕ → Dma → Ipc → TxState → TxCode × TxState
  unfolding align32
  configure_txreq id phys_addr max_size engine ipc tx =
      if leb ipc.max_channels id
      then (tx_channel_not_found, tx)
      else if not (lock id)
      then (tx_lock_failed, tx)
      else if not ((channel_at ipc id).producer_initialized == initialized)
      then (tx_producer_not_init, tx)
      else (let tx' = record tx {
        txreq_tb_lbuff_paddr = phys_addr;
        max_txreq_lbuff_size = max_size;
      } in
          let spare = (lbuff tx' (channel_at ipc id).bd_ring_size + 128) % word_mod in
          let aligned = align32 spare in
          (
            tx_success,
            record tx' {
              udma = record (list_clear engine) { phys_addr = aligned; clndar = aligned };
            },
          ))

  -- The entries of a transmit request: the data, then the two counters, then the indication.
  unfoldable pub tx_entries : ℕ → List SgEntry → Channel → TxState → List Entry
  unfolding gather
  tx_entries id sgl ch tx =
      let spare = lbuff tx ch.bd_ring_size in
      let counters =
        record { src = spare; dest = channel_paddr id + producer_num_at; length = 4 }
        ∷ record {
          src = (spare + 4) % word_mod;
          dest = channel_paddr id + local_producer_num_at;
          length = 4;
        }
        ∷ [] in
      let indication =
        record {
          src = (spare + 8) % word_mod;
          dest = tx.dsp_ccsr_phys + gcr_offset + ch.ind_offset;
          length = 4;
        }
        ∷ [] in
      gather (lbuff tx ch.local_producer_num) sgl
      ++ (counters ++ if_virtual_int ch.ipc_ind indication [])

  -- What it writes to memory: the request, with the address of the data behind it, and the words
  -- that the last descriptors copy.
  unfoldable pub tx_memory : ℕ → ℕ → Channel → TxState → (ℕ → ℕ) → ℕ → ℕ
  unfolding store32
  tx_memory src len ch tx mem =
      let request = p2v (producer_bd ch).msg_ptr in
      let spare = p2v (lbuff tx ch.bd_ring_size) in
      let copied = copy mem request src len in
      let addressed =
        store32 (request + max_tx_req_msg_size) (lbuff tx ch.local_producer_num) copied in
      let counted =
        store32 (spare + 4) (add32 ch.local_producer_num 1 % ch.bd_ring_size)
          (store32 spare (add32 ch.producer_num 1) addressed) in
      if_virtual_int ch.ipc_ind (store32 (spare + 8) ch.ind_value counted) counted

  -- `fsl_ipc_send_tx_req` from the copy of the request on.
  unfoldable pub tx_sent : ℕ → List SgEntry → ℕ → ℕ → Ipc → TxState → Ipc × TxState
  unfolding tx_entries tx_memory start_dma
  tx_sent id sgl src len ipc tx =
      let ch = channel_at ipc id in
      let bd = producer_bd ch in
      let marked = put_channel ipc id (write_bd ch (record bd { msg_len = len })) in
      (
        record marked { memory = tx_memory src len ch tx ipc.memory },
        record tx {
          udma = start_dma (add_entries (tx_entries id sgl ch tx) (list_clear tx.udma));
          txreq_inprocess = true;
        },
      )

  -- `fsl_ipc_send_tx_req`
  unfoldable pub send_tx_req : ℕ → List SgEntry → ℕ → ℕ → Ipc → TxState → TxCode × Ipc × TxState
  unfolding tx_sent
  send_tx_req id sgl src len ipc tx =
      let ch = channel_at ipc id in
      let bd = producer_bd ch in
      let cleared = record tx { udma = list_clear tx.udma } in
      let marked = put_channel ipc id (write_bd ch (record bd { msg_len = len })) in
      if not (ch.consumer_initialized == initialized)
      then (tx_consumer_not_init, ipc, tx)
      else if not (lock id)
      then (tx_lock_failed, ipc, tx)
      else if is_full ch
      then (tx_channel_full, ipc, tx)
      else if p2v bd.msg_ptr == 0
      then (tx_no_address, marked, cleared)
      else if not (leb len max_tx_req_msg_size)
      then (tx_max_msg_size_excd, marked, cleared)
      else (let (sent, tx') = tx_sent id sgl src len ipc tx in (tx_success, sent, tx'))
