-- ===== src/Ipc.antt =====
-- b4860/libb4860/ipc/lib/fsl_ipc_channel.c: the transfers on the IPC channels. A function takes the
-- state of the process and of the shared control area, and returns its code, what it stores
-- through its pointers, and the new state. Taken as parameters are `p2v`, the callback that the
-- application passes to `fsl_ipc_init` (0 is NULL), and `lock`, whether `fsl_ipc_lock` obtains the
-- semaphore of a channel; unlocking has no effect that the model sees. Addresses are numbers, and
-- `memory` gives the byte at each; memcpy copies byte by byte between areas that do not overlap.
pub mod Configure
pub mod Status
pub mod Access
pub mod Ptr
pub mod Hold
pub mod Message
pub mod Errors
pub mod Block
pub mod TxRequest
mod Tests
use Prim.Native.Nat.{bit_or}
use enb_l1_b4860_ppc.Common.{
  ℕ, ◌+◌, ◌-◌, ◌*◌, ◌/◌, ◌%◌, ◌^◌, Bool, true, false, not, ◌&&◌, Option, none, some, List, [], ◌∷◌,
  ◌==◌, if◌then◌else◌, ltb, leb, get_or, set, length, bit_and,
}
use enb_l1_b4860_ppc.Channel.{
  Bd, no_bd, Indication, virtual_int, pa_mpic, dsp_mesh, dsp_mpic_msi, no_int, ChannelType,
  message_ch, pointer_ch, Channel, initialized, is_empty, is_full, consumer_bd, producer_bd,
  write_bd, advance_producer, advance_consumer,
}

-- `ERR_SUCCESS`, the negated codes of fsl_ipc_errorcodes.h that these functions return, and -1.
pub data Code : Type 0 where
  success channel_not_found channel_full channel_empty invalid_depth calloc_failed : Code
  producer_not_init consumer_not_init max_msg_size_excd incorrect_rat_mode minus_one : Code

-- `ipc_channel_us_t`; a callback is a number, and 0 is NULL.
pub record UsChannel : Type 0 where
  pub cbfunc : ℕ
  pub signal : ℕ
  pub channel_id : ℕ

-- `ipc_userspace_t` with what it points to. `channels` is the array of os_het_ipc_channel_t in the
-- shared control area, which `chvpaddr_arr` maps; `us_channels` are the first `num_channels`
-- pointers of the field `channels`; `registers` lists the writes to the DSP's registers, last first.
pub record Ipc : Type 0 where
  pub channels : List Channel
  pub us_channels : List UsChannel
  pub max_depth : ℕ
  pub max_channels : ℕ
  pub dsp_ccsr_vaddr : ℕ
  pub memory : ℕ → ℕ
  pub registers : List (ℕ × ℕ)

-- A channel that nobody has set up.
abbrev pub no_channel : Channel
no_channel = record {
  start_validation_value = 0;
  producer_initialized = 0;
  consumer_initialized = 0;
  id = 0;
  producer_num = 0;
  consumer_num = 0;
  bd_ring_size = 0;
  max_msg_size = 0;
  ch_type = message_ch;
  bd_base = 0;
  bds = [];
  ipc_ind = no_int;
  ind_offset = 0;
  ind_value = 0;
  local_producer_num = 0;
  local_consumer_num = 0;
  end_validation_value = 0;
}

-- `get_channel_vaddr`, which does not check the index: beyond the array this reads no channel.
unfoldable pub channel_at : Ipc → ℕ → Channel
channel_at ipc i = get_or ipc.channels i no_channel

-- The writes that a function makes through that pointer.
unfoldable pub put_channel : Ipc → ℕ → Channel → Ipc
put_channel ipc i ch = record ipc { channels = set ipc.channels i ch }

-- memcpy(dst, src, n)
unfoldable pub copy : (ℕ → ℕ) → ℕ → ℕ → ℕ → ℕ → ℕ
copy mem dst src n a = if leb dst a && ltb a (dst + n) then mem (src + (a - dst)) else mem a

-- GCR_OFFSET
abbrev pub gcr_offset : ℕ
gcr_offset = 0x8f2000

-- `generate_indication`, with the test for OS_HET_NO_INT that stands before each call.
unfoldable pub generate_indication : Channel → Ipc → Ipc
generate_indication ch ipc = elim ch.ipc_ind [
  | virtual_int ↦ record ipc {
    registers = (ipc.dsp_ccsr_vaddr + gcr_offset + ch.ind_offset, ch.ind_value) ∷ ipc.registers;
  }
  | pa_mpic ↦ ipc
  | dsp_mesh ↦ ipc
  | dsp_mpic_msi ↦ ipc
  | no_int ↦ ipc
]

-- `fsl_ipc_open_prod_ch`
unfoldable pub open_prod_ch : ℕ → Ipc → Ipc
unfolding channel_at put_channel
open_prod_ch id ipc =
    put_channel ipc id (record (channel_at ipc id) { producer_initialized = initialized })

-- The end of a successful send: the descriptor, the counters, the indication.
abbrev pub send_bd : ℕ → Bd → Ipc → Ipc
send_bd id bd ipc =
    let ch = advance_producer (write_bd (channel_at ipc id) bd) in
    generate_indication ch (put_channel ipc id ch)

-- The end of a successful receive.
abbrev pub consume : ℕ → Ipc → Ipc
consume id ipc = put_channel ipc id (advance_consumer (channel_at ipc id))

module _ (lock : ℕ → Bool) (p2v : ℕ → ℕ) where
  -- `fsl_ipc_send_ptr`
  unfoldable pub send_ptr : ℕ → ℕ → ℕ → Ipc → Code × Ipc
  send_ptr id addr len ipc =
      if not ((channel_at ipc id).consumer_initialized == initialized)
      then (consumer_not_init, ipc)
      else if not (lock id)
      then (minus_one, ipc)
      else if is_full (channel_at ipc id)
      then (channel_full, ipc)
      else (success, send_bd id (record { msg_ptr = addr; msg_len = len }) ipc)

  -- `fsl_ipc_send_msg`, after it has marked the channel as opened by its producer.
  unfoldable pub send_msg_opened : ℕ → ℕ → ℕ → Ipc → Code × Ipc
  send_msg_opened id src len ipc =
      let ch = channel_at ipc id in
      let ptr = (producer_bd ch).msg_ptr in
      if not (ch.consumer_initialized == initialized)
      then (consumer_not_init, ipc)
      else if not (lock id)
      then (minus_one, ipc)
      else if is_full ch
      then (channel_full, ipc)
      else if p2v ptr == 0
      then (minus_one, ipc)
      else if leb len ch.max_msg_size
      then (
        success,
        send_bd id (record { msg_ptr = ptr; msg_len = len })
            (record ipc { memory = copy ipc.memory (p2v ptr) src len }),
      )
      else (max_msg_size_excd, ipc)

  -- `fsl_ipc_send_msg`
  unfoldable pub send_msg : ℕ → ℕ → ℕ → Ipc → Code × Ipc
  unfolding send_msg_opened open_prod_ch
  send_msg id src len ipc = send_msg_opened id src len (open_prod_ch id ipc)

  -- `fsl_ipc_recv_ptr`; the descriptor is what it stores in `*addr` and `*len`.
  unfoldable pub recv_ptr : ℕ → Ipc → Code × Option Bd × Ipc
  recv_ptr id ipc =
      if leb ipc.max_channels id
      then (channel_not_found, none, ipc)
      else if not ((channel_at ipc id).producer_initialized == initialized)
      then (producer_not_init, none, ipc)
      else if not (lock id)
      then (minus_one, none, ipc)
      else if is_empty (channel_at ipc id)
      then (channel_empty, none, ipc)
      else (success, some (consumer_bd (channel_at ipc id)), consume id ipc)

  -- `fsl_ipc_recv_ptr_block`. If there is nothing to receive it reads the device, which blocks:
  -- `got` is the number of bytes read, `ready_mask` the mask, and `woken` the state on its return. A
  -- shift of the int 1 by 32 or more gives 0.
  unfoldable pub recv_ptr_block : ℕ → Ipc → ℕ → ℕ → Ipc → Code × Option Bd × Ipc
  unfolding recv_ptr
  recv_ptr_block id ipc got ready_mask woken =
      if leb ipc.max_channels id
      then (channel_not_found, none, ipc)
      else (let (code, bd, ipc') = recv_ptr id ipc in
          elim code [
            | success ↦ (success, bd, ipc')
            | _ ↦
                if got == 4 && not (bit_and ready_mask (2 ^ id % 2 ^ 32) == 0)
                then recv_ptr id woken
                else (channel_empty, none, woken)
          ])

  -- `fsl_ipc_recv_ptr_hold`: as `fsl_ipc_recv_ptr`, but the descriptor stays in the ring.
  unfoldable pub recv_ptr_hold : ℕ → Ipc → Code × Option Bd
  recv_ptr_hold id ipc =
      if not (lock id)
      then (minus_one, none)
      else if is_empty (channel_at ipc id)
      then (channel_empty, none)
      else (success, some (consumer_bd (channel_at ipc id)))

  -- `fsl_ipc_recv_msg`; the number is what it stores in `*len`.
  unfoldable pub recv_msg : ℕ → ℕ → Ipc → Code × Option ℕ × Ipc
  recv_msg id addr ipc =
      let bd = consumer_bd (channel_at ipc id) in
      if not (lock id)
      then (minus_one, none, ipc)
      else if is_empty (channel_at ipc id)
      then (channel_empty, none, ipc)
      else (
        success,
        some bd.msg_len,
        consume id (record ipc { memory = copy ipc.memory addr (p2v bd.msg_ptr) bd.msg_len }),
      )

  -- `fsl_ipc_recv_msg_ptr`: the virtual address of the message, and its length.
  unfoldable pub recv_msg_ptr : ℕ → Ipc → Code × Option (ℕ × ℕ)
  recv_msg_ptr id ipc =
      let bd = consumer_bd (channel_at ipc id) in
      if (channel_at ipc id).producer_initialized == 0
      then (producer_not_init, none)
      else if not (lock id)
      then (minus_one, none)
      else if is_empty (channel_at ipc id)
      then (channel_empty, none)
      else (success, some (p2v bd.msg_ptr, bd.msg_len))

  -- `fsl_ipc_set_consumed_status`
  unfoldable pub set_consumed_status : ℕ → Ipc → Code × Ipc
  set_consumed_status id ipc =
      if not (lock id)
      then (minus_one, ipc)
      else if not (is_empty (channel_at ipc id))
      then (success, consume id ipc)
      else (success, ipc)

-- The loop of `fsl_ipc_chk_recv_status` over the channels that the process has configured.
unfoldable pub recv_status : Ipc → List UsChannel → ℕ → ℕ
recv_status ipc [] bmask = bmask
recv_status ipc (ch ∷ chs) bmask = recv_status ipc chs (
    if not (is_empty (channel_at ipc ch.channel_id))
    then bit_or bmask (2 ^ (63 - ch.channel_id))
    else bmask)

-- `fsl_ipc_chk_recv_status`, with TEST_CH_ZERO as logdefs.h defines it: what it stores in `*bmask`.
unfoldable pub chk_recv_status : Ipc → ℕ
unfolding recv_status
chk_recv_status ipc =
    recv_status ipc ipc.us_channels (if not (is_empty (channel_at ipc 0)) then 2 ^ 63 else 0)
