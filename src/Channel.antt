-- ===== src/Channel.antt =====
-- b4860/libb4860/kernel/fsl_heterogeneous_ipc.h: a channel in the shared control area, a ring of
-- buffer descriptors between the PowerPC and the DSP, with its macros. `tracker` counts what was
-- ever produced and consumed, modulo 2 ^ 32; the two words of `pa_reserved` that
-- fsl_ipc_channel.c calls LOCAL_PRODUCER_NUM and LOCAL_CONSUMER_NUM are the indices into the ring.
pub mod Ring
pub mod Steps
pub mod Interleave
mod Tests
use enb_l1_b4860_ppc.Common.{
  ℕ, ◌+◌, ◌-◌, ◌%◌, ◌^◌, Bool, List, ◌==◌, if◌then◌else◌, leb, add32, sub32, word_mod, get_or, set,
}

-- `os_het_ipc_bd_t`
pub record Bd : Type 0 where
  pub msg_ptr : ℕ
  pub msg_len : ℕ

abbrev pub no_bd : Bd
no_bd = record { msg_ptr = 0; msg_len = 0 }

-- `os_het_ipc_ind_t`
pub data Indication : Type 0 where
  virtual_int pa_mpic dsp_mesh dsp_mpic_msi no_int : Indication

-- `os_het_ipc_ch_types_t`
pub data ChannelType : Type 0 where
  message_ch pointer_ch : ChannelType

-- `os_het_ipc_channel_t`; `bds` are the ipc_max_bd_size descriptors at `bd_base` that b4_ipc_init gives
-- the channel. An index past them would reach those of another channel, which is left out: a channel
-- is described as long as its ring is not larger than that.
pub record Channel : Type 0 where
  pub start_validation_value : ℕ
  pub producer_initialized : ℕ
  pub consumer_initialized : ℕ
  pub id : ℕ
  pub producer_num : ℕ
  pub consumer_num : ℕ
  pub bd_ring_size : ℕ
  pub max_msg_size : ℕ
  pub ch_type : ChannelType
  pub bd_base : ℕ
  pub bds : List Bd
  pub ipc_ind : Indication
  pub ind_offset : ℕ
  pub ind_value : ℕ
  pub local_producer_num : ℕ
  pub local_consumer_num : ℕ
  pub end_validation_value : ℕ

-- `OS_HET_INITIALIZED`
abbrev pub initialized : ℕ
initialized = 0xfedcba98

-- `OS_HET_CH_EMPTY`
unfoldable pub is_empty : Channel → Bool
is_empty ch = ch.producer_num == ch.consumer_num

-- `os_het_ch_free_bds`. In the second case the uint32_t difference has wrapped already when 2 ^ 32
-- is added to it as a 64-bit number; the int that is returned keeps the low 32 bits.
unfoldable pub free_bds : Channel → ℕ
free_bds ch =
    if leb ch.consumer_num ch.producer_num
    then sub32 ch.bd_ring_size (ch.producer_num - ch.consumer_num)
    else (ch.bd_ring_size + 2 ^ 64 - (sub32 ch.producer_num ch.consumer_num + 2 ^ 32))
      % 2 ^ 64
      % word_mod

-- `OS_HET_CH_FULL`
unfoldable pub is_full : Channel → Bool
unfolding free_bds
is_full ch = free_bds ch == 0

-- The descriptors at the two indices.
abbrev pub consumer_bd : Channel → Bd
consumer_bd ch = get_or ch.bds ch.local_consumer_num no_bd

abbrev pub producer_bd : Channel → Bd
producer_bd ch = get_or ch.bds ch.local_producer_num no_bd

abbrev pub write_bd : Channel → Bd → Channel
write_bd ch bd = record ch { bds = set ch.bds ch.local_producer_num bd }

-- `OS_HET_INCREMENT_PRODUCER`, and the step of LOCAL_PRODUCER_NUM that always follows it.
unfoldable pub advance_producer : Channel → Channel
advance_producer ch = record ch {
  producer_num = add32 ch.producer_num 1;
  local_producer_num = add32 ch.local_producer_num 1 % ch.bd_ring_size;
}

-- `OS_HET_INCREMENT_CONSUMER`, and the step of LOCAL_CONSUMER_NUM that always follows it.
unfoldable pub advance_consumer : Channel → Channel
advance_consumer ch = record ch {
  consumer_num = add32 ch.consumer_num 1;
  local_consumer_num = add32 ch.local_consumer_num 1 % ch.bd_ring_size;
}
