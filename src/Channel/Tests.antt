-- ===== src/Channel/Tests.antt =====
-- The macros of a channel on concrete counters.
use enb_l1_b4860_ppc.Common.{◌≡◌, refl, []}
use enb_l1_b4860_ppc.Channel.{Channel, message_ch, no_int, free_bds}

-- A ring of 16 whose producer's counter has wrapped, with five descriptors in it.
abbrev wrapped : Channel
wrapped = record {
  start_validation_value = 0;
  producer_initialized = 0;
  consumer_initialized = 0;
  id = 1;
  producer_num = 2;
  consumer_num = 0xfffffffd;
  bd_ring_size = 16;
  max_msg_size = 0;
  ch_type = message_ch;
  bd_base = 0;
  bds = [];
  ipc_ind = no_int;
  ind_offset = 0;
  ind_value = 0;
  local_producer_num = 0;
  local_consumer_num = 0;
  end_validation_value = 0;
}

free_bds-wrapped : free_bds wrapped ≡ 11
unfolding free_bds
free_bds-wrapped = refl
