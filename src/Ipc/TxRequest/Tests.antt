-- ===== src/Ipc/TxRequest/Tests.antt =====
-- A transmit request of two parts, on a channel with a virtual interrupt.
use enb_l1_b4860_ppc.Common.{ℕ, ◌+◌, Bool, true, false, List, [], ◌∷◌}
use enb_l1_b4860_ppc.Channel.{Channel, virtual_int, initialized}
use enb_l1_b4860_ppc.Ipc.{Ipc, no_channel}
use enb_l1_b4860_ppc.Dma.{Dma}
use enb_l1_b4860_ppc.Ipc.TxRequest.{SgEntry, TxState}

abbrev engine : Dma
engine = record {
  list_index = 0;
  phys_addr = 0x10000;
  dma_list =
      λ i. record { sattr = 0; src = 0; dattr = 0; dest = 0; enlndar = 0; nlndar = 0; length = 0 };
  sr = 0;
  mr = 0;
  clndar = 0;
  eclndar = 0;
}

abbrev tx : TxState
tx = record {
  txreq_tb_lbuff_paddr = 0x8000;
  max_txreq_lbuff_size = 0x1000;
  dsp_ccsr_phys = 0xf00000000;
  udma = engine;
  txreq_inprocess = false;
}

abbrev channel : Channel
channel = record no_channel {
  producer_initialized = initialized;
  consumer_initialized = initialized;
  bd_ring_size = 2;
  bds = record { msg_ptr = 0x100; msg_len = 0 } ∷ record { msg_ptr = 0x600; msg_len = 0 } ∷ [];
  ipc_ind = virtual_int;
}

abbrev ipc : Ipc
ipc = record {
  channels = channel ∷ [];
  us_channels = [];
  max_depth = 16;
  max_channels = 1;
  dsp_ccsr_vaddr = 0;
  memory = λ a. 0;
  registers = [];
}

abbrev parts : List SgEntry
parts =
    record { src_addr = 0x3000; len = 100; is_tb_start = true; is_valid = true }
    ∷ record { src_addr = 0x4000; len = 60; is_tb_start = false; is_valid = true }
    ∷ record { src_addr = 0; len = 0; is_tb_start = false; is_valid = false }
    ∷ []

abbrev unlocked : ℕ → Bool
unlocked id = true

abbrev mapped : ℕ → ℕ
mapped a = a + 0x40000000

abbrev channel_paddr : ℕ → ℕ
channel_paddr id = 0x70000
