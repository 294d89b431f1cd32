-- ===== src/Fapi/Sample.antt =====
-- A concrete state of the adaptation of the FAPI: a shared segment, rings of two descriptors to the
-- DSP and from it, sixteen buffers, and queues of four items.
use enb_l1_b4860_ppc.Common.{
  ℕ, zero, suc, ◌+◌, ◌*◌, ◌%◌, ◌≤◌, ◌<◌, ◌≡◌, refl, inr, ◌∙◌, Bool, true, false, List, [], ◌∷◌,
  arith, get_or,
}
use enb_l1_b4860_ppc.BlockQueue.{BlockQueue, no_item}
use enb_l1_b4860_ppc.Channel.{Bd, Channel, initialized}
use enb_l1_b4860_ppc.Channel.Ring.{IsRing}
use enb_l1_b4860_ppc.Ipc.{Ipc, no_channel, channel_at}
use enb_l1_b4860_ppc.Ipc.Ptr.{IsLinked}
use enb_l1_b4860_ppc.Shm.{Shm, ptov}
use enb_l1_b4860_ppc.Usmmgr.{MemRange, Usmmgr, usmmgr_p2v}
use enb_l1_b4860_ppc.Fapi.{Fapi, no_range, tx_req_buf_num, ipc_p2v, ipc_sc2pa_ch_id}
use enb_l1_b4860_ppc.Fapi.Buffers.{HasDistinct}
use enb_l1_b4860_ppc.Fapi.Dispatch.Fifo.{IsWorking}
use enb_l1_b4860_ppc.Fapi.Framed.{IsReady}
use enb_l1_b4860_ppc.Fapi.Send.{CanSend}

abbrev pub segment : Shm
segment = record { init_done = true; vaddr = 0x40000000; paddr = 0x20000000; size = 0xff00000 }

abbrev pub manager : Usmmgr
manager = record {
  map = [];
  sh_ctrl_area = no_range;
  dsp_ccsrbar = no_range;
  pa_ccsrbar = no_range;
  shared_area = no_range;
  dsp_ccsr = no_range;
  pa_ccsr = no_range;
}

abbrev pub free : ℕ → Bool
free _ = true

-- The address of the local message.
abbrev pub stack : ℕ
stack = 0x1000

abbrev bd : ℕ → Bd
bd p = record { msg_ptr = p; msg_len = 0 }

-- A ring of two, of which one descriptor waits.
abbrev pub link : Channel
link = record no_channel {
  producer_initialized = initialized;
  consumer_initialized = initialized;
  producer_num = 1;
  consumer_num = 0;
  bd_ring_size = 2;
  max_msg_size = 1020;
  bds = bd 0x20002000 ∷ bd 0x20001000 ∷ [];
  local_producer_num = 1;
  local_consumer_num = 0;
}

abbrev pub area : Ipc
area = record {
  channels = no_channel ∷ no_channel ∷ no_channel ∷ no_channel ∷ link ∷ link ∷ [];
  us_channels = [];
  max_depth = 16;
  max_channels = 6;
  dsp_ccsr_vaddr = 0;
  memory = λ a. a % 251;
  registers = [];
}

-- Buffers of 64 KB, one behind the other.
abbrev pub buffers : ℕ → ℕ → List MemRange
buffers zero at = []
buffers (suc n) at =
    record { phys_addr = 0x20100000 + at; vaddr = 0x40100000 + at; size = 0x10000 }
    ∷ buffers n (at + 0x10000)

abbrev pub queue : BlockQueue
queue = record {
  head = 0;
  tail = 0;
  len = 4;
  queue = no_item ∷ no_item ∷ no_item ∷ no_item ∷ [];
  pop_break_flag = false;
  push_break_flag = false;
  num_items = 0;
  accumulated_items_len = 0;
}

abbrev pub sample : Fapi
sample = record {
  ipc = area;
  tx_req_data_bufs = buffers 16 0;
  tx_req_data_buf_ptr = 0;
  cpri_eth_bufs = [];
  cpri_eth_buf_ptr = 0;
  queues = λ _. queue;
  g_fapi_cfg_req = 0x2000;
  cpri_eth_started = false;
  cpri_msgs = [];
  log_msgs = [];
}

pub queue-IsWorking : IsWorking queue
queue-IsWorking = (
  record {
    exponent = 2;
    exponent_le = omega arith;
    power = refl;
    small = omega arith;
    storage = omega arith;
    head_in = omega arith;
    tail_in = omega arith;
    count = omega arith;
    apart = refl;
  },
  (refl, refl),
)

link-IsRing : IsRing link
link-IsRing = record {
  size_word = omega arith;
  storage = omega arith;
  producer_word = omega arith;
  consumer_word = omega arith;
  producer_in = omega arith;
  consumer_in = omega arith;
  count = omega arith;
  apart = refl;
}

pub from_dsp-IsLinked : IsLinked ipc_sc2pa_ch_id area
unfolding channel_at
from_dsp-IsLinked = record {
  in_array = omega arith;
  in_range = omega arith;
  producer_open = refl;
  consumer_open = refl;
  ring = link-IsRing;
}

-- The next descriptor's buffer is mapped, at 0x40001000.
mapped_at : ipc_p2v segment manager 0x20001000 ≡ 0x40001000
unfolding ipc_p2v usmmgr_p2v ptov
mapped_at = refl

pub sample-CanSend : CanSend segment manager free sample
unfolding channel_at
sample-CanSend = record {
  linked = record {
    in_array = omega arith;
    in_range = omega arith;
    producer_open = refl;
    consumer_open = refl;
    ring = link-IsRing;
  };
  free = refl;
  room = omega arith;
  mapped = λ e. omega (arith, e, mapped_at);
  fits = omega arith;
}

-- A message of the sample's next buffer is ready to be sent.
pub sample-IsReady : (len : ℕ) → len ≤ 0xfff0 → IsReady segment manager free stack len sample
unfolding channel_at
sample-IsReady len h = record {
  can_send = sample-CanSend;
  bytes = λ a. omega arith;
  address = omega arith;
  clear = (inr (omega arith), inr (omega (arith, mapped_at)));
}

buffers-place :
    (n i at : ℕ) → i < n → (get_or (buffers n at) i no_range).vaddr ≡ 0x40100000 + at + 0x10000 * i
buffers-place zero i at h = absurd (omega arith)
buffers-place (suc n) zero at h = omega arith
buffers-place (suc n) (suc i) at h = buffers-place n i (at + 0x10000) (omega arith) ∙ omega arith

pub buffers-HasDistinct : HasDistinct tx_req_buf_num (buffers 16 0)
buffers-HasDistinct i j hi hj e = omega (arith, e, buffers-place 16 i 0 hi, buffers-place 16 j 0 hj)
