-- ===== src/Ipc/Tests.antt =====
-- Runs of the transfers on a concrete control area, and the theorems at inputs that meet their
-- hypotheses.
use enb_l1_b4860_ppc.Common.{
  ℕ, zero, suc, ◌+◌, ◌%◌, ◌<◌, ◌≡◌, ◌⊎◌, refl, ◌↔◌, Bool, true, false, none, some, List, [], ◌∷◌,
  arith, ◌^◌, ◌-◌,
}
use enb_l1_b4860_ppc.Channel.{
  Bd, Channel, initialized, is_empty, is_full, virtual_int, advance_producer, advance_consumer,
}
use enb_l1_b4860_ppc.Channel.Ring.{IsRing, pending}
use enb_l1_b4860_ppc.Ipc.{
  success, channel_full, channel_empty, Ipc, no_channel, channel_at, put_channel,
  generate_indication, open_prod_ch, send_ptr, send_msg, recv_ptr, recv_ptr_hold, recv_msg,
  set_consumed_status, chk_recv_status, recv_status,
}
use enb_l1_b4860_ppc.Ipc.Ptr.{
  Transfer, send, recv, hold, consumed, fifo_run, IsLinked, waiting, step, run, transfers_refine,
}
use enb_l1_b4860_ppc.Common.Testbit.{testbit}
use enb_l1_b4860_ppc.Ipc.Status.{HaveBits, is_ready, chk_recv_status-bit}
use enb_l1_b4860_ppc.Ipc.Message.{IsSendable, send_msg-recv_msg}
use enb_l1_b4860_ppc.Ipc.Errors.{failure-keeps, send_ptr-success_iff, recv_ptr-success_iff}

abbrev bd : ℕ → ℕ → Bd
bd p n = record { msg_ptr = p; msg_len = n }

-- A ring of two whose counters are about to wrap, with one descriptor in it.
abbrev wrapping : Channel
wrapping = record no_channel {
  producer_initialized = initialized;
  consumer_initialized = initialized;
  id = 1;
  producer_num = 0xffffffff;
  consumer_num = 0xfffffffe;
  bd_ring_size = 2;
  max_msg_size = 64;
  bds = bd 100 8 ∷ bd 200 8 ∷ [];
  ipc_ind = virtual_int;
  local_producer_num = 1;
  local_consumer_num = 0;
}

-- The same with nothing in it, and a channel that nobody has opened.
abbrev idle : Channel
idle = record wrapping { consumer_num = 0xffffffff; local_consumer_num = 1 }

abbrev shut : Channel
shut = record no_channel { id = 3; bds = bd 1 1 ∷ bd 2 2 ∷ bd 3 3 ∷ [] }

abbrev area : Ipc
area = record {
  channels = no_channel ∷ wrapping ∷ idle ∷ shut ∷ [];
  us_channels = [];
  max_depth = 2;
  max_channels = 4;
  dsp_ccsr_vaddr = 0x1000;
  memory = λ a. a % 256;
  registers = [];
}

abbrev free : ℕ → Bool
free _ = true

-- A mapping of the control area at a fixed distance.
abbrev mapped : ℕ → ℕ
mapped p = p + 0x10000

abbrev transfers : List Transfer
transfers = send 300 4 ∷ send 400 4 ∷ hold ∷ recv ∷ consumed ∷ recv ∷ []

run-transfers :
    (run free mapped 1 area transfers).0
    ≡ (success, none)
      ∷ (channel_full, none)
      ∷ (success, some (bd 100 8))
      ∷ (success, some (bd 100 8))
      ∷ (success, none)
      ∷ (channel_empty, none)
      ∷ []
unfolding run step send_ptr recv_ptr recv_ptr_hold set_consumed_status channel_at put_channel
    is_full is_empty generate_indication advance_producer advance_consumer
run-transfers = refl

wrapping-IsRing : IsRing wrapping
wrapping-IsRing = record {
  size_word = omega arith;
  storage = omega arith;
  producer_word = omega arith;
  consumer_word = omega arith;
  producer_in = omega arith;
  consumer_in = omega arith;
  count = omega arith;
  apart = refl;
}

idle-IsRing : IsRing idle
idle-IsRing = record {
  size_word = omega arith;
  storage = omega arith;
  producer_word = omega arith;
  consumer_word = omega arith;
  producer_in = omega arith;
  consumer_in = omega arith;
  count = omega arith;
  apart = refl;
}

wrapping-IsLinked : IsLinked 1 area
unfolding channel_at
wrapping-IsLinked = record {
  in_array = omega arith;
  in_range = omega arith;
  producer_open = refl;
  consumer_open = refl;
  ring = wrapping-IsRing;
}

idle-IsSendable : IsSendable free mapped 2 10 area
unfolding channel_at
idle-IsSendable = record {
  linked = record {
    in_array = omega arith;
    in_range = omega arith;
    producer_open = refl;
    consumer_open = refl;
    ring = idle-IsRing;
  };
  free = refl;
  room = omega arith;
  mapped = omega arith;
  fits = omega arith;
}

transfers_refine_example :
    (let (as', ipc') = run free mapped 1 area transfers in (as', waiting 1 ipc'))
    ≡ fifo_run (channel_at area 1).bd_ring_size (waiting 1 area) transfers
transfers_refine_example = transfers_refine free mapped 1 refl transfers wrapping-IsLinked

send_msg-recv_msg_example :
    (ipc' ipc'' : Ipc) × (send_msg free mapped 2 5000 10 area ≡ (success, ipc'))
    × (recv_msg free mapped 2 6000 ipc' ≡ (success, some 10, ipc''))
    × (pending (channel_at ipc'' 2) ≡ 0)
    × (ipc''.memory (6000 + 3) ≡ area.memory (5000 + 3))
unfolding channel_at
send_msg-recv_msg_example =
    send_msg-recv_msg free mapped 2 5000 10 area 6000 3 idle-IsSendable refl (omega arith)

failure-keeps_example :
    (((send_ptr free mapped 3 7 8 area).0 ≡ success) ⊎ ((send_ptr free mapped 3 7 8 area).1 ≡ area))
    × (((send_msg free mapped 3 7 8 area).0 ≡ success)
        ⊎ ((send_msg free mapped 3 7 8 area).1 ≡ open_prod_ch 3 area))
    × (((recv_ptr free mapped 3 area).0 ≡ success)
        ⊎ (((recv_ptr free mapped 3 area).1 ≡ none) × ((recv_ptr free mapped 3 area).2 ≡ area)))
    × (((recv_msg free mapped 3 7 area).0 ≡ success)
        ⊎ (((recv_msg free mapped 3 7 area).1 ≡ none) × ((recv_msg free mapped 3 7 area).2 ≡ area)))
    × (((set_consumed_status free mapped 3 area).0 ≡ success)
        ⊎ ((set_consumed_status free mapped 3 area).1 ≡ area))
failure-keeps_example = failure-keeps free mapped 3 area 7 8

send_ptr-success_iff_example : ((send_ptr free mapped 1 7 8 area).0 ≡ success) ↔ (
    ((channel_at area 1).consumer_initialized ≡ initialized)
    × (free 1 ≡ true)
    × (pending (channel_at area 1) < (channel_at area 1).bd_ring_size))
send_ptr-success_iff_example = send_ptr-success_iff free mapped 1 area 7 8 wrapping-IsLinked.ring

recv_ptr-success_iff_example : ((recv_ptr free mapped 1 area).0 ≡ success) ↔ (
    (1 < area.max_channels)
    × ((channel_at area 1).producer_initialized ≡ initialized)
    × (free 1 ≡ true)
    × (0 < pending (channel_at area 1)))
recv_ptr-success_iff_example = recv_ptr-success_iff free mapped 1 area wrapping-IsLinked.ring

-- Channels 1 and 2 are configured; a descriptor waits on 1.
abbrev polled : Ipc
polled = record area {
  us_channels =
      record { cbfunc = 0; signal = 0; channel_id = 1 }
      ∷ record { cbfunc = 0; signal = 0; channel_id = 2 }
      ∷ [];
}

chk_recv_status-polled : chk_recv_status polled ≡ 2 ^ 62
unfolding chk_recv_status recv_status is_empty channel_at
chk_recv_status-polled = refl

chk_recv_status-bit_example : (testbit (63 - 1) (chk_recv_status polled) ≡ 1) ↔ (
    ((suc zero ≡ zero) × (is_empty (channel_at polled 0) ≡ false))
    ⊎ (is_ready polled 1 polled.us_channels ≡ true))
unfolding HaveBits
chk_recv_status-bit_example =
    chk_recv_status-bit polled 1 (omega arith) (omega arith, (omega arith, tt))
