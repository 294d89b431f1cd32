-- ===== src/Channel/Interleave/Tests.antt =====
-- An interleaving of a send and a receive, and the theorems at inputs that meet their hypotheses.
use enb_l1_b4860_ppc.Common.{ℕ, ◌+◌, ◌≤◌, ◌≡◌, refl, List, [], ◌∷◌, ◌++◌, arith, length}
use enb_l1_b4860_ppc.Channel.{Bd, no_bd, Channel, pointer_ch, no_int, is_full, is_empty}
use enb_l1_b4860_ppc.Channel.Ring.{IsRing}
use enb_l1_b4860_ppc.Channel.Steps.{
  idle, waiting, Move, producer, consumer, move, run_moves, send_step, receive_step,
}
use enb_l1_b4860_ppc.Channel.Interleave.Fifo.{run_moves-fifo}
use enb_l1_b4860_ppc.Channel.Interleave.{at}

abbrev bd : ℕ → Bd
bd p = record { msg_ptr = p; msg_len = p + 1 }

-- An empty ring of two whose counters are about to wrap.
abbrev ring : Channel
ring = record {
  start_validation_value = 0;
  producer_initialized = 0;
  consumer_initialized = 0;
  id = 1;
  producer_num = 0xffffffff;
  consumer_num = 0xffffffff;
  bd_ring_size = 2;
  max_msg_size = 0;
  ch_type = pointer_ch;
  bd_base = 0;
  bds = no_bd ∷ no_bd ∷ [];
  ipc_ind = no_int;
  ind_offset = 0;
  ind_value = 0;
  local_producer_num = 1;
  local_consumer_num = 1;
  end_validation_value = 0;
}

abbrev one_in : Channel
one_in = record ring { producer_num = 0; local_producer_num = 0; bds = no_bd ∷ bd 10 ∷ [] }

ring-IsRing : IsRing ring
ring-IsRing = record {
  size_word = omega arith;
  storage = omega arith;
  producer_word = omega arith;
  consumer_word = omega arith;
  producer_in = omega arith;
  consumer_in = omega arith;
  count = omega arith;
  apart = refl;
}

one_in-IsRing : IsRing one_in
one_in-IsRing = record {
  size_word = omega arith;
  storage = omega arith;
  producer_word = omega arith;
  consumer_word = omega arith;
  producer_in = omega arith;
  consumer_in = omega arith;
  count = omega arith;
  apart = refl;
}

-- The consumer looks in vain, then finds the descriptor between the two last steps of its send,
-- while the next one is sent.
abbrev moves : List Move
moves =
    producer (bd 10)
    ∷ consumer
    ∷ producer (bd 10)
    ∷ producer (bd 10)
    ∷ producer (bd 10)
    ∷ consumer
    ∷ consumer
    ∷ producer (bd 10)
    ∷ producer (bd 20)
    ∷ consumer
    ∷ producer (bd 20)
    ∷ consumer
    ∷ producer (bd 20)
    ∷ producer (bd 20)
    ∷ []

run_moves-received : (run_moves moves (at ring idle waiting [] [])).received ≡ bd 10 ∷ []
unfolding run_moves move send_step receive_step is_full is_empty
run_moves-received = refl

run_moves-fifo_example :
    (rest : List Bd) × ((run_moves moves (at ring idle waiting [] [])).sent
      ≡ (run_moves moves (at ring idle waiting [] [])).received ++ rest)
    × (length rest ≤ ring.bd_ring_size)
run_moves-fifo_example = run_moves-fifo moves ring ring-IsRing refl
