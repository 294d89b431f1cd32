-- ===== src/BlockQueue/Tests.antt =====
-- Runs of the queue on concrete states, and its theorems at inputs that meet their hypotheses.
use enb_l1_b4860_ppc.Common.{
  ℕ, ◌*◌, ◌-◌, ◌≤◌, ◌<◌, ◌^◌, ◌%◌, ◌≡◌, refl, true, false, some, List, [], ◌∷◌, arith, word_mod,
}
use enb_l1_b4860_ppc.BlockQueue.{
  Item, no_item, BlockQueue, clear_low, power_of_two_round_up, init, next_index, fresh, push,
  try_push, try_pop_timeout, pop,
}
use enb_l1_b4860_ppc.BlockQueue.Inv.{IsValid}
use enb_l1_b4860_ppc.BlockQueue.Capacity.{power_of_two_round_up-least, init-IsValid}
use enb_l1_b4860_ppc.BlockQueue.Refine.{
  Call, push_call, try_push_call, pop_call, timed_pop_call, blocked, pushed, popped, step, run,
  fifo_run, contents, IsOpen, calls_refine,
}
use enb_l1_b4860_ppc.BlockQueue.Accounting.{total, run-accumulated}

abbrev item : ℕ → ℕ → Item
item p n = record { ptr = p; len = n }

-- Four slots; 10 and 20 are in the queue, in the last two.
abbrev two_items : BlockQueue
two_items = record {
  head = 0;
  tail = 2;
  len = 4;
  queue = no_item ∷ no_item ∷ item 10 16 ∷ item 20 16 ∷ [];
  pop_break_flag = false;
  push_break_flag = false;
  num_items = 2;
  accumulated_items_len = 32;
}

abbrev no_items : BlockQueue
no_items = record two_items { tail = 0; num_items = 0; accumulated_items_len = 0 }

abbrev calls : List Call
calls =
    push_call 30 8
    ∷ push_call 40 8
    ∷ push_call 50 8
    ∷ try_push_call 60 8
    ∷ pop_call
    ∷ timed_pop_call 0
    ∷ []

rounds_up :
    (power_of_two_round_up 64 ≡ some 64)
    × (power_of_two_round_up 65 ≡ some 128)
    × (power_of_two_round_up 2 ≡ some 2)
unfolding power_of_two_round_up clear_low
rounds_up = (refl, refl, refl)

-- A queue for one item has no slot at all.
init_one : init true 1 ≡ some (fresh 0)
unfolding init power_of_two_round_up clear_low
init_one = refl

run-calls :
    (run two_items calls).0
    ≡ pushed true ∷ pushed true ∷ blocked ∷ pushed false ∷ popped (some 10) ∷ popped (some 20) ∷ []
unfolding run step push try_push pop try_pop_timeout next_index
run-calls = refl

two_items-IsValid : IsValid two_items
two_items-IsValid = record {
  exponent = 2;
  exponent_le = omega arith;
  power = refl;
  small = omega arith;
  storage = omega arith;
  head_in = omega arith;
  tail_in = omega arith;
  count = omega arith;
  apart = refl;
}

no_items-IsValid : IsValid no_items
no_items-IsValid = record {
  exponent = 2;
  exponent_le = omega arith;
  power = refl;
  small = omega arith;
  storage = omega arith;
  head_in = omega arith;
  tail_in = omega arith;
  count = omega arith;
  apart = refl;
}

power_of_two_round_up-least_example :
    (k : ℕ) × (power_of_two_round_up 100 ≡ some (2 ^ k)) × (100 ≤ 2 ^ k) × (2 ^ k ≤ 2 * (100 - 1))
power_of_two_round_up-least_example = power_of_two_round_up-least 100 (omega arith) (omega arith)

init-IsValid_example :
    (q : BlockQueue) × (init true 100 ≡ some q)
    × IsValid q
    × IsOpen q
    × (contents q ≡ [])
    × (100 ≤ q.len)
    × (q.len < 2 * 100)
init-IsValid_example = init-IsValid 100 (omega arith) (omega arith)

calls_refine_example :
    (let (rs, q') = run two_items calls in (rs, contents q'))
    ≡ fifo_run 4 (item 10 16 ∷ item 20 16 ∷ []) calls
calls_refine_example = calls_refine calls two_items-IsValid (refl, refl)

run-accumulated_example :
    (run two_items calls).1.accumulated_items_len
    ≡ total (contents (run two_items calls).1) % word_mod
run-accumulated_example =
    run-accumulated calls two_items-IsValid (refl, refl) (refl, omega arith) (omega arith)
