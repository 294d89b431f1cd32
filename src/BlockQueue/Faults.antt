-- ===== src/BlockQueue/Faults.antt =====
-- Where the queue does not do what its names promise: after a break, in `pop_last`, in `is_empty`.
use enb_l1_b4860_ppc.Common.{
  ℕ, ◌+◌, ◌-◌, ◌≤◌, ◌<◌, ◌≡◌, ◌⊎◌, ◌↔◌, true, none, some, ◌∷◌, arith, word_mod, mod-eq_of_lt,
  mod-eq-sub-mod,
}
use enb_l1_b4860_ppc.Common.Window.{wrap_ne}
use enb_l1_b4860_ppc.BlockQueue.{
  BlockQueue, moved, released, push, pop, pop_last, is_empty, break_pop, oldest, store, next_index,
}
use enb_l1_b4860_ppc.BlockQueue.Inv.{IsValid, next_index-mod, discard-IsValid}
use enb_l1_b4860_ppc.BlockQueue.Refine.{contents, IsOpen, contents-discard}

module _ {q : BlockQueue} (v : IsValid q) where
  -- On a valid queue `block_queue_is_empty` says 1 exactly if the queue is empty or full.
  pub is_empty_iff : (is_empty q ≡ true) ↔ ((q.num_items ≡ 0) ⊎ (q.num_items ≡ q.len))
  unfolding is_empty
  is_empty_iff = ground (
    arith,
    v,
    wrap_ne {size = q.len} {h = q.tail} q.num_items,
    mod-eq_of_lt {n = q.tail + 0} {m = q.len},
    mod-eq_of_lt {n = q.tail} {m = q.len},
    mod-eq-sub-mod {n = q.tail + q.len} {m = q.len},
  )

  -- After `block_queue_break_pop` on a valid queue with items a pop returns NULL, drops the oldest
  -- item and leaves a valid queue.
  pub pop-break_drops :
      0 < q.num_items
      → (q' : BlockQueue) × (pop (break_pop q) ≡ some (0, q'))
        × IsValid q'
        × (contents q ≡ oldest q ∷ contents q')
  unfolding pop break_pop
  pop-break_drops pos =
      (released q, ground arith, ground (arith, discard-IsValid v pos), contents-discard v pos)

  -- After `block_queue_break_pop` on a valid, empty queue a pop returns NULL and takes the count to
  -- -1, and the next pop does not wait: it returns what the slot at `tail` holds.
  pub pop-break_underflows :
      q.num_items ≡ 0
      → (q' q'' : BlockQueue) × (pop (break_pop q) ≡ some (0, q'))
        × (q'.num_items ≡ word_mod - 1)
        × (pop q' ≡ some ((oldest q').ptr, q''))
  unfolding pop break_pop
  pop-break_underflows none_left =
      (released q, released (released q), ground arith, omega arith, ground arith)

  -- After `block_queue_break_pop` and a pop on a valid, empty queue that was not broken before, the
  -- push of an item succeeds, and a pop after it waits.
  pub push-break_hides :
      (x n : ℕ)
      → q.num_items ≡ 0
      → IsOpen q
      → (q' q'' : BlockQueue) × (pop (break_pop q) ≡ some (0, q'))
        × (push q' x n ≡ some (true, q''))
        × (pop q'' ≡ none)
  unfolding pop push break_pop
  push-break_hides x n none_left o =
      (released q, store (released q) x n, ground arith, ground arith, ground arith)

  moved_back : next_index q.len (moved q).tail ≡ q.head
  moved_back = ground (
    arith,
    next_index-mod v (moved q).tail,
    mod-eq_of_lt {n = q.head} {m = q.len},
    mod-eq_of_lt {n = 0} {m = q.len},
    mod-eq-sub-mod {n = q.len} {m = q.len},
  )

  -- On a valid, unbroken queue with two or more items `block_queue_pop_last` returns an item and
  -- leaves `tail` at `head` with one item less counted; the queue is not valid then.
  pub pop_last-breaks :
      2 ≤ q.num_items
      → IsOpen q
      → (x : ℕ) × (q' : BlockQueue) × (pop_last q ≡ some (x, q'))
        × (q'.tail ≡ q'.head)
        × (q'.num_items ≡ q.num_items - 1)
        × ¬ IsValid q'
  unfolding pop_last
  pop_last-breaks two o =
      let at = moved q in
      (
        (oldest at).ptr,
        released at,
        ground arith,
        moved_back,
        omega arith,
        λ v'.
            ground
              (arith, moved_back, v'.apart, wrap_ne {size = q.len} {h = q.head} (q.num_items - 1)),
      )
