-- ===== src/BlockQueue/Refine.antt =====
-- A valid queue that nobody has broken behaves as the bounded FIFO of the items that it holds,
-- whatever the order in which the threads' calls take the mutex.
use enb_l1_b4860_ppc.Common.{
  ℕ, suc, sub32, ◌^◌, ◌+◌, ◌-◌, ◌%◌, ◌<◌, ◌≡◌, refl, ap, subst, Bool, true, false, Option, none,
  some, List, [], ◌∷◌, ◌++◌, arith, length, ◌==◌, if◌then◌else◌,
}
use enb_l1_b4860_ppc.Common.Window.{window, length-window, window_of_pos, window-set}
use enb_l1_b4860_ppc.BlockQueue.{
  Item, no_item, BlockQueue, push, try_push, try_pop, try_pop_timeout, pop, store, discard, oldest,
}
use enb_l1_b4860_ppc.BlockQueue.Inv.{IsValid, next_index-mod, store-IsValid, discard-IsValid}

-- A call of a thread. A timed pop that waits is taken at the moment at which it returns.
pub data Call : Type 0 where
  push_call try_push_call : ℕ → ℕ → Call
  pop_call try_pop_call : Call
  timed_pop_call : ℕ → Call

-- What the thread sees; `blocked` is a wait, after which it makes the same call again.
pub data Reply : Type 0 where
  blocked : Reply
  pushed : Bool → Reply
  popped : Option ℕ → Reply

abbrev on_push : BlockQueue → Option (Bool × BlockQueue) → Reply × BlockQueue
on_push q none = (blocked, q)
on_push q (some (done, q')) = (pushed done, q')

abbrev on_pop : BlockQueue → Option (ℕ × BlockQueue) → Reply × BlockQueue
on_pop q none = (blocked, q)
on_pop q (some (x, q')) = (popped (some x), q')

-- One call on the state.
unfoldable pub step : BlockQueue → Call → Reply × BlockQueue
step q (push_call x n) = on_push q (push q x n)
step q (try_push_call x n) = let (done, q') = try_push q x n in (pushed done, q')
step q pop_call = on_pop q (pop q)
step q try_pop_call = let (x, q') = try_pop q in (popped x, q')
step q (timed_pop_call rv) = let (x, q') = try_pop_timeout q rv q in (popped x, q')

unfoldable pub run : BlockQueue → List Call → List Reply × BlockQueue
run q [] = ([], q)
run q (c ∷ cs) = let (r, q') = step q c in let (rs, q'') = run q' cs in (r ∷ rs, q'')

-- The specification: a list of items, oldest first, with room for `size`.
module _ (size : ℕ) where
  abbrev pub fifo_push : Reply → List Item → ℕ → ℕ → Reply × List Item
  fifo_push full s x n =
      if length s == size then (full, s) else (pushed true, s ++ (record { ptr = x; len = n } ∷ []))

  abbrev pub fifo_pop : Reply → List Item → Reply × List Item
  fifo_pop empty [] = (empty, [])
  fifo_pop empty (i ∷ s) = (popped (some i.ptr), s)

  unfoldable pub fifo_step : List Item → Call → Reply × List Item
  fifo_step s (push_call x n) = fifo_push blocked s x n
  fifo_step s (try_push_call x n) = fifo_push (pushed false) s x n
  fifo_step s pop_call = fifo_pop blocked s
  fifo_step s try_pop_call = fifo_pop (popped none) s
  fifo_step s (timed_pop_call rv) = fifo_pop (popped none) s

  unfoldable pub fifo_run : List Item → List Call → List Reply × List Item
  fifo_run s [] = ([], s)
  fifo_run s (c ∷ cs) =
      let (r, s') = fifo_step s c in let (rs, s'') = fifo_run s' cs in (r ∷ rs, s'')

-- The items that the queue holds, oldest first.
abbrev pub contents : BlockQueue → List Item
contents q = window no_item q.queue q.len q.tail q.num_items

-- Nobody has called one of the break functions, or `block_queue_clear`.
abbrev pub IsOpen : BlockQueue → Type 0
IsOpen q = (q.pop_break_flag ≡ false) × (q.push_break_flag ≡ false)

module _ {q : BlockQueue} (v : IsValid q) where
  pub length-contents : length (contents q) ≡ q.num_items
  length-contents = length-window no_item q.queue q.len q.tail q.num_items

  pub contents-store :
      (x n : ℕ)
      → q.num_items < q.len
      → contents (store q x n) ≡ contents q ++ (record { ptr = x; len = n } ∷ [])
  contents-store x n room =
      let count : (q.num_items + 1) % 2 ^ 32 ≡ suc q.num_items = omega arith in
      rw count (
        window-set no_item q.queue q.len (record { ptr = x; len = n }) q.num_items q.tail q.head
          v.storage v.tail_in room v.apart)

  pub contents-discard : 0 < q.num_items → contents q ≡ oldest q ∷ contents (discard q)
  contents-discard pos =
      let count : sub32 q.num_items 1 ≡ q.num_items - 1 = omega arith in
      rw (count, next_index-mod v q.tail v.tail_in)
        (window_of_pos no_item q.queue q.len q.tail q.num_items pos)

  pub step_refines :
      (c : Call)
      → IsOpen q
      → (let (r, q') = step q c in (r, contents q')) ≡ fifo_step q.len (contents q) c
  unfolding step fifo_step push try_push pop try_pop try_pop_timeout
  step_refines (push_call x n) o = ground (arith, length-contents, contents-store x n)
  step_refines (try_push_call x n) o = ground (arith, length-contents, contents-store x n)
  step_refines pop_call o = ground (arith, length-contents, contents-discard)
  step_refines try_pop_call o = ground (arith, length-contents, contents-discard)
  step_refines (timed_pop_call rv) o = ground (arith, length-contents, contents-discard)

  pub step-IsValid :
      (c : Call)
      → IsOpen q
      → IsValid (step q c).1 × IsOpen (step q c).1 × ((step q c).1.len ≡ q.len)
  unfolding step push try_push pop try_pop try_pop_timeout
  step-IsValid (push_call x n) o = ground (arith, store-IsValid v x n)
  step-IsValid (try_push_call x n) o = ground (arith, store-IsValid v x n)
  step-IsValid pop_call o = ground (arith, discard-IsValid v)
  step-IsValid try_pop_call o = ground (arith, discard-IsValid v)
  step-IsValid (timed_pop_call rv) o = ground (arith, discard-IsValid v)

-- No order of calls tells a valid queue whose break flags are not set from the FIFO of its contents,
-- with room for as many items as the queue is long: every reply, and the contents that are left, are
-- the specification's.
pub calls_refine :
    (cs : List Call) {q : BlockQueue}
    → IsValid q
    → IsOpen q
    → (let (rs, q') = run q cs in (rs, contents q')) ≡ fifo_run q.len (contents q) cs
unfolding run fifo_run
calls_refine [] v o = refl
calls_refine (c ∷ cs) {q} v o =
    let (v', o', same) = step-IsValid v c o in
    let q' = (step q c).1 in
    let ih =
      subst (λ n. (let (rs, q'') = run q' cs in (rs, contents q'')) ≡ fifo_run n (contents q') cs)
        same (calls_refine cs v' o') in
    rw (← step_refines v c o) (ap (λ (p : List Reply × List Item). ((step q c).0 ∷ p.0, p.1)) ih)
