-- ===== src/BlockQueue.antt =====
-- lib/core/block_queue.c and block_queue_internal.h: the bounded queue of pointers by which the
-- dispatcher thread hands messages to the threads of L2. Each function runs under the queue's
-- mutex, so it is one step on the state. A call that would wait on a condition variable is `none`:
-- it leaves the queue alone, and the woken thread tests the same condition again as a fresh call.
-- An int32_t or size_t is its 32-bit pattern; a pointer is a number, and 0 is NULL.
pub mod Inv
pub mod Capacity
pub mod Refine
pub mod Accounting
pub mod Break
pub mod Faults
mod Tests
use mathlib.Core.Option
use enb_l1_b4860_ppc.Common.{
  ℕ, zero, suc, ◌+◌, ◌*◌, ◌%◌, Bool, true, false, ◌&&◌, ◌||◌, not, Option, none, some, List, ◌==◌,
  ◌^◌, leb, if◌then◌else◌, bit_and, add32, sub32, word_mod, get_or, set, replicate,
}

-- `queue_item_t`
pub record Item : Type 0 where
  pub ptr : ℕ
  pub len : ℕ

-- A slot that calloc has cleared.
abbrev pub no_item : Item
no_item = record { ptr = 0; len = 0 }

-- `block_queue_t`, less the mutex and the two condition variables.
pub record BlockQueue : Type 0 where
  pub head : ℕ
  pub tail : ℕ
  pub len : ℕ
  pub queue : List Item
  pub pop_break_flag : Bool
  pub push_break_flag : Bool
  pub num_items : ℕ
  pub accumulated_items_len : ℕ

-- The loop `while (n & (n - 1)) n = n & (n - 1)`, on fuel.
unfoldable pub clear_low : ℕ → ℕ → Option ℕ
clear_low zero n = none
clear_low (suc fuel) n =
    let next = bit_and n (sub32 n 1) in
    let rest = clear_low fuel next in if next == 0 then some n else rest

-- 32 rounds are enough for a 32-bit int. `none` stands for `n << 1` beyond the range of an int,
-- which C leaves undefined.
unfoldable pub power_of_two_round_up : ℕ → Option ℕ
power_of_two_round_up n = elim (clear_low 32 (sub32 n 1)) [
  | none ↦ none
  | some p ↦ if leb (2 ^ 30) p then none else some (p * 2)
]

-- The queue after a successful calloc of both blocks.
abbrev pub fresh : ℕ → BlockQueue
fresh len = record {
  head = 0;
  tail = 0;
  len = len;
  queue = replicate len no_item;
  pop_break_flag = false;
  push_break_flag = false;
  num_items = 0;
  accumulated_items_len = 0;
}

-- `block_queue_init`; `allocated` says whether both calls of calloc succeed. `none` stands for a failed
-- assertion, which ends the process, and for what C leaves undefined.
unfoldable pub init : Bool → ℕ → Option BlockQueue
init allocated min_queue_len =
    let q = Option.map fresh (power_of_two_round_up min_queue_len) in if allocated then q else none

-- The index after `i`: `(i + 1) & (q->len - 1)`.
unfoldable pub next_index : ℕ → ℕ → ℕ
next_index len i = bit_and (add32 i 1) (sub32 len 1)

-- The statements by which `push` and `try_push` store an item.
abbrev pub store : BlockQueue → ℕ → ℕ → BlockQueue
store q item item_len = record q {
  queue = set q.queue q.head (record { ptr = item; len = item_len });
  head = next_index q.len q.head;
  accumulated_items_len = add32 q.accumulated_items_len item_len;
  num_items = add32 q.num_items 1;
}

-- The slot that `tail` points to.
abbrev pub oldest : BlockQueue → Item
oldest q = get_or q.queue q.tail no_item

-- The statements by which the pops drop the item at `tail`.
abbrev pub discard : BlockQueue → BlockQueue
discard q = record q {
  tail = next_index q.len q.tail;
  accumulated_items_len = sub32 q.accumulated_items_len (oldest q).len;
  num_items = sub32 q.num_items 1;
}

-- What a blocking pop leaves: the item at `tail` dropped, and the flag that woke it reset.
abbrev pub released : BlockQueue → BlockQueue
released q = record (discard q) { pop_break_flag = false }

-- The assignment to `tail` by which `pop_last` begins.
abbrev pub moved : BlockQueue → BlockQueue
moved q = record q { tail = if q.head == 0 then sub32 q.len 1 else sub32 q.head 1 }

unfoldable pub push : BlockQueue → ℕ → ℕ → Option (Bool × BlockQueue)
push q item item_len =
    if q.num_items == q.len && not q.push_break_flag
    then none
    else if not q.push_break_flag
    then some (true, store q item item_len)
    else some (false, q)

unfoldable pub try_push : BlockQueue → ℕ → ℕ → Bool × BlockQueue
try_push q item item_len =
    if q.num_items == q.len then (false, q) else (true, store q item item_len)

-- With the flag, what the function leaves in `*item`.
unfoldable pub try_pop : BlockQueue → Option ℕ × BlockQueue
try_pop q = if q.num_items == 0 then (none, q) else (some (oldest q).ptr, discard q)

-- `woken` is the queue as the call finds it on return from pthread_cond_timedwait, and `rv` what
-- that returns; a call that need not wait goes on with `q` and 0.
unfoldable pub try_pop_timeout : BlockQueue → ℕ → BlockQueue → Option ℕ × BlockQueue
try_pop_timeout q rv woken =
    if q.num_items == 0 && not q.pop_break_flag
    then (if not (rv == 0) || woken.pop_break_flag || woken.num_items == 0
        then (none, woken)
        else (some (oldest woken).ptr, discard woken))
    else if q.pop_break_flag || q.num_items == 0
    then (none, q)
    else (some (oldest q).ptr, discard q)

unfoldable pub pop : BlockQueue → Option (ℕ × BlockQueue)
pop q =
    if q.num_items == 0 && not q.pop_break_flag
    then none
    else some ((if q.pop_break_flag then 0 else (oldest q).ptr), released q)

unfoldable pub pop_last : BlockQueue → Option (ℕ × BlockQueue)
pop_last q =
    if q.num_items == 0 && not q.pop_break_flag
    then none
    else some ((if q.pop_break_flag then 0 else (oldest (moved q)).ptr), released (moved q))

unfoldable pub is_empty : BlockQueue → Bool
is_empty q = q.head == q.tail

unfoldable pub break_pop : BlockQueue → BlockQueue
break_pop q = record q { pop_break_flag = true }

unfoldable pub break_push : BlockQueue → BlockQueue
break_push q = record q { push_break_flag = true }

-- `block_queue_break`
unfoldable pub break_both : BlockQueue → BlockQueue
unfolding break_pop break_push
break_both q = break_pop (break_push q)

unfoldable pub clear : BlockQueue → BlockQueue
clear q = record q {
  pop_break_flag = true;
  push_break_flag = true;
  head = 0;
  tail = 0;
  num_items = 0;
  accumulated_items_len = 0;
}

-- `block_queue_num_items`
abbrev pub num_items : BlockQueue → ℕ
num_items q = q.num_items

-- `block_queue_accumulated_items_len`
abbrev pub accumulated_items_len : BlockQueue → ℕ
accumulated_items_len q = q.accumulated_items_len
