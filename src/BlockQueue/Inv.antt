-- ===== src/BlockQueue/Inv.antt =====
-- The representation invariant of block_queue_t, and that the operations of a queue that nobody
-- has broken keep it.
use enb_l1_b4860_ppc.Common.{
  ℕ, ◌+◌, ◌-◌, ◌%◌, ◌^◌, ◌≤◌, ◌<◌, ◌≡◌, ap, ◌∙◌, Bool, some, arith, length, length-set, add32,
  sub32, one-le-pow, mod-add-mod,
}
use enb_l1_b4860_ppc.Common.Bits.{bit_and_mask}
use enb_l1_b4860_ppc.BlockQueue.{
  BlockQueue, next_index, store, discard, push, try_push, try_pop, pop,
}

-- `len` is a power of two that an int32_t holds, so that masking by `len - 1` is a remainder.
pub record IsValid (q : BlockQueue) : Type 0 where
  pub exponent : ℕ
  pub exponent_le : exponent ≤ 30
  pub power : q.len ≡ 2 ^ exponent
  pub small : q.len ≤ 2 ^ 30
  pub storage : q.len ≤ length q.queue
  pub head_in : q.head < q.len
  pub tail_in : q.tail < q.len
  pub count : q.num_items ≤ q.len
  pub apart : q.head ≡ (q.tail + q.num_items) % q.len

module _ {q : BlockQueue} (v : IsValid q) where
  pub next_index-mod : (i : ℕ) → i < q.len → next_index q.len i ≡ (i + 1) % q.len
  unfolding next_index
  next_index-mod i h =
      let plus : add32 i 1 ≡ i + 1 = omega arith in
      let mask : sub32 q.len 1 ≡ 2 ^ v.exponent - 1 = omega (arith, one-le-pow v.exponent 2) in
      rw (plus, mask) (ground (arith, bit_and_mask v.exponent (i + 1)))

  -- One more item moves `head` on by one.
  head_moves : (q.head + 1) % q.len ≡ (q.tail + (q.num_items + 1)) % q.len
  head_moves = rw (v.apart, mod-add-mod) (ap (λ k. k % q.len) (omega arith))

  -- One item less leaves `head` where it is.
  head_stays : 0 < q.num_items → q.head ≡ ((q.tail + 1) % q.len + (q.num_items - 1)) % q.len
  head_stays h = rw mod-add-mod (v.apart ∙ ap (λ k. k % q.len) (omega arith))

  pub store-IsValid : (item item_len : ℕ) → q.num_items < q.len → IsValid (store q item item_len)
  store-IsValid item item_len room = ground (
    arith,
    head_moves,
    next_index-mod q.head,
    length-set q.queue q.head (record { ptr = item; len = item_len }),
  )

  pub discard-IsValid : 0 < q.num_items → IsValid (discard q)
  discard-IsValid some_left = ground (arith, head_stays, next_index-mod q.tail)

  -- `block_queue_push` keeps the invariant, whether or not it stores.
  pub push-IsValid :
      (item item_len : ℕ) {done : Bool} {q' : BlockQueue}
      → push q item item_len ≡ some (done, q')
      → IsValid q'
  unfolding push
  push-IsValid item item_len e = ground (arith, store-IsValid item item_len)

  -- `block_queue_try_push` keeps the invariant.
  pub try_push-IsValid : (item item_len : ℕ) → IsValid (try_push q item item_len).1
  unfolding try_push
  try_push-IsValid item item_len = ground (arith, store-IsValid item item_len)

  -- `block_queue_try_pop` keeps the invariant.
  pub try_pop-IsValid : IsValid (try_pop q).1
  unfolding try_pop
  try_pop-IsValid = ground (arith, discard-IsValid)

  -- `block_queue_pop` keeps the invariant, unless it is woken on an empty queue by a break.
  pub pop-IsValid : {x : ℕ} {q' : BlockQueue} → 0 < q.num_items → pop q ≡ some (x, q') → IsValid q'
  unfolding pop
  pop-IsValid pos e = ground (arith, discard-IsValid pos)
