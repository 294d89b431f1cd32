-- ===== src/Fapi/Buffers.antt =====
-- The ring of message buffers comes back to a buffer only after all the others.
use enb_l1_b4860_ppc.Common.{
  ℕ, zero, suc, ◌+◌, ◌%◌, ◌<◌, ◌≡◌, ◌↔◌, refl, ap, ◌∙◌, List, arith, get_or,
}
use enb_l1_b4860_ppc.Usmmgr.{MemRange}
use enb_l1_b4860_ppc.Fapi.{Fapi, no_range, next_buf, tx_req_buf_num, alloc_send_msg}

-- The state after `n` allocations, the k-th of them for channel `ids k`.
unfoldable pub after_allocs : (ℕ → ℕ) → ℕ → Fapi → Fapi
after_allocs ids zero f = f
after_allocs ids (suc n) f = (alloc_send_msg (ids n) (after_allocs ids n f)).1

-- No two of the first `n` ranges start at the same address.
abbrev pub HasDistinct : ℕ → List MemRange → Type 0
HasDistinct n rs =
    (i j : ℕ) → i < n → j < n → (get_or rs i no_range).vaddr ≡ (get_or rs j no_range).vaddr → i ≡ j

next_place : (p n : ℕ) → p < 16 → next_buf 16 ((p + n) % 16) ≡ (p + suc n) % 16
unfolding next_buf
next_place p n h = ground arith

-- Where the ring stands after `n` allocations, and its buffers.
allocs-place :
    (ids : ℕ → ℕ) (n : ℕ) (f : Fapi)
    → f.tx_req_data_buf_ptr < tx_req_buf_num
    → ((after_allocs ids n f).tx_req_data_buf_ptr ≡ (f.tx_req_data_buf_ptr + n) % 16)
      × ((after_allocs ids n f).tx_req_data_bufs ≡ f.tx_req_data_bufs)
unfolding after_allocs alloc_send_msg
allocs-place ids zero f h = (omega arith, refl)
allocs-place ids (suc n) f h =
    let (place, bufs) = allocs-place ids n f h in
    (ap (next_buf 16) place ∙ next_place f.tx_req_data_buf_ptr n h, bufs)

-- If the 16 buffers start at different addresses, then `n` allocations of messages after one, the
-- next one returns the same buffer exactly if `n + 1` is a multiple of 16: the ring does not hand
-- out a buffer again before it has handed out all the others.
pub alloc_send_msg-again_iff :
    (ids : ℕ → ℕ) (n : ℕ) (f : Fapi)
    → f.tx_req_data_buf_ptr < tx_req_buf_num
    → HasDistinct tx_req_buf_num f.tx_req_data_bufs
    → ((alloc_send_msg (ids (suc n)) (after_allocs ids (suc n) f)).0 ≡ (alloc_send_msg (ids 0) f).0)
      ↔ (suc n % 16 ≡ 0)
unfolding alloc_send_msg
alloc_send_msg-again_iff ids n f h distinct =
    let (place, bufs) = allocs-place ids (suc n) f h in
    rw (place, bufs)
      (
        λ e. omega (
          arith,
          distinct ((f.tx_req_data_buf_ptr + suc n) % 16) f.tx_req_data_buf_ptr (omega arith) h e,
        ),
        λ e.
            let same : (f.tx_req_data_buf_ptr + suc n) % 16 ≡ f.tx_req_data_buf_ptr = omega arith in
            ap (λ i. (get_or f.tx_req_data_bufs i no_range).vaddr) same,
      )
