-- ===== src/Channel/Ring.antt =====
-- The invariant of a channel's ring, which holds across the wrap of the 32-bit counters.
use enb_l1_b4860_ppc.Common.{
  ℕ, suc, ◌+◌, ◌-◌, ◌%◌, ◌≤◌, ◌<◌, ◌≡◌, ap, ◌∙◌, ◌↔◌, true, List, [], ◌∷◌, ◌++◌, arith, length,
  length-set, sub32, add32, word_mod, mod-add-mod,
}
use enb_l1_b4860_ppc.Common.Window.{window, length-window, window_of_pos, window-set}
use enb_l1_b4860_ppc.Channel.{
  Bd, no_bd, Channel, is_empty, is_full, free_bds, consumer_bd, write_bd, advance_producer,
  advance_consumer,
}

-- How many descriptors wait to be consumed.
abbrev pub pending : Channel → ℕ
pending ch = sub32 ch.producer_num ch.consumer_num

pub record IsRing (ch : Channel) : Type 0 where
  pub size_word : ch.bd_ring_size < word_mod
  pub storage : ch.bd_ring_size ≤ length ch.bds
  pub producer_word : ch.producer_num < word_mod
  pub consumer_word : ch.consumer_num < word_mod
  pub producer_in : ch.local_producer_num < ch.bd_ring_size
  pub consumer_in : ch.local_consumer_num < ch.bd_ring_size
  pub count : pending ch ≤ ch.bd_ring_size
  pub apart : ch.local_producer_num ≡ (ch.local_consumer_num + pending ch) % ch.bd_ring_size

-- On either side of a wrap `os_het_ch_free_bds` is the ring's size less what is pending.
pub free_bds-eq :
    (ch : Channel)
    → ch.producer_num < word_mod
    → ch.consumer_num < word_mod
    → ch.bd_ring_size < word_mod
    → free_bds ch ≡ sub32 ch.bd_ring_size (pending ch)
unfolding free_bds
free_bds-eq ch p c s = ground arith

-- The descriptors that wait, oldest first.
abbrev pub contents : Channel → List Bd
contents ch = window no_bd ch.bds ch.bd_ring_size ch.local_consumer_num (pending ch)

-- A new descriptor in the ring.
abbrev pub produce : Channel → Bd → Channel
produce ch bd = advance_producer (write_bd ch bd)

module _ {ch : Channel} (v : IsRing ch) where
  pub length-contents : length (contents ch) ≡ pending ch
  length-contents = length-window no_bd ch.bds ch.bd_ring_size ch.local_consumer_num (pending ch)

  pub is_full_iff : (is_full ch ≡ true) ↔ (pending ch ≡ ch.bd_ring_size)
  unfolding is_full
  is_full_iff = ground arith

  pub is_empty_iff : (is_empty ch ≡ true) ↔ (pending ch ≡ 0)
  unfolding is_empty
  is_empty_iff = ground arith

  pub pending-produce :
      (bd : Bd) → pending ch < ch.bd_ring_size → pending (produce ch bd) ≡ suc (pending ch)
  unfolding advance_producer
  pending-produce bd room = omega arith

  pub pending-consume : 0 < pending ch → pending (advance_consumer ch) ≡ pending ch - 1
  unfolding advance_consumer
  pending-consume pos = omega arith

  pub producer_moves :
      (ch.local_producer_num + 1) % ch.bd_ring_size
      ≡ (ch.local_consumer_num + (pending ch + 1)) % ch.bd_ring_size
  producer_moves = rw (v.apart, mod-add-mod) (ap (λ k. k % ch.bd_ring_size) (omega arith))

  producer_stays :
      0 < pending ch
      → ch.local_producer_num
        ≡ ((ch.local_consumer_num + 1) % ch.bd_ring_size + (pending ch - 1)) % ch.bd_ring_size
  producer_stays pos = rw mod-add-mod (v.apart ∙ ap (λ k. k % ch.bd_ring_size) (omega arith))

  pub produce-IsRing : (bd : Bd) → pending ch < ch.bd_ring_size → IsRing (produce ch bd)
  unfolding advance_producer
  produce-IsRing bd room =
      ground (arith, length-set ch.bds ch.local_producer_num bd, producer_moves)

  pub consume-IsRing : 0 < pending ch → IsRing (advance_consumer ch)
  unfolding advance_consumer
  consume-IsRing pos = ground (arith, producer_stays pos)

  pub contents-produce :
      (bd : Bd) → pending ch < ch.bd_ring_size → contents (produce ch bd) ≡ contents ch ++ (bd ∷ [])
  unfolding advance_producer
  contents-produce bd room = rw (pending-produce bd room) (
      window-set no_bd ch.bds ch.bd_ring_size bd (pending ch) ch.local_consumer_num
        ch.local_producer_num v.storage v.consumer_in room v.apart)

  pub contents-consume :
      0 < pending ch → contents ch ≡ consumer_bd ch ∷ contents (advance_consumer ch)
  unfolding advance_consumer
  contents-consume pos =
      let word : add32 ch.local_consumer_num 1 ≡ ch.local_consumer_num + 1 = omega arith in
      rw (pending-consume pos, word)
        (window_of_pos no_bd ch.bds ch.bd_ring_size ch.local_consumer_num (pending ch) pos)
