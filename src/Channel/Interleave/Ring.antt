-- ===== src/Channel/Interleave/Ring.antt =====
-- What the single accesses of a send do to a valid ring.
use enb_l1_b4860_ppc.Common.{
  suc, ◌<◌, ◌≡◌, ◌≢◌, [], ◌∷◌, ◌++◌, arith, length-set, get_or-set_self, get_or-set_ne,
}
use enb_l1_b4860_ppc.Common.Window.{window_end, window-set_past, wrap_ne}
use enb_l1_b4860_ppc.Channel.{
  Bd, no_bd, Channel, consumer_bd, producer_bd, write_bd, advance_producer,
}
use enb_l1_b4860_ppc.Channel.Ring.{IsRing, pending, contents, producer_moves}

module _ {ch : Channel} (v : IsRing ch) where
  pub producer_bd-write_bd : (x : Bd) → producer_bd (write_bd ch x) ≡ x
  producer_bd-write_bd x =
      get_or-set_self ch.bds ch.local_producer_num x no_bd (omega (arith, v.storage, v.producer_in))

  pub write_bd-IsRing : (x : Bd) → IsRing (write_bd ch x)
  write_bd-IsRing x = ground (arith, v, length-set ch.bds ch.local_producer_num x)

  module _ (room : pending ch < ch.bd_ring_size) where
    pub contents-write_bd : (x : Bd) → contents (write_bd ch x) ≡ contents ch
    contents-write_bd x =
        window-set_past no_bd ch.bds ch.bd_ring_size x (pending ch) ch.local_consumer_num
          ch.local_producer_num v.consumer_in room v.apart

    -- The two sides are at different slots while descriptors wait and there is room.
    pub consumer_bd-write_bd :
        (x : Bd) → 0 < pending ch → consumer_bd (write_bd ch x) ≡ consumer_bd ch
    consumer_bd-write_bd x pos =
        let away : ch.local_producer_num ≢ ch.local_consumer_num =
          rw v.apart (wrap_ne (pending ch) v.consumer_in pos room) in
        get_or-set_ne ch.bds ch.local_producer_num ch.local_consumer_num x no_bd away

    pending-advance_producer : pending (advance_producer ch) ≡ suc (pending ch)
    unfolding advance_producer
    pending-advance_producer = omega (arith, v.count, v.size_word, v.producer_word, v.consumer_word)

    pub advance_producer-IsRing : IsRing (advance_producer ch)
    unfolding advance_producer
    advance_producer-IsRing = ground (arith, v, producer_moves v)

    pub contents-advance_producer :
        contents (advance_producer ch) ≡ contents ch ++ (producer_bd ch ∷ [])
    unfolding advance_producer
    contents-advance_producer = rw pending-advance_producer (
        window_end no_bd ch.bds ch.bd_ring_size (pending ch) ch.local_consumer_num
          ch.local_producer_num v.consumer_in v.apart)
