-- ===== src/Channel/Interleave/Settle.antt =====
-- The settled channel under the single accesses.
use enb_l1_b4860_ppc.Common.{◌≤◌, ◌<◌, ◌≡◌, refl, arith, word_mod, false}
use enb_l1_b4860_ppc.Channel.{
  Bd, Channel, consumer_bd, producer_bd, write_bd, advance_producer, advance_consumer, is_full,
  is_empty,
}
use enb_l1_b4860_ppc.Channel.Ring.{IsRing, pending, free_bds-eq}
use enb_l1_b4860_ppc.Channel.Steps.{
  Sending, idle, checked, pointed, written, counted, Receiving, waiting, found, pointer, read,
  taken, count_producer, count_consumer, move_producer, move_consumer,
}
use enb_l1_b4860_ppc.Channel.Interleave.{
  settle_producer, settle_consumer, settled, SenderKnows, ReceiverKnows,
}
use enb_l1_b4860_ppc.Channel.Interleave.Ring.{consumer_bd-write_bd}

pub settle_consumer-write_bd :
    (c : Receiving) (ch : Channel) (x : Bd)
    → settle_consumer c (write_bd ch x) ≡ write_bd (settle_consumer c ch) x
unfolding settle_consumer
settle_consumer-write_bd waiting ch x = refl
settle_consumer-write_bd found ch x = refl
settle_consumer-write_bd (pointer p) ch x = refl
settle_consumer-write_bd (read b) ch x = refl
settle_consumer-write_bd taken ch x = refl

pub settled-count_producer :
    (c : Receiving) (ch : Channel)
    → settled counted c (count_producer ch) ≡ advance_producer (settle_consumer c ch)
unfolding settle_consumer settle_producer advance_producer
settled-count_producer waiting ch = refl
settled-count_producer found ch = refl
settled-count_producer (pointer p) ch = refl
settled-count_producer (read b) ch = refl
settled-count_producer taken ch = refl

pub settle_consumer-move_producer :
    (c : Receiving) (ch : Channel)
    → settle_consumer c (move_producer ch) ≡ move_producer (settle_consumer c ch)
unfolding settle_consumer
settle_consumer-move_producer waiting ch = refl
settle_consumer-move_producer found ch = refl
settle_consumer-move_producer (pointer p) ch = refl
settle_consumer-move_producer (read b) ch = refl
settle_consumer-move_producer taken ch = refl

pub settled-count_consumer :
    (p : Sending) (ch : Channel)
    → settled p taken (count_consumer ch) ≡ advance_consumer (settle_producer p ch)
unfolding settle_consumer settle_producer advance_consumer
settled-count_consumer idle ch = refl
settled-count_consumer (checked b) ch = refl
settled-count_consumer (pointed b) ch = refl
settled-count_consumer (written b) ch = refl
settled-count_consumer counted ch = refl

-- Settling the consumer keeps what the producer looks at, and the other way round.
pub settle_consumer-keeps :
    (c : Receiving) (ch : Channel)
    → (pending (settle_consumer c ch) ≡ pending ch)
      × ((settle_consumer c ch).bd_ring_size ≡ ch.bd_ring_size)
      × (producer_bd (settle_consumer c ch) ≡ producer_bd ch)
unfolding settle_consumer
settle_consumer-keeps waiting ch = (refl, refl, refl)
settle_consumer-keeps found ch = (refl, refl, refl)
settle_consumer-keeps (pointer p) ch = (refl, refl, refl)
settle_consumer-keeps (read b) ch = (refl, refl, refl)
settle_consumer-keeps taken ch = (refl, refl, refl)

pub settle_producer-keeps :
    (p : Sending) (ch : Channel)
    → (pending (settle_producer p ch) ≡ pending ch)
      × ((settle_producer p ch).bd_ring_size ≡ ch.bd_ring_size)
      × (consumer_bd (settle_producer p ch) ≡ consumer_bd ch)
unfolding settle_producer
settle_producer-keeps idle ch = (refl, refl, refl)
settle_producer-keeps (checked b) ch = (refl, refl, refl)
settle_producer-keeps (pointed b) ch = (refl, refl, refl)
settle_producer-keeps (written b) ch = (refl, refl, refl)
settle_producer-keeps counted ch = (refl, refl, refl)

-- What a side knows stays true under the accesses of the other.
pub receiver-write_bd :
    (c : Receiving) (ch : Channel) (x : Bd)
    → IsRing (settle_consumer c ch)
    → pending ch < ch.bd_ring_size
    → ReceiverKnows c ch
    → ReceiverKnows c (write_bd ch x)
unfolding settle_consumer ReceiverKnows
receiver-write_bd waiting ch x v room k = k
receiver-write_bd found ch x v room k = k
receiver-write_bd (pointer p) ch x v room k = (k.0, rw (consumer_bd-write_bd v room x k.0) k.1)
receiver-write_bd (read b) ch x v room k = (k.0, rw (consumer_bd-write_bd v room x k.0) k.1)
receiver-write_bd taken ch x v room k = k

pub receiver-count_producer :
    (c : Receiving) (ch : Channel)
    → IsRing (settle_consumer c ch)
    → pending ch < ch.bd_ring_size
    → ReceiverKnows c ch
    → ReceiverKnows c (count_producer ch)
unfolding settle_consumer ReceiverKnows
receiver-count_producer waiting ch v room k = k
receiver-count_producer found ch v room k =
    omega (arith, v.size_word, v.producer_word, v.consumer_word)
receiver-count_producer (pointer p) ch v room k =
    (omega (arith, v.size_word, v.producer_word, v.consumer_word), k.1)
receiver-count_producer (read b) ch v room k =
    (omega (arith, v.size_word, v.producer_word, v.consumer_word), k.1)
receiver-count_producer taken ch v room k = k

pub receiver-move_producer :
    (c : Receiving) (ch : Channel) → ReceiverKnows c ch → ReceiverKnows c (move_producer ch)
unfolding ReceiverKnows
receiver-move_producer waiting ch k = k
receiver-move_producer found ch k = k
receiver-move_producer (pointer p) ch k = k
receiver-move_producer (read b) ch k = k
receiver-move_producer taken ch k = k

pub sender-count_consumer :
    (p : Sending) (ch : Channel)
    → IsRing (settle_producer p ch)
    → 0 < pending ch
    → SenderKnows p ch
    → SenderKnows p (count_consumer ch)
unfolding settle_producer SenderKnows
sender-count_consumer idle ch v pos k = k
sender-count_consumer (checked b) ch v pos k =
    omega (arith, v.size_word, v.producer_word, v.consumer_word)
sender-count_consumer (pointed b) ch v pos k =
    (omega (arith, v.size_word, v.producer_word, v.consumer_word), k.1)
sender-count_consumer (written b) ch v pos k =
    (omega (arith, v.size_word, v.producer_word, v.consumer_word), k.1)
sender-count_consumer counted ch v pos k = k

pub sender-move_consumer :
    (p : Sending) (ch : Channel) → SenderKnows p ch → SenderKnows p (move_consumer ch)
unfolding SenderKnows
sender-move_consumer idle ch k = k
sender-move_consumer (checked b) ch k = k
sender-move_consumer (pointed b) ch k = k
sender-move_consumer (written b) ch k = k
sender-move_consumer counted ch k = k

-- What the tests of the two sides tell, on a channel whose ring is valid once settled.
room_of_words :
    (ch : Channel)
    → ch.bd_ring_size < word_mod
    → ch.producer_num < word_mod
    → ch.consumer_num < word_mod
    → pending ch ≤ ch.bd_ring_size
    → is_full ch ≡ false
    → pending ch < ch.bd_ring_size
unfolding is_full
room_of_words ch s p c n h = ground (arith, free_bds-eq ch p c s)

pub room_of_not_full :
    (c : Receiving) (ch : Channel)
    → IsRing (settle_consumer c ch)
    → is_full ch ≡ false
    → pending ch < ch.bd_ring_size
unfolding settle_consumer
room_of_not_full waiting ch v h =
    room_of_words ch v.size_word v.producer_word v.consumer_word v.count h
room_of_not_full found ch v h =
    room_of_words ch v.size_word v.producer_word v.consumer_word v.count h
room_of_not_full (pointer p) ch v h =
    room_of_words ch v.size_word v.producer_word v.consumer_word v.count h
room_of_not_full (read b) ch v h =
    room_of_words ch v.size_word v.producer_word v.consumer_word v.count h
room_of_not_full taken ch v h =
    room_of_words ch v.size_word v.producer_word v.consumer_word v.count h

some_of_words :
    (ch : Channel)
    → ch.producer_num < word_mod
    → ch.consumer_num < word_mod
    → is_empty ch ≡ false
    → 0 < pending ch
unfolding is_empty
some_of_words ch p c h = ground arith

pub some_of_not_empty :
    (p : Sending) (ch : Channel)
    → IsRing (settle_producer p ch)
    → is_empty ch ≡ false
    → 0 < pending ch
unfolding settle_producer
some_of_not_empty idle ch v h = some_of_words ch v.producer_word v.consumer_word h
some_of_not_empty (checked b) ch v h = some_of_words ch v.producer_word v.consumer_word h
some_of_not_empty (pointed b) ch v h = some_of_words ch v.producer_word v.consumer_word h
some_of_not_empty (written b) ch v h = some_of_words ch v.producer_word v.consumer_word h
some_of_not_empty counted ch v h = some_of_words ch v.producer_word v.consumer_word h
