-- ===== src/Channel/Interleave.antt =====
-- The two sides of a channel may run at the same time.
pub mod Ring
pub mod Settle
pub mod Send
pub mod Receive
pub mod Fifo
mod Tests
use enb_l1_b4860_ppc.Common.{
  ℕ, zero, suc, ◌+◌, ◌-◌, ◌%◌, ◌≤◌, ◌<◌, ◌≡◌, ◌≢◌, refl, ap, sym, ◌∙◌, Bool, true, false, List, [],
  ◌∷◌, ◌++◌, arith, length, length-set, get_or, get_or-set_self, get_or-set_ne, sub32, add32,
  word_mod, mod-add-mod,
}
use enb_l1_b4860_ppc.Common.Window.{window, window_end, window-set_past, wrap_ne}
use enb_l1_b4860_ppc.Channel.{
  Bd, no_bd, Channel, is_full, is_empty, consumer_bd, producer_bd, write_bd, advance_producer,
  advance_consumer,
}
use enb_l1_b4860_ppc.Channel.Ring.{
  IsRing, pending, contents, length-contents, is_full_iff, is_empty_iff, consume-IsRing,
  contents-consume, pending-consume,
}
use enb_l1_b4860_ppc.Channel.Steps.{
  Sending, idle, checked, pointed, written, counted, Receiving, waiting, found, pointer, read,
  taken, Shared, count_producer, count_consumer, move_producer, move_consumer, send_step,
  receive_step, Move, producer, consumer, move, run_moves,
}

-- The channel as it is once the index of a side that has counted is moved.
unfoldable pub settle_producer : Sending → Channel → Channel
settle_producer idle ch = ch
settle_producer (checked b) ch = ch
settle_producer (pointed b) ch = ch
settle_producer (written b) ch = ch
settle_producer counted ch = move_producer ch

unfoldable pub settle_consumer : Receiving → Channel → Channel
settle_consumer waiting ch = ch
settle_consumer found ch = ch
settle_consumer (pointer p) ch = ch
settle_consumer (read b) ch = ch
settle_consumer taken ch = move_consumer ch

abbrev pub settled : Sending → Receiving → Channel → Channel
settled p c ch = settle_producer p (settle_consumer c ch)

-- What a side knows of the channel where it is.
unfoldable pub SenderKnows : Sending → Channel → Type 0
SenderKnows idle ch = Unit
SenderKnows (checked b) ch = pending ch < ch.bd_ring_size
SenderKnows (pointed b) ch = (pending ch < ch.bd_ring_size) × ((producer_bd ch).msg_ptr ≡ b.msg_ptr)
SenderKnows (written b) ch = (pending ch < ch.bd_ring_size) × (producer_bd ch ≡ b)
SenderKnows counted ch = Unit

unfoldable pub ReceiverKnows : Receiving → Channel → Type 0
ReceiverKnows waiting ch = Unit
ReceiverKnows found ch = 0 < pending ch
ReceiverKnows (pointer p) ch = (0 < pending ch) × ((consumer_bd ch).msg_ptr ≡ p)
ReceiverKnows (read b) ch = (0 < pending ch) × (consumer_bd ch ≡ b)
ReceiverKnows taken ch = Unit

pub record IsConsistent (s : Shared) : Type 0 where
  pub ring : IsRing (settled s.sending s.receiving s.channel)
  pub account : s.sent ≡ s.received ++ contents (settled s.sending s.receiving s.channel)
  pub sender : SenderKnows s.sending s.channel
  pub receiver : ReceiverKnows s.receiving s.channel

-- A channel with both sides where they are.
abbrev pub at : Channel → Sending → Receiving → List Bd → List Bd → Shared
at ch p c ss rs = record { channel = ch; sending = p; receiving = c; sent = ss; received = rs }
