-- ===== src/Channel/Interleave/Send.antt =====
-- The accesses of the producer keep the two sides consistent.
use enb_l1_b4860_ppc.Common.{
  ℕ, ◌<◌, ◌≡◌, ap, sym, ◌∙◌, List, [], ◌∷◌, ◌++◌, arith, Bool-cases, inl, inr,
}
use mathlib.Core.List.{append_assoc}
use enb_l1_b4860_ppc.Channel.{Bd, Channel, is_full, producer_bd, write_bd}
use enb_l1_b4860_ppc.Channel.Ring.{IsRing, pending, contents}
use enb_l1_b4860_ppc.Channel.Steps.{
  Sending, idle, checked, pointed, written, counted, Receiving, count_producer, send_step,
}
use enb_l1_b4860_ppc.Channel.Interleave.{
  at, settle_producer, settle_consumer, settled, SenderKnows, IsConsistent,
}
use enb_l1_b4860_ppc.Channel.Interleave.Ring.{
  producer_bd-write_bd, write_bd-IsRing, contents-write_bd, advance_producer-IsRing,
  contents-advance_producer,
}
use enb_l1_b4860_ppc.Channel.Interleave.Settle.{
  settle_consumer-write_bd, settled-count_producer, settle_consumer-move_producer,
  settle_consumer-keeps, receiver-write_bd, receiver-count_producer, receiver-move_producer,
  room_of_not_full,
}

module _ (ch : Channel) (c : Receiving) (ss rs : List Bd) where
  check_send :
      (bd : Bd)
      → IsConsistent (at ch idle c ss rs)
      → IsConsistent (send_step idle bd (at ch idle c ss rs))
  unfolding send_step settle_producer SenderKnows
  check_send bd v = elim (Bool-cases (is_full ch)) [
    | inl e ↦ rw e v
    | inr e ↦ rw e (record {
      ring = v.ring;
      account = v.account;
      sender = room_of_not_full c ch v.ring e;
      receiver = v.receiver;
    })
  ]

  -- A write to the slot that the producer has checked.
  write_slot :
      (x : Bd)
      → IsRing (settle_consumer c ch)
      → pending ch < ch.bd_ring_size
      → ss ≡ rs ++ contents (settle_consumer c ch)
      → IsRing (settle_consumer c (write_bd ch x))
        × (ss ≡ rs ++ contents (settle_consumer c (write_bd ch x)))
        × (producer_bd (write_bd ch x) ≡ x)
  write_slot x v room acc =
      let e = settle_consumer-write_bd c ch x in
      let (n, size, same) = settle_consumer-keeps c ch in
      let kept = contents-write_bd v (omega (arith, n, size, room)) x in
      (
        rw e (write_bd-IsRing v x),
        rw (e, kept) acc,
        sym (settle_consumer-keeps c (write_bd ch x)).2
            ∙ ap producer_bd e
            ∙ producer_bd-write_bd v x,
      )

  counted_account :
      (b : Bd)
      → IsRing (settle_consumer c ch)
      → pending (settle_consumer c ch) < (settle_consumer c ch).bd_ring_size
      → ss ≡ rs ++ contents (settle_consumer c ch)
      → producer_bd (settle_consumer c ch) ≡ producer_bd ch
      → producer_bd ch ≡ b
      → ss ++ (b ∷ []) ≡ rs ++ contents (settled counted c (count_producer ch))
  counted_account b v room acc same own =
      rw (settled-count_producer c ch, contents-advance_producer v room, same, own)
        (ap (λ (t : List Bd). t ++ (b ∷ [])) acc
          ∙ append_assoc rs (contents (settle_consumer c ch)) (b ∷ []))

  pub send-IsConsistent :
      (p : Sending) (bd : Bd)
      → IsConsistent (at ch p c ss rs)
      → IsConsistent (send_step p bd (at ch p c ss rs))
  unfolding send_step settle_producer SenderKnows
  send-IsConsistent idle bd v = check_send bd v
  send-IsConsistent (checked b) bd v =
      let x = record (producer_bd ch) { msg_ptr = b.msg_ptr } in
      let (ring, acc, own) = write_slot x v.ring v.sender v.account in
      record {
        ring = ring;
        account = acc;
        sender = (v.sender, ap (λ (t : Bd). t.msg_ptr) own);
        receiver = receiver-write_bd c ch x v.ring v.sender v.receiver;
      }
  send-IsConsistent (pointed b) bd v =
      let x = record (producer_bd ch) { msg_len = b.msg_len } in
      let (ring, acc, own) = write_slot x v.ring v.sender.0 v.account in
      record {
        ring = ring;
        account = acc;
        sender = (v.sender.0, own ∙ ap (λ (t : ℕ). record b { msg_ptr = t }) v.sender.1);
        receiver = receiver-write_bd c ch x v.ring v.sender.0 v.receiver;
      }
  send-IsConsistent (written b) bd v =
      let (n, size, same) = settle_consumer-keeps c ch in
      let room : pending (settle_consumer c ch) < (settle_consumer c ch).bd_ring_size =
        omega (arith, n, size, v.sender.0) in
      record {
        ring = rw (settled-count_producer c ch) (advance_producer-IsRing v.ring room);
        account = counted_account b v.ring room v.account same v.sender.1;
        sender = tt;
        receiver = receiver-count_producer c ch v.ring v.sender.0 v.receiver;
      }
  send-IsConsistent counted bd v =
      let e = settle_consumer-move_producer c ch in
      record {
        ring = rw e v.ring;
        account = rw e v.account;
        sender = tt;
        receiver = receiver-move_producer c ch v.receiver;
      }
