-- ===== src/Channel/Interleave/Receive.antt =====
-- The accesses of the consumer keep the two sides consistent.
use enb_l1_b4860_ppc.Common.{ℕ, ◌<◌, refl, ap, ◌∙◌, List, ◌∷◌, ◌++◌, arith, Bool-cases, inl, inr}
use mathlib.Core.List.{append_assoc}
use enb_l1_b4860_ppc.Channel.{Bd, Channel, is_empty, consumer_bd, advance_consumer}
use enb_l1_b4860_ppc.Channel.Ring.{pending, contents, consume-IsRing, contents-consume}
use enb_l1_b4860_ppc.Channel.Steps.{
  Sending, Receiving, waiting, found, pointer, read, taken, receive_step,
}
use enb_l1_b4860_ppc.Channel.Interleave.{
  at, settle_producer, settle_consumer, ReceiverKnows, IsConsistent,
}
use enb_l1_b4860_ppc.Channel.Interleave.Settle.{
  settled-count_consumer, settle_producer-keeps, sender-count_consumer, sender-move_consumer,
  some_of_not_empty,
}

module _ (ch : Channel) (p : Sending) (ss rs : List Bd) where
  check_receive :
      IsConsistent (at ch p waiting ss rs)
      → IsConsistent (receive_step waiting (at ch p waiting ss rs))
  unfolding receive_step settle_consumer ReceiverKnows
  check_receive v = elim (Bool-cases (is_empty ch)) [
    | inl e ↦ rw e v
    | inr e ↦ rw e (record {
      ring = v.ring;
      account = v.account;
      sender = v.sender;
      receiver = some_of_not_empty p ch v.ring e;
    })
  ]

  pub receive-IsConsistent :
      (c : Receiving)
      → IsConsistent (at ch p c ss rs)
      → IsConsistent (receive_step c (at ch p c ss rs))
  unfolding receive_step settle_consumer ReceiverKnows
  receive-IsConsistent waiting v = check_receive v
  receive-IsConsistent found v = record {
    ring = v.ring;
    account = v.account;
    sender = v.sender;
    receiver = (v.receiver, refl);
  }
  receive-IsConsistent (pointer a) v = record {
    ring = v.ring;
    account = v.account;
    sender = v.sender;
    receiver = (v.receiver.0, ap (λ (t : ℕ). record (consumer_bd ch) { msg_ptr = t }) v.receiver.1);
  }
  receive-IsConsistent (read b) v =
      let (n, size, same) = settle_producer-keeps p ch in
      let pos : 0 < pending (settle_producer p ch) = omega (arith, n, v.receiver.0) in
      record {
        ring = rw (settled-count_consumer p ch) (consume-IsRing v.ring pos);
        account =
            rw (settled-count_consumer p ch, append_assoc)
              (v.account
                ∙ ap (λ (t : List Bd). rs ++ t) (contents-consume v.ring pos)
                ∙ ap (λ (t : Bd). rs ++ (t ∷ contents (advance_consumer (settle_producer p ch))))
                    (same ∙ v.receiver.1));
        sender = sender-count_consumer p ch v.ring v.receiver.0 v.sender;
        receiver = tt;
      }
  receive-IsConsistent taken v = record {
    ring = v.ring;
    account = v.account;
    sender = sender-move_consumer p ch v.sender;
    receiver = tt;
  }
