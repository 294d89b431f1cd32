-- ===== src/Channel/Interleave/Fifo.antt =====
-- Whatever the interleaving, the receives read what was sent, in order.
use enb_l1_b4860_ppc.Common.{◌≤◌, ◌≡◌, refl, ◌∙◌, List, [], ◌∷◌, ◌++◌, arith, length}
use enb_l1_b4860_ppc.Channel.{Bd, Channel}
use enb_l1_b4860_ppc.Channel.Ring.{IsRing, pending, contents, length-contents}
use enb_l1_b4860_ppc.Channel.Steps.{
  Sending, idle, checked, pointed, written, counted, Receiving, waiting, found, pointer, read,
  taken, Shared, send_step, receive_step, Move, producer, consumer, move, run_moves,
}
use enb_l1_b4860_ppc.Channel.Interleave.{
  at, settle_producer, settle_consumer, settled, SenderKnows, ReceiverKnows, IsConsistent,
}
use enb_l1_b4860_ppc.Channel.Interleave.Settle.{settle_consumer-keeps, settle_producer-keeps}
use enb_l1_b4860_ppc.Channel.Interleave.Send.{send-IsConsistent}
use enb_l1_b4860_ppc.Channel.Interleave.Receive.{receive-IsConsistent}

move-IsConsistent : (m : Move) (s : Shared) → IsConsistent s → IsConsistent (move m s)
unfolding move
move-IsConsistent (producer bd) s v =
    send-IsConsistent s.channel s.receiving s.sent s.received s.sending bd v
move-IsConsistent consumer s v =
    receive-IsConsistent s.channel s.sending s.sent s.received s.receiving v

run_moves-IsConsistent :
    (ms : List Move) (s : Shared) → IsConsistent s → IsConsistent (run_moves ms s)
unfolding run_moves
run_moves-IsConsistent [] s v = v
run_moves-IsConsistent (m ∷ ms) s v = run_moves-IsConsistent ms (move m s) (move-IsConsistent m s v)

-- The size of the ring stays.
settled-size :
    (p : Sending) (c : Receiving) (ch : Channel) → (settled p c ch).bd_ring_size ≡ ch.bd_ring_size
settled-size p c ch =
    (settle_producer-keeps p (settle_consumer c ch)).1 ∙ (settle_consumer-keeps c ch).1

send_step-size :
    (p : Sending) (bd : Bd) (s : Shared)
    → (send_step p bd s).channel.bd_ring_size ≡ s.channel.bd_ring_size
unfolding send_step
send_step-size idle bd s = ground arith
send_step-size (checked b) bd s = refl
send_step-size (pointed b) bd s = refl
send_step-size (written b) bd s = refl
send_step-size counted bd s = refl

receive_step-size :
    (c : Receiving) (s : Shared) → (receive_step c s).channel.bd_ring_size ≡ s.channel.bd_ring_size
unfolding receive_step
receive_step-size waiting s = ground arith
receive_step-size found s = refl
receive_step-size (pointer a) s = refl
receive_step-size (read b) s = refl
receive_step-size taken s = refl

move-size : (m : Move) (s : Shared) → (move m s).channel.bd_ring_size ≡ s.channel.bd_ring_size
unfolding move
move-size (producer bd) s = send_step-size s.sending bd s
move-size consumer s = receive_step-size s.receiving s

run_moves-size :
    (ms : List Move) (s : Shared) → (run_moves ms s).channel.bd_ring_size ≡ s.channel.bd_ring_size
unfolding run_moves
run_moves-size [] s = refl
run_moves-size (m ∷ ms) s = run_moves-size ms (move m s) ∙ move-size m s

-- From a valid ring with nothing in it and both sides idle, whatever the interleaving of the
-- single accesses, what the sends have counted is what the receives have read, in order, followed
-- by at most as many descriptors as the ring holds.
pub run_moves-fifo :
    (ms : List Move) (ch : Channel)
    → IsRing ch
    → pending ch ≡ 0
    → (rest : List Bd) × ((run_moves ms (at ch idle waiting [] [])).sent
        ≡ (run_moves ms (at ch idle waiting [] [])).received ++ rest)
      × (length rest ≤ ch.bd_ring_size)
unfolding settle_producer settle_consumer SenderKnows ReceiverKnows
run_moves-fifo ms ch v none_left =
    let start : IsConsistent (at ch idle waiting [] []) = record {
      ring = v;
      account = rw none_left refl;
      sender = tt;
      receiver = tt;
    } in
    let s = run_moves ms (at ch idle waiting [] []) in
    let end = run_moves-IsConsistent ms (at ch idle waiting [] []) start in
    (
      contents (settled s.sending s.receiving s.channel),
      end.account,
      omega (
        arith,
        length-contents end.ring,
        end.ring.count,
        settled-size s.sending s.receiving s.channel,
        run_moves-size ms (at ch idle waiting [] []),
      ),
    )
