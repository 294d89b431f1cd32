-- ===== src/Ipc/Ptr.antt =====
-- The pointer transfers on one channel are the operations of a bounded FIFO of descriptors.
use enb_l1_b4860_ppc.Common.{
  ℕ, ◌<◌, ◌≡◌, refl, ap, sym, subst, ◌∙◌, Bool, true, Option, none, some, List, [], ◌∷◌, ◌++◌,
  arith, length, ◌==◌, if◌then◌else◌,
}
use enb_l1_b4860_ppc.Channel.{
  Bd, Channel, initialized, consumer_bd, advance_producer, advance_consumer,
}
use enb_l1_b4860_ppc.Channel.Ring.{
  IsRing, pending, contents, produce, length-contents, is_full_iff, is_empty_iff, produce-IsRing,
  consume-IsRing, contents-produce, contents-consume,
}
use enb_l1_b4860_ppc.Ipc.{
  Code, success, channel_full, channel_empty, Ipc, channel_at, put_channel, send_bd, consume,
  send_ptr, recv_ptr, recv_ptr_hold, set_consumed_status,
}
use enb_l1_b4860_ppc.Ipc.Access.{
  channel_at-put_self, length-put, channel_at-indication, indication-frame, put-frame,
}

-- The calls on one channel: the producer's and the consumer's, in any order.
pub data Transfer : Type 0 where
  send : ℕ → ℕ → Transfer
  recv hold consumed : Transfer

-- A call returns its code, and the descriptor that a receive stores through its pointers.
abbrev pub Answer : Type 0
Answer = Code × Option Bd

-- The specification: the descriptors that wait, oldest first, in a ring of `size`.
unfoldable pub fifo_step : ℕ → List Bd → Transfer → Answer × List Bd
fifo_step size s (send addr len) =
    if length s == size
    then ((channel_full, none), s)
    else ((success, none), s ++ (record { msg_ptr = addr; msg_len = len } ∷ []))
fifo_step size [] recv = ((channel_empty, none), [])
fifo_step size (bd ∷ s) recv = ((success, some bd), s)
fifo_step size [] hold = ((channel_empty, none), [])
fifo_step size (bd ∷ s) hold = ((success, some bd), bd ∷ s)
fifo_step size [] consumed = ((success, none), [])
fifo_step size (bd ∷ s) consumed = ((success, none), s)

unfoldable pub fifo_run : ℕ → List Bd → List Transfer → List Answer × List Bd
fifo_run size s [] = ([], s)
fifo_run size s (t ∷ ts) =
    let (a, s') = fifo_step size s t in let (as', s'') = fifo_run size s' ts in (a ∷ as', s'')

-- Channel `id` is in the array, opened on both sides, and its ring is valid.
pub record IsLinked (id : ℕ) (ipc : Ipc) : Type 0 where
  pub in_array : id < length ipc.channels
  pub in_range : id < ipc.max_channels
  pub producer_open : (channel_at ipc id).producer_initialized ≡ initialized
  pub consumer_open : (channel_at ipc id).consumer_initialized ≡ initialized
  pub ring : IsRing (channel_at ipc id)

-- The descriptors that wait on the channel.
abbrev pub waiting : ℕ → Ipc → List Bd
waiting id ipc = contents (channel_at ipc id)

module _ (id : ℕ) where
  pub send_bd-channel :
      (bd : Bd) (ipc : Ipc)
      → id < length ipc.channels
      → channel_at (send_bd id bd ipc) id ≡ produce (channel_at ipc id) bd
  send_bd-channel bd ipc h =
      let ch = produce (channel_at ipc id) bd in
      channel_at-indication ch (put_channel ipc id ch) id ∙ channel_at-put_self ipc id ch h

  pub consume-channel :
      (ipc : Ipc)
      → id < length ipc.channels
      → channel_at (consume id ipc) id ≡ advance_consumer (channel_at ipc id)
  consume-channel ipc h = channel_at-put_self ipc id (advance_consumer (channel_at ipc id)) h

  -- A channel keeps what `IsLinked` asks of it but the ring.
  relink :
      {ipc ipc' : Ipc} {ch : Channel}
      → IsLinked id ipc
      → length ipc'.channels ≡ length ipc.channels
      → ipc'.max_channels ≡ ipc.max_channels
      → channel_at ipc' id ≡ ch
      → ch.producer_initialized ≡ initialized
      → ch.consumer_initialized ≡ initialized
      → IsRing ch
      → IsLinked id ipc'
  relink l size most e p c r = record {
    in_array = omega (arith, l.in_array);
    in_range = omega (arith, l.in_range);
    producer_open = rw e p;
    consumer_open = rw e c;
    ring = rw e r;
  }

  pub send_bd-IsLinked :
      (bd : Bd) {ipc : Ipc}
      → IsLinked id ipc
      → pending (channel_at ipc id) < (channel_at ipc id).bd_ring_size
      → IsLinked id (send_bd id bd ipc)
  unfolding advance_producer
  send_bd-IsLinked bd {ipc} l room =
      let ch = produce (channel_at ipc id) bd in
      let (same, most, _) = indication-frame ch (put_channel ipc id ch) in
      relink l (ap length same ∙ length-put ipc id ch) (most ∙ (put-frame ipc id ch).0)
        (send_bd-channel bd ipc l.in_array) l.producer_open l.consumer_open
        (produce-IsRing l.ring bd room)

  pub consume-IsLinked :
      {ipc : Ipc} → IsLinked id ipc → 0 < pending (channel_at ipc id) → IsLinked id (consume id ipc)
  unfolding advance_consumer
  consume-IsLinked {ipc} l pos =
      let ch = advance_consumer (channel_at ipc id) in
      relink l (length-put ipc id ch) (put-frame ipc id ch).0 (consume-channel ipc l.in_array)
        l.producer_open l.consumer_open (consume-IsRing l.ring pos)

  pub waiting-send_bd :
      (bd : Bd) {ipc : Ipc}
      → IsLinked id ipc
      → pending (channel_at ipc id) < (channel_at ipc id).bd_ring_size
      → waiting id (send_bd id bd ipc) ≡ waiting id ipc ++ (bd ∷ [])
  waiting-send_bd bd {ipc} l room =
      ap contents (send_bd-channel bd ipc l.in_array) ∙ contents-produce l.ring bd room

  pub waiting-consume :
      {ipc : Ipc}
      → IsLinked id ipc
      → 0 < pending (channel_at ipc id)
      → waiting id ipc ≡ consumer_bd (channel_at ipc id) ∷ waiting id (consume id ipc)
  waiting-consume {ipc} l pos =
      contents-consume l.ring pos
      ∙ ap (λ ch. consumer_bd (channel_at ipc id) ∷ contents ch)
          (sym (consume-channel ipc l.in_array))

-- The calls, on a channel whose semaphore can be had.
module _ (lock : ℕ → Bool) (p2v : ℕ → ℕ) (id : ℕ) where
  unfoldable pub step : Ipc → Transfer → Answer × Ipc
  step ipc (send addr len) =
      let (code, ipc') = send_ptr lock p2v id addr len ipc in ((code, none), ipc')
  step ipc recv = let (code, bd, ipc') = recv_ptr lock p2v id ipc in ((code, bd), ipc')
  step ipc hold = (recv_ptr_hold lock p2v id ipc, ipc)
  step ipc consumed = let (code, ipc') = set_consumed_status lock p2v id ipc in ((code, none), ipc')

  unfoldable pub run : Ipc → List Transfer → List Answer × Ipc
  run ipc [] = ([], ipc)
  run ipc (t ∷ ts) =
      let (a, ipc') = step ipc t in let (as', ipc'') = run ipc' ts in (a ∷ as', ipc'')

  module _ (free : lock id ≡ true) where
    step_refines :
        {ipc : Ipc} (t : Transfer)
        → IsLinked id ipc
        → (let (a, ipc') = step ipc t in (a, waiting id ipc'))
          ≡ fifo_step (channel_at ipc id).bd_ring_size (waiting id ipc) t
    unfolding step fifo_step send_ptr recv_ptr recv_ptr_hold set_consumed_status
    step_refines {ipc} (send addr len) l = ground (
      arith,
      l,
      is_full_iff l.ring,
      length-contents l.ring,
      l.ring,
      waiting-send_bd id (record { msg_ptr = addr; msg_len = len }) l,
    )
    step_refines {ipc} recv l =
        ground (arith, l, is_empty_iff l.ring, length-contents l.ring, waiting-consume id l)
    step_refines {ipc} hold l =
        ground (arith, l, is_empty_iff l.ring, length-contents l.ring, waiting-consume id l)
    step_refines {ipc} consumed l =
        ground (arith, l, is_empty_iff l.ring, length-contents l.ring, waiting-consume id l)

    size-send_bd :
        (bd : Bd) {ipc : Ipc}
        → IsLinked id ipc
        → (channel_at (send_bd id bd ipc) id).bd_ring_size ≡ (channel_at ipc id).bd_ring_size
    unfolding advance_producer
    size-send_bd bd l = ap (λ ch. ch.bd_ring_size) (send_bd-channel id bd _ l.in_array)

    size-consume :
        {ipc : Ipc}
        → IsLinked id ipc
        → (channel_at (consume id ipc) id).bd_ring_size ≡ (channel_at ipc id).bd_ring_size
    unfolding advance_consumer
    size-consume {ipc} l = ap (λ ch. ch.bd_ring_size) (consume-channel id ipc l.in_array)

    step-IsLinked :
        {ipc : Ipc} (t : Transfer)
        → IsLinked id ipc
        → IsLinked id (step ipc t).1
          × ((channel_at (step ipc t).1 id).bd_ring_size ≡ (channel_at ipc id).bd_ring_size)
    unfolding step send_ptr recv_ptr recv_ptr_hold set_consumed_status
    step-IsLinked {ipc} (send addr len) l =
        let bd : Bd = record { msg_ptr = addr; msg_len = len } in
        ground (arith, l, is_full_iff l.ring, l.ring, send_bd-IsLinked id bd l, size-send_bd bd l)
    step-IsLinked {ipc} recv l =
        ground (arith, l, is_empty_iff l.ring, l.ring, consume-IsLinked id l, size-consume l)
    step-IsLinked {ipc} hold l = (l, refl)
    step-IsLinked {ipc} consumed l =
        ground (arith, l, is_empty_iff l.ring, l.ring, consume-IsLinked id l, size-consume l)

    -- On a channel that both sides have opened, with a valid ring and a free semaphore, no order of
    -- sends, receives, held receives and acknowledgements tells the ring from the bounded FIFO of
    -- the descriptors that wait: every code, every descriptor and what is left are the
    -- specification's, also when the 32-bit counters wrap.
    pub transfers_refine :
        (ts : List Transfer) {ipc : Ipc}
        → IsLinked id ipc
        → (let (as', ipc') = run ipc ts in (as', waiting id ipc'))
          ≡ fifo_run (channel_at ipc id).bd_ring_size (waiting id ipc) ts
    unfolding run fifo_run
    transfers_refine [] l = refl
    transfers_refine (t ∷ ts) {ipc} l =
        let (l', size) = step-IsLinked t l in
        let ipc' = (step ipc t).1 in
        let ih =
          subst
            (λ n.
              (let (as', ipc'') = run ipc' ts in (as', waiting id ipc''))
              ≡ fifo_run n (waiting id ipc') ts)
            size (transfers_refine ts l') in
        rw (← step_refines t l) (ap (λ (p : List Answer × List Bd). ((step ipc t).0 ∷ p.0, p.1)) ih)
