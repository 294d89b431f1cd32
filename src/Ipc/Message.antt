-- ===== src/Ipc/Message.antt =====
-- Messages that are copied through the buffers of a message channel.
use enb_l1_b4860_ppc.Common.{
  ℕ, ◌+◌, ◌-◌, ◌≤◌, ◌<◌, ◌≡◌, ◌≢◌, refl, sym, ap, ◌∙◌, ◌⊎◌, Bool, true, some, arith, length,
}
use enb_l1_b4860_ppc.Channel.{Bd, initialized, producer_bd, consumer_bd, advance_consumer}
use enb_l1_b4860_ppc.Channel.Ring.{
  IsRing, pending, produce, is_full_iff, is_empty_iff, produce-IsRing, pending-produce,
  pending-consume, contents-produce, contents-consume,
}
use enb_l1_b4860_ppc.Ipc.{
  success, Ipc, channel_at, put_channel, copy, open_prod_ch, send_msg, send_msg_opened, recv_msg,
  send_bd, consume,
}
use enb_l1_b4860_ppc.Ipc.Access.{
  channel_at-put_self, channel_at-indication, indication-frame, put-frame, length-put,
}
use enb_l1_b4860_ppc.Ipc.Ptr.{IsLinked, consume-channel}

-- memcpy moves the `n` bytes, and touches no other.
pub copy_inside : (m : ℕ → ℕ) (dst src n i : ℕ) → i < n → copy m dst src n (dst + i) ≡ m (src + i)
unfolding copy
copy_inside m dst src n i h = let same : dst + i - dst ≡ i = omega arith in rw same (ground arith)

pub copy_outside :
    (m : ℕ → ℕ) (dst src n a : ℕ) → (a < dst) ⊎ (dst + n ≤ a) → copy m dst src n a ≡ m a
unfolding copy
copy_outside m dst src n a h = ground arith

-- What `fsl_ipc_send_msg` needs beside a linked channel: a mapped buffer, and a length that fits.
pub record IsSendable (lock : ℕ → Bool) (p2v : ℕ → ℕ) (id len : ℕ) (ipc : Ipc) : Type 0 where
  pub linked : IsLinked id ipc
  pub free : lock id ≡ true
  pub room : pending (channel_at ipc id) < (channel_at ipc id).bd_ring_size
  pub mapped : p2v (producer_bd (channel_at ipc id)).msg_ptr ≢ 0
  pub fits : len ≤ (channel_at ipc id).max_msg_size

-- The descriptor that a send of `len` bytes leaves, and the state after it.
abbrev pub sent_bd : ℕ → ℕ → Ipc → Bd
sent_bd id len ipc = record { msg_ptr = (producer_bd (channel_at ipc id)).msg_ptr; msg_len = len }

abbrev pub after_send : (ℕ → ℕ) → ℕ → ℕ → ℕ → Ipc → Ipc
after_send p2v id src len ipc = send_bd id (sent_bd id len ipc) (record (open_prod_ch id ipc) {
  memory = copy ipc.memory (p2v (sent_bd id len ipc).msg_ptr) src len;
})

module _ (lock : ℕ → Bool) (p2v : ℕ → ℕ) (id src len : ℕ) (ipc : Ipc) where
  opened-channel : IsLinked id ipc → channel_at (open_prod_ch id ipc) id ≡ channel_at ipc id
  unfolding open_prod_ch
  opened-channel l =
      channel_at-put_self ipc id (record (channel_at ipc id) { producer_initialized = initialized })
        l.in_array
      ∙ (λ i. record (channel_at ipc id) { producer_initialized = sym l.producer_open i })

  opened-memory : (open_prod_ch id ipc).memory ≡ ipc.memory
  unfolding open_prod_ch put_channel
  opened-memory = refl

  pub send_msg-eq :
      IsSendable lock p2v id len ipc
      → send_msg lock p2v id src len ipc ≡ (success, after_send p2v id src len ipc)
  unfolding send_msg send_msg_opened
  send_msg-eq s =
      let v = s.linked.ring in
      ground (arith, s, s.linked, v, is_full_iff v, opened-channel s.linked, opened-memory)

  opened_length : length (open_prod_ch id ipc).channels ≡ length ipc.channels
  unfolding open_prod_ch
  opened_length =
      length-put ipc id (record (channel_at ipc id) { producer_initialized = initialized })

  memory-channel : (m : ℕ → ℕ) (o : Ipc) → channel_at (record o { memory = m }) id ≡ channel_at o id
  unfolding channel_at
  memory-channel m o = refl

  pub after_send-channel :
      IsLinked id ipc
      → channel_at (after_send p2v id src len ipc) id
        ≡ produce (channel_at ipc id) (sent_bd id len ipc)
  after_send-channel l =
      let m = copy ipc.memory (p2v (sent_bd id len ipc).msg_ptr) src len in
      let o : Ipc = record (open_prod_ch id ipc) { memory = m } in
      let ch = produce (channel_at o id) (sent_bd id len ipc) in
      channel_at-indication ch (put_channel o id ch) id
      ∙ channel_at-put_self o id ch (omega (arith, opened_length, l.in_array))
      ∙ ap (λ c. produce c (sent_bd id len ipc))
          (memory-channel m (open_prod_ch id ipc) ∙ opened-channel l)

  pub after_send-memory :
      (after_send p2v id src len ipc).memory
      ≡ copy ipc.memory (p2v (sent_bd id len ipc).msg_ptr) src len
  after_send-memory =
      let m = copy ipc.memory (p2v (sent_bd id len ipc).msg_ptr) src len in
      let o : Ipc = record (open_prod_ch id ipc) { memory = m } in
      let ch = produce (channel_at o id) (sent_bd id len ipc) in
      (indication-frame ch (put_channel o id ch)).2 ∙ (put-frame o id ch).1

  -- With nothing before it in the ring, the descriptor that was sent is the next one.
  next_bd :
      IsSendable lock p2v id len ipc
      → pending (channel_at ipc id) ≡ 0
      → (consumer_bd (channel_at (after_send p2v id src len ipc) id) ≡ sent_bd id len ipc)
        × IsRing (channel_at (after_send p2v id src len ipc) id)
        × (pending (channel_at (after_send p2v id src len ipc) id) ≡ 1)
  next_bd s none_left =
      let ch = channel_at ipc id in
      let bd = sent_bd id len ipc in
      let v = s.linked.ring in
      let one : pending (produce ch bd) ≡ 1 = omega (arith, pending-produce v bd s.room) in
      let v' = produce-IsRing v bd s.room in
      let held = contents-consume v' (omega (arith, one)) in
      let all = contents-produce v bd s.room in
      rw (after_send-channel s.linked) (ground (arith, none_left, held, all), v', one)

  after_send-length : length (after_send p2v id src len ipc).channels ≡ length ipc.channels
  after_send-length =
      let m = copy ipc.memory (p2v (sent_bd id len ipc).msg_ptr) src len in
      let o : Ipc = record (open_prod_ch id ipc) { memory = m } in
      let ch = produce (channel_at o id) (sent_bd id len ipc) in
      ap length (indication-frame ch (put_channel o id ch)).0 ∙ length-put o id ch ∙ opened_length

  recv_one :
      (addr : ℕ) (o : Ipc) (bd : Bd)
      → lock id ≡ true
      → IsRing (channel_at o id)
      → consumer_bd (channel_at o id) ≡ bd
      → 0 < pending (channel_at o id)
      → recv_msg lock p2v id addr o ≡ (
        success,
        some bd.msg_len,
        consume id (record o { memory = copy o.memory addr (p2v bd.msg_ptr) bd.msg_len }),
      )
  unfolding recv_msg
  recv_one addr o bd free v next pos = ground (arith, is_empty_iff v)

  -- A message that fits, sent with `fsl_ipc_send_msg` on an open channel with nothing in its ring,
  -- is received by `fsl_ipc_recv_msg` with its length and with each of its bytes, and leaves
  -- nothing in the ring; the semaphore is free and the buffer is mapped.
  pub send_msg-recv_msg :
      (addr i : ℕ)
      → IsSendable lock p2v id len ipc
      → pending (channel_at ipc id) ≡ 0
      → i < len
      → (ipc' ipc'' : Ipc) × (send_msg lock p2v id src len ipc ≡ (success, ipc'))
        × (recv_msg lock p2v id addr ipc' ≡ (success, some len, ipc''))
        × (pending (channel_at ipc'' id) ≡ 0)
        × (ipc''.memory (addr + i) ≡ ipc.memory (src + i))
  unfolding channel_at
  send_msg-recv_msg addr i s none_left h =
      let ipc' = after_send p2v id src len ipc in
      let bd = sent_bd id len ipc in
      let m = copy ipc'.memory addr (p2v bd.msg_ptr) len in
      let o : Ipc = record ipc' { memory = m } in
      let (next, v, one) = next_bd s none_left in
      let pos : 0 < pending (channel_at ipc' id) = omega (arith, one) in
      let size : id < length ipc'.channels = omega (arith, after_send-length, s.linked.in_array) in
      let left = ap pending (consume-channel id o size) ∙ pending-consume v pos in
      (
        ipc',
        consume id o,
        send_msg-eq s,
        recv_one addr ipc' bd s.free v next pos,
        omega (arith, left, one),
        ap (λ (f : ℕ → ℕ). f (addr + i)) (put-frame o id (advance_consumer (channel_at o id))).1
            ∙ copy_inside ipc'.memory addr (p2v bd.msg_ptr) len i h
            ∙ ap (λ (f : ℕ → ℕ). f (p2v bd.msg_ptr + i)) after_send-memory
            ∙ copy_inside ipc.memory (p2v bd.msg_ptr) src len i h,
      )
