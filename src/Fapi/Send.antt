-- ===== src/Fapi/Send.antt =====
-- Sending a message of the FAPI to the DSP.
use enb_l1_b4860_ppc.Common.{
  ℕ, ◌+◌, ◌≤◌, subst, ◌<◌, ◌≡◌, ◌≢◌, sym, ap, ◌∙◌, Bool, [], ◌∷◌, ◌++◌, arith, word_mod,
}
use enb_l1_b4860_ppc.Channel.{Bd}
use enb_l1_b4860_ppc.Channel.Ring.{contents, contents-produce}
use enb_l1_b4860_ppc.Ipc.{Ipc, success, channel_at, copy}
use enb_l1_b4860_ppc.Ipc.Message.{
  IsSendable, sent_bd, after_send, send_msg-eq, after_send-channel, after_send-memory,
}
use enb_l1_b4860_ppc.Ipc.Ptr.{IsLinked, waiting}
use enb_l1_b4860_ppc.Ipc.TxRequest.{store32, load32}
use enb_l1_b4860_ppc.Ipc.TxRequest.Laws.{load32-store32}
use enb_l1_b4860_ppc.Shm.{Shm}
use enb_l1_b4860_ppc.Usmmgr.{Usmmgr}
use enb_l1_b4860_ppc.Fapi.{
  Fapi, with_memory, to_send, local_msg, ipc_p2v, ipc_send_msg, ipc_pa2sc_ch_id, ipc_msg_size,
  length_at, body_addr_at, phys_addr_at,
}
use enb_l1_b4860_ppc.Fapi.Memory.{
  Apart, HasBytes, Agree, load32_word, load32-store32_ne, load32-copy, store32-Agree, Agree-trans,
  copy-Agree,
}

-- The transfers of a channel do not look at the memory.
IsLinked-memory :
    {id : ℕ} {ipc : Ipc} (m : ℕ → ℕ) → IsLinked id ipc → IsLinked id (record ipc { memory = m })
unfolding channel_at
IsLinked-memory m l = record {
  in_array = l.in_array;
  in_range = l.in_range;
  producer_open = l.producer_open;
  consumer_open = l.consumer_open;
  ring = l.ring;
}

pub IsSendable-memory :
    {lock : ℕ → Bool} {p2v : ℕ → ℕ} {id len : ℕ} {ipc : Ipc} (m : ℕ → ℕ)
    → IsSendable lock p2v id len ipc
    → IsSendable lock p2v id len (record ipc { memory = m })
unfolding channel_at
IsSendable-memory m s = record {
  linked = IsLinked-memory m s.linked;
  free = s.free;
  room = s.room;
  mapped = s.mapped;
  fits = s.fits;
}

-- The three words of the local message.
local_words :
    (local id body len : ℕ) (m : ℕ → ℕ)
    → id < word_mod
    → body < word_mod
    → len < word_mod
    → (load32 local (local_msg local id body len m) ≡ id)
      × (load32 (local + length_at) (local_msg local id body len m) ≡ len)
      × (load32 (local + body_addr_at) (local_msg local id body len m) ≡ body)
local_words local id body len m hi hb hl =
    let one = store32 local id m in
    let two = store32 (local + body_addr_at) body one in
    (
      load32-store32_ne local (local + length_at) len two (omega arith)
          ∙ load32-store32_ne local (local + body_addr_at) body one (omega arith)
          ∙ load32-store32 local id m hi,
      load32-store32 (local + length_at) len two hl,
      load32-store32_ne (local + body_addr_at) (local + length_at) len two (omega arith)
          ∙ load32-store32 (local + body_addr_at) body one hb,
    )

-- What the local message holds when it is sent.
to_send-words :
    (local msg : ℕ) (m : ℕ → ℕ)
    → HasBytes m
    → (load32 local (to_send local msg m) ≡ load32 msg m)
      × (load32 (local + length_at) (to_send local msg m) ≡ load32 (msg + length_at) m)
      × (load32 (local + body_addr_at) (to_send local msg m) ≡ load32 (msg + phys_addr_at) m)
to_send-words local msg m b =
    let phys = load32 (msg + phys_addr_at) m in
    let filled = store32 (msg + body_addr_at) (phys + ipc_msg_size) m in
    let id : load32 msg filled ≡ load32 msg m =
      load32-store32_ne msg (msg + body_addr_at) (phys + ipc_msg_size) m (omega arith) in
    let len : load32 (msg + length_at) filled ≡ load32 (msg + length_at) m =
      load32-store32_ne (msg + length_at) (msg + body_addr_at) (phys + ipc_msg_size) m
        (omega arith) in
    let (x, y, z) =
      local_words local (load32 msg filled) phys (load32 (msg + length_at) filled) filled
        (omega (arith, id, load32_word m msg b)) (load32_word m (msg + phys_addr_at) b)
        (omega (arith, len, load32_word m (msg + length_at) b)) in
    (x ∙ id, y ∙ len, z)

-- It writes `body_addr`, and the local message.
to_send-Agree :
    (local msg : ℕ) (m : ℕ → ℕ) (a n : ℕ)
    → Apart a n local 12
    → Apart a n (msg + body_addr_at) 4
    → Agree a n m (to_send local msg m)
to_send-Agree local msg m a n h k =
    let phys = load32 (msg + phys_addr_at) m in
    let filled = store32 (msg + body_addr_at) (phys + ipc_msg_size) m in
    let one = store32 local (load32 msg filled) filled in
    let two = store32 (local + body_addr_at) phys one in
    Agree-trans (store32-Agree m (msg + body_addr_at) (phys + ipc_msg_size) a n k) (
      Agree-trans (store32-Agree filled local (load32 msg filled) a n (ground arith)) (
        Agree-trans (store32-Agree one (local + body_addr_at) phys a n (ground arith)) (
          store32-Agree two (local + length_at) (load32 (msg + length_at) filled) a n
            (ground arith))))

-- The descriptor that a message of the FAPI takes in the ring towards the DSP.
abbrev pub fapi_bd : Fapi → Bd
fapi_bd f = sent_bd ipc_pa2sc_ch_id ipc_msg_size f.ipc

-- What the DSP finds at an address: the identifier of the channel of the FAPI, the length of the
-- message and its physical address.
abbrev pub Found : ℕ → ℕ → ℕ → ℕ → (ℕ → ℕ) → Type 0
Found at id len phys m = (load32 at m ≡ id) × (load32 (at + 4) m ≡ len) × (load32 (at + 8) m ≡ phys)

-- The address at which the DSP finds the message.
abbrev pub found_at : Shm → Usmmgr → Fapi → ℕ
found_at shm usmmgr f = ipc_p2v shm usmmgr (fapi_bd f).msg_ptr

-- A message of the FAPI can be sent.
abbrev pub CanSend : Shm → Usmmgr → (ℕ → Bool) → Fapi → Type 0
CanSend shm usmmgr lock f = IsSendable lock (ipc_p2v shm usmmgr) ipc_pa2sc_ch_id ipc_msg_size f.ipc

module _ (shm : Shm) (usmmgr : Usmmgr) (lock : ℕ → Bool) (local : ℕ) where
  -- The state after a successful send.
  abbrev pub sent_state : ℕ → Fapi → Fapi
  sent_state msg f = record f {
    ipc =
        after_send (ipc_p2v shm usmmgr) ipc_pa2sc_ch_id local ipc_msg_size
          (with_memory (to_send local msg f.ipc.memory) f).ipc;
  }

  pub ipc_send_msg-eq :
      (msg : ℕ) (f : Fapi)
      → CanSend shm usmmgr lock f
      → load32 (msg + length_at) f.ipc.memory ≢ 0
      → ipc_send_msg shm usmmgr lock local msg f ≡ (success, sent_state msg f)
  unfolding ipc_send_msg
  ipc_send_msg-eq msg f s h =
      let m = to_send local msg f.ipc.memory in
      let e =
        send_msg-eq lock (ipc_p2v shm usmmgr) ipc_pa2sc_ch_id local ipc_msg_size
          (with_memory m f).ipc (IsSendable-memory m s) in
      ground (arith, e)

  pub sent_state-memory :
      (msg : ℕ) (f : Fapi)
      → (sent_state msg f).ipc.memory
        ≡ copy (to_send local msg f.ipc.memory) (found_at shm usmmgr f) local ipc_msg_size
  unfolding channel_at
  sent_state-memory msg f =
      after_send-memory lock (ipc_p2v shm usmmgr) ipc_pa2sc_ch_id local ipc_msg_size
        (with_memory (to_send local msg f.ipc.memory) f).ipc

  pub sent_state-waiting :
      (msg : ℕ) (f : Fapi)
      → CanSend shm usmmgr lock f
      → waiting ipc_pa2sc_ch_id (sent_state msg f).ipc
        ≡ waiting ipc_pa2sc_ch_id f.ipc ++ (fapi_bd f ∷ [])
  unfolding channel_at
  sent_state-waiting msg f s =
      let m = to_send local msg f.ipc.memory in
      ap contents (
        after_send-channel lock (ipc_p2v shm usmmgr) ipc_pa2sc_ch_id local ipc_msg_size
          (with_memory m f).ipc (IsLinked-memory m s.linked))
      ∙ contents-produce s.linked.ring (fapi_bd f) s.room

  pub sent_state-Found :
      (msg : ℕ) (f : Fapi)
      → HasBytes f.ipc.memory
      → Found
          (found_at shm usmmgr f)
          (load32 msg f.ipc.memory)
          (load32 (msg + length_at) f.ipc.memory)
          (load32 (msg + phys_addr_at) f.ipc.memory)
          (sent_state msg f).ipc.memory
  sent_state-Found msg f b =
      let m = to_send local msg f.ipc.memory in
      let (x, y, z) = to_send-words local msg f.ipc.memory b in
      let c = copy m (found_at shm usmmgr f) local ipc_msg_size in
      let e : (k : ℕ) → k + 4 ≤ 16 → load32 (found_at shm usmmgr f + k) c ≡ load32 (local + k) m =
        λ k h. load32-copy m (found_at shm usmmgr f) local ipc_msg_size k h in
      rw (sent_state-memory msg f)
        (ground (arith, e 0 (omega arith), x), e 4 (omega arith) ∙ y, e 8 (omega arith) ∙ z)

  -- What sending leaves of an area that is apart from the message's own words, from the local
  -- message and from the DSP's buffer.
  pub sent_state-Agree :
      (msg : ℕ) (f : Fapi) (a n : ℕ)
      → Apart a n local 12
      → Apart a n (msg + body_addr_at) 4
      → Apart a n (found_at shm usmmgr f) ipc_msg_size
      → Agree a n f.ipc.memory (sent_state msg f).ipc.memory
  sent_state-Agree msg f a n h k l =
      let m = to_send local msg f.ipc.memory in
      subst (Agree a n f.ipc.memory) (sym (sent_state-memory msg f)) (
        Agree-trans (to_send-Agree local msg f.ipc.memory a n h k)
          (copy-Agree m (found_at shm usmmgr f) local ipc_msg_size a n l))

  -- If the ring towards the DSP has room, its semaphore is free, and the buffer of its next
  -- descriptor is mapped and takes 16 bytes, then a message whose length is not 0 is sent: one
  -- descriptor of 16 bytes joins those that wait, in last place, and at its address the DSP finds
  -- the message's channel of the FAPI, its length and the physical address of its buffer.
  pub ipc_send_msg-Found :
      (msg : ℕ) (f : Fapi)
      → CanSend shm usmmgr lock f
      → HasBytes f.ipc.memory
      → load32 (msg + length_at) f.ipc.memory ≢ 0
      → (f' : Fapi) × (ipc_send_msg shm usmmgr lock local msg f ≡ (success, f'))
        × (waiting ipc_pa2sc_ch_id f'.ipc ≡ waiting ipc_pa2sc_ch_id f.ipc ++ (fapi_bd f ∷ []))
        × Found
            (found_at shm usmmgr f)
            (load32 msg f.ipc.memory)
            (load32 (msg + length_at) f.ipc.memory)
            (load32 (msg + phys_addr_at) f.ipc.memory)
            f'.ipc.memory
  ipc_send_msg-Found msg f s b h = (
    sent_state msg f,
    ipc_send_msg-eq msg f s h,
    sent_state-waiting msg f s,
    sent_state-Found msg f b,
  )
