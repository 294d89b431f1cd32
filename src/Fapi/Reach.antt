-- ===== src/Fapi/Reach.antt =====
-- What reaches the DSP of a request, whatever message it writes.
use enb_l1_b4860_ppc.Common.{
  ℕ, ◌+◌, ◌≤◌, ◌<◌, ◌≡◌, ◌≢◌, inr, refl, ◌∙◌, Bool, [], ◌∷◌, ◌++◌, arith, word_mod, get_or,
}
use enb_l1_b4860_ppc.Ipc.{success, channel_at}
use enb_l1_b4860_ppc.Ipc.Ptr.{waiting}
use enb_l1_b4860_ppc.Ipc.TxRequest.{store32, load32}
use enb_l1_b4860_ppc.Ipc.TxRequest.Laws.{load32-store32}
use enb_l1_b4860_ppc.Shm.{Shm}
use enb_l1_b4860_ppc.Usmmgr.{MemRange, Usmmgr}
use enb_l1_b4860_ppc.Fapi.{
  Fapi, with_memory, alloc_send_msg, message_head, no_range, ipc_msg_size, ipc_pa2sc_ch_id,
  length_at, phys_addr_at, next_buf, tx_req_buf_num,
}
use enb_l1_b4860_ppc.Fapi.Memory.{
  Apart, HasBytes, Agree, Agree-trans, load32-Agree, load32-store32_ne, store32-Agree,
  store32-HasBytes,
}
use enb_l1_b4860_ppc.Fapi.Messages.{set_length_from_l1}
use enb_l1_b4860_ppc.Fapi.Requests.{request}
use enb_l1_b4860_ppc.Fapi.Send.{
  CanSend, Found, fapi_bd, found_at, sent_state, ipc_send_msg-eq, sent_state-Agree,
  sent_state-Found, sent_state-waiting, IsSendable-memory,
}

-- What a request writes: `n` bytes from the body on and no others, a length of `len` in the header.
pub record IsMessage (n len : ℕ) (write : ℕ → (ℕ → ℕ) → ℕ → ℕ) : Type 0 where
  pub bytes : (body : ℕ) (m : ℕ → ℕ) → HasBytes m → HasBytes (write body m)
  pub inside : (body : ℕ) (m : ℕ → ℕ) (a k : ℕ) → Apart a k body n → Agree a k m (write body m)
  pub says : (body : ℕ) (m : ℕ → ℕ) → load32 (body + 4) (write body m) ≡ len
  pub room : 8 ≤ n
  pub word : len + 16 < word_mod

-- The buffer that the next request takes.
abbrev pub next_buffer : Fapi → MemRange
next_buffer f = get_or f.tx_req_data_bufs f.tx_req_data_buf_ptr no_range

-- A message of `n` bytes in it stands apart from the local message, and from the DSP's buffer.
abbrev pub IsClear : Shm → Usmmgr → ℕ → ℕ → Fapi → Type 0
IsClear shm usmmgr local n f =
    Apart ((next_buffer f).vaddr + ipc_msg_size) n local 12
    × Apart ((next_buffer f).vaddr + ipc_msg_size) n (found_at shm usmmgr f) ipc_msg_size

-- In the new state one descriptor more waits for the DSP, in last place, and at its address the DSP
-- finds the channel, the length of the message with its head and the address of the buffer.
abbrev pub Reached : Shm → Usmmgr → ℕ → ℕ → Fapi → Fapi → Type 0
Reached shm usmmgr channel len f f' =
    (waiting ipc_pa2sc_ch_id f'.ipc ≡ waiting ipc_pa2sc_ch_id f.ipc ++ (fapi_bd f ∷ []))
    × Found (found_at shm usmmgr f) channel (len + 16) (next_buffer f).phys_addr f'.ipc.memory

head_words :
    (id : ℕ) (r : MemRange) (m : ℕ → ℕ)
    → id < word_mod
    → r.phys_addr < word_mod
    → (load32 r.vaddr (message_head id r m) ≡ id)
      × (load32 (r.vaddr + phys_addr_at) (message_head id r m) ≡ r.phys_addr)
head_words id r m hi hp =
    let one = store32 r.vaddr id m in
    let two = store32 (r.vaddr + phys_addr_at) r.phys_addr one in
    (
      load32-store32_ne r.vaddr (r.vaddr + length_at) 0 two (omega arith)
          ∙ load32-store32_ne r.vaddr (r.vaddr + phys_addr_at) r.phys_addr one (omega arith)
          ∙ load32-store32 r.vaddr id m hi,
      load32-store32_ne (r.vaddr + phys_addr_at) (r.vaddr + length_at) 0 two (omega arith)
          ∙ load32-store32 (r.vaddr + phys_addr_at) r.phys_addr one hp,
    )

head-HasBytes : (id : ℕ) (r : MemRange) (m : ℕ → ℕ) → HasBytes m → HasBytes (message_head id r m)
head-HasBytes id r m b =
    store32-HasBytes _ (r.vaddr + length_at) 0
      (store32-HasBytes _ (r.vaddr + phys_addr_at) r.phys_addr (store32-HasBytes m r.vaddr id b))

module _ (channel n len : ℕ) (write : ℕ → (ℕ → ℕ) → ℕ → ℕ) (w : IsMessage n len write) where
  -- The message before it is sent, and the whole state.
  abbrev pub written : Fapi → ℕ → ℕ
  written f =
      write ((next_buffer f).vaddr + ipc_msg_size)
        (message_head channel (next_buffer f) f.ipc.memory)

  abbrev pub prepared : Fapi → Fapi
  prepared f =
      with_memory (set_length_from_l1 (next_buffer f).vaddr (written f))
        (alloc_send_msg channel f).1

  prepared_words :
      (f : Fapi)
      → channel < word_mod
      → (next_buffer f).phys_addr < word_mod
      → (load32 (next_buffer f).vaddr (prepared f).ipc.memory ≡ channel)
        × (load32 ((next_buffer f).vaddr + length_at) (prepared f).ipc.memory ≡ len + 16)
        × (load32 ((next_buffer f).vaddr + phys_addr_at) (prepared f).ipc.memory
            ≡ (next_buffer f).phys_addr)
  unfolding alloc_send_msg
  prepared_words f hc hp =
      let r = next_buffer f in
      let v = r.vaddr in
      let head = message_head channel r f.ipc.memory in
      let (x, y) = head_words channel r f.ipc.memory hc hp in
      let frame = w.inside (v + ipc_msg_size) head v 16 (ground arith) in
      let said = w.says (v + ipc_msg_size) head in
      let value = ipc_msg_size + load32 (v + ipc_msg_size + 4) (written f) in
      (
        load32-store32_ne v (v + length_at) value (written f) (omega arith)
            ∙ load32-Agree v 16 v frame (omega arith) (omega arith)
            ∙ x,
        load32-store32 (v + length_at) value (written f) (omega (arith, said, w.word))
            ∙ omega (arith, said),
        load32-store32_ne (v + phys_addr_at) (v + length_at) value (written f) (omega arith)
            ∙ load32-Agree v 16 (v + phys_addr_at) frame (omega arith) (omega arith)
            ∙ y,
      )

  prepared-HasBytes : (f : Fapi) → HasBytes f.ipc.memory → HasBytes (prepared f).ipc.memory
  unfolding alloc_send_msg
  prepared-HasBytes f b =
      store32-HasBytes (written f) ((next_buffer f).vaddr + length_at) _
        (w.bytes _ _ (head-HasBytes channel (next_buffer f) f.ipc.memory b))

  module _ (shm : Shm) (usmmgr : Usmmgr) (lock : ℕ → Bool) (local : ℕ) where
    prepared-CanSend : (f : Fapi) → CanSend shm usmmgr lock f → CanSend shm usmmgr lock (prepared f)
    unfolding alloc_send_msg
    prepared-CanSend f s = IsSendable-memory (prepared f).ipc.memory s

    -- A request that can be sent is sent, and reaches the DSP.
    pub request-Reached :
        (f : Fapi)
        → CanSend shm usmmgr lock f
        → HasBytes f.ipc.memory
        → channel < word_mod
        → (next_buffer f).phys_addr < word_mod
        → IsClear shm usmmgr local n f
        → (f' : Fapi) × (request shm usmmgr lock local channel write f ≡ (success, f'))
          × Reached shm usmmgr channel len f f'
          × Agree ((next_buffer f).vaddr + ipc_msg_size) n (written f) f'.ipc.memory
          × (f'.tx_req_data_buf_ptr ≡ next_buf tx_req_buf_num f.tx_req_data_buf_ptr)
    unfolding request alloc_send_msg channel_at
    request-Reached f s b hc hp (c, d) =
        let v = (next_buffer f).vaddr in
        let (x, y, z) = prepared_words f hc hp in
        let p = prepared f in
        let sent = sent_state shm usmmgr lock local v p in
        let s' = prepared-CanSend f s in
        let some_length : load32 (v + length_at) p.ipc.memory ≢ 0 = λ e. omega (arith, e, y) in
        let (i, j, k) = sent_state-Found shm usmmgr lock local v p (prepared-HasBytes f b) in
        (
          sent,
          ipc_send_msg-eq shm usmmgr lock local v p s' some_length,
          (sent_state-waiting shm usmmgr lock local v p s', (i ∙ x, j ∙ y, k ∙ z)),
          Agree-trans
              (store32-Agree (written f) (v + length_at) _ (v + ipc_msg_size) n (inr (omega arith)))
              (sent_state-Agree shm usmmgr lock local v p (v + ipc_msg_size) n c (inr (omega arith))
                d),
          refl,
        )
