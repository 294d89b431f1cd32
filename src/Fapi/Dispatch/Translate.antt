-- ===== src/Fapi/Dispatch/Translate.antt =====
-- The pointers of an RX.indication are translated before L2 sees it.
use enb_l1_b4860_ppc.Common.{
  ℕ, zero, suc, ◌+◌, ◌*◌, ◌≤◌, ◌<◌, ◌≡◌, refl, ap, inl, inr, ◌∙◌, true, List, [], ◌∷◌, ◌==◌, arith,
  word_mod,
}
use enb_l1_b4860_ppc.Ipc.TxRequest.{store32, load32}
use enb_l1_b4860_ppc.Ipc.TxRequest.Laws.{load32-store32}
use enb_l1_b4860_ppc.Shm.{Shm, ptov}
use enb_l1_b4860_ppc.Usmmgr.{Usmmgr, MemRange, usmmgr_p2v, search_map}
use enb_l1_b4860_ppc.Fapi.{Fapi, p7_rx_ind, ipc_p2v}
use enb_l1_b4860_ppc.Fapi.Memory.{Agree, Agree-trans, load32-Agree, store32-Agree, Agree-refl}
use enb_l1_b4860_ppc.Fapi.Dispatch.{
  push_work, translate_pdus, process_p7_message, rx_ulsch_indication,
}

module _ (p2v : ℕ → ℕ) (word : (a : ℕ) → p2v a < word_mod) where
  -- Memory before the PDUs, and in one of them before the pointer, is left.
  translate_pdus-Agree :
      (n at : ℕ) (m : ℕ → ℕ) (a k : ℕ) → a + k ≤ at + 28 → Agree a k m (translate_pdus p2v n at m)
  unfolding translate_pdus
  translate_pdus-Agree zero at m a k h = Agree-refl m a k
  translate_pdus-Agree (suc n) at m a k h =
      Agree-trans (store32-Agree m (at + 28) _ a k (inl h))
        (translate_pdus-Agree n (at + 32) _ a k (omega arith))

  translate_pdus-pointer :
      (n at i : ℕ) (m : ℕ → ℕ)
      → i < n
      → load32 (at + 32 * i + 28) (translate_pdus p2v n at m) ≡ p2v (load32 (at + 32 * i + 28) m)
  unfolding translate_pdus
  translate_pdus-pointer zero at i m h = absurd (omega arith)
  translate_pdus-pointer (suc n) at zero m h =
      let m1 = store32 (at + 28) (p2v (load32 (at + 28) m)) m in
      let here : at + 32 * 0 + 28 ≡ at + 28 = omega arith in
      rw here (
        load32-Agree (at + 28) 4 (at + 28)
          (translate_pdus-Agree n (at + 32) m1 (at + 28) 4 (omega arith)) (omega arith)
          (omega arith)
        ∙ load32-store32 (at + 28) (p2v (load32 (at + 28) m)) m (word (load32 (at + 28) m)))
  translate_pdus-pointer (suc n) at (suc i) m h =
      let v = p2v (load32 (at + 28) m) in
      let m1 = store32 (at + 28) v m in
      let there : at + 32 * suc i + 28 ≡ at + 32 + 32 * i + 28 = omega arith in
      rw there (
        translate_pdus-pointer n (at + 32) i m1 (omega arith)
        ∙ ap p2v (
            load32-Agree (at + 32) (32 * i + 32) (at + 32 + 32 * i + 28)
              (store32-Agree m (at + 28) v (at + 32) (32 * i + 32) (inr (omega arith)))
              (omega arith) (omega arith)))

search_map-word : (rs : List MemRange) (p v : ℕ) → v < word_mod → search_map rs p v < word_mod
unfolding search_map
search_map-word [] p v h = h
search_map-word (r ∷ rs) p v h = search_map-word rs p _ (ground (arith, h))

ipc_p2v-word : (shm : Shm) (usmmgr : Usmmgr) (a : ℕ) → ipc_p2v shm usmmgr a < word_mod
unfolding ipc_p2v usmmgr_p2v ptov
ipc_p2v-word shm usmmgr a = ground (arith, search_map-word usmmgr.map a 0 (omega arith))

-- An RX.indication goes to the queue of RX.indications, and in it the pointer to the data of each of
-- its PDUs is the virtual address of what it was; the message up to the first pointer is as it was.
pub process_p7_message-rx :
    (shm : Shm) (usmmgr : Usmmgr) (msg i : ℕ) (f : Fapi)
    → load32 msg f.ipc.memory ≡ rx_ulsch_indication
    → i < load32 (msg + 16) f.ipc.memory
    → (let (work, f') = process_p7_message (ipc_p2v shm usmmgr) msg f in
        (work ≡ push_work p7_rx_ind msg)
        × (load32 (msg + 20 + 32 * i + 28) f'.ipc.memory
            ≡ ipc_p2v shm usmmgr (load32 (msg + 20 + 32 * i + 28) f.ipc.memory))
        × Agree msg 48 f.ipc.memory f'.ipc.memory)
unfolding process_p7_message
process_p7_message-rx shm usmmgr msg i f h k =
    let p2v = ipc_p2v shm usmmgr in
    let count = load32 (msg + 16) f.ipc.memory in
    let test : (load32 msg f.ipc.memory == rx_ulsch_indication) ≡ true = ground (arith, h) in
    let pointer =
      translate_pdus-pointer p2v (ipc_p2v-word shm usmmgr) count (msg + 20) i f.ipc.memory k in
    let frame =
      translate_pdus-Agree p2v (ipc_p2v-word shm usmmgr) count (msg + 20) f.ipc.memory msg 48
        (omega arith) in
    rw test (refl, pointer, frame)
