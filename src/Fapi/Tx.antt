-- ===== src/Fapi/Tx.antt =====
-- A transmit request from the call to the DSP.
use enb_l1_b4860_ppc.Common.{
  ℕ, ◌+◌, ◌-◌, ◌*◌, ◌≤◌, ◌<◌, ◌≡◌, refl, ◌∙◌, Bool, List, [], ◌∷◌, length, arith, word_mod,
}
use enb_l1_b4860_ppc.Ipc.{success}
use enb_l1_b4860_ppc.Shm.{Shm}
use enb_l1_b4860_ppc.Usmmgr.{Usmmgr}
use enb_l1_b4860_ppc.Fapi.{Fapi, message_head}
use enb_l1_b4860_ppc.Fapi.Memory.{Agree, Agree-part, Agree-trans, load32-Agree}
use enb_l1_b4860_ppc.Fapi.Messages.{Tb, TxPdu, DlConfigRequest, tx_pdu_size, channel_p7_req}
use enb_l1_b4860_ppc.Fapi.Requests.{p7_tx_request}
use enb_l1_b4860_ppc.Fapi.Writes.{Writes, Reads-Agree}
use enb_l1_b4860_ppc.Fapi.Reach.{next_buffer, request-Reached}
use enb_l1_b4860_ppc.Fapi.Framed.{next_body, fields_written-Writes, IsReady, Arrived}
use enb_l1_b4860_ppc.Fapi.TxData.{tx_data_offset, tx_request_words, tx_request_message}
use enb_l1_b4860_ppc.Fapi.TxData.Loops.{length-take_le}
use enb_l1_b4860_ppc.Fapi.TxData.Stand.{AreSources, AreKept}
use enb_l1_b4860_ppc.Fapi.TxData.Pdus.{used, PduSources, PdusKept, PdusStand, copy_pdus-Stand}
use enb_l1_b4860_ppc.Fapi.TxData.Keep.{PdusStand-Agree}
use enb_l1_b4860_ppc.Fapi.TxData.Message.{
  sent, tx_length, IsTxRequest, tx_data_offset-behind, fields_in, loops, message-Reads,
  message-loops, tx_request-IsMessage,
}

-- Sources apart from a buffer are apart from the body in it.
sources_inside :
    (lo n b k : ℕ) (tbs : List Tb)
    → lo ≤ b
    → b + k ≤ lo + n
    → AreSources lo n tbs
    → AreSources b k tbs
sources_inside lo n b k [] h1 h2 a = tt
sources_inside lo n b k (tb ∷ tbs) h1 h2 ((x, y, z, apart), a) =
    ((x, y, z, ground (arith, apart)), sources_inside lo n b k tbs h1 h2 a)

PduSources-inside :
    (lo n b k : ℕ) (pdus : List TxPdu)
    → lo ≤ b
    → b + k ≤ lo + n
    → PduSources lo n pdus
    → PduSources b k pdus
PduSources-inside lo n b k [] h1 h2 a = tt
PduSources-inside lo n b k (pdu ∷ pdus) h1 h2 (x, y, a, as') =
    (x, y, sources_inside lo n b k (used pdu) h1 h2 a, PduSources-inside lo n b k pdus h1 h2 as')

module _ (shm : Shm) (lo n buf : ℕ) (low : lo ≤ buf) (word : n + 7 < word_mod) (m0 m : ℕ → ℕ)
    (b k : ℕ) (w : Writes b k m0 m) where
  kept : (tbs : List Tb) → AreSources b k tbs → AreKept shm lo n buf low word m0 tbs m
  kept [] a = tt
  kept (tb ∷ tbs) ((_, _, _, apart), a) = (w.inside tb.tb_data tb.tb_length apart, kept tbs a)

  pdus_kept : (pdus : List TxPdu) → PduSources b k pdus → PdusKept shm lo n buf low word m0 pdus m
  pdus_kept [] a = tt
  pdus_kept (pdu ∷ pdus) (_, _, a, others) = (kept (used pdu) a, pdus_kept pdus others)

-- If the ring towards the DSP has room, its semaphore is free and its next buffer takes 16 bytes,
-- the message with its data fits in a buffer of the ring, which has a physical address of 32 bits
-- and lies apart from the local message, the DSP's buffer and the data of L2, then
-- fapi_p7_tx_request succeeds: the DSP finds one descriptor more, at its address the channel, length
-- and physical address of the message, in the message the fields and PDUs of the request, each
-- member with its tag and length, and a tagged member's data, byte by byte, at the address that the
-- member gives, where the blocks stand behind one another at multiples of 8 bytes from the offset.
pub p7_tx_request-Arrived :
    (shm : Shm) (usmmgr : Usmmgr) (lock : ℕ → Bool) (local : ℕ) (r : DlConfigRequest) (f : Fapi)
    → IsTxRequest r
    → IsReady shm usmmgr lock local (tx_length r) f
    → PduSources (next_buffer f).vaddr (tx_length r + 16) (sent r)
    → (f' : Fapi) × (p7_tx_request shm usmmgr lock local r f ≡ (success, f'))
      × Arrived shm usmmgr channel_p7_req (tx_length r) (tx_request_words r) f f'
      × PdusStand shm
          (next_body f + tx_data_offset r.number_tx_req)
          f.ipc.memory
          (next_body f + 16)
          (sent r)
          0
          f'.ipc.memory
unfolding p7_tx_request
p7_tx_request-Arrived shm usmmgr lock local r f v ready sources =
    let n = tx_length r in
    let body = next_body f in
    let buf = body + tx_data_offset r.number_tx_req in
    let words = tx_request_words r in
    let lo = (next_buffer f).vaddr in
    let m = message_head channel_p7_req (next_buffer f) f.ipc.memory in
    let (behind, _) = tx_data_offset-behind r.number_tx_req v.number_in in
    let few = length-take_le r.number_tx_req r.tx_request_pdu_list in
    let below : body + 16 + tx_pdu_size * length (sent r) ≤ buf = omega (arith, behind, few) in
    let low : body ≤ buf = omega arith in
    let small : n + 7 < word_mod = omega (arith, v.fits) in
    let (f', done, reached, same, _) =
      request-Reached channel_p7_req n n (tx_request_message shm r) (tx_request-IsMessage shm r v)
        shm usmmgr lock local f ready.can_send ready.bytes (omega arith) ready.address
        ready.clear in
    let (fields, size) = message-Reads shm r v body m in
    let written =
      fields_written-Writes channel_p7_req 16 (n + 16) words f refl (omega (arith, behind)) in
    let stand =
      copy_pdus-Stand shm body n buf low small f.ipc.memory (sent r) (body + 16) 0
        (fields_in shm r v body m) (omega arith) below v.members (omega arith)
        (PduSources-inside lo (n + 16) body n (sent r) (omega arith) (omega arith) sources)
        (pdus_kept shm body n buf low small f.ipc.memory (fields_in shm r v body m) lo (n + 16)
          written (sent r) sources) in
    let part : Agree (body + 16) (n - 16) (loops shm r v body m).1 f'.ipc.memory =
      Agree-trans (message-loops shm r v body m)
        (Agree-part same (omega arith) (omega (arith, behind))) in
    (
      f',
      done,
      (
        reached,
        Reads-Agree body 16 words refl (Agree-part same (omega arith) (omega (arith, behind)))
            fields,
        load32-Agree body n (body + 4) same (omega arith) (omega (arith, behind)) ∙ size,
      ),
      PdusStand-Agree shm buf (body + 16) (n - 16) f.ipc.memory (loops shm r v body m).1
          f'.ipc.memory part (omega (arith, behind)) (sent r) (body + 16) 0 (omega arith) below
          v.members (omega (arith, behind)) stand,
    )
