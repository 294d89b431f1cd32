-- ===== src/Fapi/TxData.antt =====
-- b4860/fapi_b4860.c: how a transmit request puts the data of its PDUs behind its message.
pub mod Grows
pub mod Loops
pub mod Stand
pub mod Pdus
pub mod Keep
pub mod Message
use enb_l1_b4860_ppc.Common.{ℕ, ◌+◌, List, [], ◌∷◌, ◌==◌, if◌then◌else◌, bit_and, add32, take}
use enb_l1_b4860_ppc.Ipc.{copy}
use enb_l1_b4860_ppc.Ipc.TxRequest.{store32}
use enb_l1_b4860_ppc.Shm.{Shm}
use enb_l1_b4860_ppc.Fapi.{ipc_v2p}
use enb_l1_b4860_ppc.Fapi.Messages.{
  Tb, TxPdu, DlConfigRequest, msg_ptr_var_size, sfn_sf, store_words, tx_request_size, tx_pdu_size,
  tx_request_id,
}

-- `(n + 7) & 0xfffffff8` and `(n + 63) & 0xffffffc0`
unfoldable pub align8 : ℕ → ℕ
align8 n = bit_and (add32 n 7) 0xfffffff8

unfoldable pub align64 : ℕ → ℕ
align64 n = bit_and (add32 n 63) 0xffffffc0

-- `msg_len_aligned` of a transmit request with `n` PDUs.
unfoldable pub tx_data_offset : ℕ → ℕ
unfolding align64 msg_ptr_var_size
tx_data_offset n = align64 (msg_ptr_var_size tx_request_size tx_pdu_size n)

module _ (shm : Shm) (buf : ℕ) where
  -- One round of the inner loop: the member of `tbs` at `at`, its data at `buf + ptr`. With the new
  -- `tx_req_data_ptr`, the memory.
  unfoldable pub copy_tb : ℕ → Tb → ℕ → (ℕ → ℕ) → ℕ × (ℕ → ℕ)
  unfolding align8 ipc_v2p
  copy_tb at tb ptr m =
      let m1 = store32 (at + 4) tb.tb_length (store32 at tb.tb_tag m) in
      if tb.tb_tag == 0 then (ptr, store32 (at + 8) tb.tb_data m1) else (
        add32 ptr (align8 tb.tb_length),
        store32 (at + 8) (ipc_v2p shm (buf + ptr)) (copy m1 (buf + ptr) tb.tb_data tb.tb_length),
      )

  -- The inner loop, over the first `num_segments` members.
  unfoldable pub copy_tbs : ℕ → List Tb → ℕ → (ℕ → ℕ) → ℕ × (ℕ → ℕ)
  unfolding copy_tb
  copy_tbs at [] ptr m = (ptr, m)
  copy_tbs at (tb ∷ tbs) ptr m =
      let (ptr', m') = copy_tb at tb ptr m in copy_tbs (at + 12) tbs ptr' m'

  -- One round of the outer loop, for the PDU at `at`.
  unfoldable pub copy_pdu : ℕ → TxPdu → ℕ → (ℕ → ℕ) → ℕ × (ℕ → ℕ)
  unfolding copy_tbs
  copy_pdu at pdu ptr m =
      let m1 = store32 (at + 8) pdu.num_segments m in
      let m2 = store32 (at + 4) pdu.pdu_index m1 in
      let m3 = store32 at pdu.pdu_length m2 in
      copy_tbs (at + 12) (take pdu.num_segments pdu.tbs) ptr m3

  -- The outer loop, over the first `number_tx_req` PDUs.
  unfoldable pub copy_pdus : ℕ → List TxPdu → ℕ → (ℕ → ℕ) → ℕ × (ℕ → ℕ)
  unfolding copy_pdu
  copy_pdus at [] ptr m = (ptr, m)
  copy_pdus at (pdu ∷ pdus) ptr m =
      let (ptr', m') = copy_pdu at pdu ptr m in copy_pdus (at + tx_pdu_size) pdus ptr' m'

abbrev pub tx_request_words : DlConfigRequest → List (ℕ × ℕ)
tx_request_words r =
    (0, tx_request_id) ∷ (8, sfn_sf r.frame r.subframe) ∷ (12, r.number_tx_req) ∷ []

-- What fapi_p7_tx_request writes behind the head of its message, with the length last. The counts
-- of PDUs and of members stay within the arrays of L2.
unfoldable pub tx_request_message : Shm → DlConfigRequest → ℕ → (ℕ → ℕ) → ℕ → ℕ
unfolding copy_pdus tx_data_offset sfn_sf store_words
tx_request_message shm r body m =
    let m1 = store_words body (tx_request_words r) m in
    let offset = tx_data_offset r.number_tx_req in
    let (ptr, m2) =
      copy_pdus shm (body + offset) (body + 16) (take r.number_tx_req r.tx_request_pdu_list) 0 m1 in
    store32 (body + 4) (add32 offset ptr) m2
