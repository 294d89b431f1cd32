-- ===== src/Phy/Pdsch.antt =====
-- The PDUs of a stimulus in the requests of a TTI.
use enb_l1_b4860_ppc.Common.{
  ℕ, suc, ◌+◌, ◌<◌, ◌≡◌, refl, ap, sym, inl, inr, ◌∙◌, List, [], ◌∷◌, ◌++◌, arith, ◌==◌,
  if◌then◌else◌, Bool-cases, add32, word_mod, length,
}
use mathlib.Core.List.{append_assoc, append-nil}
use enb_l1_b4860_ppc.Phy.{DlPdu, TxPdu, Requests, add_dlsch, encode_pdsch, dlsch_pdu_type}

-- The DLSCH PDUs of a list, with their transmit requests.
unfoldable dlschs : List (DlPdu × TxPdu) → List (DlPdu × TxPdu)
dlschs [] = []
dlschs ((p, t) ∷ ps) =
    let rest = dlschs ps in if p.pdu_type == dlsch_pdu_type then (p, t) ∷ rest else rest

-- The PDUs numbered from `i` on, and the transmit requests.
unfoldable numbered_pdus : ℕ → List (DlPdu × TxPdu) → List DlPdu
numbered_pdus i [] = []
numbered_pdus i ((p, t) ∷ ps) = record p { pdu_index = i } ∷ numbered_pdus (i + 1) ps

unfoldable numbered_txs : ℕ → List (DlPdu × TxPdu) → List TxPdu
numbered_txs i [] = []
numbered_txs i ((p, t) ∷ ps) = record t { pdu_index = i } ∷ numbered_txs (i + 1) ps

-- phy_common_encode_pdsch appends the DLSCH PDUs of the stimulus, in order, and as many transmit
-- requests, theirs, and numbers both alike from tx_pdu_index on, if the numbers stay below 2 ^ 32.
encode_pdsch-numbered :
    (ps : List (DlPdu × TxPdu)) (r : Requests)
    → r.tx_pdu_index + length (dlschs ps) < word_mod
    → (let r' = encode_pdsch ps r in
        (r'.dl_config_pdu_list ≡ r.dl_config_pdu_list ++ numbered_pdus r.tx_pdu_index (dlschs ps))
        × (r'.tx_request_pdu_list
            ≡ r.tx_request_pdu_list ++ numbered_txs r.tx_pdu_index (dlschs ps))
        × (r'.tx_pdu_index ≡ r.tx_pdu_index + length (dlschs ps))
        × (r'.dl_config_dci_list ≡ r.dl_config_dci_list))
unfolding encode_pdsch dlschs numbered_pdus numbered_txs
encode_pdsch-numbered [] r h = (
  sym (append-nil r.dl_config_pdu_list),
  sym (append-nil r.tx_request_pdu_list),
  omega arith,
  refl,
)
encode_pdsch-numbered ((p, t) ∷ ps) r h = elim (Bool-cases (p.pdu_type == dlsch_pdu_type)) [
  | inl e ↦
      let i = r.tx_pdu_index in
      let ds = dlschs ps in
      let room : i + suc (length ds) < word_mod = ground (arith, h, e) in
      let next : add32 i 1 ≡ i + 1 = omega (arith, room) in
      let (a, b, c, d) = encode_pdsch-numbered ps (add_dlsch p t r) (omega (arith, next, room)) in
      rw (encode_pdsch, dlschs, e)
        (
          a
              ∙ append_assoc r.dl_config_pdu_list (record p { pdu_index = i } ∷ []) _
              ∙ ap (λ k. r.dl_config_pdu_list ++ (record p { pdu_index = i } ∷ numbered_pdus k ds))
                  next,
          b
              ∙ append_assoc r.tx_request_pdu_list (record t { pdu_index = i } ∷ []) _
              ∙ ap (λ k. r.tx_request_pdu_list ++ (record t { pdu_index = i } ∷ numbered_txs k ds))
                  next,
          omega (arith, c, next),
          d,
        )
  | inr e ↦ rw (encode_pdsch, dlschs, e) (encode_pdsch-numbered ps r (ground (arith, h, e)))
]
