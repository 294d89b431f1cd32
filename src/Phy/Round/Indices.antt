-- ===== src/Phy/Round/Indices.antt =====
-- The numbers that tie the PDUs of DL_CONFIG.request to those of TX.request.
use enb_l1_b4860_ppc.Common.{
  ℕ, zero, suc, ◌+◌, ◌<◌, ◌≡◌, refl, ap, inl, inr, ◌∙◌, List, [], ◌∷◌, ◌++◌, map, arith, ◌==◌, true,
  if◌then◌else◌, Bool-cases, add32, word_mod, length, bit_and, ◌≤◌, ltb,
}
use mathlib.Core.List.{map-append, append-nil}
use enb_l1_b4860_ppc.Phy.{
  DlPdu, TxPdu, Requests, add_dlsch, encode_pdsch, encode_pdcch_dl, encode_bch, dlsch_pdu_type,
  dci_dl_pdu_type, Clock, Cell, bch_pdu, bch_tx,
}
use enb_l1_b4860_ppc.Phy.Round.{
  Generator, Message, dl_config, ul_config, tx_request, no_requests, item, is_due, stimulate,
  add_bch, max_pdus, messages, send_tti, round, begin_tti,
}

-- 0, 1, 2, and so on, `n` numbers.
unfoldable pub upto : ℕ → List ℕ
upto zero = []
upto (suc n) = upto n ++ (n ∷ [])

-- The indices of the PDUs for the downlink in the messages of a TTI, and of those with data.
unfoldable pub dl_indices : List Message → List ℕ
dl_indices [] = []
dl_indices (dl_config f s n r ∷ ms) = map (λ p. p.pdu_index) r.dl_config_pdu_list ++ dl_indices ms
dl_indices (ul_config f s n ps ∷ ms) = dl_indices ms
dl_indices (tx_request f s ps ∷ ms) = dl_indices ms

unfoldable pub tx_indices : List Message → List ℕ
tx_indices [] = []
tx_indices (dl_config f s n r ∷ ms) = tx_indices ms
tx_indices (ul_config f s n ps ∷ ms) = tx_indices ms
tx_indices (tx_request f s ps ∷ ms) = map (λ p. p.pdu_index) ps ++ tx_indices ms

-- The PDUs of requests are numbered in order, and those with data alike.
record IsNumbered (r : Requests) : Type 0 where
  dl : map (λ p. p.pdu_index) r.dl_config_pdu_list ≡ upto r.tx_pdu_index
  tx : map (λ p. p.pdu_index) r.tx_request_pdu_list ≡ upto r.tx_pdu_index

-- One more of both, with the next number.
add-IsNumbered :
    (dcis : List DlPdu) (p : DlPdu) (t : TxPdu) (r : Requests)
    → IsNumbered r
    → p.pdu_index ≡ r.tx_pdu_index
    → t.pdu_index ≡ r.tx_pdu_index
    → r.tx_pdu_index + 1 < word_mod
    → IsNumbered (record {
      dl_config_dci_list = dcis;
      dl_config_pdu_list = r.dl_config_pdu_list ++ (p ∷ []);
      tx_request_pdu_list = r.tx_request_pdu_list ++ (t ∷ []);
      tx_pdu_index = add32 r.tx_pdu_index 1;
    })
unfolding upto
add-IsNumbered dcis p t r v ep et h =
    let next : add32 r.tx_pdu_index 1 ≡ suc r.tx_pdu_index = omega arith in
    let last : upto (add32 r.tx_pdu_index 1) ≡ upto r.tx_pdu_index ++ (r.tx_pdu_index ∷ []) =
      ap upto next in
    record {
      dl = map-append (λ p. p.pdu_index) r.dl_config_pdu_list (p ∷ []) ∙ rw (v.dl, ep, last) refl;
      tx = map-append (λ p. p.pdu_index) r.tx_request_pdu_list (t ∷ []) ∙ rw (v.tx, et, last) refl;
    }

empty-IsNumbered : IsNumbered no_requests
unfolding upto
empty-IsNumbered = record { dl = refl; tx = refl }

encode_pdcch_dl-IsNumbered :
    (ps : List DlPdu) (r : Requests) → IsNumbered r → IsNumbered (encode_pdcch_dl ps r)
unfolding encode_pdcch_dl
encode_pdcch_dl-IsNumbered [] r v = v
encode_pdcch_dl-IsNumbered (p ∷ ps) r v = elim (Bool-cases (p.pdu_type == dci_dl_pdu_type)) [
  | inl e ↦
      rw (encode_pdcch_dl, e) (encode_pdcch_dl-IsNumbered ps _ (record { dl = v.dl; tx = v.tx }))
  | inr e ↦ rw (encode_pdcch_dl, e) (encode_pdcch_dl-IsNumbered ps r v)
]

encode_pdcch_dl-index :
    (ps : List DlPdu) (r : Requests) → (encode_pdcch_dl ps r).tx_pdu_index ≡ r.tx_pdu_index
unfolding encode_pdcch_dl
encode_pdcch_dl-index [] r = refl
encode_pdcch_dl-index (p ∷ ps) r = elim (Bool-cases (p.pdu_type == dci_dl_pdu_type)) [
  | inl e ↦ rw (encode_pdcch_dl, e) (encode_pdcch_dl-index ps _)
  | inr e ↦ rw (encode_pdcch_dl, e) (encode_pdcch_dl-index ps r)
]

encode_pdsch-IsNumbered :
    (ps : List (DlPdu × TxPdu)) (r : Requests)
    → IsNumbered r
    → r.tx_pdu_index + length ps < word_mod
    → IsNumbered (encode_pdsch ps r)
      × ((encode_pdsch ps r).tx_pdu_index ≤ r.tx_pdu_index + length ps)
unfolding encode_pdsch
encode_pdsch-IsNumbered [] r v h = (v, omega arith)
encode_pdsch-IsNumbered ((p, t) ∷ ps) r v h = elim (Bool-cases (p.pdu_type == dlsch_pdu_type)) [
  | inl e ↦
      let next : add32 r.tx_pdu_index 1 ≡ r.tx_pdu_index + 1 = omega (arith, h) in
      let r1 = add_dlsch p t r in
      let v1 =
        add-IsNumbered r.dl_config_dci_list (record p { pdu_index = r.tx_pdu_index })
          (record t { pdu_index = r.tx_pdu_index }) r v refl refl (omega (arith, h)) in
      let (w, b) = encode_pdsch-IsNumbered ps r1 v1 (omega (arith, next, h)) in
      rw (encode_pdsch, e) (w, omega (arith, b, next))
  | inr e ↦
      let (w, b) = encode_pdsch-IsNumbered ps r v (omega (arith, h)) in
      rw (encode_pdsch, e) (w, omega (arith, b))
]

encode_bch-IsNumbered :
    (cell : Cell) (at : ℕ) (c : Clock) (bytes : List ℕ) (r : Requests)
    → IsNumbered r
    → r.tx_pdu_index + 1 < word_mod
    → IsNumbered (encode_bch cell at c bytes r).1
unfolding encode_bch
encode_bch-IsNumbered cell at c bytes r v h = elim (Bool-cases (c.sf_tx == 0)) [
  | inr e ↦ rw e v
  | inl e ↦ elim (Bool-cases (bit_and c.frame_tx 3 == 0)) [
    | inl k ↦
        rw (e, k)
          (add-IsNumbered r.dl_config_dci_list (bch_pdu r.tx_pdu_index) (bch_tx r.tx_pdu_index at) r
            v refl refl h)
    | inr k ↦ rw (e, k) v
  ]
]

stimulate-IsNumbered :
    (g : Generator)
    → length (item g).pdus + 1 < word_mod
    → IsNumbered (stimulate g).1 × ((stimulate g).1.tx_pdu_index ≤ length (item g).pdus)
unfolding stimulate
stimulate-IsNumbered g h = elim (Bool-cases (is_due g)) [
  | inl e ↦
      let start = encode_pdcch_dl-IsNumbered (item g).dcis no_requests empty-IsNumbered in
      let zeroth = encode_pdcch_dl-index (item g).dcis no_requests in
      let (w, b) =
        encode_pdsch-IsNumbered (item g).pdus (encode_pdcch_dl (item g).dcis no_requests) start
          (omega (arith, zeroth, h)) in
      rw e (w, omega (arith, b, zeroth))
  | inr e ↦ rw e (empty-IsNumbered, omega arith)
]

last_message : ℕ → ℕ → List TxPdu → List Message
last_message frame subframe ps = if ltb 0 (length ps) then tx_request frame subframe ps ∷ [] else []

last-indices :
    (frame subframe : ℕ) (ps : List TxPdu)
    → (dl_indices (last_message frame subframe ps) ≡ [])
      × (tx_indices (last_message frame subframe ps) ≡ map (λ p. p.pdu_index) ps)
unfolding last_message dl_indices tx_indices
last-indices frame subframe [] = (refl, refl)
last-indices frame subframe (p ∷ ps) =
    let some_data : ltb 0 (suc (length ps)) ≡ true = ground arith in
    rw some_data (refl, append-nil (map (λ p. p.pdu_index) (p ∷ ps)))

messages-indices :
    (g : Generator) (r : Requests) (ul : List ℕ)
    → IsNumbered r
    → (dl_indices (messages g r ul) ≡ upto r.tx_pdu_index)
      × (tx_indices (messages g r ul) ≡ upto r.tx_pdu_index)
unfolding messages last_message dl_indices tx_indices
messages-indices g r ul v =
    let (a, b) = last-indices g.clock.frame_tx g.clock.sf_tx r.tx_request_pdu_list in
    let dl = map (λ p. p.pdu_index) r.dl_config_pdu_list in
    (ap (λ l. dl ++ l) a ∙ append-nil dl ∙ v.dl, b ∙ v.tx)

add_bch-IsNumbered :
    (g : Generator) (r : Requests)
    → IsNumbered r
    → r.tx_pdu_index + 1 < word_mod
    → IsNumbered (add_bch g r).1
unfolding add_bch
add_bch-IsNumbered g r v h = elim (Bool-cases g.auto_mib) [
  | inl e ↦ rw e (encode_bch-IsNumbered g.cell g.pbch_at g.clock g.pbch_pdu r v h)
  | inr e ↦ rw e v
]

add_bch-index : (g : Generator) (r : Requests) → (add_bch g r).1.tx_pdu_index ≤ r.tx_pdu_index + 1
unfolding add_bch encode_bch
add_bch-index g r = ground arith

send_tti-indices :
    (g : Generator)
    → length (item g).pdus < max_pdus
    → (n : ℕ) × (n ≤ max_pdus)
      × (dl_indices (send_tti g).1 ≡ upto n)
      × (tx_indices (send_tti g).1 ≡ upto n)
unfolding send_tti
send_tti-indices g h =
    let (v, b) = stimulate-IsNumbered g (omega (arith, h)) in
    let g1 = (stimulate g).0 in
    let r = (stimulate g).1 in
    let w = add_bch-IsNumbered g1 r v (omega (arith, b, h)) in
    let (dl, tx) = messages-indices g1 (add_bch g1 r).1 (stimulate g).2 w in
    ((add_bch g1 r).1.tx_pdu_index, omega (arith, h, b, add_bch-index g1 r), dl, tx)

-- In every round of phy_dispatcher_thread at a stimulus that has items, of which the one it is at has
-- at most 64 DCIs and 63 PDUs, so that they and that of the BCH fit in the arrays of 64, the PDUs of the
-- DL_CONFIG.request that is sent and those of the TX.request have the same indices, 0, 1, 2 and so on
-- without a gap, the BCH and its data included; a TX.request that is not sent stands for no PDUs.
pub round-indices :
    (schedule frame subframe : ℕ) (g : Generator)
    → 0 < g.stim_len
    → length (item g).dcis ≤ max_pdus
    → length (item g).pdus < max_pdus
    → (let ms = (round schedule frame subframe g).1 in
        (n : ℕ) × (n ≤ max_pdus) × (dl_indices ms ≡ upto n) × (tx_indices ms ≡ upto n))
unfolding round begin_tti upto dl_indices tx_indices
round-indices schedule frame subframe g _ _ h = elim (Bool-cases (schedule == 0)) [
  | inl e ↦ rw e (send_tti-indices (begin_tti frame subframe g) h)
  | inr e ↦ rw e (0, omega arith, refl, refl)
]
