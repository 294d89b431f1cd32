-- ===== src/Fapi/TxData/Loops.antt =====
-- The rounds of the loops of a transmit request.
use enb_l1_b4860_ppc.Common.{
  ℕ, zero, suc, ◌+◌, ◌*◌, ◌≤◌, ◌<◌, ◌≡◌, inl, inr, refl, ap, ◌∙◌, Bool-cases, List, [], ◌∷◌, arith,
  word_mod, ◌==◌, length, take,
}
use enb_l1_b4860_ppc.Ipc.TxRequest.{store32}
use enb_l1_b4860_ppc.Shm.{Shm}
use enb_l1_b4860_ppc.Fapi.{ipc_v2p}
use enb_l1_b4860_ppc.Fapi.Messages.{Tb, TxPdu, tx_pdu_size}
use enb_l1_b4860_ppc.Fapi.TxData.{copy_tb, copy_tbs, copy_pdu, copy_pdus}
use enb_l1_b4860_ppc.Fapi.TxData.Grows.{
  up8, align8-eq, tb_end, tbs_end, pdus_end, tb_end-le, tbs_end-le, pdus_end-le, Grows, Grows-refl,
  Grows-trans, Grows-store32, Grows-copy,
}

-- What a round makes of the place for data and of the memory.
abbrev pub Round : ℕ → ℕ → ℕ → ℕ → ℕ → ℕ → (ℕ → ℕ) → ℕ × (ℕ → ℕ) → Type 0
Round lo n buf at ptr ptr' m r = (r.0 ≡ ptr') × Grows lo n buf at ptr m r.1

-- The source's bounds on the members of the PDUs.
abbrev pub HaveTbs : List TxPdu → Type 0
HaveTbs [] = Unit
HaveTbs (pdu ∷ pdus) = (pdu.num_segments ≤ 32) × (pdu.num_segments ≤ length pdu.tbs) × HaveTbs pdus

pub length-take_le {ℓ} : {A : Type ℓ} (n : ℕ) (xs : List A) → length (take n xs) ≤ n
length-take_le zero xs = omega arith
length-take_le (suc n) [] = omega arith
length-take_le (suc n) (x ∷ xs) = omega (arith, length-take_le n xs)

module _ (shm : Shm) (lo n buf : ℕ) (low : lo ≤ buf) (word : n + 7 < word_mod) where
  -- The two words of a member that come first.
  two_words :
      (at ptr : ℕ) (tb : Tb) (m : ℕ → ℕ)
      → lo ≤ at
      → at + 12 ≤ buf
      → buf ≤ lo + n
      → Grows lo n buf at ptr m (store32 (at + 4) tb.tb_length (store32 at tb.tb_tag m))
  two_words at ptr tb m h1 h2 h3 =
      Grows-trans lo n buf
        (Grows-store32 lo n buf at ptr at tb.tb_tag m h1 (omega arith) (omega arith) h3)
        (Grows-store32 lo n buf at ptr (at + 4) tb.tb_length _ h1 (omega arith) (omega arith) h3)
        (omega arith) (omega arith)

  pub copy_tb-Round :
      (at ptr : ℕ) (tb : Tb) (m : ℕ → ℕ)
      → lo ≤ at
      → at + 12 ≤ buf
      → buf + tb_end tb ptr ≤ lo + n
      → Round lo n buf at ptr (tb_end tb ptr) m (copy_tb shm buf at tb ptr m)
  unfolding copy_tb tb_end
  copy_tb-Round at ptr tb m h1 h2 h3 =
      let m1 = store32 (at + 4) tb.tb_length (store32 at tb.tb_tag m) in
      let stay = tb_end-le tb ptr in
      let two = two_words at ptr tb m h1 h2 (omega (arith, h3, stay)) in
      elim (Bool-cases (tb.tb_tag == 0)) [
        | inl e ↦ rw e (
          refl,
          Grows-trans lo n buf two
              (Grows-store32 lo n buf at ptr (at + 8) tb.tb_data m1 h1 (omega arith) (omega arith)
                (omega (arith, h3, stay)))
              (omega arith) (omega arith),
        )
        | inr e ↦
            let fit : buf + (ptr + up8 tb.tb_length) ≤ lo + n = ground (arith, h3) in
            rw e (
              ground (arith, align8-eq tb.tb_length (omega (arith, fit, word))),
              Grows-trans lo n buf two
                  (Grows-trans lo n buf
                    (Grows-copy lo n buf at ptr tb.tb_data tb.tb_length m1 low (omega arith)
                      (omega (arith, fit)))
                    (Grows-store32 lo n buf at ptr (at + 8) (ipc_v2p shm (buf + ptr)) _ h1
                      (omega arith) (omega arith) (omega (arith, fit)))
                    (omega arith) (omega arith))
                  (omega arith) (omega arith),
            )
      ]

  pub copy_tbs-Round :
      (tbs : List Tb) (at ptr : ℕ) (m : ℕ → ℕ)
      → lo ≤ at
      → at + 12 * length tbs ≤ buf
      → buf + tbs_end tbs ptr ≤ lo + n
      → Round lo n buf at ptr (tbs_end tbs ptr) m (copy_tbs shm buf at tbs ptr m)
  unfolding copy_tbs tbs_end
  copy_tbs-Round [] at ptr m h1 h2 h3 = (refl, Grows-refl lo n buf at ptr m)
  copy_tbs-Round (tb ∷ tbs) at ptr m h1 h2 h3 =
      let r = copy_tb shm buf at tb ptr m in
      let rest = tbs_end-le tbs (tb_end tb ptr) in
      let (p, g) = copy_tb-Round at ptr tb m h1 (omega arith) (omega (arith, rest, h3)) in
      let (p', g') = copy_tbs-Round tbs (at + 12) r.0 r.1 (omega arith) (omega arith) (rw p h3) in
      (
        p' ∙ ap (tbs_end tbs) p,
        Grows-trans lo n buf g g' (omega arith) (omega (arith, p, tb_end-le tb ptr)),
      )

  pub copy_pdu-Round :
      (pdu : TxPdu) (at ptr : ℕ) (m : ℕ → ℕ)
      → lo ≤ at
      → at + tx_pdu_size ≤ buf
      → pdu.num_segments ≤ 32
      → buf + tbs_end (take pdu.num_segments pdu.tbs) ptr ≤ lo + n
      → Round lo n buf at ptr
          (tbs_end (take pdu.num_segments pdu.tbs) ptr)
          m
          (copy_pdu shm buf at pdu ptr m)
  unfolding copy_pdu
  copy_pdu-Round pdu at ptr m h1 h2 h3 h4 =
      let tbs = take pdu.num_segments pdu.tbs in
      let m1 = store32 (at + 8) pdu.num_segments m in
      let m2 = store32 (at + 4) pdu.pdu_index m1 in
      let m3 = store32 at pdu.pdu_length m2 in
      let end = tbs_end-le tbs ptr in
      let (p, g) =
        copy_tbs-Round tbs (at + 12) ptr m3 (omega arith)
          (omega (arith, length-take_le pdu.num_segments pdu.tbs)) h4 in
      let fits : buf ≤ lo + n = omega (arith, end, h4) in
      let w1 =
        Grows-store32 lo n buf at ptr (at + 8) pdu.num_segments m h1 (omega arith) (omega arith)
          fits in
      let w2 =
        Grows-store32 lo n buf at ptr (at + 4) pdu.pdu_index m1 h1 (omega arith) (omega arith)
          fits in
      let w3 =
        Grows-store32 lo n buf at ptr at pdu.pdu_length m2 h1 (omega arith) (omega arith) fits in
      let words =
        Grows-trans lo n buf (Grows-trans lo n buf w1 w2 (omega arith) (omega arith)) w3
          (omega arith) (omega arith) in
      (p, Grows-trans lo n buf words g (omega arith) (omega arith))

  pub copy_pdus-Round :
      (pdus : List TxPdu) (at ptr : ℕ) (m : ℕ → ℕ)
      → lo ≤ at
      → at + tx_pdu_size * length pdus ≤ buf
      → HaveTbs pdus
      → buf + pdus_end pdus ptr ≤ lo + n
      → Round lo n buf at ptr (pdus_end pdus ptr) m (copy_pdus shm buf at pdus ptr m)
  unfolding copy_pdus pdus_end
  copy_pdus-Round [] at ptr m h1 h2 v h3 = (refl, Grows-refl lo n buf at ptr m)
  copy_pdus-Round (pdu ∷ pdus) at ptr m h1 h2 (few, _, v) h3 =
      let r = copy_pdu shm buf at pdu ptr m in
      let tbs = take pdu.num_segments pdu.tbs in
      let rest = pdus_end-le pdus (tbs_end tbs ptr) in
      let (p, g) = copy_pdu-Round pdu at ptr m h1 (omega arith) few (omega (arith, rest, h3)) in
      let (p', g') =
        copy_pdus-Round pdus (at + tx_pdu_size) r.0 r.1 (omega arith) (omega arith) v (rw p h3) in
      (
        p' ∙ ap (pdus_end pdus) p,
        Grows-trans lo n buf g g' (omega arith) (omega (arith, p, tbs_end-le tbs ptr)),
      )
