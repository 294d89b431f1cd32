-- ===== src/Fapi/TxData/Pdus.antt =====
-- The PDUs of a transmit request in memory.
use enb_l1_b4860_ppc.Common.{
  ℕ, ◌+◌, ◌*◌, ◌≤◌, ◌<◌, ◌≡◌, subst, ◌∙◌, List, [], ◌∷◌, arith, word_mod, length, take,
}
use enb_l1_b4860_ppc.Ipc.TxRequest.{store32, load32}
use enb_l1_b4860_ppc.Ipc.TxRequest.Laws.{load32-store32}
use enb_l1_b4860_ppc.Shm.{Shm}
use enb_l1_b4860_ppc.Fapi.Memory.{load32-Agree, load32-store32_ne}
use enb_l1_b4860_ppc.Fapi.Messages.{Tb, TxPdu, tx_pdu_size}
use enb_l1_b4860_ppc.Fapi.TxData.{copy_pdu, copy_pdus}
use enb_l1_b4860_ppc.Fapi.TxData.Grows.{
  tbs_end, pdus_end, tbs_end-le, pdus_end-le, Grows, Grows-trans, Grows-store32,
}
use enb_l1_b4860_ppc.Fapi.TxData.Loops.{
  HaveTbs, length-take_le, copy_tbs-Round, copy_pdu-Round, copy_pdus-Round,
}
use enb_l1_b4860_ppc.Fapi.TxData.Stand.{
  AreSources, AreKept, AreKept-Grows, TbsStand, TbsStand-Grows, copy_tbs-Stand,
}

-- The members of a PDU that count.
abbrev pub used : TxPdu → List Tb
used pdu = take pdu.num_segments pdu.tbs

abbrev pub PduSources : ℕ → ℕ → List TxPdu → Type 0
PduSources lo n [] = Unit
PduSources lo n (pdu ∷ pdus) =
    (pdu.pdu_length < word_mod)
    × (pdu.pdu_index < word_mod)
    × AreSources lo n (used pdu)
    × PduSources lo n pdus

module _ (shm : Shm) (buf : ℕ) (m0 : ℕ → ℕ) where
  -- The PDU at `at`: its three words, then its members.
  pub record PduStands (at : ℕ) (pdu : TxPdu) (p : ℕ) (m : ℕ → ℕ) : Type 0 where
    pub size : load32 at m ≡ pdu.pdu_length
    pub index : load32 (at + 4) m ≡ pdu.pdu_index
    pub segments : load32 (at + 8) m ≡ pdu.num_segments
    pub members : TbsStand shm buf m0 (at + 12) (used pdu) p m

  -- The PDUs from `at` on, their data from `p` on.
  abbrev pub PdusStand : ℕ → List TxPdu → ℕ → (ℕ → ℕ) → Type 0
  PdusStand at [] p m = Unit
  PdusStand at (pdu ∷ pdus) p m =
      PduStands at pdu p m × PdusStand (at + tx_pdu_size) pdus (tbs_end (used pdu) p) m

module _ (shm : Shm) (lo n buf : ℕ) (low : lo ≤ buf) (word : n + 7 < word_mod) (m0 : ℕ → ℕ) where
  abbrev pub PdusKept : List TxPdu → (ℕ → ℕ) → Type 0
  PdusKept [] m = Unit
  PdusKept (pdu ∷ pdus) m = AreKept shm lo n buf low word m0 (used pdu) m × PdusKept pdus m

  PdusKept-Grows :
      (pdus : List TxPdu) (at p : ℕ) (m m' : ℕ → ℕ)
      → Grows lo n buf at p m m'
      → PduSources lo n pdus
      → PdusKept pdus m
      → PdusKept pdus m'
  PdusKept-Grows [] at p m m' g a k = tt
  PdusKept-Grows (pdu ∷ pdus) at p m m' g (_, _, a, others) (k, ks) = (
    AreKept-Grows shm lo n buf low word m0 (used pdu) at p m m' g a k,
    PdusKept-Grows pdus at p m m' g others ks,
  )

  PduStands-Grows :
      (at p at' p' : ℕ) (pdu : TxPdu) (m m' : ℕ → ℕ)
      → Grows lo n buf at' p' m m'
      → pdu.num_segments ≤ 32
      → at + tx_pdu_size ≤ at'
      → tbs_end (used pdu) p ≤ p'
      → PduStands shm buf m0 at pdu p m
      → PduStands shm buf m0 at pdu p m'
  PduStands-Grows at p at' p' pdu m m' g few ha hp s =
      let w = g.below at 12 (omega arith) in
      record {
        size = load32-Agree at 12 at w (omega arith) (omega arith) ∙ s.size;
        index = load32-Agree at 12 (at + 4) w (omega arith) (omega arith) ∙ s.index;
        segments = load32-Agree at 12 (at + 8) w (omega arith) (omega arith) ∙ s.segments;
        members =
            TbsStand-Grows shm lo n buf low word m0 (used pdu) (at + 12) p at' p' m m' g
              (omega (arith, length-take_le pdu.num_segments pdu.tbs)) hp s.members;
      }

  copy_pdu-Stands :
      (pdu : TxPdu) (at ptr : ℕ) (m : ℕ → ℕ)
      → lo ≤ at
      → at + tx_pdu_size ≤ buf
      → pdu.num_segments ≤ 32
      → buf + tbs_end (used pdu) ptr ≤ lo + n
      → pdu.pdu_length < word_mod
      → pdu.pdu_index < word_mod
      → AreSources lo n (used pdu)
      → AreKept shm lo n buf low word m0 (used pdu) m
      → PduStands shm buf m0 at pdu ptr (copy_pdu shm buf at pdu ptr m).1
  unfolding copy_pdu
  copy_pdu-Stands pdu at ptr m h1 h2 few h3 hl hi a k =
      let m1 = store32 (at + 8) pdu.num_segments m in
      let m2 = store32 (at + 4) pdu.pdu_index m1 in
      let m3 = store32 at pdu.pdu_length m2 in
      let fits : buf ≤ lo + n = omega (arith, tbs_end-le (used pdu) ptr, h3) in
      let room = length-take_le pdu.num_segments pdu.tbs in
      let g1 =
        Grows-store32 lo n buf at ptr (at + 8) pdu.num_segments m h1 (omega arith) (omega arith)
          fits in
      let g2 =
        Grows-store32 lo n buf at ptr (at + 4) pdu.pdu_index m1 h1 (omega arith) (omega arith)
          fits in
      let g3 =
        Grows-store32 lo n buf at ptr at pdu.pdu_length m2 h1 (omega arith) (omega arith) fits in
      let words =
        Grows-trans lo n buf (Grows-trans lo n buf g1 g2 (omega arith) (omega arith)) g3
          (omega arith) (omega arith) in
      let (_, g) =
        copy_tbs-Round shm lo n buf low word (used pdu) (at + 12) ptr m3 (omega arith)
          (omega (arith, room)) h3 in
      let head = g.below at 12 (omega arith) in
      record {
        size =
            load32-Agree at 12 at head (omega arith) (omega arith)
            ∙ load32-store32 at pdu.pdu_length m2 hl;
        index =
            load32-Agree at 12 (at + 4) head (omega arith) (omega arith)
            ∙ load32-store32_ne (at + 4) at pdu.pdu_length m2 (omega arith)
            ∙ load32-store32 (at + 4) pdu.pdu_index m1 hi;
        segments =
            load32-Agree at 12 (at + 8) head (omega arith) (omega arith)
            ∙ load32-store32_ne (at + 8) at pdu.pdu_length m2 (omega arith)
            ∙ load32-store32_ne (at + 8) (at + 4) pdu.pdu_index m1 (omega arith)
            ∙ load32-store32 (at + 8) pdu.num_segments m (omega arith);
        members =
            copy_tbs-Stand shm lo n buf low word m0 (used pdu) (at + 12) ptr m3 (omega arith)
              (omega (arith, room)) h3 a
              (AreKept-Grows shm lo n buf low word m0 (used pdu) at ptr m m3 words a k);
      }

  pub copy_pdus-Stand :
      (pdus : List TxPdu) (at ptr : ℕ) (m : ℕ → ℕ)
      → lo ≤ at
      → at + tx_pdu_size * length pdus ≤ buf
      → HaveTbs pdus
      → buf + pdus_end pdus ptr ≤ lo + n
      → PduSources lo n pdus
      → PdusKept pdus m
      → PdusStand shm buf m0 at pdus ptr (copy_pdus shm buf at pdus ptr m).1
  unfolding copy_pdus pdus_end
  copy_pdus-Stand [] at ptr m h1 h2 v h3 a k = tt
  copy_pdus-Stand (pdu ∷ pdus) at ptr m h1 h2 (few, _, v) h3 (hl, hi, a, others) (k, ks) =
      let r = copy_pdu shm buf at pdu ptr m in
      let rest = pdus_end-le pdus (tbs_end (used pdu) ptr) in
      let fit : buf + tbs_end (used pdu) ptr ≤ lo + n = omega (arith, rest, h3) in
      let (p, g) = copy_pdu-Round shm lo n buf low word pdu at ptr m h1 (omega arith) few fit in
      let (p', g') =
        copy_pdus-Round shm lo n buf low word pdus (at + tx_pdu_size) r.0 r.1 (omega arith)
          (omega arith) v (rw p h3) in
      let now = copy_pdu-Stands pdu at ptr m h1 (omega arith) few fit hl hi a k in
      let later =
        copy_pdus-Stand pdus (at + tx_pdu_size) r.0 r.1 (omega arith) (omega arith) v (rw p h3)
          others (PdusKept-Grows pdus at ptr m r.1 g others ks) in
      (
        PduStands-Grows at ptr (at + tx_pdu_size) r.0 pdu r.1 _ g' few (omega arith)
            (omega (arith, p)) now,
        subst
            (λ q.
              PdusStand shm buf m0 (at + tx_pdu_size) pdus q
                (copy_pdus shm buf (at + tx_pdu_size) pdus r.0 r.1).1)
            p later,
      )
