-- ===== src/Fapi/TxData/Keep.antt =====
-- The PDUs of a transmit request stand in every memory that agrees on the message.
use enb_l1_b4860_ppc.Common.{ℕ, ◌+◌, ◌*◌, ◌≤◌, ◌∙◌, List, [], ◌∷◌, arith, length}
use enb_l1_b4860_ppc.Shm.{Shm}
use enb_l1_b4860_ppc.Fapi.Memory.{Agree, load32-Agree}
use enb_l1_b4860_ppc.Fapi.Messages.{Tb, TxPdu, tx_pdu_size}
use enb_l1_b4860_ppc.Fapi.TxData.Grows.{
  tb_end, tbs_end, pdus_end, tb_end-le, tbs_end-le, pdus_end-le,
}
use enb_l1_b4860_ppc.Fapi.TxData.Loops.{HaveTbs, length-take_le}
use enb_l1_b4860_ppc.Fapi.TxData.Stand.{TbStands, TbsStand}
use enb_l1_b4860_ppc.Fapi.TxData.Pdus.{used, PduStands, PdusStand}

module _ (shm : Shm) (buf from n : ℕ) (m0 m m' : ℕ → ℕ) (same : Agree from n m m')
    (over : from ≤ buf) where
  TbStands-Agree :
      (at p : ℕ) (tb : Tb)
      → from ≤ at
      → at + 12 ≤ buf
      → buf + tb_end tb p ≤ from + n
      → TbStands shm buf m0 at tb p m
      → TbStands shm buf m0 at tb p m'
  unfolding tb_end
  TbStands-Agree at p tb lo mid hi s =
      let fits : buf ≤ from + n = omega (arith, hi, tb_end-le tb p) in
      record {
        tag = load32-Agree from n at same lo (omega (arith, fits)) ∙ s.tag;
        size = load32-Agree from n (at + 4) same (omega arith) (omega (arith, fits)) ∙ s.size;
        pointer = λ h.
            load32-Agree from n (at + 8) same (omega arith) (omega (arith, fits)) ∙ s.pointer h;
        address = λ h.
            load32-Agree from n (at + 8) same (omega arith) (omega (arith, fits)) ∙ s.address h;
        block =
            λ h i k. same.same (buf + p + i) (omega arith) (ground (arith, h, hi)) ∙ s.block h i k;
      }

  TbsStand-Agree :
      (tbs : List Tb) (at p : ℕ)
      → from ≤ at
      → at + 12 * length tbs ≤ buf
      → buf + tbs_end tbs p ≤ from + n
      → TbsStand shm buf m0 at tbs p m
      → TbsStand shm buf m0 at tbs p m'
  unfolding tbs_end
  TbsStand-Agree [] at p lo mid hi s = tt
  TbsStand-Agree (tb ∷ tbs) at p lo mid hi (s, ss) = (
    TbStands-Agree at p tb lo (omega arith) (omega (arith, hi, tbs_end-le tbs (tb_end tb p))) s,
    TbsStand-Agree tbs (at + 12) (tb_end tb p) (omega arith) (omega arith) hi ss,
  )

  PduStands-Agree :
      (pdu : TxPdu) (at p : ℕ)
      → from ≤ at
      → at + tx_pdu_size ≤ buf
      → pdu.num_segments ≤ 32
      → buf + tbs_end (used pdu) p ≤ from + n
      → PduStands shm buf m0 at pdu p m
      → PduStands shm buf m0 at pdu p m'
  PduStands-Agree pdu at p lo mid few hi s =
      let fits : buf ≤ from + n = omega (arith, hi, tbs_end-le (used pdu) p) in
      record {
        size = load32-Agree from n at same lo (omega (arith, fits)) ∙ s.size;
        index = load32-Agree from n (at + 4) same (omega arith) (omega (arith, fits)) ∙ s.index;
        segments =
            load32-Agree from n (at + 8) same (omega arith) (omega (arith, fits)) ∙ s.segments;
        members =
            TbsStand-Agree (used pdu) (at + 12) p (omega arith)
              (omega (arith, length-take_le pdu.num_segments pdu.tbs)) hi s.members;
      }

  pub PdusStand-Agree :
      (pdus : List TxPdu) (at p : ℕ)
      → from ≤ at
      → at + tx_pdu_size * length pdus ≤ buf
      → HaveTbs pdus
      → buf + pdus_end pdus p ≤ from + n
      → PdusStand shm buf m0 at pdus p m
      → PdusStand shm buf m0 at pdus p m'
  unfolding pdus_end
  PdusStand-Agree [] at p lo mid v hi s = tt
  PdusStand-Agree (pdu ∷ pdus) at p lo mid (few, _, v) hi (s, ss) =
      let q = tbs_end (used pdu) p in
      (
        PduStands-Agree pdu at p lo (omega arith) few (omega (arith, hi, pdus_end-le pdus q)) s,
        PdusStand-Agree pdus (at + tx_pdu_size) q (omega arith) (omega arith) v hi ss,
      )
