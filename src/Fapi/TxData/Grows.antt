-- ===== src/Fapi/TxData/Grows.antt =====
-- The loops of a transmit request write upwards: words of the message, and data behind one another.
use enb_l1_b4860_ppc.Common.{
  ℕ, ◌+◌, ◌*◌, ◌/◌, ◌%◌, ◌≤◌, ◌<◌, ◌≡◌, inl, inr, List, [], ◌∷◌, arith, word_mod, ◌==◌,
  if◌then◌else◌, take,
}
use enb_l1_b4860_ppc.Allocator.Align.{clear_low}
use enb_l1_b4860_ppc.Ipc.{copy}
use enb_l1_b4860_ppc.Ipc.TxRequest.{store32}
use enb_l1_b4860_ppc.Fapi.Memory.{Agree, Agree-refl, Agree-trans, store32-Agree, copy-Agree}
use enb_l1_b4860_ppc.Fapi.Messages.{Tb, TxPdu}
use enb_l1_b4860_ppc.Fapi.TxData.{align8, align64}
use enb_l1_b4860_ppc.Fapi.Writes.{Writes, Writes-refl, Writes-trans, Writes-store32, Writes-copy}

-- The next multiple of 8.
abbrev pub up8 : ℕ → ℕ
up8 n = (n + 7) / 8 * 8

pub align8-eq : (n : ℕ) → n + 7 < word_mod → align8 n ≡ up8 n
unfolding align8
align8-eq n h =
    ground (arith, clear_low 29 3 ((n + 7) / 8) ((n + 7) % 8) (omega arith) (omega arith))

pub align64-eq : (n : ℕ) → n + 63 < word_mod → align64 n ≡ (n + 63) / 64 * 64
unfolding align64
align64-eq n h =
    ground (arith, clear_low 26 6 ((n + 63) / 64) ((n + 63) % 64) (omega arith) (omega arith))

-- How far the data of members, and of PDUs, reach.
unfoldable pub tb_end : Tb → ℕ → ℕ
tb_end tb p = if tb.tb_tag == 0 then p else p + up8 tb.tb_length

unfoldable pub tbs_end : List Tb → ℕ → ℕ
unfolding tb_end
tbs_end [] p = p
tbs_end (tb ∷ tbs) p = tbs_end tbs (tb_end tb p)

unfoldable pub pdus_end : List TxPdu → ℕ → ℕ
unfolding tbs_end
pdus_end [] p = p
pdus_end (pdu ∷ pdus) p = pdus_end pdus (tbs_end (take pdu.num_segments pdu.tbs) p)

pub tb_end-le : (tb : Tb) (p : ℕ) → p ≤ tb_end tb p
unfolding tb_end
tb_end-le tb p = ground arith

pub tbs_end-le : (tbs : List Tb) (p : ℕ) → p ≤ tbs_end tbs p
unfolding tbs_end
tbs_end-le [] p = omega arith
tbs_end-le (tb ∷ tbs) p = omega (arith, tb_end-le tb p, tbs_end-le tbs (tb_end tb p))

pub pdus_end-le : (pdus : List TxPdu) (p : ℕ) → p ≤ pdus_end pdus p
unfolding pdus_end
pdus_end-le [] p = omega arith
pdus_end-le (pdu ∷ pdus) p =
    let q = tbs_end (take pdu.num_segments pdu.tbs) p in
    omega (arith, tbs_end-le (take pdu.num_segments pdu.tbs) p, pdus_end-le pdus q)

-- Between two memories the message at `lo` changes, but nothing below `at`, and of the data that
-- start at `buf` nothing in the first `ptr` bytes.
pub record Grows (lo n buf at ptr : ℕ) (m m' : ℕ → ℕ) : Type 0 where
  pub writes : Writes lo n m m'
  pub below : (a k : ℕ) → a + k ≤ at → Agree a k m m'
  pub behind : (a k : ℕ) → buf ≤ a → a + k ≤ buf + ptr → Agree a k m m'

module _ (lo n buf : ℕ) where
  pub Grows-refl : (at ptr : ℕ) (m : ℕ → ℕ) → Grows lo n buf at ptr m m
  Grows-refl at ptr m = record {
    writes = Writes-refl lo n m;
    below = λ a k h. Agree-refl m a k;
    behind = λ a k l h. Agree-refl m a k;
  }

  pub Grows-trans :
      {at ptr at' ptr' : ℕ} {m m' m'' : ℕ → ℕ}
      → Grows lo n buf at ptr m m'
      → Grows lo n buf at' ptr' m' m''
      → at ≤ at'
      → ptr ≤ ptr'
      → Grows lo n buf at ptr m m''
  Grows-trans g g' ha hp = record {
    writes = Writes-trans lo n g.writes g'.writes;
    below = λ a k h. Agree-trans (g.below a k h) (g'.below a k (omega arith));
    behind = λ a k l h. Agree-trans (g.behind a k l h) (g'.behind a k l (omega arith));
  }

  -- A word of the message, and a block of data.
  pub Grows-store32 :
      (at ptr addr v : ℕ) (m : ℕ → ℕ)
      → lo ≤ at
      → at ≤ addr
      → addr + 4 ≤ buf
      → buf ≤ lo + n
      → Grows lo n buf at ptr m (store32 addr v m)
  Grows-store32 at ptr addr v m h1 h2 h3 h4 = record {
    writes = Writes-store32 lo n m addr v (omega arith) (omega arith);
    below = λ a k h. store32-Agree m addr v a k (inl (omega arith));
    behind = λ a k l h. store32-Agree m addr v a k (inr (omega arith));
  }

  pub Grows-copy :
      (at ptr src k : ℕ) (m : ℕ → ℕ)
      → lo ≤ buf
      → at ≤ buf
      → buf + ptr + k ≤ lo + n
      → Grows lo n buf at ptr m (copy m (buf + ptr) src k)
  Grows-copy at ptr src l m h1 h2 h3 = record {
    writes = Writes-copy lo n m (buf + ptr) src l (omega arith) (omega arith);
    below = λ a k h. copy-Agree m (buf + ptr) src l a k (inl (omega arith));
    behind = λ a k b h. copy-Agree m (buf + ptr) src l a k (inl (omega arith));
  }
