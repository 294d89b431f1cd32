-- ===== src/Fapi/TxData/Stand.antt =====
-- What the loops of a transmit request leave in memory for each PDU and member.
use enb_l1_b4860_ppc.Common.{
  ℕ, ◌+◌, ◌*◌, ◌≤◌, ◌<◌, ◌≡◌, ◌≢◌, inl, inr, subst, ◌∙◌, Bool-cases, List, [], ◌∷◌, arith, word_mod,
  ◌==◌, length,
}
use enb_l1_b4860_ppc.Ipc.{copy}
use enb_l1_b4860_ppc.Ipc.Message.{copy_inside}
use enb_l1_b4860_ppc.Ipc.TxRequest.{store32, load32}
use enb_l1_b4860_ppc.Ipc.TxRequest.Laws.{load32-store32}
use enb_l1_b4860_ppc.Shm.{Shm, vtop}
use enb_l1_b4860_ppc.Fapi.{ipc_v2p}
use enb_l1_b4860_ppc.Fapi.Memory.{
  Apart, Agree, Agree-trans, load32-Agree, load32-store32_ne, store32-Agree, store32-outside,
  copy-Agree,
}
use enb_l1_b4860_ppc.Fapi.Messages.{Tb}
use enb_l1_b4860_ppc.Fapi.TxData.{copy_tb, copy_tbs}
use enb_l1_b4860_ppc.Fapi.TxData.Grows.{up8, tb_end, tbs_end, tbs_end-le, Grows}
use enb_l1_b4860_ppc.Fapi.TxData.Loops.{copy_tb-Round, copy_tbs-Round}

-- A member's fields are words, and its data stand apart from the area of `n` bytes at `lo`.
abbrev pub IsSource : ℕ → ℕ → Tb → Type 0
IsSource lo n tb =
    (tb.tb_tag < word_mod)
    × (tb.tb_length < word_mod)
    × (tb.tb_data < word_mod)
    × Apart tb.tb_data tb.tb_length lo n

abbrev pub AreSources : ℕ → ℕ → List Tb → Type 0
AreSources lo n [] = Unit
AreSources lo n (tb ∷ tbs) = IsSource lo n tb × AreSources lo n tbs

module _ (shm : Shm) (buf : ℕ) (m0 : ℕ → ℕ) where
  -- The member at `at`, with its block of data `p` bytes behind `buf` if it has a tag.
  pub record TbStands (at : ℕ) (tb : Tb) (p : ℕ) (m : ℕ → ℕ) : Type 0 where
    pub tag : load32 at m ≡ tb.tb_tag
    pub size : load32 (at + 4) m ≡ tb.tb_length
    pub pointer : tb.tb_tag ≡ 0 → load32 (at + 8) m ≡ tb.tb_data
    pub address : tb.tb_tag ≢ 0 → load32 (at + 8) m ≡ ipc_v2p shm (buf + p)
    pub block : tb.tb_tag ≢ 0 → (i : ℕ) → i < tb.tb_length → m (buf + p + i) ≡ m0 (tb.tb_data + i)

  -- The members from `at` on.
  abbrev pub TbsStand : ℕ → List Tb → ℕ → (ℕ → ℕ) → Type 0
  TbsStand at [] p m = Unit
  TbsStand at (tb ∷ tbs) p m = TbStands at tb p m × TbsStand (at + 12) tbs (tb_end tb p) m

-- A physical address of the segment is a word.
ipc_v2p-word : (shm : Shm) (a : ℕ) → ipc_v2p shm a < word_mod
unfolding ipc_v2p vtop
ipc_v2p-word shm a = ground arith

module _ (shm : Shm) (lo n buf : ℕ) (low : lo ≤ buf) (word : n + 7 < word_mod) (m0 : ℕ → ℕ) where
  copy_tb-Stands :
      (at ptr : ℕ) (tb : Tb) (m : ℕ → ℕ)
      → lo ≤ at
      → at + 12 ≤ buf
      → buf + tb_end tb ptr ≤ lo + n
      → IsSource lo n tb
      → Agree tb.tb_data tb.tb_length m0 m
      → TbStands shm buf m0 at tb ptr (copy_tb shm buf at tb ptr m).1
  unfolding copy_tb tb_end
  copy_tb-Stands at ptr tb m h1 h2 h3 (ht, hl, hd, apart) same =
      let tagged = store32 at tb.tb_tag m in
      let m1 = store32 (at + 4) tb.tb_length tagged in
      let tag1 : load32 at m1 ≡ tb.tb_tag =
        load32-store32_ne at (at + 4) tb.tb_length tagged (omega arith)
        ∙ load32-store32 at tb.tb_tag m ht in
      let size1 = load32-store32 (at + 4) tb.tb_length tagged hl in
      elim (Bool-cases (tb.tb_tag == 0)) [
        | inl e ↦ rw e (record {
          tag = load32-store32_ne at (at + 8) tb.tb_data m1 (omega arith) ∙ tag1;
          size = load32-store32_ne (at + 4) (at + 8) tb.tb_data m1 (omega arith) ∙ size1;
          pointer = λ _. load32-store32 (at + 8) tb.tb_data m1 hd;
          address = λ h. absurd (h (ground arith));
          block = λ h. absurd (h (ground arith));
        })
        | inr e ↦
            let m2 = copy m1 (buf + ptr) tb.tb_data tb.tb_length in
            let v = ipc_v2p shm (buf + ptr) in
            let fit : buf + (ptr + up8 tb.tb_length) ≤ lo + n = ground (arith, h3) in
            let head = copy-Agree m1 (buf + ptr) tb.tb_data tb.tb_length at 8 (inl (omega arith)) in
            let src = Agree-trans same (
              Agree-trans
                (store32-Agree m at tb.tb_tag tb.tb_data tb.tb_length (ground (arith, fit, apart)))
                (store32-Agree tagged (at + 4) tb.tb_length tb.tb_data tb.tb_length
                  (ground (arith, fit, apart)))) in
            rw e (record {
              tag =
                  load32-store32_ne at (at + 8) v m2 (omega arith)
                  ∙ load32-Agree at 8 at head (omega arith) (omega arith)
                  ∙ tag1;
              size =
                  load32-store32_ne (at + 4) (at + 8) v m2 (omega arith)
                  ∙ load32-Agree at 8 (at + 4) head (omega arith) (omega arith)
                  ∙ size1;
              pointer = λ h. absurd (ground arith);
              address = λ _. load32-store32 (at + 8) v m2 (ipc_v2p-word shm (buf + ptr));
              block = λ _ i h.
                  store32-outside m2 (at + 8) v (buf + ptr + i) (inr (omega arith))
                  ∙ copy_inside m1 (buf + ptr) tb.tb_data tb.tb_length i h
                  ∙ src.same (tb.tb_data + i) (omega arith) (omega arith);
            })
      ]

  -- Later rounds leave a member as it is.
  TbStands-Grows :
      (at p at' p' : ℕ) (tb : Tb) (m m' : ℕ → ℕ)
      → Grows lo n buf at' p' m m'
      → at + 12 ≤ at'
      → tb_end tb p ≤ p'
      → TbStands shm buf m0 at tb p m
      → TbStands shm buf m0 at tb p m'
  unfolding tb_end
  TbStands-Grows at p at' p' tb m m' g ha hp s =
      let w = g.below at 12 ha in
      record {
        tag = load32-Agree at 12 at w (omega arith) (omega arith) ∙ s.tag;
        size = load32-Agree at 12 (at + 4) w (omega arith) (omega arith) ∙ s.size;
        pointer = λ h. load32-Agree at 12 (at + 8) w (omega arith) (omega arith) ∙ s.pointer h;
        address = λ h. load32-Agree at 12 (at + 8) w (omega arith) (omega arith) ∙ s.address h;
        block = λ h i k.
            (g.behind (buf + p) tb.tb_length (omega arith) (ground (arith, h, hp))).same
              (buf + p + i) (omega arith) (omega arith)
            ∙ s.block h i k;
      }

  pub TbsStand-Grows :
      (tbs : List Tb) (at p at' p' : ℕ) (m m' : ℕ → ℕ)
      → Grows lo n buf at' p' m m'
      → at + 12 * length tbs ≤ at'
      → tbs_end tbs p ≤ p'
      → TbsStand shm buf m0 at tbs p m
      → TbsStand shm buf m0 at tbs p m'
  unfolding tbs_end
  TbsStand-Grows [] at p at' p' m m' g ha hp s = tt
  TbsStand-Grows (tb ∷ tbs) at p at' p' m m' g ha hp (s, ss) =
      let rest = tbs_end-le tbs (tb_end tb p) in
      (
        TbStands-Grows at p at' p' tb m m' g (omega arith) (omega (arith, rest, hp)) s,
        TbsStand-Grows tbs (at + 12) (tb_end tb p) at' p' m m' g (omega arith) hp ss,
      )

  -- The sources are as they were.
  abbrev pub AreKept : List Tb → (ℕ → ℕ) → Type 0
  AreKept [] m = Unit
  AreKept (tb ∷ tbs) m = Agree tb.tb_data tb.tb_length m0 m × AreKept tbs m

  pub AreKept-Grows :
      (tbs : List Tb) (at p : ℕ) (m m' : ℕ → ℕ)
      → Grows lo n buf at p m m'
      → AreSources lo n tbs
      → AreKept tbs m
      → AreKept tbs m'
  AreKept-Grows [] at p m m' g a k = tt
  AreKept-Grows (tb ∷ tbs) at p m m' g ((_, _, _, apart), a) (k, ks) = (
    Agree-trans k (g.writes.inside tb.tb_data tb.tb_length apart),
    AreKept-Grows tbs at p m m' g a ks,
  )

  pub copy_tbs-Stand :
      (tbs : List Tb) (at ptr : ℕ) (m : ℕ → ℕ)
      → lo ≤ at
      → at + 12 * length tbs ≤ buf
      → buf + tbs_end tbs ptr ≤ lo + n
      → AreSources lo n tbs
      → AreKept tbs m
      → TbsStand shm buf m0 at tbs ptr (copy_tbs shm buf at tbs ptr m).1
  unfolding copy_tbs tbs_end
  copy_tbs-Stand [] at ptr m h1 h2 h3 a k = tt
  copy_tbs-Stand (tb ∷ tbs) at ptr m h1 h2 h3 (a, others) (k, ks) =
      let r = copy_tb shm buf at tb ptr m in
      let rest = tbs_end-le tbs (tb_end tb ptr) in
      let fit : buf + tb_end tb ptr ≤ lo + n = omega (arith, rest, h3) in
      let (p, g) = copy_tb-Round shm lo n buf low word at ptr tb m h1 (omega arith) fit in
      let (p', g') =
        copy_tbs-Round shm lo n buf low word tbs (at + 12) r.0 r.1 (omega arith) (omega arith)
          (rw p h3) in
      let now = copy_tb-Stands at ptr tb m h1 (omega arith) fit a k in
      let later =
        copy_tbs-Stand tbs (at + 12) r.0 r.1 (omega arith) (omega arith) (rw p h3) others
          (AreKept-Grows tbs at ptr m r.1 g others ks) in
      (
        TbStands-Grows at ptr (at + 12) r.0 tb r.1 _ g' (omega arith) (omega (arith, p)) now,
        subst (λ q. TbsStand shm buf m0 (at + 12) tbs q (copy_tbs shm buf (at + 12) tbs r.0 r.1).1)
            p later,
      )
