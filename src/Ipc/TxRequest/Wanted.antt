-- ===== src/Ipc/TxRequest/Wanted.antt =====
-- What the DMA engine is to copy for a transmit request of fsl_ipc_channel.c, from its parts and the
-- layout of the buffers.
use enb_l1_b4860_ppc.Common.{
  ℕ, ◌+◌, ◌*◌, ◌%◌, ◌≤◌, ◌<◌, ◌≡◌, refl, subst, inl, inr, Bool-cases, List, arith, length, word_mod,
  [], ◌∷◌, ◌++◌, map, ◌^◌, ap, if◌then◌else◌,
}
use enb_l1_b4860_ppc.Channel.{
  Channel, Indication, virtual_int, pa_mpic, dsp_mesh, dsp_mpic_msi, no_int,
}
use enb_l1_b4860_ppc.Ipc.{gcr_offset}
use enb_l1_b4860_ppc.Dma.{Entry, max_dma_entries}
use enb_l1_b4860_ppc.Dma.Chain.{Copy, asked, AreReachable}
use enb_l1_b4860_ppc.Ipc.TxRequest.{SgEntry, TxState, gather, if_virtual_int}

-- The parts of a request: those before the first that is not valid.
unfoldable pub parts_of : List SgEntry → List SgEntry
parts_of [] = []
parts_of (e ∷ es) = let rest = parts_of es in if e.is_valid then e ∷ rest else []

abbrev pub bytes : List SgEntry → ℕ
bytes [] = 0
bytes (e ∷ es) = e.len + bytes es

-- Parts that lie one behind the other from an address on.
abbrev pub placed : ℕ → List SgEntry → List Copy
placed addr [] = []
placed addr (e ∷ es) = (e.src_addr, addr, e.len) ∷ placed (addr + e.len) es

abbrev pub AreSources : List SgEntry → Type 0
AreSources [] = Unit
AreSources (e ∷ es) = (e.src_addr < 2 ^ 32) × AreSources es

-- Buffer `n` of those for the data.
abbrev pub buffer : TxState → ℕ → ℕ
buffer tx n = tx.txreq_tb_lbuff_paddr + n * tx.max_txreq_lbuff_size

-- What the engine is to copy for a request, on a channel at `paddr`.
abbrev pub wanted : ℕ → List SgEntry → Channel → TxState → List Copy
wanted paddr sgl ch tx =
    let spare = buffer tx ch.bd_ring_size in
    placed (buffer tx ch.local_producer_num) (parts_of sgl)
    ++ ((spare, paddr + 16, 4)
        ∷ (spare + 4, paddr + 60, 4)
        ∷ if_virtual_int ch.ipc_ind
            ((spare + 8, tx.dsp_ccsr_phys + gcr_offset + ch.ind_offset, 4) ∷ []) [])

-- The engine has descriptors for all of it and reaches the addresses.
pub record IsPlaced (paddr : ℕ) (sgl : List SgEntry) (ch : Channel) (tx : TxState) : Type 0 where
  pub few : length (parts_of sgl) + 3 ≤ max_dma_entries
  pub sources : AreSources (parts_of sgl)
  pub buffered : buffer tx ch.local_producer_num + bytes (parts_of sgl) < 2 ^ 32
  pub spare : buffer tx ch.bd_ring_size + 12 < 2 ^ 32
  pub counters : paddr + 64 < 2 ^ 36
  pub indication : tx.dsp_ccsr_phys + gcr_offset + ch.ind_offset < 2 ^ 36

pub gather-placed :
    (addr : ℕ) (es : List SgEntry)
    → addr + bytes (parts_of es) < 2 ^ 32
    → AreSources (parts_of es)
    → (map asked (gather addr es) ≡ placed addr (parts_of es))
      × AreReachable (gather addr es)
      × (length (gather addr es) ≡ length (parts_of es))
unfolding gather parts_of
gather-placed addr [] h s = (refl, tt, refl)
gather-placed addr (e ∷ es) h s = elim (Bool-cases e.is_valid) [
  | inr x ↦ rw x (refl, tt, refl)
  | inl x ↦
      let some_more : parts_of (e ∷ es) ≡ e ∷ parts_of es = rw (parts_of, x) refl in
      let src = (subst AreSources some_more s).0 in
      let room : addr + (e.len + bytes (parts_of es)) < 2 ^ 32 =
        subst (λ l. addr + bytes l < 2 ^ 32) some_more h in
      let next : (addr + e.len) % word_mod ≡ addr + e.len = omega (arith, room) in
      let (a, b, c) =
        gather-placed (addr + e.len) es (omega (arith, room)) (subst AreSources some_more s).1 in
      rw (x, next)
        (ap (λ l. (e.src_addr, addr, e.len) ∷ l) a, (src, omega (arith, room), b), omega (arith, c))
]

pub AreReachable-append :
    (xs ys : List Entry) → AreReachable xs → AreReachable ys → AreReachable (xs ++ ys)
AreReachable-append [] ys h k = k
AreReachable-append (x ∷ xs) ys (s, t, h) k = (s, t, AreReachable-append xs ys h k)

-- The entries behind the parts: two words, and a third with a virtual interrupt.
abbrev pub word_entries : Indication → ℕ → ℕ → ℕ → ℕ → ℕ → ℕ → List Entry
word_entries i s s4 s8 to to' ind =
    record { src = s; dest = to; length = 4 }
    ∷ record { src = s4; dest = to'; length = 4 }
    ∷ if_virtual_int i (record { src = s8; dest = ind; length = 4 } ∷ []) []

pub word_entries-asked :
    (i : Indication) (s s4 s8 to to' ind : ℕ)
    → (s < 2 ^ 32) × (s4 < 2 ^ 32) × (s8 < 2 ^ 32)
    → (to < 2 ^ 36) × (to' < 2 ^ 36) × (ind < 2 ^ 36)
    → (map asked (word_entries i s s4 s8 to to' ind)
        ≡ (s, to, 4) ∷ (s4, to', 4) ∷ if_virtual_int i ((s8, ind, 4) ∷ []) [])
      × AreReachable (word_entries i s s4 s8 to to' ind)
      × (length (word_entries i s s4 s8 to to' ind) ≤ 3)
word_entries-asked virtual_int s s4 s8 to to' ind (a, b, c) (d, e, f) =
    (refl, (a, d, (b, e, (c, f, tt))), omega arith)
word_entries-asked pa_mpic s s4 s8 to to' ind (a, b, c) (d, e, f) =
    (refl, (a, d, (b, e, tt)), omega arith)
word_entries-asked dsp_mesh s s4 s8 to to' ind (a, b, c) (d, e, f) =
    (refl, (a, d, (b, e, tt)), omega arith)
word_entries-asked dsp_mpic_msi s s4 s8 to to' ind (a, b, c) (d, e, f) =
    (refl, (a, d, (b, e, tt)), omega arith)
word_entries-asked no_int s s4 s8 to to' ind (a, b, c) (d, e, f) =
    (refl, (a, d, (b, e, tt)), omega arith)
