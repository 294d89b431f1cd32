-- ===== src/Ipc/TxRequest/Laws.antt =====
-- What the DMA engine is made to do by a transmit request.
use enb_l1_b4860_ppc.Common.{
  ℕ, ◌+◌, ◌*◌, ◌%◌, ◌≤◌, ◌<◌, ◌≡◌, refl, sym, subst, Bool, true, ◌⊎◌, inl, inr, Bool-cases, List,
  arith, ◌==◌, leb, word_mod, mod-eq_of_lt, map,
}
use enb_l1_b4860_ppc.Channel.{Channel, initialized, advance_producer}
use enb_l1_b4860_ppc.Ipc.{Ipc, channel_at}
use enb_l1_b4860_ppc.Dma.{Dma, max_dma_entries, list_clear}
use enb_l1_b4860_ppc.Dma.Chain.{copy_of, follow}
use enb_l1_b4860_ppc.Ipc.TxRequest.Wanted.{wanted}
use enb_l1_b4860_ppc.Ipc.TxRequest.{
  SgEntry, TxState, TxCode, tx_success, store32, load32, lbuff, align32, tx_channel_not_found,
  tx_lock_failed, tx_producer_not_init, configure_txreq,
}

pub load32-store32 : (a v : ℕ) (mem : ℕ → ℕ) → v < word_mod → load32 a (store32 a v mem) ≡ v
unfolding load32 store32
load32-store32 a v mem h = ground arith

pub load32-store32_apart :
    (a b v : ℕ) (mem : ℕ → ℕ) → a + 4 ≤ b → load32 a (store32 b v mem) ≡ load32 a mem
unfolding load32 store32
load32-store32_apart a b v mem h = ground arith

align32-aligned : (a : ℕ) → a + 32 < word_mod → (align32 a % 32 ≡ 0) × (a ≤ align32 a)
unfolding align32
align32-aligned a h = (ground arith, ground arith)

module _ (lock : ℕ → Bool) (p2v : ℕ → ℕ) (channel_paddr : ℕ → ℕ) where
  abbrev counters_at : ℕ → Ipc → TxState → ℕ
  counters_at id ipc tx = p2v (lbuff tx (channel_at ipc id).bd_ring_size)

  -- What a transmit request that succeeds has done.
  abbrev pub Requests : ℕ → List SgEntry → Ipc → TxState → TxCode × Ipc × TxState → Type 0
  Requests id sgl ipc tx r =
      (r.0 ≡ tx_success)
      × (r.2.txreq_inprocess ≡ true)
      × (map copy_of (follow max_dma_entries r.2.udma r.2.udma.clndar)
          ≡ wanted (channel_paddr id) sgl (channel_at ipc id) tx)
      × (load32 (counters_at id ipc tx) r.1.memory
          ≡ (advance_producer (channel_at ipc id)).producer_num)
      × (load32 (counters_at id ipc tx + 4) r.1.memory
          ≡ (advance_producer (channel_at ipc id)).local_producer_num)

  abbrev pub Configures : ℕ → Ipc → TxState → TxCode × TxState → Type 0
  Configures id ipc tx r =
      (r.1 ≡ tx)
      ⊎ ((r.0 ≡ tx_success)
          × (r.1.udma.phys_addr % 32 ≡ 0)
          × (lbuff r.1 (channel_at ipc id).bd_ring_size + 12 ≤ r.1.udma.phys_addr)
          × (r.1.udma.clndar ≡ r.1.udma.phys_addr)
          × (r.1.udma.list_index ≡ 0))

  -- A configured list of descriptors lies at a multiple of 32, behind the words for the counters.
  pub configure_txreq-aligned :
      (id phys_addr max_size : ℕ) (engine : Dma) (ipc : Ipc) (tx : TxState)
      → (phys_addr + (channel_at ipc id).bd_ring_size * max_size) + 160 < word_mod
      → Configures id ipc tx
          (configure_txreq lock p2v channel_paddr id phys_addr max_size engine ipc tx)
  unfolding list_clear configure_txreq
  configure_txreq-aligned id phys_addr max_size engine ipc tx h =
      let C = configure_txreq lock p2v channel_paddr id phys_addr max_size engine ipc tx in
      elim (Bool-cases (leb ipc.max_channels id)) [
        | inl g ↦
            let eq : C ≡ (tx_channel_not_found, tx) = rw (configure_txreq, g) refl in
            subst (Configures id ipc tx) (sym eq) (inl refl)
        | inr g ↦ elim (Bool-cases (lock id)) [
          | inr l ↦
              let eq : C ≡ (tx_lock_failed, tx) = rw (configure_txreq, g, l) refl in
              subst (Configures id ipc tx) (sym eq) (inl refl)
          | inl l ↦ elim (Bool-cases ((channel_at ipc id).producer_initialized == initialized)) [
            | inr p ↦
                let eq : C ≡ (tx_producer_not_init, tx) = rw (configure_txreq, g, l, p) refl in
                subst (Configures id ipc tx) (sym eq) (inl refl)
            | inl p ↦
                let tx' = record tx {
                  txreq_tb_lbuff_paddr = phys_addr;
                  max_txreq_lbuff_size = max_size;
                } in
                let spare = (lbuff tx' (channel_at ipc id).bd_ring_size + 128) % word_mod in
                let eq : C ≡ (
                  tx_success,
                  record tx' {
                    udma = record (list_clear engine) {
                      phys_addr = align32 spare;
                      clndar = align32 spare;
                    };
                  },
                ) =
                  rw (configure_txreq, g, l, p) refl in
                let whole : lbuff tx' (channel_at ipc id).bd_ring_size
                    ≡ phys_addr + (channel_at ipc id).bd_ring_size * max_size =
                  mod-eq_of_lt (omega (arith, h)) in
                let (multiple, above) = align32-aligned spare (omega (arith, whole, h)) in
                subst (Configures id ipc tx) (sym eq)
                  (inr (refl, multiple, omega (arith, above, whole, h), refl, refl))
          ]
        ]
      ]
