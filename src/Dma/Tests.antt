-- ===== src/Dma/Tests.antt =====
-- A list of two descriptors.
use enb_l1_b4860_ppc.Common.{◌≡◌, refl, some, List, [], ◌∷◌, arith, map}
use enb_l1_b4860_ppc.Dma.{
  Dma, Entry, dma_success, max_dma_entries, list_clear, add_entries, is_busy, start,
}
use enb_l1_b4860_ppc.Dma.Chain.{follow, copy_of, start-follows}

abbrev engine : Dma
engine = record {
  list_index = 7;
  phys_addr = 0x2000;
  dma_list =
      λ i. record { sattr = 0; src = 0; dattr = 0; dest = 0; enlndar = 0; nlndar = 0; length = 0 };
  sr = 0;
  mr = 0;
  clndar = 0;
  eclndar = 0;
}

abbrev two : List Entry
two =
    record { src = 0x100; dest = 0x900000100; length = 64 }
    ∷ record { src = 0x300; dest = 0x400; length = 4 }
    ∷ []

start-follows_example :
    (d' : Dma) × (start (add_entries two (list_clear engine)) ≡ some (dma_success, d'))
    × (map copy_of (follow max_dma_entries d' d'.clndar)
        ≡ (0x100, 0x900000100, 64) ∷ (0x300, 0x400, 4) ∷ [])
unfolding is_busy
start-follows_example =
    start-follows two engine (omega arith) (omega arith) refl refl (omega arith)
      (omega arith, omega arith, (omega arith, omega arith, tt))
