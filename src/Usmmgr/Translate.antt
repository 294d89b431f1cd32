-- ===== src/Usmmgr/Translate.antt =====
-- Addresses: `fsl_usmmgr_p2v`, and the ranges that `fsl_usmmgr_alloc` fills in.
use enb_l1_b4860_ppc.Common.{
  ℕ, ◌+◌, ◌-◌, ◌%◌, ◌≤◌, ◌<◌, ◌≡◌, ◌≢◌, refl, ◌⊎◌, true, false, List, [], ◌∷◌, ◌++◌, arith,
  word_mod,
}
use enb_l1_b4860_ppc.Shm.{Shm, vtop, ptov, alloc}
use enb_l1_b4860_ppc.Shm.Laws.{IsAttached, ptov-outside}
use enb_l1_b4860_ppc.Usmmgr.{MemRange, Usmmgr, within, search_map, usmmgr_p2v, usmmgr_alloc}

-- No range of the list has the address.
unfoldable pub NoneWithin : List MemRange → ℕ → Type 0
NoneWithin [] p = Unit
NoneWithin (r ∷ rs) p = (within r p ≡ false) × NoneWithin rs p

search_map-none : (rs : List MemRange) (p v : ℕ) → NoneWithin rs p → search_map rs p v ≡ v
unfolding search_map NoneWithin
search_map-none [] p v h = refl
search_map-none (r ∷ rs) p v (out, h) = rw out (search_map-none rs p v h)

search_map-last :
    (xs : List MemRange) (r : MemRange) (ys : List MemRange) (p v : ℕ)
    → within r p ≡ true
    → NoneWithin ys p
    → search_map (xs ++ (r ∷ ys)) p v ≡ ((p - r.phys_addr) % word_mod + r.vaddr) % word_mod
unfolding search_map
search_map-last [] r ys p v h n = rw (search_map, h) (search_map-none ys p _ n)
search_map-last (x ∷ xs) r ys p v h n = search_map-last xs r ys p _ h n

module _ {shm : Shm} (v : IsAttached shm) where
  -- An address outside of the attached segment is translated by the last range of the map that has
  -- it: the result is that range's virtual address plus the offset, with 32 bits.
  pub usmmgr_p2v-last :
      (m : Usmmgr) (xs : List MemRange) (r : MemRange) (ys : List MemRange) (p : ℕ)
      → m.map ≡ xs ++ (r ∷ ys)
      → within r p ≡ true
      → NoneWithin ys p
      → (p < shm.paddr) ⊎ (shm.paddr + shm.size < p)
      → usmmgr_p2v shm m p ≡ ((p - r.phys_addr) % word_mod + r.vaddr) % word_mod
  unfolding usmmgr_p2v
  usmmgr_p2v-last m xs r ys p e h n out =
      rw e (ground (arith, ptov-outside v p out, search_map-last xs r ys p 0 h n))

  -- When the driver grants a block inside the attached segment, `fsl_usmmgr_alloc` succeeds with
  -- the granted physical address, and `fsl_usmmgr_p2v` translates that to the virtual address that
  -- was filled in, whatever is mapped.
  pub usmmgr_alloc-p2v :
      (granted : ℕ → ℕ → ℕ) (m : Usmmgr) (r : MemRange)
      → r.size ≢ 0
      → shm.paddr ≤ granted r.size 0
      → granted r.size 0 + r.size ≤ shm.paddr + shm.size
      → (let (ok, r') = usmmgr_alloc granted shm r in
          (ok ≡ true)
          × (r'.phys_addr ≡ granted r.size 0)
          × (r'.size ≡ r.size)
          × (usmmgr_p2v shm m r'.phys_addr ≡ r'.vaddr))
  unfolding usmmgr_alloc usmmgr_p2v alloc vtop ptov
  usmmgr_alloc-p2v granted m r some_size lo hi =
      (ground (arith, v), ground (arith, v), ground (arith, v), ground (arith, v))
