-- ===== src/Shm/Laws.antt =====
-- The two translations of addresses in the shared segment.
use enb_l1_b4860_ppc.Common.{ℕ, ◌+◌, ◌≤◌, ◌<◌, ◌≡◌, ◌⊎◌, true, some, arith, word_mod}
use enb_l1_b4860_ppc.Shm.{Shm, vtop, ptov, alloc, free}

-- The segment is attached, it is not at address 0, and both ranges fit in 32 bits.
pub record IsAttached (shm : Shm) : Type 0 where
  pub done : shm.init_done ≡ true
  pub vaddr_pos : 0 < shm.vaddr
  pub paddr_pos : 0 < shm.paddr
  pub vaddr_word : shm.vaddr + shm.size < word_mod
  pub paddr_word : shm.paddr + shm.size < word_mod

module _ {shm : Shm} (v : IsAttached shm) where
  -- Translating an address of the attached segment to the other side and back gives that address;
  -- both the segment's virtual and its physical range are meant, and their end counts as inside.
  pub ptov-vtop :
      (i : ℕ)
      → i ≤ shm.size
      → (ptov shm (vtop shm (shm.vaddr + i)) ≡ shm.vaddr + i)
        × (vtop shm (ptov shm (shm.paddr + i)) ≡ shm.paddr + i)
  unfolding vtop ptov
  ptov-vtop i h = ground (arith, v)

  -- An address outside of the segment has no translation.
  pub ptov-outside : (p : ℕ) → p < shm.paddr ⊎ shm.paddr + shm.size < p → ptov shm p ≡ 0
  unfolding ptov
  ptov-outside p h = ground (arith, v)

  -- What `shm_alloc` returns, for a block that the driver granted inside the segment, is freed at
  -- the physical address that the driver granted.
  pub free-alloc :
      (granted : ℕ → ℕ → ℕ) (size : ℕ)
      → shm.paddr ≤ granted size 0
      → granted size 0 + size ≤ shm.paddr + shm.size
      → free shm (alloc granted shm size) ≡ some (granted size 0)
  unfolding alloc free ptov vtop
  free-alloc granted size lo hi = ground (arith, v)
