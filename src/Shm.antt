-- ===== src/Shm.antt =====
-- b4860/libb4860/fsl_shm/lib/lg_shm.c: the addresses of the shared segment, and allocation in it.
-- Pointers have 32 bits, and 0 is NULL. Taken as parameters are what the driver answers: `granted`,
-- the physical address that the ioctl for an allocation stores, by size and alignment.
pub mod Laws
pub mod Driver
mod Tests
use enb_l1_b4860_ppc.Common.{
  ℕ, ◌+◌, ◌-◌, ◌%◌, ◌^◌, Bool, true, false, not, ◌||◌, Option, none, some, ◌==◌, if◌then◌else◌, ltb,
  word_mod,
}

-- `shm_seg_t shm`, with `shm_init_done`
pub record Shm : Type 0 where
  pub init_done : Bool
  pub vaddr : ℕ
  pub paddr : ℕ
  pub size : ℕ

unfoldable pub vtop : Shm → ℕ → ℕ
vtop shm ptr =
    if not shm.init_done
    then 0
    else if (ptr == 0 || ltb ptr shm.vaddr) || ltb ((shm.vaddr + shm.size) % 2 ^ 64) ptr
    then 0
    else (shm.paddr + (ptr - shm.vaddr)) % word_mod

unfoldable pub ptov : Shm → ℕ → ℕ
ptov shm ptr =
    if not shm.init_done
    then 0
    else if (ptr == 0 || ltb ptr shm.paddr) || ltb ((shm.paddr + shm.size) % 2 ^ 64) ptr
    then 0
    else (shm.vaddr + (ptr - shm.paddr)) % word_mod

module _ (granted : ℕ → ℕ → ℕ) where
  -- `shm_memalign`
  unfoldable pub memalign : Shm → ℕ → ℕ → ℕ
  unfolding ptov
  memalign shm size align =
      if not shm.init_done then 0 else ptov shm (granted size align % word_mod)

  -- `shm_alloc`, whose request has no alignment.
  unfoldable pub alloc : Shm → ℕ → ℕ
  unfolding ptov
  alloc shm size = if not shm.init_done then 0 else ptov shm (granted size 0 % word_mod)

-- `shm_free`: the physical address that it asks the driver to free, if any.
unfoldable pub free : Shm → ℕ → Option ℕ
unfolding vtop
free shm ptr = if vtop shm ptr == 0 then none else some (vtop shm ptr)
