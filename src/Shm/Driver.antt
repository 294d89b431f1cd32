-- ===== src/Shm/Driver.antt =====
-- The library of the shared segment on top of the driver: the ioctls of lg_shm.c answered by the
-- allocator of fsl_shm.c.
use enb_l1_b4860_ppc.Common.{
  ℕ, ◌+◌, ◌-◌, ◌≤◌, ◌≡◌, refl, ap, sym, subst, ◌∙◌, Bool, true, none, some, arith, ◌==◌, ◌⊎◌, inl,
  inr, ◌%◌, Bool-cases, word_mod,
}
use enb_l1_b4860_ppc.Shm.{Shm, ptov, alloc, free}
use enb_l1_b4860_ppc.Shm.Laws.{IsAttached, free-alloc}
use enb_l1_b4860_ppc.Allocator.Defs.{Area, Mm}
use enb_l1_b4860_ppc.Allocator.Ops
use enb_l1_b4860_ppc.Allocator.State.{Holds}
use enb_l1_b4860_ppc.Allocator.Splice.{live}
use enb_l1_b4860_ppc.Allocator.RoundTrip.{free-alloc_areas}

-- The address that the driver stores in a request, and its state after IOCTL_FSL_SHM_ALLOC.
abbrev pub granted : (ℕ → ℕ → Bool) → Mm → ℕ → ℕ → ℕ
granted kmalloc mm size align = (Ops.memalign kmalloc size align mm).0

-- What `shm_free` makes of the driver.
unfoldable pub free_through : Shm → ℕ → Mm → Mm
free_through shm ptr mm = elim (free shm ptr) [ none ↦ mm | some a ↦ Ops.free a mm ]

ptov-zero : (shm : Shm) → ptov shm 0 ≡ 0
unfolding ptov
ptov-zero shm = ground arith

alloc-ptov :
    (grants : ℕ → ℕ → ℕ) (shm : Shm) (size : ℕ)
    → shm.init_done ≡ true
    → alloc grants shm size ≡ ptov shm (grants size 0 % word_mod)
unfolding alloc
alloc-ptov grants shm size h = ground arith

free_through-some :
    (shm : Shm) (ptr a : ℕ) (mm : Mm)
    → free shm ptr ≡ some a
    → free_through shm ptr mm ≡ Ops.free a mm
unfolding free_through
free_through-some shm ptr a mm h = rw (free_through, h) refl

module _ (kmalloc : ℕ → ℕ → Bool) {shm : Shm} {mm : Mm} (attached : IsAttached shm)
    (v : Holds none mm) (same_paddr : shm.paddr ≡ mm.psa) (same_size : shm.size ≡ mm.shm_size) where
  abbrev result : ℕ → ℕ × Mm
  result size = Ops.memalign kmalloc size 0 mm

  result-alloc : (size : ℕ) → result size ≡ Ops.alloc kmalloc size mm
  unfolding Ops.memalign
  result-alloc size = elim (Bool-cases (size == 0)) [ inl h ↦ rw (h) refl | inr h ↦ rw (h) refl ]

  at_alloc :
      (size : ℕ)
      → alloc (granted kmalloc mm) shm size ≡ ptov shm ((Ops.alloc kmalloc size mm).0 % word_mod)
  at_alloc size =
      alloc-ptov (granted kmalloc mm) shm size attached.done
      ∙ ap (λ (r : ℕ × Mm). ptov shm (r.0 % word_mod)) (result-alloc size)

  ptov-inside :
      (a : ℕ)
      → shm.paddr ≤ a
      → a ≤ shm.paddr + shm.size
      → ptov shm (a % word_mod) ≡ shm.vaddr + (a - shm.paddr)
  unfolding ptov
  ptov-inside a lo hi = ground (arith, attached)

  -- If the library is attached to the driver's segment, shm_alloc returns NULL and the driver is
  -- unchanged, or the size that was asked for lies in the attached segment from what it returns on,
  -- and shm_free of that leaves the driver's areas allocated that were allocated before.
  pub alloc-through_driver :
      (size : ℕ)
      → ((alloc (granted kmalloc mm) shm size ≡ 0) × (result size ≡ (0, mm)))
        ⊎ ((shm.vaddr ≤ alloc (granted kmalloc mm) shm size)
            × (alloc (granted kmalloc mm) shm size + size ≤ shm.vaddr + shm.size)
            × Holds none (free_through shm (alloc (granted kmalloc mm) shm size) (result size).1)
            × ((w : Area → ℕ)
                → live w (free_through shm (alloc (granted kmalloc mm) shm size) (result size).1)
                  ≡ live w mm))
  alloc-through_driver size = elim (free-alloc_areas kmalloc size mm v) [
    | inl h ↦
        let none_granted = ap (λ (r : ℕ × Mm). ptov shm (r.0 % word_mod)) h in
        inl (at_alloc size ∙ none_granted ∙ ptov-zero shm, result-alloc size ∙ h)
    | inr (lo, pos, hi, holds, kept) ↦
        let a = (Ops.alloc kmalloc size mm).0 in
        let p =
          ptov-inside a (omega (arith, lo, same_paddr))
            (omega (arith, hi, same_paddr, same_size)) in
        let where_at = at_alloc size ∙ p in
        let eq = ap (λ (r : ℕ × Mm). r.0) (result-alloc size) in
        let back =
          free-alloc attached (granted kmalloc mm) size (omega (arith, lo, same_paddr, eq))
            (omega (arith, hi, same_paddr, same_size, eq)) in
        let freed : free_through shm (alloc (granted kmalloc mm) shm size) (result size).1
            ≡ Ops.free (Ops.alloc kmalloc size mm).0 (Ops.alloc kmalloc size mm).1 =
          free_through-some shm (alloc (granted kmalloc mm) shm size) (granted kmalloc mm size 0)
            (result size).1 back
          ∙ ap (λ (r : ℕ × Mm). Ops.free r.0 r.1) (result-alloc size) in
        inr (
          omega (arith, where_at),
          omega (arith, where_at, hi, lo, same_paddr, same_size),
          subst (Holds none) (sym freed) holds,
          λ w. ap (live w) freed ∙ kept w,
        )
  ]
