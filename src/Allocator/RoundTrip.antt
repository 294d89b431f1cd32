-- ===== src/Allocator/RoundTrip.antt =====
-- Freeing a block at once takes back what allocating it did.
use enb_l1_b4860_ppc.Common.{
  ℕ, ◌+◌, ◌≤◌, ◌<◌, ◌≡◌, ◌≢◌, ap, sym, subst, ◌∙◌, Bool, none, arith, ◌⊎◌, inl, inr,
}
use enb_l1_b4860_ppc.Allocator.Defs.{Area, Mm}
use enb_l1_b4860_ppc.Allocator.Ops.{alloc, free}
use enb_l1_b4860_ppc.Allocator.Weights.{same, same_self}
use enb_l1_b4860_ppc.Allocator.State.{Holds}
use enb_l1_b4860_ppc.Allocator.Splice.{live, place-bounds}
use enb_l1_b4860_ppc.Allocator.Alloc.{alloc-Allocates}
use enb_l1_b4860_ppc.Allocator.Live.{place_of_live, live_unique}
use enb_l1_b4860_ppc.Allocator.Free.{Frees, at_address, free-Frees}

-- The block that was added is the one that is freed.
freed :
    (mm mm' : Mm) (b : Area)
    → Holds none mm'
    → ((w : Area → ℕ) → live w mm' ≡ w b + live w mm)
    → Frees b.address mm' (free b.address mm')
    → Holds none (free b.address mm') × ((w : Area → ℕ) → live w (free b.address mm') ≡ live w mm)
unfolding at_address
freed mm mm' b v adds (inl (absent, same_mm)) =
    absurd (ground (arith, absent, adds (at_address b.address)))
freed mm mm' b v adds (inr (a, at, holds, segment, fewer, taken)) =
    let b_live : 0 < live (same b) mm' = omega (arith, adds (same b), same_self b) in
    let a_live : 0 < live (same a) mm' = omega (arith, taken (same a), same_self a) in
    let eq = live_unique v b a b_live a_live at in
    (holds, λ w. omega (arith, taken w, adds w, ap w eq))

-- What an allocation returns, if it is not NULL, lies in the segment with the size that was asked for,
-- and freeing it leaves the areas allocated that were allocated before.
pub free-alloc_areas :
    (kmalloc : ℕ → ℕ → Bool) (size : ℕ) (mm : Mm)
    → Holds none mm
    → (alloc kmalloc size mm ≡ (0, mm))
      ⊎ ((mm.psa ≤ (alloc kmalloc size mm).0)
          × (0 < size)
          × ((alloc kmalloc size mm).0 + size ≤ mm.psa + mm.shm_size)
          × Holds none (free (alloc kmalloc size mm).0 (alloc kmalloc size mm).1)
          × ((w : Area → ℕ)
              → live w (free (alloc kmalloc size mm).0 (alloc kmalloc size mm).1) ≡ live w mm))
free-alloc_areas kmalloc size mm v = elim (alloc-Allocates kmalloc size v) [
  | inl h ↦ inl h
  | inr (b, at, sized, holds, segment, fewer, adds) ↦
      let (lo, pos, hi) =
        place-bounds holds (place_of_live holds b (omega (arith, adds (same b), same_self b))) in
      let r = alloc kmalloc size mm in
      let nonzero : b.address ≢ 0 = λ z. absurd (omega (arith, z, lo, holds.psa_pos)) in
      let (f, eq) = freed mm r.1 b holds adds (free-Frees b.address r.1 nonzero holds) in
      let same_free : free r.0 r.1 ≡ free b.address r.1 = ap (λ k. free k r.1) at in
      inr (
        omega (arith, lo, at, segment),
        omega (arith, pos, sized),
        omega (arith, hi, at, sized, segment),
        subst (Holds none) (sym same_free) f,
        λ w. ap (live w) same_free ∙ eq w,
      )
]
