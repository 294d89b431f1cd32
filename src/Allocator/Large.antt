-- ===== src/Allocator/Large.antt =====
-- Requests for more than MAX_FREE_SIZE_LIST, which the last list serves: NULL means that no free area
-- is large enough.
use enb_l1_b4860_ppc.Common.{
  ℕ, ◌+◌, ◌^◌, ◌≤◌, ◌<◌, ◌≡◌, refl, ap, ◌∙◌, Bool, true, false, ◌&&◌, List, [], ◌∷◌, Option, none,
  some, arith, ◌==◌, if◌then◌else◌, leb, get_or, ◌⊎◌, inl, inr, Option-cases, ℕ_discrete,
}
use enb_l1_b4860_ppc.Allocator.Defs.{
  Area, Node, Mm, no_entries, list_index, number_of_lists, max_free_size_list, get_free_area_list,
}
use enb_l1_b4860_ppc.Allocator.Ops.{
  scan, passed, finish, allocate_free_area, alloc, take_start, take_whole,
}
use enb_l1_b4860_ppc.Allocator.Weights.{weight, total, same, same_self}
use enb_l1_b4860_ppc.Allocator.Buckets.{on}
use enb_l1_b4860_ppc.Allocator.State.{as_free, as_pending, Holds, place_of_free}
use enb_l1_b4860_ppc.Allocator.Splice.{place-bounds}
use enb_l1_b4860_ppc.Allocator.Search.{perhaps, scan-finds}

-- Whether an area is large enough, and how many free ones are.
unfoldable pub is_large : ℕ → Area → ℕ
is_large size e = if leb size e.size then 1 else 0

unfoldable pub large_free : ℕ → List Node → ℕ
large_free size [] = 0
large_free size (n ∷ ns) =
    (if n.tag == 0 && leb size n.area.size then 1 else 0) + large_free size ns

-- They are all in the last list.
large-listed :
    (size : ℕ) (ns : List Node)
    → max_free_size_list < size
    → total (as_free number_of_lists (is_large size)) ns ≡ large_free size ns
unfolding total as_free is_large large_free on list_index
large-listed size [] h = refl
large-listed size (n ∷ ns) h = ground (arith, large-listed size ns h)

large_one : (size : ℕ) (e : Area) → size ≤ e.size → 0 < is_large size e
unfolding is_large
large_one size e h = ground arith

-- The loop goes on to the end only if no entry is large enough.
scan-none :
    (size : ℕ) (tptr : Option Area) (es : List Area)
    → scan size tptr es ≡ none
    → weight (is_large size) es ≡ 0
unfolding scan weight is_large
scan-none size tptr [] h = refl
scan-none size tptr (e ∷ es) h = ground (arith, scan-none size (passed tptr e) es)

module _ (kmalloc : ℕ → ℕ → Bool) (works : (a k : ℕ) → kmalloc a k ≡ true) where
  allocates :
      (e : Area) (size : ℕ) (mm : Mm)
      → size ≤ e.size
      → (b : Area) × (mm' : Mm) × (allocate_free_area kmalloc e size mm ≡ (some b, mm'))
        × (b.address ≡ e.address)
  unfolding allocate_free_area
  allocates e size mm h = elim (ℕ_discrete e.size size) [
    | yes p ↦ (e, take_whole e mm, ground arith, refl)
    | no n ↦ (
      record { address = e.address; size = size },
      take_start e size mm,
      ground (arith, works e.address 0),
      refl,
    )
  ]

  -- If `kmalloc` works and the lists agree, a request for more than MAX_FREE_SIZE_LIST, and for less
  -- than 2 ^ 32, gets a block exactly if some free
  -- area is large enough: with none NULL is returned and nothing changes, with one the block is not
  -- NULL.
  pub alloc-large :
      (mm : Mm) (size : ℕ)
      → Holds none mm
      → max_free_size_list < size
      → size < 2 ^ 32
      → ((large_free size mm.global ≡ 0) × (alloc kmalloc size mm ≡ (0, mm)))
        ⊎ ((0 < large_free size mm.global) × (0 < (alloc kmalloc size mm).0))
  unfolding alloc get_free_area_list as_pending perhaps
  alloc-large mm size v big word =
      let es = (get_or mm.free_area_lists number_of_lists no_entries).entries in
      let count = v.frees (is_large size) number_of_lists in
      let listed = large-listed size mm.global big in
      let last : get_free_area_list size mm ≡ some number_of_lists = ground arith in
      elim (Option-cases (scan size none es)) [
        | inl h ↦ inl (omega (arith, count, listed, scan-none size none es h), ground arith)
        | inr ((e, t), h) ↦
            let (room, sum) = scan-finds size none es e t h in
            let here : 0 < weight (same e) es = omega (arith, sum (same e), same_self e) in
            let (b, mm', made, at) = allocates e size mm room in
            let nonzero : (size == 0) ≡ false = ground arith in
            let go : alloc kmalloc size mm
                ≡ finish (allocate_free_area kmalloc e size mm).0 t
                    (allocate_free_area kmalloc e size mm).1 =
              ground arith in
            let one_large : 0 < is_large size e = large_one size e room in
            let lo = (place-bounds v (place_of_free v e number_of_lists here)).0 in
            let eq : (alloc kmalloc size mm).0 ≡ b.address =
              ap (λ (r : ℕ × Mm). r.0) go
              ∙ ap (λ (r : Option Area × Mm). (finish r.0 t r.1).0) made in
            inr (
              omega (arith, count, listed, sum (is_large size), one_large),
              omega (arith, eq, at, lo, v.psa_pos),
            )
      ]
