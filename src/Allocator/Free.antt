-- ===== src/Allocator/Free.antt =====
-- `fsl_shm_free`: the area is taken off the list of allocated ones, merged with the free areas on either
-- side of it, and listed.
use enb_l1_b4860_ppc.Common.{
  ℕ, ◌+◌, ◌<◌, ◌≤◌, ◌≡◌, refl, ap, sym, subst, ◌∙◌, false, List, [], ◌∷◌, none, some, arith, ◌==◌,
  ◌≢◌, if◌then◌else◌, get_or, length-set, ◌⊎◌, inl, inr, Option-cases, ℕ_discrete,
}
use enb_l1_b4860_ppc.Allocator.Defs.{
  Area, Node, Mm, no_entries, list_index, find_area, replace_node, free_node,
  list_remove_allocated_area,
}
use enb_l1_b4860_ppc.Allocator.Ops.{try_merge_downward, try_merge_upward, free}
use enb_l1_b4860_ppc.Allocator.Weights.{weight, total, same, find_area-weight}
use enb_l1_b4860_ppc.Allocator.Buckets.{held, on, held-list_remove, list_index-lt}
use enb_l1_b4860_ppc.Allocator.Pairs.{pairs, pairs-append}
use enb_l1_b4860_ppc.Allocator.Tiles.{Tiles}
use enb_l1_b4860_ppc.Allocator.State.{
  as_free, as_allocated, as_pending, Holds, SameSegment, Place, place_of_allocated, find_allocated,
}
use enb_l1_b4860_ppc.Allocator.Splice.{
  Change, splice, place-replace, counts_allocated, lives_allocated, as_live, live, splice-live,
  tile,
}
use enb_l1_b4860_ppc.Allocator.Coalesce.{Lists, try_merge_downward-Pends, try_merge_upward-Lists}

-- Whether an area has an address, as a weight.
unfoldable pub at_address : ℕ → Area → ℕ
at_address a x = if x.address == a then 1 else 0

-- What freeing an address does: nothing if no allocated area has it, and else that area is taken
-- off them.
abbrev pub Frees : ℕ → Mm → Mm → Type 0
Frees ptr mm mm' =
    ((live (at_address ptr) mm ≡ 0) × (mm' ≡ mm))
    ⊎ ((a : Area) × (a.address ≡ ptr)
        × Holds none mm'
        × SameSegment mm mm'
        × (pairs false mm'.global ≤ pairs false mm.global)
        × ((w : Area → ℕ) → live w mm ≡ w a + live w mm'))

find_area-none : (a : ℕ) (es : List Area) → find_area a es ≡ none → weight (at_address a) es ≡ 0
unfolding find_area weight at_address
find_area-none a [] h = refl
find_area-none a (e ∷ es) h = ground (arith, find_area-none a es)

-- The areas with an address are all counted for the one list that it gives.
as_allocated-at_address :
    (a : ℕ) (ns : List Node)
    → total (as_allocated (list_index a) (at_address a)) ns ≡ total (as_live (at_address a)) ns
unfolding total as_allocated as_live at_address on
as_allocated-at_address a [] = refl
as_allocated-at_address a (n ∷ ns) = elim (ℕ_discrete n.area.address a) [
  | yes p ↦ ground (arith, as_allocated-at_address a ns, ap list_index p)
  | no p ↦ ground (arith, as_allocated-at_address a ns)
]

module _ {mm : Mm} (v : Holds none mm) (a : Area)
    (entry : 0 < held (same a) (list_index a.address) mm.allocated_area_lists) where
  abbrev spot : Place mm false a
  spot = place_of_allocated v a (list_index a.address) entry

  abbrev new : List Node
  new = free_node a.address a.size ∷ []

  abbrev pub untagged : Mm
  untagged = record (list_remove_allocated_area a mm) {
    global = replace_node a.address new mm.global;
  }

  untagged-Change : Change none (some a) (spot.node ∷ []) new mm untagged
  unfolding list_remove_allocated_area total as_free as_allocated as_pending Tiles
  untagged-Change = record {
    same_psa = refl;
    same_size = refl;
    free_width = refl;
    allocated_width = length-set mm.allocated_area_lists _ _;
    tiles = λ b d t. tile spot b d t;
    frees = λ w j. omega (arith, counts_allocated spot j w);
    allocateds = λ w j. omega (
      arith,
      counts_allocated spot j w,
      held-list_remove w (list_index a.address) j a mm.allocated_area_lists
          (omega (arith, v.allocated_width, list_index-lt a.address))
          (find_allocated v a (list_index a.address) entry),
    );
  }

  pub untagged-Holds :
      Holds (some a) untagged
      × SameSegment mm untagged
      × ((w : Area → ℕ) → live w mm ≡ w a + live w untagged)
  unfolding list_remove_allocated_area total as_live
  untagged-Holds =
      let after = place-replace v spot new in
      (
        splice spot.before (spot.node ∷ []) new spot.behind v spot.splits after untagged-Change,
        (refl, refl),
        λ w. omega (
          arith,
          lives_allocated spot w,
          splice-live mm untagged spot.before (spot.node ∷ []) new spot.behind spot.splits after w,
        ),
      )

  abbrev pub merged : Mm
  merged = let (c, m) = try_merge_downward a untagged in try_merge_upward c m

  pub merged-Frees :
      Holds none merged
      × SameSegment mm merged
      × (pairs false merged.global ≤ pairs false mm.global)
      × ((w : Area → ℕ) → live w mm ≡ w a + live w merged)
  unfolding pairs list_remove_allocated_area
  merged-Frees =
      let (u, s, taken) = untagged-Holds in
      let shape = place-replace v spot new in
      let ((d, s', kept), (n, ys, splits, is_free, at, right)) =
        try_merge_downward-Pends spot.before (free_node a.address a.size) spot.behind shape refl
          u in
      let d' = subst (λ (c : Area). Holds (some c) (try_merge_downward a untagged).1) (sym at) d in
      let ((f, s'', kept'), few) =
        subst
          (λ (c : Area).
            Lists (try_merge_downward a untagged).1 spot.before ys
              (try_merge_upward c (try_merge_downward a untagged).1))
          at (try_merge_upward-Lists spot.before n ys splits is_free d') in
      let whole = pairs-append false spot.before (spot.node ∷ spot.behind) in
      (
        f,
        (s''.0 ∙ s'.0 ∙ s.0, s''.1 ∙ s'.1 ∙ s.1),
        ground (arith, few, right, whole, ap (pairs false) spot.splits, spot.kind),
        λ w. omega (arith, taken w, kept w, kept' w),
      )

-- NULL is not freed.
pub free_null : (mm : Mm) → free 0 mm ≡ mm
unfolding free
free_null mm = refl

-- On lists that agree fsl_shm_free of an address that is not 0 and that no allocated area has changes
-- nothing; else it takes one area with that address off the allocated ones, and then the lists agree, on the same
-- segment, and there are no more free neighbours than before.
pub free-Frees : (ptr : ℕ) (mm : Mm) → ptr ≢ 0 → Holds none mm → Frees ptr mm (free ptr mm)
unfolding free list_remove_allocated_area
free-Frees ptr mm nonzero v =
    let test : (ptr == 0) ≡ false = ground (arith, nonzero) in
    let found =
      find_area ptr (get_or mm.allocated_area_lists (list_index ptr) no_entries).entries in
    elim (Option-cases found) [
      | inl h ↦
          let absent =
            find_area-none ptr (get_or mm.allocated_area_lists (list_index ptr) no_entries).entries
              h in
          inl (
            omega (
              arith,
              absent,
              v.allocateds (at_address ptr) (list_index ptr),
              as_allocated-at_address ptr mm.global,
            ),
            ground (arith, nonzero),
          )
      | inr (a, h) ↦
          let (there, at) =
            find_area-weight ptr
              (get_or mm.allocated_area_lists (list_index ptr) no_entries).entries a h in
          let entry : 0 < held (same a) (list_index a.address) mm.allocated_area_lists =
            subst (λ (k : ℕ). 0 < held (same a) (list_index k) mm.allocated_area_lists) (sym at)
              there in
          let (f, s, few, taken) = merged-Frees v a entry in
          let eq : free ptr mm ≡ merged v a entry = rw (free, test, h) refl in
          inr (a, at, rw eq f, rw eq s, rw eq few, λ w. rw eq (taken w))
    ]
