-- ===== src/Allocator/Coalesce.antt =====
-- The two merges of `__free`, whatever stands on either side of the area.
use enb_l1_b4860_ppc.Common.{
  ℕ, ◌+◌, ◌<◌, ◌≡◌, refl, ap, sym, subst, ◌∙◌, true, false, ◌≤◌, List, [], ◌∷◌, ◌++◌, Option, none,
  some, arith, ◌==◌, length-set, add32, inl, inr, Bool-cases,
}
use mathlib.Core.List.{append_assoc}
use enb_l1_b4860_ppc.Allocator.Defs.{
  Area, Node, Mm, list_index, g_next, g_prev, list_add_free_area, list_remove_free_area, free_node,
}
use enb_l1_b4860_ppc.Allocator.Ops.{try_merge_downward, try_merge_upward}
use enb_l1_b4860_ppc.Allocator.Buckets.{held-list_add, list_index-lt}
use enb_l1_b4860_ppc.Allocator.Tiles.{Tiles, Tiles-split}
use enb_l1_b4860_ppc.Allocator.Pairs.{pairs, ends, pairs-append, ends-append}
use enb_l1_b4860_ppc.Allocator.Neighbours.{g_next-first, g_prev-none, g_prev-some, last_or_empty}
use enb_l1_b4860_ppc.Allocator.State.{as_pending, Holds}
use enb_l1_b4860_ppc.Allocator.Merge.{
  Keeps, merged-global, grown, merged_down, merged_down-Keeps, merged_up, merged_up-Keeps,
}

pub list_add_free_area-Keeps :
    {mm : Mm} (c : Area) → Holds (some c) mm → Keeps none mm (list_add_free_area c mm)
unfolding list_add_free_area as_pending
list_add_free_area-Keeps {mm} c v = (
  record {
    free_width = length-set mm.free_area_lists _ _ ∙ v.free_width;
    allocated_width = v.allocated_width;
    tiles = v.tiles;
    psa_pos = v.psa_pos;
    address_word = v.address_word;
    size_word = v.size_word;
    frees = λ w j. omega (
      arith,
      v.frees w j,
      held-list_add w (list_index c.size) j c mm.free_area_lists
          (omega (arith, v.free_width, list_index-lt c.size)),
    );
    allocateds = v.allocateds;
  },
  (refl, refl),
  λ w. refl,
)

-- The areas before a node end at its address, and those behind it start at its end.
around :
    {pending : Option Area} {mm : Mm}
    → Holds pending mm
    → (xs : List Node) (n : Node) (ys : List Node) → mm.global ≡ xs ++ (n ∷ ys)
    → Tiles mm.psa xs n.area.address
      × (0 < n.area.size)
      × Tiles (n.area.address + n.area.size) ys (mm.psa + mm.shm_size)
unfolding Tiles
around {pending} {mm} v xs n ys splits =
    let whole = subst (λ g. Tiles mm.psa g (mm.psa + mm.shm_size)) splits v.tiles in
    let (m, l, (at, pos, r)) = Tiles-split mm.psa xs (n ∷ ys) (mm.psa + mm.shm_size) whole in
    (rw at l, pos, rw at r)

next-address :
    (n : Node) (ys : List Node) (b e a : ℕ) → Tiles (a + b) (n ∷ ys) e → 0 < b → a < n.area.address
unfolding Tiles
next-address n ys b e a (at, pos, t) h = omega arith

-- What merging downward leaves: the area, grown or not, is pending still, in its place, and no
-- pair of free neighbours is new but those that it is in.
abbrev pub Pends : Mm → List Node → List Node → Area × Mm → Type 0
Pends mm xs ys r =
    Keeps (some r.0) mm r.1
    × ((n : Node) × (ys' : List Node) × (r.1.global ≡ xs ++ (n ∷ ys'))
        × (n.tag ≡ 0)
        × (n.area ≡ r.0)
        × (pairs true ys' ≤ pairs false ys))

pub try_merge_downward-Pends :
    {mm : Mm} (xs : List Node) (n : Node) (ys : List Node)
    → mm.global ≡ xs ++ (n ∷ ys)
    → n.tag ≡ 0
    → Holds (some n.area) mm
    → Pends mm xs ys (try_merge_downward n.area mm)
unfolding try_merge_downward list_remove_free_area pairs
try_merge_downward-Pends {mm} xs n [] splits is_free v =
    let next =
      g_next-first n [] mm.psa xs n.area.address (around v xs n [] splits).0 (omega arith) in
    let next' : g_next n.area.address mm.global ≡ none = rw splits next in
    let same_mm : try_merge_downward n.area mm ≡ (n.area, mm) = ground arith in
    subst (Pends mm xs []) (sym same_mm)
      ((v, (refl, refl), λ w. refl), (n, [], splits, is_free, refl, omega arith))
try_merge_downward-Pends {mm} xs n (y ∷ ys) splits is_free v =
    let next =
      g_next-first n (y ∷ ys) mm.psa xs n.area.address (around v xs n (y ∷ ys) splits).0
        (omega arith) in
    let next' : g_next n.area.address mm.global ≡ some y = rw splits next in
    elim (Bool-cases (y.tag == 0)) [
      | inr q ↦
          let same_mm : try_merge_downward n.area mm ≡ (n.area, mm) = ground arith in
          subst (Pends mm xs (y ∷ ys)) (sym same_mm)
            ((v, (refl, refl), λ w. refl), (n, y ∷ ys, splits, is_free, refl, ground arith))
      | inl q ↦
          let free_y : y.tag ≡ 0 = ground arith in
          let c = grown v xs n y ys splits is_free free_y in
          let merged : try_merge_downward n.area mm
              ≡ (c, merged_down v xs n y ys splits is_free free_y) =
            rw (try_merge_downward, next', q) refl in
          subst (Pends mm xs (y ∷ ys)) (sym merged) (
            merged_down-Keeps v xs n y ys splits is_free free_y refl,
            (
              free_node c.address c.size,
              ys,
              merged-global v xs n y ys splits is_free free_y,
              refl,
              refl,
              ground arith,
            ),
          )
    ]

-- What merging upward leaves: nothing is pending, and the area is in no pair of free neighbours.
abbrev pub Lists : Mm → List Node → List Node → Mm → Type 0
Lists mm xs ys mm' = Keeps none mm mm' × (pairs false mm'.global ≤ pairs false xs + pairs true ys)

pub try_merge_upward-Lists :
    {mm : Mm} (xs : List Node) (n : Node) (ys : List Node)
    → mm.global ≡ xs ++ (n ∷ ys)
    → n.tag ≡ 0
    → Holds (some n.area) mm
    → Lists mm xs ys (try_merge_upward n.area mm)
unfolding try_merge_upward list_add_free_area list_remove_free_area pairs ends
try_merge_upward-Lists {mm} xs n ys splits is_free v =
    let count = ap (pairs false) splits in
    let whole = pairs-append false xs (n ∷ ys) in
    elim (last_or_empty xs) [
      | inl h ↦
          let splits' : mm.global ≡ n ∷ ys = rw (splits, h) refl in
          let (l, pos, r) = around v [] n ys splits' in
          let prev =
            g_prev-none n (n.area.address + n.area.size) n ys (mm.psa + mm.shm_size) r
              (omega arith) in
          let prev' : g_prev n.area.address mm.global ≡ none = rw splits' prev in
          let listed : try_merge_upward n.area mm ≡ list_add_free_area n.area mm = ground arith in
          let few : pairs false mm.global ≤ pairs false xs + pairs true ys =
            ground (arith, ap (pairs false) splits') in
          subst (Lists mm xs ys) (sym listed) (list_add_free_area-Keeps n.area v, few)
      | inr (zs, p, h) ↦
          let splits' : mm.global ≡ zs ++ (p ∷ (n ∷ ys)) =
            splits ∙ ap (λ t. t ++ (n ∷ ys)) h ∙ append_assoc zs (p ∷ []) (n ∷ ys) in
          let (l, pos, r) = around v zs p (n ∷ ys) splits' in
          let prev =
            g_prev-some p n ys mm.psa zs p.area.address l (omega arith)
              (next-address n ys p.area.size (mm.psa + mm.shm_size) p.area.address r pos) in
          let prev' : g_prev n.area.address mm.global ≡ some p = rw splits' prev in
          let last = ap (ends false) h ∙ ends-append false zs (p ∷ []) in
          let before = ap (pairs false) h in
          let before' = pairs-append false zs (p ∷ []) in
          elim (Bool-cases (p.tag == 0)) [
            | inr q ↦
                let listed : try_merge_upward n.area mm ≡ list_add_free_area n.area mm =
                  ground arith in
                let few : pairs false mm.global ≤ pairs false xs + pairs true ys =
                  ground (arith, count, whole, last) in
                subst (Lists mm xs ys) (sym listed) (list_add_free_area-Keeps n.area v, few)
            | inl q ↦
                let free_p : p.tag ≡ 0 = ground arith in
                let up = merged_up v zs p n ys splits' free_p is_free in
                let merged : try_merge_upward n.area mm ≡ up =
                  rw (try_merge_upward, prev', q) refl in
                let few : pairs false up.global ≤ pairs false xs + pairs true ys = ground (
                  arith,
                  ap (pairs false) (merged-global v zs p n ys splits' free_p is_free),
                  before,
                  before',
                  pairs-append false zs
                      (free_node p.area.address (add32 p.area.size n.area.size) ∷ ys),
                ) in
                subst (Lists mm xs ys) (sym merged)
                  (merged_up-Keeps v zs p n ys splits' free_p is_free refl, few)
          ]
    ]
