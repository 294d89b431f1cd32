-- ===== src/Allocator/Merge.antt =====
-- Two free areas next to each other, of which one is pending, made one.
use enb_l1_b4860_ppc.Common.{
  ℕ, ◌+◌, ◌≤◌, ◌<◌, ◌≡◌, refl, ap, subst, ◌∙◌, List, [], ◌∷◌, ◌++◌, Option, none, some, arith,
  get_or, length, length-set, add32,
}
use enb_l1_b4860_ppc.Allocator.Defs.{
  Area, Node, Mm, no_entries, at_list, list_index, find_area, list_remove, replace_node,
  list_add_free_area, list_remove_free_area, free_node,
}
use enb_l1_b4860_ppc.Allocator.Weights.{total, same, same_self}
use enb_l1_b4860_ppc.Allocator.Buckets.{on, held-list_add, held-list_remove, list_index-lt}
use enb_l1_b4860_ppc.Allocator.Tiles.{Tiles, Tiles-split, Tiles-le}
use enb_l1_b4860_ppc.Allocator.Neighbours.{replace_node-behind, replace_node-second}
use enb_l1_b4860_ppc.Allocator.State.{
  as_free, as_allocated, as_pending, Holds, SameSegment, find_free,
}
use enb_l1_b4860_ppc.Allocator.Splice.{Change, splice, as_live, live, splice-live, total-middle}

-- The lists still agree, with what is pending, and the same areas are allocated.
abbrev pub Keeps : Option Area → Mm → Mm → Type 0
Keeps pending mm mm' =
    Holds pending mm' × SameSegment mm mm' × ((w : Area → ℕ) → live w mm' ≡ live w mm)

module _ {mm : Mm} {c : Area} (v : Holds (some c) mm) (xs : List Node) (p n : Node) (ys : List Node)
    (splits : mm.global ≡ xs ++ (p ∷ (n ∷ ys))) (p_free : p.tag ≡ 0) (n_free : n.tag ≡ 0) where
  pub pair :
      (m : ℕ) × Tiles mm.psa xs m
      × (p.area.address ≡ m)
      × (0 < p.area.size)
      × (n.area.address ≡ m + p.area.size)
      × (0 < n.area.size)
      × (m + p.area.size + n.area.size ≤ mm.psa + mm.shm_size)
      × (mm.psa ≤ m)
  unfolding Tiles
  pair =
      let whole = subst (λ g. Tiles mm.psa g (mm.psa + mm.shm_size)) splits v.tiles in
      let (m, l, (at, pos, (at', pos', r))) =
        Tiles-split mm.psa xs (p ∷ (n ∷ ys)) (mm.psa + mm.shm_size) whole in
      (
        m,
        l,
        at,
        pos,
        at',
        pos',
        Tiles-le (m + p.area.size + n.area.size) ys (mm.psa + mm.shm_size) r,
        Tiles-le mm.psa xs m l,
      )

  abbrev pub grown : Area
  grown = record p.area { size = add32 p.area.size n.area.size }

  grown-size : grown.size ≡ p.area.size + n.area.size
  grown-size = let (m, l, at, pos, at', pos', hi, lo) = pair in omega (arith, hi, lo, v.size_word)

  -- The two nodes become one.
  pub merged-global :
      replace_node p.area.address
        (free_node grown.address grown.size ∷ [])
        (replace_node n.area.address [] mm.global)
      ≡ xs ++ ((free_node grown.address grown.size ∷ []) ++ ys)
  merged-global =
      let (m, l, at, pos, at', pos', hi, lo) = pair in
      let dropped = replace_node-second p n ys mm.psa xs m l (omega arith) (omega arith) in
      ap
        (λ g.
          replace_node p.area.address (free_node grown.address grown.size ∷ [])
            (replace_node n.area.address [] g))
        splits
      ∙ ap (replace_node p.area.address (free_node grown.address grown.size ∷ [])) dropped
      ∙ replace_node-behind p (free_node grown.address grown.size ∷ []) ys mm.psa xs m l
          (omega arith)

  abbrev old : List Node
  old = p ∷ n ∷ []

  abbrev new : List Node
  new = free_node grown.address grown.size ∷ []

  pair-counts :
      (w : Area → ℕ) (j : ℕ)
      → (total (as_free j w) old
          ≡ on (list_index p.area.size) j (w p.area) + on (list_index n.area.size) j (w n.area))
        × (total (as_allocated j w) old ≡ 0)
        × (total (as_live w) old ≡ 0)
  unfolding total as_free as_allocated as_live
  pair-counts w j = (ground arith, ground arith, ground arith)

  room : (k : ℕ) → list_index k < length mm.free_area_lists
  room k = omega (arith, v.free_width, list_index-lt k)

  Tiles-merged : (a e : ℕ) → Tiles a old e → Tiles a new e
  unfolding Tiles
  Tiles-merged a e (at, pos, (at', pos', r)) =
      (at, omega (arith, grown-size), omega (arith, grown-size))

  -- The one that is not pending is listed.
  other-listed :
      (o : Area)
      → ((w : Area → ℕ) (j : ℕ)
          → on (list_index c.size) j (w c) + on (list_index o.size) j (w o)
            ≡ total (as_free j w) old)
      → find_area o.address (get_or mm.free_area_lists (list_index o.size) no_entries).entries
        ≡ some o
  unfolding as_pending on
  other-listed o h =
      let j = list_index o.size in
      let w = same o in
      find_free v o j (
        ground (
          arith,
          h w j,
          v.frees w j,
          ap (total (as_free j w)) splits,
          total-middle (as_free j w) xs old ys,
          same_self o,
        ))

  counts_at :
      (e : Area)
      → e ≡ c
      → (w : Area → ℕ) (j : ℕ) → on (list_index e.size) j (w e) ≡ on (list_index c.size) j (w c)
  counts_at e h w j = ap (λ (a : Area). on (list_index a.size) j (w a)) h

  keeps :
      (p' : Option Area) (mm' : Mm)
      → mm'.global ≡ replace_node p.area.address new (replace_node n.area.address [] mm.global)
      → Change (some c) p' old new mm mm'
      → Keeps p' mm mm'
  unfolding total as_live
  keeps p' mm' eq change =
      let after = eq ∙ merged-global in
      (
        splice xs old new ys v splits after change,
        (change.same_psa, change.same_size),
        λ w. omega (arith, pair-counts w 0, splice-live mm mm' xs old new ys splits after w),
      )

  -- The area that is pending takes in the one behind it, and is pending still.
  abbrev pub merged_down : Mm
  merged_down = record (list_remove_free_area n.area mm) {
    global = replace_node p.area.address new (replace_node n.area.address [] mm.global);
  }

  pub merged_down-Keeps : p.area ≡ c → Keeps (some grown) mm merged_down
  unfolding list_remove_free_area total as_free as_allocated as_pending
  merged_down-Keeps at =
      let i = list_index n.area.size in
      let found =
        other-listed n.area (λ w j. omega (arith, pair-counts w j, counts_at p.area at w j)) in
      keeps (some grown) merged_down refl (record {
        same_psa = refl;
        same_size = refl;
        free_width = length-set mm.free_area_lists _ _;
        allocated_width = refl;
        tiles = Tiles-merged;
        frees = λ w j. omega (
          arith,
          pair-counts w j,
          counts_at p.area at w j,
          held-list_remove w i j n.area mm.free_area_lists (room n.area.size) found,
        );
        allocateds = λ w j. omega (arith, pair-counts w j);
      })

  -- The one before it takes it in, and is listed.
  abbrev pub merged_up : Mm
  merged_up = record (list_add_free_area grown (list_remove_free_area p.area mm)) {
    global = replace_node p.area.address new (replace_node n.area.address [] mm.global);
  }

  pub merged_up-Keeps : n.area ≡ c → Keeps none mm merged_up
  unfolding list_add_free_area list_remove_free_area total as_free as_allocated as_pending
  merged_up-Keeps at =
      let i = list_index p.area.size in
      let found =
        other-listed p.area (λ w j. omega (arith, pair-counts w j, counts_at n.area at w j)) in
      let removed = at_list i (list_remove p.area) mm.free_area_lists in
      let kept =
        length-set mm.free_area_lists i
          (list_remove p.area (get_or mm.free_area_lists i no_entries)) in
      keeps none merged_up refl (record {
        same_psa = refl;
        same_size = refl;
        free_width = length-set removed _ _ ∙ kept;
        allocated_width = refl;
        tiles = Tiles-merged;
        frees = λ w j. omega (
          arith,
          pair-counts w j,
          counts_at n.area at w j,
          held-list_remove w i j p.area mm.free_area_lists (room p.area.size) found,
          held-list_add w (list_index grown.size) j grown removed
              (omega (arith, kept, room grown.size)),
        );
        allocateds = λ w j. omega (arith, pair-counts w j);
      })
