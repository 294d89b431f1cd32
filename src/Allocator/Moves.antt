-- ===== src/Allocator/Moves.antt =====
-- The ways in which a free area is taken keep the lists in agreement, and add one area to those that
-- are allocated.
use enb_l1_b4860_ppc.Common.{
  ℕ, ◌+◌, ◌-◌, ◌≤◌, ◌<◌, ◌≡◌, refl, ap, ◌∙◌, true, false, List, [], ◌∷◌, none, some, arith, get_or,
  length, length-set, sub32,
}
use enb_l1_b4860_ppc.Allocator.Defs.{
  Area, Node, Mm, no_entries, add64, at_list, list_index, find_area, list_remove, replace_node,
  list_add_free_area, list_remove_free_area, list_add_allocated_area, free_node, allocated_node,
}
use enb_l1_b4860_ppc.Allocator.Ops.{take_whole, take_start}
use enb_l1_b4860_ppc.Allocator.Weights.{total, same}
use enb_l1_b4860_ppc.Allocator.Buckets.{held, on, held-list_add, held-list_remove, list_index-lt}
use enb_l1_b4860_ppc.Allocator.Pairs.{pairs, pairs-replace}
use enb_l1_b4860_ppc.Allocator.Tiles.{Tiles}
use enb_l1_b4860_ppc.Allocator.State.{
  as_free, as_allocated, as_pending, Holds, SameSegment, Place, place_of_free, find_free,
}
use enb_l1_b4860_ppc.Allocator.Splice.{
  Change, splice, place-bounds, place-replace, counts_free, as_live, live, splice-live, lives_free,
  tile,
}

-- What allocating `block` out of the free area `ptr` does. The other free areas stay where they are.
pub record Taken (ptr block : Area) (mm mm' : Mm) : Type 0 where
  pub holds : Holds none mm'
  pub segment : SameSegment mm mm'
  pub neat : pairs false mm'.global ≤ pairs false mm.global
  pub adds : (w : Area → ℕ) → live w mm' ≡ w block + live w mm
  pub keeps :
      (w : Area → ℕ) (j : ℕ)
      → held w j mm.free_area_lists
        ≤ held w j mm'.free_area_lists + on (list_index ptr.size) j (w ptr)

module _ {mm : Mm} (v : Holds none mm) (ptr : Area)
    (entry : 0 < held (same ptr) (list_index ptr.size) mm.free_area_lists) where
  abbrev pub spot : Place mm true ptr
  spot = place_of_free v ptr (list_index ptr.size) entry

  pub found :
      find_area ptr.address (get_or mm.free_area_lists (list_index ptr.size) no_entries).entries
      ≡ some ptr
  found = find_free v ptr (list_index ptr.size) entry

  pub free_room : (n : ℕ) → list_index n < length mm.free_area_lists
  free_room n = omega (arith, v.free_width, list_index-lt n)

  pub allocated_room : (n : ℕ) → list_index n < length mm.allocated_area_lists
  allocated_room n = omega (arith, v.allocated_width, list_index-lt n)

  whole-Change :
      Change none none
        (spot.node ∷ [])
        (allocated_node ptr.address ptr.size ∷ [])
        mm
        (take_whole ptr mm)
  unfolding take_whole list_add_allocated_area list_remove_free_area Tiles total as_free
      as_allocated as_pending
  whole-Change = record {
    same_psa = refl;
    same_size = refl;
    free_width = length-set mm.free_area_lists _ _;
    allocated_width = length-set mm.allocated_area_lists _ _;
    tiles = λ a d t. tile spot a d t;
    frees = λ w j. omega (
      arith,
      counts_free spot j w,
      held-list_remove w (list_index ptr.size) j ptr mm.free_area_lists (free_room ptr.size) found,
    );
    allocateds = λ w j. omega (
      arith,
      counts_free spot j w,
      held-list_add w (list_index ptr.address) j ptr mm.allocated_area_lists
          (allocated_room ptr.address),
    );
  }

  none_pending : (w : Area → ℕ) (j : ℕ) → as_pending j w none ≡ 0
  unfolding as_pending
  none_pending w j = refl

  -- What is taken out of the area's node, and what then is allocated.
  pub takes :
      (block : Area) (new : List Node) (mm' : Mm)
      → mm'.global ≡ replace_node ptr.address new mm.global
      → Change none none (spot.node ∷ []) new mm mm'
      → ((w : Area → ℕ) → total (as_live w) new ≡ w block)
      → pairs true new ≤ 1
      → pairs false new ≡ 0
      → Taken ptr block mm mm'
  takes block new mm' eq c lives one zero_pairs =
      let after = eq ∙ place-replace v spot new in
      let fewer =
        pairs-replace spot.before spot.node new spot.behind (ground (arith, spot.kind)) one
          zero_pairs in
      record {
        holds = splice spot.before (spot.node ∷ []) new spot.behind v spot.splits after c;
        segment = (c.same_psa, c.same_size);
        neat = omega (arith, fewer, ap (pairs false) after, ap (pairs false) spot.splits);
        adds = λ w. omega (
          arith,
          lives w,
          lives_free spot w,
          splice-live mm mm' spot.before (spot.node ∷ []) new spot.behind spot.splits after w,
        );
        keeps = λ w j. omega (arith, c.frees w j, counts_free spot j w, none_pending w j);
      }

  pub take_whole-Taken : Taken ptr ptr mm (take_whole ptr mm)
  unfolding take_whole list_add_allocated_area list_remove_free_area as_live total pairs
  take_whole-Taken =
      takes ptr (allocated_node ptr.address ptr.size ∷ []) (take_whole ptr mm) refl whole-Change
        (λ w. omega arith) (ground arith) (ground arith)

  module _ (size : ℕ) (some_size : 0 < size) (smaller : size < ptr.size) where
    start-words :
        (add64 ptr.address size ≡ ptr.address + size) × (sub32 ptr.size size ≡ ptr.size - size)
    start-words =
        let b = place-bounds v spot in
        (omega (arith, b, v.address_word), omega (arith, b, v.size_word))

    abbrev start_rest : Area
    start_rest = record { address = add64 ptr.address size; size = sub32 ptr.size size }

    abbrev start_block : Area
    start_block = record { address = ptr.address; size = size }

    abbrev start_new : List Node
    start_new = allocated_node ptr.address size ∷ free_node start_rest.address start_rest.size ∷ []

    start-Change : Change none none (spot.node ∷ []) start_new mm (take_start ptr size mm)
    unfolding take_start list_add_allocated_area list_add_free_area list_remove_free_area Tiles
        total as_free as_allocated as_pending
    start-Change =
        let removed = at_list (list_index ptr.size) (list_remove ptr) mm.free_area_lists in
        let kept =
          length-set mm.free_area_lists (list_index ptr.size)
            (list_remove ptr (get_or mm.free_area_lists (list_index ptr.size) no_entries)) in
        record {
          same_psa = refl;
          same_size = refl;
          free_width = length-set removed _ _ ∙ kept;
          allocated_width = length-set mm.allocated_area_lists _ _;
          tiles = λ a d t.
              let (at, pos, sum) = tile spot a d t in
              let (x, y) = start-words in
              (at, some_size, (omega (arith, x, at), omega (arith, y), omega (arith, y, sum)));
          frees = λ w j. omega (
            arith,
            counts_free spot j w,
            held-list_remove w (list_index ptr.size) j ptr mm.free_area_lists (free_room ptr.size)
                found,
            held-list_add w (list_index start_rest.size) j start_rest removed
                (omega (arith, kept, free_room start_rest.size)),
          );
          allocateds = λ w j. omega (
            arith,
            counts_free spot j w,
            held-list_add w (list_index ptr.address) j start_block mm.allocated_area_lists
                (allocated_room ptr.address),
          );
        }

    pub take_start-Taken : Taken ptr start_block mm (take_start ptr size mm)
    unfolding take_start list_add_allocated_area list_add_free_area list_remove_free_area as_live
        total pairs
    take_start-Taken =
        takes start_block start_new (take_start ptr size mm) refl start-Change (λ w. omega arith)
          (ground arith) (ground arith)
