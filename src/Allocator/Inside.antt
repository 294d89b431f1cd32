-- ===== src/Allocator/Inside.antt =====
-- Taking a free area at an aligned address within it: two or three areas take its place.
use enb_l1_b4860_ppc.Common.{
  ℕ, ◌+◌, ◌-◌, ◌%◌, ◌^◌, ◌≤◌, ◌<◌, ◌≡◌, ◌≢◌, refl, ◌∙◌, true, false, List, [], ◌∷◌, ◌++◌, none,
  arith, ◌==◌, get_or, length-set, sub32, ℕ_discrete,
}
use enb_l1_b4860_ppc.Allocator.Defs.{
  Area, Node, Mm, no_entries, add64, at_list, list_index, list_add, list_remove, replace_node,
  list_add_free_area, list_remove_free_area, list_add_allocated_area, free_node, allocated_node,
}
use enb_l1_b4860_ppc.Allocator.Ops.{take_inside}
use enb_l1_b4860_ppc.Allocator.Weights.{total, same}
use enb_l1_b4860_ppc.Allocator.Buckets.{held, held-list_add, held-list_remove}
use enb_l1_b4860_ppc.Allocator.Pairs.{pairs}
use enb_l1_b4860_ppc.Allocator.Tiles.{Tiles}
use enb_l1_b4860_ppc.Allocator.State.{as_free, as_allocated, as_pending, Holds, Place}
use enb_l1_b4860_ppc.Allocator.Splice.{Change, place-bounds, counts_free, as_live, tile}
use enb_l1_b4860_ppc.Allocator.Moves.{Taken, spot, found, free_room, allocated_room, takes}

equal_true : {a b : ℕ} → a ≡ b → (a == b) ≡ true
equal_true h = ground arith

equal_false : {a b : ℕ} → a ≢ b → (a == b) ≡ false
equal_false h = ground arith

module _ {mm : Mm} (v : Holds none mm) (ptr : Area)
    (entry : 0 < held (same ptr) (list_index ptr.size) mm.free_area_lists) where
  abbrev here : Place mm true ptr
  here = spot v ptr entry

  module _ (start size : ℕ) (some_size : 0 < size) (later : ptr.address < start)
      (fits : start + size ≤ ptr.address + ptr.size) where
    abbrev end : ℕ
    end = add64 ptr.address ptr.size

    abbrev block : Area
    block = record { address = start; size = size }

    abbrev behind : Area
    behind = record { address = add64 start size; size = (end - add64 start size) % 2 ^ 32 }

    abbrev before : Area
    before = record { address = ptr.address; size = sub32 (sub32 ptr.size size) behind.size }

    inside-words :
        (end ≡ ptr.address + ptr.size)
        × (add64 start size ≡ start + size)
        × (behind.size ≡ ptr.address + ptr.size - (start + size))
        × (before.size ≡ start - ptr.address)
    inside-words =
        let b = place-bounds v here in
        let e : end ≡ ptr.address + ptr.size = omega (arith, b, v.address_word) in
        let f : add64 start size ≡ start + size = omega (arith, b, fits, v.address_word) in
        let g : behind.size ≡ ptr.address + ptr.size - (start + size) =
          omega (arith, b, e, f, later, v.size_word) in
        (e, f, g, omega (arith, b, g, fits, later, v.size_word))

    abbrev listed : Mm
    listed =
        list_add_allocated_area block (list_add_free_area before (list_remove_free_area ptr mm))

    abbrev two : List Node
    two = free_node before.address before.size ∷ allocated_node block.address block.size ∷ []

    abbrev three : List Node
    three = two ++ (free_node behind.address behind.size ∷ [])

    abbrev with_two : Mm
    with_two = record listed { global = replace_node ptr.address two listed.global }

    abbrev with_three : Mm
    with_three =
        list_add_free_area behind
          (record listed { global = replace_node ptr.address three listed.global })

    two-Change : add64 start size ≡ end → Change none none (here.node ∷ []) two mm with_two
    unfolding list_add_allocated_area list_add_free_area list_remove_free_area Tiles total as_free
        as_allocated as_pending
    two-Change exact =
        let removed = at_list (list_index ptr.size) (list_remove ptr) mm.free_area_lists in
        let kept =
          length-set mm.free_area_lists (list_index ptr.size)
            (list_remove ptr (get_or mm.free_area_lists (list_index ptr.size) no_entries)) in
        record {
          same_psa = refl;
          same_size = refl;
          free_width = length-set removed _ _ ∙ kept;
          allocated_width = length-set mm.allocated_area_lists _ _;
          tiles = λ a d t.
              let (at, pos, sum) = tile here a d t in
              let (x, y, z, u) = inside-words in
              (
                at,
                omega (arith, u, later),
                (
                  omega (arith, u, at, later),
                  some_size,
                  omega (arith, u, x, y, exact, at, sum, later),
                ),
              );
          frees = λ w j. omega (
            arith,
            counts_free here j w,
            held-list_remove w (list_index ptr.size) j ptr mm.free_area_lists
                (free_room v ptr entry ptr.size) (found v ptr entry),
            held-list_add w (list_index before.size) j before removed
                (omega (arith, kept, free_room v ptr entry before.size)),
          );
          allocateds = λ w j. omega (
            arith,
            counts_free here j w,
            held-list_add w (list_index start) j block mm.allocated_area_lists
                (allocated_room v ptr entry start),
          );
        }

    three-Change : add64 start size ≢ end → Change none none (here.node ∷ []) three mm with_three
    unfolding list_add_allocated_area list_add_free_area list_remove_free_area Tiles total as_free
        as_allocated as_pending
    three-Change more =
        let removed = at_list (list_index ptr.size) (list_remove ptr) mm.free_area_lists in
        let kept =
          length-set mm.free_area_lists (list_index ptr.size)
            (list_remove ptr (get_or mm.free_area_lists (list_index ptr.size) no_entries)) in
        let added = at_list (list_index before.size) (list_add before) removed in
        let kept' =
          length-set removed (list_index before.size)
            (list_add before (get_or removed (list_index before.size) no_entries)) in
        record {
          same_psa = refl;
          same_size = refl;
          free_width = length-set added _ _ ∙ kept' ∙ kept;
          allocated_width = length-set mm.allocated_area_lists _ _;
          tiles = λ a d t.
              let (at, pos, sum) = tile here a d t in
              let (x, y, z, u) = inside-words in
              (
                at,
                omega (arith, u, later),
                (
                  omega (arith, u, at, later),
                  some_size,
                  (
                    omega (arith, u, x, y, at, sum, later),
                    omega (arith, x, y, z, fits, more),
                    omega (arith, u, x, y, z, at, sum, later, fits),
                  ),
                ),
              );
          frees = λ w j. omega (
            arith,
            counts_free here j w,
            held-list_remove w (list_index ptr.size) j ptr mm.free_area_lists
                (free_room v ptr entry ptr.size) (found v ptr entry),
            held-list_add w (list_index before.size) j before removed
                (omega (arith, kept, free_room v ptr entry before.size)),
            held-list_add w (list_index behind.size) j behind added
                (omega (arith, kept, kept', free_room v ptr entry behind.size)),
          );
          allocateds = λ w j. omega (
            arith,
            counts_free here j w,
            held-list_add w (list_index start) j block mm.allocated_area_lists
                (allocated_room v ptr entry start),
          );
        }

    pub take_inside-Taken : Taken ptr block mm (take_inside ptr start size mm)
    unfolding take_inside list_add_allocated_area list_add_free_area list_remove_free_area as_live
        total pairs
    take_inside-Taken = elim (ℕ_discrete (add64 start size) end) [
      | yes h ↦ rw (equal_true h) (
          takes v ptr entry block two with_two refl (two-Change h) (λ w. omega arith) (ground arith)
            (ground arith))
      | no h ↦ rw (equal_false h) (
          takes v ptr entry block three with_three refl (three-Change h) (λ w. omega arith)
            (ground arith) (ground arith))
    ]
