-- ===== src/Allocator/State.antt =====
-- When the lists of the allocator agree with each other.
use enb_l1_b4860_ppc.Common.{
  ℕ, ◌+◌, ◌^◌, ◌≤◌, ◌<◌, ◌≡◌, ap, sym, subst, ◌∙◌, Bool, true, false, not, ◌&&◌, List, [], ◌∷◌,
  ◌++◌, Option, none, some, arith, ◌==◌, if◌then◌else◌, get_or, length,
}
use enb_l1_b4860_ppc.Allocator.Defs.{
  Area, Node, Mm, no_entries, list_index, number_of_lists, find_area,
}
use enb_l1_b4860_ppc.Allocator.Weights.{
  total, same, same_self, same_eq, find_area-some, find_area-weight,
}
use enb_l1_b4860_ppc.Allocator.Buckets.{held, on}
use enb_l1_b4860_ppc.Allocator.Tiles.{Tiles, find_node, area_unique}

-- What a node counts for the free, and for the allocated list at an index.
unfoldable pub as_free : ℕ → (Area → ℕ) → Node → ℕ
as_free j w n = if n.tag == 0 then on (list_index n.area.size) j (w n.area) else 0

unfoldable pub as_allocated : ℕ → (Area → ℕ) → Node → ℕ
as_allocated j w n = if n.tag == 0 then 0 else on (list_index n.area.address) j (w n.area)

-- What an area that is free, but not yet in its list, would count there.
unfoldable pub as_pending : ℕ → (Area → ℕ) → Option Area → ℕ
as_pending j w none = 0
as_pending j w (some e) = on (list_index e.size) j (w e)

-- The areas tile the segment, and each of them stands in the list of its kind that its size, or its
-- address, gives; one free area may be pending. The segment fits in the types of the code.
pub record Holds (pending : Option Area) (mm : Mm) : Type 0 where
  pub free_width : length mm.free_area_lists ≡ number_of_lists + 1
  pub allocated_width : length mm.allocated_area_lists ≡ number_of_lists + 1
  pub tiles : Tiles mm.psa mm.global (mm.psa + mm.shm_size)
  pub psa_pos : 0 < mm.psa
  pub address_word : mm.psa + mm.shm_size < 2 ^ 63
  pub size_word : mm.shm_size < 2 ^ 32
  pub frees :
      (w : Area → ℕ) (j : ℕ)
      → held w j mm.free_area_lists + as_pending j w pending ≡ total (as_free j w) mm.global
  pub allocateds :
      (w : Area → ℕ) (j : ℕ) → held w j mm.allocated_area_lists ≡ total (as_allocated j w) mm.global

-- The segment is the same.
abbrev pub SameSegment : Mm → Mm → Type 0
SameSegment mm mm' = (mm'.psa ≡ mm.psa) × (mm'.shm_size ≡ mm.shm_size)

-- The place of an area in the list of all areas.
pub record Place (mm : Mm) (is_free : Bool) (e : Area) : Type 0 where
  pub before : List Node
  pub node : Node
  pub behind : List Node
  pub splits : mm.global ≡ before ++ (node ∷ behind)
  pub kind : (node.tag == 0) ≡ is_free
  pub area : node.area ≡ e

total-le : (f g : Node → ℕ) → ((n : Node) → f n ≤ g n) → (ns : List Node) → total f ns ≤ total g ns
unfolding total
total-le f g h [] = omega arith
total-le f g h (n ∷ ns) = omega (arith, h n, total-le f g h ns)

as_free-le : (j : ℕ) (e : Area) (n : Node) → as_free j (same e) n ≤ same e n.area
unfolding as_free on
as_free-le j e n = ground arith

as_allocated-le : (j : ℕ) (e : Area) (n : Node) → as_allocated j (same e) n ≤ same e n.area
unfolding as_allocated on
as_allocated-le j e n = ground arith

-- A node of a kind with an area, as a test.
abbrev is_at : Bool → Area → Node → Bool
is_at is_free e n = (if n.tag == 0 then is_free else not is_free) && not (same e n.area == 0)

is_at-kind :
    (b : Bool) (e : Area) (n : Node) → is_at b e n ≡ true → ((n.tag == 0) ≡ b) × (0 < same e n.area)
is_at-kind true e n h = (ground arith, ground arith)
is_at-kind false e n h = (ground arith, ground arith)

as_free-le_at :
    (j : ℕ) (e : Area) (n : Node) → as_free j (same e) n ≤ (if is_at true e n then 1 else 0)
unfolding as_free on same
as_free-le_at j e n = ground arith

as_allocated-le_at :
    (j : ℕ) (e : Area) (n : Node) → as_allocated j (same e) n ≤ (if is_at false e n then 1 else 0)
unfolding as_allocated on same
as_allocated-le_at j e n = ground arith

place :
    (mm : Mm) (is_free : Bool) (e : Area)
    → 0 < total (λ n. if is_at is_free e n then 1 else 0) mm.global
    → Place mm is_free e
place mm is_free e h =
    let (xs, n, ys, eq, at) = find_node (is_at is_free e) mm.global h in
    record {
      before = xs;
      node = n;
      behind = ys;
      splits = eq;
      kind = (is_at-kind is_free e n at).0;
      area = same_eq e n.area (is_at-kind is_free e n at).1;
    }

pending_self : (e : Area) → as_pending (list_index e.size) (same e) (some e) ≡ 1
unfolding as_pending on
pending_self e = ground (arith, same_self e)

module _ {pending : Option Area} {mm : Mm} (v : Holds pending mm) where
  pub place_of_free : (e : Area) (j : ℕ) → 0 < held (same e) j mm.free_area_lists → Place mm true e
  place_of_free e j h = place mm true e (
      omega (
        arith,
        v.frees (same e) j,
        total-le (as_free j (same e)) (λ n. if is_at true e n then 1 else 0) (as_free-le_at j e)
            mm.global,
      ))

  pub place_of_pending : (e : Area) → pending ≡ some e → Place mm true e
  place_of_pending e h =
      let j = list_index e.size in
      let here : as_pending j (same e) pending ≡ 1 = rw h (pending_self e) in
      place mm true e (
        omega (
          arith,
          here,
          v.frees (same e) j,
          total-le (as_free j (same e)) (λ n. if is_at true e n then 1 else 0) (as_free-le_at j e)
              mm.global,
        ))

  pub place_of_allocated :
      (e : Area) (j : ℕ) → 0 < held (same e) j mm.allocated_area_lists → Place mm false e
  place_of_allocated e j h = place mm false e (
      omega (
        arith,
        v.allocateds (same e) j,
        total-le (as_allocated j (same e)) (λ n. if is_at false e n then 1 else 0)
            (as_allocated-le_at j e) mm.global,
      ))

  -- An entry of a list is what a search for its address there finds.
  pub find_area-entry :
      {e : Area} (b : Bool)
      → Place mm b e
      → (x : Area) → x.address ≡ e.address
      → 0 < total (λ m. same x m.area) mm.global
      → x ≡ e
  find_area-entry {e} b p x at h =
      let tiles = subst (λ g. Tiles mm.psa g (mm.psa + mm.shm_size)) p.splits v.tiles in
      let some_x = subst (λ g. 0 < total (λ m. same x m.area) g) p.splits h in
      area_unique x mm.psa p.before p.node p.behind (mm.psa + mm.shm_size) tiles
        (at ∙ ap (λ (a : Area). a.address) (sym p.area)) some_x
      ∙ p.area

  pub find_free :
      (e : Area) (j : ℕ)
      → 0 < held (same e) j mm.free_area_lists
      → find_area e.address (get_or mm.free_area_lists j no_entries).entries ≡ some e
  find_free e j h =
      let (x, found, at) = find_area-some e (get_or mm.free_area_lists j no_entries).entries h in
      let (there, _) =
        find_area-weight e.address (get_or mm.free_area_lists j no_entries).entries x found in
      let eq = find_area-entry true (place_of_free e j h) x at (
        omega (
          arith,
          there,
          v.frees (same x) j,
          total-le (as_free j (same x)) (λ m. same x m.area) (as_free-le j x) mm.global,
        )) in
      found ∙ ap some eq

  pub find_allocated :
      (e : Area) (j : ℕ)
      → 0 < held (same e) j mm.allocated_area_lists
      → find_area e.address (get_or mm.allocated_area_lists j no_entries).entries ≡ some e
  find_allocated e j h =
      let (x, found, at) =
        find_area-some e (get_or mm.allocated_area_lists j no_entries).entries h in
      let (there, _) =
        find_area-weight e.address (get_or mm.allocated_area_lists j no_entries).entries x found in
      let eq = find_area-entry false (place_of_allocated e j h) x at (
        omega (
          arith,
          there,
          v.allocateds (same x) j,
          total-le (as_allocated j (same x)) (λ m. same x m.area) (as_allocated-le j x) mm.global,
        )) in
      found ∙ ap some eq
