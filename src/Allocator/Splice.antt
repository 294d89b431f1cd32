-- ===== src/Allocator/Splice.antt =====
-- A change of a few neighbouring areas keeps the lists in agreement if it moves the same areas there.
use enb_l1_b4860_ppc.Common.{
  ℕ, ◌+◌, ◌≤◌, ◌<◌, ◌≡◌, ap, subst, ◌∙◌, Bool, true, false, List, [], ◌∷◌, ◌++◌, Option, arith,
  ◌==◌, if◌then◌else◌, length,
}
use enb_l1_b4860_ppc.Allocator.Defs.{Area, Node, Mm, list_index, replace_node}
use enb_l1_b4860_ppc.Allocator.Weights.{total, total-append}
use enb_l1_b4860_ppc.Allocator.Buckets.{held, on}
use enb_l1_b4860_ppc.Allocator.Tiles.{
  Tiles, Tiles-split, Tiles-join, Tiles-bounds, replace_node-split,
}
use enb_l1_b4860_ppc.Allocator.State.{as_free, as_allocated, as_pending, Holds, Place}

-- The lists gain what the new areas count more than the old ones.
pub record Change (p p' : Option Area) (old new : List Node) (mm mm' : Mm) : Type 0 where
  pub same_psa : mm'.psa ≡ mm.psa
  pub same_size : mm'.shm_size ≡ mm.shm_size
  pub free_width : length mm'.free_area_lists ≡ length mm.free_area_lists
  pub allocated_width : length mm'.allocated_area_lists ≡ length mm.allocated_area_lists
  pub tiles : (a e : ℕ) → Tiles a old e → Tiles a new e
  pub frees :
      (w : Area → ℕ) (j : ℕ)
      → held w j mm'.free_area_lists + as_pending j w p' + total (as_free j w) old
        ≡ held w j mm.free_area_lists + as_pending j w p + total (as_free j w) new
  pub allocateds :
      (w : Area → ℕ) (j : ℕ)
      → held w j mm'.allocated_area_lists + total (as_allocated j w) old
        ≡ held w j mm.allocated_area_lists + total (as_allocated j w) new

Tiles-change :
    (xs old new ys : List Node) (a e : ℕ)
    → ((b d : ℕ) → Tiles b old d → Tiles b new d)
    → Tiles a (xs ++ (old ++ ys)) e
    → Tiles a (xs ++ (new ++ ys)) e
Tiles-change xs old new ys a e h t =
    let (m, l, r) = Tiles-split a xs (old ++ ys) e t in
    let (k, o, s) = Tiles-split m old ys e r in
    Tiles-join a xs m (new ++ ys) e l (Tiles-join m new k ys e (h m k o) s)

pub total-middle :
    (f : Node → ℕ) (xs m ys : List Node)
    → total f (xs ++ (m ++ ys)) ≡ total f xs + (total f m + total f ys)
total-middle f xs m ys = omega (arith, total-append f xs (m ++ ys), total-append f m ys)

pub splice :
    {p p' : Option Area} {mm mm' : Mm} (xs old new ys : List Node)
    → Holds p mm
    → mm.global ≡ xs ++ (old ++ ys)
    → mm'.global ≡ xs ++ (new ++ ys)
    → Change p p' old new mm mm'
    → Holds p' mm'
splice {p} {p'} {mm} {mm'} xs old new ys v before after c = record {
  free_width = c.free_width ∙ v.free_width;
  allocated_width = c.allocated_width ∙ v.allocated_width;
  tiles =
      rw (after, c.same_psa, c.same_size)
        (Tiles-change xs old new ys mm.psa (mm.psa + mm.shm_size) c.tiles
          (subst (λ g. Tiles mm.psa g (mm.psa + mm.shm_size)) before v.tiles));
  psa_pos = omega (arith, v.psa_pos, c.same_psa);
  address_word = omega (arith, v.address_word, c.same_psa, c.same_size);
  size_word = omega (arith, v.size_word, c.same_size);
  frees = λ w j.
      let l = ap (total (as_free j w)) before in
      let r = ap (total (as_free j w)) after in
      omega (
        arith,
        v.frees w j,
        c.frees w j,
        l,
        r,
        total-middle (as_free j w) xs old ys,
        total-middle (as_free j w) xs new ys,
      );
  allocateds = λ w j.
      let l = ap (total (as_allocated j w)) before in
      let r = ap (total (as_allocated j w)) after in
      omega (
        arith,
        v.allocateds w j,
        c.allocateds w j,
        l,
        r,
        total-middle (as_allocated j w) xs old ys,
        total-middle (as_allocated j w) xs new ys,
      );
}

module _ {pending : Option Area} {mm : Mm} (v : Holds pending mm) {b : Bool} {e : Area}
    (p : Place mm b e) where
  tiled : Tiles mm.psa (p.before ++ (p.node ∷ p.behind)) (mm.psa + mm.shm_size)
  tiled = subst (λ g. Tiles mm.psa g (mm.psa + mm.shm_size)) p.splits v.tiles

  -- The area lies in the segment.
  pub place-bounds :
      (mm.psa ≤ e.address) × (0 < e.size) × (e.address + e.size ≤ mm.psa + mm.shm_size)
  place-bounds =
      subst
        (λ (a : Area).
          (mm.psa ≤ a.address) × (0 < a.size) × (a.address + a.size ≤ mm.psa + mm.shm_size))
        p.area (Tiles-bounds p.node p.behind mm.psa p.before (mm.psa + mm.shm_size) tiled)

  -- What takes the place of its node.
  pub place-replace :
      (new : List Node) → replace_node e.address new mm.global ≡ p.before ++ (new ++ p.behind)
  place-replace new =
      subst (λ (a : Area). replace_node a.address new mm.global ≡ p.before ++ (new ++ p.behind))
        p.area
        (ap (replace_node p.node.area.address new) p.splits
          ∙ replace_node-split p.node p.behind new mm.psa p.before (mm.psa + mm.shm_size) tiled)

pub tile :
    {mm : Mm} {b : Bool} {e : Area} (p : Place mm b e) (a d : ℕ)
    → Tiles a (p.node ∷ []) d
    → (e.address ≡ a) × (0 < e.size) × (a + e.size ≡ d)
unfolding Tiles
tile {mm} {b} {e} p a d t =
    subst (λ (x : Area). (x.address ≡ a) × (0 < x.size) × (a + x.size ≡ d)) p.area t

pub counts_free :
    {mm : Mm} {e : Area} (p : Place mm true e) (j : ℕ) (w : Area → ℕ)
    → (total (as_free j w) (p.node ∷ []) ≡ on (list_index e.size) j (w e))
      × (total (as_allocated j w) (p.node ∷ []) ≡ 0)
unfolding total as_free as_allocated
counts_free {mm} {e} p j w =
    let at = ap (λ (a : Area). on (list_index a.size) j (w a)) p.area in
    (ground (arith, p.kind, at), ground (arith, p.kind))

pub counts_allocated :
    {mm : Mm} {e : Area} (p : Place mm false e) (j : ℕ) (w : Area → ℕ)
    → (total (as_allocated j w) (p.node ∷ []) ≡ on (list_index e.address) j (w e))
      × (total (as_free j w) (p.node ∷ []) ≡ 0)
unfolding total as_free as_allocated
counts_allocated {mm} {e} p j w =
    let at = ap (λ (a : Area). on (list_index a.address) j (w a)) p.area in
    (ground (arith, p.kind, at), ground (arith, p.kind))

-- The sum over the areas that are allocated.
unfoldable pub as_live : (Area → ℕ) → Node → ℕ
as_live w n = if n.tag == 0 then 0 else w n.area

abbrev pub live : (Area → ℕ) → Mm → ℕ
live w mm = total (as_live w) mm.global

pub splice-live :
    (mm mm' : Mm) (xs old new ys : List Node)
    → mm.global ≡ xs ++ (old ++ ys)
    → mm'.global ≡ xs ++ (new ++ ys)
    → (w : Area → ℕ) → live w mm' + total (as_live w) old ≡ live w mm + total (as_live w) new
splice-live mm mm' xs old new ys before after w =
    let l = ap (total (as_live w)) before in
    let r = ap (total (as_live w)) after in
    omega (arith, l, r, total-middle (as_live w) xs old ys, total-middle (as_live w) xs new ys)

pub lives_free :
    {mm : Mm} {e : Area} (p : Place mm true e) (w : Area → ℕ) → total (as_live w) (p.node ∷ []) ≡ 0
unfolding total as_live
lives_free p w = ground (arith, p.kind)

pub lives_allocated :
    {mm : Mm} {e : Area} (p : Place mm false e) (w : Area → ℕ)
    → total (as_live w) (p.node ∷ []) ≡ w e
unfolding total as_live
lives_allocated {mm} {e} p w = ground (arith, p.kind, ap w p.area)
