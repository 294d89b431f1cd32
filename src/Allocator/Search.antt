-- ===== src/Allocator/Search.antt =====
-- Entries of the lists of free areas, and the loops that look for one.
use enb_l1_b4860_ppc.Common.{
  ℕ, ◌+◌, ◌≤◌, ◌<◌, ◌≡◌, ◌≢◌, refl, ap, ◌∙◌, List, [], ◌∷◌, Option, none, some, arith, get_or, leb,
  inl, inr, ℕ_discrete, Bool-cases, length-set,
}
use enb_l1_b4860_ppc.Allocator.Defs.{
  Area, Node, Mm, no_entries, list_index, at_list, list_remove, list_add_free_area,
  list_remove_free_area,
}
use enb_l1_b4860_ppc.Allocator.Ops.{requeue, passed, scan}
use enb_l1_b4860_ppc.Allocator.Weights.{weight, total, same, same_eq}
use enb_l1_b4860_ppc.Allocator.Buckets.{held, on, held-list_add, held-list_remove, list_index-lt}
use enb_l1_b4860_ppc.Allocator.State.{as_free, Holds, find_free}

-- An entry of the list of an index has that index.
counts_elsewhere :
    (e : Area) (j : ℕ) (ns : List Node) → list_index e.size ≢ j → total (as_free j (same e)) ns ≡ 0
unfolding total as_free on
counts_elsewhere e j [] h = refl
counts_elsewhere e j (n ∷ ns) h = elim (ℕ_discrete (same e n.area) 0) [
  | yes p ↦ ground (arith, counts_elsewhere e j ns h)
  | no p ↦
      let eq = ap (λ (a : Area). list_index a.size) (same_eq e n.area (omega arith)) in
      ground (arith, eq, counts_elsewhere e j ns h)
]

pub entry-list_index :
    {pending : Option Area} {mm : Mm}
    → Holds pending mm
    → (e : Area) (j : ℕ) → 0 < held (same e) j mm.free_area_lists
    → list_index e.size ≡ j
entry-list_index {pending} {mm} v e j h = elim (ℕ_discrete (list_index e.size) j) [
  | yes p ↦ p
  | no n ↦ absurd (omega (arith, v.frees (same e) j, counts_elsewhere e j mm.global n))
]

-- Taking an entry out of its list and adding it again keeps the lists in agreement.
pub requeue-Holds :
    {mm : Mm} (t : Area)
    → Holds none mm
    → 0 < held (same t) (list_index t.size) mm.free_area_lists
    → Holds none (requeue (some t) mm)
unfolding list_add_free_area list_remove_free_area
requeue-Holds {mm} t v h =
    let i = list_index t.size in
    let room = list_index-lt t.size in
    let removed = at_list i (list_remove t) mm.free_area_lists in
    let kept =
      length-set mm.free_area_lists i (list_remove t (get_or mm.free_area_lists i no_entries)) in
    record {
      free_width = length-set removed _ _ ∙ kept ∙ v.free_width;
      allocated_width = v.allocated_width;
      tiles = v.tiles;
      psa_pos = v.psa_pos;
      address_word = v.address_word;
      size_word = v.size_word;
      frees = λ w j. omega (
        arith,
        v.frees w j,
        held-list_remove w i j t mm.free_area_lists (omega (arith, room, v.free_width))
            (find_free v t i h),
        held-list_add w i j t removed (omega (arith, room, kept, v.free_width)),
      );
      allocateds = v.allocateds;
    }

-- What `tptr` counts.
unfoldable pub perhaps : (Area → ℕ) → Option Area → ℕ
perhaps w none = 0
perhaps w (some t) = w t

pub passed-perhaps :
    (w : Area → ℕ) (tptr : Option Area) (e : Area)
    → perhaps w (passed tptr e) ≤ perhaps w tptr + w e
unfolding perhaps
passed-perhaps w none e = omega arith
passed-perhaps w (some t) e = ground arith

-- The entry that the loop stops at is large enough, and it and `tptr` are different entries.
pub scan-finds :
    (size : ℕ) (tptr : Option Area) (es : List Area) (e : Area) (t : Option Area)
    → scan size tptr es ≡ some (e, t)
    → (size ≤ e.size) × ((w : Area → ℕ) → perhaps w t + w e ≤ perhaps w tptr + weight w es)
unfolding scan weight
scan-finds size tptr [] e t h = ground arith
scan-finds size tptr (x ∷ es) e t h = elim (Bool-cases (leb size x.size)) [
  | inl p ↦
      let at : x ≡ e = ground arith in
      let same_t : tptr ≡ t = ground arith in
      (ground arith, λ w. ground (arith, ap w at, ap (perhaps w) same_t))
  | inr p ↦
      let (le, sum) = scan-finds size (passed tptr x) es e t (ground arith) in
      (le, λ w. omega (arith, sum w, passed-perhaps w tptr x))
]
