-- ===== src/Allocator/Alloc.antt =====
-- The two allocating functions.
use enb_l1_b4860_ppc.Common.{
  ℕ, zero, suc, ◌+◌, ◌%◌, ◌^◌, ◌≤◌, ◌<◌, ◌≡◌, refl, false, ap, sym, subst, Bool, List, [], ◌∷◌,
  Option, none, some, arith, get_or, ◌⊎◌, inl, inr, ℕ_discrete, Option-cases,
}
use native.Mathlib.Nat.{one-le-pow}
use enb_l1_b4860_ppc.Allocator.Defs.{
  Area, AreaList, Mm, no_entries, list_index, list_add_free_area, list_remove_free_area,
}
use enb_l1_b4860_ppc.Allocator.Ops.{
  passed, scan, finish, allocate_free_area, do_align_valloc, align_scan, align_search, alloc,
  memalign,
}
use enb_l1_b4860_ppc.Allocator.Weights.{weight, same, same_self}
use enb_l1_b4860_ppc.Allocator.Buckets.{held, on-le}
use enb_l1_b4860_ppc.Allocator.Pairs.{pairs}
use enb_l1_b4860_ppc.Allocator.State.{Holds, SameSegment}
use enb_l1_b4860_ppc.Allocator.Splice.{live}
use enb_l1_b4860_ppc.Allocator.Search.{
  entry-list_index, requeue-Holds, perhaps, passed-perhaps, scan-finds,
}
use enb_l1_b4860_ppc.Allocator.Trial.{Gives, allocate_free_area-Gives, do_align_valloc-Gives}
use enb_l1_b4860_ppc.Allocator.Defs.{get_free_area_list, drop}

-- What the two functions do with the result of a search: NULL and no change, or a block.
abbrev pub Allocates : (Area → Type 0) → Mm → ℕ × Mm → Type 0
Allocates Good mm r =
    (r ≡ (0, mm))
    ⊎ ((block : Area) × (r.0 ≡ block.address)
        × Good block
        × Holds none r.1
        × SameSegment mm r.1
        × (pairs false r.1.global ≤ pairs false mm.global)
        × ((w : Area → ℕ) → live w r.1 ≡ w block + live w mm))

finish-Allocates :
    (Good Fit : Area → Type 0) (mm : Mm) (v : Holds none mm) (k : ℕ) (e : Area) (t : Option Area)
    (r : Option Area × Mm)
    → ((w : Area → ℕ) → perhaps w t + w e ≤ held w k mm.free_area_lists)
    → ((b : Area) → Good b → Fit b)
    → Gives Good e mm r
    → Allocates Fit mm (finish r.0 t r.1)
unfolding perhaps list_add_free_area list_remove_free_area
finish-Allocates Good Fit mm v k e t r sum fit (inl h) = inl (rw h refl)
finish-Allocates Good Fit mm v k e none r sum fit (inr (b, mm', h, g, taken)) =
    rw h (inr (b, refl, fit b g, taken.holds, taken.segment, taken.neat, taken.adds))
finish-Allocates Good Fit mm v k e (some t) r sum fit (inr (b, mm', h, g, taken)) =
    let i = entry-list_index v t k (omega (arith, sum (same t), same_self t)) in
    let j = entry-list_index v e k (omega (arith, sum (same e), same_self e)) in
    let still : 0 < held (same t) (list_index t.size) mm'.free_area_lists = rw i (
      omega (
        arith,
        sum (same t),
        same_self t,
        taken.keeps (same t) k,
        on-le (list_index e.size) k (same t e),
      )) in
    rw h (
      inr (
        b,
        refl,
        fit b g,
        requeue-Holds t taken.holds still,
        taken.segment,
        taken.neat,
        taken.adds,
      ))

module _ (kmalloc : ℕ → ℕ → Bool) (size align : ℕ) (mm : Mm) where
  align_scan-finds :
      (tptr : Option Area) (es : List Area) (e : Area) (t : Option Area)
      → align_scan kmalloc size align mm tptr es ≡ some (e, t)
      → (w : Area → ℕ) → perhaps w t + w e ≤ perhaps w tptr + weight w es
  unfolding align_scan weight
  align_scan-finds tptr [] e t h w = ground arith
  align_scan-finds tptr (x ∷ es) e t h w =
      elim (Option-cases (do_align_valloc kmalloc x align size mm).0) [
        | inl p ↦ omega (
          arith,
          align_scan-finds (passed tptr x) es e t (ground arith) w,
          passed-perhaps w tptr x,
        )
        | inr (b, p) ↦
            let at : x ≡ e = ground arith in
            let same_t : tptr ≡ t = ground arith in ground (arith, ap w at, ap (perhaps w) same_t)
      ]

  align_search-finds :
      (ls : List AreaList) (e : Area) (t : Option Area)
      → align_search kmalloc size align mm ls ≡ some (e, t)
      → (k : ℕ) × ((w : Area → ℕ) → perhaps w t + w e ≤ held w k ls)
  unfolding align_search perhaps
  align_search-finds [] e t h = ground arith
  align_search-finds (l ∷ ls) e t h =
      elim (Option-cases (align_scan kmalloc size align mm none l.entries)) [
        | inl p ↦ let (k, sum) = align_search-finds ls e t (ground arith) in (suc k, sum)
        | inr ((x, y), p) ↦
            (0, λ w. omega (arith, align_scan-finds none l.entries e t (ground arith) w))
      ]

held-drop :
    (i k : ℕ) (ls : List AreaList) → (n : ℕ) × ((w : Area → ℕ) → held w k (drop i ls) ≡ held w n ls)
held-drop zero k ls = (k, λ w. refl)
held-drop (suc i) k [] = (k, λ w. refl)
held-drop (suc i) k (l ∷ ls) = let (n, eq) = held-drop i k ls in (suc n, eq)

-- What a search finds is an entry of the list of its size.
found-entry :
    {mm : Mm} (v : Holds none mm) (k : ℕ) (e : Area) (t : Option Area)
    → ((w : Area → ℕ) → perhaps w t + w e ≤ held w k mm.free_area_lists)
    → 0 < held (same e) (list_index e.size) mm.free_area_lists
found-entry {mm} v k e t sum =
    let there : 0 < held (same e) k mm.free_area_lists = omega (arith, sum (same e), same_self e) in
    rw (entry-list_index v e k there) there

module _ (kmalloc : ℕ → ℕ → Bool) (size : ℕ) {mm : Mm} (v : Holds none mm) where
  -- On lists that agree `__alloc` returns NULL and changes nothing, or it returns the address of a
  -- block of the size that was asked for: then the lists agree, on the same segment, there are no
  -- more free neighbours than before, and the allocated areas are those of before and the block.
  pub alloc-Allocates : Allocates (λ b. b.size ≡ size) mm (alloc kmalloc size mm)
  unfolding alloc perhaps
  alloc-Allocates = elim (ℕ_discrete size 0) [
    | yes z ↦ inl (ground arith)
    | no pos ↦ elim (Option-cases (get_free_area_list size mm)) [
      | inl h ↦ inl (ground arith)
      | inr (i, h) ↦
          elim (Option-cases (scan size none (get_or mm.free_area_lists i no_entries).entries)) [
            | inl g ↦ inl (ground arith)
            | inr ((e, t), g) ↦
                let (large, sum) =
                  scan-finds size none (get_or mm.free_area_lists i no_entries).entries e t g in
                let sum' : (w : Area → ℕ) → perhaps w t + w e ≤ held w i mm.free_area_lists =
                  λ w. omega (arith, sum w) in
                let entry = found-entry v i e t sum' in
                let go : alloc kmalloc size mm
                    ≡ finish (allocate_free_area kmalloc e size mm).0 t
                        (allocate_free_area kmalloc e size mm).1 =
                  ground arith in
                subst (Allocates (λ b. b.size ≡ size) mm) (sym go) (
                  finish-Allocates (λ b. (b.address ≡ e.address) × (b.size ≡ size))
                    (λ b. b.size ≡ size) mm v i e t (allocate_free_area kmalloc e size mm) sum'
                    (λ b g. g.1) (allocate_free_area-Gives v e entry kmalloc size (omega arith)))
          ]
    ]
  ]

  -- For an alignment that is a power of two up to 2 ^ 63, `__memalign` on lists that agree returns
  -- NULL and changes nothing, or it returns the address of a block of the size that was asked for,
  -- a multiple of the alignment: then the lists agree, on the same segment, there are no more free
  -- neighbours than before, and the allocated areas are those of before and the block.
  pub memalign-Allocates :
      (k m : ℕ)
      → k + suc m ≡ 64
      → Allocates
          (λ b. (b.address % 2 ^ k ≡ 0) × (b.size ≡ size))
          mm
          (memalign kmalloc size (2 ^ k) mm)
  unfolding memalign perhaps
  memalign-Allocates k m word =
      let Good : Area → Type 0 = λ b. (b.address % 2 ^ k ≡ 0) × (b.size ≡ size) in
      let some_align : 0 < 2 ^ k = ground (arith, one-le-pow k 2) in
      elim (ℕ_discrete size 0) [
        | yes z ↦ inl (ground arith)
        | no pos ↦ elim (Option-cases (get_free_area_list size mm)) [
          | inl h ↦ inl (ground arith)
          | inr (i, h) ↦
              elim (Option-cases
                (align_search kmalloc size (2 ^ k) mm (drop i mm.free_area_lists))) [
                  | inl g ↦ inl (ground arith)
                  | inr ((e, t), g) ↦
                      let (j, sum) =
                        align_search-finds kmalloc size (2 ^ k) mm (drop i mm.free_area_lists) e t
                          g in
                      let (n, eq) = held-drop i j mm.free_area_lists in
                      let sum' : (w : Area → ℕ) → perhaps w t + w e ≤ held w n mm.free_area_lists =
                        λ w. omega (arith, sum w, eq w) in
                      let entry = found-entry v n e t sum' in
                      let go : memalign kmalloc size (2 ^ k) mm
                          ≡ finish (do_align_valloc kmalloc e (2 ^ k) size mm).0 t
                              (do_align_valloc kmalloc e (2 ^ k) size mm).1 =
                        ground arith in
                      subst (Allocates Good mm) (sym go) (
                        finish-Allocates Good Good mm v n e t
                          (do_align_valloc kmalloc e (2 ^ k) size mm) sum' (λ b g. g)
                          (do_align_valloc-Gives v e entry kmalloc size (omega arith) k m word))
                ]
        ]
      ]
