-- ===== src/Allocator/Trial.antt =====
-- The attempts to allocate out of one free area.
use enb_l1_b4860_ppc.Common.{
  ℕ, suc, ◌+◌, ◌%◌, ◌^◌, ◌≤◌, ◌<◌, ◌≡◌, refl, subst, ◌∙◌, Bool, true, false, Option, none, some,
  arith, ◌==◌, ◌||◌, ◌&&◌, leb, ltb, not, ◌⊎◌, inl, inr, ℕ_discrete, Bool-cases,
}
use enb_l1_b4860_ppc.Allocator.Defs.{Area, Mm, add64, list_index}
use enb_l1_b4860_ppc.Allocator.Ops.{
  take_whole, take_start, take_inside, allocate_free_area, align_down, do_align_valloc,
}
use enb_l1_b4860_ppc.Allocator.Align.{align_down-below, half_word}
use enb_l1_b4860_ppc.Allocator.Weights.{same}
use enb_l1_b4860_ppc.Allocator.Buckets.{held}
use enb_l1_b4860_ppc.Allocator.State.{Holds, place_of_free}
use enb_l1_b4860_ppc.Allocator.Splice.{place-bounds}
use enb_l1_b4860_ppc.Allocator.Moves.{Taken, take_whole-Taken, take_start-Taken}
use enb_l1_b4860_ppc.Allocator.Inside.{take_inside-Taken}

-- What a trial returns, and what an allocation that is made has as its block.
abbrev pub Gives : (Area → Type 0) → Area → Mm → Option Area × Mm → Type 0
Gives Good ptr mm r =
    (r ≡ (none, mm))
    ⊎ ((block : Area) × (mm' : Mm) × (r ≡ (some block, mm')) × Good block × Taken ptr block mm mm')

module _ {mm : Mm} (v : Holds none mm) (ptr : Area)
    (entry : 0 < held (same ptr) (list_index ptr.size) mm.free_area_lists) (kmalloc : ℕ → ℕ → Bool)
    (size : ℕ) (some_size : 0 < size) where
  pub allocate_free_area-Gives :
      Gives
        (λ b. (b.address ≡ ptr.address) × (b.size ≡ size))
        ptr
        mm
        (allocate_free_area kmalloc ptr size mm)
  unfolding allocate_free_area
  allocate_free_area-Gives = elim (ℕ_discrete ptr.size size) [
    | yes p ↦ inr (ptr, take_whole ptr mm, ground arith, (refl, p), take_whole-Taken v ptr entry)
    | no n ↦ elim (Bool-cases (ltb size ptr.size)) [
      | inr l ↦ inl (ground arith)
      | inl l ↦ elim (Bool-cases (kmalloc ptr.address 0)) [
        | inr m ↦ inl (ground arith)
        | inl m ↦ inr (
          record { address = ptr.address; size = size },
          take_start ptr size mm,
          ground arith,
          (refl, refl),
          take_start-Taken v ptr entry size some_size (ground arith),
        )
      ]
    ]
  ]

  bounds : (mm.psa ≤ ptr.address) × (0 < ptr.size) × (ptr.address + ptr.size ≤ mm.psa + mm.shm_size)
  bounds = place-bounds v (place_of_free v ptr (list_index ptr.size) entry)

  module _ (k m : ℕ) (word : k + suc m ≡ 64) where
    abbrev align : ℕ
    align = 2 ^ k

    abbrev start : ℕ
    start = align_down (add64 ptr.address align) align

    abbrev end : ℕ
    end = add64 ptr.address ptr.size

    -- The first aligned address behind the area's own.
    start-aligned : (start % align ≡ 0) × (ptr.address < start) × (start ≤ ptr.address + align)
    start-aligned =
        let half = half_word k m word in
        let sum : ptr.address + align ≡ add64 ptr.address align =
          omega (arith, bounds, v.address_word, half) in
        let (zero_rest, below, next) =
          align_down-below k (suc m) (ptr.address + align) word
            (omega (arith, bounds, v.address_word, half)) in
        subst
          (λ (t : ℕ).
            (align_down t align % align ≡ 0)
            × (ptr.address < align_down t align)
            × (align_down t align ≤ ptr.address + align))
          sum (zero_rest, omega (arith, next), below)

    start-fits :
        (ltb start end && leb (add64 start size) end) ≡ true
        → ltb ptr.size size ≡ false
        → start + size ≤ ptr.address + ptr.size
    start-fits r p =
        let e : end ≡ ptr.address + ptr.size = omega (arith, bounds, v.address_word) in
        let room : size ≤ ptr.size = ground arith in
        let before_end : start < end = ground arith in
        let f : add64 start size ≡ start + size =
          omega (arith, e, room, before_end, bounds, v.address_word, v.size_word) in
        ground (arith, e, f)

    abbrev at_start : Bool
    at_start =
        ptr.address == 0
        || (not (align_down ptr.address align == 0) && align_down ptr.address align == ptr.address)

    at_start-aligned : at_start ≡ true → ptr.address % align ≡ 0
    at_start-aligned q =
        let low =
          align_down-below k (suc m) ptr.address word (omega (arith, bounds, v.address_word)) in
        let same_address : align_down ptr.address align ≡ ptr.address =
          ground (arith, bounds, v.psa_pos) in
        subst (λ (t : ℕ). t % align ≡ 0) same_address low.0

    pub do_align_valloc-Gives :
        Gives
          (λ b. (b.address % 2 ^ k ≡ 0) × (b.size ≡ size))
          ptr
          mm
          (do_align_valloc kmalloc ptr (2 ^ k) size mm)
    unfolding do_align_valloc
    do_align_valloc-Gives = elim (Bool-cases (ltb ptr.size size)) [
      | inl p ↦ inl (ground arith)
      | inr p ↦ elim (Bool-cases at_start) [
        | inl q ↦
            let go : do_align_valloc kmalloc ptr align size mm
                ≡ allocate_free_area kmalloc ptr size mm =
              ground arith in
            elim allocate_free_area-Gives [
              | inl e ↦ inl (go ∙ e)
              | inr (b, mm', e, (a, s), t) ↦ inr (b, mm', go ∙ e, (rw a (at_start-aligned q), s), t)
            ]
        | inr q ↦ elim (Bool-cases (ltb start end && leb (add64 start size) end)) [
          | inr r ↦ inl (ground arith)
          | inl r ↦
              elim (Bool-cases (
                not (kmalloc ptr.address 0)
                || (not (add64 start size == end) && not (kmalloc ptr.address 1)))) [
                  | inl s ↦ inl (ground arith)
                  | inr s ↦ inr (
                    record { address = start; size = size },
                    take_inside ptr start size mm,
                    ground arith,
                    (start-aligned.0, refl),
                    take_inside-Taken v ptr entry start size some_size start-aligned.1
                        (start-fits r p),
                  )
                ]
        ]
      ]
    ]
