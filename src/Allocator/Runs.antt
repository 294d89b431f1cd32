-- ===== src/Allocator/Runs.antt =====
-- The calls of the driver one after another, from the initialization of the segment.
use enb_l1_b4860_ppc.Common.{
  ℕ, zero, suc, ◌+◌, ◌%◌, ◌^◌, ◌<◌, ◌≡◌, refl, ap, ◌∙◌, Bool, false, List, [], ◌∷◌, none, arith,
  ◌==◌, if◌then◌else◌, replicate, inl, inr, ℕ_discrete,
}
use enb_l1_b4860_ppc.Allocator.Defs.{
  Area, Mm, no_entries, number_of_lists, remove_area, list_add_free_area, free_node,
}
use enb_l1_b4860_ppc.Allocator.Ops.{initialize, alloc, memalign, free}
use enb_l1_b4860_ppc.Allocator.Weights.{
  weight, total, same, same_self, find_area-some, find_area-weight, weight-remove_area,
}
use enb_l1_b4860_ppc.Allocator.Buckets.{held}
use enb_l1_b4860_ppc.Allocator.Pairs.{pairs}
use enb_l1_b4860_ppc.Allocator.Tiles.{Tiles}
use enb_l1_b4860_ppc.Allocator.State.{as_free, as_allocated, as_pending, Holds}
use enb_l1_b4860_ppc.Allocator.Coalesce.{list_add_free_area-Keeps}
use enb_l1_b4860_ppc.Allocator.Live.{place_of_live, live_unique}
use enb_l1_b4860_ppc.Allocator.Splice.{as_live, live, place-bounds}
use enb_l1_b4860_ppc.Allocator.Alloc.{Allocates, alloc-Allocates, memalign-Allocates}
use enb_l1_b4860_ppc.Allocator.Free.{Frees, at_address, free_null, free-Frees}

-- A segment that the types of the code hold.
pub record Segment (paddr size : ℕ) : Type 0 where
  pub psa_pos : 0 < paddr
  pub some_size : 0 < size
  pub address_word : paddr + size < 2 ^ 63
  pub size_word : size < 2 ^ 32

-- A call of the driver, with what `kmalloc` does in it. The alignment is a power of two.
pub data Call : Type 0 where
  alloc_call : (ℕ → ℕ → Bool) → ℕ → Call
  memalign_call : (ℕ → ℕ → Bool) → ℕ → (k m : ℕ) → k + suc m ≡ 64 → Call
  free_call : ℕ → Call

-- The state, and the blocks that were handed out and not freed since, with the sizes asked for.
pub record Run : Type 0 where
  pub mm : Mm
  pub blocks : List Area

abbrev pub handed_out : ℕ → ℕ × Mm → List Area → Run
handed_out size r blocks = record {
  mm = r.1;
  blocks = if r.0 == 0 then blocks else record { address = r.0; size = size } ∷ blocks;
}

unfoldable pub run_call : Call → Run → Run
run_call (alloc_call kmalloc size) r = handed_out size (alloc kmalloc size r.mm) r.blocks
run_call (memalign_call kmalloc size k m word) r =
    handed_out size (memalign kmalloc size (2 ^ k) r.mm) r.blocks
run_call (free_call ptr) r = record {
  mm = free ptr r.mm;
  blocks = if ptr == 0 then r.blocks else remove_area ptr r.blocks;
}

unfoldable pub run_calls : List Call → Run → Run
run_calls [] r = r
run_calls (c ∷ cs) r = run_calls cs (run_call c r)

-- The lists agree, no two free areas are neighbours, and the allocated areas are the blocks.
pub record Accounts (paddr size : ℕ) (r : Run) : Type 0 where
  pub holds : Holds none r.mm
  pub psa : r.mm.psa ≡ paddr
  pub shm_size : r.mm.shm_size ≡ size
  pub neat : pairs false r.mm.global ≡ 0
  pub accounts : (w : Area → ℕ) → live w r.mm ≡ weight w r.blocks

empty-held : (w : Area → ℕ) (n j : ℕ) → held w j (replicate n no_entries) ≡ 0
unfolding weight
empty-held w zero j = refl
empty-held w (suc n) zero = refl
empty-held w (suc n) (suc j) = empty-held w n j

pub initialize-Accounts :
    (paddr size : ℕ)
    → Segment paddr size
    → Accounts paddr size (record { mm = initialize paddr size; blocks = [] })
unfolding initialize Tiles total as_free as_allocated as_pending weight as_live list_add_free_area
    pairs
initialize-Accounts paddr size s =
    let word : size % 2 ^ 32 ≡ size = omega (arith, s.size_word) in
    let bare : Mm = record {
      psa = paddr;
      shm_size = size;
      global = free_node paddr (size % 2 ^ 32) ∷ [];
      free_area_lists = replicate (number_of_lists + 1) no_entries;
      allocated_area_lists = replicate (number_of_lists + 1) no_entries;
    } in
    record {
      holds =
          (list_add_free_area-Keeps {mm = bare} (record { address = paddr; size = size % 2 ^ 32 })
            (record {
              free_width = refl;
              allocated_width = refl;
              tiles = (refl, omega (arith, word, s.some_size), omega (arith, word));
              psa_pos = s.psa_pos;
              address_word = s.address_word;
              size_word = s.size_word;
              frees = λ w j. omega (arith, empty-held w (number_of_lists + 1) j);
              allocateds = λ w j. empty-held w (number_of_lists + 1) j;
            })).0;
      psa = refl;
      shm_size = refl;
      neat = refl;
      accounts = λ w. refl;
    }

remove_area-none : (a : ℕ) (es : List Area) → weight (at_address a) es ≡ 0 → remove_area a es ≡ es
unfolding weight at_address remove_area
remove_area-none a [] h = refl
remove_area-none a (e ∷ es) h = ground (arith, remove_area-none a es)

module _ {paddr n : ℕ} where
  handed_out-Accounts :
      (size : ℕ) (Good : Area → Type 0) (r : Run) (result : ℕ × Mm)
      → Accounts paddr n r
      → ((b : Area) → Good b → b.size ≡ size)
      → Allocates Good r.mm result
      → Accounts paddr n (handed_out size result r.blocks)
  unfolding weight
  handed_out-Accounts size Good r result v fit (inl h) = rw h (record {
    holds = v.holds;
    psa = v.psa;
    shm_size = v.shm_size;
    neat = v.neat;
    accounts = v.accounts;
  })
  handed_out-Accounts size Good r result v fit (inr (b, at, good, holds, segment, fewer, adds)) =
      let there : 0 < live (same b) result.1 = omega (arith, adds (same b), same_self b) in
      let lo = (place-bounds holds (place_of_live holds b there)).0 in
      let pos : (result.0 == 0) ≡ false = ground (arith, lo, holds.psa_pos) in
      let sized = fit b good in
      let block : Area = record { address = result.0; size = size } in
      let is_b : block ≡ b = ground arith in
      rw pos (record {
        holds = holds;
        psa = segment.0 ∙ v.psa;
        shm_size = segment.1 ∙ v.shm_size;
        neat = omega (arith, v.neat, fewer);
        accounts = λ w. omega (arith, adds w, ap w is_b, v.accounts w);
      })

  free-Accounts :
      (ptr : ℕ) (r : Run) (mm' : Mm)
      → Accounts paddr n r
      → Frees ptr r.mm mm'
      → Accounts paddr n (record { mm = mm'; blocks = remove_area ptr r.blocks })
  free-Accounts ptr r mm' v (inl (absent, same_mm)) =
      let kept =
        remove_area-none ptr r.blocks (omega (arith, absent, v.accounts (at_address ptr))) in
      rw (same_mm, kept)
        (record {
          holds = v.holds;
          psa = v.psa;
          shm_size = v.shm_size;
          neat = v.neat;
          accounts = v.accounts;
        })
  free-Accounts ptr r mm' v (inr (a, at, holds, segment, fewer, taken)) =
      let there : 0 < live (same a) r.mm = omega (arith, taken (same a), same_self a) in
      let (x, found, at') = find_area-some a r.blocks (omega (arith, there, v.accounts (same a))) in
      let (listed, _) = find_area-weight a.address r.blocks x found in
      let x_is_a = live_unique v.holds a x there (omega (arith, listed, v.accounts (same x))) at' in
      record {
        holds = holds;
        psa = segment.0 ∙ v.psa;
        shm_size = segment.1 ∙ v.shm_size;
        neat = omega (arith, v.neat, fewer);
        accounts = λ w.
            let removed = weight-remove_area w a.address r.blocks x found in
            let gone = ap (λ (k : ℕ). weight w (remove_area k r.blocks)) at in
            omega (arith, removed, gone, v.accounts w, taken w, ap w x_is_a);
      }

  pub run_call-Accounts :
      (c : Call) (r : Run) → Accounts paddr n r → Accounts paddr n (run_call c r)
  unfolding run_call
  run_call-Accounts (alloc_call kmalloc size) r v =
      handed_out-Accounts size (λ b. b.size ≡ size) r (alloc kmalloc size r.mm) v (λ b g. g)
        (alloc-Allocates kmalloc size v.holds)
  run_call-Accounts (memalign_call kmalloc size k m word) r v =
      handed_out-Accounts size (λ b. (b.address % 2 ^ k ≡ 0) × (b.size ≡ size)) r
        (memalign kmalloc size (2 ^ k) r.mm) v (λ b g. g.1)
        (memalign-Allocates kmalloc size v.holds k m word)
  run_call-Accounts (free_call ptr) r v = elim (ℕ_discrete ptr 0) [
    | yes z ↦
        rw (z, free_null r.mm)
          (record {
            holds = v.holds;
            psa = v.psa;
            shm_size = v.shm_size;
            neat = v.neat;
            accounts = v.accounts;
          })
    | no pos ↦
        let test : (ptr == 0) ≡ false = ground arith in
        rw test (free-Accounts ptr r (free ptr r.mm) v (free-Frees ptr r.mm pos v.holds))
  ]

  pub run_calls-Accounts :
      (cs : List Call) (r : Run) → Accounts paddr n r → Accounts paddr n (run_calls cs r)
  unfolding run_calls
  run_calls-Accounts [] r v = v
  run_calls-Accounts (c ∷ cs) r v = run_calls-Accounts cs (run_call c r) (run_call-Accounts c r v)
