-- ===== src/Allocator/Tests.antt =====
-- Runs of the allocator on small segments.
use enb_l1_b4860_ppc.Common.{
  ℕ, ◌%◌, ◌^◌, ◌≤◌, ◌<◌, ◌≡◌, refl, Bool, true, List, [], ◌∷◌, arith, ◌⊎◌, none,
}
use enb_l1_b4860_ppc.Allocator.Defs.{
  Mm, get_free_area_list, list_add, list_add_allocated_area, list_remove_free_area, list_remove,
  replace_node, remove_area, free_node, allocated_node,
}
use enb_l1_b4860_ppc.Allocator.Ops.{initialize, take_start, take_inside, alloc, memalign, free}
use enb_l1_b4860_ppc.Allocator.Weights.{weight}
use enb_l1_b4860_ppc.Allocator.State.{Holds}
use enb_l1_b4860_ppc.Allocator.Alloc.{Allocates, alloc-Allocates, memalign-Allocates}
use enb_l1_b4860_ppc.Allocator.Free.{Frees, free-Frees}
use enb_l1_b4860_ppc.Allocator.Live.{covers}
use enb_l1_b4860_ppc.Allocator.Large.{large_free, alloc-large}
use enb_l1_b4860_ppc.Allocator.Exact.{alloc-whole_segment}
use enb_l1_b4860_ppc.Allocator.Runs.{
  Segment, Call, alloc_call, memalign_call, free_call, run_call, run_calls, Accounts,
  initialize-Accounts,
}
use enb_l1_b4860_ppc.Allocator.Blocks.{boot, run_calls-boot, run_calls-disjoint, run_calls-drained}

abbrev works : ℕ → ℕ → Bool
works a k = true

segment : Segment 0x100010 0x20000
segment = record {
  psa_pos = omega arith;
  some_size = omega arith;
  address_word = omega arith;
  size_word = omega arith;
}

-- Two blocks, of which the second one is aligned, and both freed.
abbrev calls : List Call
calls =
    alloc_call works 0x9000
    ∷ memalign_call works 0x8100 12 51 refl
    ∷ free_call 0x100010
    ∷ free_call 0x10a000
    ∷ []

abbrev first_two : List Call
first_two = alloc_call works 0x9000 ∷ memalign_call works 0x8100 12 51 refl ∷ []

two_blocks :
    (run_calls first_two (boot 0x100010 0x20000)).mm.global
    ≡ allocated_node 0x100010 0x9000
      ∷ free_node 0x109010 0xff0
      ∷ allocated_node 0x10a000 0x8100
      ∷ free_node 0x112100 0xdf10
      ∷ []
unfolding run_calls run_call memalign get_free_area_list initialize list_add take_start
    list_add_allocated_area list_remove_free_area list_remove take_inside replace_node
two_blocks = refl

run_calls-boot_example : Accounts 0x100010 0x20000 (run_calls calls (boot 0x100010 0x20000))
run_calls-boot_example = run_calls-boot 0x100010 0x20000 segment calls

run_calls-disjoint_example :
    weight (covers 0x10a000) (run_calls first_two (boot 0x100010 0x20000)).blocks ≤ 1
run_calls-disjoint_example = run_calls-disjoint 0x100010 0x20000 segment first_two 0x10a000

all_freed : (run_calls calls (boot 0x100010 0x20000)).blocks ≡ []
unfolding run_calls run_call remove_area memalign get_free_area_list initialize list_add take_start
    list_add_allocated_area list_remove_free_area list_remove
all_freed = refl

run_calls-drained_example :
    (run_calls calls (boot 0x100010 0x20000)).mm.global ≡ free_node 0x100010 0x20000 ∷ []
run_calls-drained_example = run_calls-drained 0x100010 0x20000 segment calls all_freed

abbrev whole : Mm
whole = initialize 0x100010 0x20000

whole-Holds : Holds none whole
whole-Holds = (initialize-Accounts 0x100010 0x20000 segment).holds

alloc-Allocates_example : Allocates (λ b. b.size ≡ 0x9000) whole (alloc works 0x9000 whole)
alloc-Allocates_example = alloc-Allocates works 0x9000 whole-Holds

memalign-Allocates_example :
    Allocates
      (λ b. (b.address % 2 ^ 12 ≡ 0) × (b.size ≡ 0x8100))
      whole
      (memalign works 0x8100 (2 ^ 12) whole)
memalign-Allocates_example = memalign-Allocates works 0x8100 whole-Holds 12 51 refl

abbrev used : Mm
used = (run_calls first_two (boot 0x100010 0x20000)).mm

free-Frees_example : Frees 0x10a000 used (free 0x10a000 used)
free-Frees_example =
    free-Frees 0x10a000 used (omega arith) (run_calls-boot 0x100010 0x20000 segment first_two).holds

alloc-large_example :
    ((large_free 0x9000 whole.global ≡ 0) × (alloc works 0x9000 whole ≡ (0, whole)))
    ⊎ ((0 < large_free 0x9000 whole.global) × (0 < (alloc works 0x9000 whole).0))
alloc-large_example =
    alloc-large works (λ a k. refl) whole 0x9000 whole-Holds (omega arith) (omega arith)

alloc-whole_segment_example :
    (large_free 0x1800 (initialize 0x100010 0x1800).global ≡ 1)
    × (alloc works 0x1800 (initialize 0x100010 0x1800) ≡ (0, initialize 0x100010 0x1800))
alloc-whole_segment_example = alloc-whole_segment works 0x100010 0x1800 (omega arith)
