-- ===== src/Allocator/Blocks.antt =====
-- What the callers of the driver see: the blocks, from the initialization of the segment on.
use enb_l1_b4860_ppc.Common.{
  ℕ, ◌+◌, ◌-◌, ◌≤◌, ◌<◌, ◌≡◌, refl, ap, subst, ◌∙◌, true, false, ◌&&◌, List, [], ◌∷◌, arith,
  if◌then◌else◌, leb, ltb,
}
use enb_l1_b4860_ppc.Allocator.Defs.{Node, free_node}
use enb_l1_b4860_ppc.Allocator.Ops.{initialize}
use enb_l1_b4860_ppc.Allocator.Weights.{weight, total}
use enb_l1_b4860_ppc.Allocator.Pairs.{pairs}
use enb_l1_b4860_ppc.Allocator.Tiles.{Tiles}
use enb_l1_b4860_ppc.Allocator.Splice.{as_live, live}
use enb_l1_b4860_ppc.Allocator.Live.{covers, live-covers}
use enb_l1_b4860_ppc.Allocator.Runs.{
  Segment, Call, Run, run_calls, Accounts, initialize-Accounts, run_calls-Accounts,
}

-- The segment before the first call.
abbrev pub boot : ℕ → ℕ → Run
boot paddr size = record { mm = initialize paddr size; blocks = [] }

module _ (paddr size : ℕ) (segment : Segment paddr size) (cs : List Call) where
  -- On a segment that is not empty, not at address 0, and below 2 ^ 63 with a size below 2 ^ 32, from
  -- its initialization on and after any calls, whatever kmalloc does: the list of all areas tiles the segment, the lists of free and of allocated areas
  -- hold its areas and no other, no two free areas are neighbours, and the areas that are allocated are
  -- the blocks handed out and not freed since, with the sizes asked for.
  pub run_calls-boot : Accounts paddr size (run_calls cs (boot paddr size))
  run_calls-boot = run_calls-Accounts cs (boot paddr size) (initialize-Accounts paddr size segment)

  -- After any calls on such a segment, an address is in at most one of the blocks, and in none if it is outside of the
  -- segment: blocks never overlap.
  pub run_calls-disjoint :
      (i : ℕ)
      → weight (covers i) (run_calls cs (boot paddr size)).blocks
        ≤ (if leb paddr i && ltb i (paddr + size) then 1 else 0)
  run_calls-disjoint i =
      let v = run_calls-boot in
      let few = live-covers v.holds i in
      ground (arith, few, v.accounts (covers i), v.psa, v.shm_size)

-- Behind a free node, with nothing allocated, there is no other.
none_behind : (ns : List Node) → total (as_live (λ x. 1)) ns ≡ 0 → pairs true ns ≡ 0 → ns ≡ []
unfolding total as_live pairs
none_behind [] h neat = refl
none_behind (n ∷ ns) h neat = absurd (ground arith)

one_area :
    (a : ℕ) (ns : List Node) (e : ℕ)
    → Tiles a ns e
    → a < e
    → total (as_live (λ x. 1)) ns ≡ 0
    → pairs false ns ≡ 0
    → ns ≡ free_node a (e - a) ∷ []
unfolding total as_live pairs Tiles
one_area a [] e t h none_live neat = absurd (omega arith)
one_area a (n ∷ ns) e (at, pos, t) h none_live neat =
    let is_free : n.tag ≡ 0 = ground arith in
    let last = none_behind ns (ground arith) (ground arith) in
    let end : a + n.area.size ≡ e = subst (λ (l : List Node). Tiles (a + n.area.size) l e) last t in
    let sized : n.area.size ≡ e - a = omega (arith, end) in
    let node : n ≡ free_node a (e - a) = ground arith in rw (last, node) refl

module _ (paddr size : ℕ) (segment : Segment paddr size) (cs : List Call) where
  -- After any calls on such a segment, when every block has been freed, the whole segment is one free area again.
  pub run_calls-drained :
      (run_calls cs (boot paddr size)).blocks ≡ []
      → (run_calls cs (boot paddr size)).mm.global ≡ free_node paddr size ∷ []
  unfolding weight
  run_calls-drained h =
      let v = run_calls-boot paddr size segment cs in
      let r = run_calls cs (boot paddr size) in
      let none_live : live (λ x. 1) r.mm ≡ 0 =
        omega (arith, v.accounts (λ x. 1), ap (weight (λ x. 1)) h) in
      let tiles = v.holds.tiles in
      let whole =
        one_area r.mm.psa r.mm.global (r.mm.psa + r.mm.shm_size) tiles
          (omega (arith, v.psa, v.shm_size, segment.some_size)) none_live v.neat in
      let start = v.psa in
      let length : r.mm.psa + r.mm.shm_size - r.mm.psa ≡ size = omega (arith, v.shm_size) in
      whole
      ∙ ap (λ (a : ℕ). free_node a (r.mm.psa + r.mm.shm_size - r.mm.psa) ∷ []) start
      ∙ ap (λ (n : ℕ). free_node paddr n ∷ []) length
