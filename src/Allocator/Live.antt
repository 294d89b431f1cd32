-- ===== src/Allocator/Live.antt =====
-- The areas that are allocated: each has its place, and its address to itself.
use enb_l1_b4860_ppc.Common.{
  ℕ, ◌+◌, ◌≤◌, ◌<◌, ◌≡◌, refl, ap, false, ◌&&◌, List, [], ◌∷◌, Option, arith, if◌then◌else◌, leb,
  ltb, ℕ_discrete,
}
use enb_l1_b4860_ppc.Allocator.Defs.{Area, Node, Mm, list_index}
use enb_l1_b4860_ppc.Allocator.Weights.{total, same, same_eq}
use enb_l1_b4860_ppc.Allocator.Buckets.{on}
use enb_l1_b4860_ppc.Allocator.Tiles.{Tiles, Tiles-le}
use enb_l1_b4860_ppc.Allocator.State.{
  as_allocated, Holds, Place, place_of_allocated, find_area-entry,
}
use enb_l1_b4860_ppc.Allocator.Splice.{as_live, live}

as_live-listed :
    (b : Area) (ns : List Node)
    → total (as_live (same b)) ns ≡ total (as_allocated (list_index b.address) (same b)) ns
unfolding total as_live as_allocated on
as_live-listed b [] = refl
as_live-listed b (n ∷ ns) = elim (ℕ_discrete (same b n.area) 0) [
  | yes p ↦ ground (arith, as_live-listed b ns)
  | no p ↦
      let eq = ap (λ (a : Area). list_index a.address) (same_eq b n.area (omega arith)) in
      ground (arith, eq, as_live-listed b ns)
]

as_live-le : (w : Area → ℕ) (ns : List Node) → total (as_live w) ns ≤ total (λ n. w n.area) ns
unfolding total as_live
as_live-le w [] = omega arith
as_live-le w (n ∷ ns) = ground (arith, as_live-le w ns)

module _ {pending : Option Area} {mm : Mm} (v : Holds pending mm) where
  pub place_of_live : (b : Area) → 0 < live (same b) mm → Place mm false b
  place_of_live b h =
      place_of_allocated v b (list_index b.address)
        (omega (arith, as_live-listed b mm.global, v.allocateds (same b) (list_index b.address)))

  pub live_unique :
      (a x : Area) → 0 < live (same a) mm → 0 < live (same x) mm → x.address ≡ a.address → x ≡ a
  live_unique a x ha hx at =
      find_area-entry v false (place_of_live a ha) x at
        (omega (arith, hx, as_live-le (same x) mm.global))

-- Whether an address lies in an area, as a weight.
unfoldable pub covers : ℕ → Area → ℕ
covers i x = if leb x.address i && ltb i (x.address + x.size) then 1 else 0

-- Areas that tile an interval cover each address in it once, and no other.
Tiles-covers :
    (i a : ℕ) (ns : List Node) (e : ℕ)
    → Tiles a ns e
    → total (λ n. covers i n.area) ns ≡ (if leb a i && ltb i e then 1 else 0)
unfolding Tiles total covers
Tiles-covers i a [] e t = ground arith
Tiles-covers i a (n ∷ ns) e (at, pos, t) =
    ground (arith, Tiles-covers i (a + n.area.size) ns e t, Tiles-le (a + n.area.size) ns e t)

-- So an address is in one of the allocated areas at most, and only if it is one of the segment.
pub live-covers :
    {pending : Option Area} {mm : Mm}
    → Holds pending mm
    → (i : ℕ) → live (covers i) mm ≤ (if leb mm.psa i && ltb i (mm.psa + mm.shm_size) then 1 else 0)
live-covers {pending} {mm} v i = omega (
  arith,
  as_live-le (covers i) mm.global,
  Tiles-covers i mm.psa mm.global (mm.psa + mm.shm_size) v.tiles,
)
