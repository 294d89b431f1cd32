-- ===== src/Allocator/Tiles.antt =====
-- The list of all areas: it tiles an interval of addresses.
use enb_l1_b4860_ppc.Common.{
  ℕ, ◌+◌, ◌≤◌, ◌<◌, ◌≡◌, refl, ap, sym, Bool, true, List, [], ◌∷◌, ◌++◌, arith, if◌then◌else◌,
  Bool-cases, inl, inr,
}
use enb_l1_b4860_ppc.Allocator.Defs.{Area, Node, replace_node}
use enb_l1_b4860_ppc.Allocator.Weights.{total, same, same_eq, total-append}

-- The areas follow one another from the first address up to the second, and none is empty.
unfoldable pub Tiles : ℕ → List Node → ℕ → Type 0
Tiles a [] e = a ≡ e
Tiles a (n ∷ ns) e = (n.area.address ≡ a) × (0 < n.area.size) × Tiles (a + n.area.size) ns e

pub Tiles-le : (a : ℕ) (ns : List Node) (e : ℕ) → Tiles a ns e → a ≤ e
unfolding Tiles
Tiles-le a [] e t = omega arith
Tiles-le a (n ∷ ns) e (at, pos, t) = omega (arith, Tiles-le (a + n.area.size) ns e t)

pub Tiles-split :
    (a : ℕ) (xs ys : List Node) (e : ℕ)
    → Tiles a (xs ++ ys) e
    → (m : ℕ) × Tiles a xs m × Tiles m ys e
unfolding Tiles
Tiles-split a [] ys e t = (a, refl, t)
Tiles-split a (x ∷ xs) ys e (at, pos, t) =
    let (m, l, r) = Tiles-split (a + x.area.size) xs ys e t in (m, (at, pos, l), r)

pub Tiles-join :
    (a : ℕ) (xs : List Node) (m : ℕ) (ys : List Node) (e : ℕ)
    → Tiles a xs m
    → Tiles m ys e
    → Tiles a (xs ++ ys) e
unfolding Tiles
Tiles-join a [] m ys e l r = rw l r
Tiles-join a (x ∷ xs) m ys e (at, pos, l) r = (at, pos, Tiles-join (a + x.area.size) xs m ys e l r)

module _ (n : Node) (ys : List Node) where
  -- Where the node of a list stands, and that no node before it has its address.
  pub Tiles-bounds :
      (a : ℕ) (xs : List Node) (e : ℕ)
      → Tiles a (xs ++ (n ∷ ys)) e
      → (a ≤ n.area.address) × (0 < n.area.size) × (n.area.address + n.area.size ≤ e)
  unfolding Tiles
  Tiles-bounds a xs e t =
      let (m, l, (at, pos, r)) = Tiles-split a xs (n ∷ ys) e t in
      (omega (arith, Tiles-le a xs m l), pos, omega (arith, Tiles-le (m + n.area.size) ys e r))

  pub replace_node-split :
      (new : List Node) (a : ℕ) (xs : List Node) (e : ℕ)
      → Tiles a (xs ++ (n ∷ ys)) e
      → replace_node n.area.address new (xs ++ (n ∷ ys)) ≡ xs ++ (new ++ ys)
  unfolding Tiles replace_node
  replace_node-split new a [] e t = ground arith
  replace_node-split new a (x ∷ xs) e (at, pos, t) =
      let (lo, some_size, hi) = Tiles-bounds (a + x.area.size) xs e t in
      ground (arith, replace_node-split new (a + x.area.size) xs e t)

-- A node that some entry of a list counts for.
pub find_node :
    (p : Node → Bool) (ns : List Node)
    → 0 < total (λ n. if p n then 1 else 0) ns
    → (xs : List Node) × (n : Node) × (ys : List Node) × (ns ≡ xs ++ (n ∷ ys)) × (p n ≡ true)
unfolding total
find_node p [] h = absurd (omega arith)
find_node p (n ∷ ns) h = elim (Bool-cases (p n)) [
  | inl e ↦ ([], n, ns, refl, e)
  | inr e ↦
      let (xs, m, ys, eq, found) = find_node p ns (ground arith) in
      (n ∷ xs, m, ys, ap (λ (t : List Node). n ∷ t) eq, found)
]

-- The areas before and behind an address do not have it.
below-none :
    (x : Area) (a : ℕ) (ns : List Node) (e : ℕ)
    → Tiles a ns e
    → e ≤ x.address
    → total (λ n. same x n.area) ns ≡ 0
unfolding Tiles total same
below-none x a [] e t h = refl
below-none x a (n ∷ ns) e (at, pos, t) h =
    ground (arith, below-none x (a + n.area.size) ns e t h, Tiles-le (a + n.area.size) ns e t)

above-none :
    (x : Area) (a : ℕ) (ns : List Node) (e : ℕ)
    → Tiles a ns e
    → x.address < a
    → total (λ n. same x n.area) ns ≡ 0
unfolding Tiles total same
above-none x a [] e t h = refl
above-none x a (n ∷ ns) e (at, pos, t) h =
    ground (arith, above-none x (a + n.area.size) ns e t (omega arith))

-- No two nodes have the same address.
pub area_unique :
    (x : Area) (a : ℕ) (xs : List Node) (n : Node) (ys : List Node) (e : ℕ)
    → Tiles a (xs ++ (n ∷ ys)) e
    → x.address ≡ n.area.address
    → 0 < total (λ m. same x m.area) (xs ++ (n ∷ ys))
    → x ≡ n.area
unfolding Tiles total
area_unique x a xs n ys e t eq h =
    let (m, l, (at, pos, r)) = Tiles-split a xs (n ∷ ys) e t in
    let left = below-none x a xs m l (omega arith) in
    let right = above-none x (m + n.area.size) ys e r (omega arith) in
    let sum = total-append (λ m. same x m.area) xs (n ∷ ys) in
    sym (same_eq x n.area (omega (arith, left, right, sum)))
