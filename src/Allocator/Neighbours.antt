-- ===== src/Allocator/Neighbours.antt =====
-- The nodes next to one in the list of all areas.
use enb_l1_b4860_ppc.Common.{
  ℕ, ◌+◌, ◌≤◌, ◌<◌, ◌≡◌, refl, ap, List, [], ◌∷◌, ◌++◌, Option, none, some, arith, ◌⊎◌, inl, inr,
}
use enb_l1_b4860_ppc.Allocator.Defs.{Node, replace_node, g_next, g_prev}
use enb_l1_b4860_ppc.Allocator.Tiles.{Tiles, Tiles-le}

-- A node behind areas that end at its address, or before it.
pub replace_node-behind :
    (n : Node) (new ys : List Node) (a : ℕ) (xs : List Node) (m : ℕ)
    → Tiles a xs m
    → m ≤ n.area.address
    → replace_node n.area.address new (xs ++ (n ∷ ys)) ≡ xs ++ (new ++ ys)
unfolding Tiles replace_node
replace_node-behind n new ys a [] m t h = ground arith
replace_node-behind n new ys a (x ∷ xs) m (at, pos, t) h = ground (
  arith,
  replace_node-behind n new ys (a + x.area.size) xs m t h,
  Tiles-le (a + x.area.size) xs m t,
)

pub replace_node-second :
    (p n : Node) (ys : List Node) (a : ℕ) (xs : List Node) (m : ℕ)
    → Tiles a xs m
    → m ≤ p.area.address
    → p.area.address < n.area.address
    → replace_node n.area.address [] (xs ++ (p ∷ (n ∷ ys))) ≡ xs ++ (p ∷ ys)
unfolding Tiles replace_node
replace_node-second p n ys a [] m t h l = ground arith
replace_node-second p n ys a (x ∷ xs) m (at, pos, t) h l = ground (
  arith,
  replace_node-second p n ys (a + x.area.size) xs m t h l,
  Tiles-le (a + x.area.size) xs m t,
)

abbrev pub first : List Node → Option Node
first [] = none
first (n ∷ ns) = some n

pub g_next-first :
    (n : Node) (ys : List Node) (a : ℕ) (xs : List Node) (m : ℕ)
    → Tiles a xs m
    → m ≤ n.area.address
    → g_next n.area.address (xs ++ (n ∷ ys)) ≡ first ys
unfolding Tiles g_next
g_next-first n [] a [] m t h = refl
g_next-first n (y ∷ ys) a [] m t h = ground arith
g_next-first n ys a (x ∷ []) m (at, pos, t) h =
    ground (arith, g_next-first n ys (a + x.area.size) [] m t h)
g_next-first n ys a (x ∷ z ∷ xs) m (at, pos, t) h = ground (
  arith,
  g_next-first n ys (a + x.area.size) (z ∷ xs) m t h,
  Tiles-le (a + x.area.size) (z ∷ xs) m t,
)

pub g_prev-none :
    (n : Node) (b : ℕ) (m : Node) (ys : List Node) (e : ℕ)
    → Tiles b ys e
    → n.area.address < b
    → g_prev n.area.address (m ∷ ys) ≡ none
unfolding Tiles g_prev
g_prev-none n b m [] e t h = refl
g_prev-none n b m (y ∷ ys) e (at, pos, t) h =
    ground (arith, g_prev-none n (b + y.area.size) y ys e t (omega arith))

pub g_prev-some :
    (p n : Node) (ys : List Node) (a : ℕ) (xs : List Node) (m : ℕ)
    → Tiles a xs m
    → m ≤ p.area.address
    → p.area.address < n.area.address
    → g_prev n.area.address (xs ++ (p ∷ (n ∷ ys))) ≡ some p
unfolding Tiles g_prev
g_prev-some p n ys a [] m t h l = ground arith
g_prev-some p n ys a (x ∷ []) m (at, pos, t) h l =
    ground (arith, g_prev-some p n ys (a + x.area.size) [] m t h l)
g_prev-some p n ys a (x ∷ z ∷ xs) m (at, pos, t) h l = ground (
  arith,
  g_prev-some p n ys (a + x.area.size) (z ∷ xs) m t h l,
  t,
  Tiles-le (a + x.area.size) (z ∷ xs) m t,
)

-- A list is empty or has a last element.
pub last_or_empty :
    (ns : List Node) → (ns ≡ []) ⊎ ((xs : List Node) × (p : Node) × (ns ≡ xs ++ (p ∷ [])))
last_or_empty [] = inl refl
last_or_empty (n ∷ ns) = elim (last_or_empty ns) [
  | inl h ↦ inr ([], n, ap (λ (t : List Node). n ∷ t) h)
  | inr (xs, p, h) ↦ inr (n ∷ xs, p, ap (λ (t : List Node). n ∷ t) h)
]
