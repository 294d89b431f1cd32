-- ===== src/Allocator/Weights.antt =====
-- Sums over the entries of lists: what a list holds, whatever its order, is what every such sum is.
use enb_l1_b4860_ppc.Common.{
  ℕ, ◌+◌, ◌<◌, ◌≡◌, refl, ap, ◌&&◌, some, List, [], ◌∷◌, ◌++◌, arith, ◌==◌, if◌then◌else◌,
  ℕ_discrete,
}
use enb_l1_b4860_ppc.Allocator.Defs.{Area, Node, insert, find_area, remove_area}

-- The sum of a weight over areas, and over nodes.
unfoldable pub weight : (Area → ℕ) → List Area → ℕ
weight w [] = 0
weight w (e ∷ es) = w e + weight w es

unfoldable pub total : (Node → ℕ) → List Node → ℕ
total w [] = 0
total w (n ∷ ns) = w n + total w ns

pub weight-append :
    (w : Area → ℕ) (xs ys : List Area) → weight w (xs ++ ys) ≡ weight w xs + weight w ys
unfolding weight
weight-append w [] ys = omega arith
weight-append w (x ∷ xs) ys = omega (arith, weight-append w xs ys)

pub total-append : (w : Node → ℕ) (xs ys : List Node) → total w (xs ++ ys) ≡ total w xs + total w ys
unfolding total
total-append w [] ys = omega arith
total-append w (x ∷ xs) ys = omega (arith, total-append w xs ys)

pub weight-insert :
    (w : Area → ℕ) (h : ℕ) (e : Area) (es : List Area)
    → weight w (insert h e es) ≡ w e + weight w es
unfolding insert weight
weight-insert w h e [] = refl
weight-insert w h e (x ∷ es) = ground (arith, weight-append w es (e ∷ []))

pub weight-remove_area :
    (w : Area → ℕ) (a : ℕ) (es : List Area) (e : Area)
    → find_area a es ≡ some e
    → weight w (remove_area a es) + w e ≡ weight w es
unfolding find_area remove_area weight
weight-remove_area w a [] e h = ground arith
weight-remove_area w a (x ∷ es) e h = ground (arith, weight-remove_area w a es e, ap w)

-- Whether two areas are the same, as a weight.
unfoldable pub same : Area → Area → ℕ
same e x = if x.address == e.address && x.size == e.size then 1 else 0

pub same_self : (e : Area) → same e e ≡ 1
unfolding same
same_self e = ground arith

pub same_eq : (e x : Area) → 0 < same e x → x ≡ e
unfolding same
same_eq e x h = ground arith

-- An entry with an address is found if there is one.
pub find_area-some :
    (e : Area) (es : List Area)
    → 0 < weight (same e) es
    → (x : Area) × (find_area e.address es ≡ some x) × (x.address ≡ e.address)
unfolding weight find_area same
find_area-some e [] h = absurd (omega arith)
find_area-some e (x ∷ es) h = elim (ℕ_discrete x.address e.address) [
  | yes p ↦ (x, ground arith, p)
  | no n ↦ let (y, found, at) = find_area-some e es (ground arith) in (y, ground arith, at)
]

pub find_area-weight :
    (a : ℕ) (es : List Area) (e : Area)
    → find_area a es ≡ some e
    → (0 < weight (same e) es) × (e.address ≡ a)
unfolding weight find_area
find_area-weight a [] e h = ground arith
find_area-weight a (x ∷ es) e h = ground (arith, find_area-weight a es e, same_self e)
