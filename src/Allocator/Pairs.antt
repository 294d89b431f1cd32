-- ===== src/Allocator/Pairs.antt =====
-- Neighbours that are both free, which freeing merges.
use enb_l1_b4860_ppc.Common.{
  ℕ, ◌+◌, ◌≤◌, ◌≡◌, refl, Bool, true, false, ◌&&◌, List, [], ◌∷◌, ◌++◌, arith, ◌==◌, if◌then◌else◌,
  Bool-cases, inl, inr,
}
use enb_l1_b4860_ppc.Allocator.Defs.{Node}

-- The number of them, behind a node that is free or not.
unfoldable pub pairs : Bool → List Node → ℕ
pairs b [] = 0
pairs b (n ∷ ns) = (if b && n.tag == 0 then 1 else 0) + pairs (n.tag == 0) ns

-- Whether the last node is free.
unfoldable pub ends : Bool → List Node → Bool
ends b [] = b
ends b (n ∷ ns) = ends (n.tag == 0) ns

pub pairs-append :
    (b : Bool) (xs ys : List Node) → pairs b (xs ++ ys) ≡ pairs b xs + pairs (ends b xs) ys
unfolding pairs ends
pairs-append b [] ys = omega arith
pairs-append b (x ∷ xs) ys = omega (arith, pairs-append (x.tag == 0) xs ys)

pub ends-append : (b : Bool) (xs ys : List Node) → ends b (xs ++ ys) ≡ ends (ends b xs) ys
unfolding ends
ends-append b [] ys = refl
ends-append b (x ∷ xs) ys = ends-append (x.tag == 0) xs ys

-- Behind a free node there may be one more.
pub pairs-le : (b : Bool) (ns : List Node) → pairs b ns ≤ pairs true ns
unfolding pairs
pairs-le b [] = omega arith
pairs-le b (n ∷ ns) = ground arith

-- A free node gives way to nodes that are not neighbours of each other.
pub pairs-replace :
    (xs : List Node) (n : Node) (new ys : List Node)
    → n.tag ≡ 0
    → pairs true new ≤ 1
    → pairs false new ≡ 0
    → pairs false (xs ++ (new ++ ys)) ≤ pairs false (xs ++ (n ∷ ys))
unfolding pairs
pairs-replace xs n new ys h one zero_pairs =
    let whole = pairs-append false xs (n ∷ ys) in
    let parts = pairs-append false xs (new ++ ys) in
    let inner = pairs-append (ends false xs) new ys in
    let right = pairs-le (ends (ends false xs) new) ys in
    elim (Bool-cases (ends false xs)) [
      | inl e ↦ ground (arith, whole, parts, inner, right)
      | inr e ↦ ground (arith, whole, parts, inner, right)
    ]
