-- ===== src/Common/Digits.antt =====
-- The recursion on binary digits that the bitwise operations share.
use Prim.Native.Nat.{ℕ, zero, suc, ◌+◌, ◌*◌, ◌/◌, ◌%◌, ◌≤◌, digits, bitwise}
use mathlib.Core.Path.{◌≡◌, refl, ap}
use native.Mathlib.Omega.{arith}

module _ (last : ℕ → ℕ) (on_digits : ℕ → ℕ → ℕ) where
  -- More fuel than the first number does not matter.
  surplus :
      (total fuel x y : ℕ)
      → x ≤ fuel
      → fuel ≤ total
      → digits last on_digits total x y ≡ digits last on_digits fuel x y
  surplus zero zero zero y h k = refl
  surplus zero (suc fuel) zero y h k = refl
  surplus (suc total) zero zero y h k = refl
  surplus (suc total) (suc fuel) zero y h k = refl
  surplus (suc total) (suc fuel) (suc x) y h k =
      ap (λ (t : ℕ). t * 2 + on_digits (suc x % 2) (y % 2))
        (surplus total fuel (suc x / 2) (y / 2) (omega arith) (omega arith))
  surplus total zero (suc x) y h k = absurd (omega arith)
  surplus zero (suc fuel) (suc x) y h k = absurd (omega arith)

  pub bitwise-suc :
      (x y : ℕ)
      → bitwise last on_digits (suc x) y
        ≡ bitwise last on_digits (suc x / 2) (y / 2) * 2 + on_digits (suc x % 2) (y % 2)
  bitwise-suc x y =
      ap (λ (t : ℕ). t * 2 + on_digits (suc x % 2) (y % 2))
        (surplus x (suc x / 2) (suc x / 2) (y / 2) (omega arith) (omega arith))
