-- ===== src/Common/Window.antt =====
-- A run of slots of an array that is indexed modulo its size: what the block queue and the IPC
-- channels hold.
use enb_l1_b4860_ppc.Common.{
  ℕ, zero, suc, ◌+◌, ◌-◌, ◌%◌, ◌≤◌, ◌<◌, ◌≡◌, refl, ap, ap₂, ◌∙◌, ◌≢◌, List, [], ◌∷◌, ◌++◌, arith,
  length, get_or, set, get_or-set_self, get_or-set_ne, mod-eq_of_lt, mod-eq-sub-mod, mod-add-mod,
  dec_lt,
}

-- Fewer than `size` steps round the array do not come back to the start.
pub wrap_ne : {size h : ℕ} (k : ℕ) → h < size → 0 < k → k < size → (h + k) % size ≢ h
wrap_ne {size} {h} k hh hk lt = elim (dec_lt (h + k) size) [
  | yes p ↦ omega (arith, mod-eq_of_lt p)
  | no p ↦ omega (
    arith,
    mod-eq-sub-mod {n = h + k} {m = size} (omega arith),
    mod-eq_of_lt {n = h + k - size} {m = size} (omega arith),
  )
]

shift_mod : (size h n : ℕ) → (h + suc n) % size ≡ ((h + 1) % size + n) % size
shift_mod size h n = rw mod-add-mod (ap (λ k. k % size) (omega arith))

module _ {ℓ} {A : Type ℓ} (d : A) where
  -- The `n` entries from index `h` on, going round at `size`.
  abbrev pub window : List A → ℕ → ℕ → ℕ → List A
  window buf size h zero = []
  window buf size h (suc n) = get_or buf h d ∷ window buf size ((h + 1) % size) n

  pub length-window : (buf : List A) (size h n : ℕ) → length (window buf size h n) ≡ n
  length-window buf size h zero = refl
  length-window buf size h (suc n) = ap suc (length-window buf size ((h + 1) % size) n)

  -- The code tests its count against 0 where `window` matches on `suc`.
  pub window_of_pos :
      (buf : List A) (size h n : ℕ)
      → 0 < n
      → window buf size h n ≡ get_or buf h d ∷ window buf size ((h + 1) % size) (n - 1)
  window_of_pos buf size h zero p = absurd (omega arith)
  window_of_pos buf size h (suc n) p = ap (λ k. window buf size h (suc k)) (omega arith)

  -- A write just past a window extends it by that entry.
  pub window-set :
      (buf : List A) (size : ℕ) (x : A) (n h i : ℕ)
      → size ≤ length buf
      → h < size
      → n < size
      → i ≡ (h + n) % size
      → window (set buf i x) size h (suc n) ≡ window buf size h n ++ (x ∷ [])
  window-set buf size x zero h i hs hh hn e =
      let at_h : i ≡ h = omega (arith, mod-eq_of_lt {n = h + 0} {m = size} (omega arith)) in
      rw (at_h, get_or-set_self buf h x d (omega arith))
  window-set buf size x (suc n) h i hs hh hn e =
      let away : i ≢ h = rw e (wrap_ne (suc n) hh (omega arith) hn) in
      ap₂ ◌∷◌ (get_or-set_ne buf i h x d away) (
        window-set buf size x n ((h + 1) % size) i hs (omega arith) (omega arith)
          (e ∙ shift_mod size h n))

  -- A write just past a window leaves it as it is.
  pub window-set_past :
      (buf : List A) (size : ℕ) (x : A) (n h i : ℕ)
      → h < size
      → n < size
      → i ≡ (h + n) % size
      → window (set buf i x) size h n ≡ window buf size h n
  window-set_past buf size x zero h i hh hn e = refl
  window-set_past buf size x (suc n) h i hh hn e =
      let away : i ≢ h = rw e (wrap_ne (suc n) hh (omega arith) hn) in
      ap₂ ◌∷◌ (get_or-set_ne buf i h x d away) (
        window-set_past buf size x n ((h + 1) % size) i (omega arith) (omega arith)
          (e ∙ shift_mod size h n))

  -- A window that is one longer ends with the entry just past the other.
  pub window_end :
      (buf : List A) (size n h i : ℕ)
      → h < size
      → i ≡ (h + n) % size
      → window buf size h (suc n) ≡ window buf size h n ++ (get_or buf i d ∷ [])
  window_end buf size zero h i hh e =
      let at_h : i ≡ h = omega (arith, mod-eq_of_lt {n = h + 0} {m = size} (omega arith)) in
      rw at_h refl
  window_end buf size (suc n) h i hh e =
      ap (λ t. get_or buf h d ∷ t)
        (window_end buf size n ((h + 1) % size) i (omega arith) (e ∙ shift_mod size h n))
