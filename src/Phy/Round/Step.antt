-- ===== src/Phy/Round/Step.antt =====
-- The stimulus keeps step with the indications.
use enb_l1_b4860_ppc.Common.{
  ℕ, zero, suc, ◌+◌, ◌-◌, ◌%◌, ◌<◌, ◌≤◌, ◌≡◌, refl, ap, sym, inl, inr, ◌∙◌, arith, ◌==◌, leb, true,
  if◌then◌else◌, Bool-cases, word_mod, ◌/◌, mod-add-mod, mod-eq_of_lt, ap₂, subst,
}
use native.Mathlib.Nat.{mod-lt, mod_self, add-mod_right}
use enb_l1_b4860_ppc.Phy.Round.{Generator, is_due, stimulate, sync_tti, begin_tti, send_tti, round}

-- The items of the stimulus are those of the TTIs of its period, one for each, in order.
pub record IsPeriodic (g : Generator) : Type 0 where
  pub some_items : 0 < g.stim_len
  pub at_index : (i : ℕ) → i < g.stim_len → (g.stim_list i).tti ≡ i

-- The stimulus is at the item of the next TTI.
pub IsInStep : Generator → Type 0
IsInStep g = g.stim_ptr ≡ (g.abs_tti + 1) % g.stim_len

-- The next place of a period.
next_in_period :
    (size a : ℕ) → 0 < size → (if leb size (a % size + 1) then 0 else a % size + 1) ≡ (a + 1) % size
next_in_period size a h =
    let r = mod-lt a h in
    let small = mod-add-mod a size 1 in
    elim (Bool-cases (leb size (a % size + 1))) [
      | inl e ↦
          let last : a % size + 1 ≡ size = ground (arith, e, r) in
          rw e (sym (mod_self size) ∙ ap (λ k. k % size) (sym last) ∙ small)
      | inr e ↦ rw e (sym (mod-eq_of_lt (ground (arith, e, r))) ∙ small)
    ]

-- What a round changes of the stimulus.
abbrev next_ptr : Generator → ℕ
next_ptr g = if leb g.stim_len (g.stim_ptr + 1) then 0 else g.stim_ptr + 1

record Moved (g g' : Generator) : Type 0 where
  tti : g'.abs_tti ≡ g.abs_tti
  size : g'.stim_len ≡ g.stim_len
  items : g'.stim_list ≡ g.stim_list
  place : g'.stim_ptr ≡ (if is_due g then next_ptr g else g.stim_ptr)

send_tti-Moved : (g : Generator) → Moved g (send_tti g).0
unfolding send_tti stimulate
send_tti-Moved g = elim (Bool-cases (is_due g)) [
  | inl e ↦ record { tti = rw e refl; size = rw e refl; items = rw e refl; place = rw e refl }
  | inr e ↦ record { tti = rw e refl; size = rw e refl; items = rw e refl; place = rw e refl }
]

-- The indication of the TTI after the one that the generator is at, in a round.
unfoldable pub next_round : Generator → Generator
next_round g = let next = g.abs_tti + 1 in (round 0 (next / 10 % 1024) (next % 10) g).0

started : Generator → Generator
started g = begin_tti ((g.abs_tti + 1) / 10 % 1024) ((g.abs_tti + 1) % 10) g

next_round-Moved : (g : Generator) → Moved (started g) (next_round g)
unfolding next_round round started
next_round-Moved g = send_tti-Moved (started g)

started-tti : (g : Generator) → g.abs_tti + 1 < word_mod → (started g).abs_tti ≡ g.abs_tti + 1
unfolding started begin_tti sync_tti
started-tti g h = ground (arith, h)

next_round-tti : (g : Generator) → g.abs_tti + 1 < word_mod → (next_round g).abs_tti ≡ g.abs_tti + 1
next_round-tti g h = (next_round-Moved g).tti ∙ started-tti g h

next_round-IsPeriodic : (g : Generator) → IsPeriodic g → IsPeriodic (next_round g)
unfolding started begin_tti
next_round-IsPeriodic g v =
    let m = next_round-Moved g in
    record {
      some_items = omega (arith, m.size, v.some_items);
      at_index = λ i h. ap (λ l. (l i).tti) m.items ∙ v.at_index i (omega (arith, m.size, h));
    }

started-due :
    (g : Generator)
    → IsPeriodic g
    → g.stim_ptr < g.stim_len
    → g.abs_tti + 1 < word_mod
    → is_due (started g) ≡ (g.stim_ptr == (g.abs_tti + 1) % g.stim_len)
unfolding is_due started begin_tti
started-due g v p h =
    let e = started-tti g h in ap₂ (λ t n. t == n % g.stim_len) (v.at_index g.stim_ptr p) e

next_round-place :
    (g : Generator)
    → IsPeriodic g
    → g.stim_ptr < g.stim_len
    → g.abs_tti + 1 < word_mod
    → (next_round g).stim_ptr
      ≡ (if g.stim_ptr == (g.abs_tti + 1) % g.stim_len then next_ptr g else g.stim_ptr)
unfolding started begin_tti
next_round-place g v p h =
    (next_round-Moved g).place
    ∙ ap (λ b. if b then next_ptr g else g.stim_ptr) (started-due g v p h)

next_round-size : (g : Generator) → (next_round g).stim_len ≡ g.stim_len
unfolding started begin_tti
next_round-size g = (next_round-Moved g).size

-- A round at whose TTI the item is due leaves the stimulus in step, and so does each one after it.
next_round-IsInStep :
    (g : Generator) → IsPeriodic g → IsInStep g → g.abs_tti + 1 < word_mod → IsInStep (next_round g)
unfolding IsInStep
next_round-IsInStep g v e h =
    let r = mod-lt (g.abs_tti + 1) v.some_items in
    let due : (g.stim_ptr == (g.abs_tti + 1) % g.stim_len) ≡ true = ground (arith, e) in
    let place : (next_round g).stim_ptr ≡ next_ptr g =
      next_round-place g v (omega (arith, e, r)) h
      ∙ ap (λ b. if b then next_ptr g else g.stim_ptr) due in
    place
    ∙ ap (λ p. if leb g.stim_len (p + 1) then 0 else p + 1) e
    ∙ next_in_period g.stim_len (g.abs_tti + 1) v.some_items
    ∙ ap₂ (λ t n. (t + 1) % n) (sym (next_round-tti g h)) (sym (next_round-size g))

-- Several rounds with indications of TTIs in a row.
unfoldable pub run_rounds : ℕ → Generator → Generator
run_rounds zero g = g
run_rounds (suc n) g = run_rounds n (next_round g)

-- The item's TTI comes after `j` rounds more.
within :
    (j : ℕ) (g : Generator)
    → IsPeriodic g
    → g.stim_ptr < g.stim_len
    → g.abs_tti + 1 + j < word_mod
    → (g.abs_tti + 1 + j) % g.stim_len ≡ g.stim_ptr
    → (k : ℕ) × (k ≤ j) × IsInStep (run_rounds k g)
unfolding run_rounds IsInStep
within zero g v p h e = (0, omega arith, sym e ∙ ap (λ n. n % g.stim_len) (omega arith))
within (suc j) g v p h e = elim (Bool-cases (g.stim_ptr == (g.abs_tti + 1) % g.stim_len)) [
  | inl now ↦ (0, omega arith, ground (arith, now))
  | inr later ↦
      let place : (next_round g).stim_ptr ≡ g.stim_ptr =
        next_round-place g v p (omega arith)
        ∙ ap (λ b. if b then next_ptr g else g.stim_ptr) later in
      let t = next_round-tti g (omega arith) in
      let size = next_round-size g in
      let (k, few, done) =
        within j (next_round g) (next_round-IsPeriodic g v) (omega (arith, place, size, p))
          (omega (arith, t, h))
          (ap₂ (λ a n. (a + 1 + j) % n) t size
            ∙ ap (λ n. n % g.stim_len) (omega arith)
            ∙ e
            ∙ sym place) in
      (suc k, omega (arith, few), done)
]

-- The number of rounds until the place `p` of a period comes.
wait : (size a p : ℕ) → p < size → (j : ℕ) × (j < size) × ((a + j) % size ≡ p)
wait size a p h =
    let r = mod-lt a {m = size} (omega (arith, h)) in
    elim (Bool-cases (leb (a % size) p)) [
      | inl e ↦
          let le : a % size ≤ p = ground (arith, e) in
          (
            p - a % size,
            omega (arith, h),
            sym (mod-add-mod a size (p - a % size))
                ∙ ap (λ k. k % size) (omega (arith, le))
                ∙ mod-eq_of_lt h,
          )
      | inr e ↦
          let gt : p < a % size = ground (arith, e) in
          (
            p + size - a % size,
            omega (arith, gt, r),
            sym (mod-add-mod a size (p + size - a % size))
                ∙ ap (λ k. k % size) (omega (arith, r))
                ∙ add-mod_right p size
                ∙ mod-eq_of_lt h,
          )
    ]

run-tti :
    (n : ℕ) (g : Generator) → g.abs_tti + n < word_mod → (run_rounds n g).abs_tti ≡ g.abs_tti + n
unfolding run_rounds
run-tti zero g h = omega arith
run-tti (suc n) g h =
    let t = next_round-tti g (omega (arith, h)) in
    omega (arith, run-tti n (next_round g) (omega (arith, t, h)), t)

run-IsInStep :
    (n : ℕ) (g : Generator)
    → IsPeriodic g
    → IsInStep g
    → g.abs_tti + n < word_mod
    → IsInStep (run_rounds n g)
unfolding run_rounds
run-IsInStep zero g v e h = e
run-IsInStep (suc n) g v e h =
    let t = next_round-tti g (omega (arith, h)) in
    run-IsInStep n (next_round g) (next_round-IsPeriodic g v)
      (next_round-IsInStep g v e (omega (arith, h))) (omega (arith, t, h))

run-IsPeriodic : (n : ℕ) (g : Generator) → IsPeriodic g → IsPeriodic (run_rounds n g)
unfolding run_rounds
run-IsPeriodic zero g v = v
run-IsPeriodic (suc n) g v = run-IsPeriodic n (next_round g) (next_round-IsPeriodic g v)

run_add : (k m : ℕ) (g : Generator) → run_rounds (k + m) g ≡ run_rounds m (run_rounds k g)
unfolding run_rounds
run_add zero m g =
    let none_first : zero + m ≡ m = omega arith in ap (λ n. run_rounds n g) none_first
run_add (suc k) m g =
    let front : suc k + m ≡ suc (k + m) = omega arith in
    ap (λ n. run_rounds n g) front ∙ run_add k m (next_round g)

-- If the items of the stimulus are for the TTIs of its period, one for each in order, then whatever
-- place it is at, after as many rounds with indications in a row as it has items, or more, it is at
-- the item of the next TTI: the generator falls into step, and stays in it, as long as the counter
-- of TTIs stays below 2 ^ 32.
pub run_rounds-IsInStep :
    (n : ℕ) (g : Generator)
    → IsPeriodic g
    → g.stim_ptr < g.stim_len
    → g.stim_len ≤ n
    → g.abs_tti + n < word_mod
    → IsInStep (run_rounds n g)
run_rounds-IsInStep n g v p enough h =
    let (j, few, here) = wait g.stim_len (g.abs_tti + 1) g.stim_ptr p in
    let (k, early, done) = within j g v p (omega arith) here in
    let split : k + (n - k) ≡ n = omega arith in
    let t = run-tti k g (omega arith) in
    let later =
      run-IsInStep (n - k) (run_rounds k g) (run-IsPeriodic k g v) done (omega (arith, t)) in
    subst (λ r. IsInStep (run_rounds r g)) split (subst IsInStep (sym (run_add k (n - k) g)) later)
