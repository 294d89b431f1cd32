-- ===== src/BlockQueue/Accounting.antt =====
-- `accumulated_items_len`: the sizes of the items in the queue, added up modulo 2 ^ 32.
use enb_l1_b4860_ppc.Common.{ℕ, ◌+◌, ◌%◌, ◌<◌, ◌≡◌, ap, subst, List, [], ◌∷◌, ◌++◌, arith, word_mod}
use enb_l1_b4860_ppc.BlockQueue.{
  Item, BlockQueue, push, try_push, pop, try_pop, try_pop_timeout, store, discard, oldest,
}
use enb_l1_b4860_ppc.BlockQueue.Inv.{IsValid}
use enb_l1_b4860_ppc.BlockQueue.Refine.{
  Call, push_call, try_push_call, pop_call, try_pop_call, timed_pop_call, step, run, contents,
  IsOpen, contents-store, contents-discard, step-IsValid,
}

abbrev pub total : List Item → ℕ
total [] = 0
total (i ∷ is) = i.len + total is

-- Every size is a 32-bit number.
abbrev pub Fits : List Item → Type 0
Fits [] = Unit
Fits (i ∷ is) = (i.len < word_mod) × Fits is

abbrev pub CallFits : Call → Type 0
CallFits (push_call x n) = n < word_mod
CallFits (try_push_call x n) = n < word_mod
CallFits _ = Unit

abbrev pub CallsFit : List Call → Type 0
CallsFit [] = Unit
CallsFit (c ∷ cs) = CallFits c × CallsFit cs

abbrev pub IsAccounted : BlockQueue → Type 0
IsAccounted q = (q.accumulated_items_len ≡ total (contents q) % word_mod) × Fits (contents q)

total-append : (xs : List Item) (i : Item) → total (xs ++ (i ∷ [])) ≡ total xs + i.len
total-append [] i = omega arith
total-append (x ∷ xs) i = omega (arith, total-append xs i)

Fits-append : (xs : List Item) (i : Item) → Fits xs → i.len < word_mod → Fits (xs ++ (i ∷ []))
Fits-append [] i h k = (k, tt)
Fits-append (x ∷ xs) i h k = (h.0, Fits-append xs i h.1 k)

module _ {q : BlockQueue} (v : IsValid q) (a : IsAccounted q) where
  store-IsAccounted : (x n : ℕ) → q.num_items < q.len → n < word_mod → IsAccounted (store q x n)
  store-IsAccounted x n room h =
      let i : Item = record { ptr = x; len = n } in
      let all = total-append (contents q) i in
      rw (contents-store v x n room) (omega (arith, all, a.0), Fits-append (contents q) i a.1 h)

  discard-IsAccounted : 0 < q.num_items → IsAccounted (discard q)
  discard-IsAccounted pos =
      let split = contents-discard v pos in
      let all : IsAccounted q = a in
      let sum : total (contents q) ≡ (oldest q).len + total (contents (discard q)) =
        ap total split in
      let fits : Fits (oldest q ∷ contents (discard q)) = subst Fits split a.1 in
      (omega (arith, sum, all.0, fits.0), fits.1)

  pub step-IsAccounted : (c : Call) → IsOpen q → CallFits c → IsAccounted (step q c).1
  unfolding step push try_push pop try_pop try_pop_timeout
  step-IsAccounted (push_call x n) o h = ground (arith, store-IsAccounted x n)
  step-IsAccounted (try_push_call x n) o h = ground (arith, store-IsAccounted x n)
  step-IsAccounted pop_call o h = ground (arith, discard-IsAccounted)
  step-IsAccounted try_pop_call o h = ground (arith, discard-IsAccounted)
  step-IsAccounted (timed_pop_call rv) o h = ground (arith, discard-IsAccounted)

-- From a valid, unbroken and accounted queue, whatever calls follow, the stored total is that of
-- the sizes of the items then in the queue, modulo 2 ^ 32; the sizes pushed are 32-bit numbers.
pub run-accumulated :
    (cs : List Call) {q : BlockQueue}
    → IsValid q
    → IsOpen q
    → IsAccounted q
    → CallsFit cs
    → (run q cs).1.accumulated_items_len ≡ total (contents (run q cs).1) % word_mod
unfolding run
run-accumulated [] v o a h = a.0
run-accumulated (c ∷ cs) v o a h =
    let (v', o', _) = step-IsValid v c o in
    run-accumulated cs v' o' (step-IsAccounted v a c o h.0) h.1
