-- ===== src/Fapi/Lists.antt =====
-- Two lists that are copied behind one another into a message.
use enb_l1_b4860_ppc.Common.{
  ℕ, ◌+◌, ◌*◌, ◌≤◌, ◌<◌, ◌≡◌, inl, refl, ◌∙◌, arith, word_mod, mod-eq_of_lt,
}
use enb_l1_b4860_ppc.Ipc.{copy}
use enb_l1_b4860_ppc.Ipc.Message.{copy_inside, copy_outside}
use enb_l1_b4860_ppc.Fapi.Memory.{Apart, copy-Agree}
use enb_l1_b4860_ppc.Fapi.Messages.{copy_lists}
use enb_l1_b4860_ppc.Fapi.Writes.{Writes, Writes-trans, Writes-copy}

module _ (elem to first n1 second n2 : ℕ) (m : ℕ → ℕ) (small1 : n1 * elem < word_mod)
    (small2 : n2 * elem < word_mod) where
  plain :
      copy_lists elem to first n1 second n2 m
      ≡ copy (copy m to first (n1 * elem)) (to + n1 * elem) second (n2 * elem)
  unfolding copy_lists
  plain = rw (mod-eq_of_lt small1, mod-eq_of_lt small2) refl

  pub copy_lists-Writes :
      (body n : ℕ)
      → body ≤ to
      → to + (n1 * elem + n2 * elem) ≤ body + n
      → Writes body n m (copy_lists elem to first n1 second n2 m)
  copy_lists-Writes body n lo hi = rw plain (
      Writes-trans body n (Writes-copy body n m to first (n1 * elem) lo (omega arith)) (
        Writes-copy body n (copy m to first (n1 * elem)) (to + n1 * elem) second (n2 * elem)
          (omega arith) (omega arith)))

  -- The elements of the first list, and behind them those of the second.
  pub copy_lists-first :
      (i : ℕ) → i < n1 * elem → copy_lists elem to first n1 second n2 m (to + i) ≡ m (first + i)
  copy_lists-first i h = rw plain (
      copy_outside (copy m to first (n1 * elem)) (to + n1 * elem) second (n2 * elem) (to + i)
        (inl (omega arith))
      ∙ copy_inside m to first (n1 * elem) i h)

  pub copy_lists-second :
      (i : ℕ)
      → Apart second (n2 * elem) to (n1 * elem)
      → i < n2 * elem
      → copy_lists elem to first n1 second n2 m (to + n1 * elem + i) ≡ m (second + i)
  copy_lists-second i apart h = rw plain (
      copy_inside (copy m to first (n1 * elem)) (to + n1 * elem) second (n2 * elem) i h
      ∙ (copy-Agree m to first (n1 * elem) second (n2 * elem) apart).same (second + i) (omega arith)
          (omega arith))
