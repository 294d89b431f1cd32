-- ===== src/BlockQueue/Break.antt =====
-- `block_queue_clear` closes the queue for good.
use enb_l1_b4860_ppc.Common.{ℕ, ◌≡◌, refl, true, false, some, List, [], ◌∷◌, arith}
use enb_l1_b4860_ppc.BlockQueue.{BlockQueue, push, try_push, pop, try_pop, try_pop_timeout, clear}
use enb_l1_b4860_ppc.BlockQueue.Refine.{
  Call, push_call, try_push_call, pop_call, try_pop_call, timed_pop_call, step, run,
}

push_break-kept :
    (c : Call) (q : BlockQueue) → q.push_break_flag ≡ true → (step q c).1.push_break_flag ≡ true
unfolding step push try_push pop try_pop try_pop_timeout
push_break-kept (push_call x n) q e = ground arith
push_break-kept (try_push_call x n) q e = ground arith
push_break-kept pop_call q e = ground arith
push_break-kept try_pop_call q e = ground arith
push_break-kept (timed_pop_call rv) q e = ground arith

run-push_broken :
    (cs : List Call) (q : BlockQueue)
    → q.push_break_flag ≡ true
    → (run q cs).1.push_break_flag ≡ true
unfolding run
run-push_broken [] q e = e
run-push_broken (c ∷ cs) q e = run-push_broken cs (step q c).1 (push_break-kept c q e)

-- Nothing resets the flag that `block_queue_clear` sets for pushes: after any calls a push on the
-- queue is still refused.
clear-refuses :
    (q : BlockQueue) (cs : List Call) (x n : ℕ)
    → let q' = (run (clear q) cs).1 in push q' x n ≡ some (false, q')
unfolding push clear
clear-refuses q cs x n = ground (arith, run-push_broken cs (clear q) refl)
