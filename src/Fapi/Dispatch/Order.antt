-- ===== src/Fapi/Dispatch/Order.antt =====
-- The steps of the dispatcher and of L2 and the order of the messages of a queue.
use enb_l1_b4860_ppc.Common.{
  ℕ, ◌≡◌, ◌≢◌, refl, sym, ap, subst, ◌∙◌, inl, inr, Bool, Bool-cases, true, false, Option, none,
  some, Option-cases, List, [], ◌∷◌, ◌++◌, arith, ◌==◌,
}
use mathlib.Core.List.{append_assoc, append-nil}
use enb_l1_b4860_ppc.BlockQueue.{BlockQueue, push, try_push}
use enb_l1_b4860_ppc.Ipc.{Ipc}
use enb_l1_b4860_ppc.Shm.{Shm}
use enb_l1_b4860_ppc.Usmmgr.{Usmmgr}
use enb_l1_b4860_ppc.Fapi.{Fapi, QueueName, p7_subframe_ind, p8_ind, queue_number, put_queue}
use enb_l1_b4860_ppc.Fapi.Dispatch.{Work, no_work, push_work, p8_work, perform, thread_round}
use enb_l1_b4860_ppc.Fapi.Dispatch.Fifo.{
  held, IsWorking, push-held, take_from, take_last_from, listed, take_from-held,
}
use enb_l1_b4860_ppc.Fapi.Dispatch.Routes.{pushes, arrived, round-arrived}
use enb_l1_b4860_ppc.Fapi.Dispatch.System.{
  System, Step, round, attempt, take_step, take_last, named, step, run, for_queue, IsOrdered,
  same_queue, for_queue-append, round-queues,
}

flip :
    (a b : QueueName) (r : Bool)
    → (queue_number a == queue_number b) ≡ r
    → (queue_number b == queue_number a) ≡ r
flip a b r h = ground (arith, h)

-- A queue gets a message at its end, and the others none.
put_queue-held :
    (queues : QueueName → BlockQueue) (n : QueueName) (q : BlockQueue) (x : ℕ) (name : QueueName)
    → (IsWorking (queues n) → IsWorking q × (held q ≡ held (queues n) ++ (x ∷ [])))
    → IsWorking (queues name)
    → IsWorking (put_queue queues n q name)
      × (held (put_queue queues n q name) ≡ held (queues name) ++ for_queue name ((n, x) ∷ []))
put_queue-held queues n q x name h a = elim (Bool-cases (queue_number name == queue_number n)) [
  | inl e ↦
      let same = same_queue name n e in
      let (w, held_q) = h (subst (λ k. IsWorking (queues k)) same a) in
      rw (e, flip name n true e) (w, held_q ∙ ap (λ k. held (queues k) ++ (x ∷ [])) (sym same))
  | inr e ↦ rw (e, flip name n false e) (a, sym (append-nil (held (queues name))))
]

-- A queue loses what is taken from its front, and the others nothing.
for_named :
    (n : QueueName) (x : Option ℕ) (name : QueueName)
    → (queue_number n == queue_number name) ≡ true
    → for_queue name (named n x) ≡ listed x
for_named n none name e = refl
for_named n (some x) name e = rw e refl

for_unnamed :
    (n : QueueName) (x : Option ℕ) (name : QueueName)
    → (queue_number n == queue_number name) ≡ false
    → for_queue name (named n x) ≡ []
for_unnamed n none name e = refl
for_unnamed n (some x) name e = rw e refl

take-held :
    (queues : QueueName → BlockQueue) (n : QueueName) (q : BlockQueue) (x : Option ℕ)
    (name : QueueName)
    → (n ≡ name → IsWorking (queues n) → IsWorking q × (held (queues n) ≡ listed x ++ held q))
    → IsWorking (queues name)
    → IsWorking (put_queue queues n q name)
      × (held (queues name) ≡ for_queue name (named n x) ++ held (put_queue queues n q name))
take-held queues n q x name h a = elim (Bool-cases (queue_number name == queue_number n)) [
  | inl e ↦
      let same = same_queue name n e in
      let (w, held_q) = h (sym same) (subst (λ k. IsWorking (queues k)) same a) in
      rw (e, for_named n x name (flip name n true e)) (w, ap (λ k. held (queues k)) same ∙ held_q)
  | inr e ↦ rw (e, for_unnamed n x name (flip name n false e)) (a, refl)
]

-- What the call of the thread does, when it returns.
module _ (name : QueueName) (not_p8 : (queue_number name == 9) ≡ false)
    (not_subframe : queue_number name ≢ queue_number p7_subframe_ind) where
  put_p8 :
      (queues : QueueName → BlockQueue) (q : BlockQueue)
      → put_queue queues p8_ind q name ≡ queues name
  put_p8 queues q = rw not_p8 refl

  -- The call that a thread is in, on any state.
  attempt-keeps :
      (shm : Shm) (usmmgr : Usmmgr) (lock : ℕ → Bool) (before : List ℕ) (f : Fapi) (w : Work)
      (rs ts : List (QueueName × ℕ))
      → IsWorking (f.queues name)
      → IsOrdered before name (record { fapi = f; work = w; received = rs; taken = ts })
      → (let s =
            step shm usmmgr lock attempt
              (record { fapi = f; work = w; received = rs; taken = ts }) in
          IsWorking (s.fapi.queues name) × IsOrdered before name s)
  unfolding step perform
  attempt-keeps shm usmmgr lock before f no_work rs ts a o = (a, o)
  attempt-keeps shm usmmgr lock before f (push_work n x) rs ts a o =
      elim (Option-cases (push (f.queues n) x 8)) [
        | inl e ↦ rw (step, perform, e) (a, o)
        | inr ((done, q), e) ↦
            let (w, h) =
              put_queue-held f.queues n q x name (λ k. push-held (f.queues n) q x 8 done k e) a in
            rw (step, perform, e)
              (
                w,
                record {
                  order = o.order ∙ ap (λ t. for_queue name ts ++ t) (sym (append-nil _ ∙ h));
                },
              )
      ]
  attempt-keeps shm usmmgr lock before f (p8_work x) rs ts a o =
      let q = (try_push (f.queues p8_ind) x 8).1 in
      (rw (put_p8 f.queues q) a, record { order = rw (put_p8 f.queues q) o.order })

  round-keeps :
      (shm : Shm) (usmmgr : Usmmgr) (lock : ℕ → Bool) (got mask : ℕ) (woken : Ipc) (before : List ℕ)
      (f : Fapi) (w : Work) (rs ts : List (QueueName × ℕ))
      → IsWorking (f.queues name)
      → IsOrdered before name (record { fapi = f; work = w; received = rs; taken = ts })
      → (let s =
            step shm usmmgr lock
              (round got mask woken)
              (record { fapi = f; work = w; received = rs; taken = ts }) in
          IsWorking (s.fapi.queues name) × IsOrdered before name s)
  unfolding step
  round-keeps shm usmmgr lock got mask woken before f no_work rs ts a o =
      let (w, f') = thread_round shm usmmgr lock got mask woken f in
      let same = round-queues shm usmmgr lock got mask woken f in
      let came = round-arrived shm usmmgr lock got mask woken f in
      let new = for_queue name (pushes w) in
      (
        subst (λ (qs : QueueName → BlockQueue). IsWorking (qs name)) (sym same) a,
        record {
          order =
              subst
                (λ (qs : QueueName → BlockQueue).
                  before ++ for_queue name (rs ++ arrived shm usmmgr lock got mask woken f)
                  ≡ for_queue name ts ++ (held (qs name) ++ new))
                (sym same)
                (ap (λ t. before ++ for_queue name (rs ++ t)) (sym came)
                  ∙ ap (λ t. before ++ t) (for_queue-append name rs (pushes w))
                  ∙ sym (append_assoc before (for_queue name rs) new)
                  ∙ ap (λ t. t ++ new) o.order
                  ∙ append_assoc (for_queue name ts) (held (f.queues name) ++ []) new
                  ∙ ap (λ t. for_queue name ts ++ (t ++ new)) (append-nil (held (f.queues name))));
        },
      )
  round-keeps shm usmmgr lock got mask woken before f (push_work n x) rs ts a o = (a, o)
  round-keeps shm usmmgr lock got mask woken before f (p8_work x) rs ts a o = (a, o)

  -- A message that L2 takes from a queue, unless it is the queue that is emptied from the other end.
  taken-keeps :
      (n : QueueName) (x : Option ℕ) (q : BlockQueue) (before : List ℕ) (s : System)
      → (n ≡ name
          → IsWorking (s.fapi.queues n)
          → IsWorking q × (held (s.fapi.queues n) ≡ listed x ++ held q))
      → IsWorking (s.fapi.queues name)
      → IsOrdered before name s
      → IsWorking (put_queue s.fapi.queues n q name)
        × IsOrdered before name (record s {
          fapi = record s.fapi { queues = put_queue s.fapi.queues n q };
          taken = s.taken ++ named n x;
        })
  taken-keeps n x q before s from a o =
      let (w, h) = take-held s.fapi.queues n q x name from a in
      let rest = for_queue name (pushes s.work) in
      (
        w,
        record {
          order =
              o.order
              ∙ ap (λ t. for_queue name s.taken ++ (t ++ rest)) h
              ∙ ap (λ t. for_queue name s.taken ++ t)
                  (append_assoc (for_queue name (named n x))
                    (held (put_queue s.fapi.queues n q name)) rest)
              ∙ sym (append_assoc (for_queue name s.taken) (for_queue name (named n x)) _)
              ∙ ap (λ t. t ++ (held (put_queue s.fapi.queues n q name) ++ rest))
                  (sym (for_queue-append name s.taken (named n x)));
        },
      )

  step-keeps :
      (shm : Shm) (usmmgr : Usmmgr) (lock : ℕ → Bool) (before : List ℕ) (t : Step) (s : System)
      → IsWorking (s.fapi.queues name)
      → IsOrdered before name s
      → IsWorking ((step shm usmmgr lock t s).fapi.queues name)
        × IsOrdered before name (step shm usmmgr lock t s)
  unfolding step
  step-keeps shm usmmgr lock before (round got mask woken) s a o =
      round-keeps shm usmmgr lock got mask woken before s.fapi s.work s.received s.taken a o
  step-keeps shm usmmgr lock before attempt s a o =
      attempt-keeps shm usmmgr lock before s.fapi s.work s.received s.taken a o
  step-keeps shm usmmgr lock before (take_step n waits) s a o =
      let (x, q) = take_from waits (s.fapi.queues n) in
      taken-keeps n x q before s (λ _ w. take_from-held waits (s.fapi.queues n) w) a o
  step-keeps shm usmmgr lock before take_last s a o =
      let (x, q) = take_last_from (s.fapi.queues p7_subframe_ind) in
      taken-keeps p7_subframe_ind x q before s
        (λ e _. absurd (not_subframe (ap queue_number (sym e)))) a o

  run-keeps :
      (shm : Shm) (usmmgr : Usmmgr) (lock : ℕ → Bool) (before : List ℕ) (steps : List Step)
      (s : System)
      → IsWorking (s.fapi.queues name)
      → IsOrdered before name s
      → IsOrdered before name (run shm usmmgr lock steps s)
  unfolding run
  run-keeps shm usmmgr lock before [] s a o = o
  run-keeps shm usmmgr lock before (t ∷ steps) s a o =
      let (a', o') = step-keeps shm usmmgr lock before t s a o in
      run-keeps shm usmmgr lock before steps (step shm usmmgr lock t s) a' o'

-- The dispatcher before it has received anything.
abbrev pub starting : Fapi → System
starting f = record { fapi = f; work = no_work; received = []; taken = [] }

-- In whatever order the dispatcher receives messages and tries its calls and L2 takes messages, for
-- each queue but that of P8, from which messages are dropped, and that of the indications of
-- subframes, which L2 empties by block_queue_pop_last, if it is valid and not broken at first: what
-- it held and the messages that have arrived for it on the ring from L1, by their channel and
-- identifier, are, in this order, what L2 has taken from it, then what it holds, then the message of
-- the call that the dispatcher is in. Nothing is lost, nothing comes twice, and no message overtakes
-- another.
pub run-fifo :
    (shm : Shm) (usmmgr : Usmmgr) (lock : ℕ → Bool) (name : QueueName) (steps : List Step)
    (f : Fapi)
    → queue_number name ≢ queue_number p8_ind
    → queue_number name ≢ queue_number p7_subframe_ind
    → IsWorking (f.queues name)
    → (let s = run shm usmmgr lock steps (starting f) in
        held (f.queues name) ++ for_queue name s.received
        ≡ for_queue name s.taken ++ (held (s.fapi.queues name) ++ for_queue name (pushes s.work)))
run-fifo shm usmmgr lock name steps f other not_subframe working =
    (run-keeps name (ground (arith, other)) not_subframe shm usmmgr lock (held (f.queues name))
      steps (starting f) working (record { order = refl })).order
