-- ===== src/Fapi/Dispatch/System.antt =====
-- The dispatcher of fapi_b4860.c and the threads of L2 on its queues, as steps in any order, with what
-- has arrived and what was taken.
use enb_l1_b4860_ppc.Common.{
  ℕ, ◌≡◌, refl, sym, ap, ◌∙◌, inl, inr, Bool, Bool-cases, true, Option, none, some, List, [], ◌∷◌,
  ◌++◌, arith, ◌==◌, if◌then◌else◌,
}
use enb_l1_b4860_ppc.Ipc.{Ipc}
use enb_l1_b4860_ppc.Shm.{Shm}
use enb_l1_b4860_ppc.Usmmgr.{Usmmgr}
use enb_l1_b4860_ppc.Fapi.{
  Fapi, QueueName, p5_ipc, p7_ipc, p7_subframe_ind, p7_rach_ind, p7_rx_ind, p7_harq_ind, p7_sr_ind,
  p7_cqi_ind, p7_crc_ind, p8_ind, queue_number, put_queue, ipc_p2v,
}
use enb_l1_b4860_ppc.Fapi.Dispatch.{
  Work, no_work, push_work, p8_work, process_p7_message, handle, perform, thread_round,
}
use enb_l1_b4860_ppc.Fapi.Dispatch.Fifo.{held, take_from, take_last_from}
use enb_l1_b4860_ppc.Fapi.Dispatch.Routes.{pushes, arrived}

-- The thread's state with the call that it is in; the messages that have arrived so far, by what the
-- ring of L1 gave each round, and those that L2 has taken.
pub record System : Type 0 where
  pub fapi : Fapi
  pub work : Work
  pub received : List (QueueName × ℕ)
  pub taken : List (QueueName × ℕ)

-- A round of the dispatcher, another try of its call, a pop of L2 that may wait, or the one by which
-- L2 takes the last indication of a subframe.
pub data Step : Type 0 where
  round : ℕ → ℕ → Ipc → Step
  attempt : Step
  take_step : QueueName → Bool → Step
  take_last : Step

abbrev pub named : QueueName → Option ℕ → List (QueueName × ℕ)
named name none = []
named name (some x) = (name, x) ∷ []

module _ (shm : Shm) (usmmgr : Usmmgr) (lock : ℕ → Bool) where
  abbrev pub start_round : ℕ → ℕ → Ipc → Work → System → System
  start_round got mask woken no_work s =
      let (work, f) = thread_round shm usmmgr lock got mask woken s.fapi in
      record s {
        fapi = f;
        work = work;
        received = s.received ++ arrived shm usmmgr lock got mask woken s.fapi;
      }
  start_round got mask woken (push_work name x) s = s
  start_round got mask woken (p8_work x) s = s

  unfoldable pub step : Step → System → System
  unfolding thread_round perform take_from take_last_from arrived
  step (round got mask woken) s = start_round got mask woken s.work s
  step attempt s = elim (perform s.work s.fapi) [
    | none ↦ s
    | some f ↦ record s { fapi = f; work = no_work }
  ]
  step (take_step name waits) s =
      let (x, q) = take_from waits (s.fapi.queues name) in
      record s {
        fapi = record s.fapi { queues = put_queue s.fapi.queues name q };
        taken = s.taken ++ named name x;
      }
  step take_last s =
      let (x, q) = take_last_from (s.fapi.queues p7_subframe_ind) in
      record s {
        fapi = record s.fapi { queues = put_queue s.fapi.queues p7_subframe_ind q };
        taken = s.taken ++ named p7_subframe_ind x;
      }

  unfoldable pub run : List Step → System → System
  unfolding step
  run [] s = s
  run (t ∷ ts) s = run ts (step t s)

-- The messages for one queue.
abbrev pub for_queue : QueueName → List (QueueName × ℕ) → List ℕ
for_queue name [] = []
for_queue name ((n, x) ∷ ms) =
    if queue_number n == queue_number name then x ∷ for_queue name ms else for_queue name ms

-- All messages for a queue have been taken, are in it, or wait in the call.
pub record IsOrdered (before : List ℕ) (name : QueueName) (s : System) : Type 0 where
  pub order :
      before ++ for_queue name s.received
      ≡ for_queue name s.taken ++ (held (s.fapi.queues name) ++ for_queue name (pushes s.work))

-- A queue has one number.
queue_of : ℕ → QueueName
queue_of n =
    if n == 0
    then p5_ipc
    else if n == 1
    then p7_ipc
    else if n == 2
    then p7_subframe_ind
    else if n == 3
    then p7_rach_ind
    else if n == 4
    then p7_rx_ind
    else if n == 5
    then p7_harq_ind
    else if n == 6
    then p7_sr_ind
    else if n == 7
    then p7_cqi_ind
    else if n == 8
    then p7_crc_ind
    else p8_ind

queue_of-number : (name : QueueName) → queue_of (queue_number name) ≡ name
unfolding queue_of
queue_of-number p5_ipc = refl
queue_of-number p7_ipc = refl
queue_of-number p7_subframe_ind = refl
queue_of-number p7_rach_ind = refl
queue_of-number p7_rx_ind = refl
queue_of-number p7_harq_ind = refl
queue_of-number p7_sr_ind = refl
queue_of-number p7_cqi_ind = refl
queue_of-number p7_crc_ind = refl
queue_of-number p8_ind = refl

pub same_queue : (a b : QueueName) → (queue_number a == queue_number b) ≡ true → a ≡ b
same_queue a b h =
    let number : queue_number a ≡ queue_number b = ground (arith, h) in
    sym (queue_of-number a) ∙ ap queue_of number ∙ queue_of-number b

pub for_queue-append :
    (name : QueueName) (xs ys : List (QueueName × ℕ))
    → for_queue name (xs ++ ys) ≡ for_queue name xs ++ for_queue name ys
for_queue-append name [] ys = refl
for_queue-append name ((n, x) ∷ xs) ys = elim (Bool-cases (queue_number n == queue_number name)) [
  | inl e ↦ rw e (ap (λ t. x ∷ t) (for_queue-append name xs ys))
  | inr e ↦ rw e (for_queue-append name xs ys)
]

-- Handling a message leaves the queues.
handle-queues : (p2v : ℕ → ℕ) (addr : ℕ) (f : Fapi) → (handle p2v addr f).1.queues ≡ f.queues
unfolding handle process_p7_message
handle-queues p2v addr f = ground arith

pub round-queues :
    (shm : Shm) (usmmgr : Usmmgr) (lock : ℕ → Bool) (got mask : ℕ) (woken : Ipc) (f : Fapi)
    → (thread_round shm usmmgr lock got mask woken f).1.queues ≡ f.queues
unfolding thread_round
round-queues shm usmmgr lock got mask woken f = ground (arith, handle-queues (ipc_p2v shm usmmgr))
