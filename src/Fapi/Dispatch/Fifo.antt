-- ===== src/Fapi/Dispatch/Fifo.antt =====
-- The queues between the dispatcher and L2 keep the order of the messages.
use enb_l1_b4860_ppc.Common.{
  ℕ, ◌<◌, ◌≡◌, refl, sym, ap, subst, ◌∙◌, Bool, true, false, Option, none, some, List, [], ◌∷◌,
  ◌++◌, map, arith,
}
use enb_l1_b4860_ppc.BlockQueue.{Item, BlockQueue, push, store, try_push, pop, pop_last, try_pop}
use enb_l1_b4860_ppc.BlockQueue.Inv.{IsValid, store-IsValid, discard-IsValid}
use enb_l1_b4860_ppc.BlockQueue.Refine.{
  IsOpen, contents, length-contents, contents-store, contents-discard,
}

-- The messages that a queue holds, oldest first.
abbrev pub held : BlockQueue → List ℕ
held q = map (λ (i : Item). i.ptr) (contents q)

-- A queue that works: it is valid and nobody has broken it.
abbrev pub IsWorking : BlockQueue → Type 0
IsWorking q = IsValid q × IsOpen q

map_append :
    (xs : List Item) (x : Item)
    → map (λ (i : Item). i.ptr) (xs ++ (x ∷ [])) ≡ map (λ (i : Item). i.ptr) xs ++ (x.ptr ∷ [])
map_append [] x = refl
map_append (y ∷ xs) x = ap (λ t. y.ptr ∷ t) (map_append xs x)

-- A push that returns has stored the message.
push-store :
    (q q' : BlockQueue) (x n : ℕ) (done : Bool)
    → IsWorking q
    → push q x n ≡ some (done, q')
    → (q.num_items < q.len) × (q' ≡ store q x n)
unfolding push
push-store q q' x n done (v, o) e = ground (arith, v, o, e)

store-held :
    (q : BlockQueue) (x n : ℕ)
    → IsWorking q
    → q.num_items < q.len
    → IsWorking (store q x n) × (held (store q x n) ≡ held q ++ (x ∷ []))
store-held q x n (v, o) room = (
  (store-IsValid v x n room, o),
  ap (map (λ (i : Item). i.ptr)) (contents-store v x n room) ∙ map_append (contents q) _,
)

pub push-held :
    (q q' : BlockQueue) (x n : ℕ) (done : Bool)
    → IsWorking q
    → push q x n ≡ some (done, q')
    → IsWorking q' × (held q' ≡ held q ++ (x ∷ []))
push-held q q' x n done w e =
    let (room, eq) = push-store q q' x n done w e in
    subst (λ p. IsWorking p × (held p ≡ held q ++ (x ∷ []))) (sym eq) (store-held q x n w room)

pub try_push-IsWorking : (q : BlockQueue) (x n : ℕ) → IsWorking q → IsWorking (try_push q x n).1
unfolding try_push
try_push-IsWorking q x n (v, o) = ground (arith, store-IsValid v x n)

-- A thread of L2 takes a message: with block_queue_pop or block_queue_try_pop. A pop that waits
-- changes nothing.
unfoldable pub take_from : Bool → BlockQueue → Option ℕ × BlockQueue
take_from true q = elim (pop q) [ none ↦ (none, q) | some (x, q') ↦ (some x, q') ]
take_from false q = try_pop q

-- It takes indications of subframes with block_queue_pop_last instead.
unfoldable pub take_last_from : BlockQueue → Option ℕ × BlockQueue
take_last_from q = elim (pop_last q) [ none ↦ (none, q) | some (x, q') ↦ (some x, q') ]

abbrev pub listed : Option ℕ → List ℕ
listed none = []
listed (some x) = x ∷ []

pub take_from-held :
    (waits : Bool) (q : BlockQueue)
    → IsWorking q
    → IsWorking (take_from waits q).1
      × (held q ≡ listed (take_from waits q).0 ++ held (take_from waits q).1)
unfolding take_from pop try_pop
take_from-held true q (v, o) =
    ground (arith, discard-IsValid v, length-contents v, contents-discard v)
take_from-held false q (v, o) =
    ground (arith, discard-IsValid v, length-contents v, contents-discard v)
