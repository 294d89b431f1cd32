-- ===== src/Fapi/Dispatch/Routes.antt =====
-- Which queue a message of L1 is for, as a table, and that the dispatcher hands it on to this queue.
use enb_l1_b4860_ppc.Common.{
  ℕ, ◌+◌, ◌≡◌, refl, Bool, Option, none, some, List, [], ◌∷◌, arith, ◌==◌, if◌then◌else◌, not, ◌&&◌,
}
use enb_l1_b4860_ppc.Ipc.{Code, success, Ipc, recv_ptr_block}
use enb_l1_b4860_ppc.Channel.{Bd}
use enb_l1_b4860_ppc.Ipc.TxRequest.{load32}
use enb_l1_b4860_ppc.Shm.{Shm}
use enb_l1_b4860_ppc.Usmmgr.{Usmmgr}
use enb_l1_b4860_ppc.Fapi.{
  Fapi, QueueName, p5_ipc, p7_ipc, p7_subframe_ind, p7_rach_ind, p7_rx_ind, p7_harq_ind, p7_sr_ind,
  p7_cqi_ind, p7_crc_ind, ipc_p2v, ipc_sc2pa_ch_id,
}
use enb_l1_b4860_ppc.Fapi.Dispatch.{
  Work, no_work, push_work, p8_work, p7_queue, process_p7_message, handle, thread_round,
}

-- The indications of P7 by their identifiers; the other messages of P7 are for one queue.
abbrev pub indications : List (ℕ × QueueName)
indications =
    (0x82, p7_subframe_ind)
    ∷ (0x85, p7_harq_ind)
    ∷ (0x86, p7_crc_ind)
    ∷ (0x87, p7_rx_ind)
    ∷ (0x88, p7_rach_ind)
    ∷ (0x8a, p7_sr_ind)
    ∷ (0x8b, p7_cqi_ind)
    ∷ []

abbrev pub lookup : ℕ → List (ℕ × QueueName) → QueueName
lookup id [] = p7_ipc
lookup id ((k, name) ∷ rest) = if k == id then name else lookup id rest

-- A message with its body: on channel 1 it is one of P5, on channel 3 one of P7.
unfoldable pub route : ℕ → ℕ → ℕ → List (QueueName × ℕ)
route channel id body =
    if channel == 1
    then (p5_ipc, body) ∷ []
    else if channel == 3
    then (lookup id indications, body) ∷ []
    else []

-- The message whose head is at an address that translates to one that is not NULL.
unfoldable pub message_at : (ℕ → ℕ) → ℕ → (ℕ → ℕ) → List (QueueName × ℕ)
message_at p2v addr m =
    if not (addr == 0) && not (p2v addr == 0)
    then (let body = p2v (load32 (p2v addr + 8) m) in
        route (load32 (p2v addr) m) (load32 body m) body)
    else []

abbrev pub pushes : Work → List (QueueName × ℕ)
pushes no_work = []
pushes (push_work name x) = (name, x) ∷ []
pushes (p8_work x) = []

p7_queue-lookup : (id : ℕ) → p7_queue id ≡ lookup id indications
unfolding p7_queue
p7_queue-lookup id = ground arith

process-route :
    (p2v : ℕ → ℕ) (msg : ℕ) (f : Fapi)
    → pushes (process_p7_message p2v msg f).0
      ≡ (lookup (load32 msg f.ipc.memory) indications, msg) ∷ []
unfolding process_p7_message
process-route p2v msg f = ground (arith, p7_queue-lookup (load32 msg f.ipc.memory))

handle-route :
    (p2v : ℕ → ℕ) (addr : ℕ) (f : Fapi)
    → pushes (handle p2v addr f).0 ≡ message_at p2v addr f.ipc.memory
unfolding handle message_at route
handle-route p2v addr f =
    ground (arith, process-route p2v (p2v (load32 (p2v addr + 8) f.ipc.memory)) f)

module _ (shm : Shm) (usmmgr : Usmmgr) (lock : ℕ → Bool) where
  -- What fsl_ipc_recv_ptr_block gives a round: a descriptor with the address of a head, or nothing.
  unfoldable pub arrived : ℕ → ℕ → Ipc → Fapi → List (QueueName × ℕ)
  unfolding message_at
  arrived got ready_mask woken f =
      let (code, bd, ipc') =
        recv_ptr_block lock (ipc_p2v shm usmmgr) ipc_sc2pa_ch_id f.ipc got ready_mask woken in
      elim code [
        | success ↦ elim bd [
          | none ↦ []
          | some bd ↦ message_at (ipc_p2v shm usmmgr) bd.msg_ptr ipc'.memory
        ]
        | _ ↦ []
      ]

  received-arrived :
      (code : Code) (bd : Option Bd) (ipc' : Ipc) (f : Fapi)
      → pushes
          (elim code as (λ _. Work × Fapi) [
            | success ↦ elim bd as (λ _. Work × Fapi) [
              | none ↦ (no_work, record f { ipc = ipc' })
              | some bd ↦ handle (ipc_p2v shm usmmgr) bd.msg_ptr (record f { ipc = ipc' })
            ]
            | _ ↦ (no_work, record f { ipc = ipc' })
          ]).0
        ≡ elim code as (λ _. List (QueueName × ℕ)) [
          | success ↦ elim bd as (λ _. List (QueueName × ℕ)) [
            | none ↦ []
            | some bd ↦ message_at (ipc_p2v shm usmmgr) bd.msg_ptr ipc'.memory
          ]
          | _ ↦ []
        ]
  received-arrived success none ipc' f = refl
  received-arrived success (some bd) ipc' f =
      handle-route (ipc_p2v shm usmmgr) bd.msg_ptr (record f { ipc = ipc' })
  received-arrived _ bd ipc' f = refl

  pub round-arrived :
      (got mask : ℕ) (woken : Ipc) (f : Fapi)
      → pushes (thread_round shm usmmgr lock got mask woken f).0 ≡ arrived got mask woken f
  unfolding thread_round arrived
  round-arrived got mask woken f =
      let (code, bd, ipc') =
        recv_ptr_block lock (ipc_p2v shm usmmgr) ipc_sc2pa_ch_id f.ipc got mask woken in
      received-arrived code bd ipc' f
