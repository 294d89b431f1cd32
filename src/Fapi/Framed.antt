-- ===== src/Fapi/Framed.antt =====
-- A P7 request with its fields and PDUs, from the call to the DSP.
use enb_l1_b4860_ppc.Common.{ℕ, ◌+◌, ◌≤◌, ◌<◌, ◌≡◌, ◌∙◌, Bool, true, List, arith, word_mod}
use enb_l1_b4860_ppc.Ipc.{success}
use enb_l1_b4860_ppc.Ipc.TxRequest.{store32, load32}
use enb_l1_b4860_ppc.Shm.{Shm}
use enb_l1_b4860_ppc.Usmmgr.{Usmmgr}
use enb_l1_b4860_ppc.Fapi.{Fapi, message_head, ipc_msg_size, length_at, phys_addr_at}
use enb_l1_b4860_ppc.Fapi.Memory.{HasBytes, Agree-part, load32-Agree}
use enb_l1_b4860_ppc.Fapi.Messages.{store_words}
use enb_l1_b4860_ppc.Fapi.Requests.{request}
use enb_l1_b4860_ppc.Fapi.Writes.{
  Writes, Writes-trans, Writes-wider, Writes-store32, is_layout, Reads, Reads-Agree,
  store_words-Writes,
}
use enb_l1_b4860_ppc.Fapi.P7.{message, IsFramed, message-IsMessage, message-Reads, message-pdus}
use enb_l1_b4860_ppc.Fapi.Reach.{next_buffer, IsClear, Reached, request-Reached}
use enb_l1_b4860_ppc.Fapi.Send.{CanSend}

-- The body of the next message, and the memory when its PDUs are written.
abbrev pub next_body : Fapi → ℕ
next_body f = (next_buffer f).vaddr + ipc_msg_size

abbrev pub fields_written : ℕ → List (ℕ × ℕ) → Fapi → ℕ → ℕ
fields_written channel words f =
    store_words (next_body f) words (message_head channel (next_buffer f) f.ipc.memory)

-- The state lets a message of `len` bytes through.
pub record IsReady (shm : Shm) (usmmgr : Usmmgr) (lock : ℕ → Bool) (local len : ℕ) (f : Fapi)
    : Type 0 where
  pub can_send : CanSend shm usmmgr lock f
  pub bytes : HasBytes f.ipc.memory
  pub address : (next_buffer f).phys_addr < word_mod
  pub clear : IsClear shm usmmgr local len f

-- What the DSP has of a request in the new state: a descriptor, the head, the fields, the length.
abbrev pub Arrived : Shm → Usmmgr → ℕ → ℕ → List (ℕ × ℕ) → Fapi → Fapi → Type 0
Arrived shm usmmgr channel len words f f' =
    Reached shm usmmgr channel len f f'
    × Reads (next_body f) words f'.ipc.memory
    × (load32 (next_body f + 4) f'.ipc.memory ≡ len)

-- The head and the fields are inside the buffer.
pub fields_written-Writes :
    (channel hd n : ℕ) (words : List (ℕ × ℕ)) (f : Fapi)
    → is_layout hd words ≡ true
    → hd + 16 ≤ n
    → Writes (next_buffer f).vaddr n f.ipc.memory (fields_written channel words f)
fields_written-Writes channel hd n words f h room =
    let r = next_buffer f in
    let v = r.vaddr in
    let m = f.ipc.memory in
    let one = store32 v channel m in
    let two = store32 (v + phys_addr_at) r.phys_addr one in
    Writes-trans v n
      (Writes-trans v n
        (Writes-trans v n (Writes-store32 v n m v channel (omega arith) (omega arith))
          (Writes-store32 v n one (v + phys_addr_at) r.phys_addr (omega arith) (omega arith)))
        (Writes-store32 v n two (v + length_at) 0 (omega arith) (omega arith)))
      (Writes-wider v n (next_body f) hd
        (store_words-Writes (next_body f) hd words (message_head channel r m) h) (omega arith)
        (omega arith))

module _ (shm : Shm) (usmmgr : Usmmgr) (lock : ℕ → Bool) (local channel hd len : ℕ)
    (words : List (ℕ × ℕ)) (tail : ℕ → (ℕ → ℕ) → ℕ → ℕ) where
  pub framed-Arrived :
      (f : Fapi)
      → IsReady shm usmmgr lock local len f
      → channel < word_mod
      → IsFramed hd len words tail
      → (f' : Fapi) × (request shm usmmgr lock local channel (message hd len words tail) f
          ≡ (success, f'))
        × Arrived shm usmmgr channel len words f f'
        × ((a : ℕ)
            → next_body f + hd ≤ a
            → a < next_body f + len
            → f'.ipc.memory a ≡ tail (next_body f) (fields_written channel words f) a)
  framed-Arrived f r hc w =
      let head = message_head channel (next_buffer f) f.ipc.memory in
      let (f', sent, reached, kept, _) =
        request-Reached channel len len (message hd len words tail)
          (message-IsMessage hd len words tail w) shm usmmgr lock local f r.can_send r.bytes hc
          r.address r.clear in
      let (fields, size) = message-Reads hd len words tail w (next_body f) head in
      (
        f',
        sent,
        (
          reached,
          Reads-Agree (next_body f) hd words w.layout
              (Agree-part kept (omega arith) (omega (arith, w.inside))) fields,
          load32-Agree (next_body f) len (next_body f + 4) kept (omega arith)
                (omega (arith, w.room, w.inside))
              ∙ size,
        ),
        λ a lo hi.
            kept.same a (omega arith) hi ∙ message-pdus hd len words tail w (next_body f) head a lo,
      )
