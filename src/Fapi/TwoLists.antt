-- ===== src/Fapi/TwoLists.antt =====
-- Requests whose PDUs are two lists, copied behind one another.
use enb_l1_b4860_ppc.Common.{
  ℕ, ◌+◌, ◌-◌, ◌*◌, ◌≤◌, ◌<◌, ◌≡◌, ◌∙◌, Bool, true, List, arith, word_mod,
}
use enb_l1_b4860_ppc.Ipc.{success}
use enb_l1_b4860_ppc.Shm.{Shm}
use enb_l1_b4860_ppc.Usmmgr.{Usmmgr}
use enb_l1_b4860_ppc.Fapi.{Fapi}
use enb_l1_b4860_ppc.Fapi.Memory.{Apart}
use enb_l1_b4860_ppc.Fapi.Messages.{copy_lists}
use enb_l1_b4860_ppc.Fapi.Requests.{request}
use enb_l1_b4860_ppc.Fapi.Lists.{copy_lists-Writes, copy_lists-first, copy_lists-second}
use enb_l1_b4860_ppc.Fapi.Writes.{is_layout, apart_from, AreWords}
use enb_l1_b4860_ppc.Fapi.P7.{message, IsFramed}
use enb_l1_b4860_ppc.Fapi.Reach.{next_buffer}
use enb_l1_b4860_ppc.Fapi.Framed.{
  next_body, fields_written, fields_written-Writes, IsReady, Arrived, framed-Arrived,
}

-- What a request with two lists has to say of its fields, and how long it may be.
pub record IsTwoLists (elem hd len : ℕ) (words : List (ℕ × ℕ)) (n1 n2 : ℕ) : Type 0 where
  pub layout : is_layout hd words ≡ true
  pub free : apart_from 4 words ≡ true
  pub room : 8 ≤ hd
  pub holds : hd + (n1 * elem + n2 * elem) ≤ len
  pub word : len + 16 < word_mod
  pub fields : AreWords words

-- The bytes of both lists, in the state after the request.
abbrev pub HasLists : ℕ → ℕ → ℕ → ℕ → ℕ → ℕ → Fapi → Fapi → Type 0
HasLists elem hd first n1 second n2 f f' =
    ((i : ℕ) → i < n1 * elem → f'.ipc.memory (next_body f + hd + i) ≡ f.ipc.memory (first + i))
    × ((i : ℕ)
        → i < n2 * elem
        → f'.ipc.memory (next_body f + hd + n1 * elem + i) ≡ f.ipc.memory (second + i))

module _ (elem hd len : ℕ) (words : List (ℕ × ℕ)) (first n1 second n2 : ℕ) where
  unfoldable pub two_lists : ℕ → (ℕ → ℕ) → ℕ → ℕ
  two_lists body m = copy_lists elem (body + hd) first n1 second n2 m

  pub two_lists-IsFramed : IsTwoLists elem hd len words n1 n2 → IsFramed hd len words two_lists
  unfolding two_lists
  two_lists-IsFramed v = record {
    layout = v.layout;
    free = v.free;
    room = v.room;
    inside = omega (arith, v.holds);
    word = v.word;
    fields = v.fields;
    pdus = λ body m.
        copy_lists-Writes elem (body + hd) first n1 second n2 m (omega (arith, v.holds, v.word))
          (omega (arith, v.holds, v.word)) (body + hd) (len - hd) (omega arith)
          (omega (arith, v.holds));
  }

  module _ (shm : Shm) (usmmgr : Usmmgr) (lock : ℕ → Bool) (local channel : ℕ) where
    pub two_lists-Arrived :
        (f : Fapi)
        → IsTwoLists elem hd len words n1 n2
        → IsReady shm usmmgr lock local len f
        → channel < word_mod
        → Apart first (n1 * elem) (next_buffer f).vaddr (len + 16)
        → Apart second (n2 * elem) (next_buffer f).vaddr (len + 16)
        → (f' : Fapi) × (request shm usmmgr lock local channel (message hd len words two_lists) f
            ≡ (success, f'))
          × Arrived shm usmmgr channel len words f f'
          × HasLists elem hd first n1 second n2 f f'
    unfolding two_lists
    two_lists-Arrived f v ready hc apart1 apart2 =
        let w = two_lists-IsFramed v in
        let m = fields_written channel words f in
        let written =
          fields_written-Writes channel hd (len + 16) words f v.layout (omega (arith, v.holds)) in
        let small1 : n1 * elem < word_mod = omega (arith, v.holds, v.word) in
        let small2 : n2 * elem < word_mod = omega (arith, v.holds, v.word) in
        let (f', sent, arrived, body) =
          framed-Arrived shm usmmgr lock local channel hd len words two_lists f ready hc w in
        (
          f',
          sent,
          arrived,
          (
            λ i h.
                body (next_body f + hd + i) (omega arith) (omega (arith, v.holds))
                ∙ copy_lists-first elem (next_body f + hd) first n1 second n2 m small1 small2 i h
                ∙ (written.inside first (n1 * elem) apart1).same (first + i) (omega arith)
                    (omega arith),
            λ i h.
                body (next_body f + hd + n1 * elem + i) (omega arith) (omega (arith, v.holds))
                ∙ copy_lists-second elem (next_body f + hd) first n1 second n2 m small1 small2 i
                    (ground (arith, v.holds)) h
                ∙ (written.inside second (n2 * elem) apart2).same (second + i) (omega arith)
                    (omega arith),
          ),
        )
