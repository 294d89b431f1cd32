-- ===== src/Fapi/P7.antt =====
-- The messages of the P7 requests: fields, then PDUs, and a length.
use enb_l1_b4860_ppc.Common.{ℕ, ◌+◌, ◌-◌, ◌≤◌, ◌<◌, ◌≡◌, inl, inr, true, List, arith, word_mod}
use enb_l1_b4860_ppc.Ipc.TxRequest.{store32, load32}
use enb_l1_b4860_ppc.Ipc.TxRequest.Laws.{load32-store32}
use enb_l1_b4860_ppc.Fapi.Memory.{store32-outside}
use enb_l1_b4860_ppc.Fapi.Messages.{store_words}
use enb_l1_b4860_ppc.Fapi.Reach.{IsMessage}
use enb_l1_b4860_ppc.Fapi.Writes.{
  Writes, Writes-trans, Writes-wider, Writes-store32, apart_from, is_layout, AreWords, Reads,
  store_words-Writes, store_words-Reads, Reads-Agree, store32-Reads,
}

-- A message whose fields `words` lie in its first `hd` bytes and whose PDUs `tail` writes.
module _ (hd len : ℕ) (words : List (ℕ × ℕ)) (tail : ℕ → (ℕ → ℕ) → ℕ → ℕ) where
  abbrev pub message : ℕ → (ℕ → ℕ) → ℕ → ℕ
  message body m = store32 (body + 4) len (tail body (store_words body words m))

  pub record IsFramed : Type 0 where
    pub layout : is_layout hd words ≡ true
    pub free : apart_from 4 words ≡ true
    pub room : 8 ≤ hd
    pub inside : hd ≤ len
    pub word : len + 16 < word_mod
    pub fields : AreWords words
    pub pdus : (body : ℕ) (m : ℕ → ℕ) → Writes (body + hd) (len - hd) m (tail body m)

  module _ (w : IsFramed) where
    message-Writes : (body : ℕ) (m : ℕ → ℕ) → Writes body len m (message body m)
    message-Writes body m =
        Writes-trans body len
          (Writes-wider body len body hd (store_words-Writes body hd words m w.layout) (omega arith)
            (omega (arith, w.inside)))
          (Writes-trans body len
            (Writes-wider body len (body + hd) (len - hd) (w.pdus body (store_words body words m))
              (omega arith) (omega (arith, w.inside)))
            (Writes-store32 body len (tail body (store_words body words m)) (body + 4) len
              (omega arith) (omega (arith, w.inside, w.room))))

    pub message-IsMessage : IsMessage len len message
    message-IsMessage = record {
      bytes = λ body m. (message-Writes body m).bytes;
      inside = λ body m. (message-Writes body m).inside;
      says = λ body m.
          load32-store32 (body + 4) len (tail body (store_words body words m))
            (omega (arith, w.word));
      room = omega (arith, w.room, w.inside);
      word = w.word;
    }

    -- The fields can be read, and the length.
    pub message-Reads :
        (body : ℕ) (m : ℕ → ℕ)
        → Reads body words (message body m) × (load32 (body + 4) (message body m) ≡ len)
    message-Reads body m =
        let fields = store_words body words m in
        let filled = tail body fields in
        let below = (w.pdus body fields).inside body hd (inl (omega arith)) in
        (
          store32-Reads body 4 len words filled w.free (
              Reads-Agree body hd words w.layout below
                (store_words-Reads body hd words m w.layout w.fields)),
          load32-store32 (body + 4) len filled (omega (arith, w.word)),
        )

    -- What the PDUs write stays.
    pub message-pdus :
        (body : ℕ) (m : ℕ → ℕ) (a : ℕ)
        → body + hd ≤ a
        → message body m a ≡ tail body (store_words body words m) a
    message-pdus body m a h =
        store32-outside (tail body (store_words body words m)) (body + 4) len a
          (inr (omega (arith, w.room)))
