-- ===== src/Fapi/Writes.antt =====
-- Writes that stay inside a message, and the words that can be read back from it.
use enb_l1_b4860_ppc.Common.{
  ℕ, ◌+◌, ◌≤◌, ◌<◌, ◌≡◌, refl, ◌∙◌, Bool, true, ◌&&◌, ◌||◌, List, [], ◌∷◌, leb, arith, word_mod,
}
use enb_l1_b4860_ppc.Ipc.{copy}
use enb_l1_b4860_ppc.Ipc.TxRequest.{store32, load32}
use enb_l1_b4860_ppc.Ipc.TxRequest.Laws.{load32-store32}
use enb_l1_b4860_ppc.Fapi.Memory.{
  Apart, HasBytes, Agree, Agree-refl, Agree-trans, load32-Agree, load32-store32_ne, store32-Agree,
  copy-Agree, store32-HasBytes, copy-HasBytes,
}
use enb_l1_b4860_ppc.Fapi.Messages.{store_words}

-- From one memory to another only the `n` bytes from `body` on change, and bytes stay bytes.
pub record Writes (body n : ℕ) (m m' : ℕ → ℕ) : Type 0 where
  pub bytes : HasBytes m → HasBytes m'
  pub inside : (a k : ℕ) → Apart a k body n → Agree a k m m'

module _ (body n : ℕ) where
  pub Writes-refl : (m : ℕ → ℕ) → Writes body n m m
  Writes-refl m = record { bytes = λ b. b; inside = λ a k h. Agree-refl m a k }

  pub Writes-trans :
      {m m' m'' : ℕ → ℕ} → Writes body n m m' → Writes body n m' m'' → Writes body n m m''
  Writes-trans p q = record {
    bytes = λ b. q.bytes (p.bytes b);
    inside = λ a k h. Agree-trans (p.inside a k h) (q.inside a k h);
  }

  pub Writes-store32 :
      (m : ℕ → ℕ) (at v : ℕ) → body ≤ at → at + 4 ≤ body + n → Writes body n m (store32 at v m)
  Writes-store32 m at v lo hi = record {
    bytes = store32-HasBytes m at v;
    inside = λ a k h. store32-Agree m at v a k (ground arith);
  }

  pub Writes-copy :
      (m : ℕ → ℕ) (at src k : ℕ) → body ≤ at → at + k ≤ body + n → Writes body n m (copy m at src k)
  Writes-copy m at src l lo hi = record {
    bytes = copy-HasBytes m at src l;
    inside = λ a k h. copy-Agree m at src l a k (ground arith);
  }

-- Writes inside a part of an area.
pub Writes-wider :
    (body n b k : ℕ) {m m' : ℕ → ℕ}
    → Writes b k m m'
    → body ≤ b
    → b + k ≤ body + n
    → Writes body n m m'
Writes-wider body n b k w lo hi = record {
  bytes = w.bytes;
  inside = λ a l h. w.inside a l (ground arith);
}

-- The offsets of a list of words lie below `n`, and no two words overlap.
abbrev pub apart_from : ℕ → List (ℕ × ℕ) → Bool
apart_from at [] = true
apart_from at ((b, v) ∷ words) = (leb (at + 4) b || leb (b + 4) at) && apart_from at words

abbrev pub is_layout : ℕ → List (ℕ × ℕ) → Bool
is_layout n [] = true
is_layout n ((at, v) ∷ words) = leb (at + 4) n && apart_from at words && is_layout n words

abbrev pub AreWords : List (ℕ × ℕ) → Type 0
AreWords [] = Unit
AreWords ((at, v) ∷ words) = (v < word_mod) × AreWords words

-- The words stand in memory.
abbrev pub Reads : ℕ → List (ℕ × ℕ) → (ℕ → ℕ) → Type 0
Reads body [] m = Unit
Reads body ((at, v) ∷ words) m = (load32 (body + at) m ≡ v) × Reads body words m

pub store_words-Writes :
    (body n : ℕ) (words : List (ℕ × ℕ)) (m : ℕ → ℕ)
    → is_layout n words ≡ true
    → Writes body n m (store_words body words m)
unfolding store_words
store_words-Writes body n [] m h = Writes-refl body n m
store_words-Writes body n ((at, v) ∷ words) m h =
    Writes-trans body n (Writes-store32 body n m (body + at) v (omega arith) (ground arith))
      (store_words-Writes body n words (store32 (body + at) v m) (ground arith))

-- A word that is apart from the others stays.
store_words-other :
    (body at : ℕ) (words : List (ℕ × ℕ)) (m : ℕ → ℕ)
    → apart_from at words ≡ true
    → load32 (body + at) (store_words body words m) ≡ load32 (body + at) m
unfolding store_words
store_words-other body at [] m h = refl
store_words-other body at ((b, v) ∷ words) m h =
    store_words-other body at words (store32 (body + b) v m) (ground arith)
    ∙ load32-store32_ne (body + at) (body + b) v m (ground arith)

pub store_words-Reads :
    (body n : ℕ) (words : List (ℕ × ℕ)) (m : ℕ → ℕ)
    → is_layout n words ≡ true
    → AreWords words
    → Reads body words (store_words body words m)
unfolding store_words
store_words-Reads body n [] m h w = tt
store_words-Reads body n ((at, v) ∷ words) m h (w, ws) = (
  store_words-other body at words (store32 (body + at) v m) (ground arith)
      ∙ load32-store32 (body + at) v m w,
  store_words-Reads body n words (store32 (body + at) v m) (ground arith) ws,
)

pub Reads-Agree :
    (body n : ℕ) (words : List (ℕ × ℕ)) {m m' : ℕ → ℕ}
    → is_layout n words ≡ true
    → Agree body n m m'
    → Reads body words m
    → Reads body words m'
Reads-Agree body n [] h g r = tt
Reads-Agree body n ((at, v) ∷ words) h g (r, rs) = (
  load32-Agree body n (body + at) g (omega arith) (ground arith) ∙ r,
  Reads-Agree body n words (ground arith) g rs,
)

-- A word that is apart from all of them is written.
pub store32-Reads :
    (body at v : ℕ) (words : List (ℕ × ℕ)) (m : ℕ → ℕ)
    → apart_from at words ≡ true
    → Reads body words m
    → Reads body words (store32 (body + at) v m)
store32-Reads body at v [] m h r = tt
store32-Reads body at v ((b, w) ∷ words) m h (r, rs) = (
  load32-store32_ne (body + b) (body + at) v m (ground arith) ∙ r,
  store32-Reads body at v words m (ground arith) rs,
)
