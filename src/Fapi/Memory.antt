-- ===== src/Fapi/Memory.antt =====
-- Words in memory: what writing one and copying leave of the others.
use enb_l1_b4860_ppc.Common.{ℕ, ◌+◌, ◌-◌, ◌≤◌, ◌<◌, ◌≡◌, ◌⊎◌, refl, ◌∙◌, arith, word_mod}
use enb_l1_b4860_ppc.Ipc.{copy}
use enb_l1_b4860_ppc.Ipc.Message.{copy_inside, copy_outside}
use enb_l1_b4860_ppc.Ipc.TxRequest.{store32, load32}

-- Two areas that do not overlap.
abbrev pub Apart : ℕ → ℕ → ℕ → ℕ → Type 0
Apart a n b k = (a + n ≤ b) ⊎ (b + k ≤ a)

-- A memory holds bytes.
abbrev pub HasBytes : (ℕ → ℕ) → Type 0
HasBytes m = (a : ℕ) → m a < 256

-- Two memories agree on the area of `n` bytes from `a` on.
pub record Agree (a n : ℕ) (m m' : ℕ → ℕ) : Type 0 where
  pub same : (i : ℕ) → a ≤ i → i < a + n → m' i ≡ m i

pub load32-Agree :
    {m m' : ℕ → ℕ} (a n k : ℕ) → Agree a n m m' → a ≤ k → k + 4 ≤ a + n → load32 k m' ≡ load32 k m
unfolding load32
load32-Agree a n k g lo hi = omega (
  arith,
  g.same k lo (omega arith),
  g.same (k + 1) (omega arith) (omega arith),
  g.same (k + 2) (omega arith) (omega arith),
  g.same (k + 3) (omega arith) (omega arith),
)

pub load32_word : (m : ℕ → ℕ) (a : ℕ) → HasBytes m → load32 a m < word_mod
unfolding load32
load32_word m a b = omega (arith, b a, b (a + 1), b (a + 2), b (a + 3))

pub store32-outside :
    (m : ℕ → ℕ) (addr v a : ℕ) → (a < addr) ⊎ (addr + 4 ≤ a) → store32 addr v m a ≡ m a
unfolding store32
store32-outside m addr v a h = ground arith

pub store32-Agree : (m : ℕ → ℕ) (addr v a n : ℕ) → Apart a n addr 4 → Agree a n m (store32 addr v m)
store32-Agree m addr v a n h = record {
  same = λ i lo hi. store32-outside m addr v i (ground arith);
}

pub copy-Agree : (m : ℕ → ℕ) (dst src k a n : ℕ) → Apart a n dst k → Agree a n m (copy m dst src k)
copy-Agree m dst src k a n h = record {
  same = λ i lo hi. copy_outside m dst src k i (ground arith);
}

pub Agree-refl : (m : ℕ → ℕ) (a n : ℕ) → Agree a n m m
Agree-refl m a n = record { same = λ i lo hi. refl }

pub Agree-trans : {m m' m'' : ℕ → ℕ} {a n : ℕ} → Agree a n m m' → Agree a n m' m'' → Agree a n m m''
Agree-trans p q = record { same = λ i lo hi. q.same i lo hi ∙ p.same i lo hi }

-- Part of an area.
pub Agree-part :
    {m m' : ℕ → ℕ} {a n b k : ℕ} → Agree a n m m' → a ≤ b → b + k ≤ a + n → Agree b k m m'
Agree-part p lo' hi' = record { same = λ i lo hi. p.same i (omega arith) (omega arith) }

pub load32-store32_ne :
    (a b v : ℕ) (m : ℕ → ℕ) → Apart a 4 b 4 → load32 a (store32 b v m) ≡ load32 a m
load32-store32_ne a b v m h =
    load32-Agree a 4 a (store32-Agree m b v a 4 h) (omega arith) (omega arith)

pub load32-copy :
    (m : ℕ → ℕ) (dst src n k : ℕ)
    → k + 4 ≤ n
    → load32 (dst + k) (copy m dst src n) ≡ load32 (src + k) m
unfolding load32
load32-copy m dst src n k h =
    let plus : (a j : ℕ) → a + k + j ≡ a + (k + j) = λ a j. omega arith in
    rw (plus dst 1, plus dst 2, plus dst 3, plus src 1, plus src 2, plus src 3)
      (omega (
        arith,
        copy_inside m dst src n k (omega arith),
        copy_inside m dst src n (k + 1) (omega arith),
        copy_inside m dst src n (k + 2) (omega arith),
        copy_inside m dst src n (k + 3) (omega arith),
      ))

pub store32-HasBytes : (m : ℕ → ℕ) (a v : ℕ) → HasBytes m → HasBytes (store32 a v m)
unfolding store32
store32-HasBytes m a v b i = ground (arith, b i)

pub copy-HasBytes : (m : ℕ → ℕ) (dst src n : ℕ) → HasBytes m → HasBytes (copy m dst src n)
unfolding copy
copy-HasBytes m dst src n b i = ground (arith, b i, b (src + (i - dst)))
