-- ===== src/Usmmgr/Dump.antt =====
-- The chunks that `fsl_usmmgr_dump_memory` copies.
use enb_l1_b4860_ppc.Common.{
  ℕ, ◌+◌, ◌-◌, ◌≤◌, ◌<◌, ◌≡◌, ◌≢◌, refl, subst, List, [], ◌∷◌, arith, word_mod, ℕ_discrete, dec_lt,
  ◌⊎◌, inl, inr,
}
use enb_l1_b4860_ppc.Usmmgr.{Chunk, dump_loop, dump_memory}

-- The chunks follow one another from `at` on, and end within the buffer.
unfoldable pub Fills : ℕ → ℕ → List Chunk → Type 0
Fills size at [] = Unit
Fills size at (c ∷ cs) = (c.offset ≡ at) × (at + c.len ≤ size) × Fills size (at + c.len) cs

-- The bytes that the file asks for.
abbrev pub asked : List (ℕ × ℕ) → ℕ
asked [] = 0
asked ((p, n) ∷ es) = n + asked es

module _ (mapped : ℕ → ℕ → ℕ) (size : ℕ) (word : size < word_mod) where
  module _ (p n : ℕ) (es : List (ℕ × ℕ)) (total : ℕ) (h : total ≤ size)
      (sum : total + n < word_mod) where
    dump_loop-zero :
        n ≡ 0
        → (dump_loop mapped size ((p, n) ∷ es) total (size - total) total).1
          ≡ (dump_loop mapped size es total (size - total) total).1
    unfolding dump_loop
    dump_loop-zero e = ground arith

    dump_loop-full :
        size < total + n
        → ((dump_loop mapped size ((p, n) ∷ es) total (size - total) total).1 ≡ [])
          ⊎ ((dump_loop mapped size ((p, n) ∷ es) total (size - total) total).1
              ≡ record { offset = total; from = p; len = size - total } ∷ [])
    unfolding dump_loop
    dump_loop-full full = ground arith

    dump_loop-fits :
        n ≢ 0
        → total + n ≤ size
        → ((dump_loop mapped size ((p, n) ∷ es) total (size - total) total).1 ≡ [])
          ⊎ ((dump_loop mapped size ((p, n) ∷ es) total (size - total) total).1
              ≡ record { offset = total; from = p; len = n }
                ∷ (dump_loop mapped size es (total + n) (size - (total + n)) (total + n)).1)
    unfolding dump_loop
    dump_loop-fits some_asked fits = ground arith

  dump_loop-nil : (total : ℕ) → (dump_loop mapped size [] total (size - total) total).1 ≡ []
  unfolding dump_loop
  dump_loop-nil total = refl

  Fills-nil : (at : ℕ) (cs : List Chunk) → cs ≡ [] → Fills size at cs
  unfolding Fills
  Fills-nil at cs e = rw e tt

  Fills-cons :
      (at : ℕ) (c : Chunk) (cs ds : List Chunk)
      → ds ≡ c ∷ cs
      → c.offset ≡ at
      → at + c.len ≤ size
      → Fills size (at + c.len) cs
      → Fills size at ds
  unfolding Fills
  Fills-cons at c cs ds e o l f = rw e (o, l, f)

  dump_loop-Fills :
      (es : List (ℕ × ℕ)) (total : ℕ)
      → total ≤ size
      → total + asked es < word_mod
      → Fills size total (dump_loop mapped size es total (size - total) total).1
  dump_loop-Fills [] total h k = Fills-nil total _ (dump_loop-nil total)
  dump_loop-Fills ((p, n) ∷ es) total h k =
      let sum : total + n < word_mod = omega arith in
      elim (ℕ_discrete n 0) [
        | yes none_asked ↦
            rw (dump_loop-zero p n es total h sum none_asked)
              (dump_loop-Fills es total h (omega arith))
        | no some_asked ↦ elim (dec_lt size (total + n)) [
          | yes full ↦ elim (dump_loop-full p n es total h sum full) [
            | inl e ↦ Fills-nil total _ e
            | inr e ↦ Fills-cons total _ [] _ e refl (omega arith) (Fills-nil _ [] refl)
          ]
          | no room ↦ elim (dump_loop-fits p n es total h sum some_asked (omega arith)) [
            | inl e ↦ Fills-nil total _ e
            | inr e ↦
                Fills-cons total _ _ _ e refl (omega arith)
                  (dump_loop-Fills es (total + n) (omega arith) (omega arith))
          ]
        ]
      ]

  -- The chunks that `fsl_usmmgr_dump_memory` copies follow one another in the buffer from its start
  -- and do not pass its end, if the file asks for fewer than 2 ^ 32 bytes.
  pub dump_memory-Fills :
      (es : List (ℕ × ℕ)) → asked es < word_mod → Fills size 0 (dump_memory mapped es size).1
  unfolding dump_memory
  dump_memory-Fills [] h = Fills-nil 0 [] refl
  dump_memory-Fills (e ∷ es) h =
      let all : size - 0 ≡ size = omega arith in
      subst (λ left. Fills size 0 (dump_loop mapped size (e ∷ es) 0 left 0).1) all
        (dump_loop-Fills (e ∷ es) 0 (omega arith) (omega arith))
