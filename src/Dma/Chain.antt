-- ===== src/Dma/Chain.antt =====
-- The engine, which follows the links from the first descriptor on, finds the entries in order.
use enb_l1_b4860_ppc.Common.{
  ℕ, zero, suc, ◌+◌, ◌-◌, ◌*◌, ◌/◌, ◌%◌, ◌≤◌, ◌<◌, ◌≡◌, refl, ap, sym, subst, ◌∙◌, true, false,
  some, List, [], ◌∷◌, arith, ◌==◌, if◌then◌else◌, length, word_mod, bit_and, map, ap₂, ◌^◌,
}
use Prim.Native.Nat.{bit_or}
use enb_l1_b4860_ppc.Common.Bits.{bit_and_mask}
use enb_l1_b4860_ppc.Common.Testbit.{or_fields}
use enb_l1_b4860_ppc.Dma.{
  Descriptor, Dma, Entry, dma_success, max_dma_entries, descriptor_size, put_descriptor, described,
  list_clear, add_entry, add_entries, is_busy, start,
}

-- What a descriptor makes the engine copy: from, to, and how many bytes. An address has 36 bits, of
-- which the attributes have the four highest.
abbrev pub Copy : Type 0
Copy = ℕ × ℕ × ℕ

abbrev pub copy_of : Descriptor → Copy
copy_of x = (x.sattr % 16 * 2 ^ 32 + x.src, x.dattr % 16 * 2 ^ 32 + x.dest, x.length)

-- What an entry asks for.
abbrev pub asked : Entry → Copy
asked e = (e.src, e.dest, e.length)

-- The engine reaches the addresses of the entries.
abbrev pub AreReachable : List Entry → Type 0
AreReachable [] = Unit
AreReachable (e ∷ es) = (e.src < 2 ^ 32) × (e.dest < 2 ^ 36) × AreReachable es

-- The engine: the descriptors that are reached from an address through their links; a link whose
-- lowest bit is set is the last one.
unfoldable pub follow : ℕ → Dma → ℕ → List Descriptor
follow zero d addr = []
follow (suc n) d addr =
    let x = d.dma_list ((addr - d.phys_addr) / descriptor_size) in
    let rest = follow n d x.nlndar in if x.nlndar % 2 == 1 then x ∷ [] else x ∷ rest

-- The descriptors of entries that stand from an index on, and the last of them ends the list.
unfoldable pub chain : ℕ → ℕ → List Entry → List Descriptor
chain phys i [] = []
chain phys i (e ∷ []) = record (described phys i e) { nlndar = 1 } ∷ []
chain phys i (e ∷ f ∷ es) = described phys i e ∷ chain phys (i + 1) (f ∷ es)

-- The entries stand in the list from an index on.
unfoldable pub Stand : ℕ → (ℕ → Descriptor) → ℕ → List Entry → Type 0
Stand phys list i [] = Unit
Stand phys list i (e ∷ es) = (list i ≡ described phys i e) × Stand phys list (i + 1) es

-- The attribute has the high bits of the destination.
dattr_high : (h : ℕ) → h < 16 → bit_or 0x50000 (bit_and h 0xf) % 16 ≡ h
dattr_high h few =
    let low : bit_and h 0xf ≡ h = bit_and_mask 4 h ∙ omega arith in
    ap (λ k. bit_or 0x50000 k % 16) low ∙ ap (λ k. k % 16) (or_fields 4 0x5000 h few) ∙ omega arith

copy_of-described :
    (phys i : ℕ) (e : Entry)
    → e.src < 2 ^ 32
    → e.dest < 2 ^ 36
    → copy_of (described phys i e) ≡ asked e
copy_of-described phys i e hs hd =
    let high = dattr_high (e.dest / 2 ^ 32) (omega arith) in
    let from : 0x50000 % 16 * 2 ^ 32 + e.src % word_mod ≡ e.src = omega arith in
    let to : bit_or 0x50000 (bit_and (e.dest / 2 ^ 32) 0xf) % 16 * 2 ^ 32 + e.dest % word_mod
        ≡ e.dest =
      omega (arith, high) in
    ap₂ (λ s t. (s, t, e.length)) from to

copies-chain :
    (phys : ℕ) (es : List Entry) (i : ℕ)
    → AreReachable es
    → map copy_of (chain phys i es) ≡ map asked es
unfolding chain
copies-chain phys [] i h = refl
copies-chain phys (e ∷ []) i (s, t, _) = ap (λ c. c ∷ []) (copy_of-described phys i e s t)
copies-chain phys (e ∷ f ∷ es) i (s, t, h) =
    ap₂ (λ c cs. c ∷ cs) (copy_of-described phys i e s t) (copies-chain phys (f ∷ es) (i + 1) h)

added : Entry → Dma → Dma
added e d = record d {
  dma_list = put_descriptor d.list_index (described d.phys_addr d.list_index e) d.dma_list;
  list_index = d.list_index + 1;
}

add_entry-added :
    (e : Entry) (d : Dma) → d.list_index < max_dma_entries → (add_entry e d).1 ≡ added e d
unfolding add_entry added
add_entry-added e d h =
    let test : (d.list_index == max_dma_entries) ≡ false = ground arith in rw test refl

-- What adding entries makes of a state.
abbrev Added : List Entry → Dma → Dma → Type 0
Added es d d' =
    (d'.list_index ≡ d.list_index + length es)
    × (d'.phys_addr ≡ d.phys_addr)
    × (d'.sr ≡ d.sr)
    × ((j : ℕ) → j < d.list_index → d'.dma_list j ≡ d.dma_list j)
    × Stand d.phys_addr d'.dma_list d.list_index es

pub add_entries-Added :
    (es : List Entry) (d : Dma)
    → d.list_index + length es ≤ max_dma_entries
    → Added es d (add_entries es d)
unfolding add_entries Stand added
add_entries-Added [] d h = (omega arith, refl, refl, λ j l. refl, tt)
add_entries-Added (e ∷ es) d h =
    let i = d.list_index in
    let (at, phys, sr, kept, stand) = add_entries-Added es (added e d) (omega arith) in
    let here : (i == i) ≡ true = ground arith in
    subst (λ (d' : Dma). Added (e ∷ es) d (add_entries es d'))
      (sym (add_entry-added e d (omega arith)))
      (
        omega (arith, at),
        phys,
        sr,
        λ j l.
            let other : (j == i) ≡ false = ground arith in
            kept j (omega (arith, l)) ∙ (rw other refl),
        (kept i (omega arith) ∙ (rw here refl), stand),
      )

follow-last :
    (n : ℕ) (d : Dma) (addr : ℕ) (x : Descriptor)
    → d.dma_list ((addr - d.phys_addr) / descriptor_size) ≡ x
    → (x.nlndar % 2 == 1) ≡ true
    → follow (suc n) d addr ≡ x ∷ []
unfolding follow
follow-last n d addr x at h =
    subst
      (λ (y : Descriptor). (if y.nlndar % 2 == 1 then y ∷ [] else y ∷ follow n d y.nlndar) ≡ x ∷ [])
      (sym at) (rw h refl)

follow-link :
    (n : ℕ) (d : Dma) (addr : ℕ) (x : Descriptor)
    → d.dma_list ((addr - d.phys_addr) / descriptor_size) ≡ x
    → (x.nlndar % 2 == 1) ≡ false
    → follow (suc n) d addr ≡ x ∷ follow n d x.nlndar
unfolding follow
follow-link n d addr x at h =
    subst
      (λ (y : Descriptor).
        (if y.nlndar % 2 == 1 then y ∷ [] else y ∷ follow n d y.nlndar) ≡ x ∷ follow n d x.nlndar)
      (sym at) (rw h refl)

abbrev ended : Descriptor → Descriptor
ended x = record x { nlndar = 1 }

module _ (list : ℕ → Descriptor) (last : ℕ) (d : Dma)
    (is_ended : (j : ℕ) → d.dma_list j ≡ put_descriptor last (ended (list last)) list j)
    (even : d.phys_addr % 2 ≡ 0) (word : d.phys_addr + 145 * descriptor_size < word_mod) where
  at_index :
      (i : ℕ)
      → d.dma_list ((d.phys_addr + i * descriptor_size - d.phys_addr) / descriptor_size)
        ≡ put_descriptor last (ended (list last)) list i
  at_index i =
      let eq : (d.phys_addr + i * descriptor_size - d.phys_addr) / descriptor_size ≡ i =
        omega arith in
      ap d.dma_list eq ∙ is_ended i

  follow-chain :
      (es : List Entry) (i fuel : ℕ)
      → Stand d.phys_addr list i es
      → 0 < length es
      → i + length es ≡ suc last
      → last < max_dma_entries
      → length es ≤ fuel
      → follow fuel d (d.phys_addr + i * descriptor_size) ≡ chain d.phys_addr i es
  unfolding Stand chain
  follow-chain [] i fuel s pos eq small enough = absurd (omega arith)
  follow-chain (e ∷ es) i zero s pos eq small enough = absurd (omega arith)
  follow-chain (e ∷ []) i (suc n) (s, _) pos eq small enough =
      let here : i ≡ last = omega (arith, eq) in
      let test : (i == last) ≡ true = ground arith in
      let x : put_descriptor last (ended (list last)) list i ≡ ended (described d.phys_addr i e) =
        rw test (ap ended (ap list (sym here) ∙ s)) in
      follow-last n d (d.phys_addr + i * descriptor_size) (ended (described d.phys_addr i e))
        (at_index i ∙ x) refl
  follow-chain (e ∷ f ∷ es) i (suc n) (s, rest) pos eq small enough =
      let test : (i == last) ≡ false = ground arith in
      let x : put_descriptor last (ended (list last)) list i ≡ described d.phys_addr i e =
        rw test s in
      let next : (d.phys_addr + (i + 1) * descriptor_size) % word_mod
          ≡ d.phys_addr + (i + 1) * descriptor_size =
        omega (arith, word, eq, small) in
      let more : ((described d.phys_addr i e).nlndar % 2 == 1) ≡ false =
        ground (arith, next, even) in
      follow-link n d (d.phys_addr + i * descriptor_size) (described d.phys_addr i e)
        (at_index i ∙ x) more
      ∙ ap (λ (l : List Descriptor). described d.phys_addr i e ∷ l)
          (ap (follow n d) next
            ∙ follow-chain (f ∷ es) (i + 1) n rest (omega arith) (omega (arith, eq)) small
                (omega arith))

-- A list that is not empty, given to an engine that is idle.
abbrev started : Dma → Dma
started f =
    let last = f.list_index - 1 in
    record f {
      list_index = last;
      dma_list = put_descriptor last (ended (f.dma_list last)) f.dma_list;
      eclndar = 0;
      clndar = f.phys_addr % word_mod;
      mr = 0x08200001;
    }

start-idle :
    (f : Dma)
    → is_busy f ≡ false
    → (f.list_index == 0) ≡ false
    → start f ≡ some (dma_success, started f)
unfolding start
start-idle f idle some_entries = rw (start, idle, some_entries) refl

busy_sr : (f d : Dma) → f.sr ≡ d.sr → is_busy f ≡ is_busy d
unfolding is_busy
busy_sr f d h = ap (λ (r : ℕ). bit_and r 4 == 4) h

module _ (es : List Entry) (d : Dma) (some_entries : 0 < length es)
    (few : length es ≤ max_dma_entries) (idle : is_busy d ≡ false) (even : d.phys_addr % 2 ≡ 0)
    (word : d.phys_addr + 145 * descriptor_size < word_mod) where
  abbrev filled : Dma
  filled = add_entries es (list_clear d)

  chained :
      (d' : Dma) × (start (add_entries es (list_clear d)) ≡ some (dma_success, d'))
      × (follow max_dma_entries d' d'.clndar ≡ chain d.phys_addr 0 es)
  unfolding list_clear
  chained =
      let (at, phys, sr, _, stand) = add_entries-Added es (list_clear d) (omega (arith, few)) in
      let last = filled.list_index - 1 in
      let nonzero : (filled.list_index == 0) ≡ false = ground arith in
      let first : filled.phys_addr % word_mod ≡ filled.phys_addr + 0 * descriptor_size =
        omega (arith, phys, word) in
      let even' : filled.phys_addr % 2 ≡ 0 = omega (arith, phys, even) in
      let word' : filled.phys_addr + 145 * descriptor_size < word_mod = omega (arith, phys, word) in
      let walk =
        follow-chain filled.dma_list last (started filled) (λ j. refl) even' word' es 0
          max_dma_entries (subst (λ (p : ℕ). Stand p filled.dma_list 0 es) (sym phys) stand)
          some_entries (omega (arith, at)) (omega (arith, at, few)) few in
      (
        started filled,
        start-idle filled (busy_sr filled d sr ∙ idle) nonzero,
        ap (follow max_dma_entries (started filled)) first
            ∙ walk
            ∙ ap (λ (p : ℕ). chain p 0 es) phys,
      )

  -- On an idle engine, whose list lies at an even address with room for it below 2 ^ 32, 1 to 144
  -- entries, from addresses below 2 ^ 32 to addresses below 2 ^ 36, that are added to the cleared list
  -- and started make the engine, which follows the links from the address in its register on, copy
  -- from, to and as many bytes as the entries ask for, in order, and then stop.
  pub start-follows :
      AreReachable es
      → (d' : Dma) × (start (add_entries es (list_clear d)) ≡ some (dma_success, d'))
        × (map copy_of (follow max_dma_entries d' d'.clndar) ≡ map asked es)
  start-follows reach =
      let (d', at, walk) = chained in
      (d', at, ap (map copy_of) walk ∙ copies-chain d.phys_addr es 0 reach)
