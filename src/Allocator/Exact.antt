-- ===== src/Allocator/Exact.antt =====
-- Requests for up to MAX_FREE_SIZE_LIST: a list is looked into only if it holds more than the size.
use enb_l1_b4860_ppc.Common.{
  ℕ, zero, suc, ◌+◌, ◌%◌, ◌^◌, ◌≤◌, ◌≡◌, refl, Bool, true, false, List, [], ◌∷◌, none, arith, ◌&&◌,
  leb, ltb, get_or, set, replicate,
}
use enb_l1_b4860_ppc.Allocator.Defs.{
  Area, AreaList, Mm, no_entries, list_index, number_of_lists, max_free_size_list, list_add,
  list_add_free_area, drop, search_lists, get_free_area_list,
}
use enb_l1_b4860_ppc.Allocator.Ops.{initialize, alloc}
use enb_l1_b4860_ppc.Allocator.Large.{large_free}

-- Whether every list holds at most a size.
unfoldable pub all_hold : ℕ → List AreaList → Bool
all_hold n [] = true
all_hold n (l ∷ ls) = leb l.size n && all_hold n ls

search_lists-none :
    (n i : ℕ) (ls : List AreaList) → all_hold n ls ≡ true → search_lists n i ls ≡ none
unfolding all_hold search_lists
search_lists-none n i [] h = refl
search_lists-none n i (l ∷ ls) h = ground (arith, search_lists-none n (i + 1) ls)

all_hold-drop :
    (n i : ℕ) (ls : List AreaList) → all_hold n ls ≡ true → all_hold n (drop i ls) ≡ true
unfolding all_hold
all_hold-drop n zero ls h = h
all_hold-drop n (suc i) [] h = h
all_hold-drop n (suc i) (l ∷ ls) h = all_hold-drop n i ls (ground arith)

get_free_area_list-none :
    (mm : Mm) (size : ℕ)
    → size ≤ max_free_size_list
    → all_hold size mm.free_area_lists ≡ true
    → get_free_area_list size mm ≡ none
unfolding get_free_area_list
get_free_area_list-none mm size small h =
    let word : size % 2 ^ 32 ≡ size = omega arith in
    let over : ltb max_free_size_list size ≡ false = ground arith in
    rw (word, over) (search_lists-none size _ _ (all_hold-drop size _ mm.free_area_lists h))

-- A request is refused if no list holds more than its size, even if one holds a free area of exactly
-- that size.
pub alloc-exact :
    (kmalloc : ℕ → ℕ → Bool) (mm : Mm) (size : ℕ)
    → size ≤ max_free_size_list
    → all_hold size mm.free_area_lists ≡ true
    → alloc kmalloc size mm ≡ (0, mm)
unfolding alloc
alloc-exact kmalloc mm size small h =
    let refused = get_free_area_list-none mm size small h in ground arith

all_hold-set :
    (n i : ℕ) (ls : List AreaList) (l : AreaList)
    → all_hold n ls ≡ true
    → l.size ≤ n
    → all_hold n (set ls i l) ≡ true
unfolding all_hold
all_hold-set n i [] l h le = h
all_hold-set n zero (x ∷ ls) l h le = ground arith
all_hold-set n (suc i) (x ∷ ls) l h le = ground (arith, all_hold-set n i ls l)

empty_lists : (k i : ℕ) → (get_or (replicate k no_entries) i no_entries).size ≡ 0
empty_lists zero i = refl
empty_lists (suc k) zero = refl
empty_lists (suc k) (suc i) = empty_lists k i

-- A segment of up to MAX_FREE_SIZE_LIST is one free area of its size, and a request for that size is
-- refused all the same.
pub alloc-whole_segment :
    (kmalloc : ℕ → ℕ → Bool) (paddr size : ℕ)
    → size ≤ max_free_size_list
    → (large_free size (initialize paddr size).global ≡ 1)
      × (alloc kmalloc size (initialize paddr size) ≡ (0, initialize paddr size))
unfolding initialize list_add_free_area list_add large_free all_hold
alloc-whole_segment kmalloc paddr size small =
    let word : size % 2 ^ 32 ≡ size = omega arith in
    let i = list_index (size % 2 ^ 32) in
    let empty = replicate (number_of_lists + 1) no_entries in
    let e : Area = record { address = paddr; size = size % 2 ^ 32 } in
    (
      ground arith,
      alloc-exact kmalloc (initialize paddr size) size small (
          all_hold-set size i empty (list_add e (get_or empty i no_entries)) (ground arith)
            (omega (arith, empty_lists (number_of_lists + 1) i))),
    )
