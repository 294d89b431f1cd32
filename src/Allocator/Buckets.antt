-- ===== src/Allocator/Buckets.antt =====
-- What each of the lists holds after an entry is added or removed.
use enb_l1_b4860_ppc.Common.{
  ℕ, ◌+◌, ◌≤◌, ◌<◌, ◌≡◌, List, some, arith, ◌==◌, if◌then◌else◌, get_or, length, add32,
  get_or-set_self, get_or-set_ne, ℕ_discrete,
}
use enb_l1_b4860_ppc.Allocator.Defs.{
  Area, AreaList, no_entries, find_area, list_add, list_remove, at_list, list_index,
  number_of_lists,
}
use enb_l1_b4860_ppc.Allocator.Weights.{weight, weight-insert, weight-remove_area}

-- The sum over the entries of the list at an index.
abbrev pub held : (Area → ℕ) → ℕ → List AreaList → ℕ
held w j ls = weight w (get_or ls j no_entries).entries

-- What an entry in list `i` counts for list `j`.
unfoldable pub on : ℕ → ℕ → ℕ → ℕ
on i j x = if i == j then x else 0

module _ (w : Area → ℕ) (i j : ℕ) (e : Area) (ls : List AreaList) (there : i < length ls) where
  pub held-list_add : held w j (at_list i (list_add e) ls) ≡ on i j (w e) + held w j ls
  unfolding on list_add
  held-list_add = elim (ℕ_discrete i j) [
    | yes p ↦
        rw (← p, get_or-set_self ls i (list_add e (get_or ls i no_entries)) no_entries there)
          (ground (
            arith,
            weight-insert w (add32 (get_or ls i no_entries).size e.size) e
                (get_or ls i no_entries).entries,
          ))
    | no n ↦
        rw (get_or-set_ne ls i j (list_add e (get_or ls i no_entries)) no_entries n) (ground arith)
  ]

  pub held-list_remove :
      find_area e.address (get_or ls i no_entries).entries ≡ some e
      → held w j (at_list i (list_remove e) ls) + on i j (w e) ≡ held w j ls
  unfolding on list_remove
  held-list_remove h = elim (ℕ_discrete i j) [
    | yes p ↦
        rw (← p, get_or-set_self ls i (list_remove e (get_or ls i no_entries)) no_entries there)
          (ground (arith, weight-remove_area w e.address (get_or ls i no_entries).entries e h))
    | no n ↦
        rw (get_or-set_ne ls i j (list_remove e (get_or ls i no_entries)) no_entries n)
          (ground arith)
  ]

pub list_index-lt : (n : ℕ) → list_index n < number_of_lists + 1
unfolding list_index
list_index-lt n = ground arith

pub on-le : (i j x : ℕ) → on i j x ≤ x
unfolding on
on-le i j x = ground arith
