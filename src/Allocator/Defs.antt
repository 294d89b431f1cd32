-- ===== src/Allocator/Defs.antt =====
-- The lists of the allocator, and what moves nodes between them.
use enb_l1_b4860_ppc.Common.{
  ℕ, zero, suc, ◌+◌, ◌-◌, ◌*◌, ◌/◌, ◌%◌, ◌^◌, ◌&&◌, Option, none, some, List, [], ◌∷◌, ◌++◌, ◌==◌,
  if◌then◌else◌, ltb, leb, get_or, set, add32, sub32,
}

-- The address and the size of an area, in an entry of a list of free or of allocated areas.
pub record Area : Type 0 where
  pub address : ℕ
  pub size : ℕ

-- `node`, in the list of all areas; the tag is 0 for a free area.
pub record Node : Type 0 where
  pub tag : ℕ
  pub area : Area

-- The head of a list, with the sum of sizes that it keeps, and the entries from head->next on.
pub record AreaList : Type 0 where
  pub size : ℕ
  pub entries : List Area

pub record Mm : Type 0 where
  pub psa : ℕ
  pub shm_size : ℕ
  pub global : List Node
  pub free_area_lists : List AreaList
  pub allocated_area_lists : List AreaList

-- The sum of two addresses, of 64 bits.
abbrev pub add64 : ℕ → ℕ → ℕ
add64 a b = (a + b) % 2 ^ 64

abbrev pub no_entries : AreaList
no_entries = record { size = 0; entries = [] }

-- NUMBER_OF_LISTS, and MIN_FREE_SIZE_LIST, which MIN_ADDRESS_LIST equals
abbrev pub number_of_lists : ℕ
number_of_lists = 8

abbrev pub min_free_size_list : ℕ
min_free_size_list = 0x1000

abbrev pub max_free_size_list : ℕ
max_free_size_list = min_free_size_list * number_of_lists

-- `get_list` of a size, and `get_allocated_list_from_address` of an address: the index of the list.
-- The mask clears what is left over 0x1000.
unfoldable pub list_index : ℕ → ℕ
list_index n =
    if ltb max_free_size_list n
    then number_of_lists
    else (n - n % min_free_size_list) / min_free_size_list

-- head->prev->size; on an empty list that is the head.
unfoldable pub last_size : ℕ → List Area → ℕ
last_size head_size [] = head_size
last_size head_size (e ∷ es) = last_size e.size es

-- The three places that `list_add_free_area` and `list_add_allocated_area` choose from.
unfoldable pub insert : ℕ → Area → List Area → List Area
unfolding last_size
insert head_size e [] = e ∷ []
insert head_size e (x ∷ es) =
    if leb (last_size head_size (x ∷ es)) e.size
    then x ∷ (es ++ (e ∷ []))
    else if ltb e.size x.size
    then e ∷ x ∷ es
    else x ∷ e ∷ es

-- The entry with an address, and the entries without it.
unfoldable pub find_area : ℕ → List Area → Option Area
find_area a [] = none
find_area a (e ∷ es) = let rest = find_area a es in if e.address == a then some e else rest

unfoldable pub remove_area : ℕ → List Area → List Area
remove_area a [] = []
remove_area a (e ∷ es) = let rest = remove_area a es in if e.address == a then es else e ∷ rest

unfoldable pub list_add : Area → AreaList → AreaList
unfolding insert
list_add e l =
    let size = add32 l.size e.size in record { size = size; entries = insert size e l.entries }

unfoldable pub list_remove : Area → AreaList → AreaList
unfolding remove_area
list_remove e l = record { size = sub32 l.size e.size; entries = remove_area e.address l.entries }

-- A change of the list at an index.
abbrev pub at_list : ℕ → (AreaList → AreaList) → List AreaList → List AreaList
at_list i f ls = set ls i (f (get_or ls i no_entries))

unfoldable pub list_add_free_area : Area → Mm → Mm
list_add_free_area e mm = record mm {
  free_area_lists = at_list (list_index e.size) (list_add e) mm.free_area_lists;
}

unfoldable pub list_remove_free_area : Area → Mm → Mm
list_remove_free_area e mm = record mm {
  free_area_lists = at_list (list_index e.size) (list_remove e) mm.free_area_lists;
}

unfoldable pub list_add_allocated_area : Area → Mm → Mm
list_add_allocated_area e mm = record mm {
  allocated_area_lists = at_list (list_index e.address) (list_add e) mm.allocated_area_lists;
}

unfoldable pub list_remove_allocated_area : Area → Mm → Mm
list_remove_allocated_area e mm = record mm {
  allocated_area_lists = at_list (list_index e.address) (list_remove e) mm.allocated_area_lists;
}

-- The loop of `get_free_area_list`, over the lists from index `i` on.
unfoldable pub search_lists : ℕ → ℕ → List AreaList → Option ℕ
unfolding last_size
search_lists size i [] = none
search_lists size i (l ∷ ls) =
    let rest = search_lists size (i + 1) ls in
    if ltb size l.size && leb size (last_size l.size l.entries) then some i else rest

abbrev pub drop {ℓ} : {A : Type ℓ} → ℕ → List A → List A
drop zero xs = xs
drop (suc n) [] = []
drop (suc n) (x ∷ xs) = drop n xs

-- `get_free_area_list`, whose parameter is an unsigned int: the index of the list.
unfoldable pub get_free_area_list : ℕ → Mm → Option ℕ
unfolding search_lists list_index
get_free_area_list size mm =
    let n = size % 2 ^ 32 in
    if ltb max_free_size_list n
    then some number_of_lists
    else search_lists n (list_index n) (drop (list_index n) mm.free_area_lists)

-- What the pointer operations make of the node at an address in the list of all areas.
unfoldable pub replace_node : ℕ → List Node → List Node → List Node
replace_node a new [] = []
replace_node a new (n ∷ ns) =
    let rest = replace_node a new ns in if n.area.address == a then new ++ ns else n ∷ rest

-- The nodes that `g_next` and `g_prev` of the node at an address point to; none is the head.
unfoldable pub g_next : ℕ → List Node → Option Node
g_next a [] = none
g_next a (n ∷ []) = none
g_next a (n ∷ m ∷ ns) = let rest = g_next a (m ∷ ns) in if n.area.address == a then some m else rest

unfoldable pub g_prev : ℕ → List Node → Option Node
g_prev a [] = none
g_prev a (n ∷ []) = none
g_prev a (n ∷ m ∷ ns) = let rest = g_prev a (m ∷ ns) in if m.area.address == a then some n else rest

abbrev pub free_node : ℕ → ℕ → Node
free_node a n = record { tag = 0; area = record { address = a; size = n } }

abbrev pub allocated_node : ℕ → ℕ → Node
allocated_node a n = record { tag = 1; area = record { address = a; size = n } }
