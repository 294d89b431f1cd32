-- ===== src/Allocator/Ops.antt =====
-- The functions of the allocator.
use enb_l1_b4860_ppc.Common.{
  ℕ, ◌+◌, ◌-◌, ◌%◌, ◌^◌, Bool, not, ◌&&◌, ◌||◌, Option, none, some, List, [], ◌∷◌, ◌++◌, ◌==◌,
  if◌then◌else◌, ltb, leb, get_or, replicate, bit_and, add32, sub32,
}
use enb_l1_b4860_ppc.Allocator.Defs.{
  Area, AreaList, Mm, add64, no_entries, number_of_lists, list_index, find_area, list_add_free_area,
  list_remove_free_area, list_add_allocated_area, list_remove_allocated_area, get_free_area_list,
  drop, replace_node, g_next, g_prev, free_node, allocated_node,
}

-- `initialize`: the segment is one free area, whose size is an unsigned int.
unfoldable pub initialize : ℕ → ℕ → Mm
unfolding list_add_free_area
initialize paddr size =
    let n = size % 2 ^ 32 in
    list_add_free_area (record { address = paddr; size = n })
      (record {
        psa = paddr;
        shm_size = size;
        global = free_node paddr n ∷ [];
        free_area_lists = replicate (number_of_lists + 1) no_entries;
        allocated_area_lists = replicate (number_of_lists + 1) no_entries;
      })

-- The two ways in which a free area becomes an allocated one at its start: whole, and split.
unfoldable pub take_whole : Area → Mm → Mm
take_whole ptr mm =
    let tagged = record mm {
      global = replace_node ptr.address (allocated_node ptr.address ptr.size ∷ []) mm.global;
    } in
    list_add_allocated_area ptr (list_remove_free_area ptr tagged)

unfoldable pub take_start : Area → ℕ → Mm → Mm
take_start ptr size mm =
    let rest : Area = record { address = add64 ptr.address size; size = sub32 ptr.size size } in
    let block : Area = record { address = ptr.address; size = size } in
    let listed =
      list_add_allocated_area block (list_add_free_area rest (list_remove_free_area ptr mm)) in
    record listed {
      global =
          replace_node ptr.address
            (allocated_node block.address block.size ∷ free_node rest.address rest.size ∷ [])
            listed.global;
    }

-- And at an aligned address within it: what is left before it, and behind it if there is any.
unfoldable pub take_inside : Area → ℕ → ℕ → Mm → Mm
take_inside ptr start size mm =
    let end = add64 ptr.address ptr.size in
    let block : Area = record { address = start; size = size } in
    let behind : Area = record {
      address = add64 start size;
      size = (end - add64 start size) % 2 ^ 32;
    } in
    let before : Area = record {
      address = ptr.address;
      size = sub32 (sub32 ptr.size size) behind.size;
    } in
    let listed =
      list_add_allocated_area block (list_add_free_area before (list_remove_free_area ptr mm)) in
    let two = free_node before.address before.size ∷ allocated_node block.address block.size ∷ [] in
    if add64 start size == end
    then record listed { global = replace_node ptr.address two listed.global }
    else list_add_free_area behind (record listed {
      global =
          replace_node ptr.address (two ++ (free_node behind.address behind.size ∷ []))
            listed.global;
    })

-- addr & ~(align - 1)
abbrev pub align_down : ℕ → ℕ → ℕ
align_down addr align = bit_and addr (2 ^ 64 - align)

-- `tptr` after a step of either loop: the largest of the entries that were passed over.
abbrev pub passed : Option Area → Area → Option Area
passed none e = some e
passed (some t) e = if ltb t.size e.size then some e else some t

-- `tptr` is taken out of its list, and added again.
abbrev pub requeue : Option Area → Mm → Mm
requeue none mm = mm
requeue (some t) mm = list_add_free_area t (list_remove_free_area t mm)

-- The loop of `__alloc` over the entries of a list: the first one that is large enough.
unfoldable pub scan : ℕ → Option Area → List Area → Option (Area × Option Area)
scan size tptr [] = none
scan size tptr (e ∷ es) =
    let rest = scan size (passed tptr e) es in if leb size e.size then some (e, tptr) else rest

-- What `__alloc` and `__memalign` return: the address of the area, or NULL.
abbrev pub finish : Option Area → Option Area → Mm → ℕ × Mm
finish none tptr mm = (0, mm)
finish (some a) tptr mm = (a.address, requeue tptr mm)

module _ (kmalloc : ℕ → ℕ → Bool) where
  -- `allocate_free_area`. No free area is too small to split, since SPLIT_THREASHOLD is 0.
  unfoldable pub allocate_free_area : Area → ℕ → Mm → Option Area × Mm
  allocate_free_area ptr size mm =
      if ptr.size == size
      then (some ptr, take_whole ptr mm)
      else if not (ltb size ptr.size)
      then (none, mm)
      else if not (kmalloc ptr.address 0)
      then (none, mm)
      else (some (record { address = ptr.address; size = size }), take_start ptr size mm)

  -- `do_align_valloc`
  unfoldable pub do_align_valloc : Area → ℕ → ℕ → Mm → Option Area × Mm
  unfolding allocate_free_area
  do_align_valloc ptr align size mm =
      let addr = ptr.address in
      let below = align_down addr align in
      let start = align_down (add64 addr align) align in
      let end = add64 addr ptr.size in
      if ltb ptr.size size
      then (none, mm)
      else if addr == 0 || (not (below == 0) && below == addr)
      then allocate_free_area ptr size mm
      else if not (ltb start end && leb (add64 start size) end)
      then (none, mm)
      else if not (kmalloc addr 0) || (not (add64 start size == end) && not (kmalloc addr 1))
      then (none, mm)
      else (some (record { address = start; size = size }), take_inside ptr start size mm)

  -- `__alloc`
  unfoldable pub alloc : ℕ → Mm → ℕ × Mm
  unfolding scan allocate_free_area
  alloc size mm = if size == 0 then (0, mm) else elim (get_free_area_list size mm) [
    | none ↦ (0, mm)
    | some i ↦ elim (scan size none (get_or mm.free_area_lists i no_entries).entries) [
      | none ↦ (0, mm)
      | some found ↦ let (a, mm') = allocate_free_area found.0 size mm in finish a found.1 mm'
    ]
  ]

  -- The loop of `__memalign` over the entries of a list.
  unfoldable pub align_scan : ℕ → ℕ → Mm → Option Area → List Area → Option (Area × Option Area)
  unfolding do_align_valloc
  align_scan size align mm tptr [] = none
  align_scan size align mm tptr (e ∷ es) =
      let rest = align_scan size align mm (passed tptr e) es in
      elim (do_align_valloc e align size mm).0 [ none ↦ rest | some a ↦ some (e, tptr) ]

  -- And over the lists from index `i` on.
  unfoldable pub align_search : ℕ → ℕ → Mm → List AreaList → Option (Area × Option Area)
  unfolding align_scan
  align_search size align mm [] = none
  align_search size align mm (l ∷ ls) =
      let rest = align_search size align mm ls in
      elim (align_scan size align mm none l.entries) [ none ↦ rest | some found ↦ some found ]

  -- `__memalign`. An area whose trial fails is left as it is, so that the trials are made on the
  -- state at the beginning, and the first one that succeeds changes it.
  unfoldable pub memalign : ℕ → ℕ → Mm → ℕ × Mm
  unfolding align_search alloc
  memalign size align mm =
      if size == 0
      then (0, mm)
      else if align == 0
      then alloc size mm
      else elim (get_free_area_list size mm) [
        | none ↦ (0, mm)
        | some i ↦ elim (align_search size align mm (drop i mm.free_area_lists)) [
          | none ↦ (0, mm)
          | some found ↦
              let (a, mm') = do_align_valloc found.0 align size mm in finish a found.1 mm'
        ]
      ]

-- `try_merge_downward`: the area that is freed, with the free one behind it.
unfoldable pub try_merge_downward : Area → Mm → Area × Mm
try_merge_downward curr mm = elim (g_next curr.address mm.global) [
  | none ↦ (curr, mm)
  | some next ↦
      (if not (next.tag == 0)
        then (curr, mm)
        else (let grown : Area = record curr { size = add32 curr.size next.area.size } in
            let listed = list_remove_free_area next.area mm in
            let shrunk = replace_node next.area.address [] listed.global in
            (
              grown,
              record listed {
                global = replace_node curr.address (free_node grown.address grown.size ∷ []) shrunk;
              },
            )))
]

-- `try_merge_upward`, with the removal of the node from the list of all areas, and what `__free`
-- does if nothing was merged.
unfoldable pub try_merge_upward : Area → Mm → Mm
try_merge_upward curr mm = elim (g_prev curr.address mm.global) [
  | none ↦ list_add_free_area curr mm
  | some prev ↦
      (if not (prev.tag == 0)
        then list_add_free_area curr mm
        else (let grown : Area = record prev.area { size = add32 prev.area.size curr.size } in
            let listed = list_add_free_area grown (list_remove_free_area prev.area mm) in
            let shrunk = replace_node curr.address [] listed.global in
            record listed {
              global =
                  replace_node prev.area.address (free_node grown.address grown.size ∷ []) shrunk;
            }))
]

-- `fsl_shm_free` with `__free`, which it does not call for NULL.
unfoldable pub free : ℕ → Mm → Mm
unfolding try_merge_downward try_merge_upward
free ptr mm =
    if ptr == 0
    then mm
    else elim (find_area ptr (get_or mm.allocated_area_lists (list_index ptr) no_entries).entries) [
      | none ↦ mm
      | some a ↦
          (let unlisted = list_remove_allocated_area a mm in
            let untagged = record unlisted {
              global = replace_node a.address (free_node a.address a.size ∷ []) unlisted.global;
            } in
            let (curr, merged) = try_merge_downward a untagged in try_merge_upward curr merged)
    ]
