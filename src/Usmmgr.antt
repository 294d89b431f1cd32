-- ===== src/Usmmgr.antt =====
-- b4860/libb4860/ipc/lib/fsl_usmmgr.c: memory for the user space. A function returns 0 or -1 as true
-- or false, with the range that it fills in. Taken as parameters are the answers from outside:
-- `granted` of the driver of the shared segment, and `mapped`, the address that mmap returns for a
-- physical address and a size, 0xffffffff being MAP_FAILED.
pub mod Translate
pub mod Areas
pub mod Dump
mod Tests
use enb_l1_b4860_ppc.Common.{
  ℕ, ◌+◌, ◌-◌, ◌%◌, ◌^◌, Bool, true, false, not, ◌&&◌, List, [], ◌∷◌, ◌==◌, if◌then◌else◌, leb, ltb,
  word_mod, sub32, add32,
}
use enb_l1_b4860_ppc.Shm.{Shm, vtop, ptov, alloc, memalign}

-- `mem_range_t`
pub record MemRange : Type 0 where
  pub phys_addr : ℕ
  pub vaddr : ℕ
  pub size : ℕ

-- `usmmgr_priv`: `map` are the first `mapidx` entries of its array, and the three ranges of
-- `het_sys_map` that are used here follow, then the three that are mapped on demand.
pub record Usmmgr : Type 0 where
  pub map : List MemRange
  pub sh_ctrl_area : MemRange
  pub dsp_ccsrbar : MemRange
  pub pa_ccsrbar : MemRange
  pub shared_area : MemRange
  pub dsp_ccsr : MemRange
  pub pa_ccsr : MemRange

module _ (granted : ℕ → ℕ → ℕ) where
  -- `fsl_usmmgr_alloc`
  unfoldable pub usmmgr_alloc : Shm → MemRange → Bool × MemRange
  usmmgr_alloc shm r =
      let v = alloc granted shm r.size in
      if r.size == 0
      then (false, r)
      else if v == 0
      then (false, record r { vaddr = v })
      else (true, record r { vaddr = v; phys_addr = vtop shm v })

  -- `fsl_usmmgr_memalign`
  unfoldable pub usmmgr_memalign : Shm → MemRange → ℕ → Bool × MemRange
  usmmgr_memalign shm r align =
      let v = memalign granted shm r.size align in
      if r.size == 0
      then (false, r)
      else if v == 0
      then (false, record r { vaddr = v })
      else (true, record r { vaddr = v; phys_addr = vtop shm v })

-- The test of the loop of `fsl_usmmgr_p2v`.
unfoldable pub within : MemRange → ℕ → Bool
within r p = leb r.phys_addr p && ltb p ((r.phys_addr + r.size) % 2 ^ 64)

-- The loop, which goes on after a match.
unfoldable pub search_map : List MemRange → ℕ → ℕ → ℕ
unfolding within
search_map [] p vaddr = vaddr
search_map (r ∷ rs) p vaddr =
    search_map rs p
      (if within r p then ((p - r.phys_addr) % word_mod + r.vaddr) % word_mod else vaddr)

-- `fsl_usmmgr_p2v`
unfoldable pub usmmgr_p2v : Shm → Usmmgr → ℕ → ℕ
unfolding search_map
usmmgr_p2v shm m p =
    let v = ptov shm p in
    let found = search_map m.map p 0 in if ltb p word_mod && not (v == 0) then v else found

-- `fsl_usmmgr_v2p`
abbrev pub usmmgr_v2p : Shm → ℕ → ℕ
usmmgr_v2p shm vaddr = vtop shm vaddr

abbrev pub map_failed : ℕ
map_failed = 0xffffffff

module _ (mapped : ℕ → ℕ → ℕ) where
  -- What the three functions for the areas do: `sys` is the range of the system map, `kept` the one
  -- that the manager keeps, and `r` the caller's.
  unfoldable pub get_area : MemRange → MemRange → MemRange → Bool × MemRange × MemRange
  get_area sys kept r =
      let v = mapped sys.phys_addr sys.size in
      let r' : MemRange = record { phys_addr = sys.phys_addr; vaddr = v; size = sys.size } in
      if kept.vaddr == 0
      then if v == map_failed then (false, r', kept) else (true, r', r')
      else (true, kept, kept)

  unfoldable pub get_shared_ctrl_area : Usmmgr → MemRange → Bool × MemRange × Usmmgr
  unfolding get_area
  get_shared_ctrl_area m r =
      let (ok, r', kept) = get_area m.sh_ctrl_area m.shared_area r in
      (ok, r', record m { shared_area = kept })

  unfoldable pub get_dsp_ccsr_area : Usmmgr → MemRange → Bool × MemRange × Usmmgr
  unfolding get_area
  get_dsp_ccsr_area m r =
      let (ok, r', kept) = get_area m.dsp_ccsrbar m.dsp_ccsr r in
      (ok, r', record m { dsp_ccsr = kept })

  unfoldable pub get_pa_ccsr_area : Usmmgr → MemRange → Bool × MemRange × Usmmgr
  unfolding get_area
  get_pa_ccsr_area m r =
      let (ok, r', kept) = get_area m.pa_ccsrbar m.pa_ccsr r in
      (ok, r', record m { pa_ccsr = kept })

-- What `fsl_usmmgr_dump_memory` returns.
pub data Dumped : Type 0 where
  bytes : ℕ → Dumped
  file_empty mmap_failed : Dumped

-- One memcpy of it: the offset in the buffer, the physical address, and the length.
pub record Chunk : Type 0 where
  pub offset : ℕ
  pub from : ℕ
  pub len : ℕ

module _ (mapped : ℕ → ℕ → ℕ) where
  -- The loop over the pairs of the file: `total` is calculated_total_size, `left` is size_left, and
  -- `at` the offset of current_addr in the buffer of `size` bytes. PAGE_SIZE is 0x1000.
  unfoldable pub dump_loop : ℕ → List (ℕ × ℕ) → ℕ → ℕ → ℕ → Dumped × List Chunk
  dump_loop size [] total left at = (bytes total, [])
  dump_loop size ((p, n) ∷ rest) total left at =
      let pad = p % 0x1000 in
      let total' = add32 total n in
      let fits = leb total' size in
      let left' = if fits then sub32 left n else left in
      let len = if fits then n else left in
      let failed = mapped (p - pad) (add32 len pad) == map_failed in
      let chunk : Chunk = record { offset = at; from = p; len = len } in
      let (result, chunks) =
        dump_loop size rest total' (if n == 0 then left else left')
          (if n == 0 then at else add32 at len) in
      if n == 0
      then (result, chunks)
      else if len == 0
      then (bytes size, [])
      else if failed
      then (mmap_failed, [])
      else if fits
      then (result, chunk ∷ chunks)
      else (bytes size, chunk ∷ [])

  -- `fsl_usmmgr_dump_memory`, once the file is read and the device is open.
  unfoldable pub dump_memory : List (ℕ × ℕ) → ℕ → Dumped × List Chunk
  unfolding dump_loop
  dump_memory [] size = (file_empty, [])
  dump_memory (e ∷ es) size = dump_loop size (e ∷ es) 0 size 0
