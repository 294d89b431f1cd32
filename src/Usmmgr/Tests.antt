-- ===== src/Usmmgr/Tests.antt =====
-- The memory manager on a concrete segment and map.
use enb_l1_b4860_ppc.Common.{ℕ, ◌+◌, ◌≡◌, ◌≢◌, refl, true, List, [], ◌∷◌, arith}
use enb_l1_b4860_ppc.Shm.{Shm}
use enb_l1_b4860_ppc.Shm.Laws.{IsAttached}
use enb_l1_b4860_ppc.Usmmgr.{
  MemRange, Usmmgr, Chunk, bytes, usmmgr_p2v, usmmgr_alloc, dump_memory, dump_loop,
}
use enb_l1_b4860_ppc.Usmmgr.Translate.{usmmgr_alloc-p2v}
use enb_l1_b4860_ppc.Usmmgr.Dump.{Fills, dump_memory-Fills}

abbrev segment : Shm
segment = record { init_done = true; vaddr = 0x40000000; paddr = 0x20000000; size = 0xff00000 }

segment-IsAttached : IsAttached segment
segment-IsAttached = record {
  done = refl;
  vaddr_pos = omega arith;
  paddr_pos = omega arith;
  vaddr_word = omega arith;
  paddr_word = omega arith;
}

abbrev range : ℕ → ℕ → ℕ → MemRange
range p v n = record { phys_addr = p; vaddr = v; size = n }

abbrev m3 : MemRange
m3 = range 0x80000000 0x60000000 0x80000

abbrev manager : Usmmgr
manager = record {
  map = m3 ∷ [];
  sh_ctrl_area = range 0x1000 0 0x1000;
  dsp_ccsrbar = range 0xf0000000 0 0x100000;
  pa_ccsrbar = range 0xe0000000 0 0x100000;
  shared_area = range 0 0 0;
  dsp_ccsr = range 0 0 0;
  pa_ccsr = range 0 0 0;
}

usmmgr_alloc-p2v_example :
    let (ok, r) = usmmgr_alloc (λ size align. 0x20001000) segment (range 0 0 64) in
    (ok ≡ true)
    × (r.phys_addr ≡ 0x20001000)
    × (r.size ≡ 64)
    × (usmmgr_p2v segment manager r.phys_addr ≡ r.vaddr)
usmmgr_alloc-p2v_example =
    usmmgr_alloc-p2v segment-IsAttached (λ size align. 0x20001000) manager (range 0 0 64)
      (omega arith) (omega arith) (omega arith)

abbrev identity : ℕ → ℕ → ℕ
identity p n = p + 1

abbrev failing : ℕ → ℕ → ℕ
failing p n = 0xffffffff

identity-not_zero : (p n : ℕ) → identity p n ≢ 0
identity-not_zero p n = omega arith

abbrev asked_for : List (ℕ × ℕ)
asked_for = (0x1010, 6) ∷ (0x2000, 0) ∷ (0x3000, 9) ∷ (0x4000, 1) ∷ []

abbrev chunk : ℕ → ℕ → ℕ → Chunk
chunk o p n = record { offset = o; from = p; len = n }

dump_memory-chunks :
    dump_memory identity asked_for 10 ≡ (bytes 10, chunk 0 0x1010 6 ∷ chunk 6 0x3000 4 ∷ [])
unfolding dump_memory dump_loop
dump_memory-chunks = refl

dump_memory-Fills_example : Fills 10 0 (dump_memory identity asked_for 10).1
dump_memory-Fills_example = dump_memory-Fills identity 10 (omega arith) asked_for (omega arith)
