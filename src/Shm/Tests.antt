-- ===== src/Shm/Tests.antt =====
-- The translations on a concrete segment.
use enb_l1_b4860_ppc.Common.{ℕ, ◌+◌, ◌≤◌, ◌≡◌, ◌⊎◌, refl, true, none, arith}
use enb_l1_b4860_ppc.Allocator.Defs.{Area, Mm}
use enb_l1_b4860_ppc.Allocator.Ops
use enb_l1_b4860_ppc.Allocator.Ops.{initialize}
use enb_l1_b4860_ppc.Allocator.State.{Holds}
use enb_l1_b4860_ppc.Allocator.Splice.{live}
use enb_l1_b4860_ppc.Allocator.Runs.{Segment, initialize-Accounts}
use enb_l1_b4860_ppc.Shm.Driver.{granted, free_through, alloc-through_driver}
use enb_l1_b4860_ppc.Shm.{Shm, alloc}
use enb_l1_b4860_ppc.Shm.Laws.{IsAttached}

abbrev segment : Shm
segment = record { init_done = true; vaddr = 0x40000000; paddr = 0x20000000; size = 0xff00000 }

segment-IsAttached : IsAttached segment
segment-IsAttached = record {
  done = refl;
  vaddr_pos = omega arith;
  paddr_pos = omega arith;
  vaddr_word = omega arith;
  paddr_word = omega arith;
}

-- The segment of the library, and the driver's state after its initialization.
abbrev big : Shm
big = record { init_done = true; vaddr = 0x40000000; paddr = 0x100000; size = 0x20000 }

big-IsAttached : IsAttached big
big-IsAttached = record {
  done = refl;
  vaddr_pos = omega arith;
  paddr_pos = omega arith;
  vaddr_word = omega arith;
  paddr_word = omega arith;
}

big_segment : Segment 0x100000 0x20000
big_segment = record {
  psa_pos = omega arith;
  some_size = omega arith;
  address_word = omega arith;
  size_word = omega arith;
}

abbrev driver : Mm
driver = initialize 0x100000 0x20000

abbrev driver_result : ℕ × Mm
driver_result = Ops.memalign (λ a k. true) 0x9000 0 driver

alloc-through_driver_example :
    ((alloc (granted (λ a k. true) driver) big 0x9000 ≡ 0) × (driver_result ≡ (0, driver)))
    ⊎ ((big.vaddr ≤ alloc (granted (λ a k. true) driver) big 0x9000)
        × (alloc (granted (λ a k. true) driver) big 0x9000 + 0x9000 ≤ big.vaddr + big.size)
        × Holds none
            (free_through big (alloc (granted (λ a k. true) driver) big 0x9000) driver_result.1)
        × ((w : Area → ℕ)
            → live w
                (free_through big (alloc (granted (λ a k. true) driver) big 0x9000) driver_result.1)
              ≡ live w driver))
unfolding initialize
alloc-through_driver_example =
    alloc-through_driver (λ a k. true) big-IsAttached
      (initialize-Accounts 0x100000 0x20000 big_segment).holds refl refl 0x9000
