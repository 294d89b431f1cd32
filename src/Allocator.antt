-- ===== src/Allocator.antt =====
-- b4860/libb4860/kernel/fsl_shm.c: the allocator of the shared segment, a kernel driver. An area in
-- memory is one node, which stands in the list of all areas by address, and in one list of free or of
-- allocated ones. The model keeps a node by value in both: a pointer to a node is the area's address,
-- which no two areas share. `kmalloc` says whether the allocation of the k-th new node succeeds that
-- is made for the free area at an address. A call is one step under the spin lock.
pub mod Defs
pub mod Ops
pub mod Tiles
pub mod Weights
pub mod Pairs
pub mod Buckets
pub mod State
pub mod Splice
pub mod Moves
pub mod Inside
pub mod Align
pub mod Search
pub mod Trial
pub mod Alloc
pub mod Neighbours
pub mod Merge
pub mod Coalesce
pub mod Live
pub mod Free
pub mod Runs
pub mod Blocks
pub mod Large
pub mod Exact
pub mod RoundTrip
mod Tests
