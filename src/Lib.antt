-- ===== src/Lib.antt =====
-- A model of the message passing of this repository, a FAPI library for the layer 1 of an LTE base
-- station on the B4860 with its library for the communication between PowerPC and DSP.
--
-- Parts and files:
-- * The blocking queue between threads, lib/core/block_queue.c, is in BlockQueue. A function of C is
--   a function of the model without the prefix block_queue_. The mutex makes each of them one step on
--   the record BlockQueue; a call that would wait on a condition gives none, and it is made again
--   after the step of another thread. `clear_low` runs the loop of power_of_two_round_up on fuel 32,
--   enough for a 32-bit int, where every round clears a bit.
-- * The ring of a channel in the shared control area with the macros of
--   b4860/libb4860/kernel/fsl_heterogeneous_ipc.h is in Channel; Channel/Ring has its invariant.
-- * The transfers of b4860/libb4860/ipc/lib/fsl_ipc_channel.c are in Ipc, with the names of the
--   functions less fsl_ipc_, on a record of the process's state, the channels and the memory. They
--   use the ring of Channel only through its macros. Setting channels up, resetting them and laying
--   them out is in Ipc/Configure, which writes the fields that the transfers read.
--   Transmit requests are in Ipc/TxRequest, on top of the list of DMA descriptors in Dma, from
--   b4860/libb4860/ipc/lib/fsl_user_dma.c; the engine is described in Dma/Chain, which follows the
--   links on fuel 144, the length of the array.
-- * The same accesses one by one, as the two sides make them at the same time, are the steps of
--   Channel/Steps; Channel/Interleave relates their interleavings to a FIFO. An access to one word
--   is taken as atomic and seen in program order.
-- * The segment of shared memory, b4860/libb4860/fsl_shm/lib/lg_shm.c, is in Shm, and the memory
--   manager on top of it, b4860/libb4860/ipc/lib/fsl_usmmgr.c, in Usmmgr. Its `usmmgr_p2v` is the
--   function that applications pass to the transfers as `p2v`.
-- * The kernel's allocator of the shared segment, b4860/libb4860/kernel/fsl_shm.c, is in Allocator,
--   with the names of the functions less their underscores; Allocator/Runs has the sequences of calls
--   from the initialization on, and Shm/Driver puts the library of the segment on top of it. What
--   kmalloc does is a parameter of each call.
-- * The adaptation of the FAPI messages, b4860/fapi_b4860.c, is in Fapi on top of Ipc and BlockQueue,
--   with the names of the functions less fapi_b4860_ and fapi_. Fapi/Messages has the messages of
--   fapi_interface.h as words at offsets, with the sizes of the packed structures and pointers of 32
--   bits; Fapi/TxData packs the data of a transmit request, and Fapi/Requests has the requests of P5
--   and P7. The thread of the dispatcher is in Fapi/Dispatch, as a round that takes a message from the
--   channel and the call that it then tries until the queue takes it; Fapi/Dispatch/Routes says
--   by a table for which queue a message is, and Fapi/Dispatch/System puts L2, which takes messages
--   from the queues, beside the thread. Fapi/Start has the draining of a channel, where
--   one unit of fuel more than the ring has descriptors is enough, and the 32 polls for the DSP.
-- * The encoding of a TTI in l2_fapi_generator/phy/phy_common.c is in Phy, and the rounds of the thread
--   of l2_fapi_generator/phy/phy.c, from the indication of a subframe on, in Phy/Round.
-- * lib/core/time.c, which the queue's timeouts use, is in Time.
-- * Common has the arithmetic of 32-bit words, `&` and `|`, and windows of a ring.
--
-- Words of 32 bits are natural numbers with the wrap written out. What the library calls from
-- outside is a parameter: `lock` is the outcome of the semaphore of a channel, `p2v` the callback
-- that maps addresses, and the outcomes of calloc, of ioctl, of mmap and of the search for a free
-- signal are arguments.
--
-- The lists of descriptors and of PDUs describe the code as long as they have no more entries than
-- their arrays.
--
-- Not modelled: opening devices and mapping areas, the other kernel drivers and the dispatch of
-- ioctls, DSP boot, the sequence of the start-up with the configuration that it writes for the DSP,
-- the CPRI Ethernet link behind its message, the generator's connection to L1, and the copy of the
-- asn1c runtime in asn1. Logging and debug output have no state.
pub mod Common
pub mod BlockQueue
pub mod Channel
pub mod Ipc
pub mod Shm
pub mod Usmmgr
pub mod Time
pub mod Allocator
pub mod Dma
pub mod Fapi
pub mod Phy
