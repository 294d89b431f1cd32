-- ===== src/Ipc/Configure/Laws.antt =====
-- What configuring, resetting and laying out leave behind.
use enb_l1_b4860_ppc.Common.{
  ℕ, zero, suc, ◌+◌, ◌*◌, ◌%◌, ◌≤◌, ◌<◌, ◌≡◌, ◌≢◌, refl, ap, ◌∙◌, Bool, true, List, [], ◌∷◌, arith,
  length, get_or, get_or-set_self, word_mod, add32, mod-eq_of_lt,
}
use enb_l1_b4860_ppc.Channel.{Bd, no_bd, ChannelType, Channel, initialized}
use enb_l1_b4860_ppc.Channel.Ring.{IsRing, pending}
use enb_l1_b4860_ppc.Ipc.{no_channel, success, Ipc, channel_at, put_channel}
use enb_l1_b4860_ppc.Ipc.Configure.{attach_msg_ring, shape, attach, configure_channel}

length-attach : (d a s : ℕ) (bds : List Bd) → length (attach_msg_ring d a s bds) ≡ length bds
unfolding attach_msg_ring
length-attach zero a s bds = refl
length-attach (suc d) a s [] = refl
length-attach (suc d) a s (bd ∷ bds) = ap suc (length-attach d (add32 a s) s bds)

-- The buffers of a message ring follow one another: descriptor `i` gets the address
-- `addr + i * size`, modulo 2 ^ 32, and keeps its length.
pub attach_msg_ring-eq :
    (depth i addr size : ℕ) (bds : List Bd)
    → i < depth
    → i < length bds
    → addr < word_mod
    → get_or (attach_msg_ring depth addr size bds) i no_bd
      ≡ record (get_or bds i no_bd) { msg_ptr = (addr + i * size) % word_mod }
unfolding attach_msg_ring
attach_msg_ring-eq zero i addr size bds h k w = absurd (omega arith)
attach_msg_ring-eq (suc depth) i addr size [] h k w = absurd (omega arith)
attach_msg_ring-eq (suc depth) zero addr size (bd ∷ bds) h k w = ground arith
attach_msg_ring-eq (suc depth) (suc i) addr size (bd ∷ bds) h k w =
    attach_msg_ring-eq depth i (add32 addr size) size bds (omega arith) (omega arith) (omega arith)
    ∙ ap (λ (t : ℕ). record (get_or bds i no_bd) { msg_ptr = t }) (omega arith)

-- A channel as its consumer leaves it.
abbrev opened : ℕ → ChannelType → ℕ → ℕ → Channel → Channel
opened depth type addr size ch = record (shape depth type addr size ch) {
  consumer_initialized = initialized;
}

abbrev configured : ℕ → ℕ → ChannelType → ℕ → ℕ → Ipc → Ipc
configured id depth type addr size ipc =
    attach (put_channel ipc id (opened depth type addr size (channel_at ipc id)))
      (record { cbfunc = 0; signal = 0; channel_id = id })

module _ (lock : ℕ → Bool) (id depth : ℕ) (type : ChannelType) (addr size : ℕ) (ipc : Ipc) where
  configured-channel :
      id < length ipc.channels
      → channel_at (configured id depth type addr size ipc) id
        ≡ opened depth type addr size (channel_at ipc id)
  unfolding channel_at put_channel
  configured-channel h =
      get_or-set_self ipc.channels id (opened depth type addr size (channel_at ipc id)) no_channel h

  configure_channel-eq :
      lock id ≡ true
      → (channel_at ipc id).consumer_initialized ≢ initialized
      → (channel_at ipc id).bd_ring_size ≤ ipc.max_depth
      → configure_channel lock id depth type addr size true ipc
        ≡ (success, configured id depth type addr size ipc)
  unfolding configure_channel
  configure_channel-eq free closed fits = ground arith

  -- The code compares the limit with the depth that the channel had before, so a channel that was
  -- not opened and had no ring is configured with any depth, above the limit too.
  pub configure_channel-any_depth :
      lock id ≡ true
      → id < length ipc.channels
      → (channel_at ipc id).consumer_initialized ≢ initialized
      → (channel_at ipc id).bd_ring_size ≡ 0
      → ipc.max_depth < depth
      → (ipc' : Ipc) × (configure_channel lock id depth type addr size true ipc ≡ (success, ipc'))
        × (ipc.max_depth < (channel_at ipc' id).bd_ring_size)
  unfolding shape
  configure_channel-any_depth free h closed none_yet above = (
    configured id depth type addr size ipc,
    configure_channel-eq free closed (omega arith),
    rw (configured-channel h) (ground arith),
  )

  -- If the channel is one of the array and its semaphore is free, its consumer has not opened it, its
  -- ring is not above the maximal depth, its counters are 0, calloc succeeds, and the depth is positive,
  -- below 2 ^ 32 and not above the number of descriptors that the channel has, then
  -- fsl_ipc_configure_channel succeeds, and the channel is a valid and empty ring that its consumer has
  -- opened.
  pub configure_channel-opens :
      lock id ≡ true
      → id < length ipc.channels
      → (channel_at ipc id).consumer_initialized ≢ initialized
      → (channel_at ipc id).bd_ring_size ≤ ipc.max_depth
      → (channel_at ipc id).producer_num ≡ 0
      → (channel_at ipc id).consumer_num ≡ 0
      → (channel_at ipc id).local_producer_num ≡ 0
      → (channel_at ipc id).local_consumer_num ≡ 0
      → 0 < depth
      → depth < word_mod
      → depth ≤ length (channel_at ipc id).bds
      → (ipc' : Ipc) × (configure_channel lock id depth type addr size true ipc ≡ (success, ipc'))
        × IsRing (channel_at ipc' id)
        × (pending (channel_at ipc' id) ≡ 0)
        × ((channel_at ipc' id).consumer_initialized ≡ initialized)
  unfolding shape
  configure_channel-opens free h closed fits p c lp lc pos word stored = (
    configured id depth type addr size ipc,
    configure_channel-eq free closed fits,
    rw (configured-channel h) (
        ground (
          arith,
          length-attach depth addr size (channel_at ipc id).bds,
          mod-eq_of_lt {n = 0} {m = depth},
        )),
    rw (configured-channel h) (ground arith),
    rw (configured-channel h) (ground arith),
  )
