-- ===== src/Ipc/Configure/Reset.antt =====
-- Channels that are not open: after a refused registration, after a reset, and after the layout.
use enb_l1_b4860_ppc.Common.{
  ℕ, zero, suc, ◌+◌, ◌*◌, ◌/◌, ◌%◌, ◌≤◌, ◌<◌, ◌≡◌, ◌≢◌, refl, ap, ap₂, ◌∙◌, ◌⊎◌, Bool, true, false,
  List, [], ◌∷◌, none, arith, length, get_or, get_or-set_self, word_mod, add32, mod-eq_of_lt,
}
use native.Mathlib.Nat.{mul-le-mul_right}
use enb_l1_b4860_ppc.Channel.{Bd, ChannelType, message_ch, pointer_ch, Channel, initialized}
use enb_l1_b4860_ppc.Ipc.{
  success, consumer_not_init, producer_not_init, no_channel, Ipc, channel_at, put_channel, send_ptr,
  recv_ptr,
}
use enb_l1_b4860_ppc.Ipc.Configure.{
  shape, attach, configure_channel_int, reinit_channel, reinit_channels, reinit, us_reinit,
  open_channel_zero, max_ipc_channels, init_channel, init_channels, bd_size, channel_size,
  b4_ipc_init,
}

-- The state in which a refused registration leaves the process.
abbrev unregistered : ℕ → ℕ → ChannelType → ℕ → ℕ → Ipc → Ipc
unregistered id depth type addr size ipc =
    attach (put_channel ipc id (shape depth type addr size (channel_at ipc id)))
      (record { cbfunc = 0; signal = 0; channel_id = id })

unregistered-channel :
    (id depth : ℕ) (type : ChannelType) (addr size : ℕ) (ipc : Ipc)
    → id < length ipc.channels
    → channel_at (unregistered id depth type addr size ipc) id
      ≡ shape depth type addr size (channel_at ipc id)
unfolding channel_at put_channel
unregistered-channel id depth type addr size ipc h =
    get_or-set_self ipc.channels id (shape depth type addr size (channel_at ipc id)) no_channel h

shape-consumer :
    (depth : ℕ) (type : ChannelType) (addr size : ℕ) (ch : Channel)
    → (shape depth type addr size ch).consumer_initialized ≡ ch.consumer_initialized
unfolding shape
shape-consumer depth message_ch addr size ch = refl
shape-consumer depth pointer_ch addr size ch = refl

module _ (lock : ℕ → Bool) (p2v : ℕ → ℕ) where
  -- When no signal is free for a callback, or the driver refuses the registration,
  -- `fsl_ipc_configure_channel_int` returns ERR_SUCCESS on a channel that is still closed: every
  -- send on it is refused.
  pub configure_channel_int-unregistered :
      (id depth : ℕ) (type : ChannelType) (addr size cb signal a n : ℕ) (accepted : Bool)
      (ipc : Ipc)
      → lock id ≡ true
      → id < length ipc.channels
      → (channel_at ipc id).consumer_initialized ≢ initialized
      → (channel_at ipc id).bd_ring_size ≤ ipc.max_depth
      → (accepted ≡ false) ⊎ ((cb ≢ 0) × (signal ≡ 0))
      → (ipc' : Ipc) × (configure_channel_int lock id depth type addr size cb true signal accepted
            ipc
          ≡ (success, ipc'))
        × (send_ptr lock p2v id a n ipc' ≡ (consumer_not_init, ipc'))
  unfolding configure_channel_int send_ptr
  configure_channel_int-unregistered id depth type addr size cb signal a n accepted ipc free h
        closed fits why =
      (
        unregistered id depth type addr size ipc,
        ground arith,
        ground (
          arith,
          unregistered-channel id depth type addr size ipc h,
          shape-consumer depth type addr size (channel_at ipc id),
        ),
      )

-- Channel `i` after the loop of `fsl_ipc_reinit`.
reinit_channels-at :
    (n i : ℕ) (chs : List Channel)
    → i < n
    → i < length chs
    → get_or (reinit_channels n chs) i no_channel ≡ reinit_channel (get_or chs i no_channel)
unfolding reinit_channels
reinit_channels-at zero i chs h k = absurd (omega arith)
reinit_channels-at (suc n) i [] h k = absurd (omega arith)
reinit_channels-at (suc n) zero (ch ∷ chs) h k = refl
reinit_channels-at (suc n) (suc i) (ch ∷ chs) h k =
    reinit_channels-at n i chs (omega arith) (omega arith)

reinit-channel :
    (i : ℕ) (ipc : Ipc)
    → i < max_ipc_channels
    → i < length ipc.channels
    → channel_at (reinit ipc) i ≡ reinit_channel (channel_at ipc i)
unfolding reinit channel_at
reinit-channel i ipc h k = reinit_channels-at max_ipc_channels i ipc.channels h k

module _ (lock : ℕ → Bool) (p2v : ℕ → ℕ) where
  -- After `fsl_ipc_reinit` each of the first 64 channels that exists, but the one with identifier 0,
  -- is closed on both sides: a send and a receive are refused and change nothing, and the process has
  -- no channel configured.
  pub reinit-closes :
      (i a n : ℕ) (ipc : Ipc)
      → i < max_ipc_channels
      → i < length ipc.channels
      → i < ipc.max_channels
      → (channel_at ipc i).id ≢ 0
      → (send_ptr lock p2v i a n (reinit ipc) ≡ (consumer_not_init, reinit ipc))
        × (recv_ptr lock p2v i (reinit ipc) ≡ (producer_not_init, none, reinit ipc))
        × ((reinit ipc).us_channels ≡ [])
  unfolding send_ptr recv_ptr reinit_channel reinit us_reinit
  reinit-closes i a n ipc h k m ne =
      (ground (arith, reinit-channel i ipc h k), ground (arith, reinit-channel i ipc h k), refl)

next_area :
    (addr area j : ℕ)
    → addr + suc j * area < word_mod
    → (add32 addr area ≡ addr + area)
      × (addr + area + j * area < word_mod)
      × (addr + area + j * area ≡ addr + suc j * area)
next_area addr area j w =
    (mod-eq_of_lt {n = addr + area} {m = word_mod} (omega arith), omega arith, omega arith)

suc_le : {i j : ℕ} → i < j → i + 1 ≤ j
suc_le h = omega arith

steps-le : (i j area : ℕ) → i < j → i * area + area ≤ j * area
steps-le i j area lt = omega (arith, mul-le-mul_right area (suc_le lt))

module _ (bds_at : ℕ → List Bd) where
  -- Channel `i + j` after the loop of `fsl_B4_ipc_init` from index `i` on.
  init_channels-at :
      (n i j depth addr : ℕ) (chs : List Channel)
      → j < n
      → j < length chs
      → addr + j * (bd_size * depth) < word_mod
      → get_or (init_channels bds_at n i depth addr chs) j no_channel
        ≡ init_channel bds_at (i + j) (addr + j * (bd_size * depth)) (get_or chs j no_channel)
  unfolding init_channels
  init_channels-at zero i j depth addr chs h k w = absurd (omega arith)
  init_channels-at (suc n) i j depth addr [] h k w = absurd (omega arith)
  init_channels-at (suc n) i zero depth addr (ch ∷ chs) h k w =
      let e : i ≡ i + 0 = omega arith in
      let f : addr ≡ addr + 0 * (bd_size * depth) = omega arith in
      ap₂ (λ (x y : ℕ). init_channel bds_at x y ch) e f
  init_channels-at (suc n) i (suc j) depth addr (ch ∷ chs) h k w =
      let (next, bound, total) = next_area addr (bd_size * depth) j w in
      rw next (
        init_channels-at n (i + 1) j depth (addr + bd_size * depth) chs (omega arith) (omega arith)
          bound
        ∙ ap₂ (λ (x y : ℕ). init_channel bds_at x y (get_or chs j no_channel)) (omega arith) total)

  opened-base :
      (d j : ℕ) (chs : List Channel)
      → (get_or (open_channel_zero d chs) j no_channel).bd_base ≡ (get_or chs j no_channel).bd_base
  unfolding open_channel_zero
  opened-base d j [] = refl
  opened-base d zero (ch ∷ chs) = refl
  opened-base d (suc j) (ch ∷ chs) = refl

  module _ (regions ch_start depth n : ℕ) (chs : List Channel) (other : regions ≢ 2)
      (pos : 0 < depth) (some_n : 0 < n) (small : n < 0x10000) where
    b4_ipc_init-eq :
        b4_ipc_init bds_at regions ch_start (n + depth * 0x10000) chs
        ≡ open_channel_zero depth
            (init_channels bds_at n 0 depth (add32 ch_start (channel_size * n)) chs)
    unfolding b4_ipc_init
    b4_ipc_init-eq =
        let low : (n + depth * 0x10000) % 0x10000 ≡ n = omega arith in
        let high : (n + depth * 0x10000) / 0x10000 ≡ depth = omega arith in ground arith

    base :
        (j : ℕ)
        → j < n
        → j < length chs
        → ch_start + channel_size * n + j * (bd_size * depth) < word_mod
        → (get_or
            (b4_ipc_init bds_at regions ch_start (n + depth * 0x10000) chs)
            j
            no_channel).bd_base
          ≡ ch_start + channel_size * n + j * (bd_size * depth)
    unfolding init_channel
    base j h k fits =
        let start : add32 ch_start (channel_size * n) ≡ ch_start + channel_size * n = omega arith in
        rw (b4_ipc_init-eq, start)
          (opened-base depth j (init_channels bds_at n 0 depth (ch_start + channel_size * n) chs)
            ∙ ap (λ (ch : Channel). ch.bd_base)
                (init_channels-at n 0 j depth (ch_start + channel_size * n) chs h k fits))

    -- The areas of descriptors that `fsl_B4_ipc_init` lays out do not overlap: the one of a channel
    -- ends before, or where, the one of any later channel begins. All the areas have to lie below
    -- 2 ^ 32, depth and number of channels are given, and the regions are not the default ones.
    pub b4_ipc_init-disjoint :
        (i j : ℕ)
        → i < j
        → j < n
        → j < length chs
        → ch_start + channel_size * n + j * (bd_size * depth) < word_mod
        → (get_or
              (b4_ipc_init bds_at regions ch_start (n + depth * 0x10000) chs)
              i
              no_channel).bd_base
            + bd_size * depth
          ≤ (get_or
              (b4_ipc_init bds_at regions ch_start (n + depth * 0x10000) chs)
              j
              no_channel).bd_base
    b4_ipc_init-disjoint i j lt k stored fits =
        let le = steps-le i j (bd_size * depth) lt in
        let low = base i (omega arith) (omega arith) (omega arith) in
        let high = base j k stored fits in rw (low, high) (omega arith)
