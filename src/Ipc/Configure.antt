-- ===== src/Ipc/Configure.antt =====
-- fsl_ipc_channel.c: setting channels up for their consumer, resetting them, and laying out the
-- array of channels. `calloc_ok` says whether calloc succeeds; for the variant that registers a
-- signal, `free_signal` is what `ipc_get_free_rt_signal` finds (0 if none) and `ioctl_ok` whether
-- the driver accepts it.
pub mod Laws
pub mod Reset
mod Tests
use enb_l1_b4860_ppc.Common.{
  ℕ, zero, suc, ◌+◌, ◌*◌, ◌/◌, ◌%◌, Bool, true, false, not, ◌&&◌, ◌||◌, List, [], ◌∷◌, ◌++◌, ◌==◌,
  if◌then◌else◌, leb, ltb, add32, word_mod,
}
use enb_l1_b4860_ppc.Channel.{
  Bd, Indication, no_int, pa_mpic, ChannelType, message_ch, pointer_ch, Channel, initialized,
}
use enb_l1_b4860_ppc.Ipc.{
  Code, success, minus_one, invalid_depth, calloc_failed, UsChannel, Ipc, channel_at, put_channel,
}

-- The loop of `ipc_channel_attach_msg_ring` over the descriptors, `depth` of them.
unfoldable pub attach_msg_ring : ℕ → ℕ → ℕ → List Bd → List Bd
attach_msg_ring zero addr size bds = bds
attach_msg_ring (suc depth) addr size [] = []
attach_msg_ring (suc depth) addr size (bd ∷ bds) =
    record bd { msg_ptr = addr } ∷ attach_msg_ring depth (add32 addr size) size bds

-- The assignments that both functions make on a channel that its consumer has not opened yet.
unfoldable pub shape : ℕ → ChannelType → ℕ → ℕ → Channel → Channel
unfolding attach_msg_ring
shape depth type addr size ch = elim type [
  | message_ch ↦ record ch {
    bd_ring_size = depth;
    ch_type = message_ch;
    bds = attach_msg_ring depth addr size ch.bds;
    max_msg_size = size;
    ipc_ind = no_int;
  }
  | pointer_ch ↦ record ch { bd_ring_size = depth; ch_type = pointer_ch; ipc_ind = no_int }
]

-- The part up to calloc: `none` of the two codes is an error. The depth that is compared is the
-- one that the channel had before.
unfoldable pub prepare : ℕ → ChannelType → ℕ → ℕ → ℕ → Channel → Code × Channel
unfolding shape
prepare depth type addr size max_depth ch =
    if ch.consumer_initialized == initialized
    then (success, ch)
    else if leb ch.bd_ring_size max_depth
    then (success, shape depth type addr size ch)
    else (invalid_depth, ch)

-- `ipc_priv->channels[ipc_priv->num_channels++] = uch`; that the array has 64 places is not tested.
abbrev pub attach : Ipc → UsChannel → Ipc
attach ipc uch = record ipc { us_channels = ipc.us_channels ++ (uch ∷ []) }

module _ (lock : ℕ → Bool) where
  -- `fsl_ipc_configure_channel`
  unfoldable pub configure_channel : ℕ → ℕ → ChannelType → ℕ → ℕ → Bool → Ipc → Code × Ipc
  unfolding prepare channel_at put_channel
  configure_channel id depth type addr size calloc_ok ipc =
      let (code, ch) = prepare depth type addr size ipc.max_depth (channel_at ipc id) in
      if not (lock id) then (minus_one, ipc) else elim code [
        | success ↦ if not calloc_ok then (calloc_failed, put_channel ipc id ch) else (
          success,
          attach (put_channel ipc id (record ch { consumer_initialized = initialized }))
              (record { cbfunc = 0; signal = 0; channel_id = id }),
        )
        | err ↦ (err, ipc)
      ]

  -- `fsl_ipc_configure_channel_int`. Where no signal is free, or the driver refuses, the function
  -- goes to its end with `ret` still ERR_SUCCESS.
  unfoldable pub configure_channel_int :
      ℕ → ℕ → ChannelType → ℕ → ℕ → ℕ → Bool → ℕ → Bool → Ipc → Code × Ipc
  unfolding prepare channel_at put_channel
  configure_channel_int id depth type addr size cb calloc_ok free_signal ioctl_ok ipc =
      let (code, ch) = prepare depth type addr size ipc.max_depth (channel_at ipc id) in
      let signal = if cb == 0 then 0 else free_signal in
      let unset : UsChannel = record { cbfunc = 0; signal = 0; channel_id = id } in
      if not (lock id) then (minus_one, ipc) else elim code [
        | success ↦
            if not calloc_ok
            then (calloc_failed, put_channel ipc id ch)
            else if not (cb == 0) && free_signal == 0
            then (success, attach (put_channel ipc id ch) unset)
            else if not ioctl_ok
            then (success, attach (put_channel ipc id ch) unset)
            else (
              success,
              attach
                  (put_channel ipc id
                    (record ch { ipc_ind = pa_mpic; consumer_initialized = initialized }))
                  (record { cbfunc = cb; signal = signal; channel_id = id }),
            )
        | err ↦ (err, ipc)
      ]

-- One round of the loop of `fsl_ipc_reinit`.
unfoldable pub reinit_channel : Channel → Channel
reinit_channel ch =
    let zeroth = ch.id == 0 in
    record ch {
      producer_initialized = 0;
      consumer_initialized = if zeroth then ch.consumer_initialized else 0;
      consumer_num = 0;
      producer_num = 0;
      bd_ring_size = if zeroth then ch.bd_ring_size else 0;
      max_msg_size = 0;
      ch_type = if zeroth then pointer_ch else message_ch;
      ipc_ind = no_int;
      ind_offset = 0;
      ind_value = 0;
      local_producer_num = 0;
      local_consumer_num = 0;
    }

-- The loop over the first `n` channels of the array.
unfoldable pub reinit_channels : ℕ → List Channel → List Channel
unfolding reinit_channel
reinit_channels zero chs = chs
reinit_channels (suc n) [] = []
reinit_channels (suc n) (ch ∷ chs) = reinit_channel ch ∷ reinit_channels n chs

-- MAX_IPC_CHANNELS and DEFAULT_CHANNEL_DEPTH
abbrev pub max_ipc_channels : ℕ
max_ipc_channels = 64

abbrev pub default_channel_depth : ℕ
default_channel_depth = 16

-- `fsl_ipc_us_reinit`
unfoldable pub us_reinit : Ipc → Ipc
us_reinit ipc = record ipc { us_channels = [] }

-- `fsl_ipc_reinit`, less the two words of the control structure that it clears.
unfoldable pub reinit : Ipc → Ipc
unfolding reinit_channels us_reinit
reinit ipc = us_reinit (record ipc { channels = reinit_channels max_ipc_channels ipc.channels })

-- `open_channel_zero`
unfoldable pub open_channel_zero : ℕ → List Channel → List Channel
open_channel_zero depth [] = []
open_channel_zero depth (ch ∷ chs) =
    record ch {
      consumer_initialized = initialized;
      id = 0;
      bd_ring_size = depth;
      ch_type = pointer_ch;
    }
    ∷ chs

-- sizeof(os_het_ipc_bd_t) and sizeof(os_het_ipc_channel_t) of the B4860 variant
abbrev pub bd_size : ℕ
bd_size = 16

abbrev pub channel_size : ℕ
channel_size = 88

-- HET_START_VALID_VALUE and HET_END_VALID_VALUE
abbrev pub start_valid : ℕ
start_valid = 0x12345678

abbrev pub end_valid : ℕ
end_valid = 0x87654321

module _ (bds_at : ℕ → List Bd) where
  -- The body of the loop of `fsl_B4_ipc_init`; `bds_at` gives the descriptors at an address.
  unfoldable pub init_channel : ℕ → ℕ → Channel → Channel
  init_channel i addr ch =
      let zeroth = i == 0 in
      record ch {
        start_validation_value = start_valid;
        end_validation_value = end_valid;
        id = i;
        bd_base = addr;
        bds = bds_at addr;
        producer_initialized = 0;
        consumer_initialized = if zeroth then ch.consumer_initialized else 0;
        consumer_num = 0;
        producer_num = 0;
        bd_ring_size = if zeroth then ch.bd_ring_size else 0;
        max_msg_size = 0;
        ch_type = if zeroth then pointer_ch else message_ch;
        ipc_ind = no_int;
        local_producer_num = 0;
        local_consumer_num = 0;
      }

  -- The loop, for the `n` channels from index `i` on.
  unfoldable pub init_channels : ℕ → ℕ → ℕ → ℕ → List Channel → List Channel
  unfolding init_channel
  init_channels zero i depth addr chs = chs
  init_channels (suc n) i depth addr [] = []
  init_channels (suc n) i depth addr (ch ∷ chs) =
      init_channel i addr ch ∷ init_channels n (i + 1) depth (add32 addr (bd_size * depth)) chs

  -- `fsl_B4_ipc_init` once it has the parameters of the module: `regions` is the number of IPC
  -- regions, and with DEFAULT_RAT_INST of them the function leaves the channels alone; `muxed` holds
  -- the depth in its high half and the number of channels in its low half.
  unfoldable pub b4_ipc_init : ℕ → ℕ → ℕ → List Channel → List Channel
  unfolding init_channels open_channel_zero
  b4_ipc_init regions ch_start muxed chs =
      let n = if muxed % 0x10000 == 0 then max_ipc_channels else muxed % 0x10000 in
      let d = if muxed / 0x10000 == 0 then default_channel_depth else muxed / 0x10000 in
      if regions == 2
      then chs
      else open_channel_zero d (init_channels n 0 d (add32 ch_start (channel_size * n)) chs)
