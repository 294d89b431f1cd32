-- ===== src/Ipc/Configure/Tests.antt =====
-- The theorems on configuring, resetting and laying out at inputs that meet their hypotheses.
use enb_l1_b4860_ppc.Common.{ℕ, ◌+◌, ◌*◌, ◌≤◌, ◌≡◌, refl, Bool, true, List, [], ◌∷◌, arith, get_or}
use enb_l1_b4860_ppc.Channel.{Bd, no_bd, Channel, message_ch, initialized}
use enb_l1_b4860_ppc.Channel.Ring.{IsRing, pending}
use enb_l1_b4860_ppc.Ipc.{success, Ipc, no_channel, channel_at}
use enb_l1_b4860_ppc.Ipc.Configure.{configure_channel, b4_ipc_init, bd_size}
use enb_l1_b4860_ppc.Ipc.Configure.Laws.{configure_channel-opens}
use enb_l1_b4860_ppc.Ipc.Configure.Reset.{b4_ipc_init-disjoint}

abbrev bds : List Bd
bds = no_bd ∷ no_bd ∷ record no_bd { msg_len = 9 } ∷ []

-- A channel that the initialisation left closed, with storage for three descriptors.
abbrev shut : Channel
shut = record no_channel { id = 1; bds = bds }

abbrev area : Ipc
area = record {
  channels = no_channel ∷ shut ∷ [];
  us_channels = [];
  max_depth = 2;
  max_channels = 2;
  dsp_ccsr_vaddr = 0;
  memory = λ a. a;
  registers = [];
}

abbrev free : ℕ → Bool
free _ = true

abbrev mapped : ℕ → ℕ
mapped p = p

configure_channel-opens_example :
    (ipc' : Ipc) × (configure_channel free 1 2 message_ch 4096 64 true area ≡ (success, ipc'))
    × IsRing (channel_at ipc' 1)
    × (pending (channel_at ipc' 1) ≡ 0)
    × ((channel_at ipc' 1).consumer_initialized ≡ initialized)
unfolding channel_at
configure_channel-opens_example =
    configure_channel-opens free 1 2 message_ch 4096 64 area refl (omega arith) (omega arith)
      (omega arith) refl refl refl refl (omega arith) (omega arith) (omega arith)

b4_ipc_init-disjoint_example :
    (get_or
        (b4_ipc_init (λ _. bds) 4 0x1000 (2 + 3 * 0x10000) (shut ∷ shut ∷ []))
        0
        no_channel).bd_base
      + bd_size * 3
    ≤ (get_or
        (b4_ipc_init (λ _. bds) 4 0x1000 (2 + 3 * 0x10000) (shut ∷ shut ∷ []))
        1
        no_channel).bd_base
b4_ipc_init-disjoint_example =
    b4_ipc_init-disjoint (λ _. bds) 4 0x1000 3 2 (shut ∷ shut ∷ []) (omega arith) (omega arith)
      (omega arith) (omega arith) 0 1 (omega arith) (omega arith) (omega arith) (omega arith)
