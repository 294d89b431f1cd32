-- ===== src/Phy/Tests.antt =====
-- The theorems on the requests of a TTI at concrete ones.
use enb_l1_b4860_ppc.Common.{ℕ, ◌+◌, ◌*◌, ◌/◌, ◌%◌, ◌<◌, ◌≡◌, refl, List, [], ◌∷◌, arith}
use enb_l1_b4860_ppc.Phy.{Clock, DlPdu, TxPdu, Cell, bandwidth_code, pbch_first, pbch_second}
use enb_l1_b4860_ppc.Phy.Bch.{pbch-fields}

abbrev pub clock : Clock
clock = record {
  tti_tx = 0;
  frame_tx = 0;
  sf_tx = 0;
  tti_rx = 0;
  frame_rx = 0;
  sf_rx = 0;
  tti_sched_ul = 0;
  frame_sched_ul = 0;
  sf_sched_ul = 0;
  abs_tti_tx = 0;
  abs_tti_rx = 0;
}

abbrev pub pdu : ℕ → DlPdu
pdu type = record { pdu_type = type; pdu_index = 0; length = 100; content = 1 }

abbrev pub tx : ℕ → TxPdu
tx n = record { pdu_index = 0; pdu_length = 100; content = n }

-- Two DLSCH PDUs, and one of another type between them.
abbrev pub stimulus : List (DlPdu × TxPdu)
stimulus = (pdu 3, tx 1) ∷ (pdu 1, tx 2) ∷ (pdu 3, tx 3) ∷ []

abbrev pub cell : Cell
cell = record { dl_channel_bandwidth = 50; phich_duration = 1; phich_resource = 2 }

pbch-fields_example :
    (pbch_first cell 1000 / 32 ≡ bandwidth_code 50)
    × (pbch_first cell 1000 / 16 % 2 ≡ 1)
    × (pbch_first cell 1000 / 4 % 4 ≡ 2)
    × ((pbch_first cell 1000 % 4) * 64 + pbch_second 1000 / 4 ≡ 1000 / 4)
    × (pbch_first cell 1000 < 256)
pbch-fields_example =
    pbch-fields cell 1000 (record { duration = omega arith; resource = omega arith }) (omega arith)

-- 100 resource blocks get the code of 75.
bandwidth_code-100 : bandwidth_code 100 ≡ 4
unfolding bandwidth_code
bandwidth_code-100 = refl
