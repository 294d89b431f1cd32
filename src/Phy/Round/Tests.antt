-- ===== src/Phy/Round/Tests.antt =====
-- The rounds of the generator's thread at a concrete stimulus of three items.
use enb_l1_b4860_ppc.Common.{◌≤◌, ℕ, ◌≡◌, refl, [], ◌∷◌, arith, true}
use enb_l1_b4860_ppc.Phy.{StimItem, set_time, encode_bch, encode_pdsch, encode_pdcch_dl}
use enb_l1_b4860_ppc.Phy.Tests.{clock, stimulus, cell}
use enb_l1_b4860_ppc.Phy.Round.{Generator, round}
use enb_l1_b4860_ppc.Phy.Round.Step.{IsPeriodic, IsInStep, run_rounds, run_rounds-IsInStep}
use enb_l1_b4860_ppc.Phy.Round.Indices.{upto, dl_indices, tx_indices, round-indices}

abbrev three_items : ℕ → StimItem
three_items i = record {
  tti = i;
  number_pdcch_ofdm_symbols = 2;
  dcis = [];
  pdus = stimulus;
  ul_pdus = i ∷ [];
}

-- At TTI 38 and at the item 0, which is that of TTI 39.
abbrev generator : Generator
generator = record {
  abs_tti = 38;
  clock = clock;
  pbch_pdu = 0 ∷ 0 ∷ 0 ∷ [];
  pbch_at = 0x1000;
  cell = cell;
  auto_mib = true;
  stim_ptr = 0;
  stim_len = 3;
  stim_list = three_items;
  symbols = λ i. 1;
  srs = λ i. 0;
}

three_items-IsPeriodic : IsPeriodic (record generator { stim_ptr = 2 })
three_items-IsPeriodic = record { some_items = omega arith; at_index = λ i h. refl }

-- The item 2 is not that of TTI 39; three rounds later the generator is in step.
run_rounds-IsInStep_example : IsInStep (run_rounds 3 (record generator { stim_ptr = 2 }))
run_rounds-IsInStep_example =
    run_rounds-IsInStep 3 (record generator { stim_ptr = 2 }) three_items-IsPeriodic (omega arith)
      (omega arith) (omega arith)

-- Two DLSCH PDUs in TTI 39.
round-indices_example :
    (n : ℕ) × (n ≤ 64)
    × (dl_indices (round 0 3 9 generator).1 ≡ upto n)
    × (tx_indices (round 0 3 9 generator).1 ≡ upto n)
round-indices_example = round-indices 0 3 9 generator (omega arith) (omega arith) (omega arith)

-- With the BCH, in TTI 40, three.
round_two_and_bch :
    dl_indices (round 0 4 0 (record generator { abs_tti = 39; stim_ptr = 1 })).1 ≡ 0 ∷ 1 ∷ 2 ∷ []
unfolding dl_indices round encode_bch set_time encode_pdsch encode_pdcch_dl
round_two_and_bch = refl

round_bch_data :
    tx_indices (round 0 4 0 (record generator { abs_tti = 39; stim_ptr = 1 })).1 ≡ 0 ∷ 1 ∷ 2 ∷ []
unfolding tx_indices round encode_bch set_time encode_pdsch encode_pdcch_dl
round_bch_data = refl
