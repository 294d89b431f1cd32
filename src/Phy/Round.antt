-- ===== src/Phy/Round.antt =====
-- The loop of phy_dispatcher_thread in l2_fapi_generator/phy/phy.c, from an indication of a subframe to
-- the requests of its TTI. The indications of the uplink are only taken from their queues here, and
-- decoded by functions that are empty, so they are left out; so are the hooks that an application may
-- put in place of the weak functions, but for the result of l2_fapi_schedule. The thread clears
-- number_dci0 and number_hi and nothing sets them, so that HI_DCI0.request is never sent.
pub mod Step
pub mod Indices
mod Tests
use enb_l1_b4860_ppc.Common.{
  ℕ, ◌+◌, ◌*◌, ◌%◌, Bool, List, [], ◌∷◌, ◌++◌, ◌==◌, if◌then◌else◌, leb, ltb, word_mod, add32,
  length,
}
use enb_l1_b4860_ppc.Phy.{
  Clock, set_time, TxPdu, Requests, StimItem, Cell, encode_pdcch_dl, encode_pdsch, encode_bch,
}

-- `l2_fapi_generator_t` with what it keeps of the process and of the cell. Of the requests that
-- fapi_scheduler keeps for each subframe, `symbols` and `srs` are the fields that the thread does not
-- clear in each TTI.
pub record Generator : Type 0 where
  pub abs_tti : ℕ
  pub clock : Clock
  pub pbch_pdu : List ℕ
  pub pbch_at : ℕ
  pub cell : Cell
  pub auto_mib : Bool
  pub stim_ptr : ℕ
  pub stim_len : ℕ
  pub stim_list : ℕ → StimItem
  pub symbols : ℕ → ℕ
  pub srs : ℕ → ℕ

-- The requests that the thread sends for a frame and a subframe.
pub data Message : Type 0 where
  dl_config : (frame subframe number_pdcch_ofdm_symbols : ℕ) (r : Requests) → Message
  ul_config : (frame subframe srs_present : ℕ) (pdus : List ℕ) → Message
  tx_request : (frame subframe : ℕ) (pdus : List TxPdu) → Message

-- The counter of TTIs after an indication; it is set anew if its last digit is not the subframe.
unfoldable pub sync_tti : ℕ → ℕ → ℕ → ℕ
sync_tti abs_tti frame subframe =
    let next = add32 abs_tti 1 in
    if next % 10 == subframe then next else (frame * 10 + subframe) % word_mod

unfoldable pub begin_tti : ℕ → ℕ → Generator → Generator
unfolding sync_tti
begin_tti frame subframe g = record g {
  abs_tti = sync_tti g.abs_tti frame subframe;
  clock = set_time g.clock frame subframe;
}

-- The requests after their counts are cleared.
abbrev pub no_requests : Requests
no_requests = record {
  dl_config_dci_list = [];
  dl_config_pdu_list = [];
  tx_request_pdu_list = [];
  tx_pdu_index = 0;
}

-- FAPI_DL_CONFIG_MAX_PDU, the length of each array of PDUs
abbrev pub max_pdus : ℕ
max_pdus = 64

-- The item that the stimulus is at, and whether its TTI has come. A stimulus without items, for which
-- the code divides by 0, is left out: a generator has a `stim_len` that is not 0.
abbrev pub item : Generator → StimItem
item g = g.stim_list g.stim_ptr

unfoldable pub is_due : Generator → Bool
is_due g = (item g).tti == g.abs_tti % g.stim_len

-- `v` at the place of a subframe.
abbrev pub put : ℕ → ℕ → (ℕ → ℕ) → ℕ → ℕ
put subframe v slots i = if i == subframe then v else slots i

-- The item's PDUs in the requests, and the stimulus at its next item.
unfoldable pub stimulate : Generator → Generator × Requests × List ℕ
unfolding is_due
stimulate g =
    if is_due g
    then (
      record g {
        stim_ptr = (if leb g.stim_len (g.stim_ptr + 1) then 0 else g.stim_ptr + 1);
        symbols = put g.clock.sf_tx (item g).number_pdcch_ofdm_symbols g.symbols;
        srs = put g.clock.sf_tx 0 g.srs;
      },
      encode_pdsch (item g).pdus (encode_pdcch_dl (item g).dcis no_requests),
      (item g).ul_pdus,
    )
    else (g, no_requests, [])

-- The BCH in the requests, if the generator is to send it.
unfoldable pub add_bch : Generator → Requests → List ℕ × Requests
add_bch g r =
    if g.auto_mib then encode_bch g.cell g.pbch_at g.clock g.pbch_pdu r else (g.pbch_pdu, r)

-- The requests in the order in which they are sent.
unfoldable pub messages : Generator → Requests → List ℕ → List Message
messages g r ul =
    let frame = g.clock.frame_tx in
    let subframe = g.clock.sf_tx in
    dl_config frame subframe (g.symbols subframe) r
    ∷ ul_config frame subframe (g.srs subframe) ul
    ∷ (if ltb 0 (length r.tx_request_pdu_list)
        then tx_request frame subframe r.tx_request_pdu_list ∷ []
        else [])

-- The TTI's requests, filled and sent.
unfoldable pub send_tti : Generator → Generator × List Message
unfolding stimulate add_bch messages
send_tti g =
    let (g1, r, ul) = stimulate g in
    let (bytes, r1) = add_bch g1 r in (record g1 { pbch_pdu = bytes }, messages g1 r1 ul)

-- One round of the loop with an indication of a subframe; `schedule` is what l2_fapi_schedule
-- returns.
unfoldable pub round : ℕ → ℕ → ℕ → Generator → Generator × List Message
unfolding begin_tti send_tti
round schedule frame subframe g =
    let g1 = begin_tti frame subframe g in if schedule == 0 then send_tti g1 else (g1, [])
