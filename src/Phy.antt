-- ===== src/Phy.antt =====
-- l2_fapi_generator/phy/phy_common.c: how the generator of L2 messages keeps the time of the air
-- interface and fills the requests of a TTI. Of an array with its count the model has the entries
-- that count. Of a PDU it has the fields that these functions read or write, and `content` for the
-- others.
pub mod Time
pub mod Bch
pub mod Pdsch
pub mod Round
mod Tests
use Prim.Native.Nat.{bit_or}
use enb_l1_b4860_ppc.Common.{
  ℕ, ◌+◌, ◌-◌, ◌*◌, ◌/◌, ◌%◌, ◌^◌, Bool, List, [], ◌∷◌, ◌++◌, ◌==◌, if◌then◌else◌, leb, not, ◌&&◌,
  bit_and, word_mod, add32,
}

-- The time fields of `enb_4g_phy_proc_t`; the two abs_tti have 64 bits, the others 32.
pub record Clock : Type 0 where
  pub tti_tx : ℕ
  pub frame_tx : ℕ
  pub sf_tx : ℕ
  pub tti_rx : ℕ
  pub frame_rx : ℕ
  pub sf_rx : ℕ
  pub tti_sched_ul : ℕ
  pub frame_sched_ul : ℕ
  pub sf_sched_ul : ℕ
  pub abs_tti_tx : ℕ
  pub abs_tti_rx : ℕ

-- One of the helper TTIs: set if it is not at `tti`, else advanced.
unfoldable pub next_abs : ℕ → ℕ → ℕ
next_abs abs tti = if abs % 10240 == tti then (abs + 1) % 2 ^ 64 else tti

-- `phy_common_set_time`
unfoldable pub set_time : Clock → ℕ → ℕ → Clock
unfolding next_abs
set_time c frame subframe =
    let tx = (frame * 10 + subframe) % word_mod in
    let rx = if leb 4 tx then tx - 4 else (10240 + tx - 4) % word_mod in
    let ul = add32 tx 4 % 10240 in
    record {
      tti_tx = tx;
      frame_tx = frame;
      sf_tx = subframe;
      tti_rx = rx;
      frame_rx = rx / 10;
      sf_rx = rx % 10;
      tti_sched_ul = ul;
      frame_sched_ul = ul / 10;
      sf_sched_ul = ul % 10;
      abs_tti_tx = next_abs c.abs_tti_tx tx;
      abs_tti_rx = next_abs c.abs_tti_rx rx;
    }

-- FAPI_DL_CONFIG_DCI_DL_PDU_TYPE, FAPI_DL_CONFIG_BCH_PDU_TYPE, FAPI_DL_CONFIG_DLSCH_PDU_TYPE
abbrev pub dci_dl_pdu_type : ℕ
dci_dl_pdu_type = 0

abbrev pub bch_pdu_type : ℕ
bch_pdu_type = 1

abbrev pub dlsch_pdu_type : ℕ
dlsch_pdu_type = 3

-- `fapi_dl_config_request_pdu_t`; `pdu_index` and `length` are those of its BCH or DLSCH part.
pub record DlPdu : Type 0 where
  pub pdu_type : ℕ
  pub pdu_index : ℕ
  pub length : ℕ
  pub content : ℕ

-- `fapi_tx_request_pdu_t`
pub record TxPdu : Type 0 where
  pub pdu_index : ℕ
  pub pdu_length : ℕ
  pub content : ℕ

-- The requests of a TTI, `scheduler_dl_config_request_t`, with `tx_pdu_index` of the process. Each list
-- has at most the 64 entries of its array: the code does not compare, and one more, which would be
-- written over the next array, is left out.
pub record Requests : Type 0 where
  pub dl_config_dci_list : List DlPdu
  pub dl_config_pdu_list : List DlPdu
  pub tx_request_pdu_list : List TxPdu
  pub tx_pdu_index : ℕ

-- What a stimulus gives: `l2_fapi_generator_stim_item_t`, its PDUs with their transmit requests, and
-- of the PDUs of the uplink, which are only copied, their contents.
pub record StimItem : Type 0 where
  pub tti : ℕ
  pub number_pdcch_ofdm_symbols : ℕ
  pub dcis : List DlPdu
  pub pdus : List (DlPdu × TxPdu)
  pub ul_pdus : List ℕ

-- The configuration of the cell that the BCH tells of.
pub record Cell : Type 0 where
  pub dl_channel_bandwidth : ℕ
  pub phich_duration : ℕ
  pub phich_resource : ℕ

-- The code of a bandwidth in the first byte.
unfoldable pub bandwidth_code : ℕ → ℕ
bandwidth_code n =
    if n == 6
    then 0
    else if n == 15
    then 1
    else if n == 25
    then 2
    else if n == 50
    then 3
    else if n == 100
    then 4
    else 2

-- The first two bytes of `pbch_pdu`; the third is 0.
unfoldable pub pbch_first : Cell → ℕ → ℕ
unfolding bandwidth_code
pbch_first cell frame =
    bit_or
      (bit_or
        (bit_or (bandwidth_code cell.dl_channel_bandwidth * 32)
          (bit_and (cell.phich_duration * 16) 0x10))
        (cell.phich_resource * 4 % 256))
      (bit_and (frame / 256) 3)

unfoldable pub pbch_second : ℕ → ℕ
pbch_second frame = bit_and frame 0xfc

-- The PDU for the BCH and its transmit request; `content` of the latter says where its one member of
-- three bytes is.
abbrev pub bch_pdu : ℕ → DlPdu
bch_pdu i = record { pdu_type = bch_pdu_type; pdu_index = i; length = 3; content = 0 }

abbrev pub bch_tx : ℕ → ℕ → TxPdu
bch_tx i pbch_at = record { pdu_index = i; pdu_length = 3; content = pbch_at }

-- `phy_common_encode_bch`: the bytes in `pbch_pdu`, at `pbch_at`, and the requests.
unfoldable pub encode_bch : Cell → ℕ → Clock → List ℕ → Requests → List ℕ × Requests
unfolding pbch_first pbch_second
encode_bch cell pbch_at c bytes r =
    if not (c.sf_tx == 0)
    then (bytes, r)
    else if bit_and c.frame_tx 3 == 0
    then (
      pbch_first cell c.frame_tx ∷ pbch_second c.frame_tx ∷ 0 ∷ [],
      record r {
        dl_config_pdu_list = r.dl_config_pdu_list ++ (bch_pdu r.tx_pdu_index ∷ []);
        tx_request_pdu_list = r.tx_request_pdu_list ++ (bch_tx r.tx_pdu_index pbch_at ∷ []);
        tx_pdu_index = add32 r.tx_pdu_index 1;
      },
    )
    else (bytes, r)

-- `phy_common_encode_pdcch_dl`
unfoldable pub encode_pdcch_dl : List DlPdu → Requests → Requests
encode_pdcch_dl [] r = r
encode_pdcch_dl (p ∷ ps) r = encode_pdcch_dl ps (
    if p.pdu_type == dci_dl_pdu_type
    then record r { dl_config_dci_list = r.dl_config_dci_list ++ (p ∷ []) }
    else r)

-- One DLSCH PDU and its transmit request, with the next index.
abbrev pub add_dlsch : DlPdu → TxPdu → Requests → Requests
add_dlsch p t r = record r {
  dl_config_pdu_list = r.dl_config_pdu_list ++ (record p { pdu_index = r.tx_pdu_index } ∷ []);
  tx_request_pdu_list = r.tx_request_pdu_list ++ (record t { pdu_index = r.tx_pdu_index } ∷ []);
  tx_pdu_index = add32 r.tx_pdu_index 1;
}

-- `phy_common_encode_pdsch`
unfoldable pub encode_pdsch : List (DlPdu × TxPdu) → Requests → Requests
encode_pdsch [] r = r
encode_pdsch ((p, t) ∷ ps) r =
    encode_pdsch ps (if p.pdu_type == dlsch_pdu_type then add_dlsch p t r else r)
