-- ===== src/Fapi/Messages.antt =====
-- fapi_interface.h, fapi_scheduler.h and b4860/fapi_b4860.c: the messages that L2 sends to L1. The
-- sizes and offsets are those of the packed structures with pointers of 32 bits. A function named
-- for a body gives the memory once the request has written its message at `body`.
use Prim.Native.Nat.{bit_or}
use enb_l1_b4860_ppc.Common.{
  ℕ, ◌+◌, ◌*◌, ◌%◌, List, [], ◌∷◌, if◌then◌else◌, ltb, word_mod, add32, sub32,
}
use enb_l1_b4860_ppc.Ipc.{copy}
use enb_l1_b4860_ppc.Ipc.TxRequest.{store32, load32}
use enb_l1_b4860_ppc.Fapi.{ipc_msg_size, length_at}

-- FAPI_CHANNEL_P5_REQ, FAPI_CHANNEL_P7_REQ, FAPI_CHANNEL_CPRI_ETH
abbrev pub channel_p5_req : ℕ
channel_p5_req = 0

abbrev pub channel_p7_req : ℕ
channel_p7_req = 2

abbrev pub channel_cpri_eth : ℕ
channel_cpri_eth = 7

-- The identifiers of the messages, from `fapi_message_id_e`.
abbrev pub config_request_id : ℕ
config_request_id = 2

abbrev pub start_request_id : ℕ
start_request_id = 4

abbrev pub stop_request_id : ℕ
stop_request_id = 5

abbrev pub dl_config_request_id : ℕ
dl_config_request_id = 0x80

abbrev pub ul_config_request_id : ℕ
ul_config_request_id = 0x81

abbrev pub hi_dci0_request_id : ℕ
hi_dci0_request_id = 0x83

abbrev pub tx_request_id : ℕ
tx_request_id = 0x84

-- `message_id` and `message_length`, the words of `fapi_l1_message_header_t`.
abbrev pub header : ℕ → ℕ → ℕ → (ℕ → ℕ) → ℕ → ℕ
header body id len m = store32 (body + 4) len (store32 body id m)

-- FAPI_IPC_MSG_SET_LENGTH_FROM_L1, for the message at `msg` whose body follows its head.
abbrev pub set_length_from_l1 : ℕ → (ℕ → ℕ) → ℕ → ℕ
set_length_from_l1 msg m =
    store32 (msg + length_at) (ipc_msg_size + load32 (msg + ipc_msg_size + 4) m) m

-- FAPI_GET_MSG_PTR_VAR_SIZE, for a structure of `size` bytes whose list has elements of `elem` bytes.
unfoldable pub msg_ptr_var_size : ℕ → ℕ → ℕ → ℕ
msg_ptr_var_size size elem len = if ltb 0 len then (size + elem * sub32 len 1) % word_mod else size

-- `(frame << 4) | subframe`
unfoldable pub sfn_sf : ℕ → ℕ → ℕ
sfn_sf frame subframe = bit_or (frame * 16 % word_mod) subframe

-- The members of `tbs` in `fapi_tx_request_pdu_t`, and that structure.
pub record Tb : Type 0 where
  pub tb_tag : ℕ
  pub tb_length : ℕ
  pub tb_data : ℕ

pub record TxPdu : Type 0 where
  pub pdu_length : ℕ
  pub pdu_index : ℕ
  pub num_segments : ℕ
  pub tbs : List Tb

-- `scheduler_dl_config_request_t`. The arrays that are only copied are the addresses at which they
-- stand; the one whose elements are read is a list.
pub record DlConfigRequest : Type 0 where
  pub frame : ℕ
  pub subframe : ℕ
  pub number_pdcch_ofdm_symbols : ℕ
  pub number_dci : ℕ
  pub number_pdu : ℕ
  pub number_tx_req : ℕ
  pub number_hi : ℕ
  pub number_dci0 : ℕ
  pub number_pdsch_rnti : ℕ
  pub transmission_power_pcfich : ℕ
  pub dl_config_dci_list : ℕ
  pub dl_config_pdu_list : ℕ
  pub tx_request_pdu_list : List TxPdu
  pub dci0_list : ℕ
  pub hi_list : ℕ

-- `scheduler_ul_config_request_t`
pub record UlConfigRequest : Type 0 where
  pub frame : ℕ
  pub subframe : ℕ
  pub number_pdu : ℕ
  pub rach_prach_frequency_resources : ℕ
  pub srs_present : ℕ
  pub ul_config_list : ℕ

-- The sizes of `fapi_config_t`, of the requests to start and to stop, of the PDUs, and of the
-- messages with one PDU.
abbrev pub config_size : ℕ
config_size = 532

abbrev pub start_size : ℕ
start_size = 16

abbrev pub stop_size : ℕ
stop_size = 16

abbrev pub dl_pdu_size : ℕ
dl_pdu_size = 468

abbrev pub ul_pdu_size : ℕ
ul_pdu_size = 180

abbrev pub hi_dci0_pdu_size : ℕ
hi_dci0_pdu_size = 224

abbrev pub tx_pdu_size : ℕ
tx_pdu_size = 396

abbrev pub dl_config_size : ℕ
dl_config_size = 504

abbrev pub ul_config_size : ℕ
ul_config_size = 208

abbrev pub hi_dci0_size : ℕ
hi_dci0_size = 248

abbrev pub tx_request_size : ℕ
tx_request_size = 412

-- Words that are written one after the other, at their offsets from `body`.
unfoldable pub store_words : ℕ → List (ℕ × ℕ) → (ℕ → ℕ) → ℕ → ℕ
store_words body [] m = m
store_words body ((at, v) ∷ words) m = store_words body words (store32 (body + at) v m)

-- The fields that fapi_p7_dl_config_request writes, in its order, before the lists and the length. It
-- does not write transmission_power_pcfich, whose word in the message is at 32.
abbrev pub dl_config_words : DlConfigRequest → List (ℕ × ℕ)
dl_config_words r =
    (0, dl_config_request_id)
    ∷ (8, sfn_sf r.frame r.subframe)
    ∷ (20, r.number_dci)
    ∷ (24, r.number_pdu)
    ∷ (16, r.number_pdcch_ofdm_symbols)
    ∷ (28, r.number_pdsch_rnti)
    ∷ []

-- Two lists of elements of `elem` bytes that are copied behind one another.
unfoldable pub copy_lists : ℕ → ℕ → ℕ → ℕ → ℕ → ℕ → (ℕ → ℕ) → ℕ → ℕ
copy_lists elem to first first_num second second_num m =
    copy (copy m to first (first_num * elem % word_mod)) (to + first_num * elem) second
      (second_num * elem % word_mod)

unfoldable pub dl_config_body : DlConfigRequest → ℕ → (ℕ → ℕ) → ℕ → ℕ
unfolding sfn_sf store_words copy_lists
dl_config_body r body m =
    copy_lists dl_pdu_size (body + 36) r.dl_config_dci_list r.number_dci r.dl_config_pdu_list
      r.number_pdu (store_words body (dl_config_words r) m)

-- The same of fapi_p7_ul_config_request.
abbrev pub ul_config_words : UlConfigRequest → List (ℕ × ℕ)
ul_config_words r =
    (0, ul_config_request_id)
    ∷ (8, sfn_sf r.frame r.subframe)
    ∷ (16, r.number_pdu)
    ∷ (20, r.rach_prach_frequency_resources)
    ∷ (24, r.srs_present)
    ∷ []

unfoldable pub ul_config_body : UlConfigRequest → ℕ → (ℕ → ℕ) → ℕ → ℕ
unfolding sfn_sf store_words
ul_config_body r body m =
    copy (store_words body (ul_config_words r) m) (body + 28) r.ul_config_list
      (r.number_pdu * ul_pdu_size % word_mod)

-- The same of fapi_p7_hi_dci0_request.
abbrev pub hi_dci0_words : DlConfigRequest → List (ℕ × ℕ)
hi_dci0_words r =
    (0, hi_dci0_request_id)
    ∷ (8, sfn_sf r.frame r.subframe)
    ∷ (16, r.number_dci0)
    ∷ (20, r.number_hi)
    ∷ []

unfoldable pub hi_dci0_body : DlConfigRequest → ℕ → (ℕ → ℕ) → ℕ → ℕ
unfolding sfn_sf store_words copy_lists
hi_dci0_body r body m =
    copy_lists hi_dci0_pdu_size (body + 24) r.dci0_list r.number_dci0 r.hi_list r.number_hi
      (store_words body (hi_dci0_words r) m)

-- The lengths of the three messages.
unfoldable pub dl_config_length : DlConfigRequest → ℕ
unfolding msg_ptr_var_size
dl_config_length r = msg_ptr_var_size dl_config_size dl_pdu_size (add32 r.number_dci r.number_pdu)

unfoldable pub ul_config_length : UlConfigRequest → ℕ
unfolding msg_ptr_var_size
ul_config_length r = msg_ptr_var_size ul_config_size ul_pdu_size r.number_pdu

unfoldable pub hi_dci0_length : DlConfigRequest → ℕ
unfolding msg_ptr_var_size
hi_dci0_length r = msg_ptr_var_size hi_dci0_size hi_dci0_pdu_size (add32 r.number_dci0 r.number_hi)
