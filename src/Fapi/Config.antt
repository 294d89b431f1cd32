-- ===== src/Fapi/Config.antt =====
-- The requests DL_CONFIG, UL_CONFIG and HI_DCI0 as the DSP reads them.
use enb_l1_b4860_ppc.Common.{
  ℕ, ◌+◌, ◌*◌, ◌^◌, ◌≤◌, ◌<◌, ◌≡◌, refl, subst, ◌∙◌, Bool, [], arith, word_mod,
}
use enb_l1_b4860_ppc.Ipc.{success}
use enb_l1_b4860_ppc.Shm.{Shm}
use enb_l1_b4860_ppc.Usmmgr.{Usmmgr}
use enb_l1_b4860_ppc.Fapi.{Fapi, ipc_msg_size, tx_req_buf_size}
use enb_l1_b4860_ppc.Fapi.Memory.{Apart}
use enb_l1_b4860_ppc.Fapi.Messages.{
  DlConfigRequest, dl_pdu_size, hi_dci0_pdu_size, dl_config_words, dl_config_body, dl_config_length,
  hi_dci0_words, hi_dci0_body, hi_dci0_length, msg_ptr_var_size, channel_p7_req,
}
use enb_l1_b4860_ppc.Fapi.Requests.{p7_dl_config_request, p7_hi_dci0_request}
use enb_l1_b4860_ppc.Fapi.Frames.{sfn_sf-sum}
use enb_l1_b4860_ppc.Fapi.TwoLists.{two_lists, IsTwoLists, HasLists, two_lists-Arrived}
use enb_l1_b4860_ppc.Fapi.Reach.{next_buffer}
use enb_l1_b4860_ppc.Fapi.Framed.{next_body, IsReady, Arrived}
use enb_l1_b4860_ppc.Fapi.Writes.{Reads}
use enb_l1_b4860_ppc.Ipc.TxRequest.{load32}

-- What the FAPI allows: 64 PDUs in a list, fields of 32 bits.
pub record IsDlRequest (r : DlConfigRequest) : Type 0 where
  pub frame_in : r.frame < 2 ^ 28
  pub subframe_in : r.subframe < 16
  pub symbols_in : r.number_pdcch_ofdm_symbols < word_mod
  pub rnti_in : r.number_pdsch_rnti < word_mod
  pub dci_in : r.number_dci ≤ 64
  pub pdu_in : r.number_pdu ≤ 64
  pub dci0_in : r.number_dci0 ≤ 64
  pub hi_in : r.number_hi ≤ 64

-- The words of a DL_CONFIG.request in the layout of the FAPI.
pub record HasDlFields (r : DlConfigRequest) (body : ℕ) (m : ℕ → ℕ) : Type 0 where
  pub message_id : load32 body m ≡ 0x80
  pub sfn_sf : load32 (body + 8) m ≡ r.frame * 16 + r.subframe
  pub symbols : load32 (body + 16) m ≡ r.number_pdcch_ofdm_symbols
  pub dcis : load32 (body + 20) m ≡ r.number_dci
  pub pdus : load32 (body + 24) m ≡ r.number_pdu
  pub rntis : load32 (body + 28) m ≡ r.number_pdsch_rnti

words-HasDlFields :
    (r : DlConfigRequest)
    → IsDlRequest r
    → (body : ℕ) (m : ℕ → ℕ) → Reads body (dl_config_words r) m
    → HasDlFields r body m
words-HasDlFields r v body m (id, (at, (dcis, (pdus, (symbols, (rntis, _)))))) =
    let first : body + 0 ≡ body = omega arith in
    record {
      message_id = subst (λ a. load32 a m ≡ 0x80) first id;
      sfn_sf = at ∙ sfn_sf-sum r.frame r.subframe v.frame_in v.subframe_in;
      symbols = symbols;
      dcis = dcis;
      pdus = pdus;
      rntis = rntis;
    }

-- A message with its PDUs and head fits in a buffer of the ring.
dl_config_length-fits :
    (r : DlConfigRequest)
    → IsDlRequest r
    → (36 + (r.number_dci * dl_pdu_size + r.number_pdu * dl_pdu_size) ≤ dl_config_length r)
      × (dl_config_length r + ipc_msg_size ≤ tx_req_buf_size)
unfolding dl_config_length msg_ptr_var_size
dl_config_length-fits r v = ground (arith, v)

hi_dci0_length-fits :
    (r : DlConfigRequest)
    → IsDlRequest r
    → (24 + (r.number_dci0 * hi_dci0_pdu_size + r.number_hi * hi_dci0_pdu_size) ≤ hi_dci0_length r)
      × (hi_dci0_length r + ipc_msg_size ≤ tx_req_buf_size)
unfolding hi_dci0_length msg_ptr_var_size
hi_dci0_length-fits r v = ground (arith, v)

dl-IsTwoLists :
    (r : DlConfigRequest)
    → IsDlRequest r
    → IsTwoLists dl_pdu_size 36 (dl_config_length r) (dl_config_words r) r.number_dci r.number_pdu
dl-IsTwoLists r v = record {
  layout = refl;
  free = refl;
  room = omega arith;
  holds = (dl_config_length-fits r v).0;
  word = omega (arith, (dl_config_length-fits r v).1);
  fields = ground (arith, v, sfn_sf-sum r.frame r.subframe v.frame_in v.subframe_in);
}

hi-IsTwoLists :
    (r : DlConfigRequest)
    → IsDlRequest r
    → IsTwoLists hi_dci0_pdu_size 24 (hi_dci0_length r) (hi_dci0_words r) r.number_dci0 r.number_hi
hi-IsTwoLists r v = record {
  layout = refl;
  free = refl;
  room = omega arith;
  holds = (hi_dci0_length-fits r v).0;
  word = omega (arith, (hi_dci0_length-fits r v).1);
  fields = ground (arith, v, sfn_sf-sum r.frame r.subframe v.frame_in v.subframe_in);
}

module _ (shm : Shm) (usmmgr : Usmmgr) (lock : ℕ → Bool) (local : ℕ) where
  -- If the ring towards the DSP has room, its semaphore is free and its next buffer takes 16 bytes,
  -- the message's buffer has a physical address of 32 bits and lies apart from the local message,
  -- the DSP's buffer and the lists of L2, and the request has at most 64 DCIs and 64 PDUs, a frame
  -- below 2 ^ 28, a subframe below 16 and fields of 32 bits, then fapi_p7_dl_config_request succeeds:
  -- the DSP finds one descriptor more, at its address the channel, length and physical address of the
  -- message, in the message, each at its place, the identifier, the frame and subframe, and the numbers
  -- of symbols, DCIs, PDUs and RNTIs of the request, then its DCIs and behind them its PDUs, byte by
  -- byte; and all of it fits in the buffer. The power of the PCFICH, which the code does not copy, is
  -- left out.
  pub p7_dl_config_request-Arrived :
      (r : DlConfigRequest) (f : Fapi)
      → IsDlRequest r
      → IsReady shm usmmgr lock local (dl_config_length r) f
      → Apart r.dl_config_dci_list
          (r.number_dci * dl_pdu_size)
          (next_buffer f).vaddr
          (dl_config_length r + 16)
      → Apart r.dl_config_pdu_list
          (r.number_pdu * dl_pdu_size)
          (next_buffer f).vaddr
          (dl_config_length r + 16)
      → (f' : Fapi) × (p7_dl_config_request shm usmmgr lock local r f ≡ (success, f'))
        × Arrived shm usmmgr channel_p7_req (dl_config_length r) [] f f'
        × HasDlFields r (next_body f) f'.ipc.memory
        × HasLists dl_pdu_size 36 r.dl_config_dci_list r.number_dci r.dl_config_pdu_list
            r.number_pdu f f'
        × (dl_config_length r + ipc_msg_size ≤ tx_req_buf_size)
  unfolding p7_dl_config_request dl_config_body two_lists
  p7_dl_config_request-Arrived r f v ready dci pdu =
      let (holds, fits) = dl_config_length-fits r v in
      let (f', sent, arrived, lists) =
        two_lists-Arrived dl_pdu_size 36 (dl_config_length r) (dl_config_words r)
          r.dl_config_dci_list r.number_dci r.dl_config_pdu_list r.number_pdu shm usmmgr lock local
          channel_p7_req f (dl-IsTwoLists r v) ready (omega arith) dci pdu in
      let (reached, words, len) = arrived in
      (
        f',
        sent,
        (reached, tt, len),
        words-HasDlFields r v (next_body f) f'.ipc.memory words,
        lists,
        fits,
      )

  -- Under the same conditions, of its message and lists, fapi_p7_hi_dci0_request succeeds: the DSP
  -- finds one descriptor more, with the channel, length and physical address of the message, and in
  -- the message the fields of the request, then its DCIs of format 0 and behind them its HIs; and
  -- all of it fits in the buffer.
  pub p7_hi_dci0_request-Arrived :
      (r : DlConfigRequest) (f : Fapi)
      → IsDlRequest r
      → IsReady shm usmmgr lock local (hi_dci0_length r) f
      → Apart r.dci0_list
          (r.number_dci0 * hi_dci0_pdu_size)
          (next_buffer f).vaddr
          (hi_dci0_length r + 16)
      → Apart r.hi_list
          (r.number_hi * hi_dci0_pdu_size)
          (next_buffer f).vaddr
          (hi_dci0_length r + 16)
      → (f' : Fapi) × (p7_hi_dci0_request shm usmmgr lock local r f ≡ (success, f'))
        × Arrived shm usmmgr channel_p7_req (hi_dci0_length r) (hi_dci0_words r) f f'
        × HasLists hi_dci0_pdu_size 24 r.dci0_list r.number_dci0 r.hi_list r.number_hi f f'
        × (hi_dci0_length r + ipc_msg_size ≤ tx_req_buf_size)
  unfolding p7_hi_dci0_request hi_dci0_body two_lists
  p7_hi_dci0_request-Arrived r f v ready dci hi =
      let (holds, fits) = hi_dci0_length-fits r v in
      let (f', sent, arrived, lists) =
        two_lists-Arrived hi_dci0_pdu_size 24 (hi_dci0_length r) (hi_dci0_words r) r.dci0_list
          r.number_dci0 r.hi_list r.number_hi shm usmmgr lock local channel_p7_req f
          (hi-IsTwoLists r v) ready (omega arith) dci hi in
      (f', sent, arrived, lists, fits)
