-- ===== src/Fapi/TxData/Message.antt =====
-- The message of a transmit request: its fields, its PDUs, and the data behind them.
use enb_l1_b4860_ppc.Common.{
  ℕ, ◌+◌, ◌-◌, ◌*◌, ◌/◌, ◌^◌, ◌≤◌, ◌<◌, ◌≡◌, inr, refl, ap, List, arith, add32, length, take,
}
use enb_l1_b4860_ppc.Ipc.TxRequest.{store32, load32}
use enb_l1_b4860_ppc.Ipc.TxRequest.Laws.{load32-store32}
use enb_l1_b4860_ppc.Shm.{Shm}
use enb_l1_b4860_ppc.Fapi.{ipc_msg_size, tx_req_buf_size}
use enb_l1_b4860_ppc.Fapi.Memory.{Agree, store32-Agree}
use enb_l1_b4860_ppc.Fapi.Messages.{
  TxPdu, DlConfigRequest, tx_pdu_size, tx_request_size, msg_ptr_var_size, store_words,
}
use enb_l1_b4860_ppc.Fapi.Frames.{sfn_sf-sum}
use enb_l1_b4860_ppc.Fapi.Writes.{
  Writes, Writes-trans, Writes-wider, Writes-store32, AreWords, Reads, Reads-Agree,
  store_words-Writes, store_words-Reads, store32-Reads,
}
use enb_l1_b4860_ppc.Fapi.Reach.{IsMessage}
use enb_l1_b4860_ppc.Fapi.TxData.{copy_pdus, tx_data_offset, tx_request_words, tx_request_message}
use enb_l1_b4860_ppc.Fapi.TxData.Grows.{align64-eq, pdus_end}
use enb_l1_b4860_ppc.Fapi.TxData.Loops.{HaveTbs, Round, length-take_le, copy_pdus-Round}

-- The PDUs that are sent, and the length of the message.
abbrev pub sent : DlConfigRequest → List TxPdu
sent r = take r.number_tx_req r.tx_request_pdu_list

abbrev pub tx_length : DlConfigRequest → ℕ
tx_length r = tx_data_offset r.number_tx_req + pdus_end (sent r) 0

-- What the source's arrays hold, and that the message fits in a buffer of the ring.
pub record IsTxRequest (r : DlConfigRequest) : Type 0 where
  pub frame_in : r.frame < 2 ^ 28
  pub subframe_in : r.subframe < 16
  pub number_in : r.number_tx_req ≤ 64
  pub listed : r.number_tx_req ≤ length r.tx_request_pdu_list
  pub members : HaveTbs (sent r)
  pub fits : tx_length r + ipc_msg_size ≤ tx_req_buf_size

-- The data start at a multiple of 64 behind the PDUs.
pub tx_data_offset-behind :
    (k : ℕ)
    → k ≤ 64
    → (16 + tx_pdu_size * k ≤ tx_data_offset k) × (tx_data_offset k ≡ tx_data_offset k / 64 * 64)
unfolding tx_data_offset msg_ptr_var_size
tx_data_offset-behind k h =
    let size = msg_ptr_var_size tx_request_size tx_pdu_size k in ground (arith, align64-eq size)

module _ (shm : Shm) (r : DlConfigRequest) (v : IsTxRequest r) (body : ℕ) (m : ℕ → ℕ) where
  -- The memory with the fields, and the result of the loops.
  abbrev pub fields_in : ℕ → ℕ
  fields_in = store_words body (tx_request_words r) m

  abbrev pub loops : ℕ × (ℕ → ℕ)
  loops = copy_pdus shm (body + tx_data_offset r.number_tx_req) (body + 16) (sent r) 0 fields_in

  pub loops-Round :
      Round body
        (tx_length r)
        (body + tx_data_offset r.number_tx_req)
        (body + 16)
        0
        (pdus_end (sent r) 0)
        fields_in
        loops
  loops-Round =
      let (behind, _) = tx_data_offset-behind r.number_tx_req v.number_in in
      copy_pdus-Round shm body (tx_length r) (body + tx_data_offset r.number_tx_req) (omega arith)
        (omega (arith, v.fits)) (sent r) (body + 16) 0 fields_in (omega arith)
        (omega (arith, behind, length-take_le r.number_tx_req r.tx_request_pdu_list)) v.members
        (omega arith)

  fields-AreWords : AreWords (tx_request_words r)
  fields-AreWords = ground (arith, v, sfn_sf-sum r.frame r.subframe v.frame_in v.subframe_in)

  final : tx_request_message shm r body m ≡ store32 (body + 4) (tx_length r) loops.1
  unfolding tx_request_message
  final =
      let (p, _) = loops-Round in
      let sum : add32 (tx_data_offset r.number_tx_req) loops.0 ≡ tx_length r =
        omega (arith, p, v.fits) in
      ap (λ (t : ℕ). store32 (body + 4) t loops.1) sum

  offset_room : 16 ≤ tx_length r
  offset_room =
      let (behind, _) = tx_data_offset-behind r.number_tx_req v.number_in in omega (arith, behind)

  pub message-Writes : Writes body (tx_length r) m (tx_request_message shm r body m)
  message-Writes =
      let n = tx_length r in
      let (_, g) = loops-Round in
      rw final (
        Writes-trans body n
          (Writes-wider body n body 16 (store_words-Writes body 16 (tx_request_words r) m refl)
            (omega arith) (omega (arith, offset_room)))
          (Writes-trans body n g.writes (
            Writes-store32 body n loops.1 (body + 4) n (omega arith) (omega (arith, offset_room)))))

  pub message-Reads :
      Reads body (tx_request_words r) (tx_request_message shm r body m)
      × (load32 (body + 4) (tx_request_message shm r body m) ≡ tx_length r)
  message-Reads =
      let (_, g) = loops-Round in
      let words = tx_request_words r in
      let first = store_words-Reads body 16 words m refl fields-AreWords in
      rw final (
        store32-Reads body 4 (tx_length r) words loops.1 refl
            (Reads-Agree body 16 words refl (g.below body 16 (omega arith)) first),
        load32-store32 (body + 4) (tx_length r) loops.1 (omega (arith, v.fits)),
      )

  -- Behind the length all is as the loops leave it.
  pub message-loops : Agree (body + 16) (tx_length r - 16) loops.1 (tx_request_message shm r body m)
  message-loops = rw final (
      store32-Agree loops.1 (body + 4) (tx_length r) (body + 16) (tx_length r - 16)
        (inr (omega arith)))

pub tx_request-IsMessage :
    (shm : Shm) (r : DlConfigRequest)
    → IsTxRequest r
    → IsMessage (tx_length r) (tx_length r) (tx_request_message shm r)
tx_request-IsMessage shm r v = record {
  bytes = λ body m. (message-Writes shm r v body m).bytes;
  inside = λ body m. (message-Writes shm r v body m).inside;
  says = λ body m. (message-Reads shm r v body m).1;
  room = omega (arith, (tx_data_offset-behind r.number_tx_req v.number_in).0);
  word = omega (arith, v.fits);
}
