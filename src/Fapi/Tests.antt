-- ===== src/Fapi/Tests.antt =====
-- Runs of the adaptation of the FAPI on a concrete state, and its theorems there.
use enb_l1_b4860_ppc.Common.{
  ℕ, suc, ◌+◌, ◌*◌, ◌%◌, ◌≤◌, ◌≡◌, ◌↔◌, refl, inl, true, false, some, List, [], ◌∷◌, ◌++◌, ◌==◌,
  if◌then◌else◌, arith,
}
use enb_l1_b4860_ppc.Ipc.{Ipc, success, channel_at}
use enb_l1_b4860_ppc.Ipc.Ptr.{IsLinked, waiting}
use enb_l1_b4860_ppc.Ipc.TxRequest.{load32}
use enb_l1_b4860_ppc.Fapi.{
  Fapi, p7_rx_ind, p5_ipc, alloc_send_msg, ipc_send_msg, ipc_p2v, ipc_pa2sc_ch_id, ipc_sc2pa_ch_id,
  length_at, phys_addr_at, tx_req_buf_size, ipc_msg_size, with_memory,
}
use enb_l1_b4860_ppc.Fapi.Memory.{Agree}
use enb_l1_b4860_ppc.Fapi.Messages.{
  TxPdu, DlConfigRequest, channel_p7_req, dl_config_length, dl_pdu_size, msg_ptr_var_size,
}
use enb_l1_b4860_ppc.Fapi.Buffers.{after_allocs, alloc_send_msg-again_iff}
use enb_l1_b4860_ppc.Fapi.Send.{Found, fapi_bd, found_at, ipc_send_msg-Found}
use enb_l1_b4860_ppc.Fapi.Requests.{p7_dl_config_request, p7_tx_request}
use enb_l1_b4860_ppc.Fapi.Framed.{next_body, Arrived}
use enb_l1_b4860_ppc.Fapi.TwoLists.{HasLists}
use enb_l1_b4860_ppc.Fapi.Config.{IsDlRequest, HasDlFields, p7_dl_config_request-Arrived}
use enb_l1_b4860_ppc.Fapi.TxData.{tx_data_offset, tx_request_words}
use enb_l1_b4860_ppc.Fapi.TxData.Grows.{align64-eq, pdus_end, tbs_end, tb_end}
use enb_l1_b4860_ppc.Fapi.TxData.Message.{sent, tx_length}
use enb_l1_b4860_ppc.Fapi.TxData.Pdus.{PdusStand}
use enb_l1_b4860_ppc.Fapi.Tx.{p7_tx_request-Arrived}
use enb_l1_b4860_ppc.Fapi.Dispatch.{push_work, process_p7_message}
use enb_l1_b4860_ppc.Fapi.Dispatch.Fifo.{held}
use enb_l1_b4860_ppc.Fapi.Dispatch.System.{
  Step, round, attempt, take_step, take_last, run, for_queue,
}
use enb_l1_b4860_ppc.Fapi.Dispatch.Routes.{pushes}
use enb_l1_b4860_ppc.Fapi.Dispatch.Order.{starting, run-fifo}
use enb_l1_b4860_ppc.Fapi.Dispatch.Translate.{process_p7_message-rx}
use enb_l1_b4860_ppc.Fapi.Start.{ipc_reset_channel}
use enb_l1_b4860_ppc.Fapi.Start.Laws.{ipc_reset_channel-drains}
use enb_l1_b4860_ppc.Fapi.Sample.{
  segment, manager, free, stack, area, queue, sample, queue-IsWorking, from_dsp-IsLinked,
  sample-CanSend, sample-IsReady, buffers-HasDistinct,
}

alloc_send_msg-again_iff_example :
    ((alloc_send_msg 2 (after_allocs (λ _. 2) 16 sample)).0 ≡ (alloc_send_msg 2 sample).0)
    ↔ (suc 15 % 16 ≡ 0)
alloc_send_msg-again_iff_example =
    alloc_send_msg-again_iff (λ _. 2) 15 sample (omega arith) buffers-HasDistinct

ipc_send_msg-Found_example :
    (f' : Fapi) × (ipc_send_msg segment manager free stack 0x40100000 sample ≡ (success, f'))
    × (waiting ipc_pa2sc_ch_id f'.ipc ≡ waiting ipc_pa2sc_ch_id area ++ (fapi_bd sample ∷ []))
    × Found
        (found_at segment manager sample)
        (load32 0x40100000 area.memory)
        (load32 (0x40100000 + length_at) area.memory)
        (load32 (0x40100000 + phys_addr_at) area.memory)
        f'.ipc.memory
unfolding load32
ipc_send_msg-Found_example =
    ipc_send_msg-Found segment manager free stack 0x40100000 sample sample-CanSend
      (λ a. omega arith) (omega arith)

-- One PDU with two members, of which the first has data.
abbrev tx_pdu : TxPdu
tx_pdu = record {
  pdu_length = 5;
  pdu_index = 7;
  num_segments = 2;
  tbs =
      record { tb_tag = 1; tb_length = 5; tb_data = 0xa000 }
      ∷ record { tb_tag = 0; tb_length = 3; tb_data = 0xb000 }
      ∷ [];
}

abbrev dl_request : DlConfigRequest
dl_request = record {
  frame = 5;
  subframe = 3;
  number_pdcch_ofdm_symbols = 2;
  number_dci = 1;
  number_pdu = 2;
  number_tx_req = 1;
  number_hi = 0;
  number_dci0 = 1;
  number_pdsch_rnti = 1;
  transmission_power_pcfich = 6000;
  dl_config_dci_list = 0x8000;
  dl_config_pdu_list = 0x9000;
  tx_request_pdu_list = tx_pdu ∷ [];
  dci0_list = 0xc000;
  hi_list = 0xd000;
}

dl_request-IsDlRequest : IsDlRequest dl_request
dl_request-IsDlRequest = record {
  frame_in = omega arith;
  subframe_in = omega arith;
  symbols_in = omega arith;
  rnti_in = omega arith;
  dci_in = omega arith;
  pdu_in = omega arith;
  dci0_in = omega arith;
  hi_in = omega arith;
}

dl_request_length : dl_config_length dl_request ≡ 1440
unfolding dl_config_length msg_ptr_var_size
dl_request_length = refl

p7_dl_config_request-Arrived_example :
    (f' : Fapi) × (p7_dl_config_request segment manager free stack dl_request sample
      ≡ (success, f'))
    × Arrived segment manager channel_p7_req (dl_config_length dl_request) [] sample f'
    × HasDlFields dl_request (next_body sample) f'.ipc.memory
    × HasLists dl_pdu_size 36 0x8000 1 0x9000 2 sample f'
    × (dl_config_length dl_request + ipc_msg_size ≤ tx_req_buf_size)
p7_dl_config_request-Arrived_example =
    p7_dl_config_request-Arrived segment manager free stack dl_request sample dl_request-IsDlRequest
      (sample-IsReady (dl_config_length dl_request) (omega (arith, dl_request_length)))
      (inl (omega arith)) (inl (omega arith))

tx_offset : tx_data_offset 1 ≡ 448
unfolding tx_data_offset msg_ptr_var_size
tx_offset = align64-eq 412 (omega arith)

tx_request_length : tx_length dl_request ≡ 456
unfolding pdus_end tbs_end tb_end
tx_request_length = omega (arith, tx_offset)

p7_tx_request-Arrived_example :
    (f' : Fapi) × (p7_tx_request segment manager free stack dl_request sample ≡ (success, f'))
    × Arrived segment manager channel_p7_req
        (tx_length dl_request)
        (tx_request_words dl_request)
        sample
        f'
    × PdusStand segment
        (next_body sample + tx_data_offset 1)
        area.memory
        (next_body sample + 16)
        (sent dl_request)
        0
        f'.ipc.memory
p7_tx_request-Arrived_example =
    p7_tx_request-Arrived segment manager free stack dl_request sample
      (record {
        frame_in = omega arith;
        subframe_in = omega arith;
        number_in = omega arith;
        listed = omega arith;
        members = (omega arith, omega arith, tt);
        fits = omega (arith, tx_request_length);
      })
      (sample-IsReady (tx_length dl_request) (omega (arith, tx_request_length)))
      (
        omega arith,
        omega arith,
        (
          (omega arith, omega arith, omega arith, inl (omega arith)),
          ((omega arith, omega arith, omega arith, inl (omega arith)), tt),
        ),
        tt,
      )

-- The dispatcher finds a message, tries its call, and L2 takes from two queues.
abbrev steps : List Step
steps =
    round 0 0 area ∷ attempt ∷ take_last ∷ take_step p7_rx_ind false ∷ take_step p5_ipc true ∷ []

run-fifo_example :
    (let s = run segment manager free steps (starting sample) in
      held queue ++ for_queue p5_ipc s.received
      ≡ for_queue p5_ipc s.taken
        ++ (held (s.fapi.queues p5_ipc) ++ for_queue p5_ipc (pushes s.work)))
run-fifo_example =
    run-fifo segment manager free p5_ipc steps sample (omega arith) (omega arith) queue-IsWorking

-- An RX.indication with two PDUs at 0x100.
abbrev indication : ℕ → ℕ
indication a = if a == 0x103 then 0x87 else if a == 0x113 then 2 else 0

process_p7_message-rx_example :
    (let (work, f') =
        process_p7_message (ipc_p2v segment manager) 0x100 (with_memory indication sample) in
      (work ≡ push_work p7_rx_ind 0x100)
      × (load32 (0x100 + 20 + 32 * 1 + 28) f'.ipc.memory
          ≡ ipc_p2v segment manager (load32 (0x100 + 20 + 32 * 1 + 28) indication))
      × Agree 0x100 48 indication f'.ipc.memory)
unfolding load32
process_p7_message-rx_example =
    process_p7_message-rx segment manager 0x100 1 (with_memory indication sample) refl (omega arith)

ipc_reset_channel-drains_example :
    (ipc' : Ipc) × (ipc_reset_channel free (ipc_p2v segment manager) 3 5 area
      ≡ some (success, ipc'))
    × IsLinked ipc_sc2pa_ch_id ipc'
    × (waiting ipc_sc2pa_ch_id ipc' ≡ [])
unfolding channel_at
ipc_reset_channel-drains_example =
    ipc_reset_channel-drains free (ipc_p2v segment manager) refl 3 5 area from_dsp-IsLinked
      (omega arith)
