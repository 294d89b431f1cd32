-- ===== src/Channel/Steps.antt =====
-- The statements of a send and of a receive on one channel, as steps of two sides that run at the
-- same time: the order of the accesses to the shared words is that of `fsl_ipc_send_ptr` and
-- `fsl_ipc_recv_ptr` in b4860/libb4860/ipc/lib/fsl_ipc_channel.c. Each side owns its index and its
-- counter, and every access is one step. The semaphore excludes only tasks of the same side.
use enb_l1_b4860_ppc.Common.{ℕ, ◌%◌, List, [], ◌∷◌, ◌++◌, if◌then◌else◌, add32}
use enb_l1_b4860_ppc.Channel.{Bd, Channel, is_full, is_empty, consumer_bd, producer_bd, write_bd}

-- Where the producer is: `OS_HET_CH_FULL` was false; `msg_ptr` is written; `msg_len` is; the
-- counter is incremented, and the index is not yet.
pub data Sending : Type 0 where
  idle : Sending
  checked pointed written : Bd → Sending
  counted : Sending

-- Where the consumer is: `OS_HET_CH_EMPTY` was false; `msg_ptr` is read; `msg_len` is; the counter
-- is incremented, and the index is not yet.
pub data Receiving : Type 0 where
  waiting found : Receiving
  pointer : ℕ → Receiving
  read : Bd → Receiving
  taken : Receiving

-- The channel with both sides, and the descriptors that were passed to the sends that have
-- counted, and read by the receives that have, oldest first.
pub record Shared : Type 0 where
  pub channel : Channel
  pub sending : Sending
  pub receiving : Receiving
  pub sent : List Bd
  pub received : List Bd

-- `OS_HET_INCREMENT_PRODUCER` and `OS_HET_INCREMENT_CONSUMER`
abbrev pub count_producer : Channel → Channel
count_producer ch = record ch { producer_num = add32 ch.producer_num 1 }

abbrev pub count_consumer : Channel → Channel
count_consumer ch = record ch { consumer_num = add32 ch.consumer_num 1 }

-- The steps of LOCAL_PRODUCER_NUM and LOCAL_CONSUMER_NUM.
abbrev pub move_producer : Channel → Channel
move_producer ch = record ch {
  local_producer_num = add32 ch.local_producer_num 1 % ch.bd_ring_size;
}

abbrev pub move_consumer : Channel → Channel
move_consumer ch = record ch {
  local_consumer_num = add32 ch.local_consumer_num 1 % ch.bd_ring_size;
}

-- The next statement of the producer, which sends `bd` if it is idle. On a full ring the send
-- returns -ERR_CHANNEL_FULL and the producer is idle again.
unfoldable pub send_step : Sending → Bd → Shared → Shared
send_step idle bd s = if is_full s.channel then s else record s { sending = checked bd }
send_step (checked b) bd s = record s {
  channel = write_bd s.channel (record (producer_bd s.channel) { msg_ptr = b.msg_ptr });
  sending = pointed b;
}
send_step (pointed b) bd s = record s {
  channel = write_bd s.channel (record (producer_bd s.channel) { msg_len = b.msg_len });
  sending = written b;
}
send_step (written b) bd s = record s {
  channel = count_producer s.channel;
  sending = counted;
  sent = s.sent ++ (b ∷ []);
}
send_step counted bd s = record s { channel = move_producer s.channel; sending = idle }

-- The next statement of the consumer.
unfoldable pub receive_step : Receiving → Shared → Shared
receive_step waiting s = if is_empty s.channel then s else record s { receiving = found }
receive_step found s = record s { receiving = pointer (consumer_bd s.channel).msg_ptr }
receive_step (pointer p) s = record s {
  receiving = read (record { msg_ptr = p; msg_len = (consumer_bd s.channel).msg_len });
}
receive_step (read b) s = record s {
  channel = count_consumer s.channel;
  receiving = taken;
  received = s.received ++ (b ∷ []);
}
receive_step taken s = record s { channel = move_consumer s.channel; receiving = waiting }

-- Which side runs next; a producer that is idle begins to send the descriptor.
pub data Move : Type 0 where
  producer : Bd → Move
  consumer : Move

unfoldable pub move : Move → Shared → Shared
unfolding send_step receive_step
move (producer bd) s = send_step s.sending bd s
move consumer s = receive_step s.receiving s

-- Any interleaving.
unfoldable pub run_moves : List Move → Shared → Shared
unfolding move
run_moves [] s = s
run_moves (m ∷ ms) s = run_moves ms (move m s)
