-- ===== src/Tests/Clients.antt =====
-- Examples for the class NetClient and the requests of ServerConnector.cpp, on a client whose buffers are
-- plain byte strings.
use universal_fencing_hub.Base.{
  ℕ, ◌+◌, ◌≤◌, ◌≡◌, refl, inl, true, false, List, [], ◌∷◌, some, arith, length, length-replicate,
  replicate, slice, ◌==◌,
}
use universal_fencing_hub.CharBuffer.Plain.{Plain, plain_buffer}
use universal_fencing_hub.Outcome.{ok}
use universal_fencing_hub.MsgHeader.{MsgType, code_of, cleared}
use universal_fencing_hub.NetClient.{
  NetClient, Phase, IoOp, Domain, received, recv_failed, sent, would_block, closed, io_buffer_size,
  field_size, nodename_size, req_read_size, receive_message, put_header, req_write_size,
  send_message,
}
use universal_fencing_hub.NetClient.Receiving.{IsReceiving, Receives, receive_message_lem}
use universal_fencing_hub.NetClient.Sending.{
  IsSending, HasReply, Sends, reply_of, put_header-IsSending, send_message_lem,
}
use universal_fencing_hub.Server.{FenceFunctions}
use universal_fencing_hub.Requests.{process_client_message}
use universal_fencing_hub.Requests.Fence.{fence_message, HasRoom}
use universal_fencing_hub.Requests.Phases.{Handles, process_client_message-Handles}
use universal_fencing_hub.Requests.Replies.{
  Action, request_type, plugin_call, Replies, process_client_message-Replies,
}

abbrev buffer_of : ℕ → Plain
buffer_of room = record { bytes = []; room = room }

-- A client that has just connected.
abbrev pub fresh : NetClient Plain
fresh = record {
  key_buffer = buffer_of field_size;
  value_buffer = buffer_of field_size;
  nodename = buffer_of nodename_size;
  secret = buffer_of 64;
  address = [];
  socket_domain = Domain.inet4;
  socket_fd = some 5;
  current_phase = Phase.recv;
  next_phase = Phase.pending;
  io_state = IoOp.read;
  header = cleared;
  have_header = false;
  io_offset = 0;
  io_buffer = replicate io_buffer_size 0;
}

pub fresh-IsReceiving : IsReceiving fresh []
fresh-IsReceiving = record {
  capacity = length-replicate {A = ℕ} io_buffer_size 0;
  so_far = refl;
  offset = inl (refl, omega arith);
}

pub fresh_size : 2 ≤ req_read_size fresh
unfolding req_read_size
fresh_size = omega arith

receive_message_lem_example :
    Receives (receive_message fresh (received (0 ∷ 129 ∷ []))) (0 ∷ 129 ∷ [])
    × ((receive_message fresh (received [])).1 ≡ closed)
    × ((receive_message fresh recv_failed).1 ≡ closed)
receive_message_lem_example = receive_message_lem fresh [] 0 (129 ∷ []) fresh-IsReceiving fresh_size

-- A client with the reply that a fencing action was successful.
abbrev replying : NetClient Plain
replying = record fresh { header = record { msg_type = 0xA0; data_length = 4 } }

replying-HasReply : HasReply replying
replying-HasReply = record {
  capacity = length-replicate {A = ℕ} io_buffer_size 0;
  no_header = refl;
  start = refl;
}

replying-IsSending : IsSending (put_header replying) [] (reply_of replying)
replying-IsSending = put_header-IsSending replying replying-HasReply

replying_size : 3 ≤ req_write_size (put_header replying)
unfolding req_write_size put_header
replying_size = omega arith

send_message_lem_example :
    Sends
      (send_message replying (sent 3))
      (slice
        (put_header replying).io_buffer
        (put_header replying).io_offset
        ((put_header replying).io_offset + 3))
      (reply_of replying)
    × Sends (send_message replying would_block) [] (reply_of replying)
send_message_lem_example =
    send_message_lem replying [] (reply_of replying) 3 replying-IsSending replying_size

-- A client with a request to switch off the node `A`, with the secret `B`.
abbrev pub node : List ℕ
node = 65 ∷ []

abbrev pub pass : List ℕ
pass = 66 ∷ []

abbrev pub asking : NetClient Plain
asking = record fresh {
  current_phase = Phase.executing;
  header = record { msg_type = 0x81; data_length = 26 };
  have_header = true;
  io_offset = 26;
  io_buffer = fence_message (0 ∷ 129 ∷ 0 ∷ 26 ∷ []) node pass [];
}

pub asking-HasRoom : HasRoom asking node pass
asking-HasRoom = record {
  name_field = omega arith;
  secret_field = omega arith;
  name_value = omega arith;
  secret_value = omega arith;
  nodename = omega arith;
  secret = omega arith;
}

-- A plugin that switches off a node with a name of one byte, and can do nothing else.
abbrev pub plugin : FenceFunctions
plugin = record {
  ufh_fence_off = λ nodename. length nodename == 1;
  ufh_fence_on = λ nodename. false;
  ufh_fence_reboot = λ nodename. false;
}

process_client_message-Handles_example : Handles asking (process_client_message 26 plugin asking)
process_client_message-Handles_example =
    process_client_message-Handles 26 plugin asking refl (omega arith) (omega arith)

asking_type : 0x81 ≡ code_of MsgType.fence_off
unfolding code_of
asking_type = refl

process_client_message-Replies_example :
    (d : NetClient Plain) × (process_client_message 3 plugin asking ≡ some (ok d tt))
    × Replies d (plugin_call plugin Action.off node)
unfolding request_type
process_client_message-Replies_example =
    process_client_message-Replies plugin Action.off asking (0 ∷ 129 ∷ 0 ∷ 26 ∷ []) node pass [] 0
      refl refl asking_type refl (omega arith) asking-HasRoom (omega arith)
