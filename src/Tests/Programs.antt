-- ===== src/Tests/Programs.antt =====
-- Examples for ClientConnector.cpp, with the server that the request comes to.
use universal_fencing_hub.Base.{
  List, map, true, ℕ, ◌≡◌, refl, [], ◌∷◌, none, some, arith, length-replicate, replicate, take,
}
use universal_fencing_hub.CharBuffer.Plain.{Plain, plain_buffer}
use universal_fencing_hub.Outcome.{ok}
use universal_fencing_hub.MsgHeader.{
  MsgType, code_of, cleared, serialize, deserialize, set_msg_type,
}
use universal_fencing_hub.Protocol.{write_field}
use universal_fencing_hub.NetClient.{NetClient, received, sent}
use universal_fencing_hub.NetClient.Receiving.{HasMessage}
use universal_fencing_hub.Requests.{process_client_message}
use universal_fencing_hub.Requests.Fence.{fence_message, HasRoom}
use universal_fencing_hub.Requests.Replies.{Action, request_type, plugin_call, Replies}
use universal_fencing_hub.ClientConnector.{
  Session, fence_checked, compose, send_message, receive_message, send_length,
}
use universal_fencing_hub.ClientConnector.Request.{composed}
use universal_fencing_hub.ClientConnector.Transfer.{send_message-gone}
use universal_fencing_hub.ClientConnector.Waiting.{receive_message-nothing}
use universal_fencing_hub.ClientConnector.Replying.{joined, receive_message-reply}
use universal_fencing_hub.ClientConnector.Delivery.{request_bytes, compose-Replies}
use universal_fencing_hub.Tests.Clients.{asking, node, pass, plugin}

-- A client program that is connected.
abbrev session : Session
session = record { socket_fd = some 4; header = cleared; io_buffer = replicate 1024 0; gone = [] }

receive_message-nothing_example :
    receive_message session (received [] ∷ received [] ∷ received [] ∷ []) ≡ none
receive_message-nothing_example = receive_message-nothing 3 (received []) session tt

-- The session with a request, ready to be sent.
abbrev requesting : Session
requesting = composed session MsgType.fence_off (0 ∷ 0 ∷ 0 ∷ 0 ∷ []) node pass (replicate 998 0)

requesting_length : send_length requesting.header ≡ 26
unfolding send_length
requesting_length = refl

send_message-gone_example :
    (t : Session) × (send_message requesting (sent 20 ∷ sent 6 ∷ []) ≡ some (ok t tt))
    × (t.gone
        ≡ take (send_length requesting.header) (serialize requesting.header requesting.io_buffer))
    × (t.header ≡ requesting.header)
unfolding send_length
send_message-gone_example =
    send_message-gone requesting (sent 20 ∷ sent 6 ∷ []) (omega arith)
      (omega arith, omega arith, (omega arith, omega arith, refl))

composed_request : compose session MsgType.fence_off node pass ≡ ok requesting tt
unfolding compose write_field code_of set_msg_type
composed_request = refl

-- The client of the server once the request has come.
abbrev asked : NetClient Plain
asked = record asking {
  io_buffer = fence_message (0 ∷ 129 ∷ 0 ∷ 26 ∷ []) node pass (replicate 998 0);
}

asked-HasMessage : HasMessage asked (request_bytes requesting)
unfolding send_length serialize code_of deserialize
asked-HasMessage = record {
  capacity = refl;
  so_far = refl;
  have_header = refl;
  header = refl;
  in_buffer = omega arith;
  whole = refl;
}

asked-HasRoom : HasRoom asked node pass
asked-HasRoom = record {
  name_field = omega arith;
  secret_field = omega arith;
  name_value = omega arith;
  secret_value = omega arith;
  nodename = omega arith;
  secret = omega arith;
}

compose-Replies_example :
    (d : NetClient Plain) × (process_client_message 3 plugin asked ≡ some (ok d tt))
    × Replies d (plugin_call plugin Action.off node)
unfolding request_type
compose-Replies_example =
    compose-Replies plugin Action.off session requesting asked node pass 0
      (length-replicate {A = ℕ} 1024 0) refl refl (omega arith) (omega arith) asked-HasRoom
      composed_request asked-HasMessage

-- The server's reply comes in two pieces.
abbrev pieces : List (List ℕ)
pieces = (0 ∷ 160 ∷ []) ∷ (0 ∷ 4 ∷ []) ∷ []

receive_message-reply_example :
    (t : Session) × (receive_message session (map received pieces) ≡ some (ok t tt))
    × (t.header ≡ deserialize (joined pieces))
    × (fence_checked t ≡ ok t true)
unfolding deserialize code_of
receive_message-reply_example =
    receive_message-reply session pieces true (omega arith, (omega arith, tt)) (omega arith) refl
      refl
