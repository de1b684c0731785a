-- ===== src/Tests/Requests.antt =====
-- Examples for Client.cpp and ClientParameters.cpp: the client program, from its arguments to its end.
use universal_fencing_hub.Base.{
  ℕ, ◌≡◌, refl, inl, inr, true, false, List, [], ◌∷◌, ◌++◌, Option, none, some, arith, replicate,
  length, ltb, if◌then◌else◌, map, ◌<◌,
}
use universal_fencing_hub.CharBuffer.Plain.{Plain, plain_buffer}
use universal_fencing_hub.Outcome.{ok, throw, range_exception}
use universal_fencing_hub.MsgHeader.{MsgType, deserialize, is_msg_type}
use universal_fencing_hub.Protocol.{write_field}
use universal_fencing_hub.NetClient.{received, sent}
use universal_fencing_hub.Arguments.{Entry, process_argument}
use universal_fencing_hub.Arguments.Table.{table_map}
use universal_fencing_hub.SocketAddress.{pos, proto_ipv4, init_socket_address}
use universal_fencing_hub.ClientConnector.{check_connection, request_off, fence_action_impl}
use universal_fencing_hub.Parameters.Client.{
  key_action, key_protocol, key_ip_address, key_tcp_port, key_nodename, key_secret, action_off,
  action_monitor, ended, unended, read_parameters,
}
use universal_fencing_hub.Parameters.Client.Reading.{read_parameters-unended}
use universal_fencing_hub.Client.{ExitCode, Network, dispatch_action, check_server_connection}
use universal_fencing_hub.Client.Safety.{Received, dispatch_action-fences, dispatch_action-checks}
use universal_fencing_hub.Tests.Clients.{node, pass}

abbrev text : List ℕ → Plain
text bytes = record { bytes = bytes; room = 64 }

abbrev given : List ℕ → Entry Plain
given bytes = record { value = text bytes; required = true; present = true }

abbrev arguments : List ℕ → List (List ℕ × Entry Plain)
arguments action =
    (key_action, given action)
    ∷ (key_protocol, given proto_ipv4)
    ∷ (key_ip_address, given (49 ∷ []))
    ∷ (key_tcp_port, given (56 ∷ 48 ∷ []))
    ∷ (key_nodename, given node)
    ∷ (key_secret, given pass)
    ∷ []

-- A server that gives this reply.
abbrev replying : List ℕ → Network
replying reply = record {
  parse = λ _. some 80;
  inet_pton = λ _ _. (pos 1, 127 ∷ 0 ∷ 0 ∷ 1 ∷ []);
  connecting = record { socket = some 4; inet_pton_rc = pos 1; bound = true; failure = none };
  writes = sent 4 ∷ sent 22 ∷ [];
  reads = received reply ∷ [];
  memory = replicate 1024 0;
}

monitored :
    dispatch_action Plain
      (replying (0 ∷ 1 ∷ 0 ∷ 4 ∷ []))
      (arguments action_monitor)
      (text action_monitor)
    ≡ some (ok (arguments action_monitor) ExitCode.fencing_success)
unfolding dispatch_action check_server_connection init_socket_address check_connection deserialize
    is_msg_type
monitored = refl

fenced :
    dispatch_action Plain (replying (0 ∷ 160 ∷ 0 ∷ 4 ∷ [])) (arguments action_off) (text action_off)
    ≡ some (ok (arguments action_off) ExitCode.fencing_success)
unfolding dispatch_action init_socket_address request_off fence_action_impl write_field deserialize
    is_msg_type
fenced = refl

dispatch_action-checks_example : Received (received (0 ∷ 1 ∷ 0 ∷ 4 ∷ []) ∷ []) MsgType.echo_reply
dispatch_action-checks_example =
    dispatch_action-checks Plain (replying (0 ∷ 1 ∷ 0 ∷ 4 ∷ [])) (arguments action_monitor)
      (arguments action_monitor) (text action_monitor) (inr (inl refl)) monitored

dispatch_action-fences_example :
    Received (received (0 ∷ 160 ∷ 0 ∷ 4 ∷ []) ∷ []) MsgType.fence_success
dispatch_action-fences_example =
    dispatch_action-fences Plain (replying (0 ∷ 160 ∷ 0 ∷ 4 ∷ [])) (arguments action_off)
      (arguments action_off) (text action_off) (inl refl) fenced

-- The CharBuffer's constructor and its assignment of a C string.
abbrev pub new_buffer : ℕ → Plain
new_buffer room = record { bytes = []; room = room }

abbrev pub assign_c_str : Plain → List ℕ → Option Plain
assign_c_str b bytes = if ltb b.room (length bytes) then none else some (record b { bytes = bytes })

assign_c_str-long : (b : Plain) (long : List ℕ) → b.room < length long → assign_c_str b long ≡ none
assign_c_str-long b long h = ground arith

-- The first line gives `K` its value, and the second, which no newline ends, gives one to `L`.
abbrev unset : Entry Plain
unset = record { value = text []; required = false; present = false }

abbrev set_to : List ℕ → Entry Plain
set_to bytes = record { value = text bytes; required = false; present = true }

abbrev two_unset : List (List ℕ × Entry Plain)
two_unset = (75 ∷ [], unset) ∷ (76 ∷ [], unset) ∷ []

abbrev one_set : List (List ℕ × Entry Plain)
one_set = (75 ∷ [], set_to (65 ∷ [])) ∷ (76 ∷ [], unset) ∷ []

first_line :
    read_parameters new_buffer assign_c_str two_unset (map ended ((75 ∷ b'=' ∷ 65 ∷ []) ∷ []))
    ≡ ok one_set tt
unfolding read_parameters process_argument
first_line = refl

read_parameters-unended_example :
    read_parameters new_buffer assign_c_str two_unset
      (map ended ((75 ∷ b'=' ∷ 65 ∷ []) ∷ []) ++ unended (76 ∷ b'=' ∷ 66 ∷ []) ∷ [])
    ≡ throw one_set range_exception
read_parameters-unended_example =
    read_parameters-unended new_buffer assign_c_str (76 ∷ b'=' ∷ 66 ∷ []) (λ capacity. refl)
      assign_c_str-long refl (omega arith) ((75 ∷ b'=' ∷ 65 ∷ []) ∷ []) two_unset one_set first_line
