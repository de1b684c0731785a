-- ===== src/ClientConnector.antt =====
-- ClientConnector.h and ClientConnector.cpp: the client's side of the connection. The socket blocks; what
-- the calls of send and recv return is an argument, a list with one entry for each call. The loops
-- end as the code's do, so `none` says that a loop still runs when the calls are used up.
pub mod Request
pub mod Transfer
pub mod Waiting
pub mod Delivery
pub mod Connecting
pub mod Replying
use universal_fencing_hub.Base.{
  ℕ, ◌+◌, ◌-◌, ◌%◌, ◌^◌, Bool, true, false, List, [], ◌∷◌, ◌++◌, Option, none, some, ltb, leb,
  if◌then◌else◌, ◌==◌, length, min, max, slice, replicate, write_at,
}
use universal_fencing_hub.CharBuffer.{CharBuffer, c_str}
use universal_fencing_hub.Outcome.{
  Outcome, ok, throw, Exception, os_exception, protocol_exception, OsError,
}
use universal_fencing_hub.MsgHeader.{
  MsgHeader, MsgType, header_size, cleared, set_msg_type, is_msg_type, serialize, deserialize,
}
use universal_fencing_hub.NetClient.{
  Fd, RecvResult, received, recv_failed, SendResult, sent, would_block, send_failed,
}
use universal_fencing_hub.Protocol.{write_field, key_value_split_seq, nodename_key, secret_key}

-- ClientConnector::IO_BUFFER_SIZE
abbrev pub buffer_size : ℕ
buffer_size = 1024

-- `gone` is what send has taken, in its order.
pub record Session : Type 0 where
  pub socket_fd : Fd
  pub header : MsgHeader
  pub io_buffer : List ℕ
  pub gone : List ℕ

abbrev pub Calls : Type 0 → Type 0
Calls A = Option (Outcome Session A)

unfoldable pub disconnect_from_server : Session → Session
disconnect_from_server s = record s { socket_fd = none }

unfoldable pub wipe_io_buffer : Session → Session
wipe_io_buffer s = record s { io_buffer = replicate buffer_size 0 }

-- The length that send_message sends.
unfoldable pub send_length : MsgHeader → ℕ
send_length header = min (max header_size header.data_length) buffer_size

-- The loop of send_message. A call that fails closes the descriptor, and the loop goes on.
unfoldable pub send_loop : Session → ℕ → ℕ → List SendResult → Option (Session × ℕ)
unfolding disconnect_from_server
send_loop s send_len io_offset [] = if ltb io_offset send_len then none else some (s, io_offset)
send_loop s send_len io_offset (sent write_size ∷ calls) =
    let after = record s {
      gone = s.gone ++ slice s.io_buffer io_offset (io_offset + write_size);
    } in
    let rest = send_loop after send_len (io_offset + write_size) calls in
    if ltb io_offset send_len then rest else some (s, io_offset)
send_loop s send_len io_offset (would_block ∷ calls) =
    let rest = send_loop (disconnect_from_server s) send_len io_offset calls in
    if ltb io_offset send_len then rest else some (s, io_offset)
send_loop s send_len io_offset (send_failed ∷ calls) =
    let rest = send_loop (disconnect_from_server s) send_len io_offset calls in
    if ltb io_offset send_len then rest else some (s, io_offset)

-- The test behind the loop.
unfoldable pub sent_all : Option (Session × ℕ) → Calls (Unit {0})
sent_all none = none
sent_all (some (s, io_offset)) =
    if ltb io_offset s.header.data_length
    then some (throw s (os_exception OsError.io_error))
    else some (ok s tt)

unfoldable pub send_message : Session → List SendResult → Calls (Unit {0})
unfolding send_loop sent_all send_length
send_message s calls = sent_all (
    send_loop (record s { io_buffer = serialize s.header s.io_buffer }) (send_length s.header) 0
      calls)

-- The state of the loop of receive_message.
pub record Receiving : Type 0 where
  pub session : Session
  pub have_header : Bool
  pub io_offset : ℕ
  pub receive_length : ℕ

-- One call of recv that gave bytes.
unfoldable pub take_bytes : Receiving → List ℕ → Receiving
take_bytes r bytes =
    let io_buffer = write_at r.session.io_buffer r.io_offset bytes in
    let io_offset = r.io_offset + length bytes in
    let header = deserialize io_buffer in
    let stored = record r {
      session = record (r.session) { io_buffer = io_buffer };
      io_offset = io_offset;
    } in
    if r.have_header
    then stored
    else (if leb header_size io_offset
        then record {
          session = record (r.session) { io_buffer = io_buffer; header = header };
          have_header = true;
          io_offset = io_offset;
          receive_length = min header.data_length buffer_size;
        }
        else stored)

unfoldable pub recv_call : Receiving → RecvResult → Receiving
unfolding take_bytes disconnect_from_server
recv_call r recv_failed = record r { session = disconnect_from_server r.session }
recv_call r (received bytes) = if ltb 0 (length bytes) then take_bytes r bytes else r

unfoldable pub receive_loop : Receiving → List RecvResult → Option Receiving
unfolding recv_call
receive_loop r [] = if ltb r.io_offset r.receive_length then none else some r
receive_loop r (result ∷ calls) =
    let rest = receive_loop (recv_call r result) calls in
    if ltb r.io_offset r.receive_length then rest else some r

-- The test behind that loop.
unfoldable pub received_all : Option Receiving → Calls (Unit {0})
received_all none = none
received_all (some r) =
    if r.have_header
    then (if ltb r.io_offset r.session.header.data_length
        then some (throw r.session (os_exception OsError.io_error))
        else some (ok r.session tt))
    else some (throw r.session (os_exception OsError.io_error))

unfoldable pub begin_receive : Session → Receiving
unfolding wipe_io_buffer
begin_receive s = record {
  session = wipe_io_buffer (record s { header = cleared });
  have_header = false;
  io_offset = 0;
  receive_length = header_size;
}

unfoldable pub receive_message : Session → List RecvResult → Calls (Unit {0})
unfolding begin_receive receive_loop received_all
receive_message s calls = received_all (receive_loop (begin_receive s) calls)

-- A message sent, and the reply received, with the check of the reply's type behind it.
unfoldable pub exchange :
    {A : Type 0}
    → (Session → Outcome Session A)
    → Session
    → List SendResult
    → List RecvResult
    → Calls A
unfolding send_message receive_message
exchange check s writes reads = elim (send_message s writes) [
  | none ↦ none
  | some (throw s1 e) ↦ some (throw s1 e)
  | some (ok s1 _) ↦ elim (receive_message s1 reads) [
    | none ↦ none
    | some (throw s2 e) ↦ some (throw s2 e)
    | some (ok s2 _) ↦ some (check s2)
  ]
]

unfoldable pub echo_checked : Session → Outcome Session Bool
echo_checked s = ok s (is_msg_type s.header MsgType.echo_reply)

unfoldable pub check_connection : Session → List SendResult → List RecvResult → Calls Bool
unfolding exchange echo_checked
check_connection s writes reads =
    exchange echo_checked
      (record s {
        header = record (set_msg_type s.header MsgType.echo_request) { data_length = header_size };
      })
      writes reads

-- nodename_param and secret_param
unfoldable pub parameter : List ℕ → List ℕ → List ℕ
parameter key value = (key ++ c_str key_value_split_seq) ++ c_str value

-- The part of fence_action_impl that composes the request.
unfoldable pub second_field : Session → Outcome (List ℕ × ℕ) (Unit {0}) → Outcome Session (Unit {0})
second_field s (ok (io_buffer, offset) _) =
    ok
      (record s {
        io_buffer = io_buffer;
        header = record (s.header) { data_length = offset % 2 ^ 16 };
      })
      tt
second_field s (throw (io_buffer, offset) e) = throw (record s { io_buffer = io_buffer }) e

unfoldable pub first_field :
    Session → List ℕ → Outcome (List ℕ × ℕ) (Unit {0}) → Outcome Session (Unit {0})
unfolding second_field
first_field s secret_param (ok (io_buffer, offset) _) =
    second_field s (write_field io_buffer buffer_size offset secret_param)
first_field s secret_param (throw (io_buffer, offset) e) =
    throw (record s { io_buffer = io_buffer }) e

unfoldable pub compose : Session → MsgType → List ℕ → List ℕ → Outcome Session (Unit {0})
unfolding first_field parameter
compose s msg_type nodename secret =
    first_field (record s { header = set_msg_type s.header msg_type }) (parameter secret_key secret)
      (write_field s.io_buffer buffer_size header_size (parameter nodename_key nodename))

unfoldable pub fence_checked : Session → Outcome Session Bool
fence_checked s =
    if is_msg_type s.header MsgType.fence_success
    then ok s true
    else (if is_msg_type s.header MsgType.fence_fail
        then ok s false
        else throw s protocol_exception)

module _ {B : Type 0} ⦃cb : CharBuffer B⦄ where
  unfoldable pub fence_action_impl :
      Session → MsgType → B → B → List SendResult → List RecvResult → Calls Bool
  unfolding compose exchange fence_checked
  fence_action_impl s msg_type nodename secret writes reads =
      elim (compose s msg_type (cb.contents nodename) (cb.contents secret)) [
        | throw s1 e ↦ some (throw s1 e)
        | ok s1 _ ↦ exchange fence_checked s1 writes reads
      ]

  -- fence_action_off and its two siblings
  unfoldable pub request_off : Session → B → B → List SendResult → List RecvResult → Calls Bool
  request_off s = fence_action_impl s MsgType.fence_off

  unfoldable pub request_on : Session → B → B → List SendResult → List RecvResult → Calls Bool
  request_on s = fence_action_impl s MsgType.fence_on

  unfoldable pub request_reboot : Session → B → B → List SendResult → List RecvResult → Calls Bool
  request_reboot s = fence_action_impl s MsgType.fence_reboot
