-- ===== src/ClientConnector/Waiting.antt =====
-- ClientConnector.cpp, the loops of send_message and receive_message on a connection that is broken.
use universal_fencing_hub.Base.{
  ℕ, zero, suc, ◌<◌, ◌≡◌, refl, ap, [], ◌∷◌, none, arith, lt→ltb, replicate, min, max,
}
use universal_fencing_hub.MsgHeader.{header_size, serialize}
use universal_fencing_hub.NetClient.{send_failed, RecvResult, received, recv_failed}
use universal_fencing_hub.ClientConnector.{
  Session, Receiving, send_length, send_loop, sent_all, send_message, receive_loop, recv_call,
  received_all, receive_message, begin_receive, disconnect_from_server,
}

send_loop-failed :
    (rounds : ℕ) (s : Session) (send_len io_offset : ℕ)
    → io_offset < send_len
    → send_loop s send_len io_offset (replicate rounds send_failed) ≡ none
unfolding send_loop
send_loop-failed zero s len offset h = rw (lt→ltb offset len h)
send_loop-failed (suc rounds) s len offset h =
    rw (lt→ltb offset len h) (send_loop-failed rounds (disconnect_from_server s) len offset h)

-- When send fails, each time that it is called, send_message does not return, however often it has
-- called send.
pub send_message-failed :
    (rounds : ℕ) (s : Session) → send_message s (replicate rounds send_failed) ≡ none
unfolding send_message sent_all send_length
send_message-failed rounds s = ap sent_all (
    send_loop-failed rounds (record s { io_buffer = serialize s.header s.io_buffer })
      (min (max header_size s.header.data_length) 1024) 0 (omega arith))

-- A call of recv that brings nothing.
abbrev pub BringsNothing : RecvResult → Type 0
BringsNothing (received []) = Unit {0}
BringsNothing (received (byte ∷ bytes)) = ⊥
BringsNothing recv_failed = Unit {0}

waits_again :
    (r : Receiving) (result : RecvResult)
    → BringsNothing result
    → ((recv_call r result).io_offset ≡ r.io_offset)
      × ((recv_call r result).receive_length ≡ r.receive_length)
unfolding recv_call
waits_again r (received []) h = (refl, refl)
waits_again r (received (byte ∷ bytes)) h = absurd h
waits_again r recv_failed h = (refl, refl)

receive_loop-nothing :
    (rounds : ℕ) (result : RecvResult) (r : Receiving)
    → BringsNothing result
    → r.io_offset < r.receive_length
    → receive_loop r (replicate rounds result) ≡ none
unfolding receive_loop
receive_loop-nothing zero result r h more = rw (lt→ltb r.io_offset r.receive_length more)
receive_loop-nothing (suc rounds) result r h more =
    let same = waits_again r result h in
    rw (lt→ltb r.io_offset r.receive_length more)
      (receive_loop-nothing rounds result (recv_call r result) h (omega (arith, same.0, same.1)))

-- When recv fails, or is at the end of the stream because the server has closed the connection, each
-- time that it is called, receive_message does not return, however often it has called recv.
pub receive_message-nothing :
    (rounds : ℕ) (result : RecvResult) (s : Session)
    → BringsNothing result
    → receive_message s (replicate rounds result) ≡ none
unfolding receive_message received_all begin_receive
receive_message-nothing rounds result s h =
    ap received_all (receive_loop-nothing rounds result (begin_receive s) h (omega arith))
