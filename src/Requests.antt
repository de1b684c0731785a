-- ===== src/Requests.antt =====
-- ServerConnector.cpp, process_client_message and fence_action: what a worker thread does with a
-- message that has come, and the reply that it prepares.
pub mod Fields
pub mod Raising
pub mod Fence
pub mod Phases
pub mod Replies
use universal_fencing_hub.Base.{
  ℕ, zero, suc, Bool, true, false, List, Option, none, some, ltb, if◌then◌else◌, length, ◌==◌,
}
use universal_fencing_hub.MsgHeader.{
  MsgHeader, MsgType, code_of, header_size, cleared, set_msg_type,
}
use universal_fencing_hub.CharBuffer.{CharBuffer}
use universal_fencing_hub.Outcome.{
  Outcome, ok, throw, Exception, inet_exception, os_exception, protocol_exception, range_exception,
  arguments_exception, client_exception, bad_alloc,
}
use universal_fencing_hub.Protocol.{read_field, split_key_value_pair, nodename_key, secret_key}
use universal_fencing_hub.NetClient.{NetClient, IoOp, Phase, clear_io_buffer}
use universal_fencing_hub.Server.{
  FenceFunctions, fence_action_off, fence_action_on, fence_action_reboot,
}

-- The enumerator that a 16 bit code is cast to; `none` is a value without one.
unfoldable pub msg_type_of : ℕ → Option MsgType
msg_type_of code =
    if code == 0x0
    then some MsgType.echo_request
    else (if code == 0x1
        then some MsgType.echo_reply
        else (if code == 0x2
            then some MsgType.version_request
            else (if code == 0x81
                then some MsgType.fence_off
                else (if code == 0x82
                    then some MsgType.fence_on
                    else (if code == 0x83
                        then some MsgType.fence_reboot
                        else (if code == 0xA0
                            then some MsgType.fence_success
                            else (if code == 0xA1 then some MsgType.fence_fail else none)))))))

module _ {B : Type 0} ⦃cb : CharBuffer B⦄ where
  -- The assignment of the value to the field that the key names. `operator=` may throw a
  -- RangeException.
  unfoldable pub store_field : NetClient B → Outcome (NetClient B) (Unit {0})
  store_field c =
      if cb.equals c.key_buffer nodename_key
      then elim (cb.assign c.nodename c.value_buffer) [
        | none ↦ throw c range_exception
        | some nodename ↦ ok (record c { nodename = nodename }) tt
      ]
      else (if cb.equals c.key_buffer secret_key
          then elim (cb.assign c.secret c.value_buffer) [
            | none ↦ throw c range_exception
            | some secret ↦ ok (record c { secret = secret }) tt
          ]
          else ok c tt)

  -- One round of the loop over the fields, on the client and the offset: read a field, split it, and
  -- store the value.
  unfoldable pub value_stored : ℕ → Outcome (NetClient B) (Unit {0}) → Outcome (NetClient B) ℕ
  value_stored offset (ok c _) = ok c offset
  value_stored offset (throw c e) = throw c e

  unfoldable pub pair_split : NetClient B → ℕ → Outcome (B × B) (Unit {0}) → Outcome (NetClient B) ℕ
  unfolding value_stored
  pair_split c offset (ok (key, value) _) =
      value_stored offset (store_field (record c { key_buffer = key; value_buffer = value }))
  pair_split c offset (throw (key, value) e) =
      throw (record c { key_buffer = key; value_buffer = value }) e

  unfoldable pub field_read : NetClient B → Outcome (ℕ × B) Bool → Outcome (NetClient B) ℕ
  unfolding pair_split
  field_read c (ok (offset, field) _) =
      pair_split c offset (split_key_value_pair field c.value_buffer)
  field_read c (throw (offset, field) e) = throw (record c { key_buffer = field }) e

  unfoldable pub next_field : NetClient B → ℕ → Outcome (NetClient B) ℕ
  unfolding field_read
  next_field c field_offset =
      field_read c (read_field c.io_buffer c.io_offset field_offset c.key_buffer)

  -- The loop over the fields of a fencing request; `none` means that its rounds ran out.
  unfoldable pub read_fields : ℕ → NetClient B → ℕ → Option (Outcome (NetClient B) (Unit {0}))
  read_fields zero c field_offset = none
  read_fields (suc rounds) c field_offset =
      let round : Option (Outcome (NetClient B) (Unit {0})) = elim (next_field c field_offset) [
        | throw c' e ↦ some (throw c' e)
        | ok c' offset ↦ read_fields rounds c' offset
      ] in
      if ltb field_offset c.io_offset then round else some (ok c tt)

  -- The reply to a fencing request that named a node.
  unfoldable pub fence_reply : NetClient B → Bool → NetClient B
  unfolding set_msg_type
  fence_reply c success_flag = record c {
    header = record {
      msg_type = if success_flag then code_of MsgType.fence_success else code_of MsgType.fence_fail;
      data_length = header_size;
    };
    current_phase = Phase.send;
    next_phase = Phase.canceled;
    io_state = IoOp.write;
  }

  -- What fence_action does once the fields are read.
  unfoldable pub run_fence : (B → B → Bool) → NetClient B → NetClient B
  unfolding clear_io_buffer fence_reply
  run_fence fence c =
      let blank = record (clear_io_buffer c) { header = cleared } in
      if ltb 0 (length (cb.contents c.nodename))
      then fence_reply blank (fence c.nodename c.secret)
      else blank

  -- The end of fence_action, which catches a ProtocolException and no other.
  unfoldable pub finish_fence :
      (B → B → Bool) → Outcome (NetClient B) (Unit {0}) → Outcome (NetClient B) (Unit {0})
  unfolding run_fence
  finish_fence fence (ok c _) = ok (run_fence fence c) tt
  finish_fence fence (throw c protocol_exception) =
      ok (record c { current_phase = Phase.canceled; io_state = IoOp.noop }) tt
  finish_fence fence (throw c e) = throw c e

  unfoldable pub fence_action :
      ℕ → (B → B → Bool) → NetClient B → Option (Outcome (NetClient B) (Unit {0}))
  unfolding read_fields finish_fence
  fence_action rounds fence c = elim (read_fields rounds c header_size) [
    | none ↦ none
    | some read ↦ some (finish_fence fence read)
  ]

  unfoldable pub echo_reply : NetClient B → NetClient B
  unfolding clear_io_buffer
  echo_reply c = record (clear_io_buffer c) {
    header = record { msg_type = code_of MsgType.echo_reply; data_length = header_size };
    current_phase = Phase.send;
    next_phase = Phase.recv;
    io_state = IoOp.write;
  }

  -- A message type that is no request: the client is kicked out.
  unfoldable pub kick_out : NetClient B → NetClient B
  kick_out c = record c { current_phase = Phase.canceled }

  -- process_client_message, by the message type of the header.
  unfoldable pub dispatch :
      ℕ → FenceFunctions → NetClient B → Option MsgType → Option (Outcome (NetClient B) (Unit {0}))
  unfolding echo_reply kick_out fence_action
  dispatch rounds plugin c (some MsgType.echo_request) = some (ok (echo_reply c) tt)
  dispatch rounds plugin c (some MsgType.version_request) = some (ok c tt)
  dispatch rounds plugin c (some MsgType.fence_off) =
      fence_action rounds (fence_action_off plugin) c
  dispatch rounds plugin c (some MsgType.fence_on) = fence_action rounds (fence_action_on plugin) c
  dispatch rounds plugin c (some MsgType.fence_reboot) =
      fence_action rounds (fence_action_reboot plugin) c
  dispatch rounds plugin c (some MsgType.fence_success) = some (ok (kick_out c) tt)
  dispatch rounds plugin c (some MsgType.fence_fail) = some (ok (kick_out c) tt)
  dispatch rounds plugin c (some MsgType.echo_reply) = some (ok (kick_out c) tt)
  dispatch rounds plugin c none = some (ok (kick_out c) tt)

  unfoldable pub process_client_message :
      ℕ → FenceFunctions → NetClient B → Option (Outcome (NetClient B) (Unit {0}))
  unfolding dispatch msg_type_of
  process_client_message rounds plugin c = dispatch rounds plugin c (msg_type_of c.header.msg_type)
