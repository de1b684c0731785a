-- ===== src/Requests/Phases.antt =====
-- ServerConnector.cpp, process_client_message: it ends, and in which states it leaves a client.
use universal_fencing_hub.Base.{
  ℕ, ◌+◌, ◌<◌, ◌≡◌, refl, ◌∙◌, ◌⊎◌, inl, inr, Bool, Option, none, some, ltb, Bool-cases, length,
  length-replicate,
}
use universal_fencing_hub.CharBuffer.{CharBuffer}
use universal_fencing_hub.Outcome.{
  Outcome, ok, throw, protocol_exception, range_exception, state_of,
}
use universal_fencing_hub.MsgHeader.{MsgType, header_size}
use universal_fencing_hub.NetClient.{NetClient, IoOp, Phase, clear_io_buffer, io_buffer_size}
use universal_fencing_hub.NetClient.Sending.{HasReply}
use universal_fencing_hub.Server.{
  FenceFunctions, fence_action_off, fence_action_on, fence_action_reboot,
}
use universal_fencing_hub.Requests.{
  msg_type_of, read_fields, run_fence, finish_fence, fence_action, echo_reply, kick_out, dispatch,
  process_client_message, fence_reply,
}
use universal_fencing_hub.Requests.Fields.{SameMessage, Finished, read_fields-Finished}
use universal_fencing_hub.Requests.Raising.{Raises, LoopRaises, read_fields-Raises}

-- A reply is ready to be sent, from its first byte on.
pub record IsAnswered {B : Type 0} (c : NetClient B) : Type 0 where
  pub phase : c.current_phase ≡ Phase.send
  pub next : (c.next_phase ≡ Phase.recv) ⊎ (c.next_phase ≡ Phase.canceled)
  pub io : c.io_state ≡ IoOp.write
  pub reply : HasReply c

-- The client is answered, or it is to be dropped: it is in one of the two phases in which
-- process_action_queue closes its connection.
abbrev pub IsHandled : {B : Type 0} → NetClient B → Type 0
IsHandled c =
    IsAnswered c ⊎ (c.current_phase ≡ Phase.executing) ⊎ (c.current_phase ≡ Phase.canceled)

-- How the processing of `c` ends: by itself, or by a RangeException that leaves the client as it was, but
-- for the fields that were read.
abbrev pub Handles : {B : Type 0} → NetClient B → Option (Outcome (NetClient B) (Unit {0})) → Type 0
Handles c none = ⊥
Handles c (some (ok d _)) = IsHandled d
Handles c (some (throw d e)) =
    (e ≡ range_exception) × (d.current_phase ≡ Phase.executing) × SameMessage c d

module _ {B : Type 0} ⦃cb : CharBuffer B⦄ where
  blank-HasReply : (c : NetClient B) → HasReply (clear_io_buffer c)
  unfolding clear_io_buffer
  blank-HasReply c = record {
    capacity = length-replicate {A = ℕ} io_buffer_size 0;
    no_header = refl;
    start = refl;
  }

  echo_reply-IsAnswered : (c : NetClient B) → IsAnswered (echo_reply c)
  unfolding echo_reply clear_io_buffer
  echo_reply-IsAnswered c = record {
    phase = refl;
    next = inl refl;
    io = refl;
    reply = replied (blank-HasReply c);
  }
    where
      replied : HasReply (clear_io_buffer c) → HasReply (echo_reply c)
      replied r = record { capacity = r.capacity; no_header = refl; start = refl }

  run_fence-IsHandled :
      (fence : B → B → Bool) (c : NetClient B)
      → c.current_phase ≡ Phase.executing
      → IsHandled (run_fence fence c)
  unfolding run_fence clear_io_buffer fence_reply
  run_fence-IsHandled fence c executing =
      elim (Bool-cases (ltb 0 (length (cb.contents c.nodename)))) [
        | inl named ↦ rw named (
            inl (record {
              phase = refl;
              next = inr refl;
              io = refl;
              reply = record {
                capacity = length-replicate {A = ℕ} io_buffer_size 0;
                no_header = refl;
                start = refl;
              };
            }))
        | inr unnamed ↦ rw unnamed (inr (inl executing))
      ]

  finish_fence-Handles :
      (fence : B → B → Bool) (c : NetClient B) (r : Outcome (NetClient B) (Unit {0}))
      → c.current_phase ≡ Phase.executing
      → SameMessage c (state_of r)
      → Raises r
      → Handles c (some (finish_fence fence r))
  unfolding finish_fence
  finish_fence-Handles fence c (ok d _) executing same raises =
      run_fence-IsHandled fence d (same.current_phase ∙ executing)
  finish_fence-Handles fence c (throw d protocol_exception) executing same raises = inr (inr refl)
  finish_fence-Handles fence c (throw d range_exception) executing same raises =
      (refl, same.current_phase ∙ executing, same)
  finish_fence-Handles fence c (throw d e) executing same raises =
      absurd (elim raises [ inl h ↦ cc | inr h ↦ cc ])

  fence_action-Handles :
      (rounds : ℕ) (fence : B → B → Bool) (c : NetClient B)
      → c.current_phase ≡ Phase.executing
      → c.io_offset < header_size + rounds
      → 0 < rounds
      → Handles c (fence_action rounds fence c)
  unfolding fence_action
  fence_action-Handles rounds fence c executing enough pos =
      by_loop (read_fields rounds c header_size)
        (read_fields-Finished rounds c header_size enough pos)
        (read_fields-Raises rounds c header_size) refl
    where
      by_loop :
          (r : Option (Outcome (NetClient B) (Unit {0})))
          → Finished c r
          → LoopRaises r
          → read_fields rounds c header_size ≡ r
          → Handles c (fence_action rounds fence c)
      by_loop none f raises e = absurd f
      by_loop (some out) f raises e =
          rw (e, fence_action) (finish_fence-Handles fence c out executing f raises)

  dispatch-Handles :
      (rounds : ℕ) (plugin : FenceFunctions) (c : NetClient B) (type : Option MsgType)
      → c.current_phase ≡ Phase.executing
      → c.io_offset < header_size + rounds
      → 0 < rounds
      → Handles c (dispatch rounds plugin c type)
  unfolding dispatch kick_out
  dispatch-Handles rounds plugin c none executing enough pos = inr (inr refl)
  dispatch-Handles rounds plugin c (some MsgType.echo_request) executing enough pos =
      inl (echo_reply-IsAnswered c)
  dispatch-Handles rounds plugin c (some MsgType.version_request) executing enough pos =
      inr (inl executing)
  dispatch-Handles rounds plugin c (some MsgType.fence_off) executing enough pos =
      fence_action-Handles rounds (fence_action_off plugin) c executing enough pos
  dispatch-Handles rounds plugin c (some MsgType.fence_on) executing enough pos =
      fence_action-Handles rounds (fence_action_on plugin) c executing enough pos
  dispatch-Handles rounds plugin c (some MsgType.fence_reboot) executing enough pos =
      fence_action-Handles rounds (fence_action_reboot plugin) c executing enough pos
  dispatch-Handles rounds plugin c (some MsgType.fence_success) executing enough pos =
      inr (inr refl)
  dispatch-Handles rounds plugin c (some MsgType.fence_fail) executing enough pos = inr (inr refl)
  dispatch-Handles rounds plugin c (some MsgType.echo_reply) executing enough pos = inr (inr refl)

  -- With more rounds than the message has bytes, process_client_message on an executing client ends, in
  -- one of three ways. The client has a reply to send, whose buffer, offset and phases are set for
  -- send_message; or it is in phase EXECUTING or CANCELED, in which process_action_queue closes its
  -- connection; or a RangeException, and no other exception, leaves it in phase EXECUTING, with its buffer,
  -- its offset, its descriptor and its I/O state as they were.
  pub process_client_message-Handles :
      (rounds : ℕ) (plugin : FenceFunctions) (c : NetClient B)
      → c.current_phase ≡ Phase.executing
      → c.io_offset < header_size + rounds
      → 0 < rounds
      → Handles c (process_client_message rounds plugin c)
  unfolding process_client_message
  process_client_message-Handles rounds plugin c executing enough pos =
      dispatch-Handles rounds plugin c (msg_type_of c.header.msg_type) executing enough pos
