-- ===== src/Requests/Replies.antt =====
-- ServerConnector.cpp, Server.cpp: a fencing request from its bytes to the plugin and to the reply.
use universal_fencing_hub.Base.{
  ℕ, suc, ◌^◌, ◌<◌, ◌≡◌, refl, ap, ◌∙◌, Bool, true, false, List, some, arith, if◌then◌else◌, length,
  lt→ltb,
}
use universal_fencing_hub.CharBuffer.{CharBuffer}
use universal_fencing_hub.Outcome.{ok}
use universal_fencing_hub.MsgHeader.{MsgType, code_of, header_size}
use universal_fencing_hub.NetClient.{NetClient, IoOp, Phase, clear_io_buffer}
use universal_fencing_hub.Server.{
  FenceFunctions, fence_action_off, fence_action_on, fence_action_reboot,
}
use universal_fencing_hub.Requests.{
  msg_type_of, read_fields, run_fence, finish_fence, fence_action, dispatch, process_client_message,
  fence_reply,
}
use universal_fencing_hub.Requests.Fence.{fence_message, message_size, HasRoom, read_fields-message}

-- The three fencing actions, as the protocol and the plugin name them.
pub data Action : Type 0 where
  off on reboot : Action

unfoldable pub request_type : Action → MsgType
request_type Action.off = MsgType.fence_off
request_type Action.on = MsgType.fence_on
request_type Action.reboot = MsgType.fence_reboot

unfoldable pub plugin_call : FenceFunctions → Action → List ℕ → Bool
plugin_call plugin Action.off = plugin.ufh_fence_off
plugin_call plugin Action.on = plugin.ufh_fence_on
plugin_call plugin Action.reboot = plugin.ufh_fence_reboot

abbrev pub reply_type : Bool → MsgType
reply_type success_flag = if success_flag then MsgType.fence_success else MsgType.fence_fail

msg_type_of-request :
    (action : Action) → msg_type_of (code_of (request_type action)) ≡ some (request_type action)
unfolding msg_type_of code_of request_type
msg_type_of-request Action.off = refl
msg_type_of-request Action.on = refl
msg_type_of-request Action.reboot = refl

module _ {B : Type 0} ⦃cb : CharBuffer B⦄ where
  -- The reply to an action: success or failure and nothing more, and then the connection ends.
  pub record Replies (c : NetClient B) (success_flag : Bool) : Type 0 where
    pub msg_type : c.header.msg_type ≡ code_of (reply_type success_flag)
    pub data_length : c.header.data_length ≡ header_size
    pub phase : c.current_phase ≡ Phase.send
    pub next : c.next_phase ≡ Phase.canceled
    pub io : c.io_state ≡ IoOp.write

  run_fence-Replies :
      (fence : B → B → Bool) (c : NetClient B)
      → 0 < length (cb.contents c.nodename)
      → Replies (run_fence fence c) (fence c.nodename c.secret)
  unfolding run_fence clear_io_buffer fence_reply
  run_fence-Replies fence c named = rw (lt→ltb _ _ named) (record {
    msg_type = by_flag (fence c.nodename c.secret);
    data_length = refl;
    phase = refl;
    next = refl;
    io = refl;
  })
    where
      by_flag :
          (b : Bool)
          → (if b then code_of MsgType.fence_success else code_of MsgType.fence_fail)
            ≡ code_of (reply_type b)
      by_flag true = refl
      by_flag false = refl

  -- Each action is dispatched to its method of Server, which calls the plugin's function.
  dispatch-action :
      (rounds : ℕ) (plugin : FenceFunctions) (c : NetClient B) (action : Action)
      → (fence : B → B → Bool) × (dispatch rounds plugin c (some (request_type action))
          ≡ fence_action rounds fence c)
        × ((n s : B) → fence n s ≡ plugin_call plugin action (cb.contents n))
  unfolding dispatch request_type plugin_call fence_action_off fence_action_on fence_action_reboot
  dispatch-action rounds plugin c Action.off = (fence_action_off plugin, refl, λ n s. refl)
  dispatch-action rounds plugin c Action.on = (fence_action_on plugin, refl, λ n s. refl)
  dispatch-action rounds plugin c Action.reboot = (fence_action_reboot plugin, refl, λ n s. refl)

  fence_action-read :
      (rounds : ℕ) (fence : B → B → Bool) (c d : NetClient B)
      → read_fields rounds c header_size ≡ some (ok d tt)
      → fence_action rounds fence c ≡ some (ok (run_fence fence d) tt)
  unfolding fence_action finish_fence
  fence_action-read rounds fence c d e = rw (e, fence_action)

  -- A request for a fencing action of less than 2 ^ 16 bytes, with a name that is not empty and a
  -- secret, for which the client's buffers have room: process_client_message returns, the
  -- plugin's function for that action is called with the bytes of the name, and what it returns
  -- decides between the two replies, after which the connection ends.
  pub process_client_message-Replies :
      (plugin : FenceFunctions) (action : Action) (c : NetClient B) (head node pass rest : List ℕ)
      (rounds : ℕ)
      → c.io_buffer ≡ fence_message head node pass rest
      → length head ≡ header_size
      → c.header.msg_type ≡ code_of (request_type action)
      → c.io_offset ≡ message_size node pass
      → message_size node pass < 2 ^ 16
      → HasRoom c node pass
      → 0 < length node
      → (d : NetClient B) × (process_client_message (suc (suc (suc rounds))) plugin c
          ≡ some (ok d tt))
        × Replies d (plugin_call plugin action node)
  unfolding process_client_message
  process_client_message-Replies plugin action c head node pass rest rounds e four type size small
        room named =
      let (d, read, name_is, pass_is, same) =
        read_fields-message c head node pass rest rounds e four size small room in
      let (fence, sent_to, calls) = dispatch-action (suc (suc (suc rounds))) plugin c action in
      let asked = ap msg_type_of type ∙ msg_type_of-request action in
      let outcome = fence_action-read (suc (suc (suc rounds))) fence c d read in
      let called = calls d.nodename d.secret ∙ ap (plugin_call plugin action) name_is in
      (
        run_fence fence d,
        ap (dispatch (suc (suc (suc rounds))) plugin c) asked ∙ sent_to ∙ outcome,
        rw (← called) (run_fence-Replies fence d (omega (arith, named, ap length name_is))),
      )
