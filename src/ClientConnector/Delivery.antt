-- ===== src/ClientConnector/Delivery.antt =====
-- ClientConnector.cpp and ServerConnector.cpp: a fencing request from the client's call to the plugin.
use universal_fencing_hub.Base.{
  ℕ, zero, suc, ◌^◌, ◌≤◌, ◌<◌, ◌≡◌, refl, sym, ap, ◌∙◌, List, [], ◌∷◌, ◌++◌, some, arith, length,
  length-append, take, drop, take-append, append_assoc, append-nil, min, max, le→ltb,
}
use universal_fencing_hub.CharBuffer.{CharBuffer, c_str}
use universal_fencing_hub.Outcome.{ok, state_of}
use universal_fencing_hub.MsgHeader.{
  MsgHeader, MsgType, code_of, header_size, serialize, deserialize, field_value_to_bytes,
}
use universal_fencing_hub.MsgHeader.RoundTrip.{deserialize-serialize, length-serialize}
use universal_fencing_hub.NetClient.{NetClient}
use universal_fencing_hub.NetClient.Receiving.{HasMessage, header_of, clipped}
use universal_fencing_hub.Server.{FenceFunctions}
use universal_fencing_hub.Protocol.{nodename_key, secret_key}
use universal_fencing_hub.Protocol.Fields.{encoded}
use universal_fencing_hub.Requests.{process_client_message}
use universal_fencing_hub.Requests.Fence.{pair_field, fence_message, message_size, HasRoom}
use universal_fencing_hub.Requests.Replies.{
  Action, request_type, plugin_call, Replies, process_client_message-Replies,
}
use universal_fencing_hub.ClientConnector.{Session, buffer_size, send_length, compose}
use universal_fencing_hub.ClientConnector.Request.{compose_lem, composed}

-- The bytes that send_message sends.
abbrev pub request_bytes : Session → List ℕ
request_bytes s = take (send_length s.header) (serialize s.header s.io_buffer)

take-drop : (xs : List ℕ) (n : ℕ) → take n xs ++ drop n xs ≡ xs
take-drop xs zero = refl
take-drop [] (suc n) = refl
take-drop (x ∷ xs) (suc n) = ap (λ t. x ∷ t) (take-drop xs n)

serialize-append :
    (h : MsgHeader) (head rest : List ℕ)
    → length head ≡ header_size
    → serialize h (head ++ rest) ≡ serialize h head ++ rest
unfolding serialize field_value_to_bytes
serialize-append h [] rest e = absurd (omega arith)
serialize-append h (a ∷ []) rest e = absurd (omega arith)
serialize-append h (a ∷ b ∷ []) rest e = absurd (omega arith)
serialize-append h (a ∷ b ∷ c ∷ []) rest e = absurd (omega arith)
serialize-append h (a ∷ b ∷ c ∷ d ∷ []) rest e = refl
serialize-append h (a ∷ b ∷ c ∷ d ∷ x ∷ xs) rest e = absurd (omega arith)

fence_message-append :
    (head node pass rest : List ℕ)
    → fence_message head node pass rest ≡ fence_message head node pass [] ++ rest
fence_message-append head node pass rest =
    let named = encoded (pair_field nodename_key node) in
    let secured = encoded (pair_field secret_key pass) in
    ap (λ t. head ++ (named ++ (t ++ rest))) (sym (append-nil secured))
    ∙ ap (λ t. head ++ (named ++ t)) refl
    ∙ ap (λ t. head ++ t) (sym (append_assoc named (secured ++ []) rest))
    ∙ sym (append_assoc head (named ++ (secured ++ [])) rest)

length-fence_message :
    (head node pass : List ℕ)
    → length head ≡ header_size
    → length (fence_message head node pass []) ≡ message_size node pass
length-fence_message head node pass four =
    let named = encoded (pair_field nodename_key node) in
    let secured = encoded (pair_field secret_key pass) in
    omega (
      arith,
      four,
      length-append head (named ++ (secured ++ [])),
      length-append named (secured ++ []),
      length-append secured [],
    )

code_of-small : (m : MsgType) → code_of m < 2 ^ 16
unfolding code_of
code_of-small MsgType.echo_request = omega arith
code_of-small MsgType.echo_reply = omega arith
code_of-small MsgType.version_request = omega arith
code_of-small MsgType.fence_off = omega arith
code_of-small MsgType.fence_on = omega arith
code_of-small MsgType.fence_reboot = omega arith
code_of-small MsgType.fence_success = omega arith
code_of-small MsgType.fence_fail = omega arith

-- What send_message sends of a composed request: the fields behind a header that reads as the
-- action's message type and the request's size.
request_bytes-composed :
    (s : Session) (m : MsgType) (head node pass rest : List ℕ)
    → length head ≡ header_size
    → message_size node pass ≤ buffer_size
    → (front : List ℕ) × (request_bytes (composed s m head node pass rest)
        ≡ fence_message front node pass [])
      × (length front ≡ header_size)
      × (deserialize (fence_message front node pass [])
          ≡ record { msg_type = code_of m; data_length = message_size node pass })
unfolding send_length
request_bytes-composed s m head node pass rest four room =
    let h : MsgHeader = record { msg_type = code_of m; data_length = message_size node pass } in
    let body =
      encoded (pair_field nodename_key node) ++ (encoded (pair_field secret_key pass) ++ rest) in
    let front = serialize h head in
    let front_four = length-serialize h head ∙ four in
    let written : serialize h (fence_message head node pass rest)
        ≡ fence_message front node pass [] ++ rest =
      serialize-append h head body four ∙ fence_message-append front node pass rest in
    let size : min (max header_size (message_size node pass)) buffer_size
        ≡ length (fence_message front node pass []) =
      omega (arith, length-fence_message front node pass front_four) in
    (
      front,
      ap (λ t. take t (serialize h (fence_message head node pass rest))) size
          ∙ ap (take (length (fence_message front node pass []))) written
          ∙ take-append (fence_message front node pass []) rest,
      front_four,
      ap deserialize (
            sym (
              serialize-append h head
                (encoded (pair_field nodename_key node)
                  ++ (encoded (pair_field secret_key pass) ++ []))
                four))
          ∙ (deserialize-serialize h (fence_message head node pass []) (code_of-small m)
              (omega arith) (omega (arith, length-fence_message head node pass four))).0,
    )

module _ {B : Type 0} ⦃cb : CharBuffer B⦄ where
  -- For a name that is not empty and a secret, both without a NUL, that fit the client's buffer
  -- of 1024 bytes and the buffers of the server's client: when compose has made the request, and
  -- the bytes that send_message sends of it are the message that has come to the server,
  -- process_client_message returns, the plugin's function for the client's action was called with
  -- that name, and the reply says what that function returned.
  pub compose-Replies :
      (plugin : FenceFunctions) (action : Action) (s t : Session) (c : NetClient B)
      (node pass : List ℕ) (rounds : ℕ)
      → length s.io_buffer ≡ buffer_size
      → c_str node ≡ node
      → c_str pass ≡ pass
      → message_size node pass ≤ buffer_size
      → 0 < length node
      → HasRoom c node pass
      → compose s (request_type action) node pass ≡ ok t tt
      → HasMessage c (request_bytes t)
      → (d : NetClient B) × (process_client_message (suc (suc (suc rounds))) plugin c
          ≡ some (ok d tt))
        × Replies d (plugin_call plugin action node)
  compose-Replies plugin action s t c node pass rounds full plain plain' room named roomy made m =
      let (head, rest, made', four) =
        compose_lem s (request_type action) node pass full plain plain' room in
      let (front, bytes, front_four, header) =
        request_bytes-composed s (request_type action) head node pass rest four room in
      let arrived = ap request_bytes (ap state_of (sym made ∙ made')) ∙ bytes in
      let read = m.header ∙ ap header_of arrived ∙ ap clipped header ∙ small in
      let size : c.io_offset ≡ message_size node pass =
        omega (arith, m.whole, ap (λ (t : MsgHeader). t.data_length) read) in
      let behind = drop c.io_offset c.io_buffer in
      let buffer : c.io_buffer ≡ fence_message front node pass behind =
        sym (take-drop c.io_buffer c.io_offset)
        ∙ ap (λ t. t ++ behind) (m.so_far ∙ arrived)
        ∙ sym (fence_message-append front node pass behind) in
      process_client_message-Replies plugin action c front node pass behind rounds buffer front_four
        (ap (λ (t : MsgHeader). t.msg_type) read) size (omega arith) roomy named
    where
      asked : MsgHeader
      asked = record {
        msg_type = code_of (request_type action);
        data_length = message_size node pass;
      }

      small : clipped asked ≡ asked
      small = rw (le→ltb 1024 (message_size node pass) room)
