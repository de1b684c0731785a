-- ===== src/Requests/Fence.antt =====
-- ServerConnector.cpp, fence_action, on a request as the client composes it.
use universal_fencing_hub.Base.{
  ℕ, suc, ◌+◌, ◌^◌, ◌≤◌, ◌<◌, ◌≡◌, refl, sym, ap, ◌∙◌, List, ◌∷◌, ◌++◌, some, arith, length,
  length-append, lt→ltb, le→ltb, bytes_eq, append_assoc,
}
use universal_fencing_hub.CharBuffer.{CharBuffer}
use universal_fencing_hub.Outcome.{ok}
use universal_fencing_hub.MsgHeader.{header_size}
use universal_fencing_hub.Protocol.{read_field, nodename_key, secret_key}
use universal_fencing_hub.Protocol.Fields.{encoded, read_field-encoded}
use universal_fencing_hub.Protocol.Pairs.{NoSplit, split_key_value_pair_lem}
use universal_fencing_hub.NetClient.{NetClient}
use universal_fencing_hub.Requests.Fields.{SameMessage}
use universal_fencing_hub.Requests.{store_field, value_stored, field_read, next_field, read_fields}

-- The bytes of a field `key=value`.
abbrev pub pair_field : List ℕ → List ℕ → List ℕ
pair_field key value = key ++ (b'=' ∷ value)

-- A message: the header bytes, the field that names the node, the field with the secret, and what
-- stands behind them in the buffer.
abbrev pub fence_message : List ℕ → List ℕ → List ℕ → List ℕ → List ℕ
fence_message head nodename secret rest =
    head
    ++ (encoded (pair_field nodename_key nodename)
        ++ (encoded (pair_field secret_key secret) ++ rest))

abbrev pub message_size : List ℕ → List ℕ → ℕ
message_size nodename secret = 4 + (2 + (9 + length nodename)) + (2 + (7 + length secret))

-- The buffers of a client are large enough for a name and a secret.
pub record HasRoom {B : Type 0} ⦃cb : CharBuffer B⦄ (c : NetClient B) (node pass : List ℕ)
    : Type 0 where
  pub name_field : 9 + length node ≤ cb.capacity c.key_buffer
  pub secret_field : 7 + length pass ≤ cb.capacity c.key_buffer
  pub name_value : length node ≤ cb.capacity c.value_buffer
  pub secret_value : length pass ≤ cb.capacity c.value_buffer
  pub nodename : length node ≤ cb.capacity c.nodename
  pub secret : length pass ≤ cb.capacity c.secret

plain_key : NoSplit nodename_key
plain_key = omega arith

plain_secret : NoSplit secret_key
plain_secret = omega arith

module _ {B : Type 0} ⦃cb : CharBuffer B⦄ where
  -- A round at a field `key=value` splits it into the two buffers, and goes on behind it.
  next_field-encoded :
      (c : NetClient B) (pre key value post : List ℕ)
      → c.io_buffer ≡ pre ++ (encoded (pair_field key value) ++ post)
      → NoSplit key
      → length (pair_field key value) < 2 ^ 16
      → length pre + 2 + length (pair_field key value) ≤ c.io_offset
      → length (pair_field key value) ≤ cb.capacity c.key_buffer
      → length value ≤ cb.capacity c.value_buffer
      → (k : B) × (v : B) × (next_field c (length pre)
          ≡ value_stored
              (length pre + 2 + length (pair_field key value))
              (store_field (record c { key_buffer = k; value_buffer = v })))
        × (cb.contents k ≡ key)
        × (cb.contents v ≡ value)
        × (cb.capacity k ≡ cb.capacity c.key_buffer)
        × (cb.capacity v ≡ cb.capacity c.value_buffer)
  unfolding next_field
  next_field-encoded c pre key value post e plain fits room key_room value_room =
      let (field, read, field_is, field_cap) =
        read_field-encoded pre (pair_field key value) post c.io_offset c.key_buffer fits room
          key_room in
      let (k, v, split, k_is, v_is, k_cap, v_cap) =
        split_key_value_pair_lem field c.value_buffer key value field_is plain value_room in
      let step = ap (λ t. read_field t c.io_offset (length pre) c.key_buffer) e ∙ read in
      (k, v, rw (step, field_read, split), k_is, v_is, k_cap ∙ field_cap, v_cap)

  -- The value of the field NODENAME, or SECRET, goes to the client's buffer of that name.
  store_field-nodename :
      (c : NetClient B) (value : List ℕ)
      → cb.contents c.key_buffer ≡ nodename_key
      → cb.contents c.value_buffer ≡ value
      → length value ≤ cb.capacity c.nodename
      → (n : B) × (store_field c ≡ ok (record c { nodename = n }) tt) × (cb.contents n ≡ value)
  unfolding store_field
  store_field-nodename c value key_is value_is room =
      let got = cb.assign_holds c.nodename c.value_buffer (omega (arith, ap length value_is)) in
      let found =
        cb.equals_lem c.key_buffer nodename_key ∙ ap (λ t. bytes_eq t nodename_key) key_is in
      (got.result, rw (found, got.returned, store_field), got.held ∙ value_is)

  store_field-secret :
      (c : NetClient B) (value : List ℕ)
      → cb.contents c.key_buffer ≡ secret_key
      → cb.contents c.value_buffer ≡ value
      → length value ≤ cb.capacity c.secret
      → (s : B) × (store_field c ≡ ok (record c { secret = s }) tt) × (cb.contents s ≡ value)
  unfolding store_field
  store_field-secret c value key_is value_is room =
      let got = cb.assign_holds c.secret c.value_buffer (omega (arith, ap length value_is)) in
      let other =
        cb.equals_lem c.key_buffer nodename_key ∙ ap (λ t. bytes_eq t nodename_key) key_is in
      let found = cb.equals_lem c.key_buffer secret_key ∙ ap (λ t. bytes_eq t secret_key) key_is in
      (got.result, rw (other, found, got.returned, store_field), got.held ∙ value_is)

  read_fields-step :
      (rounds : ℕ) (c d : NetClient B) (offset offset' : ℕ)
      → offset < c.io_offset
      → next_field c offset ≡ ok d offset'
      → read_fields (suc rounds) c offset ≡ read_fields rounds d offset'
  unfolding read_fields
  read_fields-step rounds c d offset offset' more e = rw (lt→ltb offset c.io_offset more, e)

  read_fields-end :
      (rounds : ℕ) (c : NetClient B) (offset : ℕ)
      → c.io_offset ≤ offset
      → read_fields (suc rounds) c offset ≡ some (ok c tt)
  unfolding read_fields
  read_fields-end rounds c offset over = rw (le→ltb offset c.io_offset over)

  -- At a message of less than 2 ^ 16 bytes with a name and a secret, for which the client's
  -- buffers have room, the loop over the fields returns after two rounds: the client's buffers
  -- hold the name and the secret, and the message and the connection are as they were.
  pub read_fields-message :
      (c : NetClient B) (head node pass rest : List ℕ) (rounds : ℕ)
      → c.io_buffer ≡ fence_message head node pass rest
      → length head ≡ header_size
      → c.io_offset ≡ message_size node pass
      → message_size node pass < 2 ^ 16
      → HasRoom c node pass
      → (d : NetClient B) × (read_fields (suc (suc (suc rounds))) c header_size ≡ some (ok d tt))
        × (cb.contents d.nodename ≡ node)
        × (cb.contents d.secret ≡ pass)
        × SameMessage c d
  unfolding value_stored
  read_fields-message c head node pass rest rounds e four size small room =
      let named = pair_field nodename_key node in
      let secured = pair_field secret_key pass in
      let start : header_size ≡ length head = sym four in
      let (k, v, step, k_is, v_is, k_cap, v_cap) =
        next_field-encoded c head nodename_key node (encoded secured ++ rest) e (plain_key)
          (omega arith) (omega (arith, size)) (omega (arith, room.name_field)) room.name_value in
      let c1 = record c { key_buffer = k; value_buffer = v } in
      let (n, stored, n_is) = store_field-nodename c1 node k_is v_is room.nodename in
      let c2 = record c1 { nodename = n } in
      let front = head ++ encoded named in
      let front_size : length front ≡ length head + 2 + length named =
        omega (arith, length-append head (encoded named)) in
      let e2 : c2.io_buffer ≡ front ++ (encoded secured ++ rest) =
        e ∙ sym (append_assoc head (encoded named) (encoded secured ++ rest)) in
      let (k', v', step', k_is', v_is', k_cap', v_cap') =
        next_field-encoded c2 front secret_key pass rest e2 plain_secret (omega arith) (omega arith)
          (omega (arith, k_cap, room.secret_field)) (omega (arith, v_cap, room.secret_value)) in
      let c3 = record c2 { key_buffer = k'; value_buffer = v' } in
      let (s, stored', s_is) = store_field-secret c3 pass k_is' v_is' room.secret in
      let past_name = length head + 2 + length named in
      let past_secret = length front + 2 + length secured in
      let run =
        ap (read_fields (suc (suc (suc rounds))) c) start
        ∙ read_fields-step (suc (suc rounds)) c c2 (length head) past_name (omega (arith, size))
            (step ∙ ap (value_stored past_name) stored)
        ∙ ap (read_fields (suc (suc rounds)) c2) (sym front_size)
        ∙ read_fields-step (suc rounds) c2 (record c3 { secret = s }) (length front) past_secret
            (omega (arith, size, front_size)) (step' ∙ ap (value_stored past_secret) stored')
        ∙ read_fields-end rounds (record c3 { secret = s }) past_secret
            (omega (arith, size, front_size)) in
      (
        record c3 { secret = s },
        run,
        n_is,
        s_is,
        record {
          io_buffer = refl;
          io_offset = refl;
          have_header = refl;
          socket_fd = refl;
          current_phase = refl;
          io_state = refl;
        },
      )
