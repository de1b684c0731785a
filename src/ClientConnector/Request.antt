-- ===== src/ClientConnector/Request.antt =====
-- ClientConnector.cpp, fence_action_impl: the request that the client composes, and what the server does
-- with it.
use universal_fencing_hub.Base.{
  ℕ, ◌+◌, ◌-◌, ◌%◌, ◌^◌, ◌≤◌, ◌≡◌, sym, ap, ◌∙◌, List, [], ◌∷◌, ◌++◌, arith, length, length-append,
  split_at, append_assoc,
}
use universal_fencing_hub.Outcome.{ok}
use universal_fencing_hub.MsgHeader.{MsgType, code_of, header_size, set_msg_type}
use universal_fencing_hub.Protocol.{write_field, nodename_key, secret_key}
use universal_fencing_hub.Protocol.Fields.{encoded, write_field-encoded}
use universal_fencing_hub.Requests.Fence.{pair_field, fence_message, message_size}
use universal_fencing_hub.CharBuffer.{c_str}
use universal_fencing_hub.ClientConnector.{
  Session, buffer_size, parameter, compose, first_field, second_field,
}

-- A buffer with room for a field, opened up for it.
opened :
    (field xs : List ℕ) (m : ℕ)
    → length xs ≡ 2 + length field + m
    → (a b : ℕ) × (mid post : List ℕ) × (xs ≡ a ∷ b ∷ (mid ++ post)) × (length mid ≡ length field)
opened field [] m e = absurd (omega arith)
opened field (a ∷ []) m e = absurd (omega arith)
opened field (a ∷ b ∷ xs) m e =
    let (mid, post, same, front, back) = split_at xs (length field) m (omega arith) in
    (a, b, mid, post, ap (λ t. a ∷ b ∷ t) same, front)

-- write_field at `length pre`, with what stands behind the field.
write_field_opened :
    (pre xs field : List ℕ) (m : ℕ)
    → length xs ≡ 2 + length field + m
    → length pre + 2 + length field ≤ buffer_size
    → (post : List ℕ) × (write_field (pre ++ xs) buffer_size (length pre) field
        ≡ ok (pre ++ (encoded field ++ post), length pre + 2 + length field) tt)
      × (length post ≡ m)
write_field_opened pre xs field m e room =
    let (a, b, mid, post, same, front) = opened field xs m e in
    (
      post,
      ap (λ t. write_field (pre ++ t) buffer_size (length pre) field) same
          ∙ write_field-encoded pre a b mid post field buffer_size front (omega arith) room,
      omega (arith, ap length same, length-append mid post),
    )

parameter-pair_field :
    (node pass : List ℕ)
    → c_str node ≡ node
    → c_str pass ≡ pass
    → (parameter nodename_key node ≡ pair_field nodename_key node)
      × (parameter secret_key pass ≡ pair_field secret_key pass)
unfolding parameter
parameter-pair_field node pass plain plain' =
    (ap (λ t. pair_field nodename_key t) plain, ap (λ t. pair_field secret_key t) plain')

-- The session with the request in its buffer.
abbrev pub composed : Session → MsgType → List ℕ → List ℕ → List ℕ → List ℕ → Session
composed s msg_type head node pass rest = record s {
  header = record { msg_type = code_of msg_type; data_length = message_size node pass };
  io_buffer = fence_message head node pass rest;
}

both_fields :
    (s : Session) (named secured : List ℕ) (buffer buffer' : List ℕ) (first second size : ℕ)
    → write_field s.io_buffer buffer_size header_size named ≡ ok (buffer, first) tt
    → write_field buffer buffer_size first secured ≡ ok (buffer', second) tt
    → second % 2 ^ 16 ≡ size
    → first_field s secured (write_field s.io_buffer buffer_size header_size named)
      ≡ ok (record s { header = record (s.header) { data_length = size }; io_buffer = buffer' }) tt
unfolding first_field second_field
both_fields s named secured buffer buffer' first second size w w' e =
    ap (first_field s secured) w
    ∙ ap (second_field s) w'
    ∙ ap
        (λ t.
          ok (record s { header = record (s.header) { data_length = t }; io_buffer = buffer' }) tt)
        e

-- For a name and a secret without a NUL, that fit a buffer of 1024 bytes, the composition of a
-- request returns: the buffer holds four bytes for the header and the two fields, and the header
-- names the action and the request's size.
pub compose_lem :
    (s : Session) (msg_type : MsgType) (node pass : List ℕ)
    → length s.io_buffer ≡ buffer_size
    → c_str node ≡ node
    → c_str pass ≡ pass
    → message_size node pass ≤ buffer_size
    → (head rest : List ℕ) × (compose s msg_type node pass
        ≡ ok (composed s msg_type head node pass rest) tt)
      × (length head ≡ header_size)
unfolding compose set_msg_type
compose_lem s msg_type node pass full plain plain' room =
    let named = pair_field nodename_key node in
    let secured = pair_field secret_key pass in
    let (size_after, left) = rooms in
    let (head, xs, same, four, behind) = split_at s.io_buffer header_size 1020 full in
    let (post, w, post_size) =
      write_field_opened head xs named size_after (omega (arith, left)) (omega arith) in
    let front = head ++ encoded named in
    let front_size : length front ≡ length head + 2 + length named =
      omega (arith, length-append head (encoded named)) in
    let (rest, w', rest_size) =
      write_field_opened front post secured (size_after - (2 + length secured))
        (omega (arith, left)) (omega arith) in
    let keys = parameter-pair_field node pass plain plain' in
    let s1 = record s { header = set_msg_type s.header msg_type } in
    let first : write_field s.io_buffer buffer_size header_size named
        ≡ ok (front ++ post, length front) tt =
      ap (λ t. write_field t buffer_size header_size named) same
      ∙ ap (λ t. write_field (head ++ xs) buffer_size t named) (sym four)
      ∙ w
      ∙ ap (λ t. ok (t, length head + 2 + length named) tt)
          (sym (append_assoc head (encoded named) post))
      ∙ ap (λ t. ok (front ++ post, t) tt) (sym front_size) in
    let joined : front ++ (encoded secured ++ rest) ≡ fence_message head node pass rest =
      append_assoc head (encoded named) (encoded secured ++ rest) in
    (
      head,
      rest,
      ap
            (λ t.
              first_field s1 t
                (write_field s.io_buffer buffer_size header_size (parameter nodename_key node)))
            (keys.1)
          ∙ ap (λ t. first_field s1 secured (write_field s.io_buffer buffer_size header_size t))
              (keys.0)
          ∙ both_fields s1 named secured (front ++ post) (front ++ (encoded secured ++ rest))
              (length front) (length front + 2 + length secured) (message_size node pass) first w'
              (omega (arith, front_size))
          ∙ ap
              (λ t.
                ok
                  (record s1 {
                    header = record (s1.header) { data_length = message_size node pass };
                    io_buffer = t;
                  })
                  tt)
              joined,
      four,
    )
  where
    rooms : (m : ℕ) × (m + (2 + (9 + length node)) ≡ 1020)
    rooms = (1020 - (2 + (9 + length node)), omega arith)
