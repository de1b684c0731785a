-- ===== src/ClientConnector/Replying.antt =====
-- ClientConnector.cpp, receive_message and what follows it in fence_action_impl, for the replies of the
-- server, which are a header and nothing more.
use universal_fencing_hub.Base.{
  ℕ, ◌+◌, ◌≤◌, ◌<◌, ◌≡◌, refl, sym, ap, ◌∙◌, subst, Bool, true, false, inl, inr, List, [], ◌∷◌,
  ◌++◌, some, arith, ltb, leb, lt→ltb, leb→le, gt_of_leb, Bool-cases, length, length-append,
  append_assoc, append-nil, map, take, write_at, length-write_at, take-write_at, length-replicate,
  min,
}
use universal_fencing_hub.Outcome.{ok}
use universal_fencing_hub.MsgHeader.{MsgHeader, code_of, header_size, deserialize, is_msg_type}
use universal_fencing_hub.MsgHeader.RoundTrip.{deserialize-take}
use universal_fencing_hub.NetClient.{RecvResult, received}
use universal_fencing_hub.Requests.Replies.{reply_type}
use universal_fencing_hub.ClientConnector.{
  Session, Receiving, buffer_size, take_bytes, recv_call, receive_loop, received_all, begin_receive,
  receive_message, wipe_io_buffer, fence_checked,
}

-- The pieces that a message comes in: none is empty.
abbrev pub AllSome : List (List ℕ) → Type 0
AllSome [] = Unit {0}
AllSome (piece ∷ pieces) = (0 < length piece) × AllSome pieces

abbrev pub joined : List (List ℕ) → List ℕ
joined [] = []
joined (piece ∷ pieces) = piece ++ joined pieces

-- The loop has the bytes `seen`, and no header yet.
record IsWaiting (r : Receiving) (seen : List ℕ) : Type 0 where
  pub no_header : r.have_header ≡ false
  pub wanted : r.receive_length ≡ header_size
  pub capacity : length r.session.io_buffer ≡ buffer_size
  pub so_far : take r.io_offset r.session.io_buffer ≡ seen
  pub offset : r.io_offset ≡ length seen

-- The loop has the header of a message `bytes`.
record HasHeader (r : Receiving) (bytes : List ℕ) : Type 0 where
  pub have_header : r.have_header ≡ true
  pub offset : r.io_offset ≡ header_size
  pub wanted : r.receive_length ≡ min (deserialize bytes).data_length buffer_size
  pub header : r.session.header ≡ deserialize bytes

module _ (r : Receiving) (seen piece : List ℕ) (w : IsWaiting r seen) (more : 0 < length piece)
    (fits : length seen + length piece ≤ header_size) where
  stored :
      take (r.io_offset + length piece) (write_at r.session.io_buffer r.io_offset piece)
      ≡ seen ++ piece
  stored =
      take-write_at r.session.io_buffer r.io_offset piece
        (omega (arith, w.capacity, w.offset, fits))
      ∙ ap (λ t. t ++ piece) w.so_far

  goes_on :
      length seen + length piece < header_size
      → IsWaiting (recv_call r (received piece)) (seen ++ piece)
  unfolding recv_call take_bytes
  goes_on few =
      rw (lt→ltb 0 (length piece) more, w.no_header, not_yet)
        (record {
          no_header = refl;
          wanted = w.wanted;
          capacity = length-write_at r.session.io_buffer r.io_offset piece ∙ w.capacity;
          so_far = stored;
          offset = omega (arith, w.offset, length-append seen piece);
        })
    where
      not_yet : leb header_size (r.io_offset + length piece) ≡ false
      not_yet = ground (arith, w.offset, few)

  ends :
      length seen + length piece ≡ header_size
      → HasHeader (recv_call r (received piece)) (seen ++ piece)
  unfolding recv_call take_bytes
  ends all =
      rw (lt→ltb 0 (length piece) more, w.no_header, now)
        (record {
          have_header = refl;
          offset = omega (arith, w.offset, all);
          wanted = ap (λ (h : MsgHeader). min h.data_length buffer_size) same;
          header = same;
        })
    where
      now : leb header_size (r.io_offset + length piece) ≡ true
      now = ground (arith, w.offset, all)

      same :
          deserialize (write_at r.session.io_buffer r.io_offset piece) ≡ deserialize (seen ++ piece)
      same =
          sym (
            deserialize-take (write_at r.session.io_buffer r.io_offset piece)
              (r.io_offset + length piece) (omega (arith, w.offset, all)))
          ∙ ap deserialize stored

-- A call of recv while the header is not there.
called :
    (r : Receiving) (seen piece : List ℕ) (calls : List RecvResult)
    → IsWaiting r seen
    → length seen < header_size
    → receive_loop r (received piece ∷ calls) ≡ receive_loop (recv_call r (received piece)) calls
unfolding receive_loop
called r seen piece calls w few =
    rw (lt→ltb r.io_offset r.receive_length (omega (arith, w.offset, w.wanted, few))) refl

finished :
    (t : Receiving) (bytes : List ℕ)
    → HasHeader t bytes
    → (deserialize bytes).data_length ≡ header_size
    → receive_loop t [] ≡ some t
unfolding receive_loop
finished t bytes h only = rw enough refl
  where
    enough : ltb t.io_offset t.receive_length ≡ false
    enough = ground (arith, h.offset, h.wanted, only)

nothing_left : (pieces : List (List ℕ)) → AllSome pieces → length (joined pieces) ≡ 0 → pieces ≡ []
nothing_left [] all e = refl
nothing_left (piece ∷ pieces) all e =
    absurd (omega (arith, all.0, length-append piece (joined pieces)))

receive_loop-HasHeader :
    (pieces : List (List ℕ)) (r : Receiving) (seen : List ℕ)
    → IsWaiting r seen
    → AllSome pieces
    → length seen < header_size
    → length seen + length (joined pieces) ≡ header_size
    → (deserialize (seen ++ joined pieces)).data_length ≡ header_size
    → (t : Receiving) × (receive_loop r (map received pieces) ≡ some t)
      × HasHeader t (seen ++ joined pieces)
receive_loop-HasHeader [] r seen w all few exact only = absurd (omega arith)
receive_loop-HasHeader (piece ∷ pieces) r seen w all few exact only =
    elim (Bool-cases (leb header_size (length seen + length piece))) [
      | inl now ↦
          let whole = leb→le header_size (length seen + length piece) now in
          let none_left = nothing_left pieces all.1 (omega (arith, exact, whole, parts)) in
          let same : seen ++ joined (piece ∷ pieces) ≡ seen ++ piece =
            ap (λ ps. seen ++ (piece ++ joined ps)) none_left
            ∙ ap (λ t. seen ++ t) (append-nil piece) in
          let h =
            ends r seen piece w all.0 (omega (arith, exact, parts))
              (omega (arith, exact, whole, parts)) in
          (
            recv_call r (received piece),
            called r seen piece (map received pieces) w few
                ∙ ap (λ ps. receive_loop (recv_call r (received piece)) (map received ps)) none_left
                ∙ finished (recv_call r (received piece)) (seen ++ piece) h
                    (ap (λ t. (deserialize t).data_length) (sym same) ∙ only),
            subst (HasHeader (recv_call r (received piece))) (sym same) h,
          )
      | inr not_yet ↦
          let few' = gt_of_leb header_size (length seen + length piece) not_yet in
          let assoc = append_assoc seen piece (joined pieces) in
          let (t, looped, h) =
            receive_loop-HasHeader pieces (recv_call r (received piece)) (seen ++ piece)
              (goes_on r seen piece w all.0 (omega (arith, exact, parts)) few') all.1
              (omega (arith, few', length-append seen piece))
              (omega (arith, exact, parts, length-append seen piece))
              (ap (λ t. (deserialize t).data_length) assoc ∙ only) in
          (t, called r seen piece (map received pieces) w few ∙ looped, subst (HasHeader t) assoc h)
    ]
  where
    parts : length (piece ++ joined pieces) ≡ length piece + length (joined pieces)
    parts = length-append piece (joined pieces)

received_by :
    (r : Receiving) (bytes : List ℕ)
    → HasHeader r bytes
    → (deserialize bytes).data_length ≡ header_size
    → received_all (some r) ≡ some (ok r.session tt)
unfolding received_all
received_by r bytes h only = rw (h.have_header, enough) refl
  where
    enough : ltb r.io_offset r.session.header.data_length ≡ false
    enough =
        let length_of = ap (λ (t : MsgHeader). t.data_length) h.header in
        ground (arith, h.offset, only, length_of)

checked :
    (t : Session) (success_flag : Bool)
    → t.header.msg_type ≡ code_of (reply_type success_flag)
    → fence_checked t ≡ ok t success_flag
unfolding fence_checked is_msg_type code_of
checked t true e = rw e refl
checked t false e = rw e refl

-- When a reply of four bytes, whose header says that it has no more, comes in pieces of any size but
-- empty, receive_message returns with the reply's header; and what fence_action_impl then returns is
-- true for a FENCE_SUCCESS, false for a FENCE_FAIL.
pub receive_message-reply :
    (s : Session) (pieces : List (List ℕ)) (success_flag : Bool)
    → AllSome pieces
    → length (joined pieces) ≡ header_size
    → (deserialize (joined pieces)).data_length ≡ header_size
    → (deserialize (joined pieces)).msg_type ≡ code_of (reply_type success_flag)
    → (t : Session) × (receive_message s (map received pieces) ≡ some (ok t tt))
      × (t.header ≡ deserialize (joined pieces))
      × (fence_checked t ≡ ok t success_flag)
unfolding receive_message received_all begin_receive wipe_io_buffer
receive_message-reply s pieces success_flag all four only type =
    let (r, looped, h) =
      receive_loop-HasHeader pieces (begin_receive s) []
        (record {
          no_header = refl;
          wanted = refl;
          capacity = length-replicate {A = ℕ} buffer_size 0;
          so_far = refl;
          offset = refl;
        })
        all (omega arith) (omega (arith, four)) only in
    (
      r.session,
      ap received_all looped ∙ received_by r (joined pieces) h only,
      h.header,
      checked r.session success_flag (ap (λ (t : MsgHeader). t.msg_type) h.header ∙ type),
    )
