-- ===== src/NetClient/Sending.antt =====
-- ServerConnector.cpp, send_message: a reply goes out, in pieces of any size.
use universal_fencing_hub.Base.{
  ℕ, ◌+◌, ◌≤◌, ◌<◌, ◌≡◌, refl, sym, ap, ◌∙◌, inl, inr, true, false, List, [], ◌++◌, arith, ltb, leb,
  if◌then◌else◌, Bool-cases, leb→le, lt→leb, gt_of_leb, length, take, slice, take-slice,
}
use universal_fencing_hub.MsgHeader.{MsgHeader, header_size, serialize}
use universal_fencing_hub.MsgHeader.RoundTrip.{length-serialize}
use universal_fencing_hub.NetClient.{
  NetClient, io_buffer_size, sent, would_block, IoResult, complete, partial, closed, put_header,
  req_write_size, send_message, send_done, advance,
}

-- The header of a reply, its length brought between a header and the I/O buffer.
abbrev pub bounded : MsgHeader → MsgHeader
bounded h =
    if ltb h.data_length header_size
    then record h { data_length = header_size }
    else (if ltb io_buffer_size h.data_length then record h { data_length = io_buffer_size } else h)

-- What is to go out: the header and the bytes behind it.
abbrev pub reply_of : {B : Type 0} → NetClient B → List ℕ
reply_of c = take (bounded c.header).data_length (serialize (bounded c.header) c.io_buffer)

-- Of the reply `message`, the bytes `gone` are out, and some are not.
pub record IsSending {B : Type 0} (c : NetClient B) (gone message : List ℕ) : Type 0 where
  pub capacity : length c.io_buffer ≡ io_buffer_size
  pub have_header : c.have_header ≡ true
  pub at_least : header_size ≤ c.header.data_length
  pub at_most : c.header.data_length ≤ io_buffer_size
  pub offset : c.io_offset < c.header.data_length
  pub so_far : take c.io_offset c.io_buffer ≡ gone
  pub total : take c.header.data_length c.io_buffer ≡ message

-- A client as the handlers of requests leave it for a reply: nothing is sent and no header written.
pub record HasReply {B : Type 0} (c : NetClient B) : Type 0 where
  pub capacity : length c.io_buffer ≡ io_buffer_size
  pub no_header : c.have_header ≡ false
  pub start : c.io_offset ≡ 0

bounded_bounds :
    (h : MsgHeader)
    → (header_size ≤ (bounded h).data_length) × ((bounded h).data_length ≤ io_buffer_size)
bounded_bounds h = ground arith

both_ways : {a b : ℕ} → a ≤ b → b ≤ a → a ≡ b
both_ways h k = omega arith

module _ {B : Type 0} where
  -- For a client that has a reply and has sent nothing of it, put_header writes the header, its
  -- length brought between a header and the buffer, in front of the buffer, and leaves the client
  -- sending, with the whole reply to go.
  pub put_header-IsSending :
      (c : NetClient B) → HasReply c → IsSending (put_header c) [] (reply_of c)
  unfolding put_header
  put_header-IsSending c r =
      let bounds = bounded_bounds c.header in
      rw r.no_header (record {
        capacity = length-serialize (bounded c.header) c.io_buffer ∙ r.capacity;
        have_header = refl;
        at_least = bounds.0;
        at_most = bounds.1;
        offset = omega (arith, r.start);
        so_far = ap (λ t. take t (serialize (bounded c.header) c.io_buffer)) r.start;
        total = refl;
      })

  -- The later calls leave the header as it is.
  pub put_header-same :
      (c : NetClient B) (gone message : List ℕ) → IsSending c gone message → put_header c ≡ c
  unfolding put_header
  put_header-same c gone message s = rw s.have_header

  -- A client that is sending offers send at least one byte, none behind its I/O buffer, and just
  -- the rest of the reply: the casts to 16 bits lose nothing.
  pub req_write_size_bounds :
      (c : NetClient B) (gone message : List ℕ)
      → IsSending c gone message
      → (0 < req_write_size c)
        × (c.io_offset + req_write_size c ≤ length c.io_buffer)
        × (c.io_offset + req_write_size c ≡ c.header.data_length)
  unfolding req_write_size
  req_write_size_bounds c gone message s =
      let exact : c.io_offset + req_write_size c ≡ c.header.data_length =
        omega (arith, s.offset, s.at_most) in
      (omega (arith, s.offset, exact), omega (arith, exact, s.at_most, s.capacity), exact)

  -- What a call of send_message makes of the client, given the bytes that are out after it.
  abbrev pub Sends : NetClient B × IoResult → List ℕ → List ℕ → Type 0
  Sends (c, complete) gone message = gone ≡ message
  Sends (c, partial) gone message = IsSending c gone message
  Sends (c, closed) gone message = ⊥

  -- send may take any number of bytes, none included, up to the size asked for: they are the next of
  -- the reply, and the client goes on sending until all of the reply is out.
  pub send_done-Sends :
      (c : NetClient B) (gone message : List ℕ) (n : ℕ)
      → IsSending c gone message
      → n ≤ req_write_size c
      → Sends
          (send_done (advance c n))
          (gone ++ slice c.io_buffer c.io_offset (c.io_offset + n))
          message
  send_done-Sends c gone message n s few =
      let exact = (req_write_size_bounds c gone message s).2 in
      let out : gone ++ slice c.io_buffer c.io_offset (c.io_offset + n)
          ≡ take (c.io_offset + n) c.io_buffer =
        ap (λ t. t ++ slice c.io_buffer c.io_offset (c.io_offset + n)) (sym s.so_far)
        ∙ take-slice c.io_buffer c.io_offset n in
      elim (Bool-cases (leb c.header.data_length (c.io_offset + n))) [
        | inl now ↦ rw now (
            out
            ∙ ap (λ t. take t c.io_buffer) (both_ways (omega (arith, few, exact)) (leb→le _ _ now))
            ∙ s.total)
        | inr not_yet ↦ rw not_yet (record {
          capacity = s.capacity;
          have_header = s.have_header;
          at_least = s.at_least;
          at_most = s.at_most;
          offset = gt_of_leb _ _ not_yet;
          so_far = sym out;
          total = s.total;
        })
      ]

module _ {B : Type 0} where
  -- send_message of a client that is sending once put_header has run, the first call included:
  -- when send takes a number of bytes up to what it was offered, the next bytes of the reply are
  -- out, and the call reports completion exactly when that is all of the reply; when send would
  -- block, nothing more is out and the client goes on sending.
  pub send_message_lem :
      (c : NetClient B) (gone message : List ℕ) (n : ℕ)
      → IsSending (put_header c) gone message
      → n ≤ req_write_size (put_header c)
      → Sends
          (send_message c (sent n))
          (gone
            ++ slice
                (put_header c).io_buffer
                (put_header c).io_offset
                ((put_header c).io_offset + n))
          message
        × Sends (send_message c would_block) gone message
  unfolding send_message
  send_message_lem c gone message n s few = (
    send_done-Sends (put_header c) gone message n s few,
    rw (waiting (put_header c) gone message s) s,
  )
    where
      waiting :
          (d : NetClient B) (g m : List ℕ)
          → IsSending d g m
          → leb d.header.data_length d.io_offset ≡ false
      waiting d g m t = lt→leb d.header.data_length d.io_offset t.offset
