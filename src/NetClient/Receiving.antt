-- ===== src/NetClient/Receiving.antt =====
-- ServerConnector.cpp, receive_message: a message comes in, in pieces of any size.
use universal_fencing_hub.Base.{
  ℕ, suc, ◌+◌, ◌≤◌, ◌<◌, ◌≡◌, refl, sym, ap, ◌∙◌, ◌⊎◌, inl, inr, true, false, List, [], ◌∷◌, ◌++◌,
  arith, ltb, leb, if◌then◌else◌, Bool-cases, leb→le, lt→ltb, gt_of_leb, length, take, write_at,
  length-write_at, take-write_at, take-append, length-take, max,
}
use universal_fencing_hub.MsgHeader.{MsgHeader, header_size, deserialize}
use universal_fencing_hub.MsgHeader.RoundTrip.{deserialize-take}
use universal_fencing_hub.NetClient.{
  NetClient, io_buffer_size, received, recv_failed, IoResult, complete, partial, closed,
  req_read_size, take_header, receive_bytes, receive_message,
}

-- The header in the bytes of a message, with the length cut to the I/O buffer.
abbrev pub clipped : MsgHeader → MsgHeader
clipped h =
    if ltb io_buffer_size h.data_length then record h { data_length = io_buffer_size } else h

abbrev pub header_of : List ℕ → MsgHeader
header_of bytes = clipped (deserialize bytes)

clipped_bound : (h : MsgHeader) → (clipped h).data_length ≤ io_buffer_size
clipped_bound h = ground arith

-- More bytes behind a header do not change it.
header_of-append :
    (seen bytes : List ℕ) → header_size ≤ length seen → header_of seen ≡ header_of (seen ++ bytes)
header_of-append seen bytes h = ap clipped (
    ap deserialize (sym (take-append seen bytes))
    ∙ deserialize-take (seen ++ bytes) (length seen) h)

-- A client that waits for the rest of a message of which the bytes `seen` have come.
pub record IsReceiving {B : Type 0} (c : NetClient B) (seen : List ℕ) : Type 0 where
  pub capacity : length c.io_buffer ≡ io_buffer_size
  pub so_far : take c.io_offset c.io_buffer ≡ seen
  pub offset :
      ((c.have_header ≡ false) × (c.io_offset < header_size))
      ⊎ ((c.have_header ≡ true)
          × (c.header ≡ header_of seen)
          × (header_size ≤ c.io_offset)
          × (c.io_offset < c.header.data_length)
          × (c.header.data_length ≤ io_buffer_size))

-- A client whose message has come: the bytes `seen`, as many as the header in them says, within the
-- buffer, and at least a header.
pub record HasMessage {B : Type 0} (c : NetClient B) (seen : List ℕ) : Type 0 where
  pub capacity : length c.io_buffer ≡ io_buffer_size
  pub so_far : take c.io_offset c.io_buffer ≡ seen
  pub have_header : c.have_header ≡ true
  pub header : c.header ≡ header_of seen
  pub in_buffer : c.header.data_length ≤ io_buffer_size
  pub whole : c.io_offset ≡ max header_size c.header.data_length

module _ {B : Type 0} where
  -- A client that waits for the rest of a message asks recv for at least one byte, and for no
  -- more than there is room for in its I/O buffer.
  pub req_read_size_bounds :
      (c : NetClient B) (seen : List ℕ)
      → IsReceiving c seen
      → (0 < req_read_size c) × (c.io_offset + req_read_size c ≤ length c.io_buffer)
  unfolding req_read_size
  req_read_size_bounds c seen r = ground (arith, r.capacity, r.offset)

  req_read_size_header :
      (c : NetClient B) → c.io_offset < header_size → c.io_offset + req_read_size c ≡ header_size
  unfolding req_read_size
  req_read_size_header c low = ground arith

  req_read_size_body :
      (c : NetClient B)
      → header_size ≤ c.io_offset
      → c.io_offset < c.header.data_length
      → c.header.data_length ≤ io_buffer_size
      → c.io_offset + req_read_size c ≡ c.header.data_length
  unfolding req_read_size
  req_read_size_body c high below bound = ground arith

  -- What a call of receive_message makes of the client.
  abbrev pub Receives : NetClient B × IoResult → List ℕ → Type 0
  Receives (c, complete) seen = HasMessage c seen
  Receives (c, partial) seen = IsReceiving c seen
  Receives (c, closed) seen = ⊥

  -- The call in which the last byte of the header comes.
  take_header-Receives :
      (c : NetClient B) (seen : List ℕ)
      → length c.io_buffer ≡ io_buffer_size
      → take c.io_offset c.io_buffer ≡ seen
      → c.io_offset ≡ header_size
      → Receives
          (
            take_header c,
            if leb (take_header c).header.data_length header_size then complete else partial,
          )
          seen
  unfolding take_header
  take_header-Receives c seen capacity so_far at =
      let same : clipped (deserialize c.io_buffer) ≡ header_of seen =
        ap clipped
          (sym (deserialize-take c.io_buffer c.io_offset (omega arith)) ∙ ap deserialize so_far) in
      let bound = clipped_bound (deserialize c.io_buffer) in
      elim (Bool-cases (leb (take_header c).header.data_length header_size)) [
        | inl short ↦ rw short (record {
          capacity = capacity;
          so_far = so_far;
          have_header = refl;
          header = same;
          in_buffer = bound;
          whole = omega (arith, leb→le _ _ short);
        })
        | inr more ↦ rw more (record {
          capacity = capacity;
          so_far = so_far;
          offset = inr (
            refl,
            same,
            omega arith,
            omega (arith, gt_of_leb (take_header c).header.data_length header_size more),
            bound,
          );
        })
      ]

  -- recv may give any number of bytes up to the size asked for: they come behind those that came
  -- before, and the client goes on receiving or has the whole message.
  pub receive_bytes-Receives :
      (c : NetClient B) (seen bytes : List ℕ)
      → IsReceiving c seen
      → length bytes ≤ req_read_size c
      → Receives (receive_bytes c bytes) (seen ++ bytes)
  unfolding receive_bytes
  receive_bytes-Receives c seen bytes r few = elim r.offset [
    | inl (unknown, low) ↦ rw unknown (elim (Bool-cases (leb header_size c'.io_offset)) [
      | inl now ↦
          rw now (take_header-Receives c' (seen ++ bytes) capacity so_far (at_header low now))
      | inr not_yet ↦ rw not_yet (record {
        capacity = capacity;
        so_far = so_far;
        offset = inl (refl, gt_of_leb _ _ not_yet);
      })
    ])
    | inr (known, header, high, below, bound) ↦
        rw known (elim (Bool-cases (leb c.header.data_length c'.io_offset)) [
          | inl now ↦ rw now (record {
            capacity = capacity;
            so_far = so_far;
            have_header = refl;
            header = header ∙ longer high;
            in_buffer = bound;
            whole = omega (
              arith,
              few,
              req_read_size_body c high below bound,
              leb→le c.header.data_length c'.io_offset now,
            );
          })
          | inr not_yet ↦ rw not_yet (record {
            capacity = capacity;
            so_far = so_far;
            offset = inr (refl, header ∙ longer high, omega arith, gt_of_leb _ _ not_yet, bound);
          })
        ])
  ]
    where
      room : c.io_offset + length bytes ≤ length c.io_buffer
      room = omega (arith, (req_read_size_bounds c seen r).1)

      c' : NetClient B
      c' = record c {
        io_buffer = write_at c.io_buffer c.io_offset bytes;
        io_offset = c.io_offset + length bytes;
      }

      capacity : length c'.io_buffer ≡ io_buffer_size
      capacity = length-write_at c.io_buffer c.io_offset bytes ∙ r.capacity

      so_far : take c'.io_offset c'.io_buffer ≡ seen ++ bytes
      so_far = take-write_at c.io_buffer c.io_offset bytes room ∙ ap (λ t. t ++ bytes) r.so_far

      at_header :
          c.io_offset < header_size
          → leb header_size c'.io_offset ≡ true
          → c'.io_offset ≡ header_size
      at_header low now =
          omega (arith, few, req_read_size_header c low, leb→le header_size c'.io_offset now)

      longer : header_size ≤ c.io_offset → header_of seen ≡ header_of (seen ++ bytes)
      longer high =
          header_of-append seen bytes
            (omega (arith, length-take c.io_offset c.io_buffer, ap length r.so_far, room))

  -- A client that is receiving, and bytes from recv, no more than it was asked for: with
  -- receive_message the client has them all, behind those before, and goes on, or has the whole
  -- message as its header gives the length; at the end of the stream and after an error the
  -- connection is closed.
  pub receive_message_lem :
      (c : NetClient B) (seen : List ℕ) (byte : ℕ) (bytes : List ℕ)
      → IsReceiving c seen
      → length (byte ∷ bytes) ≤ req_read_size c
      → Receives (receive_message c (received (byte ∷ bytes))) (seen ++ byte ∷ bytes)
        × ((receive_message c (received [])).1 ≡ closed)
        × ((receive_message c recv_failed).1 ≡ closed)
  unfolding receive_message
  receive_message_lem c seen byte bytes r few =
      let some_bytes : ltb 0 (suc (length bytes)) ≡ true = lt→ltb _ _ (omega arith) in
      (rw some_bytes (receive_bytes-Receives c seen (byte ∷ bytes) r few), refl, refl)
