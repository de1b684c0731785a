-- ===== src/Protocol/Fields.antt =====
-- Shared.cpp: a field that write_field wrote is what read_field reads.
use universal_fencing_hub.Base.{
  ℕ, suc, ◌+◌, ◌-◌, ◌*◌, ◌/◌, ◌%◌, ◌^◌, ◌≤◌, ◌<◌, ◌≡◌, sym, ap, ◌∙◌, ◌⊎◌, true, false, List, [],
  ◌∷◌, ◌++◌, arith, le→ltb, lt→ltb, le→leb, length, get_or, set, slice, length-append,
  get_or-append, set-append, drop-append, take-append, append_assoc, or-high_byte, and-low_byte,
}
use universal_fencing_hub.CharBuffer.{CharBuffer}
use universal_fencing_hub.Outcome.{ok, throw, protocol_exception, state_of, raised}
use universal_fencing_hub.Protocol.{
  field_length_at, read_field, read_field_string, copy_field, write_field,
}

-- The wire format of a field: two bytes of length and the bytes.
abbrev pub encoded : List ℕ → List ℕ
encoded field = (length field / 256) ∷ (length field % 256) ∷ field

copy_field_lem :
    (field pre mid post : List ℕ) (offset : ℕ)
    → offset ≡ length pre + 0
    → length mid ≡ length field
    → copy_field field (pre ++ (mid ++ post)) offset
      ≡ (pre ++ (field ++ post), offset + length field)
unfolding copy_field
copy_field_lem [] pre [] post offset e h = ap (λ t. (pre ++ post, t)) (omega arith)
copy_field_lem [] pre (m ∷ mid) post offset e h = absurd (omega arith)
copy_field_lem (b ∷ field) pre [] post offset e h = absurd (omega arith)
copy_field_lem (b ∷ field) pre (m ∷ mid) post offset e h =
    let written : set (pre ++ (m ∷ (mid ++ post))) offset b ≡ (pre ++ b ∷ []) ++ (mid ++ post) =
      ap (λ t. set (pre ++ (m ∷ (mid ++ post))) t b) e
      ∙ set-append pre (m ∷ (mid ++ post)) 0 b
      ∙ sym (append_assoc pre (b ∷ []) (mid ++ post)) in
    let shifted : offset + 1 ≡ length (pre ++ b ∷ []) + 0 =
      omega (arith, length-append pre (b ∷ [])) in
    let counted : offset + 1 + length field ≡ offset + suc (length field) = omega arith in
    ap (λ t. copy_field field t (offset + 1)) written
    ∙ copy_field_lem field (pre ++ b ∷ []) mid post (offset + 1) shifted (omega arith)
    ∙ ap (λ t. (t, offset + 1 + length field)) (append_assoc pre (b ∷ []) (field ++ post))
    ∙ ap (λ t. (pre ++ b ∷ (field ++ post), t)) counted

module _ (pre : List ℕ) (field : List ℕ) (post : List ℕ) (fits : length field < 2 ^ 16) where
  -- The length bytes of an encoded field give its length.
  field_length_at-encoded :
      field_length_at (pre ++ (encoded field ++ post)) (length pre) ≡ length field
  unfolding field_length_at
  field_length_at-encoded =
      let at_first : length pre ≡ length pre + 0 = omega arith in
      let high =
        ap (λ t. get_or (pre ++ (encoded field ++ post)) t 0) at_first
        ∙ get_or-append pre (encoded field ++ post) 0 0 in
      let low = get_or-append pre (encoded field ++ post) 1 0 in
      let small : length field / 256 * 2 ^ 8 % 2 ^ 16 ≡ length field / 256 * 256 = omega arith in
      rw (high, low, small)
        (or-high_byte (length field / 256) (length field % 256) (omega arith) ∙ omega arith)

  slice-encoded :
      slice (pre ++ (encoded field ++ post)) (length pre + 2) (length pre + 2 + length field)
      ≡ field
  slice-encoded =
      let count : length pre + 2 + length field - (length pre + 2) ≡ length field = omega arith in
      rw (count, drop-append pre (encoded field ++ post) 2) (take-append field post)

-- The two length bytes are written in front of what follows.
length_written :
    (pre : List ℕ) (a b : ℕ) (rest : List ℕ) (high low : ℕ)
    → set (set (pre ++ (a ∷ b ∷ rest)) (length pre) high) (length pre + 1) low
      ≡ pre ++ (high ∷ low ∷ rest)
length_written pre a b rest high low =
    let at_first : length pre ≡ length pre + 0 = omega arith in
    ap (λ t. set t (length pre + 1) low)
      (ap (λ t. set (pre ++ (a ∷ b ∷ rest)) t high) at_first ∙ set-append pre (a ∷ b ∷ rest) 0 high)
    ∙ set-append pre (high ∷ b ∷ rest) 1 low

-- Behind the length bytes stands the field.
field_copied :
    (pre mid post field : List ℕ) (high low : ℕ)
    → length mid ≡ length field
    → copy_field field (pre ++ (high ∷ low ∷ (mid ++ post))) (length pre + 2)
      ≡ (pre ++ (high ∷ low ∷ (field ++ post)), length pre + 2 + length field)
field_copied pre mid post field high low same =
    let front = pre ++ (high ∷ low ∷ []) in
    let shifted : length pre + 2 ≡ length front + 0 =
      omega (arith, length-append pre (high ∷ low ∷ [])) in
    ap (λ t. copy_field field t (length pre + 2))
      (sym (append_assoc pre (high ∷ low ∷ []) (mid ++ post)))
    ∙ copy_field_lem field front mid post (length pre + 2) shifted same
    ∙ ap (λ t. (t, length pre + 2 + length field))
        (append_assoc pre (high ∷ low ∷ []) (field ++ post))

-- A field of less than 2 ^ 16 bytes, and a buffer with room for it at the offset `length pre`:
-- write_field writes the encoded field over the bytes that stood there, leaves the bytes before
-- and behind, and moves the offset past it.
pub write_field-encoded :
    (pre : List ℕ) (a b : ℕ) (mid post field : List ℕ) (capacity : ℕ)
    → length mid ≡ length field
    → length field < 2 ^ 16
    → length pre + 2 + length field ≤ capacity
    → write_field (pre ++ (a ∷ b ∷ (mid ++ post))) capacity (length pre) field
      ≡ ok (pre ++ (encoded field ++ post), length pre + 2 + length field) tt
unfolding write_field
write_field-encoded pre a b mid post field capacity same fits room =
    let short = le→ltb 0xFFFF (length field) (omega arith) in
    let inside = lt→ltb (length pre) capacity (omega arith) in
    let enough = lt→ltb (length field) (capacity - length pre) (omega arith) in
    let two = le→leb 2 (capacity - length pre - length field) (omega arith) in
    let high : length field / 2 ^ 8 % 2 ^ 8 ≡ length field / 256 = omega arith in
    rw (short, inside, enough, two, and-low_byte (length field), high)
      (ap (λ t. ok t tt)
        (ap (λ t. copy_field field t (length pre + 2))
            (length_written pre a b (mid ++ post) (length field / 256) (length field % 256))
          ∙ field_copied pre mid post field (length field / 256) (length field % 256) same))

-- write_field throws, and writes nothing, when the length of the field does not fit two bytes or
-- the field does not fit the buffer behind the offset.
pub write_field-throw :
    (buffer : List ℕ) (capacity offset : ℕ) (field : List ℕ)
    → (2 ^ 16 ≤ length field) ⊎ (capacity < offset + 2 + length field)
    → write_field buffer capacity offset field ≡ throw (buffer, offset) protocol_exception
unfolding write_field
write_field-throw buffer capacity offset field h = ground arith

module _ {B : Type 0} ⦃cb : CharBuffer B⦄ where
  -- read_field at an encoded field of less than 2 ^ 16 bytes gives the field, when it ends within
  -- the message and the buffer has room for it, and moves the offset past it.
  pub read_field-encoded :
      (pre field post : List ℕ) (capacity : ℕ) (buffer : B)
      → length field < 2 ^ 16
      → length pre + 2 + length field ≤ capacity
      → length field ≤ cb.capacity buffer
      → (result : B) × (read_field (pre ++ (encoded field ++ post)) capacity (length pre) buffer
          ≡ ok (length pre + 2 + length field, result) true)
        × (cb.contents result ≡ field)
        × (cb.capacity result ≡ cb.capacity buffer)
  unfolding read_field
  read_field-encoded pre field post capacity buffer fits room holds =
      let start = length pre + 2 in
      let message = pre ++ (encoded field ++ post) in
      let long : length message ≡ length pre + 2 + length field + length post =
        omega (arith, length-append pre (encoded field ++ post), length-append field post) in
      let roomy = cb.capacity-clear buffer in
      let got =
        cb.substring_raw_from_holds (cb.clear buffer) message start (start + length field)
          (omega arith) (omega arith) (omega arith) in
      let inside = lt→ltb (length pre) capacity (omega arith) in
      let two = le→leb 2 (capacity - length pre) (omega arith) in
      let enough = le→leb (length field) (capacity - length pre - 2) (omega arith) in
      let past : length pre + (length field + 2) ≡ length pre + 2 + length field = omega arith in
      (
        got.result,
        rw (field_length_at-encoded pre field post fits, inside, two, enough, got.returned)
            (rw (field_length_at-encoded pre field post fits, past)),
        got.held ∙ slice-encoded pre field post fits,
        got.kept ∙ roomy,
      )

  -- read_field never moves the offset past the message: it throws, with the offset as it was, or
  -- leaves the offset at least two further and at most at the end.
  pub read_field-progress :
      (io_buffer : List ℕ) (capacity offset : ℕ) (buffer : B)
      → let r = read_field io_buffer capacity offset buffer in
        ((state_of r).0 ≡ offset) × (raised r ≡ true)
        ⊎ (offset + 2 ≤ (state_of r).0) × ((state_of r).0 ≤ capacity) × (raised r ≡ false)
  unfolding read_field
  read_field-progress io_buffer capacity offset buffer = ground arith

-- The version of read_field for std::string, at an encoded field of less than 2 ^ 16 bytes that
-- ends within the message, appends the field to what the string held, and moves the offset past
-- it.
pub read_field_string-encoded :
    (pre field post before : List ℕ) (capacity : ℕ)
    → length field < 2 ^ 16
    → length pre + 2 + length field ≤ capacity
    → read_field_string (pre ++ (encoded field ++ post)) capacity (length pre) before
      ≡ ok (length pre + 2 + length field, before ++ field) true
unfolding read_field_string
read_field_string-encoded pre field post before capacity fits room =
    let inside = lt→ltb (length pre) capacity (omega arith) in
    let two = le→leb 2 (capacity - length pre) (omega arith) in
    let enough = le→leb (length field) (capacity - length pre - 2) (omega arith) in
    let past : length pre + (length field + 2) ≡ length pre + 2 + length field = omega arith in
    rw (
      field_length_at-encoded pre field post fits,
      inside,
      two,
      enough,
      slice-encoded pre field post fits,
      past,
    )
