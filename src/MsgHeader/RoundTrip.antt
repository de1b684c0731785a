-- ===== src/MsgHeader/RoundTrip.antt =====
-- MsgHeader.cpp: what `serialize` writes, `deserialize` reads back.
use universal_fencing_hub.Base.{
  ℕ, ◌+◌, ◌/◌, ◌%◌, ◌^◌, ◌≤◌, ◌<◌, ◌≡◌, refl, ap, ◌∙◌, List, [], ◌∷◌, arith, set, length,
  length-set, get_or-set_self, get_or-set_ne, drop, take, get_or-take, bit_or, bit_and,
  or-high_byte, and-low_byte,
}
use universal_fencing_hub.MsgHeader.{
  MsgHeader, header_size, serialize, deserialize, bytes_to_field_value, field_value_to_bytes,
}

-- Both bytes of a field, read back as a field.
pub bytes_to_field_value-field_value_to_bytes :
    (value : ℕ) (buffer : List ℕ) (offset : ℕ)
    → value < 2 ^ 16
    → offset + 1 < length buffer
    → bytes_to_field_value (field_value_to_bytes value buffer offset) offset ≡ value
unfolding bytes_to_field_value field_value_to_bytes
bytes_to_field_value-field_value_to_bytes value buffer offset fits room =
    let high = value / 2 ^ 8 % 2 ^ 8 in
    let first = set buffer offset high in
    rw
      (
        get_or-set_ne first (offset + 1) offset (bit_and value 0xFF) 0 (omega arith),
        get_or-set_self buffer offset high 0 (omega arith),
        get_or-set_self first (offset + 1) (bit_and value 0xFF) 0
            (omega (arith, length-set buffer offset high)),
        and-low_byte value,
      )
      (ap (λ t. bit_or t (value % 256)) (omega arith)
        ∙ or-high_byte (value / 256) (value % 256) (omega arith)
        ∙ omega arith)

-- A field is read as it was where another field is written.
pub bytes_to_field_value_apart :
    (value : ℕ) (buffer : List ℕ) (offset other : ℕ)
    → other + 1 < offset
    → bytes_to_field_value (field_value_to_bytes value buffer offset) other
      ≡ bytes_to_field_value buffer other
unfolding bytes_to_field_value field_value_to_bytes
bytes_to_field_value_apart value buffer offset other apart =
    let high = value / 2 ^ 8 % 2 ^ 8 in
    let first = set buffer offset high in
    rw (
      get_or-set_ne first (offset + 1) other (bit_and value 0xFF) 0 (omega arith),
      get_or-set_ne buffer offset other high 0 (omega arith),
      get_or-set_ne first (offset + 1) (other + 1) (bit_and value 0xFF) 0 (omega arith),
      get_or-set_ne buffer offset (other + 1) high 0 (omega arith),
    )

pub length-field_value_to_bytes :
    (value : ℕ) (buffer : List ℕ) (offset : ℕ)
    → length (field_value_to_bytes value buffer offset) ≡ length buffer
unfolding field_value_to_bytes
length-field_value_to_bytes value buffer offset =
    length-set (set buffer offset (value / 2 ^ 8 % 2 ^ 8)) (offset + 1) (bit_and value 0xFF)
    ∙ length-set buffer offset (value / 2 ^ 8 % 2 ^ 8)

pub length-serialize :
    (h : MsgHeader) (buffer : List ℕ) → length (serialize h buffer) ≡ length buffer
unfolding serialize
length-serialize h buffer =
    length-field_value_to_bytes h.data_length (field_value_to_bytes h.msg_type buffer 0) 2
    ∙ length-field_value_to_bytes h.msg_type buffer 0

drop-serialize :
    (h : MsgHeader) (buffer : List ℕ)
    → drop header_size (serialize h buffer) ≡ drop header_size buffer
unfolding serialize field_value_to_bytes
drop-serialize h [] = refl
drop-serialize h (a ∷ []) = refl
drop-serialize h (a ∷ b ∷ []) = refl
drop-serialize h (a ∷ b ∷ c ∷ []) = refl
drop-serialize h (a ∷ b ∷ c ∷ d ∷ rest) = refl

-- A header whose fields fit 16 bits, written into a buffer that has room for it, is read back as it
-- was, and the bytes behind the header stay as they are.
pub deserialize-serialize :
    (h : MsgHeader) (buffer : List ℕ)
    → h.msg_type < 2 ^ 16
    → h.data_length < 2 ^ 16
    → header_size ≤ length buffer
    → (deserialize (serialize h buffer) ≡ h)
      × (drop header_size (serialize h buffer) ≡ drop header_size buffer)
unfolding serialize deserialize
deserialize-serialize h buffer type_fits length_fits room = (fields, drop-serialize h buffer)
  where
    inner : List ℕ
    inner = field_value_to_bytes h.msg_type buffer 0

    inner_length : length inner ≡ length buffer
    inner_length = length-field_value_to_bytes h.msg_type buffer 0

    fields : deserialize (serialize h buffer) ≡ h
    fields = λ i. record {
      msg_type =
          (bytes_to_field_value_apart h.data_length inner 2 0 (omega arith)
              ∙ bytes_to_field_value-field_value_to_bytes h.msg_type buffer 0 type_fits
                  (omega arith))
            i;
      data_length =
          bytes_to_field_value-field_value_to_bytes h.data_length inner 2 length_fits
            (omega (arith, inner_length)) i;
    }

-- A header is read from the first four bytes.
pub deserialize-take :
    (buffer : List ℕ) (n : ℕ) → header_size ≤ n → deserialize (take n buffer) ≡ deserialize buffer
unfolding deserialize bytes_to_field_value
deserialize-take buffer n h = rw (
  get_or-take buffer n 0 0 (omega arith),
  get_or-take buffer n 1 0 (omega arith),
  get_or-take buffer n 2 0 (omega arith),
  get_or-take buffer n 3 0 (omega arith),
)
