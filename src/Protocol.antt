-- ===== src/Protocol.antt =====
-- Shared.h and Shared.cpp, namespace protocol: the fields of a message and the key and value of a
-- field. There are two versions of each reader, one for CharBuffer and one for std::string; a
-- std::string is the list of its bytes.
pub mod Fields
pub mod Pairs
use universal_fencing_hub.Base.{
  ℕ, zero, suc, ◌+◌, ◌-◌, ◌*◌, ◌/◌, ◌%◌, ◌^◌, Bool, true, false, ◌&&◌, List, [], ◌∷◌, ◌++◌, Option,
  none, some, ltb, leb, if◌then◌else◌, length, get_or, set, slice, take, drop, bit_or, bit_and,
}
use universal_fencing_hub.CharBuffer.{CharBuffer, find}
use universal_fencing_hub.Outcome.{
  Outcome, ok, throw, Exception, protocol_exception, range_exception,
}

-- KEY_VALUE_SPLIT_SEQ, NODENAME and SECRET
abbrev pub key_value_split_seq : List ℕ
key_value_split_seq = b'=' ∷ []

abbrev pub nodename_key : List ℕ
nodename_key = b'N' ∷ b'O' ∷ b'D' ∷ b'E' ∷ b'N' ∷ b'A' ∷ b'M' ∷ b'E' ∷ []

abbrev pub secret_key : List ℕ
secret_key = b'S' ∷ b'E' ∷ b'C' ∷ b'R' ∷ b'E' ∷ b'T' ∷ []

-- The two length bytes in front of a field.
unfoldable pub field_length_at : List ℕ → ℕ → ℕ
field_length_at io_buffer offset =
    bit_or (get_or io_buffer offset 0 * 2 ^ 8 % 2 ^ 16) (get_or io_buffer (offset + 1) 0)

module _ {B : Type 0} ⦃cb : CharBuffer B⦄ where
  -- read_field into a CharBuffer. The state is the offset and the buffer.
  unfoldable pub read_field : List ℕ → ℕ → ℕ → B → Outcome (ℕ × B) Bool
  read_field io_buffer io_buffer_capacity offset field_buffer =
      let cleared = cb.clear field_buffer in
      let field_length = field_length_at io_buffer offset in
      let copied : Outcome (ℕ × B) Bool =
        elim (cb.substring_raw_from cleared io_buffer (offset + 2) (offset + 2 + field_length)) [
          | none ↦ throw (offset, cleared) protocol_exception
          | some field ↦ ok (offset + (field_length + 2), field) true
        ] in
      if ltb offset io_buffer_capacity && leb 2 (io_buffer_capacity - offset)
      then (if leb field_length (io_buffer_capacity - offset - 2)
          then copied
          else throw (offset, cleared) protocol_exception)
      else throw (offset, cleared) protocol_exception

  -- split_key_value_pair of CharBuffers. The state is the key, read from, and the value.
  unfoldable pub split_key_value_pair : B → B → Outcome (B × B) (Unit {0})
  split_key_value_pair src_data value = elim (cb.index_of src_data key_value_split_seq) [
    | none ↦ throw (src_data, value) protocol_exception
    | some split_idx ↦
        elim (cb.substring_from value src_data (split_idx + length key_value_split_seq)
          (length (cb.contents src_data))) [
            | none ↦ throw (src_data, value) protocol_exception
            | some value' ↦ elim (cb.substring src_data 0 split_idx) [
              | none ↦ throw (src_data, value') protocol_exception
              | some key ↦ ok (key, value') tt
            ]
          ]
  ]

-- read_field into a std::string, to which the field is appended.
unfoldable pub read_field_string : List ℕ → ℕ → ℕ → List ℕ → Outcome (ℕ × List ℕ) Bool
read_field_string io_buffer io_buffer_capacity offset field_contents =
    let field_length = field_length_at io_buffer offset in
    let field = slice io_buffer (offset + 2) (offset + 2 + field_length) in
    if ltb offset io_buffer_capacity && leb 2 (io_buffer_capacity - offset)
    then (if leb field_length (io_buffer_capacity - offset - 2)
        then ok (offset + (field_length + 2), field_contents ++ field) true
        else throw (offset, field_contents) protocol_exception)
    else throw (offset, field_contents) protocol_exception

-- The loop of write_field_impl: the bytes of the field, from `offset` on.
copy_field : List ℕ → List ℕ → ℕ → List ℕ × ℕ
copy_field [] io_buffer offset = (io_buffer, offset)
copy_field (byte ∷ field_data) io_buffer offset =
    copy_field field_data (set io_buffer offset byte) (offset + 1)

-- write_field_impl, which both versions of write_field call. The state is the buffer and the offset.
unfoldable pub write_field : List ℕ → ℕ → ℕ → List ℕ → Outcome (List ℕ × ℕ) (Unit {0})
unfolding copy_field
write_field io_buffer io_buffer_capacity offset field_data =
    let field_length = length field_data in
    let remain_capacity = io_buffer_capacity - offset in
    let with_length =
      set (set io_buffer offset (field_length / 2 ^ 8 % 2 ^ 8)) (offset + 1)
        (bit_and field_length 0xFF) in
    if ltb 0xFFFF field_length
    then throw (io_buffer, offset) protocol_exception
    else (if ltb offset io_buffer_capacity
        then (if ltb field_length remain_capacity && leb 2 (remain_capacity - field_length)
            then ok (copy_field field_data with_length (offset + 2)) tt
            else throw (io_buffer, offset) protocol_exception)
        else throw (io_buffer, offset) protocol_exception)

-- split_key_value_pair of std::strings.
unfoldable pub split_key_value_string : List ℕ → List ℕ → Outcome (List ℕ × List ℕ) (Unit {0})
split_key_value_string src_data value = elim (find src_data key_value_split_seq) [
  | none ↦ throw (src_data, value) protocol_exception
  | some split_idx ↦
      ok (take split_idx src_data, value ++ drop (split_idx + length key_value_split_seq) src_data)
        tt
]
