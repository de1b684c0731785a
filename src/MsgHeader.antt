-- ===== src/MsgHeader.antt =====
-- MsgHeader.h and MsgHeader.cpp: the four byte header of every message, and its wire format. An
-- I/O buffer is the list of its bytes; `char` is read through `unsigned char`, so a byte is a number
-- below 256.
pub mod RoundTrip
use universal_fencing_hub.Base.{
  ℕ, ◌+◌, ◌*◌, ◌/◌, ◌%◌, ◌^◌, Bool, List, ◌==◌, get_or, set, bit_or, bit_and,
}

abbrev pub header_size : ℕ
header_size = 4

abbrev pub msg_type_offset : ℕ
msg_type_offset = 0

abbrev pub data_length_offset : ℕ
data_length_offset = 2

pub record MsgHeader : Type 0 where
  pub msg_type : ℕ
  pub data_length : ℕ

-- enum class MsgType : uint16_t
pub data MsgType : Type 0 where
  echo_request echo_reply version_request : MsgType
  fence_off fence_on fence_reboot fence_success fence_fail : MsgType

-- static_cast<uint16_t> of a message type
unfoldable pub code_of : MsgType → ℕ
code_of MsgType.echo_request = 0x0
code_of MsgType.echo_reply = 0x1
code_of MsgType.version_request = 0x2
code_of MsgType.fence_off = 0x81
code_of MsgType.fence_on = 0x82
code_of MsgType.fence_reboot = 0x83
code_of MsgType.fence_success = 0xA0
code_of MsgType.fence_fail = 0xA1

-- The header that `MsgHeader()` and `clear()` leave.
unfoldable pub cleared : MsgHeader
cleared = record { msg_type = 0xFFFF; data_length = 0 }

unfoldable pub is_msg_type : MsgHeader → MsgType → Bool
unfolding code_of
is_msg_type h value = h.msg_type == code_of value

unfoldable pub set_msg_type : MsgHeader → MsgType → MsgHeader
unfolding code_of
set_msg_type h value = record h { msg_type = code_of value }

-- `value <<= 8` on a uint16_t drops what passes 16 bits.
unfoldable pub bytes_to_field_value : List ℕ → ℕ → ℕ
bytes_to_field_value buffer offset =
    bit_or (get_or buffer offset 0 * 2 ^ 8 % 2 ^ 16) (get_or buffer (offset + 1) 0)

unfoldable pub field_value_to_bytes : ℕ → List ℕ → ℕ → List ℕ
field_value_to_bytes value buffer offset =
    set (set buffer offset (value / 2 ^ 8 % 2 ^ 8)) (offset + 1) (bit_and value 0xFF)

unfoldable pub serialize : MsgHeader → List ℕ → List ℕ
unfolding field_value_to_bytes
serialize h io_buffer =
    field_value_to_bytes h.data_length (field_value_to_bytes h.msg_type io_buffer msg_type_offset)
      data_length_offset

unfoldable pub deserialize : List ℕ → MsgHeader
unfolding bytes_to_field_value
deserialize io_buffer = record {
  msg_type = bytes_to_field_value io_buffer msg_type_offset;
  data_length = bytes_to_field_value io_buffer data_length_offset;
}
