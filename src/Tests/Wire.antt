-- ===== src/Tests/Wire.antt =====
-- Examples for MsgHeader.cpp and the fields of Shared.cpp.
use universal_fencing_hub.Base.{◌≡◌, refl, true, [], ◌∷◌, arith, drop}
use universal_fencing_hub.CharBuffer.Plain.{Plain, plain_buffer}
use universal_fencing_hub.Outcome.{ok}
use universal_fencing_hub.MsgHeader.{MsgHeader, header_size, serialize, deserialize}
use universal_fencing_hub.MsgHeader.RoundTrip.{deserialize-serialize}
use universal_fencing_hub.Protocol.{read_field, write_field, split_key_value_pair}
use universal_fencing_hub.Protocol.Fields.{write_field-encoded, read_field-encoded}
use universal_fencing_hub.Protocol.Pairs.{split_key_value_pair_lem}

abbrev fence_off_header : MsgHeader
fence_off_header = record { msg_type = 0x81; data_length = 30 }

deserialize-serialize_example :
    (deserialize (serialize fence_off_header (9 ∷ 9 ∷ 9 ∷ 9 ∷ 7 ∷ [])) ≡ fence_off_header)
    × (drop header_size (serialize fence_off_header (9 ∷ 9 ∷ 9 ∷ 9 ∷ 7 ∷ []))
        ≡ drop header_size (9 ∷ 9 ∷ 9 ∷ 9 ∷ 7 ∷ []))
deserialize-serialize_example =
    deserialize-serialize fence_off_header (9 ∷ 9 ∷ 9 ∷ 9 ∷ 7 ∷ []) (omega arith) (omega arith)
      (omega arith)

write_field-encoded_example :
    write_field (9 ∷ 0 ∷ 0 ∷ 0 ∷ 8 ∷ []) 5 1 (65 ∷ []) ≡ ok (9 ∷ 0 ∷ 1 ∷ 65 ∷ 8 ∷ [], 4) tt
write_field-encoded_example =
    write_field-encoded (9 ∷ []) 0 0 (0 ∷ []) (8 ∷ []) (65 ∷ []) 5 refl (omega arith) (omega arith)

abbrev blank : Plain
blank = record { bytes = []; room = 16 }

read_field-encoded_example :
    (result : Plain) × (read_field (9 ∷ 0 ∷ 1 ∷ 65 ∷ 8 ∷ []) 5 1 blank ≡ ok (4, result) true)
    × (result.bytes ≡ 65 ∷ [])
    × (result.room ≡ 16)
read_field-encoded_example =
    read_field-encoded (9 ∷ []) (65 ∷ []) (8 ∷ []) 5 blank (omega arith) (omega arith) (omega arith)

split_key_value_pair_lem_example :
    (k v : Plain) × (split_key_value_pair (record blank { bytes = 75 ∷ b'=' ∷ 65 ∷ [] }) blank
      ≡ ok (k, v) tt)
    × (k.bytes ≡ 75 ∷ [])
    × (v.bytes ≡ 65 ∷ [])
    × (k.room ≡ 16)
    × (v.room ≡ 16)
split_key_value_pair_lem_example =
    split_key_value_pair_lem (record blank { bytes = 75 ∷ b'=' ∷ 65 ∷ [] }) blank (75 ∷ [])
      (65 ∷ []) refl (omega arith) (omega arith)
