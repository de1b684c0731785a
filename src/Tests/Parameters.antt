-- ===== src/Tests/Parameters.antt =====
-- Examples for Arguments.cpp and ip_parse.cpp.
use universal_fencing_hub.Base.{
  ℕ, ◌≡◌, ◌≢◌, refl, true, false, List, [], ◌∷◌, Option, none, some, arith, suc, ◌*◌, ◌^◌,
}
use universal_fencing_hub.CharBuffer.{c_str}
use universal_fencing_hub.CharBuffer.Plain.{Plain, plain_buffer}
use universal_fencing_hub.Outcome.{ok}
use universal_fencing_hub.NetClient.{Domain}
use universal_fencing_hub.Arguments.{Entry, process_argument, check_required}
use universal_fencing_hub.Arguments.Table.{table_map, lookup}
use universal_fencing_hub.Arguments.Processing.{process_argument-stored}
use universal_fencing_hub.SocketAddress.{
  ℤ, pos, proto_ipv4, parsed, htons, SocketAddress, init_socket_address,
}
use universal_fencing_hub.SocketAddress.Parsing.{keyword, init_socket_address-only}

abbrev text : List ℕ → Plain
text bytes = record { bytes = bytes; room = 16 }

-- The key `K` with no value so far, and the key `L` with one that is required.
abbrev open_entry : Entry Plain
open_entry = record { value = text []; required = true; present = false }

abbrev filled_entry : Entry Plain
filled_entry = record { value = text (66 ∷ []); required = true; present = true }

abbrev arguments : List (List ℕ × Entry Plain)
arguments = (75 ∷ [], open_entry) ∷ (76 ∷ [], filled_entry) ∷ []

process_argument-stored_example :
    (n : List (List ℕ × Entry Plain)) × (stored : Entry Plain) × (process_argument arguments
        (text (75 ∷ b'=' ∷ 65 ∷ []))
      ≡ ok n tt)
    × (lookup n (75 ∷ []) ≡ some stored)
    × (stored.value.bytes ≡ 65 ∷ [])
    × (stored.present ≡ true)
    × (stored.required ≡ true)
    × ((other : List ℕ) → other ≢ 75 ∷ [] → lookup n other ≡ lookup arguments other)
process_argument-stored_example =
    process_argument-stored arguments (text (75 ∷ b'=' ∷ 65 ∷ [])) (75 ∷ []) (65 ∷ []) open_entry
      refl (omega arith) refl refl (omega arith)

-- The table once both have values.
abbrev filled : List (List ℕ × Entry Plain)
filled = (75 ∷ [], filled_entry) ∷ (76 ∷ [], filled_entry) ∷ []

filled_passes : check_required Plain filled ≡ ok filled tt
unfolding check_required
filled_passes = refl

-- The port 80, of a number parser that knows no other, and every address is accepted.
abbrev parse : List ℕ → Option ℕ
parse [] = none
parse (digit ∷ digits) = some 80

abbrev accepts : Domain → List ℕ → ℤ × List ℕ
accepts domain ip = (pos 1, 127 ∷ 0 ∷ 0 ∷ 1 ∷ [])

abbrev local_http : SocketAddress
local_http = record { family = Domain.inet4; port = 80 * 2 ^ 8; addr = 127 ∷ 0 ∷ 0 ∷ 1 ∷ [] }

local_http-parsed :
    init_socket_address parse accepts (text proto_ipv4) (text (49 ∷ [])) (text (56 ∷ []))
    ≡ parsed local_http
unfolding init_socket_address htons
local_http-parsed = refl

init_socket_address-only_example :
    (port : ℕ) × (proto_ipv4 ≡ keyword Domain.inet4)
    × (some 80 ≡ some (suc port))
    × (accepts Domain.inet4 (c_str (49 ∷ [])) ≡ (pos 1, 127 ∷ 0 ∷ 0 ∷ 1 ∷ []))
    × (80 * 2 ^ 8 ≡ htons (suc port))
init_socket_address-only_example =
    init_socket_address-only parse accepts (text proto_ipv4) (text (49 ∷ [])) (text (56 ∷ []))
      local_http local_http-parsed
