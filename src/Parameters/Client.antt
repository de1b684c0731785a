-- ===== src/Parameters/Client.antt =====
-- ClientParameters.cpp: the keys and actions of the client, and the lines of its standard input.
pub mod Reading
use universal_fencing_hub.Base.{
  ℕ, ◌+◌, ◌-◌, Bool, true, false, List, [], ◌∷◌, Option, none, some, ltb, if◌then◌else◌, length,
}
use universal_fencing_hub.CharBuffer.{CharBuffer, c_str}
use universal_fencing_hub.Outcome.{
  Outcome, ok, throw, os_exception, range_exception, bad_alloc, OsError,
}
use universal_fencing_hub.Arguments.{Entry, ArgMap, process_argument, mark_required}
use universal_fencing_hub.Parameters.{
  add_entries, mark_each, protocol_param_size, ip_addr_param_size, port_param_size,
  secret_param_size, nodename_param_size, action_param_size,
}

abbrev pub key_action : List ℕ
key_action = b'a' ∷ b'c' ∷ b't' ∷ b'i' ∷ b'o' ∷ b'n' ∷ []

abbrev pub key_protocol : List ℕ
key_protocol = b'p' ∷ b'r' ∷ b'o' ∷ b't' ∷ b'o' ∷ b'c' ∷ b'o' ∷ b'l' ∷ []

abbrev pub key_ip_address : List ℕ
key_ip_address = b'i' ∷ b'p' ∷ b'_' ∷ b'a' ∷ b'd' ∷ b'd' ∷ b'r' ∷ b'e' ∷ b's' ∷ b's' ∷ []

abbrev pub key_tcp_port : List ℕ
key_tcp_port = b't' ∷ b'c' ∷ b'p' ∷ b'_' ∷ b'p' ∷ b'o' ∷ b'r' ∷ b't' ∷ []

abbrev pub key_secret : List ℕ
key_secret = b's' ∷ b'e' ∷ b'c' ∷ b'r' ∷ b'e' ∷ b't' ∷ []

abbrev pub key_nodename : List ℕ
key_nodename = b'n' ∷ b'o' ∷ b'd' ∷ b'e' ∷ b'n' ∷ b'a' ∷ b'm' ∷ b'e' ∷ []

abbrev pub action_off : List ℕ
action_off = b'o' ∷ b'f' ∷ b'f' ∷ []

abbrev pub action_on : List ℕ
action_on = b'o' ∷ b'n' ∷ []

abbrev pub action_reboot : List ℕ
action_reboot = b'r' ∷ b'e' ∷ b'b' ∷ b'o' ∷ b'o' ∷ b't' ∷ []

abbrev pub action_metadata : List ℕ
action_metadata = b'm' ∷ b'e' ∷ b't' ∷ b'a' ∷ b'd' ∷ b'a' ∷ b't' ∷ b'a' ∷ []

abbrev pub action_status : List ℕ
action_status = b's' ∷ b't' ∷ b'a' ∷ b't' ∷ b'u' ∷ b's' ∷ []

abbrev pub action_list : List ℕ
action_list = b'l' ∷ b'i' ∷ b's' ∷ b't' ∷ []

abbrev pub action_monitor : List ℕ
action_monitor = b'm' ∷ b'o' ∷ b'n' ∷ b'i' ∷ b't' ∷ b'o' ∷ b'r' ∷ []

abbrev pub action_start : List ℕ
action_start = b's' ∷ b't' ∷ b'a' ∷ b'r' ∷ b't' ∷ []

abbrev pub action_stop : List ℕ
action_stop = b's' ∷ b't' ∷ b'o' ∷ b'p' ∷ []

-- MAX_PARAMETER_SIZE
abbrev pub max_parameter_size : ℕ
max_parameter_size = 512

-- What a call of getline finds: a line that a newline ends, the last line, which the end of the input
-- ends, a line that fills the buffer, of which the bytes are those that fit, or an I/O error.
pub data Line : Type 0 where
  ended unended overlong : List ℕ → Line
  broken : Line

-- gcount: the newline counts.
unfoldable pub gcount : Line → ℕ
gcount (ended text) = length text + 1
gcount (unended text) = length text
gcount (overlong text) = length text
gcount broken = 0

abbrev pub line_buffer : Line → List ℕ
line_buffer (ended text) = text
line_buffer (unended text) = text
line_buffer (overlong text) = text
line_buffer broken = []

module _ {M B : Type 0} ⦃cb : CharBuffer B⦄ ⦃am : ArgMap M (Entry B)⦄ (make : ℕ → B)
    (assign_c_str : B → List ℕ → Option B) where
  -- `none` is an insertion that throws.
  unfoldable pub initialize : M → Option (Outcome M (Unit {0}))
  unfolding add_entries mark_each
  initialize m =
      elim (add_entries make m (
        (key_action, action_param_size)
        ∷ (key_protocol, protocol_param_size)
        ∷ (key_ip_address, ip_addr_param_size)
        ∷ (key_tcp_port, port_param_size)
        ∷ (key_nodename, nodename_param_size)
        ∷ (key_secret, secret_param_size)
        ∷ [])) [ none ↦ none | some n ↦ some (mark_each B n (key_action ∷ [])) ]

  -- The argument of one line. `assign_c_str` is the assignment of a C string to a CharBuffer, with
  -- `none` for its RangeException.
  unfoldable pub read_line : M → Line → Outcome M (Unit {0})
  unfolding gcount
  read_line m line =
      if ltb 1 (gcount line)
      then elim (assign_c_str (make (gcount line - 1)) (c_str (line_buffer line))) [
        | none ↦ throw m range_exception
        | some crt_arg ↦ process_argument m crt_arg
      ]
      else ok m tt

  -- The loop, while the stream is good, and the test behind it: the lines that getline finds, until
  -- the input ends.
  unfoldable pub read_parameters : M → List Line → Outcome M (Unit {0})
  unfolding read_line
  read_parameters m [] = ok m tt
  read_parameters m (ended text ∷ lines) = elim (read_line m (ended text)) [
    | throw n e ↦ throw n e
    | ok n _ ↦ read_parameters n lines
  ]
  read_parameters m (unended text ∷ lines) = read_line m (unended text)
  read_parameters m (overlong text ∷ lines) = elim (read_line m (overlong text)) [
    | throw n e ↦ throw n e
    | ok n _ ↦ throw n (os_exception OsError.io_error)
  ]
  read_parameters m (broken ∷ lines) = throw m (os_exception OsError.io_error)
