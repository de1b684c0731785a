-- ===== src/Parameters/Server.antt =====
-- ServerParameters.cpp: the keys of the server, and its command line.
use universal_fencing_hub.Base.{ℕ, List, [], ◌∷◌, Option, none, some, if◌then◌else◌, length}
use universal_fencing_hub.CharBuffer.{CharBuffer, starts_with}
use universal_fencing_hub.Outcome.{Outcome, ok, throw, arguments_exception}
use universal_fencing_hub.Arguments.{Entry, ArgMap, process_argument}
use universal_fencing_hub.Parameters.Client.{key_protocol, key_tcp_port}
use universal_fencing_hub.Parameters.{
  add_entries, mark_each, protocol_param_size, ip_addr_param_size, port_param_size,
  module_param_size,
}

-- MAX_PARAMETER_SIZE
abbrev pub max_parameter_size : ℕ
max_parameter_size = 1100

abbrev pub key_bind_address : List ℕ
key_bind_address =
    b'b' ∷ b'i' ∷ b'n' ∷ b'd' ∷ b'_' ∷ b'a' ∷ b'd' ∷ b'd' ∷ b'r' ∷ b'e' ∷ b's' ∷ b's' ∷ []

abbrev pub key_fence_module : List ℕ
key_fence_module =
    b'f' ∷ b'e' ∷ b'n' ∷ b'c' ∷ b'e' ∷ b'_' ∷ b'm' ∷ b'o' ∷ b'd' ∷ b'u' ∷ b'l' ∷ b'e' ∷ []

abbrev pub opt_prefix : List ℕ
opt_prefix = b'-' ∷ b'-' ∷ []

module _ {B : Type 0} ⦃cb : CharBuffer B⦄ where
  -- An argument without its prefix; `none` is a RangeException.
  unfoldable pub strip_prefix : B → Option B
  strip_prefix crt_arg =
      if starts_with (cb.contents crt_arg) opt_prefix
      then cb.substring crt_arg (length opt_prefix) (length (cb.contents crt_arg))
      else some crt_arg

module _ {M B : Type 0} ⦃cb : CharBuffer B⦄ ⦃am : ArgMap M (Entry B)⦄ (make : ℕ → B)
    (assign_c_str : B → List ℕ → Option B) where
  -- `none` is an insertion that throws.
  unfoldable pub initialize : M → Option (Outcome M (Unit {0}))
  unfolding add_entries mark_each
  initialize m =
      elim (add_entries make m (
        (key_protocol, protocol_param_size)
        ∷ (key_bind_address, ip_addr_param_size)
        ∷ (key_tcp_port, port_param_size)
        ∷ (key_fence_module, module_param_size)
        ∷ [])) [
          | none ↦ none
          | some n ↦ some (
              mark_each B n
                (key_protocol ∷ key_bind_address ∷ key_tcp_port ∷ key_fence_module ∷ []))
        ]

  -- One argument of the command line. The RangeException of either call becomes an ArgumentsException
  -- behind the loop.
  unfoldable pub read_argument : M → B → List ℕ → Outcome M (Unit {0})
  unfolding strip_prefix process_argument
  read_argument m crt_arg argument = elim (assign_c_str crt_arg argument) [
    | none ↦ throw m arguments_exception
    | some whole ↦ elim (strip_prefix whole) [
      | none ↦ throw m arguments_exception
      | some stripped ↦ process_argument m stripped
    ]
  ]

  -- `argv` is what follows the program's name. The one buffer is assigned to anew for each argument.
  unfoldable pub read_parameters : M → List (List ℕ) → Outcome M (Unit {0})
  unfolding read_argument
  read_parameters m [] = ok m tt
  read_parameters m (argument ∷ argv) = elim (read_argument m (make max_parameter_size) argument) [
    | throw n e ↦ throw n e
    | ok n _ ↦ read_parameters n argv
  ]
