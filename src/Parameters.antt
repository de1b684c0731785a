-- ===== src/Parameters.antt =====
-- ClientParameters.h, ClientParameters.cpp, ServerParameters.h and ServerParameters.cpp: the arguments
-- of the two programs, and how they are read.
pub mod Client
pub mod Server
use universal_fencing_hub.Base.{ℕ, List, [], ◌∷◌, Option, none, some}
use universal_fencing_hub.CharBuffer.{CharBuffer}
use universal_fencing_hub.Outcome.{Outcome, ok, throw}
use universal_fencing_hub.Arguments.{Entry, ArgMap, add_entry, mark_required}

-- The sizes of the values, in namespace constraints.
abbrev pub protocol_param_size : ℕ
protocol_param_size = 10

abbrev pub ip_addr_param_size : ℕ
ip_addr_param_size = 60

abbrev pub port_param_size : ℕ
port_param_size = 6

abbrev pub secret_param_size : ℕ
secret_param_size = 64

abbrev pub nodename_param_size : ℕ
nodename_param_size = 255

abbrev pub module_param_size : ℕ
module_param_size = 1024

abbrev pub action_param_size : ℕ
action_param_size = 24

module _ {M B : Type 0} ⦃cb : CharBuffer B⦄ ⦃am : ArgMap M (Entry B)⦄ where
  -- A run of calls of add_entry. `make` is the constructor of CharBuffer, and `none` an insertion that
  -- throws.
  unfoldable pub add_entries : (ℕ → B) → M → List (List ℕ × ℕ) → Option M
  unfolding add_entry
  add_entries make m [] = some m
  add_entries make m ((key, value_capacity) ∷ entries) =
      elim (add_entry make m key value_capacity) [
        | none ↦ none
        | some n ↦ add_entries make n entries
      ]

module _ {M : Type 0} (B : Type 0) ⦃am : ArgMap M (Entry B)⦄ where
  -- A run of calls of mark_required.
  unfoldable pub mark_each : M → List (List ℕ) → Outcome M (Unit {0})
  unfolding mark_required
  mark_each m [] = ok m tt
  mark_each m (key ∷ keys) = elim (mark_required B m key) [
    | throw n e ↦ throw n e
    | ok n _ ↦ mark_each n keys
  ]
