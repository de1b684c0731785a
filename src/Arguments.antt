-- ===== src/Arguments.antt =====
-- Arguments.h and Arguments.cpp: the table of a program's arguments, each `key=value`. The map itself is
-- a class of the external library cppdsaext; `ArgMap` is the interface of what is used of it. The
-- texts of the exceptions are left out.
pub mod Processing
pub mod Table
use universal_fencing_hub.Base.{
  ℕ, ◌+◌, ◌≡◌, ◌≢◌, ◌⊎◌, Bool, true, false, ◌&&◌, not, List, [], ◌∷◌, Option, none, some,
  if◌then◌else◌, length, slice,
}
use universal_fencing_hub.CharBuffer.{CharBuffer}
use universal_fencing_hub.Outcome.{Outcome, ok, throw, arguments_exception}

-- Arguments::Entry
pub record Entry (B : Type 0) : Type 0 where
  pub value : B
  pub required : Bool
  pub present : Bool

-- What occurs in a list.
abbrev pub Among : {A : Type 0} → A → List A → Type 0
Among x [] = ⊥
Among x (y ∷ ys) = (x ≡ y) ⊎ Among x ys

-- A key stands for the CharBuffer with its bytes. `replace` is a write through the pointer that `get`
-- returns, and `nodes` are what a NodesIterator gives, in its order. An insertion under a key that is
-- there throws, which is `none`.
pub record ArgMap (M : Type 0) (E : Type 0) : Type 0 where
  pub get : M → List ℕ → Option E
  pub replace : M → List ℕ → E → M
  pub insert : M → List ℕ → E → Option M
  pub nodes : M → List (List ℕ × E)
  pub get-replace_self :
      (m : M) (key : List ℕ) (e f : E) → get m key ≡ some e → get (replace m key f) key ≡ some f
  pub get-replace_ne :
      (m : M) (key other : List ℕ) (f : E) → other ≢ key → get (replace m key f) other ≡ get m other
  pub among-nodes : (m : M) (key : List ℕ) (e : E) → get m key ≡ some e → Among (key, e) (nodes m)

-- SPLIT_CHAR
abbrev pub split_char : List ℕ
split_char = b'=' ∷ []

-- The loop of check_required: whether a required value is missing.
unfoldable pub any_missing : {B : Type 0} → List (List ℕ × Entry B) → Bool
any_missing [] = false
any_missing ((key, entry) ∷ nodes) =
    let rest = any_missing nodes in if entry.required && not entry.present then true else rest

module _ {M B : Type 0} ⦃cb : CharBuffer B⦄ ⦃am : ArgMap M (Entry B)⦄ where
  -- `make` is the constructor of CharBuffer for a capacity.
  unfoldable pub add_entry : (ℕ → B) → M → List ℕ → ℕ → Option M
  add_entry make m key value_capacity =
      am.insert m key (record { value = make value_capacity; required = false; present = false })

  -- The assignment of the value, once the entry is found.
  unfoldable pub store_value : M → List ℕ → Entry B → Option B → Outcome M (Unit {0})
  store_value m key entry none = throw m arguments_exception
  store_value m key entry (some value) =
      ok (am.replace m key (record entry { value = value; present = true })) tt

  unfoldable pub store_argument : M → B → ℕ → List ℕ → Option (Entry B) → Outcome M (Unit {0})
  unfolding store_value
  store_argument m argument split_idx key none = throw m arguments_exception
  store_argument m argument split_idx key (some entry) =
      if entry.present
      then throw m arguments_exception
      else store_value m key entry
          (cb.substring_from entry.value argument (split_idx + 1) (length (cb.contents argument)))

  unfoldable pub process_argument : M → B → Outcome M (Unit {0})
  unfolding store_argument
  process_argument m argument = elim (cb.index_of argument split_char) [
    | none ↦ throw m arguments_exception
    | some split_idx ↦
        let search_key = slice (cb.contents argument) 0 split_idx in
        store_argument m argument split_idx search_key (am.get m search_key)
  ]

  unfoldable pub get_value : M → List ℕ → Outcome M B
  get_value m key = elim (am.get m key) [
    | none ↦ throw m arguments_exception
    | some entry ↦ ok m entry.value
  ]

module _ {M : Type 0} (B : Type 0) ⦃am : ArgMap M (Entry B)⦄ where
  unfoldable pub mark_required : M → List ℕ → Outcome M (Unit {0})
  mark_required m key = elim (am.get m key) [
    | none ↦ throw m arguments_exception
    | some entry ↦ ok (am.replace m key (record entry { required = true })) tt
  ]

  unfoldable pub check_required : M → Outcome M (Unit {0})
  unfolding any_missing
  check_required m = if any_missing (am.nodes m) then throw m arguments_exception else ok m tt
