-- ===== src/Arguments/Processing.antt =====
-- Arguments.cpp: what processing the arguments leaves in the table, and what the check of it shows.
use universal_fencing_hub.Base.{
  ℕ, ◌+◌, ◌-◌, ◌≤◌, ◌≡◌, ◌≢◌, refl, sym, ap, ◌∙◌, Bool, true, false, ◌&&◌, not, List, [], ◌∷◌, ◌++◌,
  none, some, arith, if◌then◌else◌, length, length-append, slice, take, drop, take-append,
  drop-append, inl, inr, ◌⊎◌, append-nil,
}
use universal_fencing_hub.CharBuffer.{CharBuffer, find}
use universal_fencing_hub.Outcome.{ok, throw, arguments_exception}
use universal_fencing_hub.Protocol.Pairs.{NoSplit, find-NoSplit}
use universal_fencing_hub.Arguments.{
  ArgMap, Among, Entry, split_char, any_missing, store_value, store_argument, process_argument,
  check_required,
}

-- Where nothing is missing, an entry with a required value has it.
Among-present :
    {B : Type 0} (nodes : List (List ℕ × Entry B)) (key : List ℕ) (entry : Entry B)
    → any_missing nodes ≡ false
    → Among (key, entry) nodes
    → entry.required ≡ true
    → entry.present ≡ true
unfolding any_missing
Among-present [] key entry h m r = absurd m
Among-present ((k, e) ∷ nodes) key entry h (inl here) r =
    let same : e ≡ entry = ap (λ t. t.1) (sym here) in
    ap (λ (t : Entry _). t.present) (sym same)
    ∙ first_present e.required e.present (any_missing nodes) h
        (ap (λ (t : Entry _). t.required) same ∙ r)
  where
    first_present :
        (required present rest : Bool)
        → (if required && not present then true else rest) ≡ false
        → required ≡ true
        → present ≡ true
    first_present required present rest h r = ground arith
Among-present ((k, e) ∷ nodes) key entry h (inr behind) r =
    Among-present nodes key entry (rest_present (e.required && not e.present) (any_missing nodes) h)
      behind r
  where
    rest_present : (missing rest : Bool) → (if missing then true else rest) ≡ false → rest ≡ false
    rest_present missing rest h = ground arith

module _ {M : Type 0} (B : Type 0) ⦃am : ArgMap M (Entry B)⦄ where
  -- When check_required returns, every argument in the table that is required has a value.
  pub check_required-present :
      (m : M) (key : List ℕ) (entry : Entry B)
      → check_required B m ≡ ok m tt
      → am.get m key ≡ some entry
      → entry.required ≡ true
      → entry.present ≡ true
  unfolding check_required
  check_required-present m key entry h found r =
      Among-present (am.nodes m) key entry (complete (any_missing (am.nodes m)) h)
        (am.among-nodes m key entry found) r
    where
      complete :
          (missing : Bool)
          → (if missing then throw m arguments_exception else ok m tt) ≡ ok m tt
          → missing ≡ false
      complete missing h = ground arith

module _ {M B : Type 0} ⦃cb : CharBuffer B⦄ ⦃am : ArgMap M (Entry B)⦄ where
  -- The key is what stands in front of the first `=`.
  process_argument-split :
      (m : M) (argument : B) (key value : List ℕ)
      → cb.contents argument ≡ key ++ (b'=' ∷ value)
      → NoSplit key
      → process_argument m argument ≡ store_argument m argument (length key) key (am.get m key)
  unfolding process_argument
  process_argument-split m argument key value is plain =
      let at : cb.index_of argument split_char ≡ some (length key) =
        cb.index_of_lem argument split_char
        ∙ ap (λ t. find t split_char) is
        ∙ find-NoSplit key value plain in
      let none_left : length key - 0 ≡ length key = omega arith in
      let search : slice (cb.contents argument) 0 (length key) ≡ key =
        ap (λ t. take t (cb.contents argument)) none_left
        ∙ ap (take (length key)) is
        ∙ take-append key (b'=' ∷ value) in
      rw (at, process_argument)
        (ap (λ t. store_argument m argument (length key) t (am.get m t)) search)

  store_argument-store :
      (m : M) (argument : B) (split_idx : ℕ) (key : List ℕ) (entry : Entry B)
      → entry.present ≡ false
      → store_argument m argument split_idx key (some entry)
        ≡ store_value m key entry
            (cb.substring_from entry.value argument (split_idx + 1) (length (cb.contents argument)))
  unfolding store_argument
  store_argument-store m argument split_idx key entry absent =
      ap
        (λ t.
          if t
          then throw m arguments_exception
          else store_value m key entry (
              cb.substring_from entry.value argument (split_idx + 1)
                (length (cb.contents argument))))
        absent

  -- Processing `key=value`, with no `=` in the key, for a key of the table without a value so
  -- far, in whose buffer the value fits, stores the value and marks it as present, and leaves
  -- every other key as it was.
  pub process_argument-stored :
      (m : M) (argument : B) (key value : List ℕ) (entry : Entry B)
      → cb.contents argument ≡ key ++ (b'=' ∷ value)
      → NoSplit key
      → am.get m key ≡ some entry
      → entry.present ≡ false
      → length value ≤ cb.capacity entry.value
      → (n : M) × (stored : Entry B) × (process_argument m argument ≡ ok n tt)
        × (am.get n key ≡ some stored)
        × (cb.contents stored.value ≡ value)
        × (stored.present ≡ true)
        × (stored.required ≡ entry.required)
        × ((other : List ℕ) → other ≢ key → am.get n other ≡ am.get m other)
  unfolding store_value
  process_argument-stored m argument key value entry is plain found absent room =
      let size : length (key ++ (b'=' ∷ value)) ≡ length key + 1 + length value =
        omega (arith, length-append key (b'=' ∷ value)) in
      let got =
        cb.substring_from_holds entry.value argument (length key + 1)
          (length (cb.contents argument)) (omega (arith, ap length is)) (omega arith)
          (omega (arith, ap length is)) in
      let rest : slice (cb.contents argument) (length key + 1) (length (cb.contents argument))
          ≡ value =
        value_part (cb.contents argument) is in
      let stored = record entry { value = got.result; present = true } in
      (
        am.replace m key stored,
        stored,
        process_argument-split m argument key value is plain
            ∙ ap (store_argument m argument (length key) key) found
            ∙ store_argument-store m argument (length key) key entry absent
            ∙ ap (store_value m key entry) got.returned,
        am.get-replace_self m key entry stored found,
        got.held ∙ rest,
        refl,
        refl,
        λ other ne. am.get-replace_ne m key other stored ne,
      )
    where
      value_part :
          (text : List ℕ)
          → text ≡ key ++ (b'=' ∷ value)
          → slice text (length key + 1) (length text) ≡ value
      value_part text e =
          let count : length (key ++ (b'=' ∷ value)) - (length key + 1) ≡ length value =
            omega (arith, length-append key (b'=' ∷ value)) in
          ap (λ t. slice t (length key + 1) (length t)) e
          ∙ ap (λ t. take t (drop (length key + 1) (key ++ (b'=' ∷ value)))) count
          ∙ ap (take (length value)) (drop-append key (b'=' ∷ value) 1)
          ∙ ap (take (length value)) (sym (append-nil value))
          ∙ take-append value []

  -- An argument `key=value`, with no `=` in the key, whose key is not in the table, or is there
  -- with a value, is refused with an exception, and the table stays.
  pub process_argument-refused :
      (m : M) (argument : B) (key value : List ℕ)
      → cb.contents argument ≡ key ++ (b'=' ∷ value)
      → NoSplit key
      → (am.get m key ≡ none)
        ⊎ ((entry : Entry B) × (am.get m key ≡ some entry) × (entry.present ≡ true))
      → process_argument m argument ≡ throw m arguments_exception
  unfolding store_argument
  process_argument-refused m argument key value is plain known =
      process_argument-split m argument key value is plain ∙ elim known [
        | inl unknown ↦ ap (store_argument m argument (length key) key) unknown
        | inr (entry, found, present) ↦
            ap (store_argument m argument (length key) key) found
            ∙ ap
                (λ t.
                  if t
                  then throw m arguments_exception
                  else store_value m key entry (
                      cb.substring_from entry.value argument (length key + 1)
                        (length (cb.contents argument))))
                present
      ]
