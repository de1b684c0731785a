-- ===== src/Protocol/Pairs.antt =====
-- Shared.cpp: splitting a field at the first `=`.
use universal_fencing_hub.Base.{
  ℕ, ◌+◌, ◌-◌, ◌≤◌, ◌≡◌, ◌≢◌, refl, ap, ◌∙◌, List, [], ◌∷◌, ◌++◌, none, some, arith, length, slice,
  take, length-append, drop-append, take-append,
}
use universal_fencing_hub.CharBuffer.{CharBuffer, find}
use universal_fencing_hub.Outcome.{ok, throw, protocol_exception}
use universal_fencing_hub.Protocol.{
  key_value_split_seq, split_key_value_pair, split_key_value_string,
}

-- No `=` stands in the byte string.
abbrev pub NoSplit : List ℕ → Type 0
NoSplit [] = Unit {0}
NoSplit (x ∷ xs) = (x ≢ b'=') × NoSplit xs

pub find-NoSplit :
    (key value : List ℕ)
    → NoSplit key
    → find (key ++ (b'=' ∷ value)) key_value_split_seq ≡ some (length key)
find-NoSplit [] value h = refl
find-NoSplit (k ∷ key) value h = ground (arith, find-NoSplit key value h.1)

find_nowhere : (key : List ℕ) → NoSplit key → find key key_value_split_seq ≡ none
find_nowhere [] h = refl
find_nowhere (k ∷ key) h = ground (arith, find_nowhere key h.1)

take-all : (xs : List ℕ) → take (length xs) xs ≡ xs
take-all [] = refl
take-all (x ∷ xs) = ap (λ t. x ∷ t) (take-all xs)

value-slice :
    (key value : List ℕ)
    → slice (key ++ (b'=' ∷ value)) (length key + 1) (length (key ++ (b'=' ∷ value))) ≡ value
value-slice key value =
    let count : length (key ++ (b'=' ∷ value)) - (length key + 1) ≡ length value =
      omega (arith, length-append key (b'=' ∷ value)) in
    rw (count, drop-append key (b'=' ∷ value) 1) (take-all value)

module _ {B : Type 0} ⦃cb : CharBuffer B⦄ where
  -- A field `key=value` whose key holds no `=`, in a buffer, is split into the key and the value, if
  -- the value's buffer has room for it.
  pub split_key_value_pair_lem :
      (src_data value_buffer : B) (key value : List ℕ)
      → cb.contents src_data ≡ key ++ (b'=' ∷ value)
      → NoSplit key
      → length value ≤ cb.capacity value_buffer
      → (k : B) × (v : B) × (split_key_value_pair src_data value_buffer ≡ ok (k, v) tt)
        × (cb.contents k ≡ key)
        × (cb.contents v ≡ value)
        × (cb.capacity k ≡ cb.capacity src_data)
        × (cb.capacity v ≡ cb.capacity value_buffer)
  unfolding split_key_value_pair
  split_key_value_pair_lem src_data value_buffer key value e plain room =
      let total = length-append key (b'=' ∷ value) in
      let size : length (cb.contents src_data) ≡ length (key ++ (b'=' ∷ value)) = ap length e in
      let at =
        cb.index_of_lem src_data key_value_split_seq
        ∙ ap (λ t. find t key_value_split_seq) e
        ∙ find-NoSplit key value plain in
      let got =
        cb.substring_from_holds value_buffer src_data (length key + 1)
          (length (cb.contents src_data)) (omega arith) (omega arith) (omega arith) in
      let whole : length key - 0 ≡ length key = omega arith in
      let kept = cb.substring_holds src_data 0 (length key) (omega arith) (omega arith) in
      (
        kept.result,
        got.result,
        rw (at, split_key_value_pair, got.returned, kept.returned),
        kept.held
            ∙ ap (λ t. slice t 0 (length key)) e
            ∙ ap (λ t. take t (key ++ (b'=' ∷ value))) whole
            ∙ take-append key (b'=' ∷ value),
        got.held ∙ ap (λ t. slice t (length key + 1) (length t)) e ∙ value-slice key value,
        kept.kept,
        got.kept,
      )

  -- A field with no `=` is a protocol error, and both buffers stay as they were.
  pub split_key_value_pair-throw :
      (src_data value_buffer : B)
      → NoSplit (cb.contents src_data)
      → split_key_value_pair src_data value_buffer
        ≡ throw (src_data, value_buffer) protocol_exception
  unfolding split_key_value_pair
  split_key_value_pair-throw src_data value_buffer plain = rw (
    cb.index_of_lem src_data key_value_split_seq ∙ find_nowhere (cb.contents src_data) plain,
    split_key_value_pair,
  )

-- The std::string version, which appends the value.
pub split_key_value_string_lem :
    (key value before : List ℕ)
    → NoSplit key
    → split_key_value_string (key ++ (b'=' ∷ value)) before ≡ ok (key, before ++ value) tt
unfolding split_key_value_string
split_key_value_string_lem key value before plain = rw (
  find-NoSplit key value plain,
  split_key_value_string,
  take-append key (b'=' ∷ value),
  drop-append key (b'=' ∷ value) 1,
)
