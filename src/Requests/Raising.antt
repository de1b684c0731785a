-- ===== src/Requests/Raising.antt =====
-- ServerConnector.cpp, fence_action: the exceptions that the loop over the fields of a request can end
-- with.
use universal_fencing_hub.Base.{
  ℕ, zero, suc, ◌≡◌, ◌⊎◌, inl, inr, Bool, Option, none, some, arith, ltb, Bool-cases, List,
}
use universal_fencing_hub.CharBuffer.{CharBuffer}
use universal_fencing_hub.Outcome.{Outcome, ok, throw, protocol_exception, range_exception}
use universal_fencing_hub.Protocol.{read_field, split_key_value_pair}
use universal_fencing_hub.NetClient.{NetClient}
use universal_fencing_hub.Requests.{
  store_field, value_stored, pair_split, field_read, next_field, read_fields,
}

-- A ProtocolException or a RangeException, if any.
abbrev pub Raises : {S A : Type 0} → Outcome S A → Type 0
Raises (ok s a) = Unit {0}
Raises (throw s e) = (e ≡ protocol_exception) ⊎ (e ≡ range_exception)

abbrev pub LoopRaises : {S A : Type 0} → Option (Outcome S A) → Type 0
LoopRaises none = Unit {0}
LoopRaises (some r) = Raises r

module _ {B : Type 0} ⦃cb : CharBuffer B⦄ where
  read_field-Raises :
      (io_buffer : List ℕ) (capacity offset : ℕ) (buffer : B)
      → Raises (read_field io_buffer capacity offset buffer)
  unfolding read_field
  read_field-Raises io_buffer capacity offset buffer = ground arith

  split_key_value_pair-Raises : (src value : B) → Raises (split_key_value_pair src value)
  unfolding split_key_value_pair
  split_key_value_pair-Raises src value = ground arith

  store_field-Raises : (c : NetClient B) → Raises (store_field c)
  unfolding store_field
  store_field-Raises c = ground arith

  value_stored-Raises :
      (offset : ℕ) (r : Outcome (NetClient B) (Unit {0}))
      → Raises r
      → Raises (value_stored offset r)
  unfolding value_stored
  value_stored-Raises offset (ok c _) h = tt
  value_stored-Raises offset (throw c e) h = h

  pair_split-Raises :
      (c : NetClient B) (offset : ℕ) (r : Outcome (B × B) (Unit {0}))
      → Raises r
      → Raises (pair_split c offset r)
  unfolding pair_split
  pair_split-Raises c offset (ok (key, value) _) h =
      value_stored-Raises offset _ (store_field-Raises _)
  pair_split-Raises c offset (throw (key, value) e) h = h

  field_read-Raises :
      (c : NetClient B) (r : Outcome (ℕ × B) Bool) → Raises r → Raises (field_read c r)
  unfolding field_read
  field_read-Raises c (ok (offset, field) _) h =
      pair_split-Raises c offset _ (split_key_value_pair-Raises field c.value_buffer)
  field_read-Raises c (throw (offset, field) e) h = h

  next_field-Raises : (c : NetClient B) (offset : ℕ) → Raises (next_field c offset)
  unfolding next_field
  next_field-Raises c offset =
      field_read-Raises c _ (read_field-Raises c.io_buffer c.io_offset offset c.key_buffer)

  -- The loop over the fields ends with no other exception than these two.
  pub read_fields-Raises :
      (rounds : ℕ) (c : NetClient B) (offset : ℕ) → LoopRaises (read_fields rounds c offset)
  unfolding read_fields
  read_fields-Raises zero c offset = tt
  read_fields-Raises (suc rounds) c offset = elim (Bool-cases (ltb offset c.io_offset)) [
    | inl more ↦ rw more (
        by_round (next_field c offset) (next_field-Raises c offset)
          (λ d next. read_fields-Raises rounds d next))
    | inr over ↦ rw over tt
  ]
    where
      by_round :
          (r : Outcome (NetClient B) ℕ)
          → Raises r
          → ((d : NetClient B) (next : ℕ) → LoopRaises (read_fields rounds d next))
          → LoopRaises
              (elim r [ throw d e ↦ some (throw d e) | ok d next ↦ read_fields rounds d next ])
      by_round (throw d e) h later = h
      by_round (ok d next) h later = later d next
