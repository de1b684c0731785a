-- ===== src/Requests/Fields.antt =====
-- ServerConnector.cpp, fence_action: the loop over the fields of a request.
use universal_fencing_hub.Base.{
  ℕ, zero, suc, ◌+◌, ◌≤◌, ◌<◌, ◌≡◌, refl, ◌∙◌, ◌⊎◌, inl, inr, Bool, true, false, Option, none, some,
  arith, ltb, Bool-cases, ltb→lt,
}
use universal_fencing_hub.CharBuffer.{CharBuffer}
use universal_fencing_hub.Outcome.{Outcome, ok, throw, state_of, raised}
use universal_fencing_hub.Protocol.{read_field, split_key_value_pair}
use universal_fencing_hub.Protocol.Fields.{read_field-progress}
use universal_fencing_hub.NetClient.{NetClient}
use universal_fencing_hub.Requests.{
  store_field, value_stored, pair_split, field_read, next_field, read_fields,
}

-- What the loop over the fields leaves alone.
pub record SameMessage {B : Type 0} (c d : NetClient B) : Type 0 where
  pub io_buffer : d.io_buffer ≡ c.io_buffer
  pub io_offset : d.io_offset ≡ c.io_offset
  pub have_header : d.have_header ≡ c.have_header
  pub socket_fd : d.socket_fd ≡ c.socket_fd
  pub current_phase : d.current_phase ≡ c.current_phase
  pub io_state : d.io_state ≡ c.io_state

SameMessage-refl : {B : Type 0} (c : NetClient B) → SameMessage c c
SameMessage-refl c = record {
  io_buffer = refl;
  io_offset = refl;
  have_header = refl;
  socket_fd = refl;
  current_phase = refl;
  io_state = refl;
}

SameMessage-trans :
    {B : Type 0} {c d e : NetClient B} → SameMessage c d → SameMessage d e → SameMessage c e
SameMessage-trans p q = record {
  io_buffer = q.io_buffer ∙ p.io_buffer;
  io_offset = q.io_offset ∙ p.io_offset;
  have_header = q.have_header ∙ p.have_header;
  socket_fd = q.socket_fd ∙ p.socket_fd;
  current_phase = q.current_phase ∙ p.current_phase;
  io_state = q.io_state ∙ p.io_state;
}

module _ {B : Type 0} ⦃cb : CharBuffer B⦄ where
  store_field-SameMessage : (c : NetClient B) → SameMessage c (state_of (store_field c))
  unfolding store_field
  store_field-SameMessage c = ground arith

  -- A round that does not throw moves at least two bytes on.
  abbrev Advances : NetClient B → ℕ → Outcome (NetClient B) ℕ → Type 0
  Advances c offset (ok d offset') = SameMessage c d × (offset + 2 ≤ offset')
  Advances c offset (throw d e) = SameMessage c d

  value_stored-Advances :
      (c : NetClient B) (offset offset' : ℕ) (r : Outcome (NetClient B) (Unit {0}))
      → SameMessage c (state_of r)
      → offset + 2 ≤ offset'
      → Advances c offset (value_stored offset' r)
  unfolding value_stored
  value_stored-Advances c offset offset' (ok e _) same far = (same, far)
  value_stored-Advances c offset offset' (throw e x) same far = same

  pair_split-Advances :
      (c : NetClient B) (offset offset' : ℕ) (r : Outcome (B × B) (Unit {0}))
      → offset + 2 ≤ offset'
      → Advances c offset (pair_split c offset' r)
  unfolding pair_split
  pair_split-Advances c offset offset' (ok (key, value) _) far =
      let d = record c { key_buffer = key; value_buffer = value } in
      let stored = store_field-SameMessage d in
      value_stored-Advances c offset offset' (store_field d)
        (record {
          io_buffer = stored.io_buffer;
          io_offset = stored.io_offset;
          have_header = stored.have_header;
          socket_fd = stored.socket_fd;
          current_phase = stored.current_phase;
          io_state = stored.io_state;
        })
        far
  pair_split-Advances c offset offset' (throw (key, value) e) far = record {
    io_buffer = refl;
    io_offset = refl;
    have_header = refl;
    socket_fd = refl;
    current_phase = refl;
    io_state = refl;
  }

  field_read-Advances :
      (c : NetClient B) (offset : ℕ) (r : Outcome (ℕ × B) Bool)
      → ((state_of r).0 ≡ offset) × (raised r ≡ true)
        ⊎ (offset + 2 ≤ (state_of r).0) × ((state_of r).0 ≤ c.io_offset) × (raised r ≡ false)
      → Advances c offset (field_read c r)
  unfolding field_read
  field_read-Advances c offset (ok (offset', field) _) (inl (e, h)) = cc
  field_read-Advances c offset (ok (offset', field) _) (inr (far, _, h)) =
      pair_split-Advances c offset offset' (split_key_value_pair field c.value_buffer) far
  field_read-Advances c offset (throw (offset', field) e) h = record {
    io_buffer = refl;
    io_offset = refl;
    have_header = refl;
    socket_fd = refl;
    current_phase = refl;
    io_state = refl;
  }

  next_field-Advances : (c : NetClient B) (offset : ℕ) → Advances c offset (next_field c offset)
  unfolding next_field
  next_field-Advances c offset =
      field_read-Advances c offset (read_field c.io_buffer c.io_offset offset c.key_buffer)
        (read_field-progress c.io_buffer c.io_offset offset c.key_buffer)

  -- A finished loop.
  abbrev pub Finished : NetClient B → Option (Outcome (NetClient B) (Unit {0})) → Type 0
  Finished c none = ⊥
  Finished c (some r) = SameMessage c (state_of r)

  -- What follows a round, which `read_fields` runs while there are bytes left.
  round_done : ℕ → Outcome (NetClient B) ℕ → Option (Outcome (NetClient B) (Unit {0}))
  round_done rounds (throw c e) = some (throw c e)
  round_done rounds (ok c offset) = read_fields rounds c offset

  round-Finished :
      (rounds : ℕ) (c : NetClient B) (offset : ℕ) (r : Outcome (NetClient B) ℕ)
      → Advances c offset r
      → ((d : NetClient B) (offset' : ℕ)
          → SameMessage c d
          → offset + 2 ≤ offset'
          → Finished d (read_fields rounds d offset'))
      → Finished c (round_done rounds r)
  unfolding round_done
  round-Finished rounds c offset (throw d e) same next = same
  round-Finished rounds c offset (ok d offset') (same, far) next =
      finish (read_fields rounds d offset') (next d offset' same far)
    where
      finish : (r : Option (Outcome (NetClient B) (Unit {0}))) → Finished d r → Finished c r
      finish none f = f
      finish (some out) f = SameMessage-trans same f

  -- With more rounds than there are bytes left, the loop over the fields ends, by itself or by an
  -- exception, and the message and the connection are as they were.
  pub read_fields-Finished :
      (rounds : ℕ) (c : NetClient B) (offset : ℕ)
      → c.io_offset < offset + rounds
      → 0 < rounds
      → Finished c (read_fields rounds c offset)
  unfolding read_fields next_field round_done
  read_fields-Finished zero c offset h pos = absurd (omega arith)
  read_fields-Finished (suc rounds) c offset h pos = elim (Bool-cases (ltb offset c.io_offset)) [
    | inl more ↦ rw more (
        round-Finished rounds c offset (next_field c offset) (next_field-Advances c offset)
          (λ d offset' same far.
            read_fields-Finished rounds d offset'
              (omega (arith, same.io_offset, ltb→lt offset c.io_offset more))
              (omega (arith, ltb→lt offset c.io_offset more))))
    | inr over ↦ rw over (SameMessage-refl c)
  ]
