-- ===== src/CharBuffer/Plain.antt =====
-- A buffer that meets the interface: the bytes and the capacity. The examples run on it.
use universal_fencing_hub.Base.{
  ℕ, ◌+◌, ◌≤◌, ◌<◌, ◌≡◌, refl, List, [], Option, none, some, ltb, bytes_eq, length, slice,
  if◌then◌else◌, le→ltb, lt→ltb,
}
use universal_fencing_hub.CharBuffer.{find, Holds, CharBuffer}

pub record Plain : Type 0 where
  pub bytes : List ℕ
  pub room : ℕ

abbrev pub cut : Plain → List ℕ → ℕ → ℕ → Option Plain
cut b raw start end =
    if ltb (start + b.room) end then none else some (record b { bytes = slice raw start end })

abbrev pub put : Plain → Plain → Option Plain
put b src = if ltb b.room (length src.bytes) then none else some (record b { bytes = src.bytes })

pub holds :
    (b : Plain) (xs : List ℕ)
    → Holds (λ (c : Plain). c.bytes) (λ (c : Plain). c.room) b xs (some (record b { bytes = xs }))
holds b xs = record { result = record b { bytes = xs }; returned = refl; held = refl; kept = refl }

pub put-Holds :
    (b src : Plain)
    → length src.bytes ≤ b.room
    → Holds (λ (c : Plain). c.bytes) (λ (c : Plain). c.room) b src.bytes (put b src)
put-Holds b src fits = rw (le→ltb b.room (length src.bytes) fits) (holds b src.bytes)

pub cut-Holds :
    (b : Plain) (raw : List ℕ) (start end : ℕ)
    → end ≤ start + b.room
    → Holds
        (λ (c : Plain). c.bytes)
        (λ (c : Plain). c.room)
        b
        (slice raw start end)
        (cut b raw start end)
cut-Holds b raw start end fits =
    rw (le→ltb (start + b.room) end fits) (holds b (slice raw start end))

pub cut-full :
    (b : Plain) (raw : List ℕ) (start end : ℕ) → start + b.room < end → cut b raw start end ≡ none
cut-full b raw start end over = rw (lt→ltb (start + b.room) end over)

instance abbrev pub plain_buffer : CharBuffer Plain
plain_buffer = record {
  contents = λ c. c.bytes;
  capacity = λ c. c.room;
  clear = λ c. record c { bytes = [] };
  wipe = λ c. record c { bytes = [] };
  assign = put;
  substring_raw_from = cut;
  substring_from = λ b src. cut b src.bytes;
  substring = λ b start end. some (record b { bytes = slice b.bytes start end });
  index_of = λ b pattern. find b.bytes pattern;
  equals = λ b text. bytes_eq b.bytes text;
  contents-clear = λ b. refl;
  capacity-clear = λ b. refl;
  contents-wipe = λ b. refl;
  capacity-wipe = λ b. refl;
  assign_holds = put-Holds;
  substring_raw_from_holds = λ b raw start end p q r. cut-Holds b raw start end r;
  substring_raw_from_full = cut-full;
  substring_from_holds = λ b src start end p q r. cut-Holds b src.bytes start end r;
  substring_holds = λ b start end p q. holds b (slice b.bytes start end);
  index_of_lem = λ b pattern. refl;
  equals_lem = λ b text. refl;
}
