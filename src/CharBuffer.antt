-- ===== src/CharBuffer.antt =====
-- The class CharBuffer of the external library cppdsaext, as an interface: a byte string with a
-- capacity. Only what the program uses of it is here, with the documented effect of each method.
pub mod Plain
use universal_fencing_hub.Base.{
  ℕ, suc, ◌+◌, ◌≤◌, ◌<◌, ◌≡◌, Bool, List, [], ◌∷◌, Option, none, some, ltb, bytes_eq, length, slice,
  drop, if◌then◌else◌, ◌&&◌, ◌==◌, leb, false, true,
}

-- Whether a byte string begins with another.
abbrev pub starts_with : List ℕ → List ℕ → Bool
starts_with xs [] = true
starts_with [] (p ∷ ps) = false
starts_with (x ∷ xs) (p ∷ ps) = (x == p) && starts_with xs ps

-- The first position at which `pattern` occurs, or `none` for NPOS.
abbrev pub find : List ℕ → List ℕ → Option ℕ
find [] pattern = if starts_with [] pattern then some 0 else none
find (x ∷ xs) pattern =
    let rest : Option ℕ = elim (find xs pattern) [ none ↦ none | some i ↦ some (suc i) ] in
    if starts_with (x ∷ xs) pattern then some 0 else rest

-- c_str, as the reader of a C string sees it: the bytes in front of the first NUL.
abbrev pub c_str : List ℕ → List ℕ
c_str [] = []
c_str (byte ∷ bytes) = if byte == 0 then [] else byte ∷ c_str bytes

-- `r` is a buffer of the given contents in the place of `b`.
pub record Holds {B : Type 0} (contents : B → List ℕ) (capacity : B → ℕ) (b : B) (xs : List ℕ)
    (r : Option B) : Type 0 where
  pub result : B
  pub returned : r ≡ some result
  pub held : contents result ≡ xs
  pub kept : capacity result ≡ capacity b

-- `none` is a RangeException. Of the buffer that a method throws on, the program reads nothing.
pub record CharBuffer (B : Type 0) : Type 0 where
  pub contents : B → List ℕ
  pub capacity : B → ℕ
  pub clear : B → B
  pub wipe : B → B
  pub assign : B → B → Option B
  pub substring_raw_from : B → List ℕ → ℕ → ℕ → Option B
  pub substring_from : B → B → ℕ → ℕ → Option B
  pub substring : B → ℕ → ℕ → Option B
  pub index_of : B → List ℕ → Option ℕ
  pub equals : B → List ℕ → Bool
  pub contents-clear : (b : B) → contents (clear b) ≡ []
  pub capacity-clear : (b : B) → capacity (clear b) ≡ capacity b
  pub contents-wipe : (b : B) → contents (wipe b) ≡ []
  pub capacity-wipe : (b : B) → capacity (wipe b) ≡ capacity b
  pub assign_holds :
      (b src : B)
      → length (contents src) ≤ capacity b
      → Holds contents capacity b (contents src) (assign b src)
  pub substring_raw_from_holds :
      (b : B) (raw : List ℕ) (start end : ℕ)
      → start ≤ end
      → end ≤ length raw
      → end ≤ start + capacity b
      → Holds contents capacity b (slice raw start end) (substring_raw_from b raw start end)
  pub substring_raw_from_full :
      (b : B) (raw : List ℕ) (start end : ℕ)
      → start + capacity b < end
      → substring_raw_from b raw start end ≡ none
  pub substring_from_holds :
      (b src : B) (start end : ℕ)
      → start ≤ end
      → end ≤ length (contents src)
      → end ≤ start + capacity b
      → Holds contents capacity b (slice (contents src) start end) (substring_from b src start end)
  pub substring_holds :
      (b : B) (start end : ℕ)
      → start ≤ end
      → end ≤ length (contents b)
      → Holds contents capacity b (slice (contents b) start end) (substring b start end)
  pub index_of_lem : (b : B) (pattern : List ℕ) → index_of b pattern ≡ find (contents b) pattern
  pub equals_lem : (b : B) (text : List ℕ) → equals b text ≡ bytes_eq (contents b) text
