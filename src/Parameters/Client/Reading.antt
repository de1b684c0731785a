-- ===== src/Parameters/Client/Reading.antt =====
-- ClientParameters.cpp, read_parameters: a last line that no newline ends.
use universal_fencing_hub.Base.{
  ℕ, ◌-◌, ◌<◌, ◌≡◌, refl, ap, ◌∙◌, List, [], ◌∷◌, ◌++◌, Option, none, arith, map, lt→ltb, length,
}
use universal_fencing_hub.CharBuffer.{CharBuffer, c_str}
use universal_fencing_hub.Outcome.{Outcome, state_of, ok, throw, range_exception}
use universal_fencing_hub.Arguments.{Entry, ArgMap}
use universal_fencing_hub.Parameters.Client.{
  Line, ended, unended, read_line, read_parameters, gcount,
}

module _ {M B : Type 0} ⦃cb : CharBuffer B⦄ ⦃am : ArgMap M (Entry B)⦄ (make : ℕ → B)
    (assign_c_str : B → List ℕ → Option B) where
  after_line :
      (m n : M) (text : List ℕ) (rest more : List Line)
      → ((k : M)
          → read_parameters make assign_c_str k rest ≡ ok n tt
          → read_parameters make assign_c_str k more ≡ throw n range_exception)
      → read_parameters make assign_c_str m (ended text ∷ rest) ≡ ok n tt
      → read_parameters make assign_c_str m (ended text ∷ more) ≡ throw n range_exception
  unfolding read_parameters
  after_line m n text rest more go = by_line (read_line make assign_c_str m (ended text))
    where
      by_line :
          (r : Outcome M (Unit {0}))
          → elim r [ throw k e ↦ throw k e | ok k _ ↦ read_parameters make assign_c_str k rest ]
            ≡ ok n tt
          → elim r [ throw k e ↦ throw k e | ok k _ ↦ read_parameters make assign_c_str k more ]
            ≡ throw n range_exception
      by_line (throw k e) h = absurd (cc)
      by_line (ok k _) h = go k h

  module _ (text : List ℕ) (sized : (capacity : ℕ) → cb.capacity (make capacity) ≡ capacity)
      (refuses : (b : B) (long : List ℕ) → cb.capacity b < length long → assign_c_str b long ≡ none)
      (plain : c_str text ≡ text) (two : 1 < length text) where
    last_line : (m : M) → read_line make assign_c_str m (unended text) ≡ throw m range_exception
    unfolding read_line gcount
    last_line m =
        rw
          (
            lt→ltb 1 (length text) two,
            plain,
            refuses (make (length text - 1)) text (omega (arith, sized (length text - 1), two)),
          )
          refl

    -- If a CharBuffer has the capacity that it is made with, and assigning a longer C string to it
    -- throws: when the lines of the input are read without an error, and one more follows of two bytes
    -- or more, none of them NUL, which the end of the input ends and no newline, then read_parameters
    -- throws a RangeException, whatever that line says.
    pub read_parameters-unended :
        (before : List (List ℕ)) (m n : M)
        → read_parameters make assign_c_str m (map ended before) ≡ ok n tt
        → read_parameters make assign_c_str m (map ended before ++ unended text ∷ [])
          ≡ throw n range_exception
    unfolding read_parameters
    read_parameters-unended [] m n read =
        last_line m ∙ ap (λ k. throw k range_exception) (same m n read)
      where
        same : (m n : M) → ok m tt ≡ ok n tt → m ≡ n
        same m n e = ap state_of e
    read_parameters-unended (first ∷ before) m n read =
        after_line m n first (map ended before) (map ended before ++ unended text ∷ [])
          (λ k h. read_parameters-unended before k n h) read
