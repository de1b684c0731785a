-- ===== src/Arguments/Table.antt =====
-- A map that meets the interface: a list of entries under their keys. The examples run on it.
use universal_fencing_hub.Base.{
  ℕ, ◌≡◌, ◌≢◌, refl, sym, ap, ◌∙◌, List, [], ◌∷◌, Option, none, some, if◌then◌else◌, bytes_eq,
  bytes_eq_sound, Bool-cases, inl, inr, arith,
}
use universal_fencing_hub.Arguments.{ArgMap, Among}

module _ {E : Type 0} where
  abbrev pub lookup : List (List ℕ × E) → List ℕ → Option E
  lookup [] key = none
  lookup ((k, e) ∷ table) key = if bytes_eq k key then some e else lookup table key

  abbrev pub update : List (List ℕ × E) → List ℕ → E → List (List ℕ × E)
  update [] key f = []
  update ((k, e) ∷ table) key f =
      if bytes_eq k key then (k, f) ∷ table else (k, e) ∷ update table key f

  abbrev pub add : List (List ℕ × E) → List ℕ → E → Option (List (List ℕ × E))
  add table key e = elim (lookup table key) [ none ↦ some ((key, e) ∷ table) | some f ↦ none ]

  pub lookup-update_self :
      (table : List (List ℕ × E)) (key : List ℕ) (e f : E)
      → lookup table key ≡ some e
      → lookup (update table key f) key ≡ some f
  lookup-update_self [] key e f h = absurd (ground arith)
  lookup-update_self ((k, d) ∷ table) key e f h = elim (Bool-cases (bytes_eq k key)) [
    | inl same ↦ rw (same, same)
    | inr other ↦
        rw (other, other)
          (lookup-update_self table key e f
            (ap (λ t. if t then some d else lookup table key) (sym other) ∙ h))
  ]

  pub lookup-update_ne :
      (table : List (List ℕ × E)) (key other : List ℕ) (f : E)
      → other ≢ key
      → lookup (update table key f) other ≡ lookup table other
  lookup-update_ne [] key other f ne = refl
  lookup-update_ne ((k, d) ∷ table) key other f ne = elim (Bool-cases (bytes_eq k key)) [
    | inl same ↦ elim (Bool-cases (bytes_eq k other)) [
      | inl both ↦ absurd (ne (sym (bytes_eq_sound k other both) ∙ bytes_eq_sound k key same))
      | inr other_key ↦ rw (same, other_key)
    ]
    | inr other_key ↦ rw (other_key, lookup-update_ne table key other f ne)
  ]

  some_inj : (d e : E) → some d ≡ some e → d ≡ e
  some_inj d e p = ap (λ t. elim t [ none ↦ d | some x ↦ x ]) p

  pub Among-lookup :
      (table : List (List ℕ × E)) (key : List ℕ) (e : E)
      → lookup table key ≡ some e
      → Among (key, e) table
  Among-lookup [] key e h = absurd (ground arith)
  Among-lookup ((k, d) ∷ table) key e h = elim (Bool-cases (bytes_eq k key)) [
    | inl same ↦ inl (λ i. (
      sym (bytes_eq_sound k key same) i,
      sym (some_inj d e (ap (λ t. if t then some d else lookup table key) (sym same) ∙ h)) i,
    ))
    | inr other_key ↦ inr (
        Among-lookup table key e
          (ap (λ t. if t then some d else lookup table key) (sym other_key) ∙ h))
  ]

  instance abbrev pub table_map : ArgMap (List (List ℕ × E)) E
  table_map = record {
    get = lookup;
    replace = update;
    insert = add;
    nodes = λ table. table;
    get-replace_self = lookup-update_self;
    get-replace_ne = lookup-update_ne;
    among-nodes = Among-lookup;
  }
