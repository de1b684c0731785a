-- ===== src/Base/Splices.antt =====
-- Reading and writing at a position of a list that is known in parts.
use Prim.Native.Nat.{ℕ, zero, suc, ◌+◌, ◌-◌, ◌≤◌, ◌<◌}
use mathlib.Core.Path.{◌≡◌, refl, sym, ap, ◌∙◌}
use mathlib.Core.List.{List, [], ◌∷◌, ◌++◌, append-nil, append_assoc}
use native.Mathlib.Omega.{arith}
use universal_fencing_hub.Base.Lists.{length, get_or, set, take, drop, length-set}

module _ {ℓ} {A : Type ℓ} where
  -- The elements from `start` up to `end`, which is not included.
  abbrev pub slice : List A → ℕ → ℕ → List A
  slice xs start end = take (end - start) (drop start xs)

  pub get_or-append :
      (xs ys : List A) (n : ℕ) (d : A) → get_or (xs ++ ys) (length xs + n) d ≡ get_or ys n d
  get_or-append [] ys n d = ap (λ t. get_or ys t d) (omega arith)
  get_or-append (x ∷ xs) ys n d =
      let e : suc (length xs) + n ≡ suc (length xs + n) = omega arith in
      ap (λ t. get_or (x ∷ (xs ++ ys)) t d) e ∙ get_or-append xs ys n d

  pub set-append :
      (xs ys : List A) (n : ℕ) (v : A) → set (xs ++ ys) (length xs + n) v ≡ xs ++ set ys n v
  set-append [] ys n v = ap (λ t. set ys t v) (omega arith)
  set-append (x ∷ xs) ys n v =
      let e : suc (length xs) + n ≡ suc (length xs + n) = omega arith in
      ap (λ t. set (x ∷ (xs ++ ys)) t v) e ∙ ap (λ t. x ∷ t) (set-append xs ys n v)

  pub drop-append : (xs ys : List A) (n : ℕ) → drop (length xs + n) (xs ++ ys) ≡ drop n ys
  drop-append [] ys n = ap (λ t. drop t ys) (omega arith)
  drop-append (x ∷ xs) ys n =
      let e : suc (length xs) + n ≡ suc (length xs + n) = omega arith in
      ap (λ t. drop t (x ∷ (xs ++ ys))) e ∙ drop-append xs ys n

  pub take-append : (xs ys : List A) → take (length xs) (xs ++ ys) ≡ xs
  take-append [] ys = refl
  take-append (x ∷ xs) ys = ap (λ t. x ∷ t) (take-append xs ys)

  -- A list whose length is a sum splits so.
  pub split_at :
      (xs : List A) (n m : ℕ)
      → length xs ≡ n + m
      → (ys : List A) × (zs : List A) × (xs ≡ ys ++ zs) × (length ys ≡ n) × (length zs ≡ m)
  split_at xs zero m e = ([], xs, refl, refl, omega arith)
  split_at [] (suc n) m e = absurd (omega arith)
  split_at (x ∷ xs) (suc n) m e =
      let (ys, zs, same, front, back) = split_at xs n m (omega arith) in
      (x ∷ ys, zs, ap (λ t. x ∷ t) same, omega arith, back)

module _ {ℓ} {A : Type ℓ} where
  -- A copy of bytes into a buffer, one by one.
  abbrev pub write_at : List A → ℕ → List A → List A
  write_at buffer offset [] = buffer
  write_at buffer offset (x ∷ xs) = write_at (set buffer offset x) (offset + 1) xs

  pub length-write_at :
      (buffer : List A) (offset : ℕ) (xs : List A)
      → length (write_at buffer offset xs) ≡ length buffer
  length-write_at buffer offset [] = refl
  length-write_at buffer offset (x ∷ xs) =
      length-write_at (set buffer offset x) (offset + 1) xs ∙ length-set buffer offset x

  take-set :
      (xs : List A) (n : ℕ) (v : A)
      → n < length xs
      → take (n + 1) (set xs n v) ≡ take n xs ++ v ∷ []
  take-set [] n v h = elim h [ ]
  take-set (x ∷ xs) zero v h = refl
  take-set (x ∷ xs) (suc n) v h =
      let e : suc n + 1 ≡ suc (n + 1) = omega arith in
      ap (λ t. take t (x ∷ set xs n v)) e ∙ ap (λ t. x ∷ t) (take-set xs n v (omega arith))

  -- What stands in front of the end of the copy.
  pub take-write_at :
      (buffer : List A) (offset : ℕ) (xs : List A)
      → offset + length xs ≤ length buffer
      → take (offset + length xs) (write_at buffer offset xs) ≡ take offset buffer ++ xs
  take-write_at buffer offset [] h =
      let e : offset + 0 ≡ offset = omega arith in
      ap (λ t. take t buffer) e ∙ sym (append-nil (take offset buffer))
  take-write_at buffer offset (x ∷ xs) h =
      let e : offset + suc (length xs) ≡ offset + 1 + length xs = omega arith in
      ap (λ t. take t (write_at (set buffer offset x) (offset + 1) xs)) e
      ∙ take-write_at (set buffer offset x) (offset + 1) xs
          (omega (arith, length-set buffer offset x))
      ∙ ap (λ t. t ++ xs) (take-set buffer offset x (omega arith))
      ∙ append_assoc (take offset buffer) (x ∷ []) xs

  take-nil : (n : ℕ) → take {A = A} n [] ≡ []
  take-nil zero = refl
  take-nil (suc n) = refl

  pub get_or-take : (xs : List A) (n i : ℕ) (d : A) → i < n → get_or (take n xs) i d ≡ get_or xs i d
  get_or-take xs zero i d h = absurd (omega arith)
  get_or-take [] (suc n) i d h = refl
  get_or-take (x ∷ xs) (suc n) zero d h = refl
  get_or-take (x ∷ xs) (suc n) (suc i) d h = get_or-take xs n i d (omega arith)

  -- A prefix and the piece behind it.
  pub take-slice : (xs : List A) (n m : ℕ) → take n xs ++ slice xs n (n + m) ≡ take (n + m) xs
  take-slice xs zero m =
      let e : 0 + m - 0 ≡ m = omega arith in
      let f : 0 + m ≡ m = omega arith in ap (λ t. take t xs) (e ∙ sym f)
  take-slice [] (suc n) m =
      let e : suc n + m ≡ suc (n + m) = omega arith in
      take-nil (suc n + m - suc n) ∙ sym (ap (λ t. take {A = A} t []) e)
  take-slice (x ∷ xs) (suc n) m =
      let e : suc n + m - suc n ≡ n + m - n = omega arith in
      let f : suc (n + m) ≡ suc n + m = omega arith in
      ap (λ t. x ∷ (take n xs ++ take t (drop n xs))) e
      ∙ ap (λ t. x ∷ t) (take-slice xs n m)
      ∙ ap (λ t. take t (x ∷ xs)) f
