-- ===== src/Base/Counts.antt =====
-- How often a number occurs in a list, and what that says of lists that share no element.
use Prim.Native.Nat.{ℕ, ◌+◌, ◌≤◌, ◌<◌}
use mathlib.Core.Path.{◌≡◌, sym, ap, subst}
use mathlib.Core.Logic.{◌≢◌, inl, inr}
use mathlib.Core.Bool.{true, false}
use mathlib.Core.List.{List, [], ◌∷◌, ◌++◌, Mem, Nodup, Nodup-cons, mem-cons_of_mem, mem-cons_self}
use native.Mathlib.Omega.{arith}
use universal_fencing_hub.Base.Tests.{◌==◌, ==_refl, if◌then◌else◌, Bool-cases}

-- 1 where the two are equal, and else 0.
pub one : ℕ → ℕ → ℕ
one a b = if a == b then 1 else 0

pub one_self : (a : ℕ) → one a a ≡ 1
unfolding one
one_self a = rw (==_refl a)

pub one_ne : (a b : ℕ) → one a b ≡ 0 → a ≢ b
unfolding one
one_ne a b h = ground arith

pub one_of_ne : (a b : ℕ) → a ≢ b → one a b ≡ 0
unfolding one
one_of_ne a b h = ground arith

pub eq_of_one : (a b : ℕ) → 0 < one a b → b ≡ a
unfolding one
eq_of_one a b h = ground arith

pub one_bounded : (a b : ℕ) → one a b ≤ 1
unfolding one
one_bounded a b = ground arith

abbrev pub count : ℕ → List ℕ → ℕ
count a [] = 0
count a (x ∷ xs) = one a x + count a xs

pub count-append :
    (x : ℕ) (front back : List ℕ) → count x (front ++ back) ≡ count x front + count x back
count-append x [] back = omega arith
count-append x (first ∷ front) back = omega (arith, count-append x front back)

pub count-take_out :
    (a : ℕ) (xs : List ℕ) (x : ℕ) (ys : List ℕ)
    → count a (xs ++ x ∷ ys) ≡ one a x + count a (xs ++ ys)
count-take_out a xs x ys = omega (arith, count-append a xs (x ∷ ys), count-append a xs ys)

-- A list in which a number occurs, split there.
pub split_of_count :
    (a : ℕ) (xs : List ℕ) → 0 < count a xs → (pre post : List ℕ) × (xs ≡ pre ++ a ∷ post)
split_of_count a [] h = absurd (omega arith)
split_of_count a (x ∷ xs) h = elim (Bool-cases (a == x)) [
  | inl same ↦ ([], xs, ap (λ t. t ∷ xs) (here same))
  | inr other ↦
      let (pre, post, e) = split_of_count a xs (omega (arith, absent other)) in
      (x ∷ pre, post, ap (λ t. x ∷ t) e)
]
  where
    here : (a == x) ≡ true → x ≡ a
    here e = ground arith

    absent : (a == x) ≡ false → one a x ≡ 0
    absent e = one_of_ne a x (ground arith)

mem_of_count : (a : ℕ) (xs : List ℕ) → 0 < count a xs → Mem a xs
mem_of_count a [] h = absurd (omega arith)
mem_of_count a (x ∷ xs) h = elim (Bool-cases (a == x)) [
  | inl same ↦ subst (λ t. Mem a (t ∷ xs)) (sym (here same)) mem-cons_self
  | inr other ↦ mem-cons_of_mem x (mem_of_count a xs (omega (arith, absent other)))
]
  where
    here : (a == x) ≡ true → x ≡ a
    here e = ground arith

    absent : (a == x) ≡ false → one a x ≡ 0
    absent e = one_of_ne a x (ground arith)

-- In a list without repetitions nothing occurs twice.
pub Nodup-count : (a : ℕ) (xs : List ℕ) → Nodup xs → count a xs ≤ 1
Nodup-count a [] h = omega arith
Nodup-count a (x ∷ xs) h = elim (Bool-cases (a == x)) [
  | inl same ↦ elim (Bool-cases (count a xs == 0)) [
    | inl none_left ↦ omega (arith, one_bound, empty none_left)
    | inr more ↦
        absurd
          ((Nodup-cons.0 h).0 (subst (λ t. Mem t xs) (here same) (mem_of_count a xs (again more))))
  ]
  | inr other ↦ omega (arith, absent other, Nodup-count a xs (Nodup-cons.0 h).1)
]
  where
    here : (a == x) ≡ true → a ≡ x
    here e = ground arith

    absent : (a == x) ≡ false → one a x ≡ 0
    absent e = one_of_ne a x (ground arith)

    empty : (count a xs == 0) ≡ true → count a xs ≡ 0
    empty e = ground arith

    again : (count a xs == 0) ≡ false → 0 < count a xs
    again e = ground arith

    one_bound : one a x ≤ 1
    one_bound = one_bounded a x

pub one_apart : (a b : ℕ) (xs : List ℕ) → 0 < count b xs → count a xs ≡ 0 → one a b ≡ 0
one_apart a b xs h e =
    one_of_ne a b (λ same. let found = subst (λ t. 0 < count t xs) (sym same) h in omega arith)
