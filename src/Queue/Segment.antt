-- ===== src/Queue/Segment.antt =====
-- Queue.h: chains of nodes. `Seg l p xs n` says that the nodes `xs` are linked both ways in their
-- order, that the first leads back to `p` and that the last leads on to `n`.
use universal_fencing_hub.Base.{ℕ, ◌≡◌, ◌≢◌, refl, sym, List, [], ◌∷◌, ◌++◌, some, arith}
use universal_fencing_hub.Queue.Node.{Ptr, Links, set_next, set_prev}

abbrev pub first : List ℕ → Ptr → Ptr
first [] n = n
first (x ∷ xs) n = some x

abbrev pub end_from : Ptr → List ℕ → Ptr
end_from p [] = p
end_from p (x ∷ xs) = end_from (some x) xs

abbrev pub last_of : ℕ → List ℕ → ℕ
last_of x [] = x
last_of x (y ∷ ys) = last_of y ys

abbrev pub Seg : Links → Ptr → List ℕ → Ptr → Type 0
Seg l p [] n = Unit {0}
Seg l p (x ∷ xs) n = (l.prev_node x ≡ p) × (l.next_node x ≡ first xs n) × Seg l (some x) xs n

abbrev pub Apart : ℕ → List ℕ → Type 0
Apart a [] = Unit {0}
Apart a (x ∷ xs) = (a ≢ x) × Apart a xs

abbrev pub Distinct : List ℕ → Type 0
Distinct [] = Unit {0}
Distinct (x ∷ xs) = Apart x xs × Distinct xs

abbrev pub Separate : List ℕ → List ℕ → Type 0
Separate [] ys = Unit {0}
Separate (x ∷ xs) ys = Apart x ys × Separate xs ys

pub end_from-last_of : (x : ℕ) (xs : List ℕ) (p : Ptr) → end_from p (x ∷ xs) ≡ some (last_of x xs)
end_from-last_of x [] p = refl
end_from-last_of x (y ∷ ys) p = end_from-last_of y ys (some x)

pub end_from-append :
    (p : Ptr) (xs ys : List ℕ) → end_from p (xs ++ ys) ≡ end_from (end_from p xs) ys
end_from-append p [] ys = refl
end_from-append p (x ∷ xs) ys = end_from-append (some x) xs ys

pub first-append : (xs ys : List ℕ) (n : Ptr) → first (xs ++ ys) n ≡ first xs (first ys n)
first-append [] ys n = refl
first-append (x ∷ xs) ys n = refl

pub Apart-append : (a : ℕ) (xs ys : List ℕ) → Apart a xs → Apart a ys → Apart a (xs ++ ys)
Apart-append a [] ys h k = k
Apart-append a (x ∷ xs) ys h k = (h.0, Apart-append a xs ys h.1 k)

pub Apart-parts : (a : ℕ) (xs ys : List ℕ) → Apart a (xs ++ ys) → Apart a xs × Apart a ys
Apart-parts a [] ys h = (tt, h)
Apart-parts a (x ∷ xs) ys h = let rest = Apart-parts a xs ys h.1 in ((h.0, rest.0), rest.1)

pub Distinct-append :
    (xs ys : List ℕ) → Distinct xs → Distinct ys → Separate xs ys → Distinct (xs ++ ys)
Distinct-append [] ys h k s = k
Distinct-append (x ∷ xs) ys h k s = (Apart-append x xs ys h.0 s.0, Distinct-append xs ys h.1 k s.1)

pub Distinct-parts :
    (xs ys : List ℕ) → Distinct (xs ++ ys) → Distinct xs × Distinct ys × Separate xs ys
Distinct-parts [] ys h = (tt, h, tt)
Distinct-parts (x ∷ xs) ys h =
    let here = Apart-parts x xs ys h.0 in
    let rest = Distinct-parts xs ys h.1 in ((here.0, rest.0), rest.1, (here.1, rest.2))

pub last_of-Apart : (x : ℕ) (xs ys : List ℕ) → Separate (x ∷ xs) ys → Apart (last_of x xs) ys
last_of-Apart x [] ys s = s.0
last_of-Apart x (y ∷ xs) ys s = last_of-Apart y xs ys s.1

-- The other way round, for the first node of the second list.
pub Separate-head : (y : ℕ) (xs ys : List ℕ) → Separate xs (y ∷ ys) → Apart y xs
Separate-head y [] ys s = tt
Separate-head y (x ∷ xs) ys s = ((λ e. s.0.0 (sym e)), Separate-head y xs ys s.1)

pub Separate-tail : (y : ℕ) (xs ys : List ℕ) → Separate xs (y ∷ ys) → Separate xs ys
Separate-tail y [] ys s = tt
Separate-tail y (x ∷ xs) ys s = (s.0.1, Separate-tail y xs ys s.1)

pub Separate-singleton : (y : ℕ) (xs : List ℕ) → Apart y xs → Separate xs (y ∷ [])
Separate-singleton y [] h = tt
Separate-singleton y (x ∷ xs) h = ((ground arith, tt), Separate-singleton y xs h.1)

-- A write to a node outside a chain leaves the chain as it is.
pub Seg-set_next :
    (l : Links) (p n v : Ptr) (a : ℕ) (xs : List ℕ)
    → Apart a xs
    → Seg l p xs n
    → Seg (set_next l a v) p xs n
Seg-set_next l p n v a [] h s = tt
Seg-set_next l p n v a (x ∷ xs) h s = (s.0, ground arith, Seg-set_next l (some x) n v a xs h.1 s.2)

pub Seg-set_prev :
    (l : Links) (p n v : Ptr) (a : ℕ) (xs : List ℕ)
    → Apart a xs
    → Seg l p xs n
    → Seg (set_prev l a v) p xs n
Seg-set_prev l p n v a [] h s = tt
Seg-set_prev l p n v a (x ∷ xs) h s = (ground arith, s.1, Seg-set_prev l (some x) n v a xs h.1 s.2)

-- The two ends of a chain are moved by one write each.
pub Seg-relink_first :
    (l : Links) (p q n : Ptr) (x : ℕ) (xs : List ℕ)
    → Apart x xs
    → Seg l p (x ∷ xs) n
    → Seg (set_prev l x q) q (x ∷ xs) n
Seg-relink_first l p q n x xs h s = (ground arith, s.1, Seg-set_prev l (some x) n q x xs h s.2)

pub Seg-relink_last :
    (l : Links) (p n m : Ptr) (x : ℕ) (xs : List ℕ)
    → Distinct (x ∷ xs)
    → Seg l p (x ∷ xs) n
    → Seg (set_next l (last_of x xs) m) p (x ∷ xs) m
Seg-relink_last l p n m x [] d s = (s.0, ground arith, tt)
Seg-relink_last l p n m x (y ∷ ys) d s =
    (s.0, ground (arith, last_of-ne x y ys d.0), Seg-relink_last l (some x) n m y ys d.1 s.2)
  where
    last_of-ne : (a b : ℕ) (bs : List ℕ) → Apart a (b ∷ bs) → a ≢ last_of b bs
    last_of-ne a b [] h = h.0
    last_of-ne a b (c ∷ cs) h = last_of-ne a c cs h.1

pub Seg-append :
    (l : Links) (p n : Ptr) (xs ys : List ℕ)
    → Seg l p xs (first ys n)
    → Seg l (end_from p xs) ys n
    → Seg l p (xs ++ ys) n
Seg-append l p n [] ys s t = t
Seg-append l p n (x ∷ xs) ys s t =
    (s.0, rw (first-append xs ys n) s.1, Seg-append l (some x) n xs ys s.2 t)

pub Seg-parts :
    (l : Links) (p n : Ptr) (xs ys : List ℕ)
    → Seg l p (xs ++ ys) n
    → Seg l p xs (first ys n) × Seg l (end_from p xs) ys n
Seg-parts l p n [] ys s = (tt, s)
Seg-parts l p n (x ∷ xs) ys s =
    let rest = Seg-parts l (some x) n xs ys s.2 in
    ((s.0, rw (← first-append xs ys n) s.1, rest.0), rest.1)
