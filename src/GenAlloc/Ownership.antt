-- ===== src/GenAlloc/Ownership.antt =====
-- GenAlloc.h: which objects are free and which are handed out.
use mathlib.Core.List.Perm
use mathlib.Core.Logic.Or
use mathlib.Core.Option.{some-injective}
use mathlib.Core.HLevel.{×_prop}
use native.Mathlib.Bridge.{le_prop}
use mathlib.Core.List.{
  Perm, Mem, Nodup, Nodup-cons, Nodup-nil, perm_middle, mem-cons, mem-cons_self, mem-append_right,
  not-mem-nil, Nodup-append,
}
use universal_fencing_hub.Base.{
  ℕ, zero, suc, ◌+◌, ◌≤◌, ◌<◌, ◌≡◌, refl, sym, ap, ◌∙◌, subst, List, [], ◌∷◌, ◌++◌, Option, none,
  some, true, arith, ltb, length, get_or, set, take, replicate, length-set, length-append,
  length-replicate, append_assoc, append-nil, ◌⊎◌, inl, inr,
}
use universal_fencing_hub.GenAlloc.{GenAlloc, make, fill_free_list, allocate, deallocate}

abbrev pub range_from : ℕ → ℕ → List ℕ
range_from i zero = []
range_from i (suc n) = i ∷ range_from (i + 1) n

-- The objects that can still be handed out, the next one last.
abbrev pub free : GenAlloc → List ℕ
free a = take a.alloc_index a.free_list

-- The objects `used` are out, and with the free ones they are the objects of the pool, each once.
pub record Owns (a : GenAlloc) (used : List ℕ) : Type 0 where
  pub room : length a.free_list ≡ a.pool_size
  pub counted : a.alloc_index + length used ≡ a.pool_size
  pub partition : Perm (free a ++ used) (range_from 0 a.pool_size)

set-append :
    (pre : List ℕ) (x : ℕ) (post : List ℕ) (v : ℕ)
    → set (pre ++ x ∷ post) (length pre) v ≡ pre ++ v ∷ post
set-append [] x post v = refl
set-append (p ∷ pre) x post v = ap (λ t. p ∷ t) (set-append pre x post v)

fill_free_list_lem :
    (rounds : ℕ) (pre post : List ℕ) (idx : ℕ)
    → idx ≡ length pre
    → length post ≡ rounds
    → fill_free_list rounds idx (pre ++ post) ≡ pre ++ range_from idx rounds
unfolding fill_free_list
fill_free_list_lem zero pre [] idx e h = refl
fill_free_list_lem zero pre (x ∷ post) idx e h = absurd (omega arith)
fill_free_list_lem (suc rounds) pre [] idx e h = absurd (omega arith)
fill_free_list_lem (suc rounds) pre (x ∷ post) idx e h =
    ap (fill_free_list rounds (idx + 1)) (
      ap (λ t. set (pre ++ x ∷ post) t idx) e
      ∙ set-append pre x post idx
      ∙ sym (append_assoc pre (idx ∷ []) post))
    ∙ fill_free_list_lem rounds (pre ++ idx ∷ []) post (idx + 1)
        (omega (arith, length-append pre (idx ∷ []))) (omega arith)
    ∙ append_assoc pre (idx ∷ []) (range_from (idx + 1) rounds)

take-all : (xs : List ℕ) (n : ℕ) → length xs ≤ n → take n xs ≡ xs
take-all [] zero h = refl
take-all [] (suc n) h = refl
take-all (x ∷ xs) zero h = absurd (omega arith)
take-all (x ∷ xs) (suc n) h = ap (λ t. x ∷ t) (take-all xs n (omega arith))

length-range_from : (i n : ℕ) → length (range_from i n) ≡ n
length-range_from i zero = refl
length-range_from i (suc n) = ap suc (length-range_from (i + 1) n)

-- A new allocator has handed out nothing.
pub make-Owns : (size : ℕ) → Owns (make size) []
unfolding make
make-Owns size =
    let filled = fill_free_list_lem size [] (replicate size 0) 0 refl (length-replicate size 0) in
    let long = length-range_from 0 size in
    rw filled (record {
      room = long;
      counted = omega arith;
      partition =
          rw (take-all (range_from 0 size) size (omega arith), append-nil (range_from 0 size))
            (Perm.refl (range_from 0 size));
    })

take-suc : (xs : List ℕ) (n : ℕ) → n < length xs → take (suc n) xs ≡ take n xs ++ get_or xs n 0 ∷ []
take-suc [] n h = elim h [ ]
take-suc (x ∷ xs) zero h = refl
take-suc (x ∷ xs) (suc n) h = ap (λ t. x ∷ t) (take-suc xs n (omega arith))

take-set : (xs : List ℕ) (n v : ℕ) → n < length xs → take (n + 1) (set xs n v) ≡ take n xs ++ v ∷ []
take-set [] n v h = elim h [ ]
take-set (x ∷ xs) zero v h = refl
take-set (x ∷ xs) (suc n) v h =
    let shifted : suc n + 1 ≡ suc (n + 1) = omega arith in
    ap (λ t. take t (x ∷ set xs n v)) shifted ∙ ap (λ t. x ∷ t) (take-set xs n v (omega arith))

-- What `allocate` gives: std::bad_alloc when all objects are out, and else one more object.
abbrev pub Allocates : GenAlloc → List ℕ → Option (ℕ × GenAlloc) → Type 0
Allocates a used r =
    ((r ≡ none) × (length used ≡ a.pool_size))
    ⊎ ((obj : ℕ) × (a' : GenAlloc) × (r ≡ some (obj, a')) × Owns a' (obj ∷ used))

allocate_at :
    (size : ℕ) (free_list : List ℕ) (alloc_index : ℕ) (used : List ℕ)
    → let a : GenAlloc = record {
      pool_size = size;
      free_list = free_list;
      alloc_index = alloc_index;
    } in
      Owns a used → Allocates a used (allocate a)
unfolding allocate
allocate_at size free_list zero used o = inl (refl, omega (arith, o.counted))
allocate_at size free_list (suc n) used o = inr (
  get_or free_list n 0,
  record { pool_size = size; free_list = free_list; alloc_index = n },
  ground arith,
  record {
    room = o.room;
    counted = omega (arith, o.counted);
    partition =
        subst (λ t. Perm t (range_from 0 size))
          (ap (λ t. t ++ used) (take-suc free_list n (omega (arith, o.room, o.counted)))
            ∙ append_assoc (take n free_list) (get_or free_list n 0 ∷ []) used)
          o.partition;
  },
)

-- `allocate` fails only when all objects are out, and otherwise hands out an object that was free.
pub allocate-Owns : (a : GenAlloc) (used : List ℕ) → Owns a used → Allocates a used (allocate a)
allocate-Owns a used o = allocate_at a.pool_size a.free_list a.alloc_index used o

-- `deallocate` of an object that is out makes it free again, wherever it stands among the others.
pub deallocate-Owns :
    (a : GenAlloc) (xs : List ℕ) (obj : ℕ) (ys : List ℕ)
    → Owns a (xs ++ obj ∷ ys)
    → Owns (deallocate a obj) (xs ++ ys)
unfolding deallocate
deallocate-Owns a xs obj ys o = rw inside (record {
  room = length-set a.free_list a.alloc_index obj ∙ o.room;
  counted = omega (arith, o.counted, longer, shorter);
  partition = rw (take-set a.free_list a.alloc_index obj (omega (arith, o.room, below))) (
      rw (append_assoc (free a) (obj ∷ []) (xs ++ ys)) (
        Perm.trans (Perm.append (Perm.refl (free a)) (Perm.symm (perm_middle xs ys))) o.partition));
})
  where
    longer : length (xs ++ obj ∷ ys) ≡ length xs + suc (length ys)
    longer = length-append xs (obj ∷ ys)

    shorter : length (xs ++ ys) ≡ length xs + length ys
    shorter = length-append xs ys

    below : a.alloc_index < a.pool_size
    below = omega (arith, o.counted, longer)

    inside : ltb a.alloc_index a.pool_size ≡ true
    inside = ground (arith, below)

All_from : (i n x : ℕ) → Mem x (range_from i n) → (i ≤ x) × (x < i + n)
All_from i zero x m = absurd (not-mem-nil m)
All_from i (suc n) x m =
    Or.elim (×_prop le_prop le_prop) (mem-cons.0 m) (λ e. omega arith)
      (λ t. let b = All_from (i + 1) n x t in omega arith)

pub range_from-Nodup : (i n : ℕ) → Nodup (range_from i n)
range_from-Nodup i zero = Nodup-nil
range_from-Nodup i (suc n) =
    Nodup-cons.1
      ((λ m. let b = All_from (i + 1) n i m in absurd (omega arith)), range_from-Nodup (i + 1) n)

Owns-fresh :
    (a : GenAlloc) (used : List ℕ) (obj : ℕ)
    → Owns a (obj ∷ used)
    → (obj < a.pool_size) × (¬ Mem obj used)
Owns-fresh a used obj o =
    let inside = (Perm.mem_iff o.partition).0 (mem-append_right (free a) mem-cons_self) in
    let nodup = Perm.nodup (Perm.symm o.partition) (range_from-Nodup 0 a.pool_size) in
    let range = All_from 0 a.pool_size obj inside in
    (omega arith, (Nodup-cons.0 (Nodup-append.0 nodup).1).0)

pub pool_size-allocate :
    (a : GenAlloc) (obj : ℕ) (a' : GenAlloc)
    → allocate a ≡ some (obj, a')
    → a'.pool_size ≡ a.pool_size
unfolding allocate
pool_size-allocate a obj a' e = ground arith

-- An object that `allocate` hands out is one of the pool's and was not out before.
pub allocate-fresh :
    (a : GenAlloc) (used : List ℕ) (obj : ℕ) (a' : GenAlloc)
    → Owns a used
    → allocate a ≡ some (obj, a')
    → (obj < a.pool_size) × (¬ Mem obj used)
allocate-fresh a used obj a' o e = elim (allocate-Owns a used o) [
  | inl (refused, _) ↦ absurd (cc)
  | inr (got, b, e', o') ↦
      let same = some-injective {A = ℕ × GenAlloc} (got, b) (obj, a') (sym e' ∙ e) in
      rw (← pool_size-allocate a obj a' e)
        (Owns-fresh a' used obj (subst (λ (t : ℕ × GenAlloc). Owns t.1 (t.0 ∷ used)) same o'))
]
