-- ===== src/Queue/Places.antt =====
-- Queue.h: several queues and loose nodes on the same links. What one operation does to the nodes that
-- it is not about, and where a walk through a queue can arrive.
use universal_fencing_hub.Base.{
  ℕ, zero, suc, ◌+◌, ◌^◌, ◌≤◌, ◌<◌, ◌≡◌, refl, sym, ap, ◌∙◌, List, [], ◌∷◌, ◌++◌, none, some, arith,
  length, one, one_self, one_ne, count,
}
use universal_fencing_hub.Queue.{Queue, dec, add_last, remove, remove_first}
use universal_fencing_hub.Queue.Node.{Links, Ptr, update_self, update-ne}
use universal_fencing_hub.Queue.Segment.{
  first, last_of, Seg, Apart, Separate, end_from-last_of, last_of-Apart, Seg-set_next, Seg-set_prev,
  Seg-relink_first,
}
use universal_fencing_hub.Queue.Refinement.{behind_first, last_of-ne_first}
use universal_fencing_hub.Queue.Removal.{remove-eq}
use universal_fencing_hub.Queue.Frames.{relinked-frame, Separate-parts}
use universal_fencing_hub.Queue.Chain.{IsChain, IsChain-Between}

pub Apart-of_count : (a : ℕ) (xs : List ℕ) → count a xs ≡ 0 → Apart a xs
Apart-of_count a [] h = tt
Apart-of_count a (x ∷ xs) h = (one_ne a x (omega arith), Apart-of_count a xs (omega arith))

pub Separate-of_counts : (xs ys : List ℕ) → ((x : ℕ) → count x xs + count x ys ≤ 1) → Separate xs ys
Separate-of_counts [] ys h = tt
Separate-of_counts (x ∷ xs) ys h = (
  Apart-of_count x ys (omega (arith, h x, one_self x)),
  Separate-of_counts xs ys (λ z. omega (arith, h z)),
)

-- A node that is linked to no other.
abbrev pub IsLoose : Links → ℕ → Type 0
IsLoose l b = Seg l none (b ∷ []) none

module _ (q : Queue) (l : Links) (xs : List ℕ) (node : ℕ) (zs : List ℕ) where
  pub add_last-Seg :
      IsChain q l xs
      → Separate xs zs
      → Apart node zs
      → Seg l none zs none
      → Seg (add_last q l node).1 none zs none
  unfolding add_last
  add_last-Seg c apart out s = by_nodes xs c apart
    where
      by_nodes :
          (xs : List ℕ) → IsChain q l xs → Separate xs zs → Seg (add_last q l node).1 none zs none
      by_nodes [] c apart =
          rw c.tail (
            Seg-set_prev _ none none none node zs out (Seg-set_next l none none none node zs out s))
      by_nodes (x ∷ xs) c apart = rw (c.tail ∙ end_from-last_of x xs none) (
          Seg-set_prev _ none none (some (last_of x xs)) node zs out (
            Seg-set_next _ none none none node zs out (
              Seg-set_next l none none (some node) (last_of x xs) zs (last_of-Apart x xs zs apart)
                s)))

pub remove-Seg :
    (q : Queue) (l : Links) (xs : List ℕ) (x : ℕ) (ys zs : List ℕ)
    → IsChain q l (xs ++ x ∷ ys)
    → length (xs ++ x ∷ ys) < 2 ^ 64
    → Separate (xs ++ x ∷ ys) zs
    → Seg l none zs none
    → Seg (remove q l x).1 none zs none
remove-Seg q l xs x ys zs c small apart s =
    let parts = Separate-parts xs (x ∷ ys) zs apart in
    rw (remove-eq q l xs x ys c.head c.tail (IsChain-Between q l xs x ys c small)) (
      Seg-set_next _ none none none x zs parts.1.0 (
        Seg-set_prev _ none none none x zs parts.1.0
          (relinked-frame l xs x ys zs parts.0 parts.1.1 s)))

pub behind_first-Seg :
    (l : Links) (x : ℕ) (xs zs : List ℕ)
    → Separate (x ∷ xs) zs
    → Seg l none zs none
    → Seg (behind_first l x xs) none zs none
behind_first-Seg l x [] zs apart s = Seg-set_next l none none none x zs apart.0 s
behind_first-Seg l x (y ∷ ys) zs apart s =
    Seg-set_next _ none none none x zs apart.0 (Seg-set_prev l none none none y zs apart.1.0 s)

-- Taking the first node: it is loose, and the others are a queue.
pub remove_first-IsChain :
    (q : Queue) (l : Links) (x : ℕ) (xs : List ℕ)
    → IsChain q l (x ∷ xs)
    → (q' : Queue) × (remove_first q l ≡ some (some x, q', behind_first l x xs))
      × IsChain q' (behind_first l x xs) xs
      × IsLoose (behind_first l x xs) x
unfolding remove_first
remove_first-IsChain q l x [] c = (
  record { head_node = none; tail_node = none; size = dec q.size },
  rw (c.head, c.tail) (ground arith),
  record { head = refl; tail = refl; linked = tt; distinct = tt },
  (c.linked.0, ground arith, tt),
)
remove_first-IsChain q l x (y ∷ ys) c = (
  record { head_node = some y; tail_node = some (last_of y ys); size = dec q.size },
  rw (c.head, c.tail ∙ end_from-last_of x (y ∷ ys) none)
      (rw (last_of-ne_first x y ys c.distinct.0, c.linked.1)
        (rw (c.tail ∙ end_from-last_of x (y ∷ ys) none))),
  record {
    head = refl;
    tail = sym (end_from-last_of y ys none);
    linked =
        Seg-set_next _ none none none x (y ∷ ys) c.distinct.0
          (Seg-relink_first l (some x) none none y ys c.distinct.1.0 c.linked.2);
    distinct = c.distinct.1;
  },
  (update-ne l.prev_node y none x c.distinct.0.0 ∙ c.linked.0, update_self l.next_node x none, tt),
)

-- The node that a walk from `from` reaches after a number of calls of get_next_node.
abbrev pub walk : Links → Ptr → ℕ → Ptr
walk l none steps = none
walk l (some a) zero = some a
walk l (some a) (suc steps) = walk l (l.next_node a) steps

-- A walk from the head of a queue meets the nodes of the queue and no other.
pub walk-Seg :
    (l : Links) (p : Ptr) (xs : List ℕ) (steps a : ℕ)
    → Seg l p xs none
    → walk l (first xs none) steps ≡ some a
    → 0 < count a xs
walk-Seg l p [] steps a s e = absurd (cc)
walk-Seg l p (x ∷ xs) zero a s e = omega (arith, one_self a, found)
  where
    same : x ≡ a
    same = cc

    found : one a x ≡ 1
    found = rw same (one_self a)
walk-Seg l p (x ∷ xs) (suc steps) a s e =
    omega (arith, walk-Seg l (some x) xs steps a s.2 (ap (λ t. walk l t steps) (sym s.1) ∙ e))
