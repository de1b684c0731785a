-- ===== src/Queue/Chain.antt =====
-- Queue.h: a queue whose nodes are in order, whatever its count says. Every operation but get_size
-- goes by the nodes alone.
use universal_fencing_hub.Base.{
  ℕ, suc, ◌^◌, ◌<◌, ◌≡◌, refl, sym, ap, ◌∙◌, subst, List, [], ◌∷◌, ◌++◌, none, some, arith, length,
}
use universal_fencing_hub.Queue.{Queue, empty, inc, add_last, remove}
use universal_fencing_hub.Queue.Node.{Links, Ptr}
use universal_fencing_hub.Queue.Segment.{first, end_from, Seg, Apart, Distinct}
use universal_fencing_hub.Queue.Refinement.{IsQueue, add_last-append}
use universal_fencing_hub.Queue.Removal.{Between, IsQueue-Between, remove-eq, remove_lem}

pub record IsChain (q : Queue) (l : Links) (xs : List ℕ) : Type 0 where
  pub head : q.head_node ≡ first xs none
  pub tail : q.tail_node ≡ end_from none xs
  pub linked : Seg l none xs none
  pub distinct : Distinct xs

-- The queue with its count put right.
abbrev pub sized : Queue → ℕ → Queue
sized q n = record q { size = n }

sized-IsQueue :
    (q : Queue) (l : Links) (xs : List ℕ)
    → IsChain q l xs
    → length xs < 2 ^ 64
    → IsQueue (sized q (length xs)) l xs
sized-IsQueue q l xs c small = record {
  head = c.head;
  tail = c.tail;
  size = refl;
  small = small;
  linked = c.linked;
  distinct = c.distinct;
}

IsQueue-IsChain : (q : Queue) (l : Links) (xs : List ℕ) → IsQueue q l xs → IsChain q l xs
IsQueue-IsChain q l xs is = record {
  head = is.head;
  tail = is.tail;
  linked = is.linked;
  distinct = is.distinct;
}

pub empty-IsChain : (l : Links) → IsChain empty l []
unfolding empty
empty-IsChain l = record { head = refl; tail = refl; linked = tt; distinct = tt }

-- A queue without nodes, whatever its count.
pub nothing-IsChain :
    (n : ℕ) (l : Links) → IsChain (record { head_node = none; tail_node = none; size = n }) l []
nothing-IsChain n l = record { head = refl; tail = refl; linked = tt; distinct = tt }

add_last-sized :
    (head tail : Ptr) (m n : ℕ) (l : Links) (node : ℕ)
    → let q : Queue = record { head_node = head; tail_node = tail; size = m } in
      add_last (sized q n) l node ≡ (sized (add_last q l node).0 (inc n), (add_last q l node).1)
unfolding add_last
add_last-sized head none m n l node = refl
add_last-sized head (some tail) m n l node = refl

pub add_last-IsChain :
    (q : Queue) (l : Links) (xs : List ℕ) (node : ℕ)
    → IsChain q l xs
    → Apart node xs
    → suc (length xs) < 2 ^ 64
    → IsChain (add_last q l node).0 (add_last q l node).1 (xs ++ node ∷ [])
add_last-IsChain q l xs node c apart room =
    let is =
      add_last-append (sized q (length xs)) l xs node (sized-IsQueue q l xs c (omega arith)) apart
        room in
    let same = add_last-sized q.head_node q.tail_node q.size (length xs) l node in
    let moved = subst (λ (r : Queue × Links). IsQueue r.0 r.1 (xs ++ node ∷ [])) same is in
    record {
      head = moved.head;
      tail = moved.tail;
      linked = moved.linked;
      distinct = moved.distinct;
    }

pub IsChain-Between :
    (q : Queue) (l : Links) (xs : List ℕ) (x : ℕ) (ys : List ℕ)
    → IsChain q l (xs ++ x ∷ ys)
    → length (xs ++ x ∷ ys) < 2 ^ 64
    → Between l xs x ys
IsChain-Between q l xs x ys c small =
    IsQueue-Between (sized q (length (xs ++ x ∷ ys))) l xs x ys
      (sized-IsQueue q l (xs ++ x ∷ ys) c small)

pub remove-IsChain :
    (q : Queue) (l : Links) (xs : List ℕ) (x : ℕ) (ys : List ℕ)
    → IsChain q l (xs ++ x ∷ ys)
    → length (xs ++ x ∷ ys) < 2 ^ 64
    → IsChain (remove q l x).0 (remove q l x).1 (xs ++ ys)
      × (Seg (remove q l x).1 none (x ∷ []) none)
remove-IsChain q l xs x ys c small =
    let n = length (xs ++ x ∷ ys) in
    let is = sized-IsQueue q l (xs ++ x ∷ ys) c small in
    let b = IsChain-Between q l xs x ys c small in
    let (held, next, prev) = remove_lem (sized q n) l xs x ys is in
    let there = remove-eq (sized q n) l xs x ys c.head c.tail b in
    let here = remove-eq q l xs x ys c.head c.tail b in
    let moved = subst (λ (r : Queue × Links). IsQueue r.0 r.1 (xs ++ ys)) there held in
    (
      subst (λ (r : Queue × Links). IsChain r.0 r.1 (xs ++ ys)) (sym here)
          (record { head = refl; tail = refl; linked = moved.linked; distinct = moved.distinct }),
      subst (λ (r : Queue × Links). Seg r.1 none (x ∷ []) none) (sym here)
          (
            ap (λ (r : Queue × Links). r.1.prev_node x) (sym there) ∙ prev,
            ap (λ (r : Queue × Links). r.1.next_node x) (sym there) ∙ next,
            tt,
          ),
    )
