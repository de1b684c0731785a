-- ===== src/Queue/Refinement.antt =====
-- Queue.h against lists: what the queue stands for, and what the operations at its ends do to that.
use universal_fencing_hub.Base.{
  ℕ, suc, ◌^◌, ◌<◌, ◌≡◌, refl, sym, ◌∙◌, List, [], ◌∷◌, ◌++◌, Option, none, some, arith, ◌==◌,
  length, length-append, false,
}
use universal_fencing_hub.Queue.{
  Queue, empty, add_first, add_last, remove_first, get_first, get_last, get_size, dec,
}
use universal_fencing_hub.Queue.Node.{Ptr, Links, set_next, set_prev, update-ne, update_self}
use universal_fencing_hub.Queue.Segment.{
  first, end_from, last_of, Seg, Apart, Distinct, end_from-last_of, end_from-append,
  Distinct-append, Separate-singleton, Seg-set_next, Seg-set_prev, Seg-relink_first,
  Seg-relink_last, Seg-append,
}

-- The queue, with the links of the objects, holds the nodes `xs` in this order.
pub record IsQueue (q : Queue) (l : Links) (xs : List ℕ) : Type 0 where
  pub head : q.head_node ≡ first xs none
  pub tail : q.tail_node ≡ end_from none xs
  pub size : q.size ≡ length xs
  pub small : length xs < 2 ^ 64
  pub linked : Seg l none xs none
  pub distinct : Distinct xs

pub empty-IsQueue : (l : Links) → IsQueue empty l []
unfolding empty
empty-IsQueue l = record {
  head = refl;
  tail = refl;
  size = refl;
  small = omega arith;
  linked = tt;
  distinct = tt;
}

-- add_first puts a node that is not in the queue in front of the others, if the queue is not
-- full.
pub add_first-cons :
    (q : Queue) (l : Links) (xs : List ℕ) (node : ℕ)
    → IsQueue q l xs
    → Apart node xs
    → suc (length xs) < 2 ^ 64
    → IsQueue (add_first q l node).0 (add_first q l node).1 (node ∷ xs)
unfolding add_first
add_first-cons q l [] node is apart room = rw (is.head) (record {
  head = refl;
  tail = refl;
  size = omega (arith, is.size);
  small = room;
  linked = (ground arith, ground arith, tt);
  distinct = (tt, tt);
})
add_first-cons q l (x ∷ xs) node is apart room = rw (is.head) (record {
  head = refl;
  tail = is.tail;
  size = omega (arith, is.size);
  small = room;
  linked = (
    ground arith,
    ground arith,
    Seg-set_prev _ (some node) none none node (x ∷ xs) apart (
        Seg-set_next _ (some node) none (some x) node (x ∷ xs) apart
          (Seg-relink_first l none (some node) none x xs is.distinct.0 is.linked)),
  );
  distinct = (apart, is.distinct);
})

-- add_last puts a node that is not in the queue behind the others, if the queue is not full.
pub add_last-append :
    (q : Queue) (l : Links) (xs : List ℕ) (node : ℕ)
    → IsQueue q l xs
    → Apart node xs
    → suc (length xs) < 2 ^ 64
    → IsQueue (add_last q l node).0 (add_last q l node).1 (xs ++ node ∷ [])
unfolding add_last
add_last-append q l [] node is apart room = rw (is.tail) (record {
  head = refl;
  tail = refl;
  size = omega (arith, is.size);
  small = room;
  linked = (ground arith, ground arith, tt);
  distinct = (tt, tt);
})
add_last-append q l (x ∷ xs) node is apart room =
    rw (is.tail ∙ end_from-last_of x xs none) (record {
      head = is.head;
      tail = sym (end_from-append none (x ∷ xs) (node ∷ []));
      size = omega (arith, is.size, length-append {0} (x ∷ xs) (node ∷ []));
      small = omega (arith, length-append {0} (x ∷ xs) (node ∷ []));
      linked =
          Seg-append _ none none (x ∷ xs) (node ∷ [])
            (Seg-set_prev _ none (some node) _ node (x ∷ xs) apart (
              Seg-set_next _ none (some node) none node (x ∷ xs) apart
                (Seg-relink_last l none none (some node) x xs is.distinct is.linked)))
            (rw (end_from-last_of x xs none) (ground arith, ground arith, tt));
      distinct =
          Distinct-append (x ∷ xs) (node ∷ []) is.distinct (tt, tt)
            (Separate-singleton node (x ∷ xs) apart);
    })

-- The last of several nodes is another than the first.
pub last_of-ne_first : (x y : ℕ) (ys : List ℕ) → Apart x (y ∷ ys) → (x == last_of y ys) ≡ false
last_of-ne_first x y [] h = ground arith
last_of-ne_first x y (z ∷ zs) h = last_of-ne_first x z zs h.1

-- What remove_first gives on a queue that holds `xs`: nothing when there is no node, and the first
-- node else, with the queue left holding the others and the node itself unlinked.
-- The links once the first node is taken.
abbrev pub behind_first : Links → ℕ → List ℕ → Links
behind_first l x [] = set_next l x none
behind_first l x (y ∷ ys) = set_next (set_prev l y none) x none

abbrev pub RemovesFirst : Queue → Links → List ℕ → Option (Ptr × Queue × Links) → Type 0
RemovesFirst q l [] r = r ≡ some (none, q, l)
RemovesFirst q l (x ∷ xs) r =
    (q' : Queue) × (l' : Links) × (r ≡ some (some x, q', l'))
    × IsQueue q' l' xs
    × (l'.next_node x ≡ none)
    × (l'.prev_node x ≡ none)
    × (l' ≡ behind_first l x xs)

-- remove_first of a queue never writes through a null pointer: it returns no node and changes
-- nothing when the queue is empty, and otherwise takes the first node and leaves the others in
-- their order.
pub remove_first_lem :
    (q : Queue) (l : Links) (xs : List ℕ) → IsQueue q l xs → RemovesFirst q l xs (remove_first q l)
unfolding remove_first
remove_first_lem q l [] is = rw is.head
remove_first_lem q l (x ∷ []) is = (
  record { head_node = none; tail_node = none; size = dec q.size },
  set_next l x none,
  rw (is.head, is.tail) (ground arith),
  record {
    head = refl;
    tail = refl;
    size = omega (arith, is.size);
    small = omega (arith, is.small);
    linked = tt;
    distinct = tt;
  },
  ground arith,
  is.linked.0,
  refl,
)
remove_first_lem q l (x ∷ y ∷ ys) is = (
  record { head_node = some y; tail_node = some (last_of y ys); size = dec q.size },
  set_next (set_prev l y none) x none,
  rw (is.head, is.tail ∙ end_from-last_of x (y ∷ ys) none)
      (rw (last_of-ne_first x y ys is.distinct.0, is.linked.1)
        (rw (is.tail ∙ end_from-last_of x (y ∷ ys) none))),
  record {
    head = refl;
    tail = sym (end_from-last_of y ys none);
    size = omega (arith, is.size, is.small);
    small = omega (arith, is.small);
    linked =
        Seg-set_next _ none none none x (y ∷ ys) is.distinct.0
          (Seg-relink_first l (some x) none none y ys is.distinct.1.0 is.linked.2);
    distinct = is.distinct.1;
  },
  update_self l.next_node x none,
  update-ne l.prev_node y none x is.distinct.0.0 ∙ is.linked.0,
  refl,
)

-- The two getters and get_size read the ends and the length of the list.
pub getters_lem :
    (q : Queue) (l : Links) (xs : List ℕ)
    → IsQueue q l xs
    → (get_first q ≡ first xs none) × (get_last q ≡ end_from none xs) × (get_size q ≡ length xs)
unfolding get_first get_last get_size
getters_lem q l xs is = (is.head, is.tail, is.size)
