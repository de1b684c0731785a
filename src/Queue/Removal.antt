-- ===== src/Queue/Removal.antt =====
-- Queue.h, `remove`: a node is taken out of the middle of a queue.
use universal_fencing_hub.Base.{
  ℕ, suc, ◌+◌, ◌≡◌, refl, ◌∙◌, List, [], ◌∷◌, ◌++◌, none, some, arith, length, length-append,
}
use universal_fencing_hub.Queue.{Queue, remove, dec}
use universal_fencing_hub.Queue.Node.{Links, set_next, set_prev, update_self}
use universal_fencing_hub.Queue.Segment.{
  first, end_from, last_of, Seg, Apart, Distinct, Separate, end_from-last_of, end_from-append,
  Apart-append, Distinct-append, Distinct-parts, Separate-head, Separate-tail, last_of-Apart,
  Seg-set_next, Seg-set_prev, Seg-relink_first, Seg-relink_last, Seg-append, Seg-parts,
}
use universal_fencing_hub.Queue.Refinement.{IsQueue}

-- What is known of the node `x` between `xs` and `ys`.
pub record Between (l : Links) (xs : List ℕ) (x : ℕ) (ys : List ℕ) : Type 0 where
  pub before : Seg l none xs (some x)
  pub after : Seg l (some x) ys none
  pub prev : l.prev_node x ≡ end_from none xs
  pub next : l.next_node x ≡ first ys none
  pub distinct_before : Distinct xs
  pub distinct_after : Distinct ys
  pub apart_before : Apart x xs
  pub apart_after : Apart x ys
  pub separate : Separate xs ys

pub IsQueue-Between :
    (q : Queue) (l : Links) (xs : List ℕ) (x : ℕ) (ys : List ℕ)
    → IsQueue q l (xs ++ x ∷ ys)
    → Between l xs x ys
IsQueue-Between q l xs x ys is =
    let segs = Seg-parts l none none xs (x ∷ ys) is.linked in
    let parts = Distinct-parts xs (x ∷ ys) is.distinct in
    record {
      before = segs.0;
      after = segs.1.2;
      prev = segs.1.0;
      next = segs.1.1;
      distinct_before = parts.0;
      distinct_after = parts.1.1;
      apart_before = Separate-head x xs ys parts.2;
      apart_after = parts.1.0;
      separate = Separate-tail x xs ys parts.2;
    }

-- The links after `remove`, by whether there is a node before and behind.
unfoldable pub relinked : Links → List ℕ → ℕ → List ℕ → Links
relinked l [] x [] = l
relinked l [] x (y ∷ ys) = set_prev l y none
relinked l (w ∷ ws) x [] = set_next l (last_of w ws) none
relinked l (w ∷ ws) x (y ∷ ys) =
    set_prev (set_next l (last_of w ws) (some y)) y (some (last_of w ws))

relinked-Seg :
    (l : Links) (xs : List ℕ) (x : ℕ) (ys : List ℕ)
    → Between l xs x ys
    → Seg (relinked l xs x ys) none (xs ++ ys) none
unfolding relinked
relinked-Seg l [] x [] b = tt
relinked-Seg l [] x (y ∷ ys) b =
    Seg-relink_first l (some x) none none y ys b.distinct_after.0 b.after
relinked-Seg l (w ∷ ws) x [] b =
    Seg-append (set_next l (last_of w ws) none) none none (w ∷ ws) []
      (Seg-relink_last l none (some x) none w ws b.distinct_before b.before) tt
relinked-Seg l (w ∷ ws) x (y ∷ ys) b =
    Seg-append _ none none (w ∷ ws) (y ∷ ys)
      (Seg-set_prev _ none (some y) (some (last_of w ws)) y (w ∷ ws)
        (Separate-head y (w ∷ ws) ys b.separate)
        (Seg-relink_last l none (some x) (some y) w ws b.distinct_before b.before))
      (rw (end_from-last_of w ws none) (
        Seg-relink_first _ (some x) (some (last_of w ws)) none y ys b.distinct_after.0 (
          Seg-set_next l (some x) none (some y) (last_of w ws) (y ∷ ys)
            (last_of-Apart w ws (y ∷ ys) b.separate) b.after)))

-- What `remove` computes in a queue.
pub remove-eq :
    (q : Queue) (l : Links) (xs : List ℕ) (x : ℕ) (ys : List ℕ)
    → q.head_node ≡ first (xs ++ x ∷ ys) none
    → q.tail_node ≡ end_from none (xs ++ x ∷ ys)
    → Between l xs x ys
    → remove q l x ≡ (
      record {
        head_node = first (xs ++ ys) none;
        tail_node = end_from none (xs ++ ys);
        size = dec q.size;
      },
      set_next (set_prev (relinked l xs x ys) x none) x none,
    )
unfolding remove relinked
remove-eq q l [] x [] head tail b = ground (arith, b.prev, b.next)
remove-eq q l [] x (y ∷ ys) head tail b = ground (arith, b.prev, b.next)
remove-eq q l (w ∷ ws) x [] head tail b = ground (
  arith,
  b.prev ∙ end_from-last_of w ws none,
  b.next,
  end_from-append none (w ∷ ws) [] ∙ end_from-last_of w ws none,
)
remove-eq q l (w ∷ ws) x (y ∷ ys) head tail b = ground (
  arith,
  b.prev ∙ end_from-last_of w ws none,
  b.next,
  end_from-append none (w ∷ ws) (x ∷ y ∷ ys),
  end_from-append none (w ∷ ws) (y ∷ ys),
)

-- `remove` of a node that the queue holds takes out that node, keeps the order of the others and
-- leaves the node itself unlinked.
pub remove_lem :
    (q : Queue) (l : Links) (xs : List ℕ) (x : ℕ) (ys : List ℕ)
    → IsQueue q l (xs ++ x ∷ ys)
    → IsQueue (remove q l x).0 (remove q l x).1 (xs ++ ys)
      × ((remove q l x).1.next_node x ≡ none)
      × ((remove q l x).1.prev_node x ≡ none)
remove_lem q l xs x ys is = rw (remove-eq q l xs x ys is.head is.tail b) (
  record {
    head = refl;
    tail = refl;
    size = omega (arith, is.size, is.small, longer, shorter);
    small = omega (arith, is.small, longer, shorter);
    linked =
        Seg-set_next _ none none none x (xs ++ ys) apart
          (Seg-set_prev _ none none none x (xs ++ ys) apart (relinked-Seg l xs x ys b));
    distinct = Distinct-append xs ys b.distinct_before b.distinct_after b.separate;
  },
  update_self (set_prev (relinked l xs x ys) x none).next_node x none,
  update_self (relinked l xs x ys).prev_node x none,
)
  where
    b : Between l xs x ys
    b = IsQueue-Between q l xs x ys is

    apart : Apart x (xs ++ ys)
    apart = Apart-append x xs ys b.apart_before b.apart_after

    longer : length (xs ++ x ∷ ys) ≡ length xs + suc (length ys)
    longer = length-append xs (x ∷ ys)

    shorter : length (xs ++ ys) ≡ length xs + length ys
    shorter = length-append xs ys
