-- ===== src/Queue/Frames.antt =====
-- Queue.h: two queues share the links of their nodes. An operation on one leaves the other as it is,
-- as long as no node stands in both.
use universal_fencing_hub.Base.{ℕ, ◌∙◌, List, [], ◌∷◌, ◌++◌, none, some}
use universal_fencing_hub.Queue.{Queue, add_last, remove}
use universal_fencing_hub.Queue.Node.{Links}
use universal_fencing_hub.Queue.Segment.{
  Seg, Apart, Separate, end_from-last_of, Separate-head, Separate-tail, last_of, last_of-Apart,
  Seg-set_next, Seg-set_prev,
}
use universal_fencing_hub.Queue.Refinement.{IsQueue, behind_first}
use universal_fencing_hub.Queue.Removal.{relinked, remove-eq, IsQueue-Between}

pub Separate-sym : (xs ys : List ℕ) → Separate xs ys → Separate ys xs
Separate-sym xs [] s = tt
Separate-sym xs (y ∷ ys) s = (Separate-head y xs ys s, Separate-sym xs ys (Separate-tail y xs ys s))

pub Separate-parts : (xs ys zs : List ℕ) → Separate (xs ++ ys) zs → Separate xs zs × Separate ys zs
Separate-parts [] ys zs s = (tt, s)
Separate-parts (x ∷ xs) ys zs s = let rest = Separate-parts xs ys zs s.1 in ((s.0, rest.0), rest.1)

pub Separate-append : (xs ys zs : List ℕ) → Separate xs zs → Separate ys zs → Separate (xs ++ ys) zs
Separate-append [] ys zs s t = t
Separate-append (x ∷ xs) ys zs s t = (s.0, Separate-append xs ys zs s.1 t)

relink :
    (q : Queue) (l m : Links) (zs : List ℕ) → IsQueue q l zs → Seg m none zs none → IsQueue q m zs
relink q l m zs is s = record {
  head = is.head;
  tail = is.tail;
  size = is.size;
  small = is.small;
  linked = s;
  distinct = is.distinct;
}

pub relinked-frame :
    (l : Links) (xs : List ℕ) (x : ℕ) (ys zs : List ℕ)
    → Separate xs zs
    → Separate ys zs
    → Seg l none zs none
    → Seg (relinked l xs x ys) none zs none
unfolding relinked
relinked-frame l [] x [] zs s t g = g
relinked-frame l [] x (y ∷ ys) zs s t g = Seg-set_prev l none none none y zs t.0 g
relinked-frame l (w ∷ ws) x [] zs s t g =
    Seg-set_next l none none none (last_of w ws) zs (last_of-Apart w ws zs s) g
relinked-frame l (w ∷ ws) x (y ∷ ys) zs s t g =
    Seg-set_prev _ none none (some (last_of w ws)) y zs t.0
      (Seg-set_next l none none (some y) (last_of w ws) zs (last_of-Apart w ws zs s) g)

-- `remove` of a node of one queue leaves another queue as it is, when no node is on both.
pub remove-frame :
    (q : Queue) (l : Links) (xs : List ℕ) (x : ℕ) (ys : List ℕ) (q' : Queue) (zs : List ℕ)
    → IsQueue q l (xs ++ x ∷ ys)
    → IsQueue q' l zs
    → Separate (xs ++ x ∷ ys) zs
    → IsQueue q' (remove q l x).1 zs
remove-frame q l xs x ys q' zs is other apart =
    let parts = Separate-parts xs (x ∷ ys) zs apart in
    let b = IsQueue-Between q l xs x ys is in
    rw (remove-eq q l xs x ys is.head is.tail b) (
      relink q' l _ zs other (
        Seg-set_next _ none none none x zs parts.1.0 (
          Seg-set_prev _ none none none x zs parts.1.0
            (relinked-frame l xs x ys zs parts.0 parts.1.1 other.linked))))

-- `add_last` to one queue leaves another queue as it is, when no node is on both and the new node
-- is not on the other.
pub add_last-frame :
    (q : Queue) (l : Links) (xs : List ℕ) (node : ℕ) (q' : Queue) (zs : List ℕ)
    → IsQueue q l xs
    → IsQueue q' l zs
    → Separate xs zs
    → Apart node zs
    → IsQueue q' (add_last q l node).1 zs
unfolding add_last
add_last-frame q l [] node q' zs is other apart out = rw is.tail (
    relink q' l _ zs other (
      Seg-set_prev _ none none none node zs out
        (Seg-set_next l none none none node zs out other.linked)))
add_last-frame q l (x ∷ xs) node q' zs is other apart out =
    rw (is.tail ∙ end_from-last_of x xs none) (
      relink q' l _ zs other (
        Seg-set_prev _ none none (some (last_of x xs)) node zs out (
          Seg-set_next _ none none none node zs out (
            Seg-set_next l none none (some node) (last_of x xs) zs (last_of-Apart x xs zs apart)
              other.linked))))

-- Taking the first node of a queue leaves another queue, when no node is on both.
pub behind_first-frame :
    (l : Links) (x : ℕ) (xs : List ℕ) (q' : Queue) (zs : List ℕ)
    → IsQueue q' l zs
    → Separate (x ∷ xs) zs
    → IsQueue q' (behind_first l x xs) zs
behind_first-frame l x [] q' zs other apart =
    relink q' l _ zs other (Seg-set_next l none none none x zs apart.0 other.linked)
behind_first-frame l x (y ∷ ys) q' zs other apart = relink q' l _ zs other (
    Seg-set_next _ none none none x zs apart.0
      (Seg-set_prev l none none none y zs apart.1.0 other.linked))
