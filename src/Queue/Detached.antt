-- ===== src/Queue/Detached.antt =====
-- Queue.h, `remove` and `remove_last` where they go wrong: on a node that the queue does not hold, and
-- in the count.
use universal_fencing_hub.Base.{ℕ, ◌≡◌, [], ◌∷◌, none, some, arith}
use universal_fencing_hub.Queue.{Queue, remove, remove_last, bypass_next, bypass_prev, unlink, dec}
use universal_fencing_hub.Queue.Node.{Links, set_next, set_prev}
use universal_fencing_hub.Queue.Refinement.{IsQueue}

-- `remove` of a node that stands in no queue, as every node does that was just taken off one, makes
-- the queue forget all its nodes and count one down.
pub remove_detached :
    (q : Queue) (l : Links) (node : ℕ)
    → l.next_node node ≡ none
    → l.prev_node node ≡ none
    → ((remove q l node).0 ≡ record { head_node = none; tail_node = none; size = dec q.size })
unfolding remove bypass_next bypass_prev unlink
remove_detached q l node next prev = ground arith

-- `remove_last` of the only node of a queue returns it and leaves an empty queue, with a size of
-- 1.
pub remove_last_only :
    (q : Queue) (l : Links) (x : ℕ)
    → IsQueue q l (x ∷ [])
    → remove_last q l
      ≡ some (some x, record { head_node = none; tail_node = none; size = 1 }, set_prev l x none)
unfolding remove_last
remove_last_only q l x is = rw (is.head, is.tail) (ground (arith, is.size))

-- Of the links, it then writes those of the node alone, and leaves them null.
pub remove_detached-links :
    (q : Queue) (l : Links) (node : ℕ)
    → l.next_node node ≡ none
    → l.prev_node node ≡ none
    → (remove q l node).1 ≡ set_next (set_prev l node none) node none
unfolding remove bypass_next bypass_prev unlink
remove_detached-links q l node next prev = ground arith
