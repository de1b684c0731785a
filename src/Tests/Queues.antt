-- ===== src/Tests/Queues.antt =====
-- Examples for Queue.h and GenAlloc.h: a queue of three nodes, and a pool of three objects.
use universal_fencing_hub.Base.{ℕ, ◌≡◌, refl, [], ◌∷◌, none, some, arith, ◌==◌, if◌then◌else◌}
use mathlib.Core.List.Perm
use universal_fencing_hub.Queue.{Queue, add_last, remove_first, remove, clear}
use universal_fencing_hub.Queue.Node.{Links, Ptr}
use universal_fencing_hub.Queue.Refinement.{
  IsQueue, add_last-append, RemovesFirst, remove_first_lem,
}
use universal_fencing_hub.Queue.Removal.{remove_lem}
use universal_fencing_hub.Queue.Clearing.{AllUnlinked, clear_lem}
use universal_fencing_hub.GenAlloc.{GenAlloc, allocate, deallocate}
use universal_fencing_hub.GenAlloc.Ownership.{Owns, deallocate-Owns}

-- The nodes 4, 7 and 9 in a queue, and the nodes 1 in another one.
abbrev after_node : ℕ → Ptr
after_node n = if n == 4 then some 7 else (if n == 7 then some 9 else none)

abbrev before_node : ℕ → Ptr
before_node n = if n == 7 then some 4 else (if n == 9 then some 7 else none)

abbrev pub three_links : Links
three_links = record { next_node = after_node; prev_node = before_node }

abbrev pub three : Queue
three = record { head_node = some 4; tail_node = some 9; size = 3 }

abbrev pub single : Queue
single = record { head_node = some 1; tail_node = some 1; size = 1 }

pub three-IsQueue : IsQueue three three_links (4 ∷ 7 ∷ 9 ∷ [])
three-IsQueue = record {
  head = refl;
  tail = refl;
  size = refl;
  small = omega arith;
  linked = (refl, refl, (refl, refl, (refl, refl, tt)));
  distinct = omega arith;
}

pub single-IsQueue : IsQueue single three_links (1 ∷ [])
single-IsQueue = record {
  head = refl;
  tail = refl;
  size = refl;
  small = omega arith;
  linked = (refl, refl, tt);
  distinct = (tt, tt);
}

add_last-append_example :
    IsQueue (add_last three three_links 2).0 (add_last three three_links 2).1 (4 ∷ 7 ∷ 9 ∷ 2 ∷ [])
add_last-append_example =
    add_last-append three three_links (4 ∷ 7 ∷ 9 ∷ []) 2 three-IsQueue (omega arith) (omega arith)

remove_first_lem_example :
    RemovesFirst three three_links (4 ∷ 7 ∷ 9 ∷ []) (remove_first three three_links)
remove_first_lem_example = remove_first_lem three three_links (4 ∷ 7 ∷ 9 ∷ []) three-IsQueue

remove_lem_example :
    IsQueue (remove three three_links 7).0 (remove three three_links 7).1 (4 ∷ 9 ∷ [])
    × ((remove three three_links 7).1.next_node 7 ≡ none)
    × ((remove three three_links 7).1.prev_node 7 ≡ none)
remove_lem_example = remove_lem three three_links (4 ∷ []) 7 (9 ∷ []) three-IsQueue

clear_lem_example :
    IsQueue (clear 3 three three_links).0 (clear 3 three three_links).1 []
    × AllUnlinked (clear 3 three three_links).1 (4 ∷ 7 ∷ 9 ∷ [])
clear_lem_example = clear_lem 3 three three_links (4 ∷ 7 ∷ 9 ∷ []) three-IsQueue (omega arith)

-- The pool once its last object is handed out.
abbrev pub pool : GenAlloc
pool = record { pool_size = 3; free_list = 0 ∷ 1 ∷ 2 ∷ []; alloc_index = 2 }

abbrev emptier_pool : GenAlloc
emptier_pool = record pool { alloc_index = 1 }

pub pool-Owns : Owns pool (2 ∷ [])
pool-Owns = record { room = refl; counted = refl; partition = Perm.refl (0 ∷ 1 ∷ 2 ∷ []) }

taken : allocate pool ≡ some (1, emptier_pool)
unfolding allocate
taken = refl

deallocate-Owns_example : Owns (deallocate pool 2) []
deallocate-Owns_example = deallocate-Owns pool [] 2 [] pool-Owns
