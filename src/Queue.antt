-- ===== src/Queue.antt =====
-- Queue.h: the intrusive doubly linked queue. Its nodes are the objects themselves, so the links live
-- outside the queue, in the `Node` part of every object, by address. The queues of the server
-- connector share them.
pub mod Node
pub mod Segment
pub mod Refinement
pub mod Removal
pub mod Clearing
pub mod Detached
pub mod Frames
pub mod Chain
pub mod Places
use universal_fencing_hub.Base.{
  ℕ, zero, suc, ◌+◌, ◌-◌, ◌%◌, ◌^◌, Option, none, some, if◌then◌else◌, ◌==◌,
}
use Node.{Ptr, Links, set_next, set_prev, ptr_eq}

pub record Queue : Type 0 where
  pub size : ℕ
  pub head_node : Ptr
  pub tail_node : Ptr

unfoldable pub empty : Queue
empty = record { size = 0; head_node = none; tail_node = none }

-- `++size` and `--size` on a size_t.
abbrev pub inc : ℕ → ℕ
inc n = (n + 1) % 2 ^ 64

abbrev pub dec : ℕ → ℕ
dec n = (n + 2 ^ 64 - 1) % 2 ^ 64

unfoldable pub add_first : Queue → Links → ℕ → Queue × Links
add_first q l ins_node = elim q.head_node [
  | some head ↦ (
    record q { head_node = some ins_node; size = inc q.size },
    set_prev (set_next (set_prev l head (some ins_node)) ins_node q.head_node) ins_node none,
  )
  | none ↦ (
    record q { tail_node = some ins_node; head_node = some ins_node; size = inc q.size },
    set_prev (set_next l ins_node q.head_node) ins_node none,
  )
]

unfoldable pub add_last : Queue → Links → ℕ → Queue × Links
add_last q l ins_node = elim q.tail_node [
  | some tail ↦ (
    record q { tail_node = some ins_node; size = inc q.size },
    set_prev (set_next (set_next l tail (some ins_node)) ins_node none) ins_node q.tail_node,
  )
  | none ↦ (
    record q { head_node = some ins_node; tail_node = some ins_node; size = inc q.size },
    set_prev (set_next l ins_node none) ins_node q.tail_node,
  )
]

unfoldable pub get_first : Queue → Ptr
get_first q = q.head_node

unfoldable pub get_last : Queue → Ptr
get_last q = q.tail_node

-- The outer `none` is a write through a null pointer.
unfoldable pub remove_first : Queue → Links → Option (Ptr × Queue × Links)
remove_first q l = elim q.head_node [
  | none ↦ some (none, q, l)
  | some rmv_node ↦
      if ptr_eq q.head_node q.tail_node
      then some (
        some rmv_node,
        record { head_node = none; tail_node = none; size = dec q.size },
        set_next l rmv_node none,
      )
      else elim (l.next_node rmv_node) [
        | none ↦ none
        | some next ↦ some (
          some rmv_node,
          record q { head_node = some next; size = dec q.size },
          set_next (set_prev l next none) rmv_node none,
        )
      ]
]

-- The size is counted down in the second branch only.
unfoldable pub remove_last : Queue → Links → Option (Ptr × Queue × Links)
remove_last q l = elim q.tail_node [
  | none ↦ some (none, q, l)
  | some rmv_node ↦
      if ptr_eq q.head_node q.tail_node
      then some
          (some rmv_node, record q { head_node = none; tail_node = none }, set_prev l rmv_node none)
      else elim (l.prev_node rmv_node) [
        | none ↦ none
        | some prev ↦ some (
          some rmv_node,
          record q { tail_node = some prev; size = dec q.size },
          set_prev (set_next l prev none) rmv_node none,
        )
      ]
]

-- The first half of `remove`: what leads to the node.
bypass_next : Queue → Links → ℕ → Queue × Links
bypass_next q l rmv_node = elim (l.prev_node rmv_node) [
  | none ↦ (record q { head_node = l.next_node rmv_node }, l)
  | some prev ↦ (q, set_next l prev (l.next_node rmv_node))
]

-- The second half of `remove`: what leads back to the node.
bypass_prev : Queue → Links → ℕ → Queue × Links
bypass_prev q l rmv_node = elim (l.next_node rmv_node) [
  | none ↦ (record q { tail_node = l.prev_node rmv_node }, l)
  | some next ↦ (q, set_prev l next (l.prev_node rmv_node))
]

unlink : Queue × Links → ℕ → Queue × Links
unlink (q, l) rmv_node =
    (record q { size = dec q.size }, set_next (set_prev l rmv_node none) rmv_node none)

unfoldable pub remove : Queue → Links → ℕ → Queue × Links
unfolding bypass_next bypass_prev unlink
remove q l rmv_node =
    let first_half = bypass_next q l rmv_node in
    unlink (bypass_prev first_half.0 first_half.1 rmv_node) rmv_node

-- The loop of `clear`, over the rounds that it may take.
clear_links : ℕ → Links → Ptr → Links
clear_links zero l clr_node = l
clear_links (suc rounds) l none = l
clear_links (suc rounds) l (some clr_node) =
    clear_links rounds (set_prev (set_next l clr_node none) clr_node none) (l.next_node clr_node)

unfoldable pub clear : ℕ → Queue → Links → Queue × Links
unfolding clear_links
clear rounds q l =
    (record { head_node = none; tail_node = none; size = 0 }, clear_links rounds l q.head_node)

unfoldable pub get_size : Queue → ℕ
get_size q = q.size
