-- ===== src/Queue/Node.antt =====
-- Queue.h, class Node: the members next_node and prev_node of every object, by address.
use universal_fencing_hub.Base.{
  ℕ, ◌≡◌, ◌≢◌, arith, Bool, true, false, Option, none, some, if◌then◌else◌, ◌==◌,
}

-- `none` is the null pointer.
abbrev pub Ptr : Type 0
Ptr = Option ℕ

pub record Links : Type 0 where
  pub next_node : ℕ → Ptr
  pub prev_node : ℕ → Ptr

abbrev pub ptr_eq : Ptr → Ptr → Bool
ptr_eq none none = true
ptr_eq none (some b) = false
ptr_eq (some a) none = false
ptr_eq (some a) (some b) = a == b

abbrev pub update : (ℕ → Ptr) → ℕ → Ptr → ℕ → Ptr
update f a v b = if a == b then v else f b

-- `node->next_node = v` and `node->prev_node = v`
abbrev pub set_next : Links → ℕ → Ptr → Links
set_next l a v = record l { next_node = update l.next_node a v }

abbrev pub set_prev : Links → ℕ → Ptr → Links
set_prev l a v = record l { prev_node = update l.prev_node a v }

-- Node()
abbrev pub unlinked : Links
unlinked = record { next_node = λ _. none; prev_node = λ _. none }

pub update-ne : (f : ℕ → Ptr) (a : ℕ) (v : Ptr) (b : ℕ) → b ≢ a → update f a v b ≡ f b
update-ne f a v b h = ground arith

pub update_self : (f : ℕ → Ptr) (a : ℕ) (v : Ptr) → update f a v a ≡ v
update_self f a v = ground arith
