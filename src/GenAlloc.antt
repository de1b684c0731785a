-- ===== src/GenAlloc.antt =====
-- GenAlloc.h: a pool of objects, with a free list that is used as a stack. An object is named by its
-- index in the pool. Every method runs under the allocator's own lock, so a call is one step.
pub mod Ownership
pub mod Counting
use universal_fencing_hub.Base.{
  ℕ, zero, suc, ◌+◌, ◌-◌, List, Option, none, some, if◌then◌else◌, ltb, get_or, set, replicate,
}

pub record GenAlloc : Type 0 where
  pub pool_size : ℕ
  pub free_list : List ℕ
  pub alloc_index : ℕ

-- The loop of the constructor, from `idx` on.
fill_free_list : ℕ → ℕ → List ℕ → List ℕ
fill_free_list zero idx free_list = free_list
fill_free_list (suc rounds) idx free_list = fill_free_list rounds (idx + 1) (set free_list idx idx)

unfoldable pub make : ℕ → GenAlloc
unfolding fill_free_list
make size = record {
  pool_size = size;
  free_list = fill_free_list size 0 (replicate size 0);
  alloc_index = size;
}

unfoldable pub get_pool_size : GenAlloc → ℕ
get_pool_size a = a.pool_size

unfoldable pub get_free_count : GenAlloc → ℕ
get_free_count a = a.alloc_index

unfoldable pub get_allocated_count : GenAlloc → ℕ
get_allocated_count a = a.pool_size - a.alloc_index

-- `none` is std::bad_alloc.
unfoldable pub allocate : GenAlloc → Option (ℕ × GenAlloc)
allocate a =
    if ltb 0 a.alloc_index
    then some
        (get_or a.free_list (a.alloc_index - 1) 0, record a { alloc_index = a.alloc_index - 1 })
    else none

unfoldable pub deallocate : GenAlloc → ℕ → GenAlloc
deallocate a obj =
    if ltb a.alloc_index a.pool_size
    then record a { free_list = set a.free_list a.alloc_index obj; alloc_index = a.alloc_index + 1 }
    else a

unfoldable pub object_at_index : GenAlloc → ℕ → Option ℕ
object_at_index a idx = if ltb idx a.pool_size then some idx else none
