-- ===== src/GenAlloc/Counting.antt =====
-- GenAlloc.h: an object is handed out at most once, and the size of the pool stays.
use mathlib.Core.List.Perm
use mathlib.Core.List.{Nodup-append}
use universal_fencing_hub.Base.{ℕ, ◌≤◌, ◌≡◌, refl, List, arith, count, Nodup-count}
use universal_fencing_hub.GenAlloc.{GenAlloc, make, deallocate}
use universal_fencing_hub.GenAlloc.Ownership.{Owns, range_from-Nodup}

pub Owns-once : (a : GenAlloc) (used : List ℕ) (x : ℕ) → Owns a used → count x used ≤ 1
Owns-once a used x o =
    Nodup-count x used
      (Nodup-append.0 (Perm.nodup (Perm.symm o.partition) (range_from-Nodup 0 a.pool_size))).1

pub pool_size-deallocate : (a : GenAlloc) (x : ℕ) → (deallocate a x).pool_size ≡ a.pool_size
unfolding deallocate
pool_size-deallocate a x = ground arith

pub pool_size-make : (n : ℕ) → (make n).pool_size ≡ n
unfolding make
pool_size-make n = refl
