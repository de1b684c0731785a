-- ===== src/System/Placement.antt =====
-- ServerConnector.cpp: in whose hands each client of the pool is. The selector works on those on the
-- com queue, the worker threads on those that they took off the action queue.
use universal_fencing_hub.Base.{
  ℕ, suc, ◌+◌, ◌^◌, ◌≤◌, ◌<◌, ◌≡◌, subst, List, [], ◌∷◌, ◌++◌, some, arith, length, length-append,
  one, one_self, one_apart, count, count-append, count-take_out, Bool-cases, false, inl, inr, ltb,
  eq_of_one,
}
use universal_fencing_hub.GenAlloc.{GenAlloc, allocate}
use universal_fencing_hub.GenAlloc.Ownership.{Owns, pool_size-allocate}
use universal_fencing_hub.GenAlloc.Counting.{Owns-once}
use universal_fencing_hub.Queue.{Queue, add_last, remove, remove_first}
use universal_fencing_hub.Queue.Node.{Links}
use universal_fencing_hub.Queue.Segment.{Separate-singleton}
use universal_fencing_hub.Queue.Refinement.{behind_first}
use universal_fencing_hub.Queue.Chain.{IsChain, add_last-IsChain, remove-IsChain}
use universal_fencing_hub.Queue.Places.{
  Apart-of_count, Separate-of_counts, IsLoose, add_last-Seg, remove-Seg, behind_first-Seg,
  remove_first-IsChain,
}

-- The clients that are out of the pool are `used`. Each of them is in one place: on the com queue, on
-- the action queue, with a worker thread, or `lost`: nothing leads to it any more. The first two are
-- in order, and what a worker thread has is linked to nothing.
pub record IsPlaced (com_queue action_queue : Queue) (l : Links) (pool : GenAlloc)
    (busy used talking waiting lost : List ℕ) : Type 0 where
  pub com_chain : IsChain com_queue l talking
  pub action_chain : IsChain action_queue l waiting
  pub loose : (b : ℕ) → 0 < count b busy → IsLoose l b
  pub owns : Owns pool used
  pub small : suc pool.pool_size < 2 ^ 64
  pub places :
      (x : ℕ) → count x talking + (count x waiting + (count x busy + count x lost)) ≡ count x used
  pub total : length talking + (length waiting + (length busy + length lost)) ≡ length used

pub count-behind : (x : ℕ) (xs : List ℕ) (a : ℕ) → count x (xs ++ a ∷ []) ≡ one x a + count x xs
count-behind x xs a = omega (arith, count-append x xs (a ∷ []))

pub length-take_out :
    (xs : List ℕ) (a : ℕ) (ys : List ℕ) → length (xs ++ a ∷ ys) ≡ suc (length (xs ++ ys))
length-take_out xs a ys = omega (arith, length-append xs (a ∷ ys), length-append xs ys)

pub length-behind : (xs : List ℕ) (a : ℕ) → length (xs ++ a ∷ []) ≡ suc (length xs)
length-behind xs a = omega (arith, length-append xs (a ∷ []))

module _ {com_queue action_queue : Queue} {l : Links} {pool : GenAlloc}
    {busy used talking waiting lost : List ℕ} where
  pub once :
      IsPlaced com_queue action_queue l pool busy used talking waiting lost
      → (x : ℕ) → count x talking + (count x waiting + (count x busy + count x lost)) ≤ 1
  once p x = omega (arith, p.places x, Owns-once pool used x p.owns)

  pub bounded_by :
      IsPlaced com_queue action_queue l pool busy used talking waiting lost
      → suc (length talking + (length waiting + length busy)) < 2 ^ 64
  bounded_by p = omega (arith, p.total, p.owns.counted, p.small)

  -- accept_connection
  pub accept-IsPlaced :
      (a : ℕ) (pool' : GenAlloc)
      → IsPlaced com_queue action_queue l pool busy used talking waiting lost
      → allocate pool ≡ some (a, pool')
      → Owns pool' (a ∷ used)
      → IsPlaced
          (add_last com_queue l a).0
          action_queue
          (add_last com_queue l a).1
          pool'
          busy
          (a ∷ used)
          (talking ++ a ∷ [])
          waiting
          lost
  accept-IsPlaced a pool' p e owns = record {
    com_chain =
        add_last-IsChain com_queue l talking a p.com_chain
          (Apart-of_count a talking (omega (arith, fresh))) (omega (arith, bounded_by p));
    action_chain = record {
      head = p.action_chain.head;
      tail = p.action_chain.tail;
      linked =
          add_last-Seg com_queue l talking a waiting p.com_chain
            (Separate-of_counts talking waiting (λ x. omega (arith, once p x)))
            (Apart-of_count a waiting (omega (arith, fresh))) p.action_chain.linked;
      distinct = p.action_chain.distinct;
    };
    loose = λ b h.
        add_last-Seg com_queue l talking a (b ∷ []) p.com_chain
          (Separate-singleton b talking (Apart-of_count b talking (omega (arith, once p b))))
          (Apart-of_count a (b ∷ []) (omega (arith, other b h))) (p.loose b h);
    owns = owns;
    small = omega (arith, p.small, pool_size-allocate pool a pool' e);
    places = λ x. omega (arith, p.places x, count-behind x talking a);
    total = omega (arith, p.total, length-behind talking a);
  }
    where
      fresh : count a talking + (count a waiting + (count a busy + count a lost)) ≡ 0
      fresh = omega (arith, p.places a, Owns-once pool' (a ∷ used) a owns, one_self a)

      other : (b : ℕ) → 0 < count b busy → one a b ≡ 0
      other b h = one_apart a b busy h (omega (arith, fresh))

module _ {com_queue action_queue : Queue} {l : Links} {pool : GenAlloc} {used lost : List ℕ} where
  -- A client taken off the action queue is a worker thread's.
  pub take-IsPlaced :
      {busy talking : List ℕ} (a : ℕ) (rest : List ℕ)
      → IsPlaced com_queue action_queue l pool busy used talking (a ∷ rest) lost
      → (q : Queue) × (remove_first action_queue l ≡ some (some a, q, behind_first l a rest))
        × IsPlaced com_queue q (behind_first l a rest) pool (a ∷ busy) used talking rest lost
  take-IsPlaced {busy} {talking} a rest p =
      let (q, taken, chain, free) = remove_first-IsChain action_queue l a rest p.action_chain in
      (
        q,
        taken,
        record {
          com_chain = record {
            head = p.com_chain.head;
            tail = p.com_chain.tail;
            linked =
                behind_first-Seg l a rest talking
                  (Separate-of_counts (a ∷ rest) talking (λ x. omega (arith, single p x)))
                  p.com_chain.linked;
            distinct = p.com_chain.distinct;
          };
          action_chain = chain;
          loose = by_place free p;
          owns = p.owns;
          small = p.small;
          places = λ x. omega (arith, p.places x);
          total = omega (arith, p.total);
        },
      )
    where
      single :
          IsPlaced com_queue action_queue l pool busy used talking (a ∷ rest) lost
          → (x : ℕ) → count x talking + (one x a + count x rest + count x busy) ≤ 1
      single p x = omega (arith, p.places x, Owns-once pool used x p.owns)

      by_place :
          IsLoose (behind_first l a rest) a
          → IsPlaced com_queue action_queue l pool busy used talking (a ∷ rest) lost
          → (b : ℕ) → 0 < count b (a ∷ busy)
          → IsLoose (behind_first l a rest) b
      by_place free p b h = elim (Bool-cases (ltb 0 (one b a))) [
        | inl now ↦ subst (IsLoose (behind_first l a rest)) (eq_of_one b a (ground arith)) free
        | inr other ↦
            behind_first-Seg l a rest (b ∷ [])
              (Separate-singleton b (a ∷ rest)
                (Apart-of_count b (a ∷ rest) (omega (arith, single p b, behind b h other))))
              (p.loose b (behind b h other))
      ]
        where
          behind : (b : ℕ) → 0 < count b (a ∷ busy) → ltb 0 (one b a) ≡ false → 0 < count b busy
          behind b h other = ground arith

  -- A client that is closed, or handed over, leaves the com queue. It is then in the hands of the
  -- thread that does so.
  pub leave-IsPlaced :
      {busy waiting : List ℕ} (xs : List ℕ) (a : ℕ) (ys : List ℕ)
      → IsPlaced com_queue action_queue l pool busy used (xs ++ a ∷ ys) waiting lost
      → IsPlaced
          (remove com_queue l a).0
          action_queue
          (remove com_queue l a).1
          pool
          (a ∷ busy)
          used
          (xs ++ ys)
          waiting
          lost
  leave-IsPlaced {busy} {waiting} xs a ys p =
      let (chain, free) = remove-IsChain com_queue l xs a ys p.com_chain room in
      record {
        com_chain = chain;
        action_chain = record {
          head = p.action_chain.head;
          tail = p.action_chain.tail;
          linked =
              remove-Seg com_queue l xs a ys waiting p.com_chain room
                (Separate-of_counts (xs ++ a ∷ ys) waiting (λ x. omega (arith, once p x)))
                p.action_chain.linked;
          distinct = p.action_chain.distinct;
        };
        loose = by_place free;
        owns = p.owns;
        small = p.small;
        places = λ x. omega (arith, p.places x, count-take_out x xs a ys);
        total = omega (arith, p.total, length-take_out xs a ys);
      }
    where
      room : length (xs ++ a ∷ ys) < 2 ^ 64
      room = omega (arith, bounded_by p)

      by_place :
          IsLoose (remove com_queue l a).1 a
          → (b : ℕ) → 0 < count b (a ∷ busy)
          → IsLoose (remove com_queue l a).1 b
      by_place free b h = elim (Bool-cases (ltb 0 (one b a))) [
        | inl now ↦ subst (IsLoose (remove com_queue l a).1) (eq_of_one b a (ground arith)) free
        | inr other ↦
            remove-Seg com_queue l xs a ys (b ∷ []) p.com_chain room
              (Separate-singleton b (xs ++ a ∷ ys)
                (Apart-of_count b (xs ++ a ∷ ys) (omega (arith, once p b, behind b h other))))
              (p.loose b (behind b h other))
      ]
        where
          behind : (b : ℕ) → 0 < count b (a ∷ busy) → ltb 0 (one b a) ≡ false → 0 < count b busy
          behind b h other = ground arith
