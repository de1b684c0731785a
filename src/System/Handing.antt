-- ===== src/System/Handing.antt =====
-- ServerConnector.cpp: where a client goes that a thread has in its hands: to the end of a queue, back
-- to the pool, or nowhere.
use universal_fencing_hub.Base.{
  ℕ, suc, ◌+◌, ◌<◌, ◌≡◌, ap, subst, List, [], ◌∷◌, ◌++◌, none, arith, length, length-append, one,
  one_self, one_apart, count, count-append, count-take_out, split_of_count,
}
use universal_fencing_hub.GenAlloc.{GenAlloc, deallocate}
use universal_fencing_hub.GenAlloc.Ownership.{Owns, deallocate-Owns}
use universal_fencing_hub.GenAlloc.Counting.{pool_size-deallocate}
use universal_fencing_hub.Queue.{Queue, add_last, remove, dec}
use universal_fencing_hub.Queue.Node.{Links, Ptr, update}
use universal_fencing_hub.Queue.Segment.{Separate-singleton, Seg-set_next, Seg-set_prev}
use universal_fencing_hub.Queue.Chain.{add_last-IsChain, nothing-IsChain}
use universal_fencing_hub.Queue.Detached.{remove_detached, remove_detached-links}
use universal_fencing_hub.Queue.Places.{Apart-of_count, Separate-of_counts, add_last-Seg}
use universal_fencing_hub.System.Placement.{
  IsPlaced, once, bounded_by, count-behind, length-behind, length-take_out,
}

null : (a : ℕ) (f : ℕ → Ptr) (b : ℕ) → f b ≡ none → update f a none b ≡ none
null a f b e = ground arith

module _ {com_queue action_queue : Queue} {l : Links} {pool : GenAlloc}
    {used talking waiting lost : List ℕ} (pre : List ℕ) (a : ℕ) (post : List ℕ)
    (p : IsPlaced com_queue action_queue l pool (pre ++ a ∷ post) used talking waiting lost) where
  held : count a (pre ++ a ∷ post) ≡ suc (count a (pre ++ post))
  held = omega (arith, count-take_out a pre a post, one_self a)

  only : count a talking + (count a waiting + (count a (pre ++ post) + count a lost)) ≡ 0
  only = omega (arith, once p a, held)

  still : (b : ℕ) → 0 < count b (pre ++ post) → 0 < count b (pre ++ a ∷ post)
  still b h = omega (arith, count-take_out b pre a post)

  different : (b : ℕ) → 0 < count b (pre ++ post) → one a b ≡ 0
  different b h = one_apart a b (pre ++ post) h (omega (arith, only))

  -- It goes to the end of the com queue.
  pub return-IsPlaced :
      IsPlaced
        (add_last com_queue l a).0
        action_queue
        (add_last com_queue l a).1
        pool
        (pre ++ post)
        used
        (talking ++ a ∷ [])
        waiting
        lost
  return-IsPlaced = record {
    com_chain =
        add_last-IsChain com_queue l talking a p.com_chain
          (Apart-of_count a talking (omega (arith, only))) (omega (arith, bounded_by p));
    action_chain = record {
      head = p.action_chain.head;
      tail = p.action_chain.tail;
      linked =
          add_last-Seg com_queue l talking a waiting p.com_chain
            (Separate-of_counts talking waiting (λ x. omega (arith, once p x)))
            (Apart-of_count a waiting (omega (arith, only))) p.action_chain.linked;
      distinct = p.action_chain.distinct;
    };
    loose = λ b h.
        add_last-Seg com_queue l talking a (b ∷ []) p.com_chain
          (Separate-singleton b talking
            (Apart-of_count b talking (omega (arith, once p b, still b h))))
          (Apart-of_count a (b ∷ []) (omega (arith, different b h))) (p.loose b (still b h));
    owns = p.owns;
    small = p.small;
    places = λ x. omega (arith, p.places x, count-behind x talking a, count-take_out x pre a post);
    total = omega (arith, p.total, length-behind talking a, length-take_out pre a post);
  }

  -- It goes to the end of the action queue.
  pub hand_over-IsPlaced :
      IsPlaced com_queue
        (add_last action_queue l a).0
        (add_last action_queue l a).1
        pool
        (pre ++ post)
        used
        talking
        (waiting ++ a ∷ [])
        lost
  hand_over-IsPlaced = record {
    action_chain =
        add_last-IsChain action_queue l waiting a p.action_chain
          (Apart-of_count a waiting (omega (arith, only))) (omega (arith, bounded_by p));
    com_chain = record {
      head = p.com_chain.head;
      tail = p.com_chain.tail;
      linked =
          add_last-Seg action_queue l waiting a talking p.action_chain
            (Separate-of_counts waiting talking (λ x. omega (arith, once p x)))
            (Apart-of_count a talking (omega (arith, only))) p.com_chain.linked;
      distinct = p.com_chain.distinct;
    };
    loose = λ b h.
        add_last-Seg action_queue l waiting a (b ∷ []) p.action_chain
          (Separate-singleton b waiting
            (Apart-of_count b waiting (omega (arith, once p b, still b h))))
          (Apart-of_count a (b ∷ []) (omega (arith, different b h))) (p.loose b (still b h));
    owns = p.owns;
    small = p.small;
    places = λ x. omega (arith, p.places x, count-behind x waiting a, count-take_out x pre a post);
    total = omega (arith, p.total, length-behind waiting a, length-take_out pre a post);
  }

  -- Its object goes back to the pool.
  pub release-IsPlaced :
      (used' : List ℕ) × IsPlaced com_queue action_queue l
        (deallocate pool a)
        (pre ++ post)
        used'
        talking
        waiting
        lost
  release-IsPlaced =
      let (before, behind, e) = split_of_count a used (omega (arith, p.places a, held)) in
      (
        before ++ behind,
        record {
          com_chain = p.com_chain;
          action_chain = p.action_chain;
          loose = λ b h. p.loose b (still b h);
          owns = deallocate-Owns pool before a behind (subst (Owns pool) e p.owns);
          small = omega (arith, p.small, pool_size-deallocate pool a);
          places = λ x. omega (
            arith,
            p.places x,
            count-take_out x pre a post,
            ap (count x) e,
            count-take_out x before a behind,
          );
          total = omega (
            arith,
            p.total,
            length-take_out pre a post,
            ap length e,
            length-take_out before a behind,
          );
        },
      )

  -- It stays where it is, and nothing leads to it any more.
  pub strand-IsPlaced :
      IsPlaced com_queue action_queue l pool (pre ++ post) used talking waiting (a ∷ lost)
  strand-IsPlaced = record {
    com_chain = p.com_chain;
    action_chain = p.action_chain;
    loose = λ b h. p.loose b (still b h);
    owns = p.owns;
    small = p.small;
    places = λ x. omega (arith, p.places x, count-take_out x pre a post);
    total = omega (arith, p.total, length-take_out pre a post);
  }

  -- `remove`, when it stands on no queue, makes the com queue forget all clients.
  pub forget-IsPlaced :
      IsPlaced
        (remove com_queue l a).0
        action_queue
        (remove com_queue l a).1
        pool
        (pre ++ a ∷ post)
        used
        []
        waiting
        (talking ++ lost)
  forget-IsPlaced =
      let (prev, next, _) = p.loose a (omega (arith, held)) in
      rw (remove_detached com_queue l a next prev, remove_detached-links com_queue l a next prev)
        (record {
          com_chain = nothing-IsChain (dec com_queue.size) _;
          action_chain = record {
            head = p.action_chain.head;
            tail = p.action_chain.tail;
            linked =
                Seg-set_next _ none none none a waiting
                  (Apart-of_count a waiting (omega (arith, only)))
                  (Seg-set_prev l none none none a waiting
                    (Apart-of_count a waiting (omega (arith, only))) p.action_chain.linked);
            distinct = p.action_chain.distinct;
          };
          loose = λ b h.
              (null a l.prev_node b (p.loose b h).0, null a l.next_node b (p.loose b h).1, tt);
          owns = p.owns;
          small = p.small;
          places = λ x. omega (arith, p.places x, count-append x talking lost);
          total = omega (arith, p.total, length-append talking lost);
        })
