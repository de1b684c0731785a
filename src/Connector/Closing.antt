-- ===== src/Connector/Closing.antt =====
-- ServerConnector.cpp, close_connection, for a client that stands on the com queue, and for one that
-- does not.
use universal_fencing_hub.Base.{
  ℕ, ◌≡◌, ◌≢◌, refl, List, ◌∷◌, ◌++◌, none, arith, ==_refl, ◌⊎◌, inl, inr,
}
use universal_fencing_hub.CharBuffer.{CharBuffer}
use universal_fencing_hub.GenAlloc.Ownership.{Owns, deallocate-Owns}
use universal_fencing_hub.NetClient.{Phase, clear}
use universal_fencing_hub.Queue.{dec}
use universal_fencing_hub.Queue.Refinement.{IsQueue}
use universal_fencing_hub.Queue.Removal.{remove_lem}
use universal_fencing_hub.Queue.Detached.{remove_detached}
use universal_fencing_hub.Connector.{Connector, close_connection, close_fd, finish_client}

module _ {B : Type 0} ⦃cb : CharBuffer B⦄ where
  -- What close_connection of a client between `xs` and `ys` on the com queue does: the others stay on
  -- the queue in their order, the object goes back to the pool, the descriptor is closed, and no other
  -- client changes.
  pub record IsClosed (s t : Connector B) (xs : List ℕ) (a : ℕ) (ys used used' : List ℕ)
      : Type 0 where
    pub queue : IsQueue t.com_queue t.links (xs ++ ys)
    pub freed : Owns t.client_pool (used ++ used')
    pub descriptor : t.closed_fds ≡ close_fd (s.client a).socket_fd s.closed_fds
    pub emptied : t.client a ≡ clear (s.client a)
    pub others : (b : ℕ) → b ≢ a → t.client b ≡ s.client b

  -- Closing the connection of a client that is on the com queue and handed out by the pool takes
  -- it off the queue, gives it back to the pool, closes its descriptor and clears it, and leaves
  -- the others.
  pub close_connection-IsClosed :
      (s : Connector B) (xs : List ℕ) (a : ℕ) (ys used used' : List ℕ)
      → IsQueue s.com_queue s.links (xs ++ a ∷ ys)
      → Owns s.client_pool (used ++ a ∷ used')
      → IsClosed s (close_connection s a) xs a ys used used'
  unfolding close_connection
  close_connection-IsClosed s xs a ys used used' queue owns = record {
    queue = (remove_lem s.com_queue s.links xs a ys queue).0;
    freed = deallocate-Owns s.client_pool used a used' owns;
    descriptor = refl;
    emptied = rw (==_refl a);
    others = λ b ne. ground arith;
  }

  -- A client without neighbours, since it is on no queue, that a worker thread drops because its phase
  -- is EXECUTING or CANCELED: closing it makes the com queue forget every client on it, while its size
  -- is counted down by one.
  pub finish_client-detached :
      (s : Connector B) (a : ℕ)
      → s.links.next_node a ≡ none
      → s.links.prev_node a ≡ none
      → ((s.client a).current_phase ≡ Phase.executing)
        ⊎ ((s.client a).current_phase ≡ Phase.canceled)
      → (finish_client s a).com_queue
        ≡ record { head_node = none; tail_node = none; size = dec s.com_queue.size }
  unfolding finish_client close_connection
  finish_client-detached s a next prev (inl phase) =
      rw (phase, finish_client) (remove_detached s.com_queue s.links a next prev)
  finish_client-detached s a next prev (inr phase) =
      rw (phase, finish_client) (remove_detached s.com_queue s.links a next prev)
