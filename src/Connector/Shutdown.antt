-- ===== src/Connector/Shutdown.antt =====
-- ServerConnector.cpp, cleanup.
use universal_fencing_hub.Base.{ℕ, suc, ◌≡◌, refl, ap, ◌∙◌, List, ◌∷◌, none, some, arith, ◌≢◌}
use universal_fencing_hub.CharBuffer.{CharBuffer}
use universal_fencing_hub.Queue.{Queue, remove_first}
use universal_fencing_hub.Queue.Node.{Links}
use universal_fencing_hub.Queue.Refinement.{IsQueue, remove_first_lem}
use universal_fencing_hub.Queue.Detached.{remove_detached}
use universal_fencing_hub.Connector.{Connector, close_connection, close_com_queue, close_fd}

pub remove_first-empty :
    (q : Queue) (l : Links) → q.head_node ≡ none → remove_first q l ≡ some (none, q, l)
unfolding remove_first
remove_first-empty q l e = rw e

module _ {B : Type 0} ⦃cb : CharBuffer B⦄ where
  close_com_queue-step :
      (rounds : ℕ) (s : Connector B) (x : ℕ) (q : Queue) (l : Links)
      → remove_first s.com_queue s.links ≡ some (some x, q, l)
      → close_com_queue (suc rounds) s
        ≡ close_com_queue rounds (close_connection (record s { com_queue = q; links = l }) x)
  unfolding close_com_queue
  close_com_queue-step rounds s x q l e = rw (e, close_com_queue)

  close_com_queue-end :
      (rounds : ℕ) (s : Connector B)
      → s.com_queue.head_node ≡ none
      → close_com_queue (suc rounds) s ≡ some s
  unfolding close_com_queue
  close_com_queue-end rounds s e = rw (remove_first-empty s.com_queue s.links e, close_com_queue)

  -- However many clients stand on the com queue when the server stops, the loop of cleanup closes the
  -- connection of the first and of no other, and leaves the objects of the others as they are.
  pub close_com_queue-first_only :
      (rounds : ℕ) (s : Connector B) (x : ℕ) (xs : List ℕ)
      → IsQueue s.com_queue s.links (x ∷ xs)
      → (t : Connector B) × (close_com_queue (suc (suc rounds)) s ≡ some t)
        × (t.closed_fds ≡ close_fd (s.client x).socket_fd s.closed_fds)
        × ((b : ℕ) → b ≢ x → t.client b ≡ s.client b)
  unfolding close_connection
  close_com_queue-first_only rounds s x xs queue =
      let (q, l, removed, rest, next, prev, links) =
        remove_first_lem s.com_queue s.links (x ∷ xs) queue in
      let t = close_connection (record s { com_queue = q; links = l }) x in
      (
        t,
        close_com_queue-step (suc rounds) s x q l removed
            ∙ close_com_queue-end rounds t
                (ap (λ (u : Queue). u.head_node) (remove_detached q l x next prev)),
        refl,
        λ b ne. ground arith,
      )
