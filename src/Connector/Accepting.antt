-- ===== src/Connector/Accepting.antt =====
-- ServerConnector.cpp, accept_connection.
use mathlib.Core.List.{Mem}
use universal_fencing_hub.Base.{
  ℕ, suc, ◌^◌, ◌<◌, ◌≡◌, ◌≢◌, refl, sym, subst, ◌⊎◌, inl, inr, List, [], ◌∷◌, ◌++◌, some, arith,
  ==_refl, length, length-replicate,
}
use universal_fencing_hub.CharBuffer.{CharBuffer}
use universal_fencing_hub.GenAlloc.{GenAlloc, allocate}
use universal_fencing_hub.GenAlloc.Ownership.{Owns, allocate-Owns, allocate-fresh}
use universal_fencing_hub.NetClient.{Phase, IoOp, Fd, clear, clear_io_buffer, io_buffer_size}
use universal_fencing_hub.NetClient.Receiving.{IsReceiving}
use universal_fencing_hub.Queue.Segment.{Apart}
use universal_fencing_hub.Queue.Refinement.{IsQueue, add_last-append}
use universal_fencing_hub.Connector.{Connector, accept_connection, accepted}

-- The clients on a queue are handed out.
abbrev pub AllOut : List ℕ → List ℕ → Type 0
AllOut [] used = Unit {0}
AllOut (x ∷ xs) used = Mem x used × AllOut xs used

Apart-of_fresh : (a : ℕ) (xs used : List ℕ) → (¬ Mem a used) → AllOut xs used → Apart a xs
Apart-of_fresh a [] used fresh out = tt
Apart-of_fresh a (x ∷ xs) used fresh out =
    ((λ e. fresh (subst (λ t. Mem t used) (sym e) out.0)), Apart-of_fresh a xs used fresh out.1)

module _ {B : Type 0} ⦃cb : CharBuffer B⦄ where
  -- A new connection: its client was free, stands last on the com queue, and waits for a request from
  -- its first byte on; no other client changes.
  pub record IsAccepted (s t : Connector B) (xs used : List ℕ) (fd : Fd) (a : ℕ) : Type 0 where
    pub owns : Owns t.client_pool (a ∷ used)
    pub fresh : ¬ Mem a used
    pub queue : IsQueue t.com_queue t.links (xs ++ a ∷ [])
    pub descriptor : (t.client a).socket_fd ≡ fd
    pub phase : (t.client a).current_phase ≡ Phase.recv
    pub next : (t.client a).next_phase ≡ Phase.pending
    pub io : (t.client a).io_state ≡ IoOp.read
    pub receiving : IsReceiving (t.client a) []
    pub others : (b : ℕ) → b ≢ a → t.client b ≡ s.client b

  pub accepted-IsReceiving : (s : Connector B) (a : ℕ) (fd : Fd) → IsReceiving (accepted s a fd) []
  unfolding accepted clear clear_io_buffer
  accepted-IsReceiving s a fd = record {
    capacity = length-replicate {A = ℕ} io_buffer_size 0;
    so_far = refl;
    offset = inl (refl, omega arith);
  }

  accept_at :
      (s : Connector B) (xs used : List ℕ) (fd : Fd) (a : ℕ) (pool : GenAlloc)
      → allocate s.client_pool ≡ some (a, pool)
      → Owns s.client_pool used
      → Owns pool (a ∷ used)
      → IsQueue s.com_queue s.links xs
      → AllOut xs used
      → suc (length xs) < 2 ^ 64
      → IsAccepted s (accept_connection s fd) xs used fd a
  unfolding accept_connection
  accept_at s xs used fd a pool e before owns queue out small =
      let new = (allocate-fresh s.client_pool used a pool before e).1 in
      rw (e, accept_connection)
        (record {
          owns = owns;
          fresh = new;
          queue =
              add_last-append s.com_queue s.links xs a queue (Apart-of_fresh a xs used new out)
                small;
          descriptor = rw (==_refl a, accepted);
          phase = rw (==_refl a, accepted);
          next = rw (==_refl a, accepted);
          io = rw (==_refl a, accepted);
          receiving = rw (==_refl a) (accepted-IsReceiving s a fd);
          others = λ b ne. ground arith;
        })

  -- When the clients on the com queue are handed out by the pool, and the queue is not full:
  -- either the pool has no client left, and accept_connection changes nothing, or it sets one up
  -- that was free, last on the com queue, with the new descriptor and nothing received, to read a
  -- request.
  pub accept_connection-IsAccepted :
      (s : Connector B) (xs used : List ℕ) (fd : Fd)
      → Owns s.client_pool used
      → IsQueue s.com_queue s.links xs
      → AllOut xs used
      → suc (length xs) < 2 ^ 64
      → ((length used ≡ s.client_pool.pool_size) × (accept_connection s fd ≡ s))
        ⊎ ((a : ℕ) × IsAccepted s (accept_connection s fd) xs used fd a)
  unfolding accept_connection
  accept_connection-IsAccepted s xs used fd owns queue out small =
      elim (allocate-Owns s.client_pool used owns) [
        | inl (refused, full) ↦ inl (full, rw (refused, accept_connection))
        | inr (a, pool, e, owns') ↦
            inr (a, accept_at s xs used fd a pool e owns owns' queue out small)
      ]
