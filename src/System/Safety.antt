-- ===== src/System/Safety.antt =====
-- ServerConnector.cpp: what holds in every state that the threads of the server can reach, whatever the
-- order of their steps.
use universal_fencing_hub.Base.{
  ℕ, ◌+◌, ◌≤◌, ◌<◌, ◌≡◌, ◌≢◌, sym, ap, ◌∙◌, List, [], ◌∷◌, arith, inl, inr, some, none, length,
  count, one_self, ◌⊎◌,
}
use universal_fencing_hub.CharBuffer.{CharBuffer}
use universal_fencing_hub.GenAlloc.{GenAlloc, get_free_count, allocate}
use universal_fencing_hub.GenAlloc.Ownership.{Owns, allocate-Owns}
use universal_fencing_hub.GenAlloc.Counting.{Owns-once}
use universal_fencing_hub.NetClient.{
  NetClient, IoOp, io_buffer_size, req_read_size, req_write_size, put_header,
}
use universal_fencing_hub.NetClient.Receiving.{req_read_size_bounds}
use universal_fencing_hub.NetClient.Sending.{req_write_size_bounds}
use universal_fencing_hub.Queue.{Queue, remove_first}
use universal_fencing_hub.Queue.Node.{Links}
use universal_fencing_hub.Queue.Chain.{IsChain}
use universal_fencing_hub.Queue.Places.{walk, walk-Seg, remove_first-IsChain}
use universal_fencing_hub.Server.{FenceFunctions}
use universal_fencing_hub.Requests.{process_client_message}
use universal_fencing_hub.Requests.Phases.{Handles}
use universal_fencing_hub.Connector.{Ready, serve_clients}
use universal_fencing_hub.Connector.Shutdown.{remove_first-empty}
use universal_fencing_hub.System.{System, Permitted, IsStarted, Reach}
use universal_fencing_hub.System.Placement.{once}
use universal_fencing_hub.System.Sanity.{Talks}
use universal_fencing_hub.System.Polling.{serve_clients_lem, serve_each}
use universal_fencing_hub.System.Working.{handled}
use universal_fencing_hub.System.Invariant.{Reach-IsSound}

-- The clients that a walk from the head of a queue meets stand on it.
on_chain :
    (q : Queue) (l : Links) (xs : List ℕ) (steps a : ℕ)
    → IsChain q l xs
    → walk l q.head_node steps ≡ some a
    → 0 < count a xs
on_chain q l xs steps a c e =
    walk-Seg l none xs steps a c.linked (ap (λ p. walk l p steps) (sym c.head) ∙ e)

chain-remove_first :
    (q : Queue) (l : Links) (xs : List ℕ) → IsChain q l xs → remove_first q l ≢ none
chain-remove_first q l [] c e = let found = remove_first-empty q l c.head in absurd (cc)
chain-remove_first q l (x ∷ xs) c e =
    let (q', taken, _, _) = remove_first-IsChain q l x xs c in absurd (cc)

all_out :
    (pool : GenAlloc) (used : List ℕ)
    → length used ≡ pool.pool_size
    → Owns pool used
    → 1 ≤ get_free_count pool
    → ⊥
unfolding get_free_count
all_out pool used full owns available = omega (arith, owns.counted)

module _ {B : Type 0} where
  -- The part of recv and send that a client's I/O state asks for lies within its I/O buffer, and is
  -- not empty.
  abbrev pub InBuffer : NetClient B → Type 0
  InBuffer c =
      ((c.io_state ≡ IoOp.read)
        × (0 < req_read_size c)
        × (c.io_offset + req_read_size c ≤ length c.io_buffer))
      ⊎ ((c.io_state ≡ IoOp.write)
          × (0 < req_write_size (put_header c))
          × ((put_header c).io_offset + req_write_size (put_header c)
              ≤ length (put_header c).io_buffer))

  Talks-InBuffer : (c : NetClient B) → Talks c → InBuffer c
  Talks-InBuffer c (inl (seen, reader)) =
      let bounds = req_read_size_bounds c seen reader.receiving in
      inl (reader.io, bounds.0, bounds.1)
  Talks-InBuffer c (inr w) =
      let bounds = req_write_size_bounds (put_header c) w.gone w.message w.sending in
      inr (w.io, bounds.0, bounds.1)

module _ {B : Type 0} ⦃cb : CharBuffer B⦄ (plugin : FenceFunctions) (s t : System B) where
  -- In every state that the server reaches from its start: a client that a worker thread has is with no
  -- other worker thread, and a walk along either queue does not meet it.
  pub Reach-exclusive :
      (a steps : ℕ)
      → IsStarted s
      → Reach plugin s t
      → 0 < count a t.busy
      → (count a t.busy ≡ 1)
        × (walk t.connector.links t.connector.com_queue.head_node steps ≢ some a)
        × (walk t.connector.links t.connector.action_queue.head_node steps ≢ some a)
  Reach-exclusive a steps st reached held =
      let i = Reach-IsSound plugin s t st reached in
      (
        omega (arith, held, once i.sane.placed a),
        λ e.
            let met = on_chain _ _ i.talking steps a i.sane.placed.com_chain e in
            omega (arith, held, met, once i.sane.placed a),
        λ e.
            let met = on_chain _ _ i.waiting steps a i.sane.placed.action_chain e in
            omega (arith, held, met, once i.sane.placed a),
      )

  -- In every state that the server reaches: a client met on the com queue asks recv or send, as its
  -- I/O state says, for at least one byte, and for none outside its I/O buffer.
  pub Reach-InBuffer :
      (a steps : ℕ)
      → IsStarted s
      → Reach plugin s t
      → walk t.connector.links t.connector.com_queue.head_node steps ≡ some a
      → InBuffer (t.connector.client a)
  Reach-InBuffer a steps st reached e =
      let i = Reach-IsSound plugin s t st reached in
      Talks-InBuffer (t.connector.client a)
        (i.sane.talks a (on_chain _ _ i.talking steps a i.sane.placed.com_chain e))

  -- In every state that the server reaches: with a round for each byte of an I/O buffer, the processing
  -- of the message of a client that a worker thread has ends. Either it returns, with a reply to send, or
  -- with the client in phase EXECUTING or CANCELED, in which process_action_queue closes its connection; or
  -- a RangeException, and no other exception, leaves it, with the client in phase EXECUTING and its buffer,
  -- offset, descriptor and I/O state as they were.
  pub Reach-Handles :
      (a rounds : ℕ)
      → IsStarted s
      → Reach plugin s t
      → 0 < count a t.busy
      → io_buffer_size ≤ rounds
      → Handles (t.connector.client a) (process_client_message rounds plugin (t.connector.client a))
  Reach-Handles a rounds st reached held enough =
      let i = Reach-IsSound plugin s t st reached in
      handled rounds plugin (t.connector.client a) (i.sane.works a held) enough

  -- In every state that the server reaches: remove_first of the action queue never follows a null
  -- pointer.
  pub Reach-remove_first :
      IsStarted s
      → Reach plugin s t
      → remove_first t.connector.action_queue t.connector.links ≢ none
  Reach-remove_first st reached =
      let i = Reach-IsSound plugin s t st reached in
      chain-remove_first t.connector.action_queue t.connector.links i.waiting
        i.sane.placed.action_chain

  -- In every state that the server reaches while a client is free: the allocation in accept_connection
  -- succeeds, with a client that no worker thread has and that a walk along either queue does not meet.
  pub Reach-allocate :
      (steps : ℕ)
      → IsStarted s
      → Reach plugin s t
      → 1 ≤ get_free_count t.connector.client_pool
      → (a : ℕ) × (pool : GenAlloc) × (allocate t.connector.client_pool ≡ some (a, pool))
        × (count a t.busy ≡ 0)
        × (walk t.connector.links t.connector.com_queue.head_node steps ≢ some a)
        × (walk t.connector.links t.connector.action_queue.head_node steps ≢ some a)
  Reach-allocate steps st reached available =
      let i = Reach-IsSound plugin s t st reached in
      elim (allocate-Owns t.connector.client_pool i.used i.sane.placed.owns) [
        | inl (refused, full) ↦
            absurd (all_out t.connector.client_pool i.used full i.sane.placed.owns available)
        | inr (a, pool, e, owns) ↦
            let fresh : count a i.talking + (count a i.waiting + (count a t.busy + count a i.lost))
                ≡ 0 =
              omega
                (arith, i.sane.placed.places a, Owns-once pool (a ∷ i.used) a owns, one_self a) in
            (
              a,
              pool,
              e,
              omega (arith, fresh),
              λ met.
                  let found = on_chain _ _ i.talking steps a i.sane.placed.com_chain met in
                  omega (arith, fresh, found),
              λ met.
                  let found = on_chain _ _ i.waiting steps a i.sane.placed.action_chain met in
                  omega (arith, fresh, found),
            )
      ]

  -- In every state that the server reaches: for what select may report, the selector's loop, with a round
  -- for each client of the pool, serves the clients that stand on the com queue, as a list in order,
  -- each once, although they leave the queue while it follows the links.
  pub Reach-serve_clients :
      (rounds : ℕ) (ready : ℕ → Ready)
      → IsStarted s
      → Reach plugin s t
      → t.connector.client_pool.pool_size ≤ rounds
      → ((a : ℕ) → Permitted (t.connector.client a) (ready a))
      → (talking : List ℕ) × IsChain t.connector.com_queue t.connector.links talking
        × (serve_clients rounds ready t.connector t.connector.com_queue.head_node
            ≡ serve_each ready t.connector talking)
  Reach-serve_clients rounds ready st reached enough allowed =
      let i = Reach-IsSound plugin s t st reached in
      (
        i.talking,
        i.sane.placed.com_chain,
        serve_clients_lem ready rounds t.connector i.talking i.sane (λ b h. allowed b)
            (omega (arith, enough, i.sane.placed.total, i.sane.placed.owns.counted)),
      )
