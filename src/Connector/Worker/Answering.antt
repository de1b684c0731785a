-- ===== src/Connector/Worker/Answering.antt =====
-- ServerConnector.cpp, process_action_queue, for a client whose request has a reply.
use universal_fencing_hub.Base.{
  ℕ, suc, ◌+◌, ◌^◌, ◌<◌, ◌≡◌, ◌≢◌, refl, sym, ap, ◌∙◌, subst, false, List, [], ◌∷◌, ◌++◌, none,
  some, if◌then◌else◌, ==_refl, length, arith,
}
use universal_fencing_hub.CharBuffer.{CharBuffer}
use universal_fencing_hub.Outcome.{ok}
use universal_fencing_hub.NetClient.{NetClient, Phase}
use universal_fencing_hub.Queue.{Queue, remove_first, add_last}
use universal_fencing_hub.Queue.Node.{Links}
use universal_fencing_hub.Queue.Segment.{Separate}
use universal_fencing_hub.Queue.Refinement.{IsQueue, add_last-append, remove_first_lem}
use universal_fencing_hub.Queue.Frames.{Separate-sym, add_last-frame, behind_first-frame}
use universal_fencing_hub.Server.{FenceFunctions}
use universal_fencing_hub.Requests.{process_client_message}
use universal_fencing_hub.Connector.{Connector, set_client, finish_client, close_connection}
use universal_fencing_hub.Connector.Worker.{executing, after_message, process_action_queue}

module _ {B : Type 0} ⦃cb : CharBuffer B⦄ where
  -- The client is back on the com queue.
  abbrev pub continued : Connector B → ℕ → Connector B
  continued s a =
      let (com_queue, links) = add_last s.com_queue s.links a in
      record s {
        com_queue = com_queue;
        links = links;
        wakeups = elim s.trigger_write [ none ↦ s.wakeups | some fd ↦ s.wakeups + 1 ];
      }

  -- finish_client, by the phase of the client.
  abbrev pub finish_as : Connector B → ℕ → Phase → Connector B
  finish_as s a Phase.recv = if s.signaled then close_connection s a else continued s a
  finish_as s a Phase.send = if s.signaled then close_connection s a else continued s a
  finish_as s a Phase.pending = close_connection s a
  finish_as s a Phase.executing = close_connection s a
  finish_as s a Phase.canceled = close_connection s a

  pub finish_client-as :
      (s : Connector B) (a : ℕ) (p : Phase)
      → (s.client a).current_phase ≡ p
      → finish_client s a ≡ finish_as s a p
  unfolding finish_client
  finish_client-as s a p e = by_clauses (s.client a).current_phase ∙ ap (finish_as s a) e
    where
      by_clauses :
          (q : Phase)
          → elim q [
            | Phase.recv ↦ if s.signaled then close_connection s a else continued s a
            | Phase.send ↦ if s.signaled then close_connection s a else continued s a
            | Phase.pending ↦ close_connection s a
            | Phase.executing ↦ close_connection s a
            | Phase.canceled ↦ close_connection s a
          ]
            ≡ finish_as s a q
      by_clauses Phase.recv = refl
      by_clauses Phase.send = refl
      by_clauses Phase.pending = refl
      by_clauses Phase.executing = refl
      by_clauses Phase.canceled = refl

  finish_client-continued :
      (s : Connector B) (a : ℕ)
      → (s.client a).current_phase ≡ Phase.send
      → s.signaled ≡ false
      → finish_client s a ≡ continued s a
  finish_client-continued s a e f =
      finish_client-as s a Phase.send e
      ∙ ap (λ t. if t then close_connection s a else continued s a) f

  turn :
      (turns rounds : ℕ) (plugin : FenceFunctions) (s u : Connector B) (a : ℕ) (queue : Queue)
      (links : Links)
      → remove_first s.action_queue s.links ≡ some (some a, queue, links)
      → after_message
          (record s { action_queue = queue; links = links })
          a
          (process_client_message rounds plugin (executing (s.client a)))
        ≡ some (ok u tt)
      → process_action_queue (suc turns) rounds plugin s
        ≡ process_action_queue turns rounds plugin u
  unfolding process_action_queue
  turn turns rounds plugin s u a queue links taken done = rw (taken, done, process_action_queue)

  -- The first client of the action queue, whose request is answered before the server is stopped: in
  -- its turn a worker thread takes it off the action queue and puts it at the end of the com queue, if
  -- that is not full, ready to send its reply, and goes on with the next one. The other clients and
  -- the order of both queues stay.
  pub process_action_queue-answered :
      (turns rounds : ℕ) (plugin : FenceFunctions) (s : Connector B) (a : ℕ) (zs xs : List ℕ)
      (c : NetClient B)
      → IsQueue s.action_queue s.links (a ∷ zs)
      → IsQueue s.com_queue s.links xs
      → Separate (a ∷ zs) xs
      → suc (length xs) < 2 ^ 64
      → process_client_message rounds plugin (executing (s.client a)) ≡ some (ok c tt)
      → c.current_phase ≡ Phase.send
      → s.signaled ≡ false
      → (t : Connector B) × (process_action_queue (suc turns) rounds plugin s
          ≡ process_action_queue turns rounds plugin t)
        × IsQueue t.action_queue t.links zs
        × IsQueue t.com_queue t.links (xs ++ a ∷ [])
        × (t.client a ≡ c)
        × ((b : ℕ) → b ≢ a → t.client b ≡ s.client b)
  unfolding after_message
  process_action_queue-answered turns rounds plugin s a zs xs c waiting talking apart room answered
        phase running =
      let (queue, links, taken, rest, next, prev, same) =
        remove_first_lem s.action_queue s.links (a ∷ zs) waiting in
      let s1 = record s { action_queue = queue; links = links } in
      let s2 = set_client s1 a c in
      let sending = ap (λ b. (if b then c else s.client a).current_phase) (==_refl a) ∙ phase in
      let done =
        ap (after_message s1 a) answered
        ∙ ap (λ t. some (ok t tt)) (finish_client-continued s2 a sending running) in
      let com_queue =
        subst (λ t. IsQueue s.com_queue t xs) (sym same)
          (behind_first-frame s.links a zs s.com_queue xs talking apart) in
      (
        continued s2 a,
        turn turns rounds plugin s (continued s2 a) a queue links taken done,
        add_last-frame s.com_queue links xs a queue zs com_queue rest (Separate-sym zs xs apart.1)
            waiting.distinct.0,
        add_last-append s.com_queue links xs a com_queue apart.0 room,
        ap (λ b. if b then c else s.client a) (==_refl a),
        λ b ne. ground arith,
      )
