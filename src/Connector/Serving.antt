-- ===== src/Connector/Serving.antt =====
-- ServerConnector.cpp, selector_loop: what a call of recv or send makes of a client.
use universal_fencing_hub.Base.{
  ℕ, suc, ◌+◌, ◌^◌, ◌≤◌, ◌<◌, ◌≡◌, ◌≢◌, refl, sym, ap, ◌∙◌, subst, ◌⊎◌, inl, inr, List, [], ◌∷◌,
  ◌++◌, arith, if◌then◌else◌, ==_refl, length, false,
}
use universal_fencing_hub.CharBuffer.{CharBuffer}
use universal_fencing_hub.NetClient.{
  NetClient, Phase, IoOp, RecvResult, received, recv_failed, IoResult, complete, partial, closed,
  req_read_size, receive_message,
}
use universal_fencing_hub.NetClient.Receiving.{
  IsReceiving, HasMessage, Receives, receive_message_lem,
}
use universal_fencing_hub.Queue.Segment.{Separate, Apart-append}
use universal_fencing_hub.Queue.Refinement.{IsQueue, add_last-append}
use universal_fencing_hub.Queue.Removal.{remove_lem, IsQueue-Between}
use universal_fencing_hub.Queue.{remove}
use universal_fencing_hub.Queue.Frames.{
  Separate-sym, Separate-parts, Separate-append, remove-frame, add_last-frame,
}
use universal_fencing_hub.Connector.{
  Connector, Ready, readable, is_canceled, serve_client, serve_ready, after_receive, input_done,
  close_connection,
}

-- A client that waits for input on the com queue.
pub record IsReader {B : Type 0} (c : NetClient B) (seen : List ℕ) : Type 0 where
  pub phase : c.current_phase ≡ Phase.recv
  pub next : c.next_phase ≡ Phase.pending
  pub io : c.io_state ≡ IoOp.read
  pub receiving : IsReceiving c seen

-- A client with a message for the worker threads.
pub record IsPending {B : Type 0} (c : NetClient B) (seen : List ℕ) : Type 0 where
  pub phase : c.current_phase ≡ Phase.pending
  pub io : c.io_state ≡ IoOp.noop
  pub message : HasMessage c seen

module _ {B : Type 0} ⦃cb : CharBuffer B⦄ where
  -- The two queues hold these clients, and none stands on both.
  pub record HasQueues (s : Connector B) (talking waiting : List ℕ) : Type 0 where
    pub com_queue : IsQueue s.com_queue s.links talking
    pub action_queue : IsQueue s.action_queue s.links waiting
    pub apart : Separate talking waiting

  -- The client moves from the com queue to the end of the action queue.
  pub record IsHandedOver (s t : Connector B) (xs : List ℕ) (a : ℕ) (ys zs seen : List ℕ)
      : Type 0 where
    pub com_queue : IsQueue t.com_queue t.links (xs ++ ys)
    pub action_queue : IsQueue t.action_queue t.links (zs ++ a ∷ [])
    pub pending : IsPending (t.client a) seen
    pub notified : t.notified ≡ s.notified + 1
    pub others : (b : ℕ) → b ≢ a → t.client b ≡ s.client b

  -- The client stays where it is, with more of its message.
  pub record GoesOn (s t : Connector B) (xs : List ℕ) (a : ℕ) (ys zs seen : List ℕ) : Type 0 where
    pub com_queue : IsQueue t.com_queue t.links (xs ++ a ∷ ys)
    pub action_queue : IsQueue t.action_queue t.links zs
    pub reader : IsReader (t.client a) seen
    pub others : (b : ℕ) → b ≢ a → t.client b ≡ s.client b

  -- receive_message leaves the phases and the I/O state.
  pub receive_message-keeps :
      (c : NetClient B) (r : RecvResult)
      → ((receive_message c r).0.current_phase ≡ c.current_phase)
        × ((receive_message c r).0.next_phase ≡ c.next_phase)
        × ((receive_message c r).0.io_state ≡ c.io_state)
  unfolding receive_message
  receive_message-keeps c recv_failed = (refl, refl, refl)
  receive_message-keeps c (received bytes) = ground arith

  pub serve_client-eq :
      (s : Connector B) (a : ℕ) (ready : Ready)
      → is_canceled (s.client a).current_phase ≡ false
      → serve_client s a ready ≡ serve_ready s a ready
  unfolding serve_client
  serve_client-eq s a ready e =
      ap (λ t. if t then close_connection s a else serve_ready s a ready) e

  module _ (s : Connector B) (xs : List ℕ) (a : ℕ) (ys zs : List ℕ)
      (queues : HasQueues s (xs ++ a ∷ ys) zs) where
    removed : IsQueue (remove s.com_queue s.links a).0 (remove s.com_queue s.links a).1 (xs ++ ys)
    removed = (remove_lem s.com_queue s.links xs a ys queues.com_queue).0

    spared : IsQueue s.action_queue (remove s.com_queue s.links a).1 zs
    spared =
        remove-frame s.com_queue s.links xs a ys s.action_queue zs queues.com_queue
          queues.action_queue queues.apart

    apart_from : Separate xs zs × Separate (a ∷ ys) zs
    apart_from = Separate-parts xs (a ∷ ys) zs queues.apart

    hand_over :
        (c : NetClient B) (seen : List ℕ)
        → c.next_phase ≡ Phase.pending
        → HasMessage c seen
        → suc (length zs) < 2 ^ 64
        → IsHandedOver s (after_receive s a (c, complete)) xs a ys zs seen
    unfolding after_receive input_done
    hand_over c seen next m room =
        let b = IsQueue-Between s.com_queue s.links xs a ys queues.com_queue in
        let others_apart = Separate-append xs ys zs apart_from.0 apart_from.1.1 in
        rw (next, after_receive)
          (record {
            com_queue =
                add_last-frame s.action_queue (remove s.com_queue s.links a).1 zs a
                  (remove s.com_queue s.links a).0 (xs ++ ys) spared removed
                  (Separate-sym (xs ++ ys) zs others_apart)
                  (Apart-append a xs ys b.apart_before b.apart_after);
            action_queue =
                add_last-append s.action_queue (remove s.com_queue s.links a).1 zs a spared
                  apart_from.1.0 room;
            pending = rw (==_refl a) (record {
              phase = refl;
              io = refl;
              message = record {
                capacity = m.capacity;
                so_far = m.so_far;
                have_header = m.have_header;
                header = m.header;
                in_buffer = m.in_buffer;
                whole = m.whole;
              };
            });
            notified = refl;
            others = λ b ne. ground arith;
          })

    stay :
        (c : NetClient B) (seen : List ℕ)
        → IsReader c seen
        → GoesOn s (after_receive s a (c, partial)) xs a ys zs seen
    unfolding after_receive
    stay c seen reader = record {
      com_queue = queues.com_queue;
      action_queue = queues.action_queue;
      reader = rw (==_refl a) reader;
      others = λ b ne. ground arith;
    }

    by_result :
        (r : NetClient B × IoResult) (seen : List ℕ)
        → Receives r seen
        → r.0.current_phase ≡ Phase.recv
        → r.0.next_phase ≡ Phase.pending
        → r.0.io_state ≡ IoOp.read
        → suc (length zs) < 2 ^ 64
        → IsHandedOver s (after_receive s a r) xs a ys zs seen
          ⊎ GoesOn s (after_receive s a r) xs a ys zs seen
    by_result (c, complete) seen m phase next io room = inl (hand_over c seen next m room)
    by_result (c, partial) seen m phase next io room =
        inr (stay c seen (record { phase = phase; next = next; io = io; receiving = m }))
    by_result (c, closed) seen m phase next io room = absurd m

    -- When select finds a reading client of the com queue readable, and recv returns some bytes
    -- and no more than it was asked for, the client either goes on reading, with those bytes
    -- behind the others, or it has the whole message: then it moves from the com queue to the end
    -- of the action queue, if that is not full, and a worker thread is notified. The other
    -- clients and the order of both queues stay.
    pub serve_client-receives :
        (seen : List ℕ) (byte : ℕ) (bytes : List ℕ)
        → IsReader (s.client a) seen
        → length (byte ∷ bytes) ≤ req_read_size (s.client a)
        → suc (length zs) < 2 ^ 64
        → IsHandedOver s
            (serve_client s a (readable (received (byte ∷ bytes))))
            xs
            a
            ys
            zs
            (seen ++ byte ∷ bytes)
          ⊎ GoesOn s
              (serve_client s a (readable (received (byte ∷ bytes))))
              xs
              a
              ys
              zs
              (seen ++ byte ∷ bytes)
    unfolding serve_ready
    serve_client-receives seen byte bytes reader few room =
        let keeps = receive_message-keeps (s.client a) (received (byte ∷ bytes)) in
        subst
          (λ t.
            IsHandedOver s t xs a ys zs (seen ++ byte ∷ bytes)
            ⊎ GoesOn s t xs a ys zs (seen ++ byte ∷ bytes))
          (sym (
            serve_client-eq s a (readable (received (byte ∷ bytes))) (ap is_canceled reader.phase)))
          (by_result (receive_message (s.client a) (received (byte ∷ bytes))) (seen ++ byte ∷ bytes)
            (receive_message_lem (s.client a) seen byte bytes reader.receiving few).0
            (keeps.0 ∙ reader.phase) (keeps.1 ∙ reader.next) (keeps.2 ∙ reader.io) room)
