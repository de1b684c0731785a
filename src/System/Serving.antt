-- ===== src/System/Serving.antt =====
-- ServerConnector.cpp, selector_loop: one client of the com queue, from what select says of it to what
-- is left of it there.
use universal_fencing_hub.Base.{
  ℕ, ◌≡◌, ◌≢◌, refl, sym, ◌∙◌, subst, List, [], ◌∷◌, ◌++◌, arith, ◌⊎◌, inl, inr, one_self,
  count-take_out,
}
use universal_fencing_hub.CharBuffer.{CharBuffer}
use universal_fencing_hub.NetClient.{
  NetClient, Phase, IoOp, IoResult, complete, partial, closed, receive_message, send_message,
}
use universal_fencing_hub.NetClient.Receiving.{Receives}
use universal_fencing_hub.NetClient.Sending.{IsSending, Sends, put_header-same}
use universal_fencing_hub.Connector.{
  Connector, Ready, readable, writable, idle, set_client, close_connection, input_done,
  serve_client, serve_ready, after_receive, after_send, output_done, next_phase_of,
}
use universal_fencing_hub.Connector.Serving.{receive_message-keeps, serve_client-eq}
use universal_fencing_hub.System.{Permitted}
use universal_fencing_hub.System.Sanity.{IsSane, Talks, Waits}
use universal_fencing_hub.System.Transfer.{
  rewound, rewound-IsReader, set_twice, send_message-keeps, not_reader, not_writer, received_as,
  sent_as, not_canceled,
}
use universal_fencing_hub.System.Selecting.{stay-IsSane, close-IsSane, hand_over-IsSane}

module _ {B : Type 0} ⦃cb : CharBuffer B⦄ where
  -- The client still stands between `xs` and `ys` on the com queue, or it left; the others are as they
  -- were.
  pub record IsServed (s u : Connector B) (busy xs : List ℕ) (a : ℕ) (ys lost : List ℕ)
      : Type 0 where
    pub used : List ℕ
    pub waiting : List ℕ
    pub sane :
        IsSane u busy used (xs ++ a ∷ ys) waiting lost ⊎ IsSane u busy used (xs ++ ys) waiting lost
    pub others : (b : ℕ) → b ≢ a → u.client b ≡ s.client b

  set_client-others :
      (s : Connector B) (a : ℕ) (c : NetClient B) (b : ℕ)
      → b ≢ a
      → (set_client s a c).client b ≡ s.client b
  set_client-others s a c b ne = ground arith

  close_connection-others :
      (s : Connector B) (a : ℕ) (c : NetClient B) (b : ℕ)
      → b ≢ a
      → (close_connection (set_client s a c) a).client b ≡ s.client b
  unfolding close_connection
  close_connection-others s a c b ne = ground arith

  hand_over-others :
      (s : Connector B) (a : ℕ) (c : NetClient B) (b : ℕ)
      → b ≢ a
      → (input_done (set_client s a c) a Phase.pending).client b ≡ s.client b
  unfolding input_done
  hand_over-others s a c b ne = ground arith

  module _ {busy used waiting lost : List ℕ} (s : Connector B) (xs : List ℕ) (a : ℕ) (ys : List ℕ)
      (sane : IsSane s busy used (xs ++ a ∷ ys) waiting lost) where
    stay : (c : NetClient B) → Talks c → IsServed s (set_client s a c) busy xs a ys lost
    stay c t = record {
      used = used;
      waiting = waiting;
      sane = inl (stay-IsSane s xs a ys c sane t);
      others = set_client-others s a c;
    }

    close : (c : NetClient B) → IsServed s (close_connection (set_client s a c) a) busy xs a ys lost
    close c =
        let (used', left) = close-IsSane s xs a ys c sane in
        record {
          used = used';
          waiting = waiting;
          sane = inr left;
          others = close_connection-others s a c;
        }

    hand_over :
        (c : NetClient B)
        → Waits (record c { io_state = IoOp.noop })
        → IsServed s (input_done (set_client s a c) a Phase.pending) busy xs a ys lost
    hand_over c w = record {
      used = used;
      waiting = waiting ++ a ∷ [];
      sane = inr (hand_over-IsSane s xs a ys c sane w);
      others = hand_over-others s a c;
    }

    received_by :
        (r : NetClient B × IoResult)
        → ((seen : List ℕ) × Receives r seen) ⊎ (r.1 ≡ closed)
        → r.0.current_phase ≡ Phase.recv
        → r.0.next_phase ≡ Phase.pending
        → r.0.io_state ≡ IoOp.read
        → IsServed s (after_receive s a r) busy xs a ys lost
    unfolding after_receive
    received_by (c, complete) (inl (seen, m)) phase next io =
        subst
          (λ p. IsServed s (input_done (set_client s a (next_phase_of c)) a p) busy xs a ys lost)
          (sym next)
          (hand_over (next_phase_of c) (
            seen,
            record {
              phase = next;
              io = refl;
              message = record {
                capacity = m.capacity;
                so_far = m.so_far;
                have_header = m.have_header;
                header = m.header;
                in_buffer = m.in_buffer;
                whole = m.whole;
              };
            },
          ))
    received_by (c, complete) (inr e) phase next io = absurd (cc)
    received_by (c, partial) (inl (seen, m)) phase next io =
        stay c (inl (seen, record { phase = phase; next = next; io = io; receiving = m }))
    received_by (c, partial) (inr e) phase next io = absurd (cc)
    received_by (c, closed) m phase next io = close c

    sent_by :
        (r : NetClient B × IoResult)
        → ((gone message : List ℕ) × Sends r gone message) ⊎ (r.1 ≡ closed)
        → r.0.current_phase ≡ Phase.send
        → ((r.0.next_phase ≡ Phase.recv) ⊎ (r.0.next_phase ≡ Phase.canceled))
        → r.0.io_state ≡ IoOp.write
        → IsServed s (after_send s a r) busy xs a ys lost
    unfolding after_send output_done
    sent_by (c, complete) m phase (inl next) io =
        subst
          (λ p. IsServed s (output_done (set_client s a (next_phase_of c)) a p) busy xs a ys lost)
          (sym next)
          (subst (λ u. IsServed s u busy xs a ys lost)
            (sym (set_twice s a (next_phase_of c) rewound))
            (stay (rewound (next_phase_of c)) (inl ([], rewound-IsReader (next_phase_of c) next))))
    sent_by (c, complete) m phase (inr next) io =
        subst
          (λ p. IsServed s (output_done (set_client s a (next_phase_of c)) a p) busy xs a ys lost)
          (sym next) (close (next_phase_of c))
    sent_by (c, partial) (inl (gone, message, m)) phase next io = stay c (
        inr (record {
          phase = phase;
          next = next;
          io = io;
          gone = gone;
          message = message;
          sending =
              subst (λ d. IsSending d gone message) (sym (put_header-same c gone message m)) m;
        }))
    sent_by (c, partial) (inr e) phase next io = absurd (cc)
    sent_by (c, closed) m phase next io = close c

    by_ready :
        (ready : Ready)
        → Permitted (s.client a) ready
        → Talks (s.client a)
        → IsServed s (serve_ready s a ready) busy xs a ys lost
    unfolding serve_ready
    by_ready idle allowed t = record {
      used = used;
      waiting = waiting;
      sane = inl sane;
      others = λ b ne. refl;
    }
    by_ready (readable r) allowed (inr w) = absurd (not_writer (s.client a) r w allowed)
    by_ready (readable r) allowed (inl (seen, reader)) =
        let keeps = receive_message-keeps (s.client a) r in
        received_by (receive_message (s.client a) r)
          (received_as (s.client a) seen r reader allowed) (keeps.0 ∙ reader.phase)
          (keeps.1 ∙ reader.next) (keeps.2 ∙ reader.io)
    by_ready (writable r) allowed (inl (seen, reader)) =
        absurd (not_reader (s.client a) seen r reader allowed)
    by_ready (writable r) allowed (inr w) =
        let keeps = send_message-keeps (s.client a) r in
        sent_by (send_message (s.client a) r) (sent_as (s.client a) r w allowed) (keeps.0 ∙ w.phase)
          (elim w.next [ inl e ↦ inl (keeps.1 ∙ e) | inr e ↦ inr (keeps.1 ∙ e) ]) (keeps.2 ∙ w.io)

    pub serve_client-IsServed :
        (ready : Ready)
        → Permitted (s.client a) ready
        → IsServed s (serve_client s a ready) busy xs a ys lost
    serve_client-IsServed ready allowed =
        let t = sane.talks a (omega (arith, count-take_out a xs a ys, one_self a)) in
        subst (λ u. IsServed s u busy xs a ys lost)
          (sym (serve_client-eq s a ready (not_canceled (s.client a) t))) (by_ready ready allowed t)
