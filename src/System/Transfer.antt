-- ===== src/System/Transfer.antt =====
-- ServerConnector.cpp, selector_loop: a client of the com queue and a call of recv or send that select
-- allows.
use universal_fencing_hub.Base.{
  ℕ, ◌≡◌, refl, sym, ap, ◌∙◌, List, [], ◌∷◌, ◌++◌, arith, if◌then◌else◌, ◌==◌, ==_refl, false, true,
  ◌⊎◌, inl, inr, length-replicate, Bool, fun_ext,
}
use universal_fencing_hub.NetClient.{
  NetClient, Phase, IoOp, closed, receive_message, send_message, clear_io_buffer, io_buffer_size,
  put_header, RecvResult, SendResult, received, recv_failed, sent, would_block, send_failed,
}
use universal_fencing_hub.NetClient.Receiving.{Receives, receive_message_lem}
use universal_fencing_hub.NetClient.Sending.{Sends, send_message_lem}
use universal_fencing_hub.Connector.{Connector, readable, writable, is_canceled, set_client}
use universal_fencing_hub.Connector.Serving.{IsReader}
use universal_fencing_hub.System.{Permitted}
use universal_fencing_hub.System.Sanity.{Talks, IsWriter}

module _ {B : Type 0} where
  -- The client that output_done leaves for its next request.
  abbrev pub rewound : NetClient B → NetClient B
  rewound c = record (clear_io_buffer c) { next_phase = Phase.pending; io_state = IoOp.read }

  pub rewound-IsReader : (c : NetClient B) → c.current_phase ≡ Phase.recv → IsReader (rewound c) []
  unfolding clear_io_buffer
  rewound-IsReader c phase = record {
    phase = phase;
    next = refl;
    io = refl;
    receiving = record {
      capacity = length-replicate {A = ℕ} io_buffer_size 0;
      so_far = refl;
      offset = inl (refl, omega arith);
    };
  }

  pub set_twice :
      (s : Connector B) (a : ℕ) (c : NetClient B) (g : NetClient B → NetClient B)
      → set_client (set_client s a c) a (g ((set_client s a c).client a)) ≡ set_client s a (g c)
  set_twice s a c g = rw (==_refl a) (
      ap (λ (f : ℕ → NetClient B). record s { client = f })
        (fun_ext (λ b. by_test (b == a) (g c) c (s.client b))))
    where
      by_test :
          (t : Bool) (x y z : NetClient B)
          → (if t then x else (if t then y else z)) ≡ (if t then x else z)
      by_test true x y z = refl
      by_test false x y z = refl

  -- send_message leaves the phases and the I/O state.
  put_header-keeps :
      (c : NetClient B)
      → ((put_header c).current_phase ≡ c.current_phase)
        × ((put_header c).next_phase ≡ c.next_phase)
        × ((put_header c).io_state ≡ c.io_state)
  unfolding put_header
  put_header-keeps c = ground arith

  pub send_message-keeps :
      (c : NetClient B) (r : SendResult)
      → ((send_message c r).0.current_phase ≡ c.current_phase)
        × ((send_message c r).0.next_phase ≡ c.next_phase)
        × ((send_message c r).0.io_state ≡ c.io_state)
  unfolding send_message
  send_message-keeps c send_failed = put_header-keeps c
  send_message-keeps c would_block = put_header-keeps c
  send_message-keeps c (sent n) = put_header-keeps c

  reads : (c : NetClient B) (r : RecvResult) → Permitted c (readable r) → c.io_state ≡ IoOp.read
  reads c recv_failed h = h
  reads c (received bytes) h = h.0

  writes : (c : NetClient B) (r : SendResult) → Permitted c (writable r) → c.io_state ≡ IoOp.write
  writes c send_failed h = h
  writes c would_block h = h
  writes c (sent n) h = h.0

  pub not_reader :
      (c : NetClient B) (seen : List ℕ) (r : SendResult)
      → IsReader c seen
      → Permitted c (writable r)
      → ⊥
  not_reader c seen r reader h = let same = sym reader.io ∙ writes c r h in absurd (cc)

  pub not_writer : (c : NetClient B) (r : RecvResult) → IsWriter c → Permitted c (readable r) → ⊥
  not_writer c r w h = let same = sym w.io ∙ reads c r h in absurd (cc)

  pub received_as :
      (c : NetClient B) (seen : List ℕ) (r : RecvResult)
      → IsReader c seen
      → Permitted c (readable r)
      → ((now : List ℕ) × Receives (receive_message c r) now) ⊎ ((receive_message c r).1 ≡ closed)
  unfolding receive_message
  received_as c seen recv_failed reader h = inr refl
  received_as c seen (received []) reader h = inr refl
  received_as c seen (received (byte ∷ bytes)) reader h =
      inl (seen ++ byte ∷ bytes, (receive_message_lem c seen byte bytes reader.receiving h.1).0)

  pub sent_as :
      (c : NetClient B) (r : SendResult)
      → IsWriter c
      → Permitted c (writable r)
      → ((gone message : List ℕ) × Sends (send_message c r) gone message)
        ⊎ ((send_message c r).1 ≡ closed)
  unfolding send_message
  sent_as c send_failed w h = inr refl
  sent_as c would_block w h =
      inl (w.gone, w.message, (send_message_lem c w.gone w.message 0 w.sending (omega arith)).1)
  sent_as c (sent n) w h =
      inl (_, w.message, (send_message_lem c w.gone w.message n w.sending h.1).0)

  pub not_canceled : (c : NetClient B) → Talks c → is_canceled c.current_phase ≡ false
  not_canceled c (inl (seen, reader)) = ap is_canceled reader.phase
  not_canceled c (inr w) = ap is_canceled w.phase
