-- ===== src/Connector.antt =====
-- ServerConnector.h and ServerConnector.cpp: the connections of the server, the two queues they stand
-- in, and the two sides that work on them: the selector loop, and the worker threads. A client is
-- named by its index in the client pool. Each function is a stretch of code that runs under one lock.
pub mod Closing
pub mod Shutdown
pub mod Accepting
pub mod Serving
pub mod Worker
pub mod Starting
use universal_fencing_hub.Base.{
  ℕ, zero, suc, ◌+◌, Bool, true, false, List, [], ◌∷◌, Option, none, some, if◌then◌else◌, ltb, ◌==◌,
}
use universal_fencing_hub.CharBuffer.{CharBuffer}
use universal_fencing_hub.GenAlloc.{GenAlloc, allocate, deallocate}
use universal_fencing_hub.NetClient.{
  NetClient, Fd, IoOp, Phase, Domain, RecvResult, SendResult, IoResult, complete, partial, closed,
  clear, clear_io_buffer, receive_message, send_message,
}
use universal_fencing_hub.Queue.{Queue, add_last, remove, remove_first}
use universal_fencing_hub.Queue.Node.{Links, Ptr}

abbrev pub max_connections : ℕ
max_connections = 24

-- `closed_fds` records what sys::close_fd closed, the latest first, and `wakeups` counts the bytes that
-- were written to the selector's pipe.
pub record Connector (B : Type 0) : Type 0 where
  pub client : ℕ → NetClient B
  pub links : Links
  pub com_queue : Queue
  pub action_queue : Queue
  pub client_pool : GenAlloc
  pub socket_domain : Domain
  pub socket_fd : Fd
  pub trigger_read : Fd
  pub trigger_write : Fd
  pub signaled : Bool
  pub closed_fds : List ℕ
  pub wakeups : ℕ
  pub notified : ℕ

-- sys::close_fd on a descriptor: what it closes is added to those closed, and the variable is FD_NONE.
abbrev pub close_fd : Fd → List ℕ → List ℕ
close_fd none fds = fds
close_fd (some fd) fds = fd ∷ fds

module _ {B : Type 0} where
  abbrev pub set_client : Connector B → ℕ → NetClient B → Connector B
  set_client s a c = record s { client = λ b. if b == a then c else s.client b }

module _ {B : Type 0} ⦃cb : CharBuffer B⦄ where
  unfoldable pub close_connection : Connector B → ℕ → Connector B
  close_connection s a =
      let (com_queue, links) = remove s.com_queue s.links a in
      record (set_client s a (clear (s.client a))) {
        closed_fds = close_fd (s.client a).socket_fd s.closed_fds;
        com_queue = com_queue;
        links = links;
        client_pool = deallocate s.client_pool a;
      }

  -- The client that accept_connection puts on the queue: `fd` is what accept returned.
  unfoldable pub accepted : Connector B → ℕ → Fd → NetClient B
  accepted s a fd = record (clear (s.client a)) {
    socket_fd = fd;
    socket_domain = s.socket_domain;
    io_state = IoOp.read;
    current_phase = Phase.recv;
    next_phase = Phase.pending;
  }

  -- The bad_alloc of an empty pool is caught, and only logged.
  unfoldable pub accept_connection : Connector B → Fd → Connector B
  unfolding accepted
  accept_connection s fd = elim (allocate s.client_pool) [
    | none ↦ s
    | some (a, client_pool) ↦
        let (com_queue, links) = add_last s.com_queue s.links a in
        record (set_client s a (accepted s a fd)) {
          client_pool = client_pool;
          com_queue = com_queue;
          links = links;
        }
  ]

  -- What the selector does with a client once its input is done. The worker threads are notified.
  unfoldable pub input_done : Connector B → ℕ → Phase → Connector B
  unfolding close_connection
  input_done s a Phase.canceled = close_connection s a
  input_done s a Phase.pending =
      let (com_queue, links) = remove s.com_queue s.links a in
      let (action_queue, links') = add_last s.action_queue links a in
      record (set_client s a (record (s.client a) { io_state = IoOp.noop })) {
        com_queue = com_queue;
        action_queue = action_queue;
        links = links';
        notified = s.notified + 1;
      }
  input_done s a Phase.recv = s
  input_done s a Phase.send = s
  input_done s a Phase.executing = s

  -- And once its output is done.
  unfoldable pub output_done : Connector B → ℕ → Phase → Connector B
  unfolding close_connection
  output_done s a Phase.canceled = close_connection s a
  output_done s a Phase.recv =
      set_client s a
        (record (clear_io_buffer (s.client a)) { next_phase = Phase.pending; io_state = IoOp.read })
  output_done s a Phase.send = s
  output_done s a Phase.pending = s
  output_done s a Phase.executing = s

  -- The end of a receive_message or send_message: the phase moves on when it is complete.
  abbrev pub next_phase_of : NetClient B → NetClient B
  next_phase_of c = record c { current_phase = c.next_phase }

  unfoldable pub after_receive : Connector B → ℕ → NetClient B × IoResult → Connector B
  unfolding input_done
  after_receive s a (c, complete) = input_done (set_client s a (next_phase_of c)) a c.next_phase
  after_receive s a (c, partial) = set_client s a c
  after_receive s a (c, closed) = close_connection (set_client s a c) a

  unfoldable pub after_send : Connector B → ℕ → NetClient B × IoResult → Connector B
  unfolding output_done
  after_send s a (c, complete) = output_done (set_client s a (next_phase_of c)) a c.next_phase
  after_send s a (c, partial) = set_client s a c
  after_send s a (c, closed) = close_connection (set_client s a c) a

-- What select says of a client's descriptor, with what the call of recv or send then returns.
pub data Ready : Type 0 where
  readable : RecvResult → Ready
  writable : SendResult → Ready
  idle : Ready

abbrev pub is_canceled : Phase → Bool
is_canceled Phase.canceled = true
is_canceled Phase.recv = false
is_canceled Phase.send = false
is_canceled Phase.pending = false
is_canceled Phase.executing = false

module _ {B : Type 0} ⦃cb : CharBuffer B⦄ where
  unfoldable pub serve_ready : Connector B → ℕ → Ready → Connector B
  unfolding after_receive after_send
  serve_ready s a (readable r) = after_receive s a (receive_message (s.client a) r)
  serve_ready s a (writable r) = after_send s a (send_message (s.client a) r)
  serve_ready s a idle = s

  -- The body of the loop over the clients in selector_loop.
  unfoldable pub serve_client : Connector B → ℕ → Ready → Connector B
  unfolding serve_ready
  serve_client s a ready =
      if is_canceled (s.client a).current_phase then close_connection s a else serve_ready s a ready

  -- The loop over the clients: the next one is read before a client is served.
  unfoldable pub serve_clients : ℕ → (ℕ → Ready) → Connector B → Ptr → Connector B
  unfolding serve_client
  serve_clients zero ready s client = s
  serve_clients (suc rounds) ready s none = s
  serve_clients (suc rounds) ready s (some a) =
      serve_clients rounds ready (serve_client s a (ready a)) (s.links.next_node a)

  -- What a worker thread does with a client whose message it has processed, under the com_queue_lock
  -- where it stays connected.
  unfoldable pub finish_client : Connector B → ℕ → Connector B
  unfolding close_connection
  finish_client s a =
      let (com_queue, links) = add_last s.com_queue s.links a in
      let continued = record s {
        com_queue = com_queue;
        links = links;
        wakeups = elim s.trigger_write [ none ↦ s.wakeups | some fd ↦ s.wakeups + 1 ];
      } in
      elim (s.client a).current_phase [
        | Phase.recv ↦ if s.signaled then close_connection s a else continued
        | Phase.send ↦ if s.signaled then close_connection s a else continued
        | Phase.pending ↦ close_connection s a
        | Phase.executing ↦ close_connection s a
        | Phase.canceled ↦ close_connection s a
      ]

  -- The two loops of cleanup that close what stands on a queue. `none` is a write through a null
  -- pointer, or rounds that ran out.
  unfoldable pub close_action_queue : ℕ → Connector B → Option (Connector B)
  close_action_queue zero s = none
  close_action_queue (suc rounds) s = elim (remove_first s.action_queue s.links) [
    | none ↦ none
    | some (none, queue, links) ↦ some (record s { action_queue = queue; links = links })
    | some (some a, queue, links) ↦
        close_action_queue rounds
          (close_connection (record s { action_queue = queue; links = links }) a)
  ]

  unfoldable pub close_com_queue : ℕ → Connector B → Option (Connector B)
  close_com_queue zero s = none
  close_com_queue (suc rounds) s = elim (remove_first s.com_queue s.links) [
    | none ↦ none
    | some (none, queue, links) ↦ some (record s { com_queue = queue; links = links })
    | some (some a, queue, links) ↦
        close_com_queue rounds (close_connection (record s { com_queue = queue; links = links }) a)
  ]

  -- cleanup: the server socket, the action queue, the stop signal, the com queue, the pipe.
  unfoldable pub cleanup : ℕ → Connector B → Option (Connector B)
  unfolding close_action_queue close_com_queue
  cleanup rounds s =
      let listening_closed = record s {
        closed_fds = close_fd s.socket_fd s.closed_fds;
        socket_fd = none;
      } in
      elim (close_action_queue rounds listening_closed) [
        | none ↦ none
        | some s1 ↦ elim (close_com_queue rounds (record s1 { signaled = true })) [
          | none ↦ none
          | some s2 ↦ some (record s2 {
            closed_fds = close_fd s2.trigger_write (close_fd s2.trigger_read s2.closed_fds);
            trigger_read = none;
            trigger_write = none;
          })
        ]
      ]
