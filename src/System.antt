-- ===== src/System.antt =====
-- ServerConnector.cpp: the server as a system of threads. The selector thread accepts connections and
-- works on the clients of the com queue; each worker thread takes a client off the action queue and
-- gives it back. A step is a stretch of code between two points where another thread can come in; the
-- queues, the links and the pool are shared.
pub mod Placement
pub mod Handing
pub mod Sanity
pub mod Selecting
pub mod Transfer
pub mod Serving
pub mod Polling
pub mod Entering
pub mod Working
pub mod Invariant
pub mod Safety
use universal_fencing_hub.Base.{ℕ, ◌≤◌, ◌≡◌, Bool, true, List, [], ◌∷◌, ◌++◌, Option, some, length}
use universal_fencing_hub.CharBuffer.{CharBuffer}
use universal_fencing_hub.Outcome.{Exception, ok, throw}
use universal_fencing_hub.GenAlloc.{get_free_count, make}
use universal_fencing_hub.NetClient.{
  NetClient, IoOp, Fd, io_buffer_size, received, recv_failed, sent, would_block, send_failed,
  req_read_size, req_write_size, put_header,
}
use universal_fencing_hub.Queue.{Queue, empty, remove_first}
use universal_fencing_hub.Queue.Node.{Links}
use universal_fencing_hub.Server.{FenceFunctions}
use universal_fencing_hub.Requests.{process_client_message}
use universal_fencing_hub.Connector.{
  Connector, Ready, readable, writable, idle, max_connections, set_client, accept_connection,
  serve_clients, finish_client,
}
use universal_fencing_hub.Connector.Worker.{executing}

-- `busy` are the clients that are in the hands of worker threads.
pub record System (B : Type 0) : Type 0 where
  pub connector : Connector B
  pub busy : List ℕ

-- What selector_loop can find of a client: select reports a descriptor only in a set that it was put
-- in, recv and send return no more than they were asked for.
abbrev pub Permitted : {B : Type 0} → NetClient B → Ready → Type 0
Permitted c (readable (received bytes)) =
    (c.io_state ≡ IoOp.read) × (length bytes ≤ req_read_size c)
Permitted c (readable recv_failed) = c.io_state ≡ IoOp.read
Permitted c (writable (sent n)) = (c.io_state ≡ IoOp.write) × (n ≤ req_write_size (put_header c))
Permitted c (writable would_block) = c.io_state ≡ IoOp.write
Permitted c (writable send_failed) = c.io_state ≡ IoOp.write
Permitted c idle = Unit {0}

-- As the constructor leaves it.
pub record IsStarted {B : Type 0} (s : System B) : Type 0 where
  pub com_queue : s.connector.com_queue ≡ empty
  pub action_queue : s.connector.action_queue ≡ empty
  pub client_pool : s.connector.client_pool ≡ make max_connections
  pub busy : s.busy ≡ []

module _ {B : Type 0} ⦃cb : CharBuffer B⦄ where
  pub data Step (plugin : FenceFunctions) (s u : System B) : Type 0 where
    -- selector_loop: the listening socket is in the set only while a client is free.
    accepting :
        (fd : Fd)
        → 1 ≤ get_free_count s.connector.client_pool
        → u ≡ record s { connector = accept_connection s.connector fd }
        → Step plugin s u
    -- selector_loop: the loop over the clients, under the com_queue_lock.
    polling :
        (rounds : ℕ) (ready : ℕ → Ready)
        → s.connector.client_pool.pool_size ≤ rounds
        → ((a : ℕ) → Permitted (s.connector.client a) (ready a))
        → u ≡ record s {
          connector = serve_clients rounds ready s.connector s.connector.com_queue.head_node;
        }
        → Step plugin s u
    -- process_action_queue: under the action_queue_lock, and the phase.
    taking :
        (a : ℕ) (queue : Queue) (links : Links)
        → remove_first s.connector.action_queue s.connector.links ≡ some (some a, queue, links)
        → u ≡ record {
          connector =
              set_client
                (record s.connector { action_queue = queue; links = links })
                a
                (executing (s.connector.client a));
          busy = a ∷ s.busy;
        }
        → Step plugin s u
    -- process_action_queue: the message is processed, and the client is given back or closed.
    finishing :
        (rounds : ℕ) (pre : List ℕ) (a : ℕ) (post : List ℕ) (c : NetClient B)
        → s.busy ≡ pre ++ a ∷ post
        → io_buffer_size ≤ rounds
        → process_client_message rounds plugin (s.connector.client a) ≡ some (ok c tt)
        → u
          ≡ record { connector = finish_client (set_client s.connector a c) a; busy = pre ++ post }
        → Step plugin s u
    -- process_action_queue: an exception ends the worker's loop.
    failing :
        (rounds : ℕ) (pre : List ℕ) (a : ℕ) (post : List ℕ) (c : NetClient B) (e : Exception)
        → s.busy ≡ pre ++ a ∷ post
        → process_client_message rounds plugin (s.connector.client a) ≡ some (throw c e)
        → u ≡ record { connector = set_client s.connector a c; busy = pre ++ post }
        → Step plugin s u
    -- The stop signal.
    signaling :
        u ≡ record s { connector = record s.connector { signaled = true } } → Step plugin s u

  pub data Reach (plugin : FenceFunctions) (s : System B) : System B → Type 0 where
    here : Reach plugin s s
    later : {t u : System B} → Reach plugin s t → Step plugin t u → Reach plugin s u
