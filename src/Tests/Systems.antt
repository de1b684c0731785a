-- ===== src/Tests/Systems.antt =====
-- Examples for the threads of ServerConnector.cpp.
use universal_fencing_hub.Base.{
  ℕ, ◌≡◌, ◌≤◌, ◌<◌, ◌≢◌, ap, one_self, ◌==◌, sym, subst, if◌then◌else◌, Bool, true, refl, false,
  List, [], ◌∷◌, none, some, arith, count,
}
use universal_fencing_hub.CharBuffer.Plain.{Plain, plain_buffer}
use universal_fencing_hub.GenAlloc.{GenAlloc, make, allocate, get_free_count}
use universal_fencing_hub.MsgHeader.{deserialize}
use universal_fencing_hub.NetClient.{
  NetClient, Domain, IoOp, received, receive_message, receive_bytes, take_header, clear,
  clear_io_buffer, req_read_size,
}
use universal_fencing_hub.Queue.{Queue, empty, add_last, remove, remove_first}
use universal_fencing_hub.Queue.Node.{Links, set_next, unlinked}
use universal_fencing_hub.Queue.Chain.{IsChain}
use universal_fencing_hub.Queue.Places.{walk}
use universal_fencing_hub.Requests.{process_client_message}
use universal_fencing_hub.Requests.Phases.{Handles}
use universal_fencing_hub.Connector.{
  Ready, readable, max_connections, set_client, accept_connection, accepted, serve_clients,
  serve_client, serve_ready, after_receive, input_done,
}
use universal_fencing_hub.Connector.Worker.{executing}
use universal_fencing_hub.System.{
  System, Permitted, Step, accepting, polling, taking, IsStarted, Reach, here, later,
}
use universal_fencing_hub.System.Invariant.{IsSound, LostIn, Reach-IsSound}
use universal_fencing_hub.System.Polling.{serve_each}
use universal_fencing_hub.System.Safety.{
  InBuffer, Reach-exclusive, Reach-InBuffer, Reach-Handles, Reach-allocate, Reach-serve_clients,
}
use universal_fencing_hub.Tests.Clients.{fresh, plugin}

-- A server that has just been set up.
abbrev start : System Plain
start = record {
  connector = record {
    client = λ a. fresh;
    links = unlinked;
    com_queue = empty;
    action_queue = empty;
    client_pool = make max_connections;
    socket_domain = Domain.inet4;
    socket_fd = some 3;
    trigger_read = some 6;
    trigger_write = some 8;
    signaled = false;
    closed_fds = [];
    wakeups = 0;
    notified = 0;
  };
  busy = [];
}

start-IsStarted : IsStarted start
start-IsStarted = record { com_queue = refl; action_queue = refl; client_pool = refl; busy = refl }

-- A client connects,
abbrev joined : System Plain
joined = record start { connector = accept_connection (start.connector) (some 5) }

start_free : 1 ≤ get_free_count (start.connector).client_pool
unfolding get_free_count make
start_free = omega arith

start-joined : Reach plugin start joined
start-joined = later here (accepting (some 5) start_free refl)

-- and sends the header of an echo request, which is the whole message.
abbrev echo : Ready
echo = readable (received (0 ∷ 0 ∷ 0 ∷ 4 ∷ []))

abbrev connected_client : NetClient Plain
connected_client = accepted (start.connector) 23 (some 5)

connected_clients :
    (a : ℕ) → (joined.connector).client a ≡ (if a == 23 then connected_client else fresh)
unfolding accept_connection allocate make
connected_clients a = refl

connected_room : 4 ≤ req_read_size connected_client
unfolding accepted clear clear_io_buffer req_read_size
connected_room = omega arith

fresh_room : 4 ≤ req_read_size fresh
unfolding req_read_size
fresh_room = omega arith

reading : (connected_client).io_state ≡ IoOp.read
unfolding accepted clear clear_io_buffer
reading = refl

allowed : (a : ℕ) → Permitted ((joined.connector).client a) echo
allowed a = subst (λ c. Permitted c echo) (sym (connected_clients a)) (by_test (a == 23))
  where
    by_test : (t : Bool) → Permitted (if t then connected_client else fresh) echo
    by_test true = (reading, connected_room)
    by_test false = (refl, fresh_room)

abbrev asked : System Plain
asked = record joined {
  connector =
      serve_clients 24 (λ a. echo) (joined.connector) (joined.connector).com_queue.head_node;
}

connected_pool : (joined.connector).client_pool.pool_size ≡ 24
unfolding accept_connection allocate make
connected_pool = refl

joined-asked : Step plugin joined asked
joined-asked = polling 24 (λ a. echo) (omega (arith, connected_pool)) allowed refl

asked_queue :
    (asked.connector).action_queue ≡ record { size = 1; head_node = some 23; tail_node = some 23 }
unfolding accept_connection allocate make add_last empty serve_clients serve_client serve_ready
    receive_message receive_bytes take_header deserialize after_receive input_done remove accepted
    clear clear_io_buffer
asked_queue = refl

-- A worker thread takes it.
abbrev no_clients : Queue
no_clients = record { size = 0; head_node = none; tail_node = none }

abbrev left_links : Links
left_links = set_next (asked.connector).links 23 none

taken :
    remove_first (asked.connector).action_queue (asked.connector).links
    ≡ some (some 23, no_clients, left_links)
unfolding remove_first
taken = ap (λ q. remove_first q (asked.connector).links) asked_queue

abbrev working : System Plain
working = record {
  connector =
      set_client (record (asked.connector) { action_queue = no_clients; links = left_links }) 23
        (executing ((asked.connector).client 23));
  busy = 23 ∷ [];
}

start-working : Reach plugin start working
start-working = later (later start-joined joined-asked) (taking 23 no_clients left_links taken refl)

has_client : 0 < count 23 (working.busy)
has_client = omega (arith, one_self 23)

Reach-IsSound_example : IsSound working (LostIn plugin start working start-working)
Reach-IsSound_example = Reach-IsSound plugin start working start-IsStarted start-working

Reach-exclusive_example :
    (count 23 (working.busy) ≡ 1)
    × (walk (working.connector).links (working.connector).com_queue.head_node 0 ≢ some 23)
    × (walk (working.connector).links (working.connector).action_queue.head_node 0 ≢ some 23)
Reach-exclusive_example =
    Reach-exclusive plugin start working 23 0 start-IsStarted start-working has_client

connected_head : walk (joined.connector).links (joined.connector).com_queue.head_node 0 ≡ some 23
unfolding accept_connection allocate make add_last empty
connected_head = refl

Reach-InBuffer_example : InBuffer ((joined.connector).client 23)
Reach-InBuffer_example =
    Reach-InBuffer plugin start joined 23 0 start-IsStarted start-joined connected_head

Reach-Handles_example :
    Handles
      ((working.connector).client 23)
      (process_client_message 1024 plugin ((working.connector).client 23))
Reach-Handles_example =
    Reach-Handles plugin start working 23 1024 start-IsStarted start-working has_client
      (omega arith)

Reach-allocate_example :
    (a : ℕ) × (pool : GenAlloc) × (allocate (start.connector).client_pool ≡ some (a, pool))
    × (count a (start.busy) ≡ 0)
    × (walk (start.connector).links (start.connector).com_queue.head_node 0 ≢ some a)
    × (walk (start.connector).links (start.connector).action_queue.head_node 0 ≢ some a)
Reach-allocate_example = Reach-allocate plugin start start 0 start-IsStarted here start_free

Reach-serve_clients_example :
    (talking : List ℕ) × IsChain (joined.connector).com_queue (joined.connector).links talking
    × (serve_clients 24 (λ a. echo) (joined.connector) (joined.connector).com_queue.head_node
        ≡ serve_each (λ a. echo) (joined.connector) talking)
Reach-serve_clients_example =
    Reach-serve_clients plugin start joined 24 (λ a. echo) start-IsStarted start-joined
      (omega (arith, connected_pool)) allowed
