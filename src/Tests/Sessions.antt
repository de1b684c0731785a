-- ===== src/Tests/Sessions.antt =====
-- Examples for the connections of ServerConnector.cpp.
use universal_fencing_hub.Base.{
  ℕ, ◌≡◌, ◌≢◌, refl, ◌⊎◌, inl, true, false, [], ◌∷◌, none, some, arith, length,
}
use universal_fencing_hub.CharBuffer.Plain.{Plain, plain_buffer}
use universal_fencing_hub.Outcome.{ok, state_of}
use universal_fencing_hub.NetClient.{NetClient, Phase, Domain, received}
use mathlib.Core.List.{mem-cons_self}
use universal_fencing_hub.Queue.{dec}
use universal_fencing_hub.Queue.Refinement.{IsQueue}
use universal_fencing_hub.Connector.{
  Connector, readable, accept_connection, close_connection, finish_client, close_com_queue,
  serve_client, close_fd,
}
use universal_fencing_hub.Connector.Accepting.{IsAccepted, accept_connection-IsAccepted}
use universal_fencing_hub.Connector.Closing.{
  IsClosed, close_connection-IsClosed, finish_client-detached,
}
use universal_fencing_hub.Connector.Shutdown.{close_com_queue-first_only}
use universal_fencing_hub.Connector.Starting.{InitCalls, init, new_connector, Closes, init-Closes}
use universal_fencing_hub.Connector.Serving.{
  IsReader, HasQueues, IsHandedOver, GoesOn, serve_client-receives,
}
use universal_fencing_hub.Requests.{process_client_message, dispatch, msg_type_of, echo_reply}
use universal_fencing_hub.Connector.Worker.{executing, process_action_queue}
use universal_fencing_hub.Connector.Worker.Answering.{process_action_queue-answered}
use universal_fencing_hub.Tests.Queues.{
  three, three_links, three-IsQueue, single, single-IsQueue, pool, pool-Owns,
}
use universal_fencing_hub.Tests.Clients.{fresh, fresh-IsReceiving, fresh_size, asking, plugin}

-- The clients 4, 7 and 9 wait for input, the client 1 for a worker thread.
abbrev server : Connector Plain
server = record {
  client = λ a. fresh;
  links = three_links;
  com_queue = three;
  action_queue = single;
  client_pool = record { pool_size = 3; free_list = 0 ∷ 1 ∷ 2 ∷ []; alloc_index = 2 };
  socket_domain = Domain.inet4;
  socket_fd = some 3;
  trigger_read = some 6;
  trigger_write = some 8;
  signaled = false;
  closed_fds = [];
  wakeups = 0;
  notified = 0;
}

server-HasQueues : HasQueues server (4 ∷ 7 ∷ 9 ∷ []) (1 ∷ [])
server-HasQueues = record {
  com_queue = three-IsQueue;
  action_queue = single-IsQueue;
  apart = omega arith;
}

fresh-IsReader : IsReader fresh []
fresh-IsReader = record { phase = refl; next = refl; io = refl; receiving = fresh-IsReceiving }

serve_client-receives_example :
    IsHandedOver server
      (serve_client server 7 (readable (received (0 ∷ 129 ∷ []))))
      (4 ∷ [])
      7
      (9 ∷ [])
      (1 ∷ [])
      (0 ∷ 129 ∷ [])
    ⊎ GoesOn server
        (serve_client server 7 (readable (received (0 ∷ 129 ∷ []))))
        (4 ∷ [])
        7
        (9 ∷ [])
        (1 ∷ [])
        (0 ∷ 129 ∷ [])
serve_client-receives_example =
    serve_client-receives server (4 ∷ []) 7 (9 ∷ []) (1 ∷ []) server-HasQueues [] 0 (129 ∷ [])
      fresh-IsReader fresh_size (omega arith)

-- A server with one connection, that of the client 2.
abbrev hub : Connector Plain
hub = record server {
  com_queue = record { head_node = some 2; tail_node = some 2; size = 1 };
  client_pool = pool;
}

two-IsQueue : IsQueue hub.com_queue three_links (2 ∷ [])
two-IsQueue = record {
  head = refl;
  tail = refl;
  size = refl;
  small = omega arith;
  linked = (refl, refl, tt);
  distinct = (tt, tt);
}

accept_connection-IsAccepted_example :
    ((length {A = ℕ} (2 ∷ []) ≡ hub.client_pool.pool_size) × (accept_connection hub (some 9) ≡ hub))
    ⊎ ((a : ℕ) × IsAccepted hub (accept_connection hub (some 9)) (2 ∷ []) (2 ∷ []) (some 9) a)
accept_connection-IsAccepted_example =
    accept_connection-IsAccepted hub (2 ∷ []) (2 ∷ []) (some 9) pool-Owns two-IsQueue
      (mem-cons_self, tt) (omega arith)

close_connection-IsClosed_example : IsClosed hub (close_connection hub 2) [] 2 [] [] []
close_connection-IsClosed_example =
    close_connection-IsClosed hub [] 2 [] [] [] two-IsQueue pool-Owns

-- A worker thread has the client 5, and has not answered it.
abbrev working : Connector Plain
working = record server { client = λ a. asking }

finish_client-detached_example :
    (finish_client working 5).com_queue
    ≡ record { head_node = none; tail_node = none; size = dec 3 }
finish_client-detached_example = finish_client-detached working 5 refl refl (inl refl)

close_com_queue-first_only_example :
    (t : Connector Plain) × (close_com_queue 2 server ≡ some t)
    × (t.closed_fds ≡ close_fd (some 5) [])
    × ((b : ℕ) → b ≢ 4 → t.client b ≡ fresh)
close_com_queue-first_only_example =
    close_com_queue-first_only 0 server 4 (7 ∷ 9 ∷ []) three-IsQueue

-- A server whose client 1 has sent an echo request.
abbrev echoed : NetClient Plain
echoed = record fresh {
  current_phase = Phase.pending;
  header = record { msg_type = 0; data_length = 4 };
}

abbrev echo_server : Connector Plain
echo_server = record server { client = λ a. echoed }

echo_answered :
    process_client_message 1 plugin (executing echoed)
    ≡ some (ok (echo_reply (executing echoed)) tt)
unfolding process_client_message dispatch msg_type_of
echo_answered = refl

echo_phase : (echo_reply (executing echoed)).current_phase ≡ Phase.send
unfolding echo_reply
echo_phase = refl

process_action_queue-answered_example :
    (t : Connector Plain) × (process_action_queue 2 1 plugin echo_server
      ≡ process_action_queue 1 1 plugin t)
    × IsQueue t.action_queue t.links []
    × IsQueue t.com_queue t.links (4 ∷ 7 ∷ 9 ∷ 1 ∷ [])
    × (t.client 1 ≡ echo_reply (executing echoed))
    × ((b : ℕ) → b ≢ 1 → t.client b ≡ echoed)
process_action_queue-answered_example =
    process_action_queue-answered 1 1 plugin echo_server 1 [] (4 ∷ 7 ∷ 9 ∷ [])
      (echo_reply (executing echoed)) single-IsQueue three-IsQueue (omega arith) (omega arith)
      echo_answered echo_phase refl

-- The second end of the pipe cannot be set.
abbrev half_opened : InitCalls
half_opened = record {
  socket = some 3;
  bound = true;
  non_blocking = true;
  listening = true;
  pipe = some (6, 8);
  pipe_non_blocking = false;
}

init-Closes_example :
    Closes half_opened
      (state_of (init half_opened (new_connector (λ a. fresh) three_links pool Domain.inet4)))
init-Closes_example = init-Closes half_opened (λ a. fresh) three_links pool Domain.inet4
