-- ===== src/Connector/Starting.antt =====
-- ServerConnector.cpp, init: the listening socket and the selector's pipe. What the system calls return
-- is an argument.
use universal_fencing_hub.Base.{
  ℕ, ◌≡◌, refl, Bool, true, false, List, [], ◌∷◌, ◌++◌, Option, none, some, if◌then◌else◌,
}
use universal_fencing_hub.CharBuffer.{CharBuffer}
use universal_fencing_hub.Outcome.{
  Outcome, ok, throw, state_of, inet_exception, os_exception, InetError, OsError,
}
use universal_fencing_hub.NetClient.{NetClient, Fd, Domain}
use universal_fencing_hub.GenAlloc.{GenAlloc}
use universal_fencing_hub.Queue.{empty, remove_first}
use universal_fencing_hub.Queue.Node.{Links}
use universal_fencing_hub.Connector.{Connector, close_action_queue, close_com_queue, cleanup}

-- `socket` is `none` for a negative descriptor and `pipe` is `none` when no pipe is made; the others are
-- whether bind, fcntl, listen, and fcntl on both ends of the pipe, succeed.
pub record InitCalls : Type 0 where
  pub socket : Fd
  pub bound : Bool
  pub non_blocking : Bool
  pub listening : Bool
  pub pipe : Option (ℕ × ℕ)
  pub pipe_non_blocking : Bool

-- What init opens when the system calls return this.
unfoldable pub opened_pipe : Option (ℕ × ℕ) → List ℕ
opened_pipe none = []
opened_pipe (some (read_end, write_end)) = write_end ∷ read_end ∷ []

unfoldable pub opened_fds : InitCalls → List ℕ
unfolding opened_pipe
opened_fds calls = elim calls.socket [
  | none ↦ []
  | some fd ↦ elim calls.bound [
    | false ↦ fd ∷ []
    | true ↦ elim calls.non_blocking [
      | false ↦ fd ∷ []
      | true ↦ elim calls.listening [ false ↦ fd ∷ [] | true ↦ opened_pipe calls.pipe ++ fd ∷ [] ]
    ]
  ]
]

module _ {B : Type 0} where
  -- The pipe, and its two ends.
  unfoldable pub init_pipe : Option (ℕ × ℕ) → Bool → Connector B → Outcome (Connector B) (Unit {0})
  init_pipe none non_blocking s = throw s (os_exception OsError.ipc_error)
  init_pipe (some (read_end, write_end)) non_blocking s =
      let piped = record s { trigger_read = some read_end; trigger_write = some write_end } in
      if non_blocking then ok piped tt else throw piped (os_exception OsError.nblk_io_error)

  -- What follows the call of socket.
  unfoldable pub init_socket : InitCalls → Connector B → Outcome (Connector B) (Unit {0})
  unfolding init_pipe
  init_socket calls s =
      if calls.bound
      then if calls.non_blocking
        then if calls.listening
          then init_pipe calls.pipe calls.pipe_non_blocking s
          else throw s (inet_exception InetError.listen_error)
        else throw s (os_exception OsError.nblk_io_error)
      else throw s (inet_exception InetError.bind_failed)

  unfoldable pub init : InitCalls → Connector B → Outcome (Connector B) (Unit {0})
  unfolding init_socket
  init calls s = elim calls.socket [
    | none ↦ throw (record s { socket_fd = none }) (inet_exception InetError.socket_error)
    | some fd ↦ init_socket calls (record s { socket_fd = some fd })
  ]

  -- The connector that the constructor makes.
  unfoldable pub new_connector : (ℕ → NetClient B) → Links → GenAlloc → Domain → Connector B
  new_connector client links client_pool domain = record {
    client = client;
    links = links;
    com_queue = empty;
    action_queue = empty;
    client_pool = client_pool;
    socket_domain = domain;
    socket_fd = none;
    trigger_read = none;
    trigger_write = none;
    signaled = false;
    closed_fds = [];
    wakeups = 0;
    notified = 0;
  }

module _ {B : Type 0} ⦃cb : CharBuffer B⦄ where
  -- Wherever init stops, what it leaves to cleanup: the descriptors that are open are closed, each once,
  -- and the connector forgets them.
  abbrev pub Closes : InitCalls → Connector B → Type 0
  Closes calls s =
      (t : Connector B) × (cleanup 1 s ≡ some t)
      × (t.closed_fds ≡ opened_fds calls)
      × (t.socket_fd ≡ none)
      × (t.trigger_read ≡ none)
      × (t.trigger_write ≡ none)

  -- However far init comes, and whatever the system calls return, cleanup then closes exactly the
  -- descriptors that were opened: each one once, the ends of the pipe behind the socket; and no client is
  -- there yet.
  pub init-Closes :
      (calls : InitCalls) (client : ℕ → NetClient B) (links : Links) (client_pool : GenAlloc)
      (domain : Domain)
      → Closes calls (state_of (init calls (new_connector client links client_pool domain)))
  unfolding init opened_fds cleanup close_action_queue close_com_queue remove_first empty
      new_connector
  init-Closes calls client links client_pool domain =
      by_calls calls.socket calls.bound calls.non_blocking calls.listening calls.pipe
        calls.pipe_non_blocking
    where
      with_calls : Fd → Bool → Bool → Bool → Option (ℕ × ℕ) → Bool → Type 0
      with_calls socket bound non_blocking listening pipe pipe_non_blocking =
          let c : InitCalls = record {
            socket = socket;
            bound = bound;
            non_blocking = non_blocking;
            listening = listening;
            pipe = pipe;
            pipe_non_blocking = pipe_non_blocking;
          } in
          Closes c (state_of (init c (new_connector client links client_pool domain)))

      by_calls :
          (socket : Fd) (bound non_blocking listening : Bool) (pipe : Option (ℕ × ℕ))
          (pipe_non_blocking : Bool)
          → with_calls socket bound non_blocking listening pipe pipe_non_blocking
      by_calls none b n l p pn = (_, refl, refl, refl, refl, refl)
      by_calls (some fd) false n l p pn = (_, refl, refl, refl, refl, refl)
      by_calls (some fd) true false l p pn = (_, refl, refl, refl, refl, refl)
      by_calls (some fd) true true false p pn = (_, refl, refl, refl, refl, refl)
      by_calls (some fd) true true true none pn = (_, refl, refl, refl, refl, refl)
      by_calls (some fd) true true true (some (r, w)) true = (_, refl, refl, refl, refl, refl)
      by_calls (some fd) true true true (some (r, w)) false = (_, refl, refl, refl, refl, refl)
