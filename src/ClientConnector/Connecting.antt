-- ===== src/ClientConnector/Connecting.antt =====
-- ClientConnector.cpp, connect_to_server. What the system calls return is an argument.
use universal_fencing_hub.Base.{Bool, Option, none, some, if◌then◌else◌}
use universal_fencing_hub.Outcome.{Outcome, ok, throw, inet_exception, InetError}
use universal_fencing_hub.NetClient.{Fd}
use universal_fencing_hub.SocketAddress.{ℤ, Parsed, parsed, refused, check_inet_pton_rc}

-- The values of errno that connect_to_server tells apart.
pub data ConnectErrno : Type 0 where
  addr_in_use bad_fd is_connected net_unreachable conn_refused other : ConnectErrno

-- `socket` is `none` for a negative descriptor, `bound` whether bind returns 0, and `failure` is `none`
-- when connect returns 0.
pub record ConnectCalls : Type 0 where
  pub socket : Fd
  pub inet_pton_rc : ℤ
  pub bound : Bool
  pub failure : Option ConnectErrno

unfoldable pub connect_error : ConnectErrno → InetError
connect_error ConnectErrno.addr_in_use = InetError.socket_error
connect_error ConnectErrno.bad_fd = InetError.socket_error
connect_error ConnectErrno.is_connected = InetError.socket_error
connect_error ConnectErrno.net_unreachable = InetError.network_unreachable
connect_error ConnectErrno.conn_refused = InetError.connection_refused
connect_error ConnectErrno.other = InetError.connect_failed

-- The call of connect.
unfoldable pub connect_peer : Fd → Option ConnectErrno → Outcome Fd (Unit {0})
unfolding connect_error
connect_peer fd none = ok fd tt
connect_peer fd (some errno) = throw fd (inet_exception (connect_error errno))

-- The local address and bind, the same for both families.
unfoldable pub bind_local : Fd → ConnectCalls → Parsed (Unit {0}) → Outcome Fd (Unit {0})
unfolding connect_peer
bind_local fd calls (refused e) = throw fd (inet_exception e)
bind_local fd calls (parsed _) =
    if calls.bound
    then connect_peer fd calls.failure
    else throw fd (inet_exception InetError.bind_failed)

-- The state is the descriptor. The domain of a connector is one of the two that are handled.
unfoldable pub connect_to_server : ConnectCalls → Outcome Fd (Unit {0})
unfolding bind_local
connect_to_server calls = elim calls.socket [
  | none ↦ throw none (inet_exception InetError.socket_error)
  | some fd ↦ bind_local (some fd) calls (check_inet_pton_rc calls.inet_pton_rc)
]
