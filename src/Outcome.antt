-- ===== src/Outcome.antt =====
-- exceptions.h and exceptions.cpp: the program's exceptions, and what a call that can throw returns.
use Prim.Native.String.{String}
use universal_fencing_hub.Base.{Bool, true, false}

-- InetException::ErrorId
pub data InetError : Type 0 where
  unknown invalid_address unknown_af unsupported_af invalid_port_number socket_error bind_failed :
      InetError
  listen_error network_unreachable connection_refused connect_failed : InetError

-- OsException::ErrorId
pub data OsError : Type 0 where
  unknown invalid_select_fd io_error nblk_io_error ipc_error dyn_load_error signal_hnd_error :
      OsError

-- InetException::get_error_description
unfoldable pub inet_description : InetError → String
inet_description InetError.unknown = "No error description is available"
inet_description InetError.invalid_address =
    "Network address not valid for the selected address family"
inet_description InetError.unknown_af = "Unknown address family specified"
inet_description InetError.unsupported_af = "Selected address family not supported by the platform"
inet_description InetError.invalid_port_number = "IP port number not valid"
inet_description InetError.socket_error = "Network socket error"
inet_description InetError.bind_failed = "Binding a socket failed"
inet_description InetError.listen_error = "Server socket listen(...) failed"
inet_description InetError.network_unreachable = "The destination network is unreachable"
inet_description InetError.connection_refused = "The connection was refused by the peer"
inet_description InetError.connect_failed =
    "The connection attempt failed (connect() system call failed)"

-- OsException::get_error_description
unfoldable pub os_description : OsError → String
os_description OsError.unknown = "No error description is available"
os_description OsError.invalid_select_fd = "Invalid filedescriptor for select()"
os_description OsError.io_error = "I/O error"
os_description OsError.nblk_io_error = "Non-blocking I/O initialization failed"
os_description OsError.ipc_error = "IPC setup failed"
os_description OsError.dyn_load_error = "Dynamic loader/linker failed"
os_description OsError.signal_hnd_error = "Signal handler setup failed"

-- What an exception that reaches a handler of the program was. The texts that some carry are left out.
pub data Exception : Type 0 where
  inet_exception : InetError → Exception
  os_exception : OsError → Exception
  protocol_exception range_exception arguments_exception client_exception plugin_exception
        bad_alloc :
      Exception

-- A call returns, or throws; either way it leaves a state.
pub data Outcome (S A : Type 0) : Type 0 where
  ok : S → A → Outcome S A
  throw : S → Exception → Outcome S A

-- The state that is left.
abbrev pub state_of : {S A : Type 0} → Outcome S A → S
state_of (ok s a) = s
state_of (throw s e) = s

abbrev pub raised : {S A : Type 0} → Outcome S A → Bool
raised (ok s a) = false
raised (throw s e) = true
