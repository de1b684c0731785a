-- ===== src/Client.antt =====
-- Client.h and Client.cpp: the client program, from the arguments that were read to its exit code.
pub mod Safety
use universal_fencing_hub.Base.{
  ℕ, Bool, true, false, ◌||◌, List, [], ◌∷◌, Option, none, some, if◌then◌else◌,
}
use universal_fencing_hub.CharBuffer.{CharBuffer}
use universal_fencing_hub.Outcome.{
  Outcome, ok, throw, Exception, inet_exception, os_exception, protocol_exception, range_exception,
  plugin_exception, arguments_exception, client_exception, bad_alloc,
}
use universal_fencing_hub.MsgHeader.{MsgHeader, cleared}
use universal_fencing_hub.NetClient.{Domain, Fd, RecvResult, SendResult}
use universal_fencing_hub.Arguments.{Entry, ArgMap, check_required, get_value}
use universal_fencing_hub.SocketAddress.{
  ℤ, Parsed, parsed, refused, SocketAddress, init_socket_address,
}
use universal_fencing_hub.ClientConnector.{
  Session, Calls, disconnect_from_server, check_connection, request_off, request_on, request_reboot,
}
use universal_fencing_hub.ClientConnector.Connecting.{ConnectCalls, connect_to_server}
use universal_fencing_hub.Parameters.{mark_each}
use universal_fencing_hub.Parameters.Client.{
  Line, initialize, read_parameters, key_action, key_protocol, key_ip_address, key_tcp_port,
  key_nodename, key_secret, action_off, action_on, action_reboot, action_metadata, action_status,
  action_list, action_monitor, action_start, action_stop,
}

pub data ExitCode : Type 0 where
  fencing_success fencing_failure : ExitCode

-- What the libraries and the system give: the number parser and inet_pton, the calls of
-- connect_to_server, send and recv, and what the new I/O buffer holds.
pub record Network : Type 0 where
  pub parse : List ℕ → Option ℕ
  pub inet_pton : Domain → List ℕ → ℤ × List ℕ
  pub connecting : ConnectCalls
  pub writes : List SendResult
  pub reads : List RecvResult
  pub memory : List ℕ

abbrev pub exit_code : Bool → ExitCode
exit_code true = ExitCode.fencing_success
exit_code false = ExitCode.fencing_failure

-- What follows a call that can throw.
abbrev pub and_then :
    {M A C : Type 0} → Outcome M A → (M → A → Option (Outcome M C)) → Option (Outcome M C)
and_then (throw m e) f = some (throw m e)
and_then (ok m a) f = f m a

-- A new connector, once its socket is connected.
abbrev pub new_session : Network → Fd → Session
new_session net fd = record { socket_fd = fd; header = cleared; io_buffer = net.memory; gone = [] }

-- What the connector's calls leave of the program; `none` is a loop that still runs. The connection is
-- closed by disconnect_from_server, or, after an exception, by the destructor.
unfoldable pub close_session : {M : Type 0} → M → Calls Bool → Option (Outcome M Bool)
close_session m none = none
close_session m (some (throw s e)) = some (throw m e)
close_session m (some (ok s b)) = some (ok m b)

unfoldable pub exit_code_of : {M : Type 0} → Option (Outcome M Bool) → Option (Outcome M ExitCode)
exit_code_of none = none
exit_code_of (some (throw m e)) = some (throw m e)
exit_code_of (some (ok m b)) = some (ok m (exit_code b))

module _ {M : Type 0} (net : Network) where
  -- connect_to_server, of a new connector.
  unfoldable pub connected : M → Outcome M SocketAddress → Outcome M Session
  unfolding connect_to_server
  connected m (throw n e) = throw n e
  connected m (ok n address) = elim (connect_to_server net.connecting) [
    | throw fd e ↦ throw n e
    | ok fd _ ↦ ok n (new_session net fd)
  ]

module _ {B : Type 0} ⦃cb : CharBuffer B⦄ (net : Network) where
  -- The request for an action.
  unfoldable pub request : B → B → B → Session → Calls Bool
  request action nodename secret s =
      if cb.equals action action_off
      then request_off s nodename secret net.writes net.reads
      else (if cb.equals action action_on
          then request_on s nodename secret net.writes net.reads
          else (if cb.equals action action_reboot
              then request_reboot s nodename secret net.writes net.reads
              else some (throw s client_exception)))

module _ {M : Type 0} (B : Type 0) ⦃cb : CharBuffer B⦄ ⦃am : ArgMap M (Entry B)⦄
    (net : Network) where
  -- The three arguments of the connector, and its constructor.
  unfoldable pub address_of : M → B → B → B → Outcome M SocketAddress
  address_of m protocol ip_address tcp_port =
      elim (init_socket_address net.parse net.inet_pton protocol ip_address tcp_port) [
        | refused e ↦ throw m (inet_exception e)
        | parsed address ↦ ok m address
      ]

  unfoldable pub init_connector : M → Outcome M SocketAddress
  unfolding address_of get_value
  init_connector m = elim (get_value {B = B} m key_protocol) [
    | throw n e ↦ throw n e
    | ok n protocol ↦ elim (get_value {B = B} m key_ip_address) [
      | throw n e ↦ throw n e
      | ok n ip_address ↦ elim (get_value {B = B} m key_tcp_port) [
        | throw n e ↦ throw n e
        | ok n tcp_port ↦ address_of m protocol ip_address tcp_port
      ]
    ]
  ]

  -- mark_required for each key, check_required, init_connector and connect_to_server.
  unfoldable pub open_connector : M → List (List ℕ) → Outcome M Session
  unfolding mark_each check_required init_connector connected
  open_connector m keys = elim (mark_each B m keys) [
    | throw n e ↦ throw n e
    | ok n _ ↦ elim (check_required B n) [
      | throw k e ↦ throw k e
      | ok k _ ↦ connected net k (init_connector k)
    ]
  ]

  unfoldable pub check_server_connection : M → Option (Outcome M Bool)
  unfolding open_connector close_session
  check_server_connection m =
      and_then (open_connector m (key_protocol ∷ key_ip_address ∷ key_tcp_port ∷ []))
        (λ n s. close_session n (check_connection s net.writes net.reads))

  -- The three arguments of the request.
  unfoldable pub send_request : M → Session → Option (Outcome M Bool)
  unfolding get_value request close_session
  send_request m s = and_then (get_value {B = B} m key_action) (λ m1 action.
      and_then (get_value {B = B} m1 key_nodename) (λ m2 nodename.
        and_then (get_value {B = B} m2 key_secret)
          (λ m3 secret. close_session m3 (request net action nodename secret s))))

  unfoldable pub fence_action : M → Option (Outcome M Bool)
  unfolding open_connector send_request
  fence_action m =
      and_then
        (open_connector m
          (key_protocol ∷ key_ip_address ∷ key_tcp_port ∷ key_nodename ∷ key_secret ∷ []))
        (λ n s. send_request n s)

  -- The branches of dispatch_request, by what the action is equal to.
  unfoldable pub dispatch_by : M → (List ℕ → Bool) → Option (Outcome M ExitCode)
  unfolding fence_action check_server_connection exit_code_of
  dispatch_by m is =
      if is action_off || is action_on || is action_reboot
      then exit_code_of (fence_action m)
      else (if is action_metadata
          then some (ok m ExitCode.fencing_success)
          else (if is action_list
              then exit_code_of (check_server_connection m)
              else (if is action_monitor
                  then exit_code_of (check_server_connection m)
                  else (if is action_status
                      then exit_code_of (check_server_connection m)
                      else (if is action_start || is action_stop
                          then some (ok m ExitCode.fencing_success)
                          else some (throw m client_exception))))))

  unfoldable pub dispatch_action : M → B → Option (Outcome M ExitCode)
  unfolding dispatch_by
  dispatch_action m action = dispatch_by m (cb.equals action)

  unfoldable pub dispatch_request : M → Option (Outcome M ExitCode)
  unfolding dispatch_action check_required get_value
  dispatch_request m =
      and_then (check_required B m)
        (λ n _. and_then (get_value {B = B} n key_action) (λ k action. dispatch_action k action))

  -- `none` is also an insertion that throws; the keys that initialize inserts are all different.
  unfoldable pub run :
      (ℕ → B) → (B → List ℕ → Option B) → List Line → M → Option (Outcome M ExitCode)
  unfolding initialize read_parameters dispatch_request
  run make assign_c_str lines m = elim (initialize make assign_c_str m) [
    | none ↦ none
    | some r ↦
        and_then r
          (λ n _. and_then (read_parameters make assign_c_str n lines) (λ k _. dispatch_request k))
  ]

-- How the program ends: with an exit code, or by std::terminate.
pub data Ending : Type 0 where
  exited : ExitCode → Ending
  terminated : Ending

-- The handlers of main. No handler is there for the others.
unfoldable pub caught : Exception → Ending
caught arguments_exception = exited ExitCode.fencing_failure
caught client_exception = exited ExitCode.fencing_failure
caught (inet_exception e) = exited ExitCode.fencing_failure
caught (os_exception e) = exited ExitCode.fencing_failure
caught bad_alloc = exited ExitCode.fencing_failure
caught protocol_exception = terminated
caught range_exception = terminated
caught plugin_exception = terminated

unfoldable pub main_ends : {M : Type 0} → Option (Outcome M ExitCode) → Option Ending
unfolding caught
main_ends none = none
main_ends (some (throw m e)) = some (caught e)
main_ends (some (ok m rc)) = some (exited rc)
