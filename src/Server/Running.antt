-- ===== src/Server/Running.antt =====
-- Server.cpp, run: the server from its command line to its exit status. The threads and the network are
-- behind `serving`: the exception with which the making of the worker threads, or ServerConnector::run,
-- ends, or `none` where it returns.
use Prim.Native.String.{String}
use universal_fencing_hub.Base.{ℕ, ◌≡◌, ◌⊎◌, List, [], ◌∷◌, Option, none, some}
use universal_fencing_hub.CharBuffer.{CharBuffer, c_str}
use universal_fencing_hub.Outcome.{Outcome, ok, throw, Exception}
use universal_fencing_hub.NetClient.{Domain}
use universal_fencing_hub.Arguments.{Entry, ArgMap, check_required, get_value}
use universal_fencing_hub.SocketAddress.{
  ℤ, Parsed, parsed, refused, SocketAddress, init_socket_address,
}
use universal_fencing_hub.Parameters.Client.{key_protocol, key_tcp_port}
use universal_fencing_hub.Parameters.Server.{
  initialize, read_parameters, key_bind_address, key_fence_module,
}
use universal_fencing_hub.Server.Plugin.{FunctionTable}
use universal_fencing_hub.Server.Manager.{
  PluginCall, loaded, unloaded, initialized, destroyed, InitRc, PluginMgr, construct, destruct,
}

-- EXIT_SUCCESS and EXIT_FAILURE
pub data ExitStatus : Type 0 where
  exit_success exit_failure : ExitStatus

-- What the libraries, the system and the plugin give.
pub record Surroundings : Type 0 where
  pub parse : List ℕ → Option ℕ
  pub inet_pton : Domain → List ℕ → ℤ × List ℕ
  pub dlopen : List ℕ → Option ℕ
  pub dlsym : ℕ → String → Option ℕ
  pub init_rc : InitRc
  pub plugin_functions : FunctionTable
  pub serving : Option Exception

abbrev pub status_of : Option Exception → ExitStatus
status_of none = exit_success
status_of (some e) = exit_failure

-- The constructor of the connector, and what follows it. On every way out the plugin's manager is
-- destructed.
unfoldable pub with_address :
    Surroundings → PluginMgr → Parsed SocketAddress → ExitStatus × List PluginCall
with_address env m (refused e) = (exit_failure, (destruct m).calls)
with_address env m (parsed address) = (status_of env.serving, (destruct m).calls)

unfoldable pub with_plugin :
    Surroundings
    → Parsed SocketAddress
    → Outcome PluginMgr (Unit {0})
    → ExitStatus × List PluginCall
unfolding with_address
with_plugin env address (throw m e) = (exit_failure, m.calls)
with_plugin env address (ok m _) = with_address env m address

-- A step in front of the plugin's manager: an exception of it ends the run.
abbrev pub or_fail :
    {S A : Type 0}
    → Outcome S A
    → (S → A → ExitStatus × List PluginCall)
    → ExitStatus × List PluginCall
or_fail (throw s e) f = (exit_failure, [])
or_fail (ok s a) f = f s a

module _ {B : Type 0} ⦃cb : CharBuffer B⦄ (env : Surroundings) where
  -- The plugin and the connector, with the four arguments.
  unfoldable pub set_up : B → B → B → B → ExitStatus × List PluginCall
  unfolding with_plugin
  set_up protocol bind_address port fence_module =
      with_plugin env (init_socket_address env.parse env.inet_pton protocol bind_address port) (
        construct env.dlopen env.dlsym env.init_rc (c_str (cb.contents fence_module))
          env.plugin_functions)

module _ {M : Type 0} (B : Type 0) ⦃cb : CharBuffer B⦄ ⦃am : ArgMap M (Entry B)⦄
    (env : Surroundings) where
  unfoldable pub read_values : M → ExitStatus × List PluginCall
  unfolding get_value set_up
  read_values m = or_fail (get_value {B = B} m key_protocol) (λ m1 protocol.
      or_fail (get_value {B = B} m1 key_bind_address) (λ m2 bind_address.
        or_fail (get_value {B = B} m2 key_tcp_port) (λ m3 port.
          or_fail (get_value {B = B} m3 key_fence_module)
            (λ m4 fence_module. set_up env protocol bind_address port fence_module))))

  -- Every exception ends in one of the handlers, and those in EXIT_FAILURE.
  unfoldable pub run :
      (ℕ → B) → (B → List ℕ → Option B) → M → List (List ℕ) → ExitStatus × List PluginCall
  unfolding initialize read_parameters check_required read_values
  run make assign_c_str m argv = elim (initialize make assign_c_str m) [
    | none ↦ (exit_failure, [])
    | some r ↦ or_fail r (λ m1 _.
        or_fail (read_parameters make assign_c_str m1 argv)
          (λ m2 _. or_fail (check_required B m2) (λ m3 _. read_values m3)))
  ]

-- How a run ends: with success only when the connector's run returned; and the plugin was not loaded, or
-- it failed to initialize, or it is destroyed with its context, and unloaded.
abbrev pub Ends : Surroundings → ExitStatus × List PluginCall → Type 0
Ends env (status, calls) =
    ((status ≡ exit_failure)
      × ((calls ≡ []) ⊎ ((plugin_handle : ℕ) × (calls ≡ loaded plugin_handle ∷ []))))
    ⊎ ((status ≡ exit_failure) ⊎ (env.serving ≡ none))
      × ((plugin_handle : ℕ) × (calls
            ≡ unloaded plugin_handle
              ∷ destroyed (env.init_rc).context
              ∷ initialized
              ∷ loaded plugin_handle
              ∷ []))
