-- ===== src/Tests/Servers.antt =====
-- Examples for Server.cpp: a run of the server, and the life of its plugin.
use universal_fencing_hub.Base.{ℕ, ◌≡◌, refl, Bool, true, false, List, [], ◌∷◌, ◌++◌, none, some}
use universal_fencing_hub.CharBuffer.Plain.{Plain, plain_buffer}
use universal_fencing_hub.Arguments.{Entry, process_argument, check_required}
use universal_fencing_hub.Arguments.Table.{table_map}
use universal_fencing_hub.SocketAddress.{pos, proto_ipv4, init_socket_address}
use universal_fencing_hub.Parameters.Client.{key_protocol, key_tcp_port}
use universal_fencing_hub.Parameters.Server.{
  initialize, read_parameters, key_bind_address, key_fence_module, opt_prefix,
}
use universal_fencing_hub.Server.Plugin.{FunctionTable, load_plugin}
use universal_fencing_hub.Server.Manager.{
  loaded, unloaded, initialized, destroyed, construct, destruct,
}
use universal_fencing_hub.Server.Running.{exit_success, exit_failure, Surroundings, run}
use universal_fencing_hub.Tests.Requests.{new_buffer, assign_c_str}

abbrev no_functions : FunctionTable
no_functions = record {
  ufh_plugin_init = none;
  ufh_plugin_destroy = none;
  ufh_fence_off = none;
  ufh_fence_on = none;
  ufh_fence_reboot = none;
}

-- A plugin with every function, whose initialization gives this.
abbrev around : Bool → Surroundings
around init_successful = record {
  parse = λ _. some 80;
  inet_pton = λ _ _. (pos 1, 127 ∷ 0 ∷ 0 ∷ 1 ∷ []);
  dlopen = λ _. some 5;
  dlsym = λ _ _. some 9;
  init_rc = record { init_successful = init_successful; context = some 3 };
  plugin_functions = no_functions;
  serving = none;
}

abbrev no_entries : List (List ℕ × Entry Plain)
no_entries = []

abbrev option : List ℕ → List ℕ → List ℕ
option key value = opt_prefix ++ key ++ b'=' ∷ value

abbrev command_line : List (List ℕ)
command_line =
    option key_protocol proto_ipv4
    ∷ option key_bind_address (49 ∷ [])
    ∷ option key_tcp_port (56 ∷ 48 ∷ [])
    ∷ option key_fence_module (109 ∷ [])
    ∷ []

served :
    run Plain (around true) new_buffer assign_c_str no_entries command_line
    ≡ (exit_success, unloaded 5 ∷ destroyed (some 3) ∷ initialized ∷ loaded 5 ∷ [])
unfolding run construct load_plugin initialize read_parameters process_argument check_required
    init_socket_address destruct
served = refl

uninitialized :
    run Plain (around false) new_buffer assign_c_str no_entries command_line
    ≡ (exit_failure, loaded 5 ∷ [])
unfolding run construct load_plugin initialize read_parameters process_argument check_required
    init_socket_address destruct
uninitialized = refl

no_arguments : run Plain (around true) new_buffer assign_c_str no_entries [] ≡ (exit_failure, [])
unfolding run construct load_plugin initialize read_parameters process_argument check_required
    init_socket_address destruct
no_arguments = refl
