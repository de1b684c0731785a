-- ===== src/Server/Plugin.antt =====
-- plugin_loader.cpp: the functions of a plugin. dlopen and dlsym are parameters: what they return is a
-- handle or an address, or `none` for a null pointer.
use Prim.Native.String.{String}
use universal_fencing_hub.Base.{ℕ, List, Bool, true, false, Option, none, some}
use universal_fencing_hub.Outcome.{Outcome, ok, throw, os_exception, OsError}

-- function_table
pub record FunctionTable : Type 0 where
  pub ufh_plugin_init : Option ℕ
  pub ufh_plugin_destroy : Option ℕ
  pub ufh_fence_off : Option ℕ
  pub ufh_fence_on : Option ℕ
  pub ufh_fence_reboot : Option ℕ

abbrev is_some : Option ℕ → Bool
is_some none = false
is_some (some n) = true

-- The condition under which the functions are taken.
unfoldable pub is_complete : FunctionTable → Bool
is_complete t = elim (is_some t.ufh_plugin_init) [
  | false ↦ false
  | true ↦ elim (is_some t.ufh_plugin_destroy) [
    | false ↦ false
    | true ↦ elim (is_some t.ufh_fence_off) [
      | false ↦ false
      | true ↦ elim (is_some t.ufh_fence_on) [ false ↦ false | true ↦ is_some t.ufh_fence_reboot ]
    ]
  ]
]

-- What dlsym finds under the five names.
abbrev pub symbols : (ℕ → String → Option ℕ) → ℕ → FunctionTable
symbols dlsym plugin_handle = record {
  ufh_plugin_init = dlsym plugin_handle "ufh_plugin_init";
  ufh_plugin_destroy = dlsym plugin_handle "ufh_plugin_destroy";
  ufh_fence_off = dlsym plugin_handle "ufh_fence_off";
  ufh_fence_on = dlsym plugin_handle "ufh_fence_on";
  ufh_fence_reboot = dlsym plugin_handle "ufh_fence_reboot";
}

-- The state is the table that the caller's reference names.
unfoldable pub load_plugin :
    (List ℕ → Option ℕ) → (ℕ → String → Option ℕ) → List ℕ → FunctionTable → Outcome FunctionTable ℕ
unfolding is_complete
load_plugin dlopen dlsym path functions = elim (dlopen path) [
  | none ↦ throw functions (os_exception OsError.dyn_load_error)
  | some plugin_handle ↦ elim (is_complete (symbols dlsym plugin_handle)) [
    | true ↦ ok (symbols dlsym plugin_handle) plugin_handle
    | false ↦ throw functions (os_exception OsError.dyn_load_error)
  ]
]

unfoldable pub unload_plugin : FunctionTable → FunctionTable
unload_plugin functions = record {
  ufh_plugin_init = none;
  ufh_plugin_destroy = none;
  ufh_fence_off = none;
  ufh_fence_on = none;
  ufh_fence_reboot = none;
}
