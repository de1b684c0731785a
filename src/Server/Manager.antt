-- ===== src/Server/Manager.antt =====
-- Server.cpp, class PluginMgr: the plugin is loaded and initialized by the constructor, and
-- uninitialized and unloaded by the destructor. What it calls is recorded, the latest first; a
-- load_plugin that throws is not.
use Prim.Native.String.{String}
use universal_fencing_hub.Base.{
  ℕ, ◌≡◌, ◌⊎◌, Bool, true, false, List, [], ◌∷◌, Option, none, some, if◌then◌else◌,
}
use universal_fencing_hub.Outcome.{Outcome, ok, throw, os_exception, plugin_exception, OsError}
use universal_fencing_hub.Server.Plugin.{FunctionTable, load_plugin, unload_plugin}

pub data PluginCall : Type 0 where
  loaded unloaded : ℕ → PluginCall
  initialized : PluginCall
  destroyed : Option ℕ → PluginCall

-- plugin::init_rc, what the plugin's own initialization returns
pub record InitRc : Type 0 where
  pub init_successful : Bool
  pub context : Option ℕ

-- The object, with the two members of the server that it sets.
pub record PluginMgr : Type 0 where
  pub plugin_handle : Option ℕ
  pub have_plugin_init : Bool
  pub plugin_functions : FunctionTable
  pub plugin_context : Option ℕ
  pub calls : List PluginCall

-- The constructor, behind load_plugin.
unfoldable pub init_plugin : InitRc → PluginMgr → Outcome PluginMgr (Unit {0})
init_plugin rc m =
    if rc.init_successful
    then ok
        (record m {
          have_plugin_init = true;
          plugin_context = rc.context;
          calls = initialized ∷ m.calls;
        })
        tt
    else throw m plugin_exception

unfoldable pub construct :
    (List ℕ → Option ℕ)
    → (ℕ → String → Option ℕ)
    → InitRc
    → List ℕ
    → FunctionTable
    → Outcome PluginMgr (Unit {0})
unfolding load_plugin init_plugin
construct dlopen dlsym rc path functions = elim (load_plugin dlopen dlsym path functions) [
  | throw table e ↦
      throw
        (record {
          plugin_handle = none;
          have_plugin_init = false;
          plugin_functions = table;
          plugin_context = none;
          calls = [];
        })
        e
  | ok table plugin_handle ↦ init_plugin rc (record {
    plugin_handle = some plugin_handle;
    have_plugin_init = false;
    plugin_functions = table;
    plugin_context = none;
    calls = loaded plugin_handle ∷ [];
  })
]

-- The two halves of the destructor.
unfoldable pub destroy_plugin : PluginMgr → PluginMgr
destroy_plugin m =
    if m.have_plugin_init
    then record m {
      have_plugin_init = false;
      plugin_context = none;
      calls = destroyed m.plugin_context ∷ m.calls;
    }
    else m

unfoldable pub destruct : PluginMgr → PluginMgr
unfolding destroy_plugin unload_plugin
destruct mgr =
    let m = destroy_plugin mgr in
    elim m.plugin_handle [
      | none ↦ m
      | some plugin_handle ↦ record m {
        plugin_handle = none;
        plugin_functions = unload_plugin m.plugin_functions;
        calls = unloaded plugin_handle ∷ m.calls;
      }
    ]

-- How the object lives. If the constructor returns, the destructor makes up for what it did, in the other
-- order, with the context of the plugin. C++ runs no destructor for an object whose constructor throws:
-- then nothing was done, or the plugin was loaded.
abbrev pub Lives : Option ℕ → Outcome PluginMgr (Unit {0}) → Type 0
Lives context (ok m _) =
    (plugin_handle : ℕ) × ((destruct m).calls
      ≡ unloaded plugin_handle ∷ destroyed context ∷ initialized ∷ loaded plugin_handle ∷ [])
    × ((destruct m).plugin_context ≡ none)
Lives context (throw m e) =
    ((m.calls ≡ []) × (e ≡ os_exception OsError.dyn_load_error))
    ⊎ ((plugin_handle : ℕ) × (m.calls ≡ loaded plugin_handle ∷ []) × (e ≡ plugin_exception))
