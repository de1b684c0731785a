-- ===== src/Server.antt =====
-- Server.cpp and Server.h: the fencing actions that a request leads to, and plugin_loader.cpp, the
-- functions that the actions come from. The log lines are left out.
pub mod Plugin
pub mod Manager
pub mod Running
use universal_fencing_hub.Base.{ℕ, Bool, List}
use universal_fencing_hub.CharBuffer.{CharBuffer}

-- The functions of the loaded plugin, at the context that its initialisation returned: they are given
-- the bytes of the node's name and their number.
pub record FenceFunctions : Type 0 where
  pub ufh_fence_off : List ℕ → Bool
  pub ufh_fence_on : List ℕ → Bool
  pub ufh_fence_reboot : List ℕ → Bool

module _ {B : Type 0} ⦃cb : CharBuffer B⦄ where
  -- Server::fence_action_off and its two siblings. The secret of the client is not looked at.
  unfoldable pub fence_action_off : FenceFunctions → B → B → Bool
  fence_action_off plugin_functions nodename client_secret =
      plugin_functions.ufh_fence_off (cb.contents nodename)

  unfoldable pub fence_action_on : FenceFunctions → B → B → Bool
  fence_action_on plugin_functions nodename client_secret =
      plugin_functions.ufh_fence_on (cb.contents nodename)

  unfoldable pub fence_action_reboot : FenceFunctions → B → B → Bool
  fence_action_reboot plugin_functions nodename client_secret =
      plugin_functions.ufh_fence_reboot (cb.contents nodename)
