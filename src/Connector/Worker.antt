-- ===== src/Connector/Worker.antt =====
-- ServerConnector.cpp, process_action_queue: the work of a worker thread, from taking a client off the
-- action queue to giving it back to the selector. The function is a run without other threads between
-- its steps.
pub mod Answering
use universal_fencing_hub.Base.{ℕ, zero, suc, Option, none, some}
use universal_fencing_hub.CharBuffer.{CharBuffer}
use universal_fencing_hub.Outcome.{Outcome, ok, throw}
use universal_fencing_hub.NetClient.{NetClient, Phase}
use universal_fencing_hub.Queue.{remove_first}
use universal_fencing_hub.Server.{FenceFunctions}
use universal_fencing_hub.Requests.{process_client_message}
use universal_fencing_hub.Connector.{Connector, set_client, finish_client}

module _ {B : Type 0} ⦃cb : CharBuffer B⦄ where
  abbrev pub executing : NetClient B → NetClient B
  executing c = record c { current_phase = Phase.executing }

  -- What follows process_client_message; an exception leaves the client where it is.
  unfoldable pub after_message :
      Connector B
      → ℕ
      → Option (Outcome (NetClient B) (Unit {0}))
      → Option (Outcome (Connector B) (Unit {0}))
  unfolding finish_client
  after_message s a none = none
  after_message s a (some (throw c e)) = some (throw (set_client s a c) e)
  after_message s a (some (ok c _)) = some (ok (finish_client (set_client s a c) a) tt)

  -- The loop. An exception is caught behind it, and ends it. `none` is a write through a null pointer,
  -- or turns or rounds that ran out.
  unfoldable pub process_action_queue : ℕ → ℕ → FenceFunctions → Connector B → Option (Connector B)
  unfolding after_message process_client_message
  process_action_queue zero rounds plugin s = none
  process_action_queue (suc turns) rounds plugin s = elim (remove_first s.action_queue s.links) [
    | none ↦ none
    | some (none, queue, links) ↦ some (record s { action_queue = queue; links = links })
    | some (some a, queue, links) ↦
        elim (after_message (record s { action_queue = queue; links = links }) a
          (process_client_message rounds plugin (executing (s.client a)))) [
            | none ↦ none
            | some (throw s1 e) ↦ some s1
            | some (ok s1 _) ↦ process_action_queue turns rounds plugin s1
          ]
  ]
