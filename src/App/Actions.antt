-- ===== src/App/Actions.antt =====
-- What the process does once it is launched: the two intervals and the callback of
-- orchestrator/src/app.js and the requests of orchestrator/src/api.js, each run to its end before
-- the next begins, in any order.
pub mod Off
use habs.Base.{◌≡◌, ◌≢◌, String, Bool, List, [], ◌∷◌, All}
use habs.Env.{Env, Event}
use habs.Heartbeats.Listing.{Listed}
use habs.Orchestrator.State.{Orchestrator}
use habs.Routes.Requests.{Request, Endpoint, endpoint, handle}
use habs.App.{heartbeat_tick, orchestrate_tick, listen_events}

pub data Action : Type 0 where
  beat orchestrate : Action
  read_events : String → List Event → Action
  receive : Request → Action

module _ {W : Type 0} (env : Env W) (takes : String → String → Bool)
    (sort_by_name : List Listed → List Listed) where
  unfoldable pub act : Action → Orchestrator × W → Orchestrator × W
  act beat s = (heartbeat_tick env s).1
  act orchestrate s = (orchestrate_tick env s).1
  act (read_events address events) s = (listen_events env address events s).1
  act (receive r) s = (handle env takes sort_by_name r s).1

  -- The state after the actions, from the first to the last.
  unfoldable pub run : List Action → Orchestrator × W → Orchestrator × W
  unfolding act
  run [] s = s
  run (a ∷ actions) s = run actions (act a s)

module _ (takes : String → String → Bool) where
  -- The action is not a request to the endpoint.
  abbrev pub Avoids : Endpoint → Action → Type 0
  Avoids e (receive r) = endpoint takes r ≢ e
  Avoids e _ = Unit
