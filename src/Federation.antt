-- ===== src/Federation.antt =====
-- The nodes of a federation on one chain: every node an orchestrator of orchestrator/src, the chain
-- with the pallet of chain/pallets/archipel, and for every node the events that it has not handled
-- yet. A step is one call on the chain or one handler of one node; steps follow in any order.
pub mod Steps
pub mod Exclusion
pub mod Handlers
pub mod Calls
pub mod Reachable
use habs.Base.{
  ℕ, zero, suc, ◌≡◌, ◌≢◌, ◌⊎◌, String, Option, none, some, true, List, [], ◌∷◌, ◌++◌, map, num,
  show_nat,
}
use habs.Env.{Env, Event}
use habs.Pallet.{
  PalletEvent, new_heartbeat, new_leader, give_up_leader, Storage, Origin, PalletCall, execute,
  get_leader, put_of,
}
use habs.Orchestrator.State.{Orchestrator}
use habs.Orchestrator.Decision.{orchestrate_service}
use habs.Orchestrator.Safety.{AllChecks}
use habs.App.{listen_events}

-- The event has the fields that are listed, and nothing reads others.
abbrev pub field_of : List String → ℕ → String
field_of [] i = ""
field_of (x ∷ xs) zero = x
field_of (x ∷ xs) (suc i) = field_of xs i

-- An event of the pallet, as the client of the chain shows it.
abbrev pub event_named : String → List String → Event
event_named method fields = record {
  section = "archipelModule";
  method = method;
  field_at = field_of fields;
  data_is_json = true;
}

abbrev pub event_of : PalletEvent → Event
event_of (new_heartbeat account group node_status block) =
    event_named "NewHeartbeat"
      (account ∷ show_nat group ∷ show_nat node_status ∷ show_nat block ∷ [])
event_of (new_leader account group) = event_named "NewLeader" (account ∷ show_nat group ∷ [])
event_of (give_up_leader account group) = event_named "GiveUpLeader" (account ∷ show_nat group ∷ [])

-- The nodes by their addresses.
pub record Federation : Type 0 where
  pub nodes : String → Orchestrator
  pub pallet : Storage
  pub unread : String → List Event

abbrev pub IsActive : Federation → String → Type 0
IsActive f n = (f.nodes n).service.mode ≡ "active"

-- What any other handler of a node may do: it neither changes the role or the group of the node
-- nor makes it active.
pub record IsOther (before after : Orchestrator) : Type 0 where
  pub role : after.node_role ≡ before.node_role
  pub group : after.group ≡ before.group
  pub mode : after.service.mode ≡ "active" → before.service.mode ≡ "active"

-- The node `n` in another state, with the events `rest` still unread.
abbrev pub with_node : String → Orchestrator → List Event → Federation → Federation
with_node n o rest f = record f { nodes = put_of n o f.nodes; unread = put_of n rest f.unread }

module _ {W : Type 0} where
  abbrev pub after_orchestrate : Env W → W → String → Federation → Federation
  after_orchestrate env w n f =
      with_node n (orchestrate_service env (f.nodes n, w)).1.0 (f.unread n) f

  abbrev pub after_listen : Env W → W → String → List Event → List Event → Federation → Federation
  after_listen env w n events rest f =
      with_node n (listen_events env n events (f.nodes n, w)).1.0 rest f

module _ (default_account : String) where
  -- A block with one call. Its events reach every node.
  abbrev pub after_call : Origin → PalletCall → Federation → Federation
  after_call origin call f =
      let q = (execute default_account origin call (record (f.pallet) { events = [] })).1 in
      record { nodes = f.nodes; pallet = q; unread = λ n. f.unread n ++ map event_of q.events }

  module _ {W : Type 0} where
    -- In a run of the orchestration of node `n` in which every check passes, the address that the
    -- keys of its mnemonic give is `n`, and the last call that asks for the leader of its group
    -- fails or answers what the pallet holds.
    abbrev pub ReadsPallet : Env W → W → String → Federation → Type 0
    ReadsPallet env w n f =
        (c : AllChecks env (f.nodes n, w)) (g : ℕ)
        → (f.nodes n).group ≡ num g
        → (c.key ≡ n)
          × ((c.allowed.last_check.leader ≡ none)
              ⊎ (c.allowed.last_check.leader ≡ some (get_leader default_account g f.pallet)))

  -- The outside of a handler, `env` and `w`, may be another one in every step. An orchestration
  -- stands at the moment of its last question for the leader. The steps of a node that an
  -- operator has forced into active mode are left out.
  pub data Step (W : Type 0) (f : Federation) : Federation → Type 0 where
    call : (origin : Origin) (c : PalletCall) → Step W f (after_call origin c f)
    orchestrate :
        (env : Env W) (w : W) (n : String)
        → n ≢ "false"
        → n ≢ default_account
        → (f.nodes n).service_mode ≢ "active"
        → ReadsPallet env w n f
        → Step W f (after_orchestrate env w n f)
    listen :
        (env : Env W) (w : W) (n : String) (events rest : List Event)
        → f.unread n ≡ events ++ rest
        → Step W f (after_listen env w n events rest f)
    other :
        (n : String) (o : Orchestrator)
        → IsOther (f.nodes n) o
        → Step W f (with_node n o (f.unread n) f)

  pub data Reach (W : Type 0) (f : Federation) : Federation → Type 0 where
    here : Reach W f f
    next : {g h : Federation} → Reach W f g → Step W g h → Reach W f h
