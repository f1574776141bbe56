-- ===== src/Tests/Nodes.antt =====
-- Runs of the orchestrator, the chain and the heartbeats on the states of Tests/Fixtures.antt.
use habs.Base.{
  ◌≡◌, ◌≢◌, ◌↔◌, ◌<◌, ◌+◌, refl, String, true, false, none, some, eq_iff, arith, ok, num, ltb,
  parse_int, minus, includes,
}
use habs.Tests.Fixtures.{World, env, env_with, node_in, heartbeats, seen_at, confirmed}
use habs.Env.{Env, Call}
use habs.Utils.{from_mode_to_node_status}
use habs.Chain.{
  Chain, get_best_number, can_send_transactions, chain_moving_forward, set_leader, add_heartbeat,
  give_up_leadership, settle,
}
use habs.Chain
use habs.Chain.Sending.{WasSent, transactions_true, Confirmed, settle_iff_Confirmed}
use habs.Chain.Progress.{polls, stuck_chain_noticed, new_block_resets}
use habs.Heartbeats.{get_heartbeat, is_alive, text}
use habs.Heartbeats
use habs.Heartbeats.Entries.{stored, get_heartbeat-add_heartbeat, NodupKeys}
use habs.Orchestrator.State.{Orchestrator}
use habs.Orchestrator.Leadership.{become_leader, other_leader_action, known_block}
use habs.Orchestrator.Readiness.{service_readiness_management}
use habs.Orchestrator.Decision.{orchestrate_operator_service}
use habs.Service.{service_ready}
use habs.Polkadot.Health.{is_service_ready_to_start, accept, judge, match_peers, match_syncing}
use habs.Orchestrator.Frames.{mode_of}
use habs.Orchestrator.Safety.{AllChecks, active_iff_AllChecks}
use habs.Orchestrator.Waiting.{attempts, counted, unknown_leader_displaced, alive_leader_kept}
use habs.Orchestrator.Patience.{checks, waited, NeverReady, unready_active_disabled, ready_enables}

passive_not_active : ◌≢◌ {A = String} "passive" "active"
passive_not_active = ground (arith, eq_iff "passive" "active")

active_iff_AllChecks_example :
    (mode_of (orchestrate_operator_service env (node_in "passive", tt)).1 ≡ "active")
    ↔ AllChecks env (node_in "passive", tt)
active_iff_AllChecks_example =
    active_iff_AllChecks env (node_in "passive", tt) refl passive_not_active

abbrev alice : Orchestrator × World
alice = (node_in "passive", tt)

carol_found : get_heartbeat "carol" alice.0.heartbeats ≡ some (seen_at 19)
unfolding get_heartbeat Heartbeats.get
carol_found = refl

best_read : (w : World) → (get_best_number env w).0 ≡ ok (num 20)
unfolding get_best_number parse_int
best_read w = refl

carol_alive : is_alive alice.0.alive_time (num 20) (seen_at 19) ≡ true
unfolding is_alive minus
carol_alive = refl

alive_leader_kept_example :
    other_leader_action env "carol" alice ≡ (ok false, (alice.0, (get_best_number env tt).1))
alive_leader_kept_example =
    alive_leader_kept env "carol" (seen_at 19) (num 20) alice carol_found (best_read tt) carol_alive

dave_unknown : known_block (get_heartbeat "dave" alice.0.heartbeats) ≡ none
unfolding get_heartbeat Heartbeats.get
dave_unknown = refl

unknown_leader_displaced_example :
    (5 + 0 < 5
      → other_leader_action env "dave" (attempts env 5 "dave" alice)
        ≡ (ok false, counted env 6 alice))
    × (5 + 0 ≡ 5
        → other_leader_action env "dave" (attempts env 5 "dave" alice)
          ≡ become_leader env "dave" (record (alice.0) { no_liveness_from_leader = 0 }, tt))
unknown_leader_displaced_example = unknown_leader_displaced env 5 "dave" alice dave_unknown

heartbeats_nodup : NodupKeys heartbeats.heartbeats
unfolding Heartbeats.get
heartbeats_nodup = (refl, (refl, (refl, tt)))

get_heartbeat-add_heartbeat_example :
    let after = Heartbeats.add_heartbeat "bob" (text "1") (text "2") (text "21") heartbeats in
    (get_heartbeat "bob" after ≡ some (stored "bob" (text "1") (text "2") (text "21") heartbeats))
    × (◌≢◌ {A = String} "bob" "carol"
        → get_heartbeat "carol" after ≡ get_heartbeat "carol" heartbeats)
    × NodupKeys after.heartbeats
get_heartbeat-add_heartbeat_example =
    get_heartbeat-add_heartbeat "bob" "carol" (text "1") (text "2") (text "21") heartbeats
      heartbeats_nodup

-- A chain that has seen block 20 once.
abbrev at_twenty : Chain × World
at_twenty = (record Chain.new { last_block_number = num 20 }, tt)

stuck_chain_noticed_example :
    (chain_moving_forward env (polls env 9 at_twenty)).0 ≡ ok (ltb (9 + 1) 10)
stuck_chain_noticed_example = stuck_chain_noticed env 9 (num 20) at_twenty best_read (refl, refl)

fresh_block_counts :
    ((chain_moving_forward env (Chain.new, tt)).0 ≡ ok true)
    × ((chain_moving_forward env (Chain.new, tt)).1.0.last_block_accumulator ≡ 0)
    × ((chain_moving_forward env (Chain.new, tt)).1.0.last_block_number ≡ num 20)
fresh_block_counts = new_block_resets env (num 20) (Chain.new, tt) best_read refl

settle_iff_Confirmed_example :
    (settle "NewLeader" confirmed ≡ some true) ↔ Confirmed "NewLeader" confirmed
settle_iff_Confirmed_example = settle_iff_Confirmed "NewLeader" confirmed

transactions_true_example :
    ((set_leader env "bob" (num 1) "alice" at_twenty).0 ≡ ok true
      → ((can_send_transactions env at_twenty).0 ≡ ok true)
        × WasSent env "NewLeader" (Call.set_leader "bob" (num 1)) "alice")
    × ((add_heartbeat env "passive" "alice" (num 1) at_twenty).0 ≡ ok true
        → ((can_send_transactions env at_twenty).0 ≡ ok true)
          × WasSent env "NewHeartbeat"
              (Call.add_heartbeat (num 1) (from_mode_to_node_status "passive"))
              "alice")
    × ((give_up_leadership env (num 1) "alice" at_twenty).0 ≡ ok true
        → ((can_send_transactions env at_twenty).0 ≡ ok true)
          × WasSent env "GiveUpLeader" (Call.give_up_leadership (num 1)) "alice")
transactions_true_example = transactions_true env "bob" "passive" "alice" (num 1) at_twenty

abbrev idle : Orchestrator × World
idle = (record (node_in "none") { node_role = "noservice" }, tt)

-- A world in which the node of the service does not answer.
abbrev silent : Env World
silent = env_with none

abbrev active_alice : Orchestrator × World
active_alice = (node_in "active", tt)

silent-NeverReady : NeverReady silent active_alice.0.service
unfolding service_ready is_service_ready_to_start accept
silent-NeverReady w = refl

unready_active_disabled_example :
    (30 + 0 < 30
      → ((service_readiness_management silent (checks silent 30 active_alice)).0 ≡ ok true)
        × ((checks silent 31 active_alice).0 ≡ waited silent 31 active_alice.0))
    × (30 + 0 ≡ 30
        → ((service_readiness_management silent (checks silent 30 active_alice)).0 ≡ ok false)
          × ((checks silent 31 active_alice).0.heartbeat_send_enabled ≡ false))
unready_active_disabled_example =
    unready_active_disabled silent 30 active_alice silent-NeverReady refl

alice_ready : (service_ready env (alice.0.service, alice.1)).0 ≡ ok true
unfolding service_ready is_service_ready_to_start accept judge includes match_peers parse_int
    match_syncing
alice_ready = refl

alice_enabled :
    ((service_readiness_management env alice).0 ≡ ok true)
    × ((service_readiness_management env alice).1.0.no_ready_count ≡ 0)
    × ((service_readiness_management env alice).1.0.heartbeat_send_enabled ≡ true)
alice_enabled = ready_enables env alice alice_ready
