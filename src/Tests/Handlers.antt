-- ===== src/Tests/Handlers.antt =====
-- Runs of the process's handlers, the HTTP API and the utilities on the states of
-- Tests/Fixtures.antt.
use habs.Base.{
  ◌≡◌, refl, String, true, List, [], ◌∷◌, ok, length, get_elem?, some, eq_iff, arith, Bool, false,
  none, All, ap, sym, false≢true, ◌≢◌, ◌==◌, ℕ, ◌+◌, ◌<>◌, split, show_nat, show,
}
use mathlib.Core.List.Memᴰ
use habs.Env.{Event}
use habs.Tests.Fixtures.{World, env, node_in, new_leader}
use habs.Utils.{construct_nodes_list}
use habs.Utils.Options.{construct_nodes_list_lem, format_options_lem, with_option}
use habs.Utils.{format_option_list, format_option_cmds}
use habs.Orchestrator.State.{Orchestrator}
use habs.Orchestrator.Decision.{orchestrate_service}
use habs.Orchestrator.Frames.{mode_of}
use habs.Routes.{
  response, error_handler, serve, get_orchestration_disable, get_heartbeats_disable,
  get_heartbeats_enable,
}
use habs.App.{listen_events, heartbeat_tick}
use habs.App.Events.{SomeTakes, listen_events-mode_of}
use habs.App.Actions.{Action, Avoids, beat, orchestrate, read_events, receive, run}
use habs.Routes.Requests.{
  Endpoint, get, service_stop, orchestration_enable, heartbeats_enable, endpoint_of, get_endpoint,
}
use habs.App.Switches.{orchestration_disabled, heartbeats_disabled}

-- The node of bob, in active mode, when alice takes the leadership of group 1.
abbrev active : Orchestrator × World
active = (node_in "active", tt)

abbrev block : List Event
block = new_leader ∷ []

-- The node of bob is told, and the one of alice is not.
listen_events-mode_of_example :
    (SomeTakes "bob" active.0 block → mode_of (listen_events env "bob" block active).1 ≡ "passive")
    × (¬ SomeTakes "bob" active.0 block
        → mode_of (listen_events env "bob" block active).1 ≡ "active")
listen_events-mode_of_example = listen_events-mode_of env "bob" block active refl

alice_takes_it : SomeTakes "bob" active.0 block
unfolding show show_nat
alice_takes_it = (
  new_leader,
  Memᴰ.head refl,
  record {
    section = refl;
    method = refl;
    account = λ same. absurd (ground (arith, (eq_iff "alice" "bob").1 same));
    group = refl;
  },
)

bob_steps_down : mode_of (listen_events env "bob" block active).1 ≡ "passive"
bob_steps_down = listen_events-mode_of_example.0 alice_takes_it

-- What a node does while its orchestration is off, and then its heartbeats.
abbrev quiet_hour : List Action
quiet_hour =
    orchestrate
    ∷ receive (record { method = get; path = "/service/stop"; mode = none })
    ∷ read_events "bob" block
    ∷ beat
    ∷ []

avoided_stop : (e : Endpoint) → service_stop ≢ e → All (Avoids (λ a b. a == b) e) quiet_hour
unfolding endpoint_of get_endpoint
avoided_stop e other = (tt, (other, (tt, (tt, tt))))

stops : Endpoint → Bool
stops service_stop = true
stops _ = false

orchestration_disabled_example :
    let after = (serve (get_orchestration_disable env) active).1 in
    (mode_of after ≡ "passive")
    × ((actions : List Action)
        → All (Avoids (λ a b. a == b) orchestration_enable) actions
        → let later = run env (λ a b. a == b) (λ l. l) actions after in
          (orchestrate_service env later ≡ (ok tt, later))
          × (serve (get_orchestration_disable env) later
              ≡ (error_handler "Orchestration is already disabled.", later)))
orchestration_disabled_example =
    orchestration_disabled env (λ a b. a == b) (λ l. l) active refl refl

quiet_orchestration :
    let later =
      run env
        (λ a b. a == b)
        (λ l. l)
        quiet_hour
        (serve (get_orchestration_disable env) active).1 in
    orchestrate_service env later ≡ (ok tt, later)
unfolding stops
quiet_orchestration =
    (orchestration_disabled_example.1 quiet_hour
      (avoided_stop orchestration_enable λ e. false≢true (sym (ap stops e)))).0

heartbeats_disabled_example :
    let after = (serve (get_heartbeats_disable env) active).1 in
    ((serve (get_heartbeats_disable env) active).0
      ≡ response 200 "Success! Heartbeats send was disabled.")
    × (serve (get_heartbeats_enable env) after
        ≡ (response 200 "Success! Heartbeats send was enabled.", active))
    × ((actions : List Action)
        → All (Avoids (λ a b. a == b) heartbeats_enable) actions
        → let later = run env (λ a b. a == b) (λ l. l) actions after in
          (heartbeat_tick env later ≡ (ok tt, later))
          × (serve (get_heartbeats_disable env) later
              ≡ (error_handler "Heartbeats send is already disabled.", later)))
heartbeats_disabled_example = heartbeats_disabled env (λ a b. a == b) (λ l. l) active refl

options_of_two :
    (format_option_list "--reserved-nodes" "a,b" ≡ with_option "--reserved-nodes" (split 44 "a,b"))
    × (format_option_cmds "a,b" ≡ split 32 "a,b")
options_of_two = format_options_lem "--reserved-nodes" "a,b"

two_nodes_listed :
    (length (construct_nodes_list "alice,bob" "habs") ≡ length (split 44 "alice,bob"))
    × ((i : ℕ) (wallet : String)
        → get_elem? (split 44 "alice,bob") i ≡ some wallet
        → get_elem? (construct_nodes_list "alice,bob" "habs") i
          ≡ some (record { wallet = wallet; name = "habs" <> "-NODE-" <> show_nat (i + 1) }))
two_nodes_listed = construct_nodes_list_lem "alice,bob" "habs" refl refl
