-- ===== src/Tests/Requests.antt =====
-- The request that starts the service in active mode.
use habs.Polkadot.Keys
use habs.Docker
use habs.Orchestrator.State
use habs.Polkadot.Launch
use habs.Service
use habs.Base.{find?}
use habs.Base.{minus, parse_int}
use habs.Chain
use habs.Orchestrator.Leadership
use habs.Routes
use habs.Routes.Requests
use habs.Utils
use habs.Base.{◌==◌, ◌≡◌, refl, some, true, eq_iff, arith, pure}
use habs.Env.{Env}
use habs.Tests.Fixtures.{World, env, node_api, node_in}
use habs.Orchestrator.Frames.{mode_of}
use habs.Routes.Requests.{Request, post, handle}
use habs.Routes.Requests.Active.{active_by_request}

-- The chain names alice.
abbrev alice_leads : Env World
alice_leads = record env { api = record node_api { leaders = λ group. pure "alice" } }

abbrev start_active : Request
start_active = record { method = post; path = "/service/start"; mode = some "active" }

run_start :
    mode_of (handle alice_leads (λ a b. a == b) (λ l. l) start_active (node_in "passive", tt)).1
    ≡ "active"
unfolding Chain.can_send_transactions Chain.chain_moving_forward Chain.get_best_number
    Chain.get_leader Chain.is_connected Chain.is_leaded_group Chain.note_block Chain.set_leader
    Leadership.become_leader Leadership.force_active Requests.endpoint_of Routes.post_service_start
    Routes.route_service_start Routes.serve Utils.get_keys_from_seed Utils.is_empty_string minus
    parse_int find? Docker.create_volume Docker.get_container Docker.get_image Docker.get_mount
    Docker.get_volume Docker.have_image Docker.is_container_running Docker.start_container
    State.service_start Launch.prepare_and_start Launch.prepare_service Launch.start Launch.start_as
    Launch.start_service_container Service.service_start Keys.polkadot_keys_import Requests.handle
run_start = refl

active_by_request_example :
    (start_active.method ≡ post)
    × ((start_active.path == "/service/start") ≡ true)
    × (start_active.mode ≡ some "active")
active_by_request_example =
    active_by_request alice_leads (λ a b. a == b) (λ l. l) start_active (node_in "passive", tt)
      (λ e. absurd (ground (arith, eq_iff "passive" "active", e))) run_start
