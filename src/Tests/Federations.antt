-- ===== src/Tests/Federations.antt =====
-- Two nodes of one group: alice launches in active mode as the leader, bob then takes the
-- leadership and launches too, and alice has not read the event yet.
use habs.Base.{
  ◌≡◌, ◌≢◌, ◌⊎◌, inr, refl, ◌∙◌, ap, sym, String, Option, some, [], ◌∷◌, arith, eq_iff, pure, ok,
  false, ◌==◌, parse_int, minus, find?, ends_with, includes, show_nat, split, starts_with,
}
use habs.Env.{Env}
use habs.Tests.Fixtures.{World, env, node_in, node_api, seen_at}
use habs.Utils.{get_keys_from_seed, format_option_cmds, format_option_list, is_empty_string}
use habs.Chain.{
  can_send_transactions, is_connected, chain_moving_forward, get_best_number, note_block,
  get_best_number_finalized, check_health, get_peer_number, get_sync_state, get_leader,
  is_leaded_group,
}
use habs.Heartbeats.{any_one_alive, is_alive, alive_loop}
use habs.Orchestrator.Readiness.{service_readiness_management, note_ready}
use habs.Orchestrator.Leadership.{leadership_management}
use habs.Orchestrator.State.{service_start}
use habs.Polkadot.Health.{
  is_service_ready_to_start, accept, accept_verdict, ask_health, judge, match_peers, match_syncing,
  strip_prefix, take_digits,
}
use habs.Polkadot.Keys.{
  check_key_added, check_session_keys_on_node, contains, import_all, import_key, import_missing,
  insert_key, polkadot_keys_import, rpc_url,
}
use habs.Polkadot.Launch.{
  common_options, prepare_and_start, prepare_service, start, start_as, start_service_container,
}
use habs.Docker.{
  create_volume, get_container, get_image, get_mount, get_volume, have_image, is_called,
  is_container_running, pull_image, remove_container, start_container, start_found,
}
use habs.Heartbeats.{Heartbeats}
use habs.Service
use habs.Pallet.{signed, account_or, set_leader, genesis, set_leader_call, execute}
use habs.Orchestrator.State.{Orchestrator}
use habs.Orchestrator.Identity.{orchestrate_service-identity}
use habs.Orchestrator.Decision.{
  orchestrate_service, orchestrate_operator_service, go_active, go_passive, lead_if_allowed,
}
use habs.Federation.{
  Federation, IsActive, ReadsPallet, call, orchestrate, Reach, here, next, after_call,
  after_orchestrate,
}
use habs.Federation.Exclusion.{Pending}
use habs.Federation.Reachable.{at_most_one_active}

-- The outside of a node that reads `leader`.
abbrev naming : String → Env World
naming leader = record env { api = record node_api { leaders = λ group. pure leader } }

abbrev everyone : Heartbeats
everyone = record { heartbeats = ("alice", seen_at 18) ∷ ("bob", seen_at 19) ∷ []; nodes = [] }

abbrev node : String → Orchestrator
node name = record (node_in "passive") { mnemonic = name; heartbeats = everyone }

abbrev at_start : Federation
at_start = record { nodes = node; pallet = genesis; unread = λ n. [] }

abbrev alice_leads : Federation
alice_leads = after_call "nobody" (signed "alice") (set_leader_call "alice" 1) at_start

abbrev alice_active : Federation
alice_active = after_orchestrate (naming "alice") tt "alice" alice_leads

abbrev bob_leads : Federation
bob_leads = after_call "nobody" (signed "bob") (set_leader_call "alice" 1) alice_active

abbrev both_active : Federation
both_active = after_orchestrate (naming "bob") tt "bob" bob_leads

run_alice : IsActive alice_active "alice"
unfolding Service.service_ready Service.service_start can_send_transactions is_connected
    chain_moving_forward get_best_number note_block get_best_number_finalized check_health
    get_peer_number get_sync_state get_leader is_leaded_group parse_int minus find? ends_with
    includes show_nat split starts_with any_one_alive is_alive alive_loop
    service_readiness_management note_ready orchestrate_service orchestrate_operator_service
    go_active go_passive lead_if_allowed leadership_management service_start get_keys_from_seed
    format_option_cmds format_option_list is_empty_string is_service_ready_to_start accept
    accept_verdict ask_health judge match_peers match_syncing strip_prefix take_digits
    check_key_added check_session_keys_on_node contains import_all import_key import_missing
    insert_key polkadot_keys_import rpc_url common_options prepare_and_start prepare_service start
    start_as start_service_container create_volume get_container get_image get_mount get_volume
    have_image is_called is_container_running pull_image remove_container start_container
    start_found
run_alice = refl

run_bob : IsActive both_active "bob"
unfolding Service.service_ready Service.service_start can_send_transactions is_connected
    chain_moving_forward get_best_number note_block get_best_number_finalized check_health
    get_peer_number get_sync_state get_leader is_leaded_group parse_int minus find? ends_with
    includes show_nat split starts_with any_one_alive is_alive alive_loop
    service_readiness_management note_ready orchestrate_service orchestrate_operator_service
    go_active go_passive lead_if_allowed leadership_management service_start get_keys_from_seed
    format_option_cmds format_option_list is_empty_string is_service_ready_to_start accept
    accept_verdict ask_health judge match_peers match_syncing strip_prefix take_digits
    check_key_added check_session_keys_on_node contains import_all import_key import_missing
    insert_key polkadot_keys_import rpc_url common_options prepare_and_start prepare_service start
    start_as start_service_container create_volume get_container get_image get_mount get_volume
    have_image is_called is_container_running pull_image remove_container start_container
    start_found
run_bob = refl

ok_some : (a : String) (l : Option String) → ok (some a) ≡ ok l → l ≡ some a
ok_some a l h = ground arith

alice_told : alice_leads.pallet.leaders 1 ≡ some "alice"
unfolding execute set_leader
alice_told = refl

reads_alice : ReadsPallet "nobody" (naming "alice") tt "alice" alice_leads
unfolding get_keys_from_seed get_leader
reads_alice c g e =
    let one : g ≡ 1 = ground arith in
    let key : c.key ≡ "alice" = ground (arith, c.own_key) in
    (
      key,
      inr (
          ok_some "alice" c.allowed.last_check.leader c.allowed.last_check.answered
          ∙ rw one (ap some (sym (ap (account_or "nobody") alice_told)))),
    )

bob_told : bob_leads.pallet.leaders 1 ≡ some "bob"
unfolding execute set_leader
bob_told = refl

reads_bob : ReadsPallet "nobody" (naming "bob") tt "bob" bob_leads
unfolding get_keys_from_seed get_leader
reads_bob c g e =
    let one : g ≡ 1 = ground arith in
    let key : c.key ≡ "bob" = ground (arith, c.own_key) in
    (
      key,
      inr (
          ok_some "bob" c.allowed.last_check.leader c.allowed.last_check.answered
          ∙ rw one (ap some (sym (ap (account_or "nobody") bob_told)))),
    )

differ : (a b : String) → (a == b) ≡ false → a ≢ b
differ a b h e = ground (arith, eq_iff a b)

both_reached : Reach "nobody" World at_start both_active
both_reached =
    next
      (next
        (next (next here (call (signed "alice") (set_leader_call "alice" 1))) (
          orchestrate (naming "alice") tt "alice" (differ "alice" "false" refl)
            (differ "alice" "nobody" refl) (differ "orchestrator" "active" refl) reads_alice))
        (call (signed "bob") (set_leader_call "alice" 1)))
      (orchestrate (naming "bob") tt "bob" (differ "bob" "false" refl) (differ "bob" "nobody" refl)
        (differ "orchestrator" "active" refl) reads_bob)

same_group :
    (e : Env World) (s : Orchestrator × World)
    → s.0.service_mode ≢ "active"
    → (orchestrate_service e s).1.0.group ≡ s.0.group
same_group e s free = ap (λ i. i.1) (orchestrate_service-identity e s)

at_most_one_active_example : Pending both_active "alice" ⊎ Pending both_active "bob"
at_most_one_active_example =
    at_most_one_active at_start both_active (λ n. differ "passive" "active" refl) both_reached
      "alice" "bob" 1 run_alice run_bob
      (same_group (naming "alice") (node "alice", tt) (differ "orchestrator" "active" refl))
      (same_group (naming "bob") (node "bob", tt) (differ "orchestrator" "active" refl))
      (differ "alice" "bob" refl)
