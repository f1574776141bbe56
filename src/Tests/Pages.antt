-- ===== src/Tests/Pages.antt =====
-- A session at the dashboard.
use habs.Chain
use habs.Orchestrator.Info
use habs.Routes.Requests
use habs.Utils
use habs.Base.{parse_int}
use habs.Base.{minus, show, show_nat}
use habs.Base.{
  ◌≡◌, ◌≢◌, inl, refl, String, Bool, true, false, Option, none, some, [], ◌∷◌, eq_iff, arith, ok,
  Exec, num, ◌==◌, if◌then◌else◌, sym, false≢true,
}
use habs.Tests.Fixtures.{World, env, node_in, heartbeats}
use habs.Heartbeats.{number}
use habs.Heartbeats.Listing.{get_all_heartbeats}
use habs.Orchestrator.Info.{OrchestratorInfo}
use habs.Page.Truth.{switches_shown}
use habs.Page.{data_of, get_of, enable_orchestration, enable_heartbeats, ask_heartbeats}
use habs.Routes.Requests.{info}
use habs.Orchestrator.State.{Orchestrator}
use habs.Orchestrator.Frames.{mode_of}
use habs.Routes.Requests.{Request, handle}
use habs.Page.{
  PageData, Page, no_fields, open_page, start_passive, confirm_stop, ask_orchestration,
  confirm_orchestration, press, shown,
}
use habs.Page.Rows.{row}
use habs.Page.Session.{Session, opened, pressed, orchestration_off, asked, dangerous_asked}
use habs.Page.Passive.{presses, page_stays_idle}

abbrev page : Page
page = open_page "http://localhost:3000" none

-- A node that only tells whether its orchestration was switched off.
abbrev switch : String → Request → Exec Bool (Unit {0})
switch u r off = (ok tt, if r.path == "/orchestration/disable" then true else off)

abbrev data_on : Option PageData
data_on = some (record no_fields { orchestration_enabled = some true })

abbrev asking : Page × Bool
asking = (record page { warning_orchestrator_popup = true }, false)

asked_first : Session switch "http://localhost:3000" (ask_orchestration ∷ []) asking
unfolding press shown
asked_first = pressed data_on ask_orchestration (opened none false) refl

switch_harmless :
    (r : Request) (off : Bool)
    → (r.path == "/orchestration/disable") ≡ false
    → (if r.path == "/orchestration/disable" then true else off) ≡ off
switch_harmless r off e = rw e refl

dangerous_asked_example : asked orchestration_off (ask_orchestration ∷ []) ≡ true
unfolding shown press
dangerous_asked_example =
    dangerous_asked switch (λ off. off) orchestration_off data_on confirm_orchestration
      (λ u r e off. switch_harmless r off e) asked_first refl (λ e. false≢true (sym e))

-- The node serves the page.
abbrev serving : String → Request → Exec (Orchestrator × World) (Unit {0})
serving u r s = (ok tt, (handle env (λ a b. a == b) (λ l. l) r s).1)

page_stays_idle_example :
    mode_of (presses serving (confirm_stop ∷ start_passive ∷ []) (page, (node_in "none", tt))).1
    ≢ "active"
page_stays_idle_example =
    page_stays_idle env (λ a b. a == b) (λ l. l) serving (λ u r s. inl refl)
      (confirm_stop ∷ start_passive ∷ []) (page, (node_in "none", tt))
      (λ e. absurd (ground (arith, eq_iff "none" "active", e)))

-- The text of the age of a heartbeat has no space.
seen_recently :
    (row
      (record no_fields { best_number = some (num 20) })
      (record {
        wallet = "alice";
        name = "a";
        group = number (num 1);
        node_status = number (num 1);
        block_number = num 17;
      })).last_heartbeat
    ≡ "3Blocks Ago"
unfolding minus show show_nat row
seen_recently = refl

abbrev quiet_node : Orchestrator
quiet_node = record (node_in "none") { node_role = "noservice"; orchestration_enabled = false }

abbrev quiet_info : OrchestratorInfo
quiet_info = record {
  orchestrator_address = "alice";
  archipel_name = "test-archipel";
  is_connected = true;
  peer_id = some "peer";
  peer_number = num 3;
  best_number = num 20;
  best_number_finalized = num 18;
  synch_state = some false;
  leader = some "bob";
  orchestration_enabled = false;
  heartbeat_send_enabled_admin = true;
  heartbeat_send_enabled = true;
  heartbeats = get_all_heartbeats (λ l. l) heartbeats;
  service_info = none;
}

quiet_answer :
    (handle env (λ a b. a == b) (λ l. l) (get_of "/") (quiet_node, tt)).0 ≡ info quiet_info
unfolding parse_int Chain.get_best_number Chain.get_best_number_finalized Chain.get_leader
    Chain.get_peer_id Chain.get_peer_number Chain.get_sync_state Chain.is_connected
    Info.get_orchestrator_info Requests.endpoint_of Requests.get_main_page Requests.handle
    Utils.get_keys_from_seed
quiet_answer = refl

switches_shown_example :
    let d = data_of (info quiet_info) in
    (shown d page enable_orchestration ≡ true)
    × (shown d page ask_orchestration ≡ false)
    × (shown d page enable_heartbeats ≡ false)
    × (shown d page ask_heartbeats ≡ true)
switches_shown_example =
    switches_shown env (λ a b. a == b) (λ l. l) refl (quiet_node, tt) quiet_info page quiet_answer
