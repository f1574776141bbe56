-- ===== src/Routes/Requests/Active.antt =====
-- Which requests can start the service in active mode.
use habs.Base.{
  List, ◌≡◌, ◌≢◌, ◌∙◌, ap, sym, String, Bool, true, false, Option, none, some, arith, eq_iff, inl,
  inr, Bool-cases, ◌==◌,
}
use habs.Heartbeats.Listing.{Listed}
use habs.Env.{Env}
use habs.Utils.{is_empty_string}
use habs.Orchestrator.State.{Orchestrator, service_start, service_clean_up}
use habs.Orchestrator.Frames.{mode_of, service_start_mode}
use habs.Orchestrator.Reading.{get_orchestrator_info-orchestrator}
use habs.Routes.{
  serve, disable_heartbeats, enable_heartbeats, disable_orchestration, enable_orchestration,
  get_heartbeats_disable, get_heartbeats_enable, get_orchestration_disable,
  get_orchestration_enable, post_service_start, get_service_stop, route_service_start,
}
use habs.Routes.Requests.{
  get_endpoint, endpoint_of, Method, Endpoint, Request, endpoint, answer, served, handle,
  get_main_page, main_page, heartbeats_disable, heartbeats_enable, orchestration_disable,
  orchestration_enable, service_start_in, service_stop, not_found, get, post, other_method,
}
use habs.Service

module _ {W : Type 0} (env : Env W) (takes : String → String → Bool)
    (sort_by_name : List Listed → List Listed) where
  abbrev NotActive : Orchestrator × W → Type 0
  NotActive s = mode_of s ≢ "active"

  start_other :
      (mode : String) (s : Orchestrator × W)
      → (mode == "active") ≡ false
      → NotActive s
      → NotActive (serve (post_service_start env (some mode)) s).1
  unfolding serve post_service_start route_service_start is_empty_string
  start_other mode s other idle a =
      ground (arith, other, idle, service_start_mode env "passive" s, eq_iff "passive" "active")

  start_none :
      (s : Orchestrator × W) → NotActive s → NotActive (serve (post_service_start env none) s).1
  unfolding serve post_service_start route_service_start is_empty_string
  start_none s idle a = idle (ground arith)

  disable_idle :
      (s : Orchestrator × W) → NotActive s → NotActive (serve (get_orchestration_disable env) s).1
  unfolding serve get_orchestration_disable disable_orchestration service_start
      Service.service_start
  disable_idle s idle a = ground (arith, idle, eq_iff "passive" "active")

  stop_mode : (s : Orchestrator × W) → mode_of (serve (get_service_stop env) s).1 ≡ mode_of s
  unfolding serve get_service_stop service_clean_up Service.service_clean_up
  stop_mode s = ground arith

  switch_modes :
      (s : Orchestrator × W)
      → (mode_of (serve (get_heartbeats_disable env) s).1 ≡ mode_of s)
        × (mode_of (serve (get_heartbeats_enable env) s).1 ≡ mode_of s)
        × (mode_of (serve (get_orchestration_enable env) s).1 ≡ mode_of s)
  unfolding serve get_heartbeats_disable disable_heartbeats get_heartbeats_enable enable_heartbeats
      get_orchestration_enable enable_orchestration
  switch_modes s = ground arith

  abbrev starts_active : Endpoint → Bool
  starts_active (service_start_in (some mode)) = mode == "active"
  starts_active _ = false

  answer-NotActive :
      (e : Endpoint) (s : Orchestrator × W)
      → starts_active e ≡ false
      → NotActive s
      → NotActive (answer env takes sort_by_name e s).1
  unfolding answer served get_main_page
  answer-NotActive main_page s h idle a =
      idle
        (ap (λ o. o.service.mode) (sym (get_orchestrator_info-orchestrator env sort_by_name s)) ∙ a)
  answer-NotActive heartbeats_disable s h idle a = idle (sym (switch_modes s).0 ∙ a)
  answer-NotActive heartbeats_enable s h idle a = idle (sym (switch_modes s).1 ∙ a)
  answer-NotActive orchestration_disable s h idle a = disable_idle s idle a
  answer-NotActive orchestration_enable s h idle a = idle (sym (switch_modes s).2 ∙ a)
  answer-NotActive (service_start_in none) s h idle a = start_none s idle a
  answer-NotActive (service_start_in (some mode)) s h idle a = start_other mode s h idle a
  answer-NotActive service_stop s h idle a = idle (sym (stop_mode s) ∙ a)
  answer-NotActive not_found s h idle a = idle a

  get-starts_nothing : (path : String) → starts_active (get_endpoint takes path) ≡ false
  unfolding get_endpoint
  get-starts_nothing path = ground arith

  endpoint-starts :
      (method : Method) (path : String) (mode : Option String)
      → starts_active (endpoint_of takes method path mode) ≡ true
      → (method ≡ post) × (takes path "/service/start" ≡ true) × (mode ≡ some "active")
  unfolding endpoint_of
  endpoint-starts get path mode h = absurd (ground (arith, h, get-starts_nothing path))
  endpoint-starts post path none h = absurd (ground arith)
  endpoint-starts post path (some mode) h = ground (arith, eq_iff mode "active")
  endpoint-starts other_method path mode h = absurd (ground arith)

  -- Of all requests, of any method and path, only a POST of a path that Express takes for
  -- /service/start, with the mode `active`, can turn a service that is not in active mode into one
  -- that is.
  pub active_by_request :
      (r : Request) (s : Orchestrator × W)
      → mode_of s ≢ "active"
      → mode_of (handle env takes sort_by_name r s).1 ≡ "active"
      → (r.method ≡ post) × (takes r.path "/service/start" ≡ true) × (r.mode ≡ some "active")
  unfolding handle
  active_by_request r s idle a = elim (Bool-cases (starts_active (endpoint takes r))) [
    | inl starts ↦ endpoint-starts r.method r.path r.mode starts
    | inr other ↦ absurd (answer-NotActive (endpoint takes r) s other idle a)
  ]
