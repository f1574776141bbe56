-- ===== src/Page.antt =====
-- The dashboard, ui/src/ArchipelModule.js: what its controls are, when the page shows them, and what
-- they do. React, the fetching of `useSWR` and the layout are not modelled; the answer of the node
-- that the page shows last is an argument.
pub mod Rows
pub mod Session
pub mod Passive
pub mod Truth
use habs.Base.{
  ℕ, String, Bool, true, false, not, ◌&&◌, ◌||◌, Option, none, some, List, [], ◌∷◌, if◌then◌else◌,
  ◌==◌, ◌<>◌, is_empty, Number, nan, num, minus, same, show, show_nat, parse_int, Result, ok, err,
  pending, Exec, pure, gets, modify, zoom, detach, recover, ◌>>=◌, ◌>>◌,
}
use habs.Heartbeats.{Value, text, number}
use habs.Heartbeats.Listing.{Listed}
use habs.Service.{ServiceInfo}
use habs.Orchestrator.Info.{OrchestratorInfo}
use habs.Routes.{Response, response, no_response}
use habs.Routes.Requests.{Method, get, post, Request, Reply, reply, info}

-- The JSON object that a node answers GET / with, as far as the page reads it. A field that the
-- answer does not have is `none`.
pub record PageData : Type 0 where
  pub status : Option String
  pub heartbeats : Option (List Listed)
  pub best_number : Option Number
  pub leader : Option String
  pub orchestrator_address : Option String
  pub orchestration_enabled : Option Bool
  pub heartbeat_send_enabled_admin : Option Bool
  pub service_container : Option String
  pub service_mode : Option String

-- The object of an error, which has none of the fields.
abbrev pub no_fields : PageData
no_fields = record {
  status = none;
  heartbeats = none;
  best_number = none;
  leader = none;
  orchestrator_address = none;
  orchestration_enabled = none;
  heartbeat_send_enabled_admin = none;
  service_container = none;
  service_mode = none;
}

abbrev container_of : Option ServiceInfo → Option String
container_of none = none
container_of (some s) = some s.service_container

abbrev mode_of_service : Option ServiceInfo → Option String
mode_of_service none = none
mode_of_service (some s) = some s.service_mode

-- `data` after an answer
unfoldable pub data_of : Reply → Option PageData
data_of (reply no_response) = none
data_of (reply (response code message)) = some no_fields
data_of (info i) = some (record {
  status = some "200";
  heartbeats = some i.heartbeats;
  best_number = some i.best_number;
  leader = i.leader;
  orchestrator_address = some i.orchestrator_address;
  orchestration_enabled = some i.orchestration_enabled;
  heartbeat_send_enabled_admin = some i.heartbeat_send_enabled_admin;
  service_container = container_of i.service_info;
  service_mode = mode_of_service i.service_info;
})

-- The state of the component: `useState`, `useLocalStorage` and what `useAxios` says of its call.
pub record Page : Type 0 where
  pub default_url : String
  pub url_storage : Option String
  pub url : String
  pub warning_orchestrator_popup : Bool
  pub warning_heartbeat_popup : Bool
  pub warning_stop_service_container : Bool
  pub post_loading : Bool
  pub post_error : Option String

-- `urlSorage || defaultUrl`
abbrev stored_or : Option String → String → String
stored_or none default = default
stored_or (some url) default = if is_empty url then default else url

abbrev pub open_page : String → Option String → Page
open_page default_url url_storage = record {
  default_url = default_url;
  url_storage = url_storage;
  url = stored_or url_storage default_url;
  warning_orchestrator_popup = false;
  warning_heartbeat_popup = false;
  warning_stop_service_container = false;
  post_loading = false;
  post_error = none;
}

-- What the operator can press. A switch that is on asks first, and its dialog has two buttons.
pub data Control : Type 0 where
  apply_url : String → Control
  reset_url : Control
  enable_orchestration ask_orchestration confirm_orchestration cancel_orchestration : Control
  enable_heartbeats ask_heartbeats confirm_heartbeats cancel_heartbeats : Control
  ask_stop confirm_stop cancel_stop : Control
  start_passive : Control

abbrev is_false : Option Bool → Bool
is_false none = false
is_false (some b) = not b

abbrev pub is_text : Option String → String → Bool
is_text none t = false
is_text (some s) t = s == t

-- Which controls the page has, for an answer and a state of the component. With an error as answer the
-- switches show as on, since a missing field is not `false`.
unfoldable pub shown : Option PageData → Page → Control → Bool
shown d p (apply_url url) = not (is_empty url)
shown d p reset_url = true
shown none p _ = false
shown (some d) p enable_orchestration = is_false d.orchestration_enabled
shown (some d) p ask_orchestration = not (is_false d.orchestration_enabled)
shown (some d) p confirm_orchestration =
    not (is_false d.orchestration_enabled) && p.warning_orchestrator_popup
shown (some d) p cancel_orchestration =
    not (is_false d.orchestration_enabled) && p.warning_orchestrator_popup
shown (some d) p enable_heartbeats = is_false d.heartbeat_send_enabled_admin
shown (some d) p ask_heartbeats = not (is_false d.heartbeat_send_enabled_admin)
shown (some d) p confirm_heartbeats =
    not (is_false d.heartbeat_send_enabled_admin) && p.warning_heartbeat_popup
shown (some d) p cancel_heartbeats =
    not (is_false d.heartbeat_send_enabled_admin) && p.warning_heartbeat_popup
shown (some d) p ask_stop =
    is_text d.service_container "active" || is_text d.service_container "passive"
shown (some d) p confirm_stop =
    (is_text d.service_container "active" || is_text d.service_container "passive")
    && p.warning_stop_service_container
shown (some d) p cancel_stop =
    (is_text d.service_container "active" || is_text d.service_container "passive")
    && p.warning_stop_service_container
shown (some d) p start_passive = not p.post_loading && is_text d.service_container "none"

abbrev pub get_of : String → Request
get_of path = record { method = get; path = path; mode = none }

abbrev pub start_request : Request
start_request = record { method = post; path = "/service/start"; mode = some "passive" }

-- What `useAxios` does with the end of its call, whose error it throws on.
abbrev settled : Result (Unit {0}) → Page → Page
settled (ok u) p = record p { post_loading = false; post_error = none }
settled (err e) p = record p { post_loading = false; post_error = some e }
settled pending p = p

abbrev close_orchestrator : Page → Page
close_orchestrator p = record p { warning_orchestrator_popup = false }

abbrev close_heartbeat : Page → Page
close_heartbeat p = record p { warning_heartbeat_popup = false }

abbrev close_stop : Page → Page
close_stop p = record p { warning_stop_service_container = false }

-- `fetch url request` sends the request to the node at the address.
module _ {W : Type 0} (fetch : String → Request → Exec W (Unit {0})) where
  abbrev set_page : (Page → Page) → Exec (Page × W) (Unit {0})
  set_page f = modify (λ s. (f s.0, s.1))

  abbrev pub send : Request → Exec (Page × W) (Unit {0})
  send request s = let (r, w) = fetch s.0.url request s.1 in (r, (s.0, w))

  abbrev pub revalidate : Exec (Page × W) (Unit {0})
  revalidate = detach (send (get_of "/"))

  unfoldable pub execute_service_start : Exec (Page × W) (Unit {0})
  execute_service_start s =
      let p = record (s.0) { post_loading = true; post_error = none } in
      let (r, w) = fetch p.url start_request s.1 in (r, (settled r p, w))

  -- The handler of a control
  unfoldable pub press : Control → Exec (Page × W) (Unit {0})
  press (apply_url url) = set_page λ p. record p { url = url; url_storage = some url }
  press reset_url = set_page λ p. record p { url = p.default_url; url_storage = none }
  press enable_orchestration = do send (get_of "/orchestration/enable"); revalidate
  press ask_orchestration = set_page λ p. record p { warning_orchestrator_popup = true }
  press confirm_orchestration = do
    send (get_of "/orchestration/disable")
    set_page close_orchestrator
    revalidate
  press cancel_orchestration = do set_page close_orchestrator; revalidate
  press enable_heartbeats = do send (get_of "/heartbeats/enable"); revalidate
  press ask_heartbeats = set_page λ p. record p { warning_heartbeat_popup = true }
  press confirm_heartbeats = do
    send (get_of "/heartbeats/disable")
    set_page close_heartbeat
    revalidate
  press cancel_heartbeats = do set_page close_heartbeat; revalidate
  press ask_stop = set_page λ p. record p { warning_stop_service_container = true }
  press confirm_stop = do send (get_of "/service/stop"); set_page close_stop; revalidate
  press cancel_stop = do set_page close_stop; revalidate
  press start_passive = do execute_service_start; revalidate
