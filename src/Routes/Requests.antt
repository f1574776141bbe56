-- ===== src/Routes/Requests.antt =====
-- The requests of the HTTP API: the table of `initApi` in orchestrator/src/api.js with the routes of
-- orchestrator/src/routes. How
-- Express matches a path is a parameter: `takes path declared` says whether it takes the path of a
-- request for one that the program declares (it ignores the case of letters and a slash at the
-- end). Left out is what else Express does itself: the answer to OPTIONS, and the refusal of a
-- body that is not JSON.
pub mod Active
use habs.Base.{
  List, Bool, String, Option, none, some, Result, ok, err, pending, Exec, if◌then◌else◌, ◌==◌,
}
use habs.Heartbeats.Listing.{Listed}
use habs.Env.{Env}
use habs.Orchestrator.State.{Orchestrator}
use habs.Orchestrator.Info.{OrchestratorInfo, get_orchestrator_info}
use habs.Routes.{
  Response, response, no_response, get404, error_handler, serve, get_heartbeats_disable,
  get_heartbeats_enable, get_orchestration_disable, get_orchestration_enable, post_service_start,
  get_service_stop,
}

-- `get` is GET, and HEAD, for which Express runs the same handlers.
pub data Method : Type 0 where
  get post other_method : Method

-- A request, with the field `mode` of its body.
pub record Request : Type 0 where
  pub method : Method
  pub path : String
  pub mode : Option String

pub data Endpoint : Type 0 where
  main_page heartbeats_disable heartbeats_enable orchestration_disable orchestration_enable :
      Endpoint
  service_start_in : Option String → Endpoint
  service_stop : Endpoint
  not_found : Endpoint

unfoldable pub get_endpoint : (String → String → Bool) → String → Endpoint
get_endpoint takes path =
    if takes path "/"
    then main_page
    else if takes path "/heartbeats/disable"
    then heartbeats_disable
    else if takes path "/heartbeats/enable"
    then heartbeats_enable
    else if takes path "/orchestration/disable"
    then orchestration_disable
    else if takes path "/orchestration/enable"
    then orchestration_enable
    else if takes path "/service/stop"
    then service_stop
    else not_found

unfoldable pub endpoint_of : (String → String → Bool) → Method → String → Option String → Endpoint
unfolding get_endpoint
endpoint_of takes get path mode = get_endpoint takes path
endpoint_of takes post path mode =
    if takes path "/service/start" then service_start_in mode else not_found
endpoint_of takes other_method path mode = not_found

abbrev pub endpoint : (String → String → Bool) → Request → Endpoint
endpoint takes r = endpoint_of takes r.method r.path r.mode

-- The info of the main page has the status 200 too.
pub data Reply : Type 0 where
  reply : Response → Reply
  info : OrchestratorInfo → Reply

abbrev pub info_reply : Result OrchestratorInfo → Reply
info_reply (ok i) = info i
info_reply (err e) = reply (error_handler e)
info_reply pending = reply no_response

module _ {W : Type 0} (env : Env W) (takes : String → String → Bool)
    (sort_by_name : List Listed → List Listed) where
  -- GET /
  unfoldable pub get_main_page : Orchestrator × W → Reply × (Orchestrator × W)
  get_main_page s = let (r, s') = get_orchestrator_info env sort_by_name s in (info_reply r, s')

  unfoldable pub served :
      Exec (Orchestrator × W) String → Orchestrator × W → Reply × (Orchestrator × W)
  served handler s = let (r, s') = serve handler s in (reply r, s')

  unfoldable pub answer : Endpoint → Orchestrator × W → Reply × (Orchestrator × W)
  unfolding served
  answer main_page s = get_main_page s
  answer heartbeats_disable s = served (get_heartbeats_disable env) s
  answer heartbeats_enable s = served (get_heartbeats_enable env) s
  answer orchestration_disable s = served (get_orchestration_disable env) s
  answer orchestration_enable s = served (get_orchestration_enable env) s
  answer (service_start_in mode) s = served (post_service_start env mode) s
  answer service_stop s = served (get_service_stop env) s
  answer not_found s = (reply get404, s)

  -- A request to the server
  unfoldable pub handle : Request → Orchestrator × W → Reply × (Orchestrator × W)
  unfolding answer
  handle request s = answer (endpoint takes request) s
