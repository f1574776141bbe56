-- ===== src/Page/Session.antt =====
-- What an operator can do with the dashboard.
use habs.Base.{
  ◌≡◌, ◌≢◌, ◌⊎◌, inl, inr, refl, ◌∙◌, ap, sym, arith, String, Bool, true, false, Option, none, some,
  List, [], ◌∷◌, ◌==◌, Bool-cases, false≢true, Exec, Keeps, continue-Inv, ◌>>=◌,
}
use habs.Routes.Requests.{Request}
use habs.Page.{
  PageData, Page, Control, open_page, shown, press, send, execute_service_start, get_of,
  start_request, apply_url, reset_url, enable_orchestration, ask_orchestration,
  confirm_orchestration, cancel_orchestration, enable_heartbeats, ask_heartbeats,
  confirm_heartbeats, cancel_heartbeats, ask_stop, confirm_stop, cancel_stop, start_passive,
}

-- What a press of the control asks the node first, if anything.
abbrev pub request_of : Control → Option Request
request_of enable_orchestration = some (get_of "/orchestration/enable")
request_of confirm_orchestration = some (get_of "/orchestration/disable")
request_of enable_heartbeats = some (get_of "/heartbeats/enable")
request_of confirm_heartbeats = some (get_of "/heartbeats/disable")
request_of confirm_stop = some (get_of "/service/stop")
request_of start_passive = some start_request
request_of _ = none

-- A request that a press sends: its own, or the one that reads the info anew.
abbrev pub Sends : Control → Request → Type 0
Sends c r = (request_of c ≡ some r) ⊎ (r ≡ get_of "/")

module _ {ℓ} {W : Type 0} (fetch : String → Request → Exec W (Unit {0})) (P : W → Type ℓ) where
  abbrev Outside : Page × W → Type ℓ
  Outside s = P s.1

  send_then :
      (c : Control) (r : Request) (f : Unit {0} → Exec (Page × W) (Unit {0})) (s : Page × W)
      → ((u : String) (r : Request) (w : W) → Sends c r → P w → P (fetch u r w).1)
      → request_of c ≡ some r
      → ((t : Page × W) → Outside t → Outside (f tt t).1)
      → Outside s
      → Outside ((send fetch r >>= f) s).1
  send_then c r f s h asked after p =
      let sent = h s.0.url r s.1 (inl asked) p in
      continue-Inv Outside (fetch s.0.url r s.1).0 f _ sent λ u. after _ sent

  -- What the requests of a press keep, the press keeps.
  pub press-Inv :
      (c : Control) (s : Page × W)
      → ((u : String) (r : Request) (w : W) → Sends c r → P w → P (fetch u r w).1)
      → Outside s
      → Outside (press fetch c s).1
  unfolding press execute_service_start
  press-Inv (apply_url url) s h p = p
  press-Inv reset_url s h p = p
  press-Inv enable_orchestration s h p =
      send_then enable_orchestration _ _ s h refl (λ t q. h _ _ _ (inr refl) q) p
  press-Inv ask_orchestration s h p = p
  press-Inv confirm_orchestration s h p =
      send_then confirm_orchestration _ _ s h refl (λ t q. h _ _ _ (inr refl) q) p
  press-Inv cancel_orchestration s h p = h _ _ _ (inr refl) p
  press-Inv enable_heartbeats s h p =
      send_then enable_heartbeats _ _ s h refl (λ t q. h _ _ _ (inr refl) q) p
  press-Inv ask_heartbeats s h p = p
  press-Inv confirm_heartbeats s h p =
      send_then confirm_heartbeats _ _ s h refl (λ t q. h _ _ _ (inr refl) q) p
  press-Inv cancel_heartbeats s h p = h _ _ _ (inr refl) p
  press-Inv ask_stop s h p = p
  press-Inv confirm_stop s h p = send_then confirm_stop _ _ s h refl (λ t q. h _ _ _ (inr refl) q) p
  press-Inv cancel_stop s h p = h _ _ _ (inr refl) p
  press-Inv start_passive s h p =
      let sent = h s.0.url start_request s.1 (inl refl) p in
      continue-Inv Outside (fetch s.0.url start_request s.1).0 _ _ sent λ u. h _ _ _ (inr refl) sent

-- The three things that have a dialog.
pub data Danger : Type 0 where
  orchestration_off heartbeats_off service_stopped : Danger

abbrev pub path_of : Danger → String
path_of orchestration_off = "/orchestration/disable"
path_of heartbeats_off = "/heartbeats/disable"
path_of service_stopped = "/service/stop"

abbrev popup : Danger → Page → Bool
popup orchestration_off p = p.warning_orchestrator_popup
popup heartbeats_off p = p.warning_heartbeat_popup
popup service_stopped p = p.warning_stop_service_container

-- Whether the dialog was asked for and not cancelled since, by the controls that were pressed, the
-- last one first.
unfoldable pub asked : Danger → List Control → Bool
asked k [] = false
asked orchestration_off (ask_orchestration ∷ cs) = true
asked orchestration_off (cancel_orchestration ∷ cs) = false
asked heartbeats_off (ask_heartbeats ∷ cs) = true
asked heartbeats_off (cancel_heartbeats ∷ cs) = false
asked service_stopped (ask_stop ∷ cs) = true
asked service_stopped (cancel_stop ∷ cs) = false
asked k (c ∷ cs) = asked k cs

-- A page and the world outside after an operator pressed controls that were shown, for whatever the
-- page had read, while the outside went on.
pub data Session {W : Type 0} (fetch : String → Request → Exec W (Unit {0})) (default_url : String)
    : List Control → Page × W → Type 0 where
  opened :
      (url_storage : Option String) (w : W)
      → Session fetch default_url [] (open_page default_url url_storage, w)
  pressed :
      {cs : List Control} {s : Page × W} (d : Option PageData) (c : Control)
      → Session fetch default_url cs s
      → shown d s.0 c ≡ true
      → Session fetch default_url (c ∷ cs) (press fetch c s).1
  meanwhile :
      {cs : List Control} {s : Page × W} (w : W)
      → Session fetch default_url cs s
      → Session fetch default_url cs (s.0, w)

reading_harmless : (k : Danger) → ("/" == path_of k) ≢ true
reading_harmless orchestration_off e = ground arith
reading_harmless heartbeats_off e = ground arith
reading_harmless service_stopped e = ground arith

abbrev goes_to : Danger → Option Request → Bool
goes_to k none = false
goes_to k (some r) = r.path == path_of k

button-popup :
    (k : Danger) (d : Option PageData) (p : Page) (c : Control)
    → shown d p c ≡ true
    → goes_to k (request_of c) ≡ true
    → popup k p ≡ true
unfolding shown
button-popup k none p confirm_orchestration there sent = absurd (ground arith)
button-popup orchestration_off none p c there sent = ground arith
button-popup heartbeats_off none p c there sent = ground arith
button-popup service_stopped none p c there sent = ground arith
button-popup orchestration_off (some d) p confirm_orchestration there sent = ground arith
button-popup orchestration_off (some d) p c there sent = ground arith
button-popup heartbeats_off (some d) p confirm_heartbeats there sent = ground arith
button-popup heartbeats_off (some d) p c there sent = ground arith
button-popup service_stopped (some d) p confirm_stop there sent = ground arith
button-popup service_stopped (some d) p c there sent = ground arith

module _ {W : Type 0} (fetch : String → Request → Exec W (Unit {0})) where
  asked-step :
      (k : Danger) (c : Control) (s : Page × W) (cs : List Control)
      → (popup k s.0 ≡ true → asked k cs ≡ true)
      → popup k (press fetch c s).1.0 ≡ true
      → asked k (c ∷ cs) ≡ true
  unfolding press execute_service_start asked
  asked-step orchestration_off ask_orchestration s cs h p = refl
  asked-step orchestration_off c s cs h p = ground arith
  asked-step heartbeats_off ask_heartbeats s cs h p = refl
  asked-step heartbeats_off c s cs h p = ground arith
  asked-step service_stopped ask_stop s cs h p = refl
  asked-step service_stopped c s cs h p = ground arith

  -- A dialog that is open was asked for.
  popup-asked :
      {default_url : String} {cs : List Control} {s : Page × W} (k : Danger)
      → Session fetch default_url cs s
      → popup k s.0 ≡ true
      → asked k cs ≡ true
  popup-asked orchestration_off (opened url_storage w) is_open = absurd (ground arith)
  popup-asked heartbeats_off (opened url_storage w) is_open = absurd (ground arith)
  popup-asked service_stopped (opened url_storage w) is_open = absurd (ground arith)
  popup-asked k (pressed d c before there) is_open =
      asked-step k c _ _ (popup-asked k before) is_open
  popup-asked k (meanwhile w before) is_open = popup-asked k before is_open

  -- Only a button in the dialog sends the request.
  sent-popup :
      (k : Danger) (d : Option PageData) (p : Page) (c : Control) (r : Request)
      → shown d p c ≡ true
      → Sends c r
      → (r.path == path_of k) ≡ true
      → popup k p ≡ true
  sent-popup k d p c r there (inl e) is = button-popup k d p c there (ap (goes_to k) e ∙ is)
  sent-popup k d p c r there (inr e) is =
      absurd (reading_harmless k (ap (λ r. r.path == path_of k) (sym e) ∙ is))

  -- What only a request to switch orchestration or heartbeats off, or to stop the service, can
  -- change outside, a press of a control that is shown only changes when the dialog was asked for
  -- and not cancelled since.
  pub dangerous_asked :
      {T : Type 0} {default_url : String} {cs : List Control} {s : Page × W} (view : W → T)
      (k : Danger) (d : Option PageData) (c : Control)
      → ((u : String) (r : Request) → (r.path == path_of k) ≡ false → Keeps view (fetch u r))
      → Session fetch default_url cs s
      → shown d s.0 c ≡ true
      → view (press fetch c s).1.1 ≢ view s.1
      → asked k cs ≡ true
  dangerous_asked {s = s} view k d c harmless session there changed =
      elim (Bool-cases (popup k s.0)) [
        | inl is_open ↦ popup-asked k session is_open
        | inr closed ↦ absurd (
            changed (
              press-Inv fetch (λ w. view w ≡ view s.1) c s
                (λ u r w sends same. elim (Bool-cases (r.path == path_of k)) [
                  | inl is ↦
                      absurd (false≢true (sym closed ∙ sent-popup k d s.0 c r there sends is))
                  | inr other ↦ harmless u r other w ∙ same
                ])
                refl))
      ]
