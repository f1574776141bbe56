-- ===== src/Page/Passive.antt =====
-- The dashboard (ui/src/ArchipelModule.js) and the API of the orchestrator together.
use habs.Base.{
  ◌≡◌, ◌≢◌, ◌⊎◌, inl, inr, refl, ◌∙◌, ap, sym, false≢true, String, Bool, false, Option, none, some,
  List, [], ◌∷◌, ◌==◌, Exec,
}
use habs.Heartbeats.Listing.{Listed}
use habs.Env.{Env}
use habs.Orchestrator.State.{Orchestrator}
use habs.Orchestrator.Frames.{mode_of}
use habs.Routes.Requests.{Request, handle}
use habs.Routes.Requests.Active.{active_by_request}
use habs.Page.{Page, Control, press}
use habs.Page.Session.{Sends, request_of, press-Inv}

-- The state after the presses, from the first to the last.
abbrev pub presses :
    {W : Type 0} → (String → Request → Exec W (Unit {0})) → List Control → Page × W → Page × W
presses fetch [] s = s
presses fetch (c ∷ cs) s = presses fetch cs (press fetch c s).1

abbrev is_active : Option String → Bool
is_active none = false
is_active (some m) = m == "active"

abbrev asks_active : Option Request → Bool
asks_active none = false
asks_active (some r) = is_active r.mode

never_active : (c : Control) → asks_active (request_of c) ≡ false
never_active Control.start_passive = refl
never_active c = refl

not_asked_active : (c : Control) (r : Request) → Sends c r → r.mode ≢ some "active"
not_asked_active c r (inl e) active =
    false≢true (sym (never_active c) ∙ ap asks_active e ∙ ap is_active active)
not_asked_active c r (inr e) active =
    false≢true (sym (ap (λ r. is_active r.mode) e) ∙ ap is_active active)

module _ {W : Type 0} (env : Env W) (takes : String → String → Bool)
    (sort_by_name : List Listed → List Listed)
    (fetch : String → Request → Exec (Orchestrator × W) (Unit {0})) where
  press_idle :
      ((u : String) (r : Request) (s : Orchestrator × W)
        → ((fetch u r s).1 ≡ (handle env takes sort_by_name r s).1)
          ⊎ (mode_of (fetch u r s).1 ≡ mode_of s))
      → (c : Control) (s : Page × (Orchestrator × W)) → mode_of s.1 ≢ "active"
      → mode_of (press fetch c s).1.1 ≢ "active"
  press_idle reaches c s idle =
      press-Inv fetch (λ t. mode_of t ≢ "active") c s
        (λ u r t sends still active. elim (reaches u r t) [
          | inl handled ↦
              let became = ap mode_of (sym handled) ∙ active in
              not_asked_active c r sends
                ((active_by_request env takes sort_by_name r t still became).2)
          | inr same ↦ still (sym same ∙ active)
        ])
        idle

  -- No sequence of presses of any controls makes a service that is not in active mode active, where
  -- every request of the page is handled by the orchestrator or leaves the mode of its service
  -- alone: the page only ever asks for the passive mode.
  pub page_stays_idle :
      ((u : String) (r : Request) (s : Orchestrator × W)
        → ((fetch u r s).1 ≡ (handle env takes sort_by_name r s).1)
          ⊎ (mode_of (fetch u r s).1 ≡ mode_of s))
      → (cs : List Control) (s : Page × (Orchestrator × W)) → mode_of s.1 ≢ "active"
      → mode_of (presses fetch cs s).1 ≢ "active"
  page_stays_idle reaches [] s idle = idle
  page_stays_idle reaches (c ∷ cs) s idle =
      page_stays_idle reaches cs (press fetch c s).1 (press_idle reaches c s idle)
