-- ===== src/App/Events.antt =====
-- What the events of a block do to the mode of the service.
use habs.Base.{
  ◌≡◌, refl, ◌∙◌, ap, String, Bool, true, false, ◌||◌, List, [], ◌∷◌, if◌then◌else◌, arith, inl,
  inr, ◌≢◌, eq_iff, subst, show, Bool-cases, if_true, if_false,
}
use mathlib.Core.List.{Memᴰ}
use habs.Env.{Env, Event}
use habs.Orchestrator.State.{Orchestrator, is_noservice, service_start}
use habs.Orchestrator.Frames.{mode_of}
use habs.App.{is_taken_by_other, listen_event, listen_events}
use habs.Service

-- Another node than that of the address took the leadership of the group of `o` in some event.
abbrev pub any_taken_by_other : String → Orchestrator → List Event → Bool
any_taken_by_other address o [] = false
any_taken_by_other address o (e ∷ events) =
    is_taken_by_other address o e || any_taken_by_other address o events

pub any_taken_by_other_group :
    (address : String) (o p : Orchestrator) (events : List Event)
    → p.group ≡ o.group
    → any_taken_by_other address p events ≡ any_taken_by_other address o events
unfolding is_taken_by_other
any_taken_by_other_group address o p [] e = refl
any_taken_by_other_group address o p (x ∷ events) e =
    rw (e, any_taken_by_other_group address o p events e)

-- The event says that another account than `address` took the leadership of the group of `o`.
pub record Takes (address : String) (o : Orchestrator) (e : Event) : Type 0 where
  pub section : e.section ≡ "archipelModule"
  pub method : e.method ≡ "NewLeader"
  pub account : e.field_at 0 ≢ address
  pub group : e.field_at 1 ≡ show o.group

-- One of the events does.
abbrev pub SomeTakes : String → Orchestrator → List Event → Type 0
SomeTakes address o events = (e : Event) × Memᴰ e events × Takes address o e

Takes→taken :
    (address : String) (o : Orchestrator) (e : Event)
    → Takes address o e
    → is_taken_by_other address o e ≡ true
unfolding is_taken_by_other
Takes→taken address o e t = ground (
  arith,
  t.account,
  (eq_iff e.section "archipelModule").1 t.section,
  (eq_iff e.method "NewLeader").1 t.method,
  (eq_iff (e.field_at 1) (show o.group)).1 t.group,
  eq_iff (e.field_at 0) address,
)

taken→Takes :
    (address : String) (o : Orchestrator) (e : Event)
    → is_taken_by_other address o e ≡ true
    → Takes address o e
unfolding is_taken_by_other
taken→Takes address o e h = record {
  section = ground (arith, eq_iff e.section "archipelModule");
  method = ground (arith, eq_iff e.method "NewLeader");
  account = λ same. absurd (ground (arith, (eq_iff (e.field_at 0) address).1 same));
  group = ground (arith, eq_iff (e.field_at 1) (show o.group));
}

taken-any :
    (address : String) (o : Orchestrator) (events : List Event) (e : Event)
    → Memᴰ e events
    → Takes address o e
    → any_taken_by_other address o events ≡ true
taken-any address o [] e m t = elim m [ ]
taken-any address o (x ∷ events) e (Memᴰ.head same) t =
    ground
      (arith, subst (λ a. is_taken_by_other address o a ≡ true) same (Takes→taken address o e t))
taken-any address o (x ∷ events) e (Memᴰ.tail m) t =
    ground (arith, taken-any address o events e m t)

not_taken-any :
    (address : String) (o : Orchestrator) (events : List Event)
    → ¬ SomeTakes address o events
    → any_taken_by_other address o events ≡ false
not_taken-any address o [] nothing = refl
not_taken-any address o (x ∷ events) nothing = elim (Bool-cases (is_taken_by_other address o x)) [
  | inl taken ↦ absurd (nothing (x, Memᴰ.head refl, taken→Takes address o x taken))
  | inr other ↦
      ground (arith, other, not_taken-any address o events λ (e, m, t). nothing (e, Memᴰ.tail m, t))
]

module _ {W : Type 0} (env : Env W) (address : String) where
  listen_event_kept :
      (e : Event) (s : Orchestrator × W)
      → ((listen_event env address e s).1.0.node_role ≡ s.0.node_role)
        × ((listen_event env address e s).1.0.group ≡ s.0.group)
  unfolding listen_event is_taken_by_other service_start Service.service_start
  listen_event_kept e s = ground arith

  listen_event_mode :
      (e : Event) (s : Orchestrator × W)
      → is_noservice s.0 ≡ false
      → mode_of (listen_event env address e s).1
        ≡ (if is_taken_by_other address s.0 e then "passive" else mode_of s)
  unfolding listen_event service_start Service.service_start
  listen_event_mode e s served = ground arith

  pub listen_events_step :
      (e : Event) (events : List Event) (s : Orchestrator × W)
      → (listen_events env address (e ∷ events) s)
        ≡ listen_events env address events (listen_event env address e s).1
  unfolding listen_events listen_event
  listen_events_step e events s = ground arith

  pub listen_events_mode :
      (events : List Event) (s : Orchestrator × W)
      → is_noservice s.0 ≡ false
      → mode_of (listen_events env address events s).1
        ≡ (if any_taken_by_other address s.0 events then "passive" else mode_of s)
  unfolding listen_events
  listen_events_mode [] s served = refl
  listen_events_mode (e ∷ events) s served =
      let t = (listen_event env address e s).1 in
      let kept = listen_event_kept e s in
      ground (
        arith,
        ap (λ p. mode_of p.1) (listen_events_step e events s),
        listen_events_mode events t (rw kept.0 served),
        listen_event_mode e s served,
        any_taken_by_other_group address s.0 t.0 events kept.1,
      )

  -- After the events of a block, the service of a service node is in passive mode if the block has
  -- a NewLeader event of the pallet whose account is not the node's and whose group is the node's,
  -- whatever other events come before or after and whether or not the launch succeeds; if it has
  -- no such event, the mode is what it was.
  pub listen_events-mode_of :
      (events : List Event) (s : Orchestrator × W)
      → is_noservice s.0 ≡ false
      → (SomeTakes address s.0 events → mode_of (listen_events env address events s).1 ≡ "passive")
        × (¬ SomeTakes address s.0 events
            → mode_of (listen_events env address events s).1 ≡ mode_of s)
  listen_events-mode_of events s served = (
    λ (e, m, t).
        listen_events_mode events s served ∙ if_true _ _ (taken-any address s.0 events e m t),
    λ nothing.
        listen_events_mode events s served
        ∙ if_false _ _ (not_taken-any address s.0 events nothing),
  )

  pub listen_events_kept :
      (events : List Event) (s : Orchestrator × W)
      → ((listen_events env address events s).1.0.node_role ≡ s.0.node_role)
        × ((listen_events env address events s).1.0.group ≡ s.0.group)
  unfolding listen_events
  listen_events_kept [] s = (refl, refl)
  listen_events_kept (e ∷ events) s =
      let step = ap (λ p. p.1.0) (listen_events_step e events s) in
      let rest = listen_events_kept events (listen_event env address e s).1 in
      let first = listen_event_kept e s in
      (ap (λ o. o.node_role) step ∙ rest.0 ∙ first.0, ap (λ o. o.group) step ∙ rest.1 ∙ first.1)

  listen_event_noservice :
      (e : Event) (s : Orchestrator × W)
      → is_noservice s.0 ≡ true
      → mode_of (listen_event env address e s).1 ≡ mode_of s
  unfolding listen_event service_start Service.service_start
  listen_event_noservice e s idle = ground arith

  -- A node without a service only notes heartbeats.
  pub listen_events_noservice :
      (events : List Event) (s : Orchestrator × W)
      → is_noservice s.0 ≡ true
      → mode_of (listen_events env address events s).1 ≡ mode_of s
  unfolding listen_events
  listen_events_noservice [] s idle = refl
  listen_events_noservice (e ∷ events) s idle =
      ap (λ p. mode_of p.1) (listen_events_step e events s)
      ∙ listen_events_noservice events (listen_event env address e s).1
          (rw (listen_event_kept e s).0 idle)
      ∙ listen_event_noservice e s idle
