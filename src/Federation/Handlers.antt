-- ===== src/Federation/Handlers.antt =====
-- A handler of one node keeps the exclusion: it gains the active mode only as the leader, and loses
-- nothing that it has to read.
use habs.Base.{
  ℕ, ◌≡◌, ◌≢◌, inl, inr, ◌∙◌, ap, sym, String, true, false, some, List, ◌++◌, num, arith, ok,
  Bool-cases, Option-cases, ◌==◌, eq_iff, if◌then◌else◌,
}
use habs.Env.{Env, Event}
use habs.Chain.{leader_text}
use habs.Pallet.{account_or}
use habs.Orchestrator.State.{Orchestrator, is_noservice}
use habs.Orchestrator.Frames.{mode_of}
use habs.Orchestrator.Safety.{AllChecks}
use habs.Orchestrator.Decision.{orchestrate_service}
use habs.Orchestrator.Identity.{orchestrate_service-identity, orchestrate_service-active}
use habs.App.{listen_events}
use habs.App.Events.{
  any_taken_by_other, any_taken_by_other_group, listen_events_mode, listen_events_kept,
  listen_events_noservice,
}
use habs.Federation.{Federation, IsActive, ReadsPallet, IsOther}
use habs.Federation.Steps.{any_taken-append}
use habs.Federation.Exclusion.{Pending, NodeStep}

orchestrate_idle :
    {W : Type 0} (env : Env W) (s : Orchestrator × W)
    → is_noservice s.0 ≡ true
    → orchestrate_service env s ≡ (ok tt, s)
unfolding orchestrate_service
orchestrate_idle env s h = rw h

module _ (n : String) (o : Orchestrator) (f : Federation) where
  -- What was pending is so in the new state.
  still-Pending :
      o.group ≡ (f.nodes n).group → Pending f n → any_taken_by_other n o (f.unread n) ≡ true
  still-Pending e p = any_taken_by_other_group n (f.nodes n) o (f.unread n) e ∙ p

  pub IsOther-NodeStep : IsOther (f.nodes n) o → NodeStep n o (f.unread n) f
  IsOther-NodeStep h = record {
    same_group = h.group;
    same_role = ap (λ r. r == "noservice") h.role;
    served = λ a. inl (h.mode a);
    gains = λ g a e. inl (h.mode a);
    keeps = λ a b p. still-Pending h.group p;
  }

-- A node that is active after the events of a block was so before, and no event displaced it.
stays_active :
    (n : String) (before : Orchestrator) (events : List Event) (after : Orchestrator)
    → after.service.mode
      ≡ (if any_taken_by_other n before events then "passive" else before.service.mode)
    → (after.service.mode ≡ "active" → before.service.mode ≡ "active")
      × (after.service.mode ≡ "active" → any_taken_by_other n before events ≡ false)
stays_active n before events after e = elim (Bool-cases (any_taken_by_other n before events)) [
  | inl taken ↦
      let passive : after.service.mode ≡ "passive" = rw taken at e in
      (
        λ a. absurd (ground (arith, eq_iff "passive" "active")),
        λ a. absurd (ground (arith, eq_iff "passive" "active")),
      )
  | inr kept ↦ (λ a. sym (rw kept at e) ∙ a, λ a. kept)
]

later_taken :
    (n : String) (o : Orchestrator) (xs ys : List Event)
    → any_taken_by_other n o xs ≡ false
    → any_taken_by_other n o (xs ++ ys) ≡ true
    → any_taken_by_other n o ys ≡ true
later_taken n o xs ys h t = ground (arith, any_taken-append n o xs ys)

module _ (default_account : String) {W : Type 0} (env : Env W) (w : W) (n : String)
    (f : Federation) where
  -- A launch in active mode says that the pallet names the node.
  launched-leads :
      n ≢ "false"
      → n ≢ default_account
      → ReadsPallet default_account env w n f
      → (g : ℕ) → (f.nodes n).group ≡ num g
      → AllChecks env (f.nodes n, w)
      → f.pallet.leaders g ≡ some n
  launched-leads address real reads g e c =
      let (own_key, answer) = reads c g e in
      let own : leader_text c.allowed.last_check.leader ≡ n = c.allowed.last_check.own ∙ own_key in
      elim answer [
        | inl failed ↦ absurd (address (sym (ap leader_text (sym failed) ∙ own)))
        | inr told ↦
            let named : account_or default_account (f.pallet.leaders g) ≡ n =
              ap leader_text (sym told) ∙ own in
            elim (Option-cases (f.pallet.leaders g)) [
              | inl free ↦ absurd (real (sym (ap (account_or default_account) (sym free) ∙ named)))
              | inr (a, held) ↦ held ∙ ap some (ap (account_or default_account) (sym held) ∙ named)
            ]
      ]

  pub orchestrate-NodeStep :
      n ≢ "false"
      → n ≢ default_account
      → (f.nodes n).service_mode ≢ "active"
      → ReadsPallet default_account env w n f
      → NodeStep n (orchestrate_service env (f.nodes n, w)).1.0 (f.unread n) f
  orchestrate-NodeStep address real free reads =
      let s : Orchestrator × W = (f.nodes n, w) in
      let same = orchestrate_service-identity env s in
      let group = ap (λ i. i.1) same in
      elim (Bool-cases (is_noservice (f.nodes n))) [
        | inl idle ↦
            let inert = orchestrate_idle env s idle in
            IsOther-NodeStep n _ f (record {
              role = ap (λ i. i.0) same;
              group = group;
              mode = λ a. sym (ap (λ r. mode_of r.1) inert) ∙ a;
            })
        | inr served ↦ record {
          same_group = group;
          same_role = ap (λ i. i.0 == "noservice") same;
          served = λ a. inr (ap (λ i. i.0 == "noservice") same ∙ served);
          gains = λ g a e. elim (Bool-cases (mode_of s == "active")) [
            | inl old ↦ inl ((eq_iff _ _).0 old)
            | inr fresh ↦
                let was_not : mode_of s ≢ "active" =
                  λ x. ground (arith, eq_iff (mode_of s) "active") in
                inr (
                  launched-leads address real reads g e
                    (orchestrate_service-active env s free was_not a))
          ];
          keeps = λ a b p. still-Pending n _ f group p;
        }
      ]

  pub listen-NodeStep :
      (events rest : List Event)
      → f.unread n ≡ events ++ rest
      → (IsActive f n → is_noservice (f.nodes n) ≡ false)
      → NodeStep n (listen_events env n events (f.nodes n, w)).1.0 rest f
  listen-NodeStep events rest e active_served =
      let s : Orchestrator × W = (f.nodes n, w) in
      let o = (listen_events env n events s).1.0 in
      let (same_role, same_group) = listen_events_kept env n events s in
      let role = ap (λ r. r == "noservice") same_role in
      elim (Bool-cases (is_noservice (f.nodes n))) [
        | inl idle ↦
            let mode = listen_events_noservice env n events s idle in
            record {
              same_group = same_group;
              same_role = role;
              served = λ a. inl (sym mode ∙ a);
              gains = λ g a q. inl (sym mode ∙ a);
              keeps = λ a b p. absurd (ground (arith, active_served b, idle));
            }
        | inr served ↦
            let mode = listen_events_mode env n events s served in
            let (was_active, not_taken) = stays_active n (f.nodes n) events o mode in
            record {
              same_group = same_group;
              same_role = role;
              served = λ a. inr (role ∙ served);
              gains = λ g a q. inl (was_active a);
              keeps = λ a b p.
                  any_taken_by_other_group n (f.nodes n) o rest same_group
                  ∙ later_taken n (f.nodes n) events rest (not_taken a)
                      (ap (any_taken_by_other n (f.nodes n)) (sym e) ∙ p);
            }
      ]
