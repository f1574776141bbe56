-- ===== src/Polkadot/Ready.antt =====
-- When the service counts as ready.
use habs.Base.{
  ◌≤◌, ◌≡◌, ◌≢◌, ◌⊎◌, inl, inr, refl, ap, String, Bool, true, false, arith, length, Option, none,
  some, Result, ok, err, pending, Bool-cases, recover, pure, try_catch, if_false, false≢true,
  continue-eq-ok, ◌∙◌, subst, sym, Exec,
}
use habs.Env.{Env, system_health}
use habs.Polkadot.State.{object, Polkadot}
use habs.Polkadot.Keys.{rpc_url, polkadot_keys_import}
use habs.Polkadot.Keys.Pigeonhole.{Distinct}
use habs.Polkadot.Keys.Distinct.{
  configured, KeysValid, length_imported, polkadot_keys_import-KeysValid,
}
use habs.Polkadot.Health.{
  Verdict, synced, judge, accept, accept_verdict, ask_health, is_service_ready_to_start,
}

module _ {W : Type 0} (env : Env W) where
  -- The node answered with a text that is judged synced, and six keys are imported.
  record AnsweredSynced (s : Polkadot × W) : Type 0 where
    pub health : String
    pub answered : (env.post (rpc_url s.0.config) system_health s.1).0 ≡ ok (some health)
    pub judged : judge health ≡ synced
    pub all_keys : 6 ≤ length s.0.imported_keys

  verdict_true :
      (v : Verdict) (s : Polkadot × W)
      → (accept_verdict v s).0 ≡ ok true
      → (v ≡ synced) × (6 ≤ length s.0.imported_keys)
  unfolding accept_verdict
  verdict_true Verdict.synced s h = (refl, ground arith)
  verdict_true Verdict.no_match s h = absurd (ground arith)
  verdict_true _ s h = absurd (ground arith)

  caught_true :
      {S : Type 0} (r : Result Bool) (s : S) → (recover r (pure false) s).0 ≡ ok true → r ≡ ok true
  caught_true (ok b) s h = h
  caught_true (err e) s h = absurd (ground arith)
  caught_true pending s h = absurd (ground arith)

  accept-true :
      (r : Option String) (s : Polkadot × W)
      → (accept env r s).0 ≡ ok true
      → (health : String) × (r ≡ some health)
        × (judge health ≡ synced)
        × (6 ≤ length s.0.imported_keys)
  unfolding accept
  accept-true none s h = absurd (ground arith)
  accept-true (some health) s h =
      let (judged, all_keys) = verdict_true (judge health) s h in (health, refl, judged, all_keys)

  ready_real :
      (s : Polkadot × W)
      → s.0.config.polkadot_simulate_synch ≡ false
      → is_service_ready_to_start env s ≡ try_catch (ask_health env s.0.config) (pure false) s
  unfolding is_service_ready_to_start
  ready_real s e =
      ap (λ (m : Exec (Polkadot × W) Bool). try_catch m (pure false) s)
        (if_false (pure true) (ask_health env s.0.config) e)

  ready→ :
      (s : Polkadot × W)
      → (is_service_ready_to_start env s).0 ≡ ok true
      → (s.0.config.polkadot_simulate_synch ≡ true) ⊎ AnsweredSynced s
  unfolding ask_health
  ready→ s h = elim (Bool-cases s.0.config.polkadot_simulate_synch) [
    | inl simulated ↦ inl simulated
    | inr real ↦
        let h1 =
          caught_true (ask_health env s.0.config s).0 _
            (ap (λ p. p.0) (sym (ready_real s real)) ∙ h) in
        let answer = env.post (rpc_url s.0.config) system_health s.1 in
        let (r, answered, h2) = continue-eq-ok answer.0 _ _ h1 in
        let (health, some_health, judged, all_keys) = accept-true r (s.0, answer.1) h2 in
        inr (record {
          health = health;
          answered = answered ∙ ap ok some_health;
          judged = judged;
          all_keys = all_keys;
        })
  ]

  -- Where two of the six configured seeds have the same public key, a service that has imported its
  -- keys by `polkadotKeysImport` is never ready, unless synchronisation is simulated.
  pub repeated_key_never_ready :
      (s : Polkadot × W)
      → KeysValid env (object s)
      → ¬ Distinct (configured env s.0.config)
      → s.0.config.polkadot_simulate_synch ≡ false
      → (is_service_ready_to_start env (polkadot_keys_import env s).1).0 ≢ ok true
  repeated_key_never_ready s v repeats real ready =
      let t = (polkadot_keys_import env s).1 in
      let (same, valid, _) = polkadot_keys_import-KeysValid env s v in
      let few =
        (length_imported env (object t) valid).1
          (subst (λ c. ¬ Distinct (configured env c)) (sym same) repeats) in
      elim (ready→ t ready) [
        | inl simulated ↦
            absurd
              (false≢true (sym real ∙ ap (λ c. c.polkadot_simulate_synch) (sym same) ∙ simulated))
        | inr a ↦ absurd (omega (arith, few, a.all_keys))
      ]
