-- ===== src/Orchestrator/Patience.antt =====
-- How long an active service may stay unready, and how heartbeats come back.
use habs.Base.{
  ℕ, zero, suc, ◌+◌, ◌≤◌, ◌<◌, ◌≡◌, refl, ◌∙◌, ap, String, true, false, arith, ltb, ok, eq_iff,
  Option, none, some, continue-Keeps, try_catch-Keeps, if-Keeps, Keeps,
}
use habs.Env.{Env, system_health}
use habs.Polkadot.State.{Polkadot}
use habs.Polkadot.Health.{is_service_ready_to_start, accept, accept_verdict, judge, Verdict}
use habs.Polkadot.Keys.{rpc_url}
use habs.Service.{Service, service_ready}
use habs.Orchestrator.State.{Orchestrator}
use habs.Orchestrator.Readiness.{note_ready, service_readiness_management}

verdict-polkadot : {W : Type 0} (v : Verdict) → Keeps (λ (t : Polkadot × W). t.0) (accept_verdict v)
unfolding accept_verdict
verdict-polkadot Verdict.synced t = refl
verdict-polkadot _ t = refl

module _ {W : Type 0} (env : Env W) where
  -- The readiness test changes nothing of the service object.
  accept-polkadot : (r : Option String) → Keeps (λ (t : Polkadot × W). t.0) (accept env r)
  unfolding accept
  accept-polkadot none t = refl
  accept-polkadot (some h) t = verdict-polkadot (judge h) t

  ready-polkadot : Keeps (λ (t : Polkadot × W). t.0) (is_service_ready_to_start env)
  unfolding is_service_ready_to_start
  ready-polkadot =
      try_catch-Keeps (λ t. t.0) _ false
        (λ t.
          if-Keeps (λ t. t.0) t.0.config.polkadot_simulate_synch _ _ (λ u. refl)
            (λ u.
              continue-Keeps (λ t. t.0) (env.post (rpc_url t.0.config) system_health u.1).0 _ _ refl
                (accept-polkadot))
            t)

  pub service_ready-service : (t : Service × W) → (service_ready env t).1.0 ≡ t.0
  unfolding service_ready
  service_ready-service t =
      ap (λ p. record (t.0) { service_instance = p }) (ready-polkadot (t.0.service_instance, t.1))

  -- The service, as it is, is not ready, whatever happens outside.
  abbrev pub NeverReady : Service → Type 0
  NeverReady service = (w : W) → (service_ready env (service, w)).0 ≡ ok false

  -- The state after `n` readiness checks.
  abbrev pub checks : ℕ → Orchestrator × W → Orchestrator × W
  checks zero s = s
  checks (suc n) s = (service_readiness_management env (checks n s)).1

  check_unready :
      (s : Orchestrator × W)
      → NeverReady s.0.service
      → ((service_readiness_management env s).0 ≡ (note_ready false s.0).0)
        × ((service_readiness_management env s).1.0 ≡ (note_ready false s.0).1)
  unfolding service_readiness_management note_ready
  check_unready s h = ground (arith, h s.1, service_ready-service (s.0.service, s.1))

  -- `n` more fruitless checks of an active service.
  abbrev pub waited : ℕ → Orchestrator → Orchestrator
  waited n o = record o { no_ready_count = n + o.no_ready_count }

  note_waiting :
      (o : Orchestrator)
      → o.service.mode ≡ "active"
      → o.no_ready_count < o.no_ready_threshold
      → note_ready false o ≡ (ok true, waited 1 o)
  unfolding note_ready
  note_waiting o active lt =
      let less_than : ltb o.no_ready_count o.no_ready_threshold ≡ true = ground arith in
      rw ((eq_iff o.service.mode "active").1 active, less_than) (ground arith)

  note_out_of_patience :
      (o : Orchestrator)
      → o.service.mode ≡ "active"
      → o.no_ready_threshold ≤ o.no_ready_count
      → note_ready false o ≡ (ok false, record o { heartbeat_send_enabled = false })
  unfolding note_ready
  note_out_of_patience o active le =
      let full : ltb o.no_ready_count o.no_ready_threshold ≡ false = ground arith in
      rw ((eq_iff o.service.mode "active").1 active, full)

  checks-waited :
      (n : ℕ) (s : Orchestrator × W)
      → NeverReady s.0.service
      → s.0.service.mode ≡ "active"
      → n + s.0.no_ready_count ≤ s.0.no_ready_threshold
      → (checks n s).0 ≡ waited n s.0
  checks-waited zero s h active le = ground arith
  checks-waited (suc n) s h active le =
      let ih = checks-waited n s h active (omega arith) in
      let never : NeverReady (checks n s).0.service = rw ih h in
      (check_unready (checks n s) never).1
      ∙ ap (λ o. (note_ready false o).1) ih
      ∙ ap (λ p. p.1) (note_waiting (waited n s.0) active (omega arith))
      ∙ ground arith

  -- While the service of an active node stays unready, check number `n + 1` still answers true and
  -- counts, as long as the threshold is not reached; the check at the threshold answers false and
  -- switches the sending of heartbeats off.
  pub unready_active_disabled :
      (n : ℕ) (s : Orchestrator × W)
      → NeverReady s.0.service
      → s.0.service.mode ≡ "active"
      → (n + s.0.no_ready_count < s.0.no_ready_threshold
          → ((service_readiness_management env (checks n s)).0 ≡ ok true)
            × ((checks (suc n) s).0 ≡ waited (suc n) s.0))
        × (n + s.0.no_ready_count ≡ s.0.no_ready_threshold
            → ((service_readiness_management env (checks n s)).0 ≡ ok false)
              × ((checks (suc n) s).0.heartbeat_send_enabled ≡ false))
  unready_active_disabled n s h active = (
    λ lt.
        let ih = checks-waited n s h active (omega arith) in
        let never : NeverReady (checks n s).0.service = rw ih h in
        (
          (check_unready (checks n s) never).0
              ∙ ap (λ o. (note_ready false o).0) ih
              ∙ ap (λ p. p.0) (note_waiting (waited n s.0) active lt),
          checks-waited (suc n) s h active (omega arith),
        ),
    λ eq.
        let ih = checks-waited n s h active (omega arith) in
        let never : NeverReady (checks n s).0.service = rw ih h in
        let out = note_out_of_patience (waited n s.0) active (omega arith) in
        (
          (check_unready (checks n s) never).0
              ∙ ap (λ o. (note_ready false o).0) ih
              ∙ ap (λ p. p.0) out,
          ap (λ o. o.heartbeat_send_enabled)
              ((check_unready (checks n s) never).1
                ∙ ap (λ o. (note_ready false o).1) ih
                ∙ ap (λ p. p.1) out),
        ),
  )

  -- Once the service is ready, one check answers true, sets the count of fruitless checks to 0 and
  -- leaves the sending of heartbeats on, also where it had been switched off.
  pub ready_enables :
      (s : Orchestrator × W)
      → (service_ready env (s.0.service, s.1)).0 ≡ ok true
      → ((service_readiness_management env s).0 ≡ ok true)
        × ((service_readiness_management env s).1.0.no_ready_count ≡ 0)
        × ((service_readiness_management env s).1.0.heartbeat_send_enabled ≡ true)
  unfolding service_readiness_management note_ready
  ready_enables s h = ground (arith, h)
