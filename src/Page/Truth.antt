-- ===== src/Page/Truth.antt =====
-- What the switches of the dashboard (ui/src/ArchipelModule.js) say of the node that answered.
use habs.Base.{
  List, continue-Then, ◌≡◌, refl, sym, ◌∙◌, ap, arith, String, Bool, true, false, not, none, some,
  Result, ok, err, pending, Exec, pure, continue, subst, Bool-cases, inl, inr, if◌then◌else◌,
}
use habs.Env.{Env}
use habs.Orchestrator.State.{Orchestrator, is_noservice}
use habs.Orchestrator.Info.{OrchestratorInfo, get_orchestrator_info, with_service}
use habs.Heartbeats.Listing.{Listed, get_all_heartbeats}
use habs.Utils.{get_keys_from_seed, address_of}
use habs.Service.{ServiceInfo, get_service_info}
use habs.Chain.{
  is_connected, get_peer_id, get_peer_number, get_best_number, get_best_number_finalized,
  get_sync_state, get_leader,
}
use habs.Routes.Requests.{
  main_page, info, handle, answer, endpoint_of, get_endpoint, get_main_page, info_reply,
}
use habs.Page.{
  Page, data_of, shown, get_of, enable_orchestration, enable_heartbeats, ask_orchestration,
  ask_heartbeats,
}

main_endpoint :
    (takes : String → String → Bool) → takes "/" "/" ≡ true → get_endpoint takes "/" ≡ main_page
unfolding get_endpoint
main_endpoint takes main = rw main refl

-- The info has the switches of the orchestrator.
abbrev Says : Orchestrator → OrchestratorInfo → Type 0
Says o i =
    (i.orchestration_enabled ≡ o.orchestration_enabled)
    × (i.heartbeat_send_enabled_admin ≡ o.heartbeat_send_enabled_admin)

module _ {W : Type 0} (o : Orchestrator) where
  -- From the orchestrator `o`, whatever is returned says its switches.
  abbrev Tells : Exec (Orchestrator × W) OrchestratorInfo → Type 0
  Tells m = (s : Orchestrator × W) (i : OrchestratorInfo) → s.0 ≡ o → (m s).0 ≡ ok i → Says o i

  pure-Tells : (j : OrchestratorInfo) → Says o j → Tells (pure j)
  pure-Tells j says s i same h = subst (Says o) (value h) says
    where
      value : {a b : OrchestratorInfo} → ok a ≡ ok b → a ≡ b
      value e = ground arith

module _ {W : Type 0} (env : Env W) (takes : String → String → Bool)
    (sort_by_name : List Listed → List Listed) where
  with_service-Tells :
      (o : Orchestrator) (j : OrchestratorInfo)
      → Says o j
      → Tells o (with_service env sort_by_name j)
  unfolding with_service
  with_service-Tells o j says s i same h = by_result (get_service_info env (s.0.service, s.1)).0 _ h
    where
      by_result :
          (r : Result ServiceInfo) (t : Orchestrator × W)
          → (continue r (λ service_info. pure (record j { service_info = some service_info })) t).0
            ≡ ok i
          → Says o i
      by_result (ok service_info) t e =
          pure-Tells o (record j { service_info = some service_info }) says s i same e
      by_result (err x) t e = absurd (ground arith)
      by_result pending t e = absurd (ground arith)

  -- The end of the method, which puts the info together.
  finish-Tells :
      (o : Orchestrator) (build : Orchestrator → OrchestratorInfo)
      → ((p : Orchestrator) → Says p (build p))
      → Tells o (λ s.
        (if is_noservice s.0 then pure (build s.0) else with_service env sort_by_name (build s.0))
          s)
  finish-Tells o build says s i same h =
      let own : Says o (build s.0) = subst (λ q. Says q (build s.0)) same (says s.0) in
      elim (Bool-cases (is_noservice s.0)) [
        | inl none_here ↦ pure-Tells o (build s.0) own s i same (taken_true none_here ∙ h)
        | inr served ↦ with_service-Tells o (build s.0) own s i same (taken_false served ∙ h)
      ]
    where
      taken_true :
          is_noservice s.0 ≡ true
          → (pure (build s.0) s).0
            ≡ ((if is_noservice s.0
                  then pure (build s.0)
                  else with_service env sort_by_name (build s.0))
                s).0
      taken_true e = rw e refl

      taken_false :
          is_noservice s.0 ≡ false
          → (with_service env sort_by_name (build s.0) s).0
            ≡ ((if is_noservice s.0
                  then pure (build s.0)
                  else with_service env sort_by_name (build s.0))
                s).0
      taken_false e = rw e refl

  told :
      (s : Orchestrator × W) (i : OrchestratorInfo)
      → (get_orchestrator_info env sort_by_name s).0 ≡ ok i
      → Says s.0 i
  unfolding get_orchestrator_info
  told s i h =
      let Q : Orchestrator × W → Type 0 = λ t. Says s.0 i in
      let o = s.0 in
      let w1 = (get_peer_id env s.1).1 in
      let w2 = (get_peer_number env w1).1 in
      let w3 = (get_best_number env w2).1 in
      let w4 = (get_best_number_finalized env w3).1 in
      let w5 = (get_sync_state env w4).1 in
      let w6 = (get_leader env o.group w5).1 in
      continue-Then Q (address_of (get_keys_from_seed env o.mnemonic "sr25519")) _ s
        (λ address.
          continue-Then Q (get_peer_id env s.1).0 _ (o, w1)
            λ peer_id.
              continue-Then Q (get_peer_number env w1).0 _ (o, w2)
                λ peers.
                  continue-Then Q (get_best_number env w2).0 _ (o, w3)
                    λ best.
                      continue-Then Q (get_best_number_finalized env w3).0 _ (o, w4)
                        λ finalized.
                          continue-Then Q (get_sync_state env w4).0 _ (o, w5)
                            λ syncing.
                              continue-Then Q (get_leader env o.group w5).0 _ (o, w6)
                                λ leader.
                                  finish-Tells o
                                    (λ p. record {
                                      orchestrator_address = address;
                                      archipel_name = p.archipel_name;
                                      is_connected = is_connected env s.1;
                                      peer_id = peer_id;
                                      peer_number = peers;
                                      best_number = best;
                                      best_number_finalized = finalized;
                                      synch_state = syncing;
                                      leader = leader;
                                      orchestration_enabled = p.orchestration_enabled;
                                      heartbeat_send_enabled_admin = p.heartbeat_send_enabled_admin;
                                      heartbeat_send_enabled = p.heartbeat_send_enabled;
                                      heartbeats = get_all_heartbeats sort_by_name p.heartbeats;
                                      service_info = none;
                                    })
                                    (λ p. (refl, refl)) (o, w6) i refl)
        h

  -- Where Express takes the path "/" for "/" and a node answered GET / with its info, the page offers to enable the orchestration exactly
  -- if it is disabled on the node, and to disable it exactly if it is enabled; and the heartbeats
  -- likewise.
  pub switches_shown :
      takes "/" "/" ≡ true
      → (s : Orchestrator × W) (i : OrchestratorInfo) (p : Page)
      → (handle env takes sort_by_name (get_of "/") s).0 ≡ info i
      → let d = data_of (info i) in
        (shown d p enable_orchestration ≡ not s.0.orchestration_enabled)
        × (shown d p ask_orchestration ≡ s.0.orchestration_enabled)
        × (shown d p enable_heartbeats ≡ not s.0.heartbeat_send_enabled_admin)
        × (shown d p ask_heartbeats ≡ s.0.heartbeat_send_enabled_admin)
  unfolding handle answer endpoint_of get_endpoint get_main_page data_of shown
  switches_shown main s i p h =
      let h1 =
        ap (λ e. (answer env takes sort_by_name e s).0) (sym (main_endpoint takes main)) ∙ h in
      let (orchestration, heartbeats) =
        told s i (answered (get_orchestrator_info env sort_by_name s).0 h1) in
      (ap not orchestration, not-not _ ∙ orchestration, ap not heartbeats, not-not _ ∙ heartbeats)
    where
      answered : (r : Result OrchestratorInfo) → info_reply r ≡ info i → r ≡ ok i
      answered (ok j) e = ground arith
      answered (err x) e = absurd (ground arith)
      answered pending e = absurd (ground arith)

      not-not : (b : Bool) → not (not b) ≡ b
      not-not true = refl
      not-not false = refl
