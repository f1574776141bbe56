-- ===== src/Orchestrator/Reading.antt =====
-- That asking for the info changes nothing of the orchestrator.
use habs.Base.{List, ◌≡◌, refl, ap, Keeps, continue-Keeps, if-Keeps}
use habs.Heartbeats.Listing.{Listed}
use habs.Env.{Env}
use habs.Docker.{is_container_running}
use habs.Utils.{get_keys_from_seed, address_of}
use habs.Chain.{
  get_peer_id, get_peer_number, get_best_number, get_best_number_finalized, get_sync_state,
  get_leader,
}
use habs.Polkadot.State.{object}
use habs.Polkadot.Keys.{check_session_keys_on_node}
use habs.Polkadot.Keys.Distinct.{check_session-polkadot}
use habs.Polkadot.Launch.{check_launched_container, get_info, validator, sync}
use habs.Service.{Service, service_ready, service_check, get_service_info}
use habs.Orchestrator.State.{Orchestrator, is_noservice}
use habs.Orchestrator.Patience.{service_ready-service}
use habs.Orchestrator.Info.{get_orchestrator_info}

module _ {W : Type 0} (env : Env W) where
  container-object : Keeps object (check_launched_container env)
  unfolding check_launched_container
  container-object t =
      continue-Keeps object (is_container_running env.docker (validator t.0.config) t.1).0 _ _ refl
        λ active u.
          if-Keeps object active _ _ (λ v. refl)
            (λ v.
              continue-Keeps object (is_container_running env.docker (sync t.0.config) v.1).0 _ _
                refl λ passive w. refl)
            u

  info-object : Keeps object (get_info env)
  unfolding get_info
  info-object t =
      continue-Keeps object (check_launched_container env t).0 _ _ (container-object t) λ mode u.
        continue-Keeps object (check_session_keys_on_node env u).0 _ _
          (check_session-polkadot env u) λ keys v. refl

  service_check-service : (t : Service × W) → (service_check env t).1.0 ≡ t.0
  unfolding service_check
  service_check-service t =
      ap (λ p. record (t.0) { service_instance = p }) (container-object (t.0.service_instance, t.1))

  service_info-service : (t : Service × W) → (get_service_info env t).1.0 ≡ t.0
  unfolding get_service_info
  service_info-service t =
      let view = λ (u : Service × W). u.0 in
      continue-Keeps view (service_ready env t).0 _ _ (service_ready-service env t) λ ready u.
        continue-Keeps view (service_check env u).0 _ _ (service_check-service u) λ container v.
          continue-Keeps view (get_info env (v.0.service_instance, v.1)).0 _ _
            (ap (λ p. record (v.0) { service_instance = p })
              (info-object (v.0.service_instance, v.1)))
            λ info w. refl

  -- Asking for the info changes nothing of the orchestrator, its service included, however the
  -- calls outside end.
  pub get_orchestrator_info-orchestrator :
      (sort_by_name : List Listed → List Listed) (s : Orchestrator × W)
      → (get_orchestrator_info env sort_by_name s).1.0 ≡ s.0
  unfolding get_orchestrator_info
  get_orchestrator_info-orchestrator sort_by_name s =
      let view = λ (u : Orchestrator × W). u.0 in
      continue-Keeps view (address_of (get_keys_from_seed env s.0.mnemonic "sr25519")) _ s refl
        λ address u0. continue-Keeps view (get_peer_id env u0.1).0 _ _ refl λ peer u1.
          continue-Keeps view (get_peer_number env u1.1).0 _ _ refl λ peers u2.
            continue-Keeps view (get_best_number env u2.1).0 _ _ refl λ best u3.
              continue-Keeps view (get_best_number_finalized env u3.1).0 _ _ refl λ finalized u4.
                continue-Keeps view (get_sync_state env u4.1).0 _ _ refl λ syncing u5.
                  continue-Keeps view (get_leader env u5.0.group u5.1).0 _ _ refl λ leader u6.
                    if-Keeps view (is_noservice u6.0) _ _ (λ v. refl)
                      (λ v.
                        continue-Keeps view (get_service_info env (v.0.service, v.1)).0 _ _
                          (ap (λ p. record (v.0) { service = p })
                            (service_info-service (v.0.service, v.1)))
                          λ info w. refl)
                      u6
