-- ===== src/Tests/Listing.antt =====
-- The info of the orchestrator, on the states of Tests/Fixtures.antt.
use habs.Base.{◌≡◌}
use habs.Tests.Fixtures.{env, node_in}
use habs.Orchestrator.Info.{get_orchestrator_info}
use habs.Orchestrator.Reading.{get_orchestrator_info-orchestrator}

info_changes_nothing :
    (get_orchestrator_info env (λ l. l) (node_in "active", tt)).1.0 ≡ node_in "active"
info_changes_nothing = get_orchestrator_info-orchestrator env (λ l. l) (node_in "active", tt)
