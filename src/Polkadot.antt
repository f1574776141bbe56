-- ===== src/Polkadot.antt =====
-- orchestrator/src/services/polkadot/polkadot.js: its state, the keystore, the health test and
-- the containers are the modules below.
pub mod State
pub mod Environment
pub mod Keys
pub mod Health
pub mod Launch
pub mod Ready
