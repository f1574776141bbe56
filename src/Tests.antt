-- ===== src/Tests.antt =====
-- Runs on concrete data, and the theorems at concrete inputs.
mod Fixtures
mod Nodes
mod Services
mod Handlers
mod Listing
mod Settings
mod Federations
mod Pallets
mod Clis
mod Pages
mod Commands
mod Host
mod Requests
mod Containers
mod Delivery
mod Startup
