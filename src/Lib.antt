-- ===== src/Lib.antt =====
-- HABS: a high-availability boot service for a validator. Several nodes of one group each run an
-- orchestrator; through leader election on a private chain (Archipel) at most one of them is meant
-- to run the validator in active mode, the others run a passive full node. This library models the
-- orchestrator, the program in orchestrator/src; the pallet of the chain, in
-- chain/pallets/archipel/src/lib.rs; and how the tool in cli/src makes the configuration of a
-- federation.
--
-- Parts, and how they interact. `main` (orchestrator/src/app.js) builds one object of each class,
-- runs two intervals of ten seconds (heartbeat, orchestration), listens to chain events, and serves
-- an HTTP API. The orchestrator decides from the chain (leader, best block, own health), from the
-- map of heartbeats, and from the readiness of the service; it starts the service through Service,
-- Polkadot and Docker.
--
--   Base         shared names, texts, numbers, lists, and the monad of JavaScript's async methods
--   Env          what the code calls but does not define: the RPC API of the chain, the Docker
--                daemon, HTTP posts to the node, the file system, key derivation, the host name and
--                timers. They are fields of records, so every statement is about any such world.
--   Utils        orchestrator/src/utils.js
--   Config       orchestrator/src/config.js
--   Heartbeats   orchestrator/src/heartbeats.js
--   Chain        orchestrator/src/chain.js
--   Docker       orchestrator/src/docker.js
--   Polkadot     orchestrator/src/services/polkadot/polkadot.js, and config.js as Environment
--   Service      orchestrator/src/service.js
--   Orchestrator orchestrator/src/orchestrator.js
--   Routes       orchestrator/src/routes and the error handlers of orchestrator/src/api.js; Requests
--                is the table of its routes
--   App          the bodies of the intervals of orchestrator/src/app.js, and Chain.listenEvents;
--                Startup is `main` up to the intervals, and what an exit signal runs
--   Pallet       the calls and the storage of chain/pallets/archipel/src/lib.rs
--   Federation   many orchestrators and the pallet, as a relation of steps
--   Cli          cli/src: Shell (execAsync of utils.js, operations on output), Substrate, Services
--                (service.js, polkadot.js, centrifuge.js), Wireguard, Archipel, Generate, Init; Files is
--                the rest of utils.js, and Command the two commands with their files
--   Page         the dashboard, ui/src/ArchipelModule.js: its controls, when they are shown and what
--                they do; Rows is its list of heartbeats
--   Tests        concrete worlds and states, and runs on them
--
-- Names. A method `orchestrateService` is the definition `orchestrate_service`, a field
-- `noReadyCount` the field `no_ready_count`. A method on an object of class C is an
-- `Exec (C × W) A`: a function from the object and the world outside to a result and their new
-- values, where a result is a value, a thrown error, or a promise that never settles. `try`/`catch`
-- is `try_catch`, which keeps the state that the failed block had reached. A handler runs to its
-- end before the next begins: what the event loop could interleave between two `await`s of
-- different handlers is not modelled, and `listenEvents` finishes a `serviceStart` that the code
-- starts without waiting for it.
--
-- Numbers. JavaScript's numbers are used as integers here: `Number` is an integer of any size or
-- NaN, with the comparisons of JavaScript, in which NaN is neither equal nor ordered. Rounding
-- above 2^53 is not modelled. Counters that only count up are natural numbers. All loops of the
-- program run over lists and texts or up to a number, so they need no fuel, but for `rmNonEmptyDir`
-- of the tool, whose fuel is the number of directories that it may go down; Cli/Files/Removal
-- proves how much is enough.
--
-- Modules below. Chain/Sending is about transactions, Chain/Progress about a chain that stands
-- still; Heartbeats/Entries and Liveness are about the map, Listing models `getAllHeartbeats`;
-- Docker/Starting and Total are about the client of the daemon, and Docker/Daemon says what is
-- relied on of the daemon where the containers matter. Polkadot/State, Keys, Health and Launch hold
-- the methods of the class, and Polkadot/Ready and the modules below Keys and Launch the proofs.
-- Orchestrator/State, Leadership, Readiness, Decision and Info hold the methods of the class;
-- Frames, Safety, Waiting, Patience and Reading the proofs. Config/Checks, Utils/Options,
-- Config/Texts, App/Events, App/Switches, App/Actions/Off, the modules below App/Startup and
-- Routes/Requests, Page/Session, Passive and Truth, and Orchestrator/Identity are proofs
-- (App/Actions is what a process does once it is launched); so are Pallet/Log, History, Accounts,
-- Federation/Steps, Exclusion, Handlers, Calls and Reachable,
-- Polkadot/Environment/Sufficient, Cli/Wireguard/Whole, Cli/Services/Peers and Entries,
-- Cli/Files/Removal, Cli/Command/Cleared, and the modules below Cli/Generate, where Objects says
-- what the orchestrator reads of the configuration.
--
-- The daemon. Most theorems hold for every answer of the Docker daemon. Those on the containers
-- that exist need a daemon that keeps the contract `Daemon` of Docker/Daemon: its list is that of
-- the existing containers, names are given once, the removal of a container that is
-- there succeeds, and only a creation adds one, with the name that was asked for. Tests/Host is such a daemon.
--
-- The pallet. A storage map is a function from its keys, and `get_` reads a missing entry as the
-- default of its type, for accounts the parameter `default_account`. A call that fails leaves the
-- storage alone, since all its tests stand before the first write. Counts have the bounds of u32.
--
-- The federation. The state is the orchestrators of all nodes, the storage of the pallet, and for
-- each node the events it has not read. A step is a call of the pallet, which adds its events to
-- every node's; an orchestration of a node; the callback of a node for the next events; or anything
-- else that leaves role and group alone and makes no service active. An orchestration asks the
-- chain several times while other nodes act: its step stands at its last question for the leader,
-- whose answer must be that of the pallet at that moment. Its own calls are steps before it.
--
-- Not modelled. The texts printed for the operator and for `debug`; `readToObj` and dotenv; what
-- Express does around the handlers. How Express matches a path, and `Array.prototype.sort` with
-- `localeCompare` for the list of heartbeats, are parameters. Of the
-- tool: the prompt for the password and the parsing of arguments. Fees, weights and the blocks of the chain; the layout, the tables and the messages of
-- the web page (ui/) and the deployment scripts (deployer/).
pub mod Base
pub mod Env
pub mod Utils
pub mod Config
pub mod Heartbeats
pub mod Chain
pub mod Docker
pub mod Polkadot
pub mod Service
pub mod Orchestrator
pub mod Routes
pub mod App
pub mod Pallet
pub mod Federation
pub mod Cli
pub mod Page
mod Tests
