-- ===== src/Env.antt =====
-- What the orchestrator calls and does not implement: the packages @polkadot/api,
-- @polkadot/keyring, dockerode, axios and fs-extra, the host name and the timers. `W` is the state
-- of the world outside the process. A call may change it in any way, so what other nodes, the
-- Docker daemon and the blockchain do while the process waits is part of the call.
use habs.Base.{ℕ, String, Bool, Option, List, Result, Exec, Number}

-- `ExtrinsicStatus` of @polkadot/api, an enum with a getter `isReady`, … for each variant.
pub data Status : Type 0 where
  future ready broadcast in_block retracted finality_timeout finalized usurped dropped invalid :
      Status

-- An event of the chain. `field_at i` is `data[i].toString()`: the client decodes an event by the
-- metadata of the chain, so each event of the pallet has the fields that the pallet declares for
-- it (NewLeader two, NewHeartbeat four), and the program reads no others. `data_is_json` says whether `JSON.parse(data.toString())` succeeds.
pub record Event : Type 0 where
  pub section : String
  pub method : String
  pub field_at : ℕ → String
  pub data_is_json : Bool

-- What the callback of `send` receives.
pub record Notification : Type 0 where
  pub status : Status
  pub events : List Event

-- The calls of the pallet `archipelModule` that the orchestrator submits.
pub data Call : Type 0 where
  add_heartbeat : Number → ℕ → Call
  set_leader : String → Number → Call
  give_up_leadership : Number → Call

-- A pair of `Keyring.addFromUri`; `public_key` is its public key as hex text.
pub record KeyPair : Type 0 where
  pub address : String
  pub public_key : String

pub record Health : Type 0 where
  pub peers : String
  pub is_syncing : String

-- Queries answer with a codec, and the program uses its text only.
pub record NodeApi (W : Type 0) : Type 0 where
  -- `new WsProvider`, `ApiPromise.create` and the three calls that print what it is connected to
  pub connect : String → Exec W (Unit {0})
  pub is_connected : W → Bool
  pub leaders : Number → Exec W String
  pub leaded_group : Number → Exec W String
  pub heartbeats : String → Exec W String
  pub nodes_status : String → Exec W String
  pub groups : String → Exec W String
  pub best_number : Exec W String
  pub best_number_finalized : Exec W String
  pub health : Exec W Health
  pub local_peer_id : Exec W String
  pub account_nonce : String → Exec W String
  -- `api.tx.….sign(keys, { nonce }).send(callback)`: what the callback receives, in order
  pub send : Call → KeyPair → String → Exec W (List Notification)
  pub disconnect : Exec W (Unit {0})

pub record ContainerInfo : Type 0 where
  pub id : String
  pub names : List String

-- A mount of a container; one that is no volume has no `Name`.
pub record Mount : Type 0 where
  pub name : Option String

-- What `inspect` gives: `State.Running` and `Mounts`.
pub record Description : Type 0 where
  pub running : Bool
  pub mounts : List Mount

pub record MountSpec : Type 0 where
  pub target : String
  pub source : String

pub record ContainerData : Type 0 where
  pub name : String
  pub image : String
  pub cmd : List String
  pub mounts : List MountSpec
  pub network_mode : Option String

-- dockerode. An id that `list_containers` or `create_container` gave names a container.
pub record Dockerode (W : Type 0) : Type 0 where
  pub inspect_image : String → Exec W (Unit {0})
  pub pull : String → Exec W (Unit {0})
  pub remove_image : String → Exec W (Unit {0})
  pub inspect_volume : String → Exec W (Unit {0})
  pub create_volume : String → Exec W (Unit {0})
  pub remove_volume : String → Exec W (Unit {0})
  pub list_containers : Exec W (List ContainerInfo)
  pub inspect : String → Exec W Description
  pub create_container : ContainerData → Exec W String
  pub start : String → Exec W (Unit {0})
  pub stop : String → Exec W (Unit {0})
  pub remove : String → Exec W (Unit {0})
  -- the text of the output stream of a command
  pub exec : String → List String → Exec W String

pub record FileSystem (W : Type 0) : Type 0 where
  pub exists : String → W → Bool
  pub ensure_dir : String → Exec W (Unit {0})
  pub copy : String → String → Exec W (Unit {0})
  pub chown : String → ℕ → ℕ → Exec W (Unit {0})

-- The JSON-RPC requests of the service, which the program writes out as JSON text.
pub data Rpc : Type 0 where
  author_insert_key : String → String → String → Rpc
  author_has_key : String → String → Rpc
  author_has_session_keys : String → Rpc
  system_health : Rpc

pub record Env (W : Type 0) : Type 0 where
  -- `new Keyring({ type }).addFromUri(seed)`
  pub add_from_uri : String → String → Result KeyPair
  pub api : NodeApi W
  pub docker : Dockerode W
  -- `axios.post(url, parameters)`: `JSON.stringify(response.data)`, if there is such data
  pub post : String → Rpc → Exec W (Option String)
  pub fs : FileSystem W
  pub hostname : String
  -- `await new Promise(resolve => setTimeout(resolve, ms))`
  pub sleep : ℕ → W → W
