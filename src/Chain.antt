-- ===== src/Chain.antt =====
-- orchestrator/src/chain.js, but for `listenEvents`, which acts on the orchestrator (App.antt)
pub mod Sending
pub mod Progress
use habs.Base.{
  ℕ, ◌+◌, String, Bool, true, false, not, ◌&&◌, ◌||◌, Option, none, some, List, [], ◌∷◌, leb,
  if◌then◌else◌, ◌==◌, Result, ok, err, pending, Exec, pure, lift, gets, modify, try_catch, zoom,
  ◌>>=◌, ◌>>◌, Number, num, minus, at_least, same, parse_int,
}
use habs.Env.{Status, finalized, usurped, dropped, invalid, Event, Notification, Call, KeyPair, Env}
use habs.Env
use habs.Utils.{get_keys_from_seed, from_mode_to_node_status}

pub record Chain : Type 0 where
  pub last_block_number : Number
  pub last_block_accumulator : ℕ
  pub last_block_threshold : ℕ
  pub finalized_gap : ℕ

-- The constructor.
abbrev pub new : Chain
new = record {
  last_block_number = num 0;
  last_block_accumulator = 0;
  last_block_threshold = 10;
  finalized_gap = 10;
}

abbrev pub leader_text : Option String → String
leader_text none = "false"
leader_text (some s) = s

-- `syncState === true`, where `none` is the 0 of a failed call
abbrev pub is_syncing : Option Bool → Bool
is_syncing (some b) = b
is_syncing none = false

-- An event of the pallet that `JSON.parse` in the debug line before `resolve(true)` lets through.
abbrev pub confirms : String → Event → Bool
confirms method event =
    event.section == "archipelModule" && event.method == method && event.data_is_json

abbrev pub any_confirms : String → List Event → Bool
any_confirms method [] = false
any_confirms method (event ∷ events) = confirms method event || any_confirms method events

-- What one notification resolves the promise of a transaction to, if it does.
abbrev pub verdict : String → Status → List Event → Option Bool
verdict method finalized events = some (any_confirms method events)
verdict method dropped events = some false
verdict method invalid events = some false
verdict method usurped events = some false
verdict method _ events = none

-- The first notification that resolves the promise counts.
unfoldable pub settle : String → List Notification → Option Bool
settle method [] = none
settle method (n ∷ ns) = elim (verdict method n.status n.events) [
  | none ↦ settle method ns
  | some b ↦ some b
]

abbrev settled : Option Bool → Result Bool
settled none = pending
settled (some b) = ok b

abbrev pub on_world : {W A : Type 0} → Exec W A → Exec (Chain × W) A
on_world = zoom (λ s. s.1) (λ s w. (s.0, w))

-- The body of `chainMovingForward` once the best block is known.
unfoldable pub note_block : Number → Chain → Result Bool × Chain
note_block current c =
    let stuck = same c.last_block_number current in
    let acc = if stuck then c.last_block_accumulator + 1 else 0 in
    if stuck && leb c.last_block_threshold acc
    then (ok false, record c { last_block_accumulator = acc })
    else (ok true, record c { last_block_accumulator = acc; last_block_number = current })

-- `peersNumber !== 0 && syncState !== true`
abbrev pub is_healthy : Number → Option Bool → Bool
is_healthy peers syncing = not (same peers (num 0)) && not (is_syncing syncing)

module _ {W : Type 0} (env : Env W) where
  open env use {api, sleep}

  -- The queries: each catches every error and answers with a value of its own.
  unfoldable pub get_leader : Number → Exec W (Option String)
  get_leader group = try_catch (do t ← api.leaders group; pure (some t)) (pure none)

  unfoldable pub is_leaded_group : Number → Exec W Bool
  is_leaded_group group = try_catch (do t ← api.leaded_group group; pure (t == "true")) (pure false)

  abbrev parsed_or_zero : Exec W String → Exec W Number
  parsed_or_zero query = try_catch (do t ← query; pure (parse_int t)) (pure (num 0))

  unfoldable pub get_heartbeat : String → Exec W Number
  get_heartbeat key = parsed_or_zero (api.heartbeats key)

  unfoldable pub get_node_status : String → Exec W Number
  get_node_status key = parsed_or_zero (api.nodes_status key)

  unfoldable pub get_node_group : String → Exec W Number
  get_node_group key = parsed_or_zero (api.groups key)

  unfoldable pub get_best_number : Exec W Number
  get_best_number = parsed_or_zero api.best_number

  unfoldable pub get_best_number_finalized : Exec W Number
  get_best_number_finalized = parsed_or_zero api.best_number_finalized

  unfoldable pub get_peer_number : Exec W Number
  get_peer_number = try_catch (do health ← api.health; pure (parse_int health.peers)) (pure (num 0))

  -- Gives true if node is synching, and 0 (here `none`) on an error
  unfoldable pub get_sync_state : Exec W (Option Bool)
  get_sync_state =
      try_catch (do health ← api.health; pure (some (health.is_syncing == "true"))) (pure none)

  unfoldable pub get_peer_id : Exec W (Option String)
  get_peer_id = try_catch (do t ← api.local_peer_id; pure (some t)) (pure none)

  unfoldable pub is_connected : W → Bool
  is_connected w = api.is_connected w

  unfoldable pub disconnect : Exec W Bool
  disconnect = try_catch (do api.disconnect; pure true) (pure false)

  -- Connect to chain
  unfoldable pub connect : String → Exec (Chain × W) (Unit {0})
  connect ws_provider = do
    on_world (api.connect ws_provider)
    best ← on_world get_best_number
    modify (λ s. (record (s.0) { last_block_number = best }, s.1))

  -- Check if chain is moving forward, and give false once the threshold is reached
  unfoldable pub chain_moving_forward : Exec (Chain × W) Bool
  chain_moving_forward = do
    current ← on_world get_best_number
    zoom (λ s. s.0) (λ s c. (c, s.1)) (note_block current)

  -- The peers and the sync state, read a second time after 5 seconds if they are not good.
  unfoldable pub check_health : Exec W Bool
  check_health = do
    peers ← get_peer_number
    syncing ← get_sync_state
    if is_healthy peers syncing then pure true else do
      modify (sleep 5000)
      peers' ← get_peer_number
      syncing' ← get_sync_state
      pure (is_healthy peers' syncing')

  -- If node state permits to send transactions
  unfoldable pub can_send_transactions : Exec (Chain × W) Bool
  can_send_transactions = do
    connected ← gets (λ s. is_connected s.1)
    if not connected then pure false else do
      moving ← chain_moving_forward
      if not moving then pure false else do
        best ← on_world get_best_number
        finalized_best ← on_world get_best_number_finalized
        gap ← gets (λ s. s.0.finalized_gap)
        if at_least (minus best finalized_best) (num gap) then pure false else on_world check_health

  -- The promise of a signed and sent transaction.
  unfoldable pub submit : String → Call → KeyPair → String → Exec W Bool
  unfolding settle
  submit method call keys nonce = do
    notifications ← api.send call keys nonce
    lift (settled (settle method notifications))

  -- Send heartbeat
  unfoldable pub add_heartbeat : String → String → Number → Exec (Chain × W) Bool
  add_heartbeat mode mnemonic node_group_id = do
    send_transaction ← can_send_transactions
    if not send_transaction then pure false else do
      keys ← lift (get_keys_from_seed env mnemonic "sr25519")
      nonce ← on_world (api.account_nonce keys.address)
      on_world (
          submit "NewHeartbeat" (Call.add_heartbeat node_group_id (from_mode_to_node_status mode))
            keys nonce)

  -- Set leader
  unfoldable pub set_leader : String → Number → String → Exec (Chain × W) Bool
  set_leader old_leader group_id mnemonic = do
    send_transaction ← can_send_transactions
    if not send_transaction then pure false else do
      keys ← lift (get_keys_from_seed env mnemonic "sr25519")
      nonce ← on_world (api.account_nonce keys.address)
      on_world (submit "NewLeader" (Call.set_leader old_leader group_id) keys nonce)

  -- Give Up Leadership
  unfoldable pub give_up_leadership : Number → String → Exec (Chain × W) Bool
  give_up_leadership group_id mnemonic = do
    send_transaction ← can_send_transactions
    if not send_transaction then pure false else do
      keys ← lift (get_keys_from_seed env mnemonic "sr25519")
      nonce ← on_world (api.account_nonce keys.address)
      on_world (submit "GiveUpLeader" (Call.give_up_leadership group_id) keys nonce)
