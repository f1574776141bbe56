-- ===== src/Orchestrator/Leadership.antt =====
-- `becomeLeader`, `otherLeaderAction`, `leadershipManagement`, `forceActive`
use habs.Base.{
  ◌+◌, String, Bool, true, false, not, Option, none, some, ltb, if◌then◌else◌, ◌==◌, Number, num,
  minus, less, same, Exec, pure, lift, gets, modify, ◌>>=◌, ◌>>◌,
}
use habs.Env.{Env}
use habs.Utils.{get_keys_from_seed, address_of}
use habs.Heartbeats.{Heartbeat, get_heartbeat}
use habs.Chain.{leader_text, get_leader, is_leaded_group, get_best_number, set_leader}
use habs.Orchestrator.State.{
  Orchestrator, on_world, on_chain, set_fields, is_noservice, service_start,
}

-- `leaderHeartbeat && leaderHeartbeat.blockNumber !== 0`: the block number of a real heartbeat
abbrev pub known_block : Option Heartbeat → Option Number
known_block none = none
known_block (some h) = if same h.block_number (num 0) then none else some h.block_number

module _ {W : Type 0} (env : Env W) where
  -- The address of the node: `(await getKeysFromSeed(this.mnemonic)).address`
  abbrev pub node_key : Exec (Orchestrator × W) String
  node_key = do
    mnemonic ← gets (λ s. s.0.mnemonic)
    lift (address_of (get_keys_from_seed env mnemonic "sr25519"))

  -- Take leader place
  unfoldable pub become_leader : String → Exec (Orchestrator × W) Bool
  become_leader old_leader = do
    o ← gets (λ s. s.0)
    taken ← on_chain (set_leader env old_leader o.group o.mnemonic)
    if not taken then pure false else do on_world (modify (env.sleep 10000)); pure true

  -- No heartbeat of the leader is known: wait for `noLivenessThreshold` checks.
  unfoldable pub leader_unknown : String → Exec (Orchestrator × W) Bool
  leader_unknown current_leader = do
    o ← gets (λ s. s.0)
    if ltb o.no_liveness_from_leader o.no_liveness_threshold
        then (do
          set_fields (λ o. record o { no_liveness_from_leader = o.no_liveness_from_leader + 1 })
          pure false)
        else do
          set_fields (λ o. record o { no_liveness_from_leader = 0 })
          become_leader current_leader

  -- The last heartbeat of the leader was in block `block`.
  unfoldable pub leader_seen : String → Number → Exec (Orchestrator × W) Bool
  leader_seen current_leader block = do
    best ← on_world (get_best_number env)
    alive_time ← gets (λ s. s.0.alive_time)
    if less alive_time (minus best block) then become_leader current_leader else pure false

  -- Act if other node is leader
  unfoldable pub other_leader_action : String → Exec (Orchestrator × W) Bool
  other_leader_action current_leader = do
    found ← gets (λ s. known_block (get_heartbeat current_leader s.0.heartbeats))
    elim found [
      | none ↦ leader_unknown current_leader
      | some block ↦ leader_seen current_leader block
    ]

  -- Manage leadership
  -- Returns true if node is leader or was able to take leadership
  unfoldable pub leadership_management : String → Exec (Orchestrator × W) Bool
  leadership_management node_key = do
    group ← gets (λ s. s.0.group)
    current_leader ← on_world (get_leader env group)
    is_leaded ← on_world (is_leaded_group env group)
    if not is_leaded
        then become_leader node_key
        else if leader_text current_leader == node_key
        then pure true
        else other_leader_action (leader_text current_leader)

  -- Launch in active mode if the chain names this node.
  unfoldable pub start_if_leader : String → Exec (Orchestrator × W) Bool
  start_if_leader key = do
    group ← gets (λ s. s.0.group)
    current_leader ← on_world (get_leader env group)
    if leader_text current_leader == key
        then (do _ ← service_start env "active"; pure true)
        else pure false

  -- If active service mode is forced somewhere we will take leadership on chain and launch service
  -- in active mode
  unfoldable pub force_active : Exec (Orchestrator × W) Bool
  force_active = do
    noservice ← gets (λ s. is_noservice s.0)
    if noservice then pure false else do
      key ← node_key
      group ← gets (λ s. s.0.group)
      current_leader ← on_world (get_leader env group)
      if leader_text current_leader == key
          then (do _ ← service_start env "active"; pure true)
          else do
            is_leaded ← on_world (is_leaded_group env group)
            taken ← become_leader (if is_leaded then leader_text current_leader else key)
            if taken then start_if_leader key else pure false
