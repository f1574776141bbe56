-- ===== src/Polkadot/Health.antt =====
-- `isServiceReadyToStart`, with the two regular expressions that it matches
use habs.Base.{
  String, Bool, true, false, not, Option, none, some, ltb, nat_beq, length, if◌then◌else◌,
  starts_with, includes, is_empty, is_digit, num, less, parse_int, Exec, pure, throw, gets,
  try_catch, ◌>>=◌,
}
use Prim.Native.Char.{code}
use habs.Env.{Env, system_health}
use habs.Polkadot.State.{Polkadot, PolkadotConfig, on_world, get_config}
use habs.Polkadot.Keys.{rpc_url}

-- What follows the text `p` at the head of `s`, if `s` starts with `p`.
unfoldable pub strip_prefix : String → String → Option String
strip_prefix String.[] s = some s
strip_prefix (String.◌∷◌ c p) String.[] = none
strip_prefix (String.◌∷◌ c p) (String.◌∷◌ d s) =
    let rest = strip_prefix p s in if nat_beq (code c) (code d) then rest else none

-- The longest prefix of digits.
unfoldable pub take_digits : String → String
take_digits String.[] = ""
take_digits (String.◌∷◌ c s) =
    let rest = take_digits s in if is_digit (code c) then String.◌∷◌ c rest else ""

abbrev digits_of : Option String → Option String
digits_of none = none
digits_of (some s) = if is_empty (take_digits s) then none else some (take_digits s)

-- A match of `/"peers":\d+/` at the head of the text: what stands behind its colon.
peers_here : String → Option String
unfolding strip_prefix take_digits
peers_here s = digits_of (strip_prefix "\"peers\":" s)

abbrev or_later {ℓ} : {A : Type ℓ} → Option A → Option A → Option A
or_later (some a) later = some a
or_later none later = later

-- The first match.
unfoldable pub match_peers : String → Option String
unfolding peers_here
match_peers String.[] = none
match_peers (String.◌∷◌ c s) =
    let later = match_peers s in or_later (peers_here (String.◌∷◌ c s)) later

-- `/"isSyncing":true|false/` has the alternatives `"isSyncing":true` and `false`. The first match,
-- as the test whether it includes `true`.
syncing_here : String → Option Bool
syncing_here s =
    if starts_with s "\"isSyncing\":true"
    then some true
    else if starts_with s "false"
    then some false
    else none

unfoldable pub match_syncing : String → Option Bool
unfolding syncing_here
match_syncing String.[] = none
match_syncing (String.◌∷◌ c s) =
    let later = match_syncing s in or_later (syncing_here (String.◌∷◌ c s)) later

-- What the text of the answer of system_health is taken for.
pub data Verdict : Type 0 where
  no_result no_peers_field no_peers syncing synced no_match : Verdict

sync_verdict : Option Bool → Verdict
sync_verdict none = no_match
sync_verdict (some true) = syncing
sync_verdict (some false) = synced

-- `peersNumber <= 0`; the matched digits are never NaN.
peers_verdict : String → Option String → Verdict
unfolding sync_verdict
peers_verdict health none = no_peers_field
peers_verdict health (some digits) =
    if less (num 0) (parse_int digits) then sync_verdict (match_syncing health) else no_peers

unfoldable pub judge : String → Verdict
unfolding peers_verdict
judge health =
    if not (includes health "\"result\":")
    then no_result
    else peers_verdict health (match_peers health)

-- The last tests, once the text is judged. `null.toString()` throws where nothing matches.
unfoldable pub accept_verdict : {W : Type 0} → Verdict → Exec (Polkadot × W) Bool
accept_verdict synced = do count ← gets (λ s. length s.0.imported_keys); pure (not (ltb count 6))
accept_verdict no_match = throw "Cannot read property 'toString' of null"
accept_verdict _ = pure false

module _ {W : Type 0} (env : Env W) where
  -- The tests after the answer has come.
  unfoldable pub accept : Option String → Exec (Polkadot × W) Bool
  unfolding accept_verdict
  accept none = pure false
  accept (some health) = accept_verdict (judge health)

  -- The call of system_health and the tests of its answer.
  unfoldable pub ask_health : PolkadotConfig → Exec (Polkadot × W) Bool
  ask_health config = do
    result_post ← on_world (env.post (rpc_url config) system_health)
    accept result_post

  -- Check if polkadot node is ready to operate
  unfoldable pub is_service_ready_to_start : Exec (Polkadot × W) Bool
  unfolding ask_health
  is_service_ready_to_start =
      try_catch
        (do
          config ← get_config
          if config.polkadot_simulate_synch then pure true else ask_health config)
        (pure false)
