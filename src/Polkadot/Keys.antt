-- ===== src/Polkadot/Keys.antt =====
-- The keystore: `importKey`, `checkKeyAdded`, `checkSessionKeysOnNode`, `polkadotKeysImport`
pub mod Pigeonhole
pub mod Distinct
pub mod Outside
use habs.Base.{
  ℕ, String, Bool, true, false, not, ◌||◌, Option, none, some, List, [], ◌∷◌, ◌++◌, leb, length,
  if◌then◌else◌, ◌==◌, ◌<>◌, includes, show_nat, Exec, pure, lift, gets, modify, try_catch, ◌>>=◌,
  ◌>>◌,
}
use habs.Env.{Env, author_insert_key, author_has_key, author_has_session_keys}
use habs.Utils.{get_keys_from_seed, is_empty_string}
use habs.Polkadot.State.{Polkadot, PolkadotConfig, on_world, set_fields, get_config}

-- `importedKeys.includes(key)`
unfoldable pub contains : String → List String → Bool
contains key [] = false
contains key (k ∷ ks) = k == key || contains key ks

unfoldable pub rpc_url : PolkadotConfig → String
rpc_url config = "http://127.0.0.1:" <> show_nat config.polkadot_rpc_port

-- `result.includes('true')`, where there is a result
abbrev pub says_true : Option String → Bool
says_true none = false
says_true (some result) = includes result "true"

abbrev pub is_some : Option String → Bool
is_some none = false
is_some (some s) = true

abbrev pub key_text : Option String → String
key_text none = ""
key_text (some s) = s

module _ {W : Type 0} (env : Env W) where
  open env use {post, sleep}

  -- Check if a key was successfully added
  unfoldable pub check_key_added : String → String → Exec (Polkadot × W) Bool
  check_key_added key key_type = do
    config ← get_config
    result ← on_world (post (rpc_url config) (author_has_key key key_type))
    pure (says_true result)

  -- Check if session keys were successfully set
  unfoldable pub check_session_keys_on_node : Exec (Polkadot × W) Bool
  check_session_keys_on_node =
      try_catch
        (do
          config ← get_config
          if is_empty_string config.polkadot_session_key_to_check then pure false else do
            let keys = key_text config.polkadot_session_key_to_check
            result ← on_world (post (rpc_url config) (author_has_session_keys keys))
            pure (says_true result))
        (pure false)

  -- A post that fails gives no result. Whether the result is an error is only printed.
  unfoldable pub insert_key : String → String → String → Exec (Polkadot × W) Bool
  insert_key mnemonic type public_key = do
    config ← get_config
    let request = author_insert_key type mnemonic public_key
    result_post ← on_world (try_catch (post (rpc_url config) request) (pure none))
    if not (is_some result_post) then pure false else do
      key_added ← check_key_added public_key type
      if not key_added then pure false else do
        _ ← check_session_keys_on_node
        set_fields (λ p. record p { imported_keys = p.imported_keys ++ public_key ∷ [] })
        pure true

  -- Importing a key in keystore
  unfoldable pub import_key : String → String → String → Exec (Polkadot × W) Bool
  import_key mnemonic crypto type = do
    keys ← lift (get_keys_from_seed env mnemonic crypto)
    imported ← gets (λ s. contains keys.public_key s.0.imported_keys)
    if imported then pure false else insert_key mnemonic type keys.public_key

  -- The six imports, in their order.
  unfoldable pub import_all : PolkadotConfig → Exec (Polkadot × W) (Unit {0})
  import_all config = do
    _ ← import_key config.polkadot_key_gran "ed25519" "gran"
    _ ← import_key config.polkadot_key_babe "sr25519" "babe"
    _ ← import_key config.polkadot_key_imon "sr25519" "imon"
    _ ← import_key config.polkadot_key_para "sr25519" "para"
    _ ← import_key config.polkadot_key_asgn "sr25519" "asgn"
    _ ← import_key config.polkadot_key_audi "sr25519" "audi"
    pure tt

  -- The body of the `try` in `polkadotKeysImport`
  unfoldable pub import_missing : Exec (Polkadot × W) Bool
  import_missing = do
    count ← gets (λ s. length s.0.imported_keys)
    if leb 6 count then pure false else do
      delay ← gets (λ s. s.0.imported_keys_delay)
      on_world (modify (sleep delay))
      config ← get_config
      import_all config
      pure true

  -- Import wallets to polkadot keystore
  unfoldable pub polkadot_keys_import : Exec (Polkadot × W) Bool
  unfolding import_missing
  polkadot_keys_import = try_catch import_missing (pure false)
