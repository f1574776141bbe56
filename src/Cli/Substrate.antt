-- ===== src/Cli/Substrate.antt =====
-- cli/src/substrate.js
use habs.Base.{
  ℕ, zero, suc, ◌+◌, String, Bool, not, Option, none, some, List, [], ◌∷◌, ◌<>◌, includes, show_nat,
  Exec, pure, throw, ◌>>=◌,
}
use habs.Cli.Shell.{
  Tools, exec_async, key_prefix, ticked, remove_ticks, address_line, address_of_line,
}

pub record SubstrateKey : Type 0 where
  pub seed : String
  pub sr25519_address : String
  pub ed25519_address : String

pub record NodeId : Type 0 where
  pub peer_id : String
  pub id_file : String

-- `match(…).toString()`, which throws where nothing matches
abbrev pub matched : {W : Type 0} → Option String → Exec W String
matched none = throw "Cannot read property 'toString' of null"
matched (some s) = pure s

module _ {W : Type 0} (tools : Tools W) where
  -- The body of the loop of `generateSubstrateKeys`
  unfoldable pub generate_key : Exec W SubstrateKey
  generate_key = do
    sub_key_result ← exec_async tools "subkey generate --network substrate"
    quoted ← matched (ticked sub_key_result)
    let seed = remove_ticks quoted
    sr_line ← matched (address_line sub_key_result)
    sub_key_result_ed ←
        exec_async tools ("subkey inspect --scheme Ed25519 --network substrate \"" <> seed <> "\"")
    ed_line ← matched (address_line sub_key_result_ed)
    pure (record {
      seed = seed;
      sr25519_address = address_of_line sr_line;
      ed25519_address = address_of_line ed_line;
    })

  -- Generate Substrate Keys and extract sr25519 and ed25519 addresses
  unfoldable pub generate_substrate_keys : ℕ → Exec W (List SubstrateKey)
  generate_substrate_keys zero = pure []
  generate_substrate_keys (suc n) = do
    key ← generate_key
    keys ← generate_substrate_keys n
    pure (key ∷ keys)

  -- The body of the loop of `generateNodeIds`
  unfoldable pub generate_node_id : String → ℕ → Exec W NodeId
  generate_node_id service i = do
    let id_file = service <> "-node-id-" <> show_nat i
    sub_key_command ←
        exec_async tools ("subkey generate-node-key --file /tmp/archipel-bootstrap/" <> id_file)
    pure (record { peer_id = key_prefix sub_key_command; id_file = id_file })

  -- The loop, from `i` on, for `n` nodes
  unfoldable pub node_ids_from : String → ℕ → ℕ → Exec W (List NodeId)
  node_ids_from service i zero = pure []
  node_ids_from service i (suc n) = do
    node ← generate_node_id service i
    nodes ← node_ids_from service (i + 1) n
    pure (node ∷ nodes)

  -- Create Node id files and get PeerIds
  unfoldable pub generate_node_ids : String → ℕ → Exec W (List NodeId)
  unfolding node_ids_from
  generate_node_ids service nodes_number = node_ids_from service 0 nodes_number

  abbrev seed_text : Option String → String
  seed_text none = "undefined"
  seed_text (some s) = s

  -- Validate a seed
  unfoldable pub validate_seed : Option String → Exec W Bool
  validate_seed seed = do
    sub_key_command ←
        exec_async tools
          ("subkey inspect --scheme Ed25519 --network substrate \"" <> seed_text seed <> "\"")
    pure (not (includes sub_key_command "Invalid"))
