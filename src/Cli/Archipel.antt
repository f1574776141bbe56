-- ===== src/Cli/Archipel.antt =====
-- cli/src/archipel.js
use habs.Base.{
  ℕ, zero, suc, String, Option, none, some, List, [], ◌∷◌, map, join, Exec, pure, throw, ◌>>=◌,
}
use habs.Cli.Shell.{Tools}
use habs.Cli.Substrate.{SubstrateKey, NodeId, generate_substrate_keys, generate_node_ids}
use habs.Cli.Services.{reserved_peers}

pub record ArchipelNode : Type 0 where
  pub seed : String
  pub node_id : Option NodeId

pub record ArchipelConfig : Type 0 where
  pub sr25519_list : String
  pub ed25519_list : String
  pub reserved_peers_list : String
  pub nodes : List ArchipelNode

-- The loop that fills the nodes, from `i` on for `n` nodes; past the end of the keys
-- `substrateKeys[i].seed` throws, past the end of the ids the entry is `undefined`.
unfoldable pub fill_nodes :
    {W : Type 0} → ℕ → List SubstrateKey → List NodeId → Exec W (List ArchipelNode)
fill_nodes zero keys ids = pure []
fill_nodes (suc n) [] ids = throw "Cannot read property 'seed' of undefined"
fill_nodes (suc n) (key ∷ keys) [] = do
  nodes ← fill_nodes n keys []
  pure (record { seed = key.seed; node_id = none } ∷ nodes)
fill_nodes (suc n) (key ∷ keys) (id ∷ ids) = do
  nodes ← fill_nodes n keys ids
  pure (record { seed = key.seed; node_id = some id } ∷ nodes)

module _ {W : Type 0} (tools : Tools W) where
  -- Generate Archipel configuration
  unfoldable pub generate_archipel_config : ℕ → Exec W ArchipelConfig
  generate_archipel_config federation_size = do
    substrate_keys ← generate_substrate_keys tools federation_size
    node_ids ← generate_node_ids tools "archipel" federation_size
    nodes ← fill_nodes federation_size substrate_keys node_ids
    pure (record {
      sr25519_list = join "," (map (λ (k : SubstrateKey). k.sr25519_address) substrate_keys);
      ed25519_list = join "," (map (λ (k : SubstrateKey). k.ed25519_address) substrate_keys);
      reserved_peers_list = reserved_peers "30334" node_ids;
      nodes = nodes;
    })
