-- ===== src/Cli/Wireguard.antt =====
-- cli/src/wireguard.js
pub mod Whole
use habs.Base.{
  ℕ, zero, suc, ◌+◌, String, Bool, true, false, ◌&&◌, Option, none, some, List, [], ◌∷◌, map, ◌<>◌,
  is_empty, join, show_nat, nat_beq, length, get_elem?, if◌then◌else◌, Exec, pure, throw, ◌>>=◌,
  ◌>>◌,
}
use habs.Cli.Shell.{Tools, exec_async, key_prefix, size}

pub record WireguardKey : Type 0 where
  pub private_key : String
  pub public_key : String

pub record WireguardConfig : Type 0 where
  pub external_addr_list : String
  pub peers_pub_addr_list : String
  pub nodes : List String
  pub allowed_ips_list : String

-- Both texts have the 44 characters of a key.
abbrev pub is_whole : WireguardKey → Bool
is_whole key = nat_beq (size key.private_key) 44 && nat_beq (size key.public_key) 44

-- The port of the list, if there is one that is not empty. The test of the length of the list
-- lets the index pass that is just beyond it, where the element is `undefined`.
abbrev port_of : Option String → String
port_of none = "51820"
port_of (some port) = if is_empty port then "51820" else port

abbrev pub ports_at : Option (List String) → ℕ → Option String
ports_at none index = none
ports_at (some ports) index = get_elem? ports index

-- The callback of `map`, from `index` on
unfoldable pub external_addresses : Option (List String) → ℕ → List String → List String
external_addresses ports index [] = []
external_addresses ports index (element ∷ elements) =
    (element <> ":" <> port_of (ports_at ports index))
    ∷ external_addresses ports (index + 1) elements

abbrev pub allowed_ips : ℕ → ℕ → List String
allowed_ips index zero = []
allowed_ips index (suc n) = ("10.0.1." <> show_nat (index + 1) <> "/32") ∷ allowed_ips (index + 1) n

module _ {W : Type 0} (tools : Tools W) where
  unfoldable pub generate_wireguard_key : Exec W WireguardKey
  generate_wireguard_key = do
    gen_key_cmd ← exec_async tools "wg genkey"
    let private_key = key_prefix gen_key_cmd
    public_key_cmd ← exec_async tools ("echo " <> private_key <> " | wg pubkey")
    pure (record { private_key = private_key; public_key = key_prefix public_key_cmd })

  -- Generate Wireguard keys. A key that is not whole is left out.
  unfoldable pub generate_wireguard_keys : ℕ → Exec W (List WireguardKey)
  generate_wireguard_keys zero = pure []
  generate_wireguard_keys (suc n) = do
    key ← generate_wireguard_key
    keys ← generate_wireguard_keys n
    pure (if is_whole key then key ∷ keys else keys)

  -- The loop that fills the nodes: `wireGuardKeys[i].privateKey` throws beyond the end of the list.
  unfoldable pub fill_nodes : List WireguardKey → ℕ → Exec W (List String)
  fill_nodes keys zero = pure []
  fill_nodes [] (suc n) = throw "Cannot read property 'privateKey' of undefined"
  fill_nodes (key ∷ keys) (suc n) = do nodes ← fill_nodes keys n; pure (key.private_key ∷ nodes)

  -- Generate Wireguard configuration
  unfoldable pub generate_wireguard_config :
      List String → Option (List String) → Exec W WireguardConfig
  generate_wireguard_config external_ip_addresses wireguard_ports_list = do
    keys ← generate_wireguard_keys (length external_ip_addresses)
    nodes ← fill_nodes keys (length external_ip_addresses)
    pure (record {
      external_addr_list =
          join "," (external_addresses wireguard_ports_list 0 external_ip_addresses);
      peers_pub_addr_list = join "," (map (λ (k : WireguardKey). k.public_key) keys);
      nodes = nodes;
      allowed_ips_list = join "," (allowed_ips 0 (length external_ip_addresses));
    })
