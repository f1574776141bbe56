-- ===== src/Tests/Settings.antt =====
-- Configurations at concrete environments.
use habs.Base.{
  ◌≡◌, refl, String, Option, none, some, [], ◌∷◌, Result, ok, err, num, if◌then◌else◌, ◌==◌,
  parse_int, split,
}
use habs.Config.{ConfigObject, Config, FileConfig, from_config_file}
use habs.Config
use habs.Config.Checks.{EntryOf, from_config_file-EntryOf}

abbrev federation : ConfigObject
federation = record {
  nodes_number = num 2;
  nodes_role = "operator,noservice";
  archipel_seeds = some "seed one" ∷ some "seed two" ∷ [];
  archipel_sr25519_list = some "alice,bob";
  name = some "habs";
  nodes_group_id = "1,1";
  service_names = some "polkadot" ∷ [];
}

abbrev read_federation : String → Result ConfigObject
read_federation path = if path == "/config/config.json" then ok federation else err "no such file"

-- The second node of the file.
abbrev variables : String → Option String
variables name =
    if name == "CONFIG_FILE" then some "true" else if name == "NODE_ID" then some "2" else none

abbrev second : FileConfig
second = record {
  node_role = some "noservice";
  mnemonic = some "seed two";
  nodes_wallets = some "alice,bob";
  archipel_name = some "habs";
  node_group_id = some "1";
  service = none;
}

second_accepted : from_config_file read_federation "/config/config.json" (some "2") ≡ ok second
unfolding from_config_file parse_int Config.from_object split
second_accepted = refl

from_config_file-EntryOf_example : EntryOf read_federation "/config/config.json" (some "2") second
from_config_file-EntryOf_example =
    from_config_file-EntryOf read_federation "/config/config.json" (some "2") second second_accepted
