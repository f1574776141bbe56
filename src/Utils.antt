-- ===== src/Utils.antt =====
-- orchestrator/src/utils.js
pub mod Options
use habs.Base.{
  ℕ, ◌+◌, String, Bool, true, ◌&&◌, ◌||◌, not, Option, none, some, List, [], ◌∷◌, ◌++◌, leb,
  nat_beq, if◌then◌else◌, length, ◌==◌, ◌<>◌, is_empty, split, starts_with, show_nat, Result, ok,
  err, pending, Exec, pure, throw, when, ◌>>◌,
}
use Prim.Native.Char.{code}
use habs.Env.{
  Status, future, ready, broadcast, in_block, retracted, finality_timeout, finalized, usurped,
  dropped, invalid, KeyPair, FileSystem, Env,
}

-- Create a Keyring from seed. `!_seed` is the test for the empty text.
unfoldable pub get_keys_from_seed : {W : Type 0} → Env W → String → String → Result KeyPair
get_keys_from_seed env seed type =
    if is_empty seed then err "Provided wallet seed is not valid." else env.add_from_uri type seed

-- `(await …).address`
abbrev pub address_of : Result KeyPair → Result String
address_of (ok keys) = ok keys.address
address_of (err e) = err e
address_of pending = pending

-- `replace(/[^\x20-\x7E]/g, '')`: the printable characters of a stream's text.
unfoldable pub stream_to_string : String → String
stream_to_string String.[] = ""
stream_to_string (String.◌∷◌ c s) =
    let rest = stream_to_string s in
    if leb 32 (code c) && leb (code c) 126 then String.◌∷◌ c rest else rest

unfoldable pub from_mode_to_node_status : String → ℕ
from_mode_to_node_status mode = if mode == "active" then 1 else if mode == "passive" then 2 else 0

-- Check is string is not set or is empty
unfoldable pub is_empty_string : Option String → Bool
is_empty_string none = true
is_empty_string (some s) = is_empty s

-- Check is a variable is set
unfoldable pub check_variable : Option String → String → Result Bool
unfolding is_empty_string
check_variable value name =
    if is_empty_string value then err ("Error! Variable " <> name <> " was not set.") else ok true

-- The body of the reduction: the option, then the item.
unfoldable pub push_option : String → List String → List String → List String
push_option option result [] = result
push_option option result (item ∷ items) = push_option option (result ++ option ∷ item ∷ []) items

-- `''` for either argument gives no parameters.
unfoldable pub format_option_list : String → String → List String
unfolding push_option
format_option_list option input_list =
    if is_empty option || is_empty input_list
    then []
    else push_option option [] (split 44 input_list)

unfoldable pub push_items : List String → List String → List String
push_items result [] = result
push_items result (item ∷ items) = push_items (result ++ item ∷ []) items

-- Create a list of params from a string separated by a space
unfoldable pub format_option_cmds : String → List String
unfolding push_items
format_option_cmds input_cmds =
    if is_empty input_cmds
    then []
    else if nat_beq (length (split 32 input_cmds)) 1
    then input_cmds ∷ []
    else push_items [] (split 32 input_cmds)

pub record Node : Type 0 where
  pub wallet : String
  pub name : String

unfoldable pub push_nodes : String → List Node → List String → ℕ → List Node
push_nodes archipel_name result [] index = result
push_nodes archipel_name result (item ∷ items) index =
    push_nodes archipel_name
      (result
        ++ (record { wallet = item; name = archipel_name <> "-NODE-" <> show_nat (index + 1) })
          ∷ [])
      items (index + 1)

-- Construct nodes list with wallets and nodes names
unfoldable pub construct_nodes_list : String → String → List Node
unfolding is_empty_string push_nodes
construct_nodes_list nodes_wallets archipel_name =
    if is_empty_string (some nodes_wallets) || is_empty_string (some archipel_name)
    then []
    else push_nodes archipel_name [] (split 44 nodes_wallets) 0

-- Show transaction status in debug
unfoldable pub transaction_get_status : Option Status → String
transaction_get_status none = "Failed to get status."
transaction_get_status (some invalid) = "Transaction is invalid."
transaction_get_status (some dropped) = "Transaction is dropped."
transaction_get_status (some usurped) = "Transaction is usurped."
transaction_get_status (some ready) = "Transaction is ready."
transaction_get_status (some future) = "Transaction is future."
transaction_get_status (some finalized) = "Transaction is finalized."
transaction_get_status (some broadcast) = "Transaction is broadcast."
transaction_get_status (some in_block) = "Transaction is included in block."
transaction_get_status (some retracted) = "Transaction is retracted."
transaction_get_status (some finality_timeout) = "Transaction is finality timeout."

module _ {W : Type 0} (fs : FileSystem W) where
  -- The reduction over the folders of the target path, which gives every one its owner.
  chown_folders : ℕ → ℕ → ℕ → String → ℕ → List String → Exec W (Unit {0})
  chown_folders user group start_from path index [] = pure tt
  chown_folders user group start_from path index (element ∷ elements) = do
    when (not (is_empty path) && leb start_from index) (fs.chown path user group)
    chown_folders user group start_from (path <> "/" <> element) (index + 1) elements

  abbrev without_first : List String → List String
  without_first [] = []
  without_first (x ∷ xs) = xs

  -- Copy a file from one directory to another and set permissions
  unfoldable pub copy_a_file : String → String → String → ℕ → ℕ → ℕ → Exec W (Unit {0})
  unfolding chown_folders
  copy_a_file source_dir target_dir file_name user group start_from =
      if is_empty source_dir || is_empty target_dir || is_empty file_name
      then throw "Source, target dirs and file to copy must be set"
      else if not (starts_with source_dir "/") || not (starts_with target_dir "/")
      then throw "Please specify absolute path for source and target dirs"
      else do
        fs.ensure_dir target_dir
        fs.copy (source_dir <> "/" <> file_name) (target_dir <> "/" <> file_name)
        when (not (nat_beq user 0) && not (nat_beq group 0)) (do
          chown_folders user group start_from "" 0 (without_first (split 47 target_dir))
          fs.chown target_dir user group
          fs.chown (target_dir <> "/" <> file_name) user group)
