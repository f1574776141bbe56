-- ===== src/Pallet.antt =====
-- chain/pallets/archipel/src/lib.rs: the storage of the pallet and its calls. Accounts are named by
-- their addresses; `default_account` is the value that a missing entry of type AccountId reads as.
pub mod Log
pub mod History
pub mod Accounts
use habs.Base.{
  ℕ, ◌+◌, String, Bool, true, false, not, Option, none, some, List, [], ◌∷◌, ◌++◌, leb, nat_beq,
  if◌then◌else◌, ◌==◌, Exec, pure, throw, gets, modify, when, ◌>>=◌, ◌>>◌,
}

pub data PalletEvent : Type 0 where
  new_heartbeat : (account : String) → (group node_status block : ℕ) → PalletEvent
  new_leader : (account : String) → (group : ℕ) → PalletEvent
  give_up_leader : (account : String) → (group : ℕ) → PalletEvent

-- The storage maps, and the events of the block. The keys of the maps are groups or accounts.
pub record Storage : Type 0 where
  pub heartbeats : String → ℕ
  pub nodes_status : String → ℕ
  pub groups : String → ℕ
  pub leaders : ℕ → Option String
  pub leaded_group : ℕ → Bool
  pub accounts : ℕ → Option String
  pub accounts_count : Option ℕ
  pub accounts_index : String → Option ℕ
  pub events : List PalletEvent

-- Before the first call.
abbrev pub genesis : Storage
genesis = record {
  heartbeats = λ a. 0;
  nodes_status = λ a. 0;
  groups = λ a. 0;
  leaders = λ g. none;
  leaded_group = λ g. false;
  accounts = λ i. none;
  accounts_count = none;
  accounts_index = λ a. none;
  events = [];
}

-- `StorageMap::insert` and `remove`
abbrev pub put_at {ℓ} : {A : Type ℓ} → ℕ → A → (ℕ → A) → ℕ → A
put_at key value map j = if nat_beq key j then value else map j

abbrev pub put_of {ℓ} : {A : Type ℓ} → String → A → (String → A) → String → A
put_of key value map j = if key == j then value else map j

pub data Origin : Type 0 where
  signed : String → Origin
  unsigned : Origin

abbrev pub is_held : Option String → Bool
is_held none = false
is_held (some a) = true

abbrev pub is_new : Option ℕ → Bool
is_new none = true
is_new (some i) = false

abbrev pub count_of : Option ℕ → ℕ
count_of none = 0
count_of (some n) = n

abbrev pub u32_max : ℕ
u32_max = 4294967295

-- `saturating_add(1)` on u32
abbrev pub saturating_add_one : ℕ → ℕ
saturating_add_one n = if leb u32_max n then u32_max else n + 1

abbrev pub ensure_signed : Origin → Exec Storage String
ensure_signed (signed account) = pure account
ensure_signed unsigned = throw "BadOrigin"

abbrev pub ensure : Bool → String → Exec Storage (Unit {0})
ensure b message = if b then pure tt else throw message

abbrev deposit_event : PalletEvent → Exec Storage (Unit {0})
deposit_event e = modify (λ p. record p { events = p.events ++ e ∷ [] })

-- Adding account
unfoldable pub add_account : String → Exec Storage (Unit {0})
add_account account = do
  p ← gets (λ p. p)
  when (is_new (p.accounts_index account)) (
      modify (λ p. record p {
        accounts = put_at (count_of p.accounts_count) (some account) p.accounts;
        accounts_count = some (saturating_add_one (count_of p.accounts_count));
        accounts_index = put_of account (some (count_of p.accounts_count)) p.accounts_index;
      }))

-- Add hearthbeats in block `now`
unfoldable pub add_heartbeat : ℕ → Origin → ℕ → ℕ → Exec Storage (Unit {0})
add_heartbeat now origin group_id node_status = do
  sender ← ensure_signed origin
  add_account sender
  modify (λ p. record p {
    groups = put_of sender group_id p.groups;
    heartbeats = put_of sender now p.heartbeats;
    nodes_status = put_of sender node_status p.nodes_status;
  })
  deposit_event (new_heartbeat sender group_id node_status now)

abbrev pub account_or : String → Option String → String
account_or default_account none = default_account
account_or default_account (some a) = a

module _ (default_account : String) where
  -- The getter, which reads a missing entry as the default.
  abbrev pub get_leader : ℕ → Storage → String
  get_leader group_id p = account_or default_account (p.leaders group_id)

  -- The test for a group that is led already.
  check_leader : String → String → ℕ → Exec Storage (Unit {0})
  check_leader sender old_leader group_id = do
    leader ← gets (get_leader group_id)
    ensure (not (sender == old_leader)) "You are already leader."
    ensure (old_leader == leader) "Incorrect old leader report."

  unfoldable pub set_leader : Origin → String → ℕ → Exec Storage (Unit {0})
  unfolding check_leader
  set_leader origin old_leader group_id = do
    sender ← ensure_signed origin
    held ← gets (λ p. is_held (p.leaders group_id))
    when held (check_leader sender old_leader group_id)
    modify (λ p. record p {
      leaders = put_at group_id (some sender) p.leaders;
      leaded_group = put_at group_id true p.leaded_group;
    })
    deposit_event (new_leader sender group_id)

  unfoldable pub give_up_leadership : Origin → ℕ → Exec Storage (Unit {0})
  give_up_leadership origin group_id = do
    sender ← ensure_signed origin
    leaded ← gets (λ p. p.leaded_group group_id)
    ensure leaded "No Leader in this group."
    leader ← gets (get_leader group_id)
    ensure (leader == sender) "You are not the current leader."
    modify (λ p. record p {
      leaded_group = put_at group_id false p.leaded_group;
      leaders = put_at group_id none p.leaders;
    })
    deposit_event (give_up_leader sender group_id)

-- A call in a block, as an extrinsic names it.
pub data PalletCall : Type 0 where
  set_leader_call : (old_leader : String) → (group : ℕ) → PalletCall
  give_up_leadership_call : (group : ℕ) → PalletCall
  add_heartbeat_call : (now group node_status : ℕ) → PalletCall

unfoldable pub execute : String → Origin → PalletCall → Exec Storage (Unit {0})
execute default_account origin (set_leader_call old_leader group) =
    set_leader default_account origin old_leader group
execute default_account origin (give_up_leadership_call group) =
    give_up_leadership default_account origin group
execute default_account origin (add_heartbeat_call now group node_status) =
    add_heartbeat now origin group node_status
