-- ===== src/Tests/Host.antt =====
-- A host with room for the two containers of the service, whose daemon keeps its contract.
use habs.Base.{
  ◌≡◌, ◌≢◌, ◌⊎◌, inl, inr, refl, sym, subst, String, Bool, true, false, Option, none, some, List,
  [], ◌∷◌, ◌++◌, ◌==◌, ◌<>◌, if◌then◌else◌, arith, find?, eq_iff, Bool-cases, ok, err, Exec,
  is_empty, pure,
}
use mathlib.Core.Option.{some-injective}
use habs.Env.{ContainerInfo, ContainerData, Dockerode}
use habs.Docker.{is_called}
use habs.Docker.Daemon.{Daemon, AtMostOne, without}

-- The containers, in the order of their creation.
pub data Host : Type 0 where
  empty validator_only sync_only validator_first sync_first : Host

abbrev pub validator_name : String
validator_name = "node-polkadot-validator"

abbrev pub sync_name : String
sync_name = "node-polkadot-sync"

abbrev the_validator : ContainerInfo
the_validator = record { id = "c1"; names = "/node-polkadot-validator" ∷ [] }

abbrev the_sync : ContainerInfo
the_sync = record { id = "c2"; names = "/node-polkadot-sync" ∷ [] }

abbrev pub listing : Host → List ContainerInfo
listing empty = []
listing validator_only = the_validator ∷ []
listing sync_only = the_sync ∷ []
listing validator_first = the_validator ∷ the_sync ∷ []
listing sync_first = the_sync ∷ the_validator ∷ []

abbrev conflict : {A : Type 0} → Exec Host A
conflict h = (err "the name is in use", h)

abbrev add_validator : Exec Host String
add_validator empty = (ok "c1", validator_only)
add_validator sync_only = (ok "c1", sync_first)
add_validator h = conflict h

abbrev add_sync : Exec Host String
add_sync empty = (ok "c2", sync_only)
add_sync validator_only = (ok "c2", validator_first)
add_sync h = conflict h

abbrev no_validator : Host → Host
no_validator validator_only = empty
no_validator validator_first = sync_only
no_validator sync_first = sync_only
no_validator h = h

abbrev no_sync : Host → Host
no_sync sync_only = empty
no_sync validator_first = validator_only
no_sync sync_first = validator_only
no_sync h = h

abbrev create : ContainerData → Exec Host String
create spec =
    if spec.name == validator_name
    then add_validator
    else if spec.name == sync_name
    then add_sync
    else conflict

abbrev removal_by : Bool → Bool → Host → Host
removal_by true true h = no_sync (no_validator h)
removal_by true false h = no_validator h
removal_by false true h = no_sync h
removal_by false false h = h

abbrev removal : String → Host → Host
removal id h = removal_by ("c1" == id) ("c2" == id) h

abbrev pub host : Dockerode Host
host = record {
  inspect_image = λ image. pure tt;
  pull = λ image. pure tt;
  remove_image = λ image. pure tt;
  inspect_volume = λ name. pure tt;
  create_volume = λ name. pure tt;
  remove_volume = λ name. pure tt;
  list_containers = λ h. (ok (listing h), h);
  inspect = λ id. pure (record { running = true; mounts = [] });
  create_container = create;
  start = λ id. pure tt;
  stop = λ id. pure tt;
  remove = λ id h. (ok tt, removal id h);
  exec = λ id command. pure "";
}

abbrev pub Name : String → Type 0
Name name = (name ≡ validator_name) ⊎ (name ≡ sync_name)

found_in {ℓ} :
    {A : Type ℓ} (P : A → Type 0) (b : Bool) (x c : A) (rest : Option A)
    → P x
    → (rest ≡ some c → P c)
    → (if b then some x else rest) ≡ some c
    → P c
found_in P true x c rest here there e = subst P (some-injective x c e) here
found_in P false x c rest here there e = there e

pub has_an_id :
    (name : String) (h : Host) (c : ContainerInfo)
    → find? (is_called name) (listing h) ≡ some c
    → is_empty c.id ≡ false
unfolding find?
has_an_id name empty c e = absurd (ground arith)
has_an_id name validator_only c e =
    found_in (λ x. is_empty x.id ≡ false) (is_called name the_validator) the_validator c none refl
      (λ n. absurd (ground arith)) e
has_an_id name sync_only c e =
    found_in (λ x. is_empty x.id ≡ false) (is_called name the_sync) the_sync c none refl
      (λ n. absurd (ground arith)) e
has_an_id name validator_first c e =
    found_in (λ x. is_empty x.id ≡ false) (is_called name the_validator) the_validator c _ refl
      (found_in (λ x. is_empty x.id ≡ false) (is_called name the_sync) the_sync c none refl
        (λ n. absurd (ground arith)))
      e
has_an_id name sync_first c e =
    found_in (λ x. is_empty x.id ≡ false) (is_called name the_sync) the_sync c _ refl
      (found_in (λ x. is_empty x.id ≡ false) (is_called name the_validator) the_validator c none
        refl (λ n. absurd (ground arith)))
      e

once_validator : (h : Host) → AtMostOne validator_name (listing h)
unfolding is_called find?
once_validator empty = tt
once_validator validator_only = ((λ e. refl), tt)
once_validator sync_only = ((λ e. refl), tt)
once_validator validator_first = ((λ e. refl), ((λ e. refl), tt))
once_validator sync_first = ((λ e. absurd (ground arith)), ((λ e. refl), tt))

once_sync : (h : Host) → AtMostOne sync_name (listing h)
unfolding is_called find?
once_sync empty = tt
once_sync validator_only = ((λ e. refl), tt)
once_sync sync_only = ((λ e. refl), tt)
once_sync validator_first = ((λ e. absurd (ground arith)), ((λ e. refl), tt))
once_sync sync_first = ((λ e. refl), ((λ e. refl), tt))

pub once : (name : String) (h : Host) → Name name → AtMostOne name (listing h)
once name h (inl e) = subst (λ n. AtMostOne n (listing h)) (sym e) (once_validator h)
once name h (inr e) = subst (λ n. AtMostOne n (listing h)) (sym e) (once_sync h)

-- `without`, by what was found of the two ids.
abbrev without_by : Bool → Bool → Host → List ContainerInfo
without_by p q empty = []
without_by p q validator_only = if p then [] else the_validator ∷ []
without_by p q sync_only = if q then [] else the_sync ∷ []
without_by p q validator_first =
    let rest = if q then [] else the_sync ∷ [] in if p then rest else the_validator ∷ rest
without_by p q sync_first =
    let rest = if p then [] else the_validator ∷ [] in if q then rest else the_sync ∷ rest

removal-without : (p q : Bool) (h : Host) → listing (removal_by p q h) ≡ without_by p q h
removal-without true true empty = refl
removal-without true true validator_only = refl
removal-without true true sync_only = refl
removal-without true true validator_first = refl
removal-without true true sync_first = refl
removal-without true false empty = refl
removal-without true false validator_only = refl
removal-without true false sync_only = refl
removal-without true false validator_first = refl
removal-without true false sync_first = refl
removal-without false true empty = refl
removal-without false true validator_only = refl
removal-without false true sync_only = refl
removal-without false true validator_first = refl
removal-without false true sync_first = refl
removal-without false false empty = refl
removal-without false false validator_only = refl
removal-without false false sync_only = refl
removal-without false false validator_first = refl
removal-without false false sync_first = refl

pub gone : (id : String) (h : Host) → listing (removal id h) ≡ without id (listing h)
gone id empty = removal-without ("c1" == id) ("c2" == id) empty
gone id validator_only = removal-without ("c1" == id) ("c2" == id) validator_only
gone id sync_only = removal-without ("c1" == id) ("c2" == id) sync_only
gone id validator_first = removal-without ("c1" == id) ("c2" == id) validator_first
gone id sync_first = removal-without ("c1" == id) ("c2" == id) sync_first

abbrev Added : String → Host → Host → Type 0
Added called before after =
    (listing after ≡ listing before)
    ⊎ ((c : ContainerInfo) × (listing after ≡ listing before ++ c ∷ [])
        × (c.names ≡ ("/" <> called) ∷ [])
        × ((name : String) → Name name → c.id ≢ name))

other : (s t name : String) → (s == t) ≡ false → name ≡ t → s ≢ name
other s t name differ e same = ground (arith, eq_iff s t)

fresh_ids : (name : String) → Name name → ("c1" ≢ name) × ("c2" ≢ name)
fresh_ids name (inl e) = (other "c1" _ name refl e, other "c2" _ name refl e)
fresh_ids name (inr e) = (other "c1" _ name refl e, other "c2" _ name refl e)

added_validator : (h : Host) → Added validator_name h (add_validator h).1
added_validator empty = inr (the_validator, refl, refl, λ n u. (fresh_ids n u).0)
added_validator sync_only = inr (the_validator, refl, refl, λ n u. (fresh_ids n u).0)
added_validator validator_only = inl refl
added_validator validator_first = inl refl
added_validator sync_first = inl refl

added_sync : (h : Host) → Added sync_name h (add_sync h).1
added_sync empty = inr (the_sync, refl, refl, λ n u. (fresh_ids n u).1)
added_sync validator_only = inr (the_sync, refl, refl, λ n u. (fresh_ids n u).1)
added_sync sync_only = inl refl
added_sync validator_first = inl refl
added_sync sync_first = inl refl

pub added : (spec : ContainerData) (h : Host) → Added spec.name h (create spec h).1
added spec h = elim (Bool-cases (spec.name == validator_name)) [
  | inl e ↦ rw e (
      subst (λ n. Added n h (add_validator h).1) (sym ((eq_iff spec.name validator_name).0 e))
        (added_validator h))
  | inr e ↦ elim (Bool-cases (spec.name == sync_name)) [
    | inl e' ↦ rw e (
        rw e' (
          subst (λ n. Added n h (add_sync h).1) (sym ((eq_iff spec.name sync_name).0 e'))
            (added_sync h)))
    | inr e' ↦ rw e (rw e' (inl refl))
  ]
]

-- The daemon keeps its contract.
unfoldable pub daemon : Daemon host Name
daemon = record {
  containers = listing;
  listed = λ h. refl;
  list_keeps = λ h. refl;
  inspected = λ name h c e. (_, refl);
  inspect_keeps = λ id h. refl;
  unique = λ name h u. once name h u;
  has_id = has_an_id;
  removes = λ name h c there. refl;
  removed = gone;
  created = added;
  start_keeps = λ id h. refl;
  image_keeps = λ i h. refl;
  pull_keeps = λ i h. refl;
  volume_keeps = λ n h. refl;
  create_volume_keeps = λ n h. refl;
}
