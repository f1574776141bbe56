-- ===== src/Pallet/Log.antt =====
-- The leaders, the flags of led groups and the accounts, over any sequence of calls.
use habs.Base.{
  ℕ, ◌≡◌, ◌≢◌, ◌⊎◌, inl, inr, refl, ◌∙◌, ap, sym, String, true, false, Option, none, some, List, [],
  ◌∷◌, ◌++◌, arith, Option-cases, Bool-cases, ok, err, ◌==◌, eq_iff, nat_beq, if◌then◌else◌,
}
use habs.Pallet.{
  PalletEvent, new_heartbeat, new_leader, give_up_leader, Storage, put_at, Origin, signed, unsigned,
  is_held, account_or, get_leader, set_leader, give_up_leadership, add_heartbeat, add_account,
  PalletCall, set_leader_call, give_up_leadership_call, add_heartbeat_call, execute,
}

-- What one event says of the leader of a group.
abbrev pub told : PalletEvent → ℕ → Option String → Option String
told (new_leader account g) group leader = if nat_beq g group then some account else leader
told (give_up_leader account g) group leader = if nat_beq g group then none else leader
told (new_heartbeat account g node_status now) group leader = leader

-- What the events say, from first to last.
abbrev pub replay : List PalletEvent → ℕ → Option String → Option String
replay [] group leader = leader
replay (e ∷ events) group leader = replay events group (told e group leader)

module _ (default_account : String) where
  -- One call leaves the events that were there, and the events that it adds tell the leaders.
  pub record Tells (p q : Storage) : Type 0 where
    pub added : List PalletEvent
    pub appended : q.events ≡ p.events ++ added
    pub leaders : (group : ℕ) → q.leaders group ≡ replay added group (p.leaders group)
    pub flags :
        ((g : ℕ) → p.leaded_group g ≡ is_held (p.leaders g))
        → (g : ℕ) → q.leaded_group g ≡ is_held (q.leaders g)

  append_nil : (es : List PalletEvent) → es ≡ es ++ []
  append_nil [] = refl
  append_nil (e ∷ es) = ap (λ t. e ∷ t) (append_nil es)

  Tells-refl : (p : Storage) → Tells p p
  Tells-refl p = record {
    added = [];
    appended = append_nil p.events;
    leaders = λ g. refl;
    flags = λ h. h;
  }

  -- The storage after a successful call of `set_leader`, and of `give_up_leadership`.
  abbrev pub led_by : String → ℕ → Storage → Storage
  led_by account group p = record p {
    leaders = put_at group (some account) p.leaders;
    leaded_group = put_at group true p.leaded_group;
    events = p.events ++ new_leader account group ∷ [];
  }

  abbrev pub unled : String → ℕ → Storage → Storage
  unled account group p = record p {
    leaded_group = put_at group false p.leaded_group;
    leaders = put_at group none p.leaders;
    events = p.events ++ give_up_leader account group ∷ [];
  }

  -- A group that nobody leads is free; one that is led changes hands to another account than the
  -- reported leader, if the report is right.
  abbrev pub MayTake : String → String → ℕ → Storage → Type 0
  MayTake account old group p =
      (p.leaders group ≡ none) ⊎ ((account ≢ old) × (p.leaders group ≡ some old))

  pub set_leader-cases :
      (a old : String) (group : ℕ) (p : Storage)
      → (MayTake a old group p
          × (set_leader default_account (signed a) old group p ≡ (ok tt, led_by a group p)))
        ⊎ ((¬ MayTake a old group p)
            × (e : String) × (set_leader default_account (signed a) old group p ≡ (err e, p)))
  unfolding set_leader
  set_leader-cases a old group p = elim (Option-cases (p.leaders group)) [
    | inl e ↦ inl (inl e, rw e refl)
    | inr (l, e) ↦ elim (Bool-cases (a == old)) [
      | inl equal ↦
          inr (λ m. ground (arith, eq_iff a old), "You are already leader.", rw e (rw equal refl))
      | inr other ↦ elim (Bool-cases (old == l)) [
        | inl right ↦ inl (
          inr (ground (arith, eq_iff a old), ground (arith, eq_iff old l)),
          rw e (rw (other, ap (account_or default_account) e) (rw right refl)),
        )
        | inr wrong ↦ inr (
          λ m. ground (arith, eq_iff old l),
          "Incorrect old leader report.",
          rw e (rw (other, ap (account_or default_account) e) (rw wrong refl)),
        )
      ]
    ]
  ]

  pub give_up-cases :
      (a : String) (group : ℕ) (p : Storage)
      → ((p.leaded_group group ≡ true)
          × (get_leader default_account group p ≡ a)
          × (give_up_leadership default_account (signed a) group p ≡ (ok tt, unled a group p)))
        ⊎ ((e : String) × (give_up_leadership default_account (signed a) group p ≡ (err e, p)))
  unfolding give_up_leadership
  give_up-cases a group p = elim (Bool-cases (p.leaded_group group)) [
    | inr off ↦ inr ("No Leader in this group.", rw off refl)
    | inl on ↦ elim (Bool-cases (get_leader default_account group p == a)) [
      | inr other ↦ inr ("You are not the current leader.", rw (on, other) refl)
      | inl own ↦ inl (on, (eq_iff _ a).0 own, rw (on, own) refl)
    ]
  ]

  -- Of the leaders a heartbeat changes nothing.
  pub add_heartbeat-kept :
      (a : String) (now group node_status : ℕ) (p : Storage)
      → let q = (add_heartbeat now (signed a) group node_status p).1 in
        (q.leaders ≡ p.leaders)
        × (q.leaded_group ≡ p.leaded_group)
        × (q.events ≡ p.events ++ new_heartbeat a group node_status now ∷ [])
  unfolding add_heartbeat add_account
  add_heartbeat-kept a now group node_status p = elim (Option-cases (p.accounts_index a)) [
    | inl e ↦ rw e (refl, refl, refl)
    | inr (i, e) ↦ rw e (refl, refl, refl)
  ]

  led_by-Tells : (a : String) (group : ℕ) (p : Storage) → Tells p (led_by a group p)
  led_by-Tells a group p = record {
    added = new_leader a group ∷ [];
    appended = refl;
    leaders = λ g. refl;
    flags = λ h g. ground (arith, h g);
  }

  unled-Tells : (a : String) (group : ℕ) (p : Storage) → Tells p (unled a group p)
  unled-Tells a group p = record {
    added = give_up_leader a group ∷ [];
    appended = refl;
    leaders = λ g. refl;
    flags = λ h g. ground (arith, h g);
  }

  pub execute-Tells :
      (o : Origin) (call : PalletCall) (p : Storage) → Tells p (execute default_account o call p).1
  unfolding execute set_leader give_up_leadership add_heartbeat
  execute-Tells unsigned (set_leader_call old group) p = Tells-refl p
  execute-Tells unsigned (give_up_leadership_call group) p = Tells-refl p
  execute-Tells unsigned (add_heartbeat_call now group node_status) p = Tells-refl p
  execute-Tells (signed a) (set_leader_call old group) p = elim (set_leader-cases a old group p) [
    | inl (may, e) ↦ rw e (led_by-Tells a group p)
    | inr (may_not, x, e) ↦ rw e (Tells-refl p)
  ]
  execute-Tells (signed a) (give_up_leadership_call group) p = elim (give_up-cases a group p) [
    | inl (on, own, e) ↦ rw e (unled-Tells a group p)
    | inr (x, e) ↦ rw e (Tells-refl p)
  ]
  execute-Tells (signed a) (add_heartbeat_call now group node_status) p =
      let (leaders, flags, events) = add_heartbeat-kept a now group node_status p in
      record {
        added = new_heartbeat a group node_status now ∷ [];
        appended = events;
        leaders = λ g. ap (λ m. m g) leaders;
        flags = λ h g. ap (λ m. m g) flags ∙ h g ∙ sym (ap (λ m. is_held (m g)) leaders);
      }
