-- ===== src/Pallet/History.antt =====
-- What holds after any sequence of calls, and between two calls.
use habs.Base.{
  ℕ, ◌<◌, ◌≡◌, ◌≢◌, ◌⊎◌, inl, inr, refl, ◌∙◌, ap, sym, String, Option, none, some, List, [], ◌∷◌,
  ◌++◌, arith, Option-cases, ok, err, eq_iff,
}
use habs.Pallet.{
  PalletEvent, Storage, genesis, Origin, signed, is_held, set_leader, add_account, PalletCall,
  execute, u32_max, count_of,
}
use habs.Pallet.Log.{Tells, execute-Tells, told, replay, led_by, set_leader-cases}

module _ (default_account : String) where
  -- The calls of the blocks, one after another. One that fails leaves the storage alone.
  unfoldable pub run : List (Origin × PalletCall) → Storage → Storage
  run [] p = p
  run ((origin, call) ∷ calls) p = run calls (execute default_account origin call p).1

  replay-append :
      (xs ys : List PalletEvent) (g : ℕ) (leader : Option String)
      → replay (xs ++ ys) g leader ≡ replay ys g (replay xs g leader)
  replay-append [] ys g leader = refl
  replay-append (x ∷ xs) ys g leader = replay-append xs ys g (told x g leader)

  -- The events tell the leaders, and a group is marked as led exactly if it has a leader.
  pub record LogValid (p : Storage) : Type 0 where
    pub told_leaders : (g : ℕ) → p.leaders g ≡ replay p.events g none
    pub flags : (g : ℕ) → p.leaded_group g ≡ is_held (p.leaders g)

  Tells-LogValid : (p q : Storage) → Tells default_account p q → LogValid p → LogValid q
  Tells-LogValid p q t v = record {
    told_leaders = λ g.
        t.leaders g
        ∙ ap (replay t.added g) (v.told_leaders g)
        ∙ sym (replay-append p.events t.added g none)
        ∙ ap (λ es. replay es g none) (sym t.appended);
    flags = t.flags v.flags;
  }

  genesis-LogValid : LogValid genesis
  genesis-LogValid = record { told_leaders = λ g. refl; flags = λ g. refl }

  run-LogValid_from :
      (calls : List (Origin × PalletCall)) (p : Storage) → LogValid p → LogValid (run calls p)
  unfolding run
  run-LogValid_from [] p v = v
  run-LogValid_from ((origin, call) ∷ calls) p v =
      run-LogValid_from calls _ (Tells-LogValid p _ (execute-Tells default_account origin call p) v)

  -- After any calls by anyone, the leader of every group is the account of the last NewLeader event
  -- of the group, or none if a GiveUpLeader event came after it, so that who reads all events knows
  -- the leaders; and the flag of the group says whether there is one.
  pub run-LogValid : (calls : List (Origin × PalletCall)) → LogValid (run calls genesis)
  run-LogValid calls = run-LogValid_from calls genesis genesis-LogValid

  -- Once `a` has taken a group, a call of `set_leader` by anyone that reports another leader than
  -- `a`, also one that was right before, fails and changes nothing; and so does one by `a` itself.
  pub set_leader_race :
      (a old b reported : String) (group : ℕ) (p : Storage)
      → (set_leader default_account (signed a) old group p).0 ≡ ok tt
      → (reported ≢ a) ⊎ (b ≡ a)
      → let q = (set_leader default_account (signed a) old group p).1 in
        (e : String) × (set_leader default_account (signed b) reported group q ≡ (err e, q))
  set_leader_race a old b reported group p taken other =
      elim (set_leader-cases default_account a old group p) [
        | inl (may, first) ↦
            rw first
              (elim (set_leader-cases default_account b reported group
                (led_by default_account a group p)) [
                  | inl (may_too, second) ↦ absurd (ground (arith, other))
                  | inr (may_not, e, failed) ↦ (e, failed)
                ])
        | inr (may_not, e, failed) ↦ absurd (ground (arith, failed))
      ]

-- Every account that has an index stands at that place, below the count.
pub record AccountsValid (p : Storage) : Type 0 where
  pub placed :
      (a : String) (i : ℕ)
      → p.accounts_index a ≡ some i
      → (p.accounts i ≡ some a) × (i < count_of p.accounts_count)

-- Adding an account keeps the places of all accounts, as long as the count has not reached the
-- largest u32, and the account has one then.
pub add_account-AccountsValid :
    (a : String) (p : Storage)
    → AccountsValid p
    → count_of p.accounts_count < u32_max
    → AccountsValid (add_account a p).1
      × ((i : ℕ) × ((add_account a p).1.accounts_index a ≡ some i))
unfolding add_account
add_account-AccountsValid a p v room = elim (Option-cases (p.accounts_index a)) [
  | inr (i, e) ↦ rw e (v, (i, e))
  | inl e ↦ rw e (
    record { placed = λ b i h. ground (arith, v.placed b i, eq_iff a b) },
    (count_of p.accounts_count, ground (arith, eq_iff a a)),
  )
]
