-- ===== src/Tests/Pallets.antt =====
-- The pallet at concrete calls.
use habs.Base.{
  length, ◌≤◌, ℕ, ◌≡◌, ◌≢◌, inl, refl, String, some, List, [], ◌∷◌, arith, err, ok, eq_iff,
}
use habs.Pallet.Accounts.{run-AccountsValid}
use habs.Pallet.{
  count_of, genesis, Origin, signed, PalletCall, set_leader_call, give_up_leadership_call,
  add_heartbeat_call, set_leader, give_up_leadership, add_heartbeat, add_account, execute,
}
use habs.Pallet.History.{run, LogValid, run-LogValid, set_leader_race, AccountsValid}

-- Alice leads, bob sends a heartbeat and takes over, and a stale report of alice's fails.
abbrev calls : List (Origin × PalletCall)
calls =
    (signed "alice", set_leader_call "alice" 1)
    ∷ (signed "bob", add_heartbeat_call 7 1 0)
    ∷ (signed "bob", set_leader_call "alice" 1)
    ∷ (signed "carol", set_leader_call "alice" 1)
    ∷ (signed "bob", give_up_leadership_call 1)
    ∷ (signed "carol", set_leader_call "bob" 1)
    ∷ []

carol_leads : (run "nobody" calls genesis).leaders 1 ≡ some "carol"
unfolding run execute set_leader give_up_leadership add_heartbeat add_account
carol_leads = refl

run-LogValid_example : LogValid "nobody" (run "nobody" calls genesis)
run-LogValid_example = run-LogValid "nobody" calls

alice_first : (set_leader "nobody" (signed "alice") "alice" 1 genesis).0 ≡ ok tt
unfolding set_leader
alice_first = refl

bob_is_late : ◌≢◌ {A = String} "nobody" "alice"
bob_is_late e = ground (arith, eq_iff "nobody" "alice")

set_leader_race_example :
    (e : String) × (set_leader "nobody"
        (signed "bob")
        "nobody"
        1
        (set_leader "nobody" (signed "alice") "alice" 1 genesis).1
      ≡ (err e, (set_leader "nobody" (signed "alice") "alice" 1 genesis).1))
set_leader_race_example =
    set_leader_race "nobody" "alice" "alice" "bob" "nobody" 1 genesis alice_first (inl bob_is_late)

run-AccountsValid_example :
    let p = run "nobody" calls genesis in
    AccountsValid p
    × (count_of p.accounts_count ≤ length calls)
    × ((a b : String) (i : ℕ) → p.accounts_index a ≡ some i → p.accounts_index b ≡ some i → a ≡ b)
run-AccountsValid_example = run-AccountsValid "nobody" calls (omega arith)

-- Bob alone has sent a heartbeat.
one_account : (run "nobody" calls genesis).accounts_count ≡ some 1
unfolding run execute set_leader give_up_leadership add_heartbeat add_account
one_account = refl
