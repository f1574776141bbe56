-- ===== src/Pallet/Accounts.antt =====
-- The numbering of the accounts, after any sequence of calls.
use habs.Base.{
  ℕ, suc, ◌+◌, ◌≤◌, ◌<◌, ◌≡◌, inl, inr, refl, sym, subst, String, Option, some, List, [], ◌∷◌,
  length, arith, Option-cases,
}
use habs.Pallet.{
  Storage, genesis, Origin, signed, unsigned, set_leader, give_up_leadership, add_heartbeat,
  add_account, PalletCall, set_leader_call, give_up_leadership_call, add_heartbeat_call, execute,
  u32_max, count_of,
}
use habs.Pallet.Log.{set_leader-cases, give_up-cases}
use habs.Pallet.History.{run, AccountsValid, add_account-AccountsValid}

-- What the numbering stands on.
abbrev numbering : Storage → (ℕ → Option String) × Option ℕ × (String → Option ℕ)
numbering p = (p.accounts, p.accounts_count, p.accounts_index)

-- It is valid, and no more than `n` accounts have been numbered.
abbrev Numbered : ℕ → (ℕ → Option String) × Option ℕ × (String → Option ℕ) → Type 0
Numbered n m =
    ((a : String) (i : ℕ) → m.2 a ≡ some i → (m.0 i ≡ some a) × (i < count_of m.1))
    × (count_of m.1 ≤ n)

count-add_account :
    (a : String) (p : Storage)
    → count_of (add_account a p).1.accounts_count ≤ suc (count_of p.accounts_count)
unfolding add_account
count-add_account a p = elim (Option-cases (p.accounts_index a)) [
  | inl e ↦ rw e (ground arith)
  | inr (i, e) ↦ rw e (omega arith)
]

add_account-Numbered :
    (a : String) (n : ℕ) (p : Storage)
    → n < u32_max
    → Numbered n (numbering p)
    → Numbered (suc n) (numbering (add_account a p).1)
add_account-Numbered a n p room (placed, count) =
    let (v, own) =
      add_account-AccountsValid a p (record { placed = placed }) (omega (arith, count, room)) in
    (v.placed, omega (arith, count, count-add_account a p))

heartbeat-numbering :
    (a : String) (now group node_status : ℕ) (p : Storage)
    → numbering (add_heartbeat now (signed a) group node_status p).1 ≡ numbering (add_account a p).1
unfolding add_heartbeat add_account
heartbeat-numbering a now group node_status p = elim (Option-cases (p.accounts_index a)) [
  | inl e ↦ rw e refl
  | inr (i, e) ↦ rw e refl
]

module _ (default_account : String) where
  execute-Numbered :
      (origin : Origin) (call : PalletCall) (n : ℕ) (p : Storage)
      → n < u32_max
      → Numbered n (numbering p)
      → Numbered (suc n) (numbering (execute default_account origin call p).1)
  unfolding execute set_leader give_up_leadership add_heartbeat
  execute-Numbered unsigned (set_leader_call old g) n p room (v, c) = (v, omega (arith, c))
  execute-Numbered unsigned (give_up_leadership_call g) n p room (v, c) = (v, omega (arith, c))
  execute-Numbered unsigned (add_heartbeat_call now g node_status) n p room (v, c) =
      (v, omega (arith, c))
  execute-Numbered (signed a) (set_leader_call old g) n p room (v, c) =
      elim (set_leader-cases default_account a old g p) [
        | inl (may, e) ↦ rw e (v, omega (arith, c))
        | inr (may_not, x, e) ↦ rw e (v, omega (arith, c))
      ]
  execute-Numbered (signed a) (give_up_leadership_call g) n p room (v, c) =
      elim (give_up-cases default_account a g p) [
        | inl (on, own, e) ↦ rw e (v, omega (arith, c))
        | inr (x, e) ↦ rw e (v, omega (arith, c))
      ]
  execute-Numbered (signed a) (add_heartbeat_call now g node_status) n p room b =
      subst (Numbered (suc n)) (sym (heartbeat-numbering a now g node_status p))
        (add_account-Numbered a n p room b)

  run-Numbered :
      (calls : List (Origin × PalletCall)) (n : ℕ) (p : Storage)
      → n + length calls ≤ u32_max
      → Numbered n (numbering p)
      → Numbered (n + length calls) (numbering (run default_account calls p))
  unfolding run
  run-Numbered [] n p room b = subst (λ k. Numbered k (numbering p)) (omega arith) b
  run-Numbered ((origin, call) ∷ calls) n p room b =
      let q = (execute default_account origin call p).1 in
      let more : suc n + length calls ≡ n + suc (length calls) = omega arith in
      subst (λ k. Numbered k (numbering (run default_account calls q))) more
        (run-Numbered calls (suc n) q (omega (arith, room))
          (execute-Numbered origin call n p (omega (arith, room)) b))

  -- As long as there were no more calls than the largest u32, by anyone, every account that has an
  -- index stands at that place, so that no two accounts share one, and the index is below the count,
  -- which is at most the number of calls.
  pub run-AccountsValid :
      (calls : List (Origin × PalletCall))
      → length calls ≤ u32_max
      → let p = run default_account calls genesis in
        AccountsValid p
        × (count_of p.accounts_count ≤ length calls)
        × ((a b : String) (i : ℕ)
            → p.accounts_index a ≡ some i
            → p.accounts_index b ≡ some i
            → a ≡ b)
  run-AccountsValid calls room =
      let (placed, count) =
        run-Numbered calls 0 genesis (omega (arith, room))
          ((λ a i h. absurd (ground arith)), omega arith) in
      (
        record { placed = placed },
        omega (arith, count),
        λ a b i x y. ground (arith, (placed a i x).0, (placed b i y).0),
      )
