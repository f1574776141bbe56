-- ===== src/Federation/Calls.antt =====
-- A call of the pallet keeps the exclusion: whoever is displaced has that to read.
use habs.Base.{
  ℕ, ◌≡◌, ◌≢◌, ◌⊎◌, inl, inr, refl, ◌∙◌, ap, String, true, false, none, some, [], map, num, arith,
  Bool-cases, ◌==◌, eq_iff, nat_beq,
}
use habs.Pallet.{Origin, PalletCall, put_at}
use habs.App.Events.{any_taken_by_other}
use habs.Federation.{Federation, IsActive, event_of, after_call}
use habs.Federation.Steps.{Took, execute-Effect, taken-new_leader, any_taken-append}
use habs.Federation.Exclusion.{Pending, Exclusive}

module _ (default_account : String) (origin : Origin) (c : PalletCall) (f : Federation) where
  abbrev after : Federation
  after = after_call default_account origin c f

  call-Pending : (n : String) → Pending f n → Pending after n
  call-Pending n p =
      ground
        (arith, any_taken-append n (f.nodes n) (f.unread n) (map event_of after.pallet.events), p)

  -- Whoever takes a group, the others of the group have that to read.
  Took-leads :
      (t : Took (record (f.pallet) { events = [] }) after.pallet) (n : String) (g : ℕ)
      → (f.nodes n).group ≡ num g
      → t.group ≡ g
      → (after.pallet.leaders g ≡ some n) ⊎ Pending after n
  Took-leads t n g e here_g = elim (Bool-cases (n == t.account)) [
    | inl own ↦
        let own_account : n ≡ t.account = (eq_iff _ _).0 own in
        inl (ap (λ m. m g) t.leaders ∙ ground (arith, own_account, here_g))
    | inr foreign ↦
        let strange : n ≢ t.account = λ q. ground (arith, eq_iff n t.account) in
        let taken = taken-new_leader n t.account t.group (f.nodes n) (rw here_g e) strange in
        let told : any_taken_by_other n (f.nodes n) (map event_of after.pallet.events) ≡ true =
          rw t.events (ground (arith, taken)) in
        inr (
          ground (
            arith,
            any_taken-append n (f.nodes n) (f.unread n) (map event_of after.pallet.events),
            told,
          ))
  ]

  put_other :
      {A : Type 0} (m : ℕ → A) (k g : ℕ) (x : A) → nat_beq k g ≡ false → put_at k x m g ≡ m g
  put_other m k g x e = rw e refl

  put_same : {A : Type 0} (m : ℕ → A) (k g : ℕ) (x : A) → nat_beq k g ≡ true → put_at k x m g ≡ x
  put_same m k g x e = rw e refl

  call-leads :
      Exclusive f
      → (n : String) (g : ℕ) → IsActive f n
      → (f.nodes n).group ≡ num g
      → (after.pallet.leaders g ≡ some n) ⊎ (after.pallet.leaders g ≡ none) ⊎ Pending after n
  call-leads v n g active e =
      elim (execute-Effect default_account origin c (record (f.pallet) { events = [] })) [
        | inl same ↦ before (ap (λ m. m g) same)
        | inr (inl t) ↦ elim (Bool-cases (nat_beq t.group g)) [
          | inl this ↦ elim (Took-leads t n g e (ground arith)) [
            | inl leads ↦ inl leads
            | inr pending ↦ inr (inr pending)
          ]
          | inr another ↦ before (
              ap (λ m. m g) t.leaders
              ∙ put_other f.pallet.leaders t.group g (some t.account) another)
        ]
        | inr (inr u) ↦ elim (Bool-cases (nat_beq u.group g)) [
          | inl this ↦
              inr (inl (ap (λ m. m g) u.leaders ∙ put_same f.pallet.leaders u.group g none this))
          | inr another ↦
              before (ap (λ m. m g) u.leaders ∙ put_other f.pallet.leaders u.group g none another)
        ]
      ]
    where
      before :
          after.pallet.leaders g ≡ f.pallet.leaders g
          → (after.pallet.leaders g ≡ some n) ⊎ (after.pallet.leaders g ≡ none) ⊎ Pending after n
      before same = elim (v.leads n g active e) [
        | inl leads ↦ inl (same ∙ leads)
        | inr (inl free) ↦ inr (inl (same ∙ free))
        | inr (inr pending) ↦ inr (inr (call-Pending n pending))
      ]

  pub call-Exclusive : Exclusive f → Exclusive after
  call-Exclusive v = record {
    served = v.served;
    leads = call-leads v;
    alone = λ n m g ne an am en em. elim (v.alone n m g ne an am en em) [
      | inl p ↦ inl (call-Pending n p)
      | inr p ↦ inr (call-Pending m p)
    ];
  }
