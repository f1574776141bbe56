-- ===== src/Federation/Exclusion.antt =====
-- At most one node of a group is active, but for nodes that have not yet read that they lost the
-- leadership.
use habs.Base.{
  ℕ, ◌≡◌, ◌≢◌, ◌⊎◌, inl, inr, refl, ◌∙◌, ap, sym, String, true, false, Option, none, some, List,
  num, arith, Bool-cases, ◌==◌, eq_iff, subst,
}
use habs.Env.{Event}
use habs.Orchestrator.State.{Orchestrator, is_noservice}
use habs.App.Events.{any_taken_by_other}
use habs.Federation.{Federation, IsActive, with_node}

-- Some unread event says that another node took the leadership of the group of node `n`.
abbrev pub Pending : Federation → String → Type 0
Pending f n = any_taken_by_other n (f.nodes n) (f.unread n) ≡ true

-- An active node has a service, and leads its group unless nobody does or it will read otherwise;
-- and of two active nodes of a group, one will read that it lost the leadership.
pub record Exclusive (f : Federation) : Type 0 where
  pub served : (n : String) → IsActive f n → is_noservice (f.nodes n) ≡ false
  pub leads :
      (n : String) (g : ℕ)
      → IsActive f n
      → (f.nodes n).group ≡ num g
      → (f.pallet.leaders g ≡ some n) ⊎ (f.pallet.leaders g ≡ none) ⊎ Pending f n
  pub alone :
      (n m : String) (g : ℕ)
      → n ≢ m
      → IsActive f n
      → IsActive f m
      → (f.nodes n).group ≡ num g
      → (f.nodes m).group ≡ num g
      → Pending f n ⊎ Pending f m

-- A step that changes single nodes, and not the chain: who is active after it was so, or is the
-- leader, and has what was pending before.
pub record IsLocal (f f' : Federation) : Type 0 where
  pub same_pallet : f'.pallet ≡ f.pallet
  pub group : (n : String) → (f'.nodes n).group ≡ (f.nodes n).group
  pub served : (n : String) → IsActive f' n → IsActive f n ⊎ (is_noservice (f'.nodes n) ≡ false)
  pub role : (n : String) → is_noservice (f'.nodes n) ≡ is_noservice (f.nodes n)
  pub gains :
      (n : String) (g : ℕ)
      → IsActive f' n
      → (f.nodes n).group ≡ num g
      → IsActive f n ⊎ (f.pallet.leaders g ≡ some n)
  pub keeps : (n : String) → IsActive f' n → IsActive f n → Pending f n → Pending f' n

some_ne : {a b : String} {l : Option String} → a ≢ b → l ≡ some a → l ≡ some b → ⊥
some_ne ne p q = ground (arith, ne)

module _ {f f' : Federation} (l : IsLocal f f') (v : Exclusive f) where
  local-leads :
      (n : String) (g : ℕ)
      → IsActive f' n
      → (f'.nodes n).group ≡ num g
      → (f'.pallet.leaders g ≡ some n) ⊎ (f'.pallet.leaders g ≡ none) ⊎ Pending f' n
  local-leads n g active e =
      let e0 = sym (l.group n) ∙ e in
      let keep = λ (p : f.pallet.leaders g ≡ some n). ap (λ p. p.leaders g) l.same_pallet ∙ p in
      elim (l.gains n g active e0) [
        | inr leads ↦ inl (keep leads)
        | inl old ↦ elim (v.leads n g old e0) [
          | inl leads ↦ inl (keep leads)
          | inr (inl free) ↦ inr (inl (ap (λ p. p.leaders g) l.same_pallet ∙ free))
          | inr (inr pending) ↦ inr (inr (l.keeps n active old pending))
        ]
      ]

  -- A node that became active beside one that was.
  new_beside_old :
      (n m : String) (g : ℕ)
      → n ≢ m
      → f.pallet.leaders g ≡ some n
      → IsActive f' m
      → IsActive f m
      → (f.nodes m).group ≡ num g
      → Pending f' m
  new_beside_old n m g ne leads active old e = elim (v.leads m g old e) [
    | inl leads_too ↦ absurd (some_ne ne leads leads_too)
    | inr (inl free) ↦ absurd (ground arith)
    | inr (inr pending) ↦ l.keeps m active old pending
  ]

  local-alone :
      (n m : String) (g : ℕ)
      → n ≢ m
      → IsActive f' n
      → IsActive f' m
      → (f'.nodes n).group ≡ num g
      → (f'.nodes m).group ≡ num g
      → Pending f' n ⊎ Pending f' m
  local-alone n m g ne an am en em =
      let en0 = sym (l.group n) ∙ en in
      let em0 = sym (l.group m) ∙ em in
      elim (l.gains n g an en0) [
        | inl old_n ↦ elim (l.gains m g am em0) [
          | inl old_m ↦ elim (v.alone n m g ne old_n old_m en0 em0) [
            | inl p ↦ inl (l.keeps n an old_n p)
            | inr p ↦ inr (l.keeps m am old_m p)
          ]
          | inr leads ↦ inl (new_beside_old m n g (λ e. ne (sym e)) leads an old_n en0)
        ]
        | inr leads_n ↦ elim (l.gains m g am em0) [
          | inl old_m ↦ inr (new_beside_old n m g ne leads_n am old_m em0)
          | inr leads_m ↦ absurd (some_ne ne leads_n leads_m)
        ]
      ]

  pub IsLocal-Exclusive : Exclusive f'
  IsLocal-Exclusive = record {
    served = λ n active. elim (l.served n active) [
      | inl old ↦ l.role n ∙ v.served n old
      | inr served ↦ served
    ];
    leads = local-leads;
    alone = local-alone;
  }

-- A step of the node `n` alone.
module _ (n : String) (o : Orchestrator) (rest : List Event) (f : Federation) where
  -- What is asked of its new state `o`, and of the events `rest` that are left.
  pub record NodeStep : Type 0 where
    pub same_group : o.group ≡ (f.nodes n).group
    pub same_role : is_noservice o ≡ is_noservice (f.nodes n)
    pub served : o.service.mode ≡ "active" → IsActive f n ⊎ (is_noservice o ≡ false)
    pub gains :
        (g : ℕ)
        → o.service.mode ≡ "active"
        → (f.nodes n).group ≡ num g
        → IsActive f n ⊎ (f.pallet.leaders g ≡ some n)
    pub keeps :
        o.service.mode ≡ "active" → IsActive f n → Pending f n → any_taken_by_other n o rest ≡ true

  module _ (h : NodeStep) where
    abbrev f' : Federation
    f' = with_node n o rest f

    -- What holds of `n` in its new state and of all others as they were holds of all.
    at_node :
        (P : String → Orchestrator → List Event → Type 0)
        → P n o rest
        → ((j : String) → P j (f.nodes j) (f.unread j))
        → (j : String) → P j (f'.nodes j) (f'.unread j)
    at_node P own others j = elim (Bool-cases (n == j)) [
      | inl e ↦ rw e (subst (λ i. P i o rest) ((eq_iff n j).0 e) own)
      | inr e ↦ rw e (others j)
    ]

    pub NodeStep-IsLocal : IsLocal f f'
    NodeStep-IsLocal = record {
      same_pallet = refl;
      group = at_node (λ j p es. p.group ≡ (f.nodes j).group) h.same_group (λ j. refl);
      role = at_node (λ j p es. is_noservice p ≡ is_noservice (f.nodes j)) h.same_role (λ j. refl);
      served =
          at_node (λ j p es. p.service.mode ≡ "active" → IsActive f j ⊎ (is_noservice p ≡ false))
            h.served (λ j a. inl a);
      gains =
          at_node
            (λ j p es.
              (g : ℕ)
              → p.service.mode ≡ "active"
              → (f.nodes j).group ≡ num g
              → IsActive f j ⊎ (f.pallet.leaders g ≡ some j))
            h.gains (λ j g a e. inl a);
      keeps =
          at_node
            (λ j p es.
              p.service.mode ≡ "active"
              → IsActive f j
              → Pending f j
              → any_taken_by_other j p es ≡ true)
            h.keeps (λ j a b p. p);
    }
