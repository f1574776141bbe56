-- ===== src/Federation/Reachable.antt =====
-- Every step keeps the exclusion, so every reachable state has it.
use habs.Base.{ℕ, ◌≡◌, ◌≢◌, ◌⊎◌, String, num}
use habs.Federation.{
  Federation, IsActive, Step, call, orchestrate, listen, other, Reach, here, next,
}
use habs.Federation.Handlers.{IsOther-NodeStep, orchestrate-NodeStep, listen-NodeStep}
use habs.Federation.Calls.{call-Exclusive}
use habs.Federation.Exclusion.{Pending, Exclusive, IsLocal-Exclusive, NodeStep-IsLocal}

module _ {default_account : String} {W : Type 0} where
  Step-Exclusive : {f g : Federation} → Step default_account W f g → Exclusive f → Exclusive g
  Step-Exclusive {f} (call origin c) v = call-Exclusive default_account origin c f v
  Step-Exclusive {f} (orchestrate env w n address real free reads) v =
      let h = orchestrate-NodeStep default_account env w n f address real free reads in
      IsLocal-Exclusive (NodeStep-IsLocal n _ _ f h) v
  Step-Exclusive {f} (listen env w n events rest e) v =
      let h = listen-NodeStep default_account env w n f events rest e (v.served n) in
      IsLocal-Exclusive (NodeStep-IsLocal n _ _ f h) v
  Step-Exclusive {f} (other n o h) v =
      IsLocal-Exclusive (NodeStep-IsLocal n o _ f (IsOther-NodeStep n o f h)) v

  Reach-Exclusive : {f g : Federation} → Exclusive f → Reach default_account W f g → Exclusive g
  Reach-Exclusive v here = v
  Reach-Exclusive v (next r step) = Step-Exclusive step (Reach-Exclusive v r)

  -- Where no node is active at the start, in every state that calls of the pallet by anyone,
  -- callbacks for the next unread events, steps that leave role and group alone and make no node
  -- active, and orchestrations of nodes that are not forced active reach, in any order, where the
  -- pallet itself gives the last answer on the leader or the question fails: of two different
  -- active nodes of one group, one has an unread event that says that another node took the
  -- leadership of its group. So where all events are read, at most one node of a group is active.
  pub at_most_one_active :
      (f g : Federation)
      → ((n : String) → ¬ IsActive f n)
      → Reach default_account W f g
      → (n m : String) (group : ℕ) → IsActive g n
      → IsActive g m
      → (g.nodes n).group ≡ num group
      → (g.nodes m).group ≡ num group
      → n ≢ m
      → Pending g n ⊎ Pending g m
  at_most_one_active f g quiet r n m group an am en em ne =
      (Reach-Exclusive
          (record {
            served = λ j a. absurd (quiet j a);
            leads = λ j k a e. absurd (quiet j a);
            alone = λ j k h d a b e q. absurd (quiet j a);
          })
          r).alone
        n m group ne an am en em
