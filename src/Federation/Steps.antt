-- ===== src/Federation/Steps.antt =====
-- What single calls and handlers do to the modes of the nodes, the leaders and the unread events.
use habs.Base.{
  ℕ, ◌≡◌, ◌≢◌, ◌⊎◌, inl, inr, refl, String, true, ◌||◌, none, some, List, [], ◌∷◌, ◌++◌, num,
  show_nat, show, arith, eq_iff, eq_refl,
}
use habs.Env.{Event}
use habs.Pallet.{
  new_leader, Storage, Origin, signed, unsigned, PalletCall, set_leader_call,
  give_up_leadership_call, add_heartbeat_call, execute, put_at, set_leader, give_up_leadership,
  add_heartbeat,
}
use habs.Pallet.Log.{set_leader-cases, give_up-cases, add_heartbeat-kept}
use habs.Orchestrator.State.{Orchestrator}
use habs.App.{is_taken_by_other}
use habs.App.Events.{any_taken_by_other}
use habs.Federation.{event_of}

-- What a call does to the leaders, with the events that it adds.
pub record Took (p q : Storage) : Type 0 where
  pub account : String
  pub group : ℕ
  pub leaders : q.leaders ≡ put_at group (some account) p.leaders
  pub events : q.events ≡ p.events ++ new_leader account group ∷ []

pub record GaveUp (p q : Storage) : Type 0 where
  pub group : ℕ
  pub leaders : q.leaders ≡ put_at group none p.leaders

abbrev pub Effect : Storage → Storage → Type 0
Effect p q = (q.leaders ≡ p.leaders) ⊎ Took p q ⊎ GaveUp p q

pub execute-Effect :
    (default_account : String) (o : Origin) (c : PalletCall) (p : Storage)
    → Effect p (execute default_account o c p).1
unfolding execute set_leader give_up_leadership add_heartbeat
execute-Effect d unsigned (set_leader_call old g) p = inl refl
execute-Effect d unsigned (give_up_leadership_call g) p = inl refl
execute-Effect d unsigned (add_heartbeat_call now g node_status) p = inl refl
execute-Effect d (signed a) (set_leader_call old g) p = elim (set_leader-cases d a old g p) [
  | inl (may, e) ↦
      rw e (inr (inl (record { account = a; group = g; leaders = refl; events = refl })))
  | inr (may_not, x, e) ↦ rw e (inl refl)
]
execute-Effect d (signed a) (give_up_leadership_call g) p = elim (give_up-cases d a g p) [
  | inl (on, own, e) ↦ rw e (inr (inr (record { group = g; leaders = refl })))
  | inr (x, e) ↦ rw e (inl refl)
]
execute-Effect d (signed a) (add_heartbeat_call now g node_status) p =
    inl (add_heartbeat-kept d a now g node_status p).0

-- A NewLeader event of another account in the group of a node is one that the node acts on.
pub taken-new_leader :
    (n account : String) (group : ℕ) (o : Orchestrator)
    → o.group ≡ num group
    → n ≢ account
    → is_taken_by_other n o (event_of (new_leader account group)) ≡ true
unfolding is_taken_by_other show
taken-new_leader n account group o e other =
    rw e (ground (arith, eq_iff account n, eq_refl (show_nat group)))

pub any_taken-append :
    (n : String) (o : Orchestrator) (xs ys : List Event)
    → any_taken_by_other n o (xs ++ ys) ≡ (any_taken_by_other n o xs || any_taken_by_other n o ys)
any_taken-append n o [] ys = refl
any_taken-append n o (x ∷ xs) ys = ground (arith, any_taken-append n o xs ys)
