-- ===== src/Chain/Sending.antt =====
-- When the promise of a transaction resolves to true.
use habs.Base.{
  String, ◌≡◌, ◌↔◌, refl, Bool, true, false, not, some, List, [], ◌∷◌, eq_iff, arith, ok, Number,
  Bool-cases, inl, inr, if◌then◌else◌, continue-eq-ok, Exec, pure, lift, ◌>>=◌, ◌∙◌, ap,
}
use mathlib.Core.List.{Memᴰ}
use habs.Env.{Env, Status, finalized, usurped, dropped, invalid, Event, Notification, Call, KeyPair}
use habs.Chain.{
  Chain, any_confirms, confirms, settle, submit, can_send_transactions, set_leader, add_heartbeat,
  give_up_leadership, on_world,
}
use habs.Utils.{get_keys_from_seed, from_mode_to_node_status}

-- The pallet's event `method` is among the events.
pub record Reported (method : String) (events : List Event) : Type 0 where
  pub event : Event
  pub listed : Memᴰ event events
  pub section : event.section ≡ "archipelModule"
  pub method_name : event.method ≡ method
  pub readable : event.data_is_json ≡ true

-- The statuses that end a transaction.
abbrev pub Ends : Status → Type 0
Ends finalized = Unit
Ends usurped = Unit
Ends dropped = Unit
Ends invalid = Unit
Ends _ = ⊥

-- The transaction is finalized with the event before it is dropped, invalid or usurped.
pub data Confirmed (method : String) : List Notification → Type 0 where
  now :
      {n : Notification} {ns : List Notification}
      → n.status ≡ finalized
      → Reported method n.events
      → Confirmed method (n ∷ ns)
  later :
      {n : Notification} {ns : List Notification}
      → ¬ Ends n.status
      → Confirmed method ns
      → Confirmed method (n ∷ ns)

confirms→fields :
    (method : String) (e : Event)
    → confirms method e ≡ true
    → (e.section ≡ "archipelModule") × (e.method ≡ method) × (e.data_is_json ≡ true)
confirms→fields method e h =
    ground (arith, eq_iff e.section "archipelModule", eq_iff e.method method)

fields→confirms :
    (method : String) (e : Event)
    → e.section ≡ "archipelModule"
    → e.method ≡ method
    → e.data_is_json ≡ true
    → confirms method e ≡ true
fields→confirms method e s m d =
    ground (arith, eq_iff e.section "archipelModule", eq_iff e.method method)

weaken :
    {method : String} {e : Event} {events : List Event}
    → Reported method events
    → Reported method (e ∷ events)
weaken r = record {
  event = r.event;
  listed = Memᴰ.tail r.listed;
  section = r.section;
  method_name = r.method_name;
  readable = r.readable;
}

any_confirms→Reported :
    (method : String) (events : List Event)
    → any_confirms method events ≡ true
    → Reported method events
any_confirms→Reported method [] h = cc
any_confirms→Reported method (e ∷ events) h = elim (Bool-cases (confirms method e)) [
  | inl c ↦
      let f = confirms→fields method e c in
      record {
        event = e;
        listed = Memᴰ.head refl;
        section = f.0;
        method_name = f.1;
        readable = f.2;
      }
  | inr c ↦ weaken (any_confirms→Reported method events (ground arith))
]

mem→any_confirms :
    (method : String) (e : Event) (events : List Event)
    → Memᴰ e events
    → confirms method e ≡ true
    → any_confirms method events ≡ true
mem→any_confirms method e [] m c = elim m [ ]
mem→any_confirms method e (x ∷ events) (Memᴰ.head p) c = ground (arith)
mem→any_confirms method e (x ∷ events) (Memᴰ.tail m) c =
    ground (arith, mem→any_confirms method e events m c)

Reported→any_confirms :
    (method : String) (events : List Event)
    → Reported method events
    → any_confirms method events ≡ true
Reported→any_confirms method events r =
    mem→any_confirms method r.event events r.listed
      (fields→confirms method r.event r.section r.method_name r.readable)

waits : (st st' : Status) → st' ≡ st → ¬ Ends st → ¬ Ends st'
waits st st' e h = rw e h

module _ (method : String) (n : Notification) (ns : List Notification) where
  first→Confirmed :
      (st : Status)
      → n.status ≡ st
      → settle method (n ∷ ns) ≡ some true
      → (settle method ns ≡ some true → Confirmed method ns)
      → Confirmed method (n ∷ ns)
  unfolding settle
  first→Confirmed finalized e h rest = now e (any_confirms→Reported method n.events (ground arith))
  first→Confirmed usurped e h rest = absurd (ground arith)
  first→Confirmed dropped e h rest = absurd (ground arith)
  first→Confirmed invalid e h rest = absurd (ground arith)
  first→Confirmed _ e h rest = later (waits _ _ e (λ x. x)) (rest (ground arith))

  later→settle :
      (st : Status)
      → n.status ≡ st
      → ¬ Ends st
      → settle method ns ≡ some true
      → settle method (n ∷ ns) ≡ some true
  unfolding settle
  later→settle finalized e w h = absurd (w tt)
  later→settle usurped e w h = absurd (w tt)
  later→settle dropped e w h = absurd (w tt)
  later→settle invalid e w h = absurd (w tt)
  later→settle _ e w h = ground arith

settle→Confirmed :
    (method : String) (ns : List Notification) → settle method ns ≡ some true → Confirmed method ns
settle→Confirmed method [] h = absurd (unfold settle in ground arith)
settle→Confirmed method (n ∷ ns) h =
    first→Confirmed method n ns n.status refl h (settle→Confirmed method ns)

Confirmed→settle :
    (method : String) (ns : List Notification) → Confirmed method ns → settle method ns ≡ some true
Confirmed→settle method [] c = elim c [ ]
Confirmed→settle method (n ∷ ns) (now f r) =
    unfold settle in ground (arith, Reported→any_confirms method n.events r)
Confirmed→settle method (n ∷ ns) (later w c) =
    later→settle method n ns n.status refl w (Confirmed→settle method ns c)

-- The promise of a transaction resolves to true exactly when the callback is told that the
-- transaction is finalized with a readable event of the pallet of that name, and was not told
-- before that the transaction had ended.
pub settle_iff_Confirmed :
    (method : String) (ns : List Notification)
    → (settle method ns ≡ some true) ↔ Confirmed method ns
settle_iff_Confirmed method ns = (settle→Confirmed method ns, Confirmed→settle method ns)

module _ {W : Type 0} (env : Env W) where
  submit-true :
      (method : String) (call : Call) (keys : KeyPair) (nonce : String) (w : W)
      → (submit env method call keys nonce w).0 ≡ ok true
      → (ns : List Notification) × ((env.api.send call keys nonce w).0 ≡ ok ns)
        × Confirmed method ns
  unfolding submit
  submit-true method call keys nonce w h =
      let (ns, sent, done) = continue-eq-ok (env.api.send call keys nonce w).0 _ _ h in
      (ns, sent, settle→Confirmed method ns (ground arith))

  -- The part of the three methods behind their guard.
  abbrev sign_and_submit : String → Call → String → Exec (Chain × W) Bool
  sign_and_submit method call mnemonic = do
    keys ← lift (get_keys_from_seed env mnemonic "sr25519")
    nonce ← on_world (env.api.account_nonce keys.address)
    on_world (submit env method call keys nonce)

  -- The call was sent with the keys of the mnemonic, and confirmed by the event `method`.
  pub record WasSent (method : String) (call : Call) (mnemonic : String) : Type 0 where
    pub keys : KeyPair
    pub nonce : String
    pub before : W
    pub notifications : List Notification
    pub signed : get_keys_from_seed env mnemonic "sr25519" ≡ ok keys
    pub sent : (env.api.send call keys nonce before).0 ≡ ok notifications
    pub confirmed : Confirmed method notifications

  sign_and_submit-true :
      (method : String) (call : Call) (mnemonic : String) (s : Chain × W)
      → (sign_and_submit method call mnemonic s).0 ≡ ok true
      → WasSent method call mnemonic
  sign_and_submit-true method call mnemonic s h =
      let (keys, signed, h1) = continue-eq-ok (get_keys_from_seed env mnemonic "sr25519") _ _ h in
      let (nonce, asked, h2) = continue-eq-ok (env.api.account_nonce keys.address s.1).0 _ _ h1 in
      let w = (env.api.account_nonce keys.address s.1).1 in
      let (ns, sent, confirmed) = submit-true method call keys nonce w h2 in
      record {
        keys = keys;
        nonce = nonce;
        before = w;
        notifications = ns;
        signed = signed;
        sent = sent;
        confirmed = confirmed;
      }

  guarded_true :
      (method : String) (call : Call) (mnemonic : String) (s : Chain × W)
      → ((do
        can ← can_send_transactions env
        if not can then pure false else sign_and_submit method call mnemonic)
          s).0
        ≡ ok true
      → ((can_send_transactions env s).0 ≡ ok true) × WasSent method call mnemonic
  guarded_true method call mnemonic s h =
      let (can, asked, rest) = continue-eq-ok (can_send_transactions env s).0 _ _ h in
      elim (Bool-cases can) [
        | inl e ↦ (asked ∙ ap ok e, sign_and_submit-true method call mnemonic _ (rw e at rest))
        | inr e ↦ absurd (ground arith)
      ]

  -- `setLeader` answers true only if the chain could take transactions and its call `set_leader`
  -- was sent with the keys of the mnemonic and confirmed by the event NewLeader; `addHeartbeat`
  -- and `giveUpLeadership` likewise, with their own calls and events.
  pub transactions_true :
      (old_leader mode mnemonic : String) (group : Number) (s : Chain × W)
      → ((set_leader env old_leader group mnemonic s).0 ≡ ok true
          → ((can_send_transactions env s).0 ≡ ok true)
            × WasSent "NewLeader" (Call.set_leader old_leader group) mnemonic)
        × ((add_heartbeat env mode mnemonic group s).0 ≡ ok true
            → ((can_send_transactions env s).0 ≡ ok true)
              × WasSent "NewHeartbeat"
                  (Call.add_heartbeat group (from_mode_to_node_status mode))
                  mnemonic)
        × ((give_up_leadership env group mnemonic s).0 ≡ ok true
            → ((can_send_transactions env s).0 ≡ ok true)
              × WasSent "GiveUpLeader" (Call.give_up_leadership group) mnemonic)
  unfolding set_leader add_heartbeat give_up_leadership
  transactions_true old_leader mode mnemonic group s =
      (guarded_true _ _ mnemonic s, guarded_true _ _ mnemonic s, guarded_true _ _ mnemonic s)
