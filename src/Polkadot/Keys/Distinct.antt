-- ===== src/Polkadot/Keys/Distinct.antt =====
-- The list of imported keys: no key twice, and none but the six of the configuration.
use habs.Base.{
  ◌≤◌, ◌<◌, ◌≡◌, refl, ◌∙◌, ap, String, true, false, not, ◌⊎◌, inl, inr, List, [], ◌∷◌, ◌++◌, arith,
  length, length-append, leb, try_catch-Inv, All-append, none, Result, ok, err, pending, pure,
  try_catch, Bool-cases, Result-cases, subst, sym, Keeps, continue-Keeps, try_catch-Keeps, if-Keeps,
  continue-Inv, if-Inv, eq_refl,
}
use habs.Env.{Env, KeyPair, author_has_key, author_insert_key, author_has_session_keys}
use habs.Utils.{get_keys_from_seed, is_empty_string}
use habs.Polkadot.State.{object, Polkadot, PolkadotConfig}
use habs.Polkadot.Keys.{
  contains, check_key_added, check_session_keys_on_node, insert_key, import_key, import_all,
  import_missing, polkadot_keys_import, is_some, rpc_url, key_text,
}
use habs.Polkadot.Keys.Pigeonhole.{
  Distinct, Within, contains-append_left as left, contains-append_right as right, Distinct-snoc,
  length_bound,
}

abbrev key_of : Result KeyPair → List String
key_of (ok keys) = keys.public_key ∷ []
key_of _ = []

-- The public keys of the six configured seeds, of those that are seeds.
abbrev pub configured : {W : Type 0} → Env W → PolkadotConfig → List String
configured env c =
    key_of (get_keys_from_seed env c.polkadot_key_gran "ed25519")
    ++ (key_of (get_keys_from_seed env c.polkadot_key_babe "sr25519")
        ++ (key_of (get_keys_from_seed env c.polkadot_key_imon "sr25519")
            ++ (key_of (get_keys_from_seed env c.polkadot_key_para "sr25519")
                ++ (key_of (get_keys_from_seed env c.polkadot_key_asgn "sr25519")
                    ++ key_of (get_keys_from_seed env c.polkadot_key_audi "sr25519")))))

length-key_of : (r : Result KeyPair) → length (key_of r) ≤ 1
length-key_of (ok keys) = omega arith
length-key_of (err e) = omega arith
length-key_of pending = omega arith

length-configured : {W : Type 0} (env : Env W) (c : PolkadotConfig) → length (configured env c) ≤ 6
length-configured env c = omega (arith, length-append {0}, length-key_of)

-- The imported keys are distinct, and all of them configured.
pub record KeysValid {W : Type 0} (env : Env W) (p : Polkadot) : Type 0 where
  pub distinct : Distinct p.imported_keys
  pub within_configured : Within p.imported_keys (configured env p.config)

module _ {W : Type 0} (env : Env W) where
  check_key_added-polkadot : (key type : String) → Keeps object (check_key_added env key type)
  unfolding check_key_added
  check_key_added-polkadot key type s =
      continue-Keeps object (env.post (rpc_url s.0.config) (author_has_key key type) s.1).0 _ _ refl
        (λ r t. refl)

  pub check_session-polkadot : Keeps object (check_session_keys_on_node env)
  unfolding check_session_keys_on_node
  check_session-polkadot = try_catch-Keeps object _ false (λ s.
      if-Keeps object (is_empty_string s.0.config.polkadot_session_key_to_check) _ _ (λ u. refl)
        (λ u.
          continue-Keeps object
            (env.post (rpc_url s.0.config)
              (author_has_session_keys (key_text s.0.config.polkadot_session_key_to_check)) u.1).0
            _ _ refl (λ r t. refl))
        s)

  -- The object is as before, or the key stands behind the others.
  abbrev MayPush : String → Polkadot → Polkadot × W → Type 0
  MayPush key p t =
      (object t ≡ p) ⊎ (object t ≡ record p { imported_keys = p.imported_keys ++ key ∷ [] })

  insert_key-MayPush :
      (mnemonic type key : String) (s : Polkadot × W)
      → MayPush key s.0 (insert_key env mnemonic type key s).1
  unfolding insert_key
  insert_key-MayPush mnemonic type key s =
      let answer =
        try_catch (env.post (rpc_url s.0.config) (author_insert_key type mnemonic key)) (pure none)
          s.1 in
      let s1 : Polkadot × W = (s.0, answer.1) in
      let s2 = (check_key_added env key type s1).1 in
      let s3 = (check_session_keys_on_node env s2).1 in
      let same2 = check_key_added-polkadot key type s1 in
      let same3 = check_session-polkadot s2 ∙ same2 in
      continue-Inv (MayPush key s.0) answer.0 _ _ (inl refl) λ posted.
        if-Inv (MayPush key s.0) (not (is_some posted)) _ _ _ (inl refl) (
          continue-Inv (MayPush key s.0) (check_key_added env key type s1).0 _ _ (inl same2)
            λ added. if-Inv (MayPush key s.0) (not added) _ _ _ (inl same2) (
              continue-Inv (MayPush key s.0) (check_session_keys_on_node env s2).0 _ _ (inl same3)
                λ checked. inr (
                  ap (λ (p : Polkadot). record p { imported_keys = p.imported_keys ++ key ∷ [] })
                    same3)))

  -- The invariant of the imports, at the configuration that the object has.
  abbrev ValidAt : PolkadotConfig → Polkadot → Type 0
  ValidAt c p = (p.config ≡ c) × KeysValid env p

  push-ValidAt :
      (c : PolkadotConfig) (key : String) (p : Polkadot) (t : Polkadot × W)
      → ValidAt c p
      → contains key (configured env c) ≡ true
      → contains key p.imported_keys ≡ false
      → MayPush key p t
      → ValidAt c (object t)
  push-ValidAt c key p t v known fresh (inl e) = subst (ValidAt c) (sym e) v
  push-ValidAt c key p t v known fresh (inr e) =
      let known_p : contains key (configured env p.config) ≡ true =
        subst (λ d. contains key (configured env d) ≡ true) (sym v.0) known in
      subst (ValidAt c) (sym e) (
        v.0,
        record {
          distinct = Distinct-snoc key p.imported_keys fresh v.1.distinct;
          within_configured =
              All-append (λ k. contains k (configured env p.config) ≡ true) p.imported_keys
                (key ∷ []) v.1.within_configured (known_p, tt);
        },
      )

  -- A seed of the configuration: its public key is among the configured ones.
  abbrev IsSeedOf : PolkadotConfig → String → String → Type 0
  IsSeedOf c seed crypto =
      (keys : KeyPair)
      → get_keys_from_seed env seed crypto ≡ ok keys
      → contains keys.public_key (configured env c) ≡ true

  import_key-ValidAt :
      (c : PolkadotConfig) (seed crypto type : String) (s : Polkadot × W)
      → IsSeedOf c seed crypto
      → ValidAt c (object s)
      → ValidAt c (object (import_key env seed crypto type s).1)
  unfolding import_key
  import_key-ValidAt c seed crypto type s is_seed v =
      elim (Result-cases (get_keys_from_seed env seed crypto)) [
        | inl (keys, e) ↦ elim (Bool-cases (contains keys.public_key s.0.imported_keys)) [
          | inl old ↦ rw (e, old) v
          | inr fresh ↦
              rw (e, fresh)
                (push-ValidAt c keys.public_key s.0 (insert_key env seed type keys.public_key s).1 v
                  (is_seed keys e) fresh (insert_key-MayPush seed type keys.public_key s))
        ]
        | inr (inl (x, e)) ↦ rw e v
        | inr (inr e) ↦ rw e v
      ]

  key_of-contains :
      (seed crypto : String) (keys : KeyPair)
      → get_keys_from_seed env seed crypto ≡ ok keys
      → contains keys.public_key (key_of (get_keys_from_seed env seed crypto)) ≡ true
  unfolding contains
  key_of-contains seed crypto keys e = rw e (rw eq_refl)

  -- The six seeds of `import_all`.
  seeds_configured :
      (c : PolkadotConfig)
      → IsSeedOf c c.polkadot_key_gran "ed25519"
        × IsSeedOf c c.polkadot_key_babe "sr25519"
        × IsSeedOf c c.polkadot_key_imon "sr25519"
        × IsSeedOf c c.polkadot_key_para "sr25519"
        × IsSeedOf c c.polkadot_key_asgn "sr25519"
        × IsSeedOf c c.polkadot_key_audi "sr25519"
  seeds_configured c =
      let g = key_of (get_keys_from_seed env c.polkadot_key_gran "ed25519") in
      let b = key_of (get_keys_from_seed env c.polkadot_key_babe "sr25519") in
      let i = key_of (get_keys_from_seed env c.polkadot_key_imon "sr25519") in
      let p = key_of (get_keys_from_seed env c.polkadot_key_para "sr25519") in
      let n = key_of (get_keys_from_seed env c.polkadot_key_asgn "sr25519") in
      let d = key_of (get_keys_from_seed env c.polkadot_key_audi "sr25519") in
      let t4 = n ++ d in
      let t3 = p ++ t4 in
      let t2 = i ++ t3 in
      let t1 = b ++ t2 in
      (
        λ k e. left _ g t1 (key_of-contains _ _ k e),
        λ k e. right _ g t1 (left _ b t2 (key_of-contains _ _ k e)),
        λ k e. right _ g t1 (right _ b t2 (left _ i t3 (key_of-contains _ _ k e))),
        λ k e. right _ g t1 (right _ b t2 (right _ i t3 (left _ p t4 (key_of-contains _ _ k e)))),
        λ k e.
            right _ g t1
              (right _ b t2 (right _ i t3 (right _ p t4 (left _ n d (key_of-contains _ _ k e))))),
        λ k e.
            right _ g t1
              (right _ b t2 (right _ i t3 (right _ p t4 (right _ n d (key_of-contains _ _ k e))))),
      )

  import_all-ValidAt :
      (c : PolkadotConfig) (s : Polkadot × W)
      → ValidAt c (object s)
      → ValidAt c (object (import_all env c s).1)
  unfolding import_all
  import_all-ValidAt c s v =
      let P = λ (t : Polkadot × W). ValidAt c (object t) in
      let (gran, babe, imon, para, asgn, audi) = seeds_configured c in
      let m1 = import_key env c.polkadot_key_gran "ed25519" "gran" s in
      let m2 = import_key env c.polkadot_key_babe "sr25519" "babe" m1.1 in
      let m3 = import_key env c.polkadot_key_imon "sr25519" "imon" m2.1 in
      let m4 = import_key env c.polkadot_key_para "sr25519" "para" m3.1 in
      let m5 = import_key env c.polkadot_key_asgn "sr25519" "asgn" m4.1 in
      let m6 = import_key env c.polkadot_key_audi "sr25519" "audi" m5.1 in
      let v1 = import_key-ValidAt c _ _ "gran" s gran v in
      let v2 = import_key-ValidAt c _ _ "babe" m1.1 babe v1 in
      let v3 = import_key-ValidAt c _ _ "imon" m2.1 imon v2 in
      let v4 = import_key-ValidAt c _ _ "para" m3.1 para v3 in
      let v5 = import_key-ValidAt c _ _ "asgn" m4.1 asgn v4 in
      let v6 = import_key-ValidAt c _ _ "audi" m5.1 audi v5 in
      continue-Inv P m1.0 _ _ v1 λ _. continue-Inv P m2.0 _ _ v2 λ _.
        continue-Inv P m3.0 _ _ v3 λ _.
          continue-Inv P m4.0 _ _ v4
            λ _. continue-Inv P m5.0 _ _ v5 λ _. continue-Inv P m6.0 _ _ v6 λ _. v6

  import_missing-ValidAt :
      (c : PolkadotConfig) (s : Polkadot × W)
      → s.0.config ≡ c
      → ValidAt c (object s)
      → ValidAt c (object (import_missing env s).1)
  unfolding import_missing
  import_missing-ValidAt c s e v =
      let s1 : Polkadot × W = (s.0, env.sleep s.0.imported_keys_delay s.1) in
      let m = import_all env s.0.config s1 in
      let v1 : ValidAt c (object m.1) =
        subst (λ d. ValidAt d (object m.1)) e (import_all-ValidAt s.0.config s1 (refl, v.1)) in
      elim (Bool-cases (leb 6 (length s.0.imported_keys))) [
        | inl full ↦ rw full v
        | inr more ↦
            rw more
              (continue-Inv (λ (t : Polkadot × W). ValidAt c (object t)) m.0 _ m.1 v1 (λ _. v1))
      ]

  -- No more than six keys are ever imported, and fewer than six where two of the configured seeds
  -- have the same public key.
  pub length_imported :
      (p : Polkadot)
      → KeysValid env p
      → (length p.imported_keys ≤ 6)
        × (¬ Distinct (configured env p.config) → length p.imported_keys < 6)
  length_imported p v =
      let b =
        length_bound p.imported_keys (configured env p.config) v.distinct v.within_configured in
      let six = length-configured env p.config in
      (omega arith, λ repeats. omega (arith, b.1 repeats))

  -- Key imports, also ones that fail halfway, keep the list of imported keys free of repetition and
  -- inside the six configured keys, so that there are at most six, and leave the configuration
  -- alone.
  pub polkadot_keys_import-KeysValid :
      (s : Polkadot × W)
      → KeysValid env (object s)
      → let p = object (polkadot_keys_import env s).1 in
        (p.config ≡ s.0.config) × KeysValid env p × (length p.imported_keys ≤ 6)
  unfolding polkadot_keys_import
  polkadot_keys_import-KeysValid s v =
      let (same, valid) =
        try_catch-Inv (λ (t : Polkadot × W). ValidAt s.0.config (object t)) (import_missing env)
          false s (import_missing-ValidAt s.0.config s refl (refl, v)) in
      (same, valid, (length_imported _ valid).0)
