-- ===== src/Polkadot/Keys/Outside.antt =====
-- The import of keys (orchestrator/src/services/polkadot/polkadot.js) posts to the node and waits;
-- what these leave alone, it leaves alone.
use habs.Base.{
  ℕ, ◌≡◌, refl, ◌∙◌, ap, String, false, Option, none, leb, length, Exec, pure, Keeps,
  continue-Keeps, try_catch-Keeps, if-Keeps, try_catch,
}
use habs.Env.{Env, Rpc, author_insert_key}
use habs.Utils.{get_keys_from_seed}
use habs.Polkadot.State.{Polkadot, PolkadotConfig, on_world}
use habs.Polkadot.Keys.{
  check_key_added, check_session_keys_on_node, insert_key, import_key, import_all, import_missing,
  polkadot_keys_import, rpc_url, contains,
}

module _ {W T : Type 0} (view : W → T) where
  -- The configuration, and what is looked at outside.
  abbrev pub with_config : Polkadot × W → PolkadotConfig × T
  with_config s = (s.0.config, view s.1)

  pub on_world-Keeps : {A : Type 0} (m : Exec W A) → Keeps view m → Keeps with_config (on_world m)
  on_world-Keeps m k s = ap (λ t. (s.0.config, t)) (k s.1)

module _ {W T : Type 0} (env : Env W) (view : W → T)
    (post_keeps : (url : String) (request : Rpc) → Keeps view (env.post url request))
    (sleep_keeps : (ms : ℕ) (w : W) → view (env.sleep ms w) ≡ view w) where
  posts-Keeps :
      (url : String) (request : Rpc) → Keeps (with_config view) (on_world (env.post url request))
  posts-Keeps url request = on_world-Keeps view (env.post url request) (post_keeps url request)

  check_key_added-Keeps :
      (key key_type : String) → Keeps (with_config view) (check_key_added env key key_type)
  unfolding check_key_added
  check_key_added-Keeps key key_type s =
      continue-Keeps (with_config view) (env.post _ _ s.1).0 _ _ (posts-Keeps _ _ s) λ r t. refl

  check_session-Keeps : Keeps (with_config view) (check_session_keys_on_node env)
  unfolding check_session_keys_on_node
  check_session-Keeps = try_catch-Keeps (with_config view) _ false λ s.
      if-Keeps (with_config view) _ _ _ (λ t. refl)
        (λ t.
          continue-Keeps (with_config view) (env.post _ _ t.1).0 _ _ (posts-Keeps _ _ t)
            λ r u. refl)
        s

  insert_key-Keeps :
      (mnemonic type public_key : String)
      → Keeps (with_config view) (insert_key env mnemonic type public_key)
  unfolding insert_key
  insert_key-Keeps mnemonic type public_key s =
      let V = with_config view in
      let request = author_insert_key type mnemonic public_key in
      let posting = env.post (rpc_url s.0.config) request in
      let tried : Exec W (Option String) = try_catch posting (pure none) in
      let posted : with_config view (on_world tried s).1 ≡ with_config view s =
        on_world-Keeps view tried
          (try_catch-Keeps view posting none (post_keeps (rpc_url s.0.config) request)) s in
      continue-Keeps V (tried s.1).0 _ _ posted λ r t.
        if-Keeps V _ _ _ (λ u. refl)
          (λ u.
            continue-Keeps V (check_key_added env public_key type u).0 _ _
              (check_key_added-Keeps public_key type u)
              λ added v.
                if-Keeps V _ _ _ (λ x. refl)
                  (λ x.
                    continue-Keeps V (check_session_keys_on_node env x).0 _ _
                      (check_session-Keeps x) λ b y. refl)
                  v)
          t

  import_key-Keeps :
      (mnemonic crypto type : String)
      → Keeps (with_config view) (import_key env mnemonic crypto type)
  unfolding import_key
  import_key-Keeps mnemonic crypto type s =
      let V = with_config view in
      continue-Keeps V (get_keys_from_seed env mnemonic crypto) _ s refl λ keys t.
        if-Keeps V (contains keys.public_key t.0.imported_keys) _ _ (λ u. refl)
          (insert_key-Keeps mnemonic type keys.public_key) t

  import_all-Keeps : (c : PolkadotConfig) → Keeps (with_config view) (import_all env c)
  unfolding import_all
  import_all-Keeps c s =
      let V = with_config view in
      continue-Keeps V (import_key env c.polkadot_key_gran "ed25519" "gran" s).0 _ _
        (import_key-Keeps c.polkadot_key_gran "ed25519" "gran" s)
        λ b t.
          continue-Keeps V (import_key env c.polkadot_key_babe "sr25519" "babe" t).0 _ _
            (import_key-Keeps c.polkadot_key_babe "sr25519" "babe" t)
            λ b u.
              continue-Keeps V (import_key env c.polkadot_key_imon "sr25519" "imon" u).0 _ _
                (import_key-Keeps c.polkadot_key_imon "sr25519" "imon" u)
                λ b v.
                  continue-Keeps V (import_key env c.polkadot_key_para "sr25519" "para" v).0 _ _
                    (import_key-Keeps c.polkadot_key_para "sr25519" "para" v)
                    λ b x.
                      continue-Keeps V (import_key env c.polkadot_key_asgn "sr25519" "asgn" x).0 _ _
                        (import_key-Keeps c.polkadot_key_asgn "sr25519" "asgn" x)
                        λ b y.
                          continue-Keeps V (import_key env c.polkadot_key_audi "sr25519" "audi" y).0
                            _ _ (import_key-Keeps c.polkadot_key_audi "sr25519" "audi" y)
                            λ b z. refl

  pub polkadot_keys_import-Keeps : Keeps (with_config view) (polkadot_keys_import env)
  unfolding polkadot_keys_import import_missing
  polkadot_keys_import-Keeps =
      let V = with_config view in
      try_catch-Keeps V _ false λ s.
        if-Keeps V (leb 6 (length s.0.imported_keys)) _ _ (λ t. refl)
          (λ t.
            let slept : Polkadot × W = (t.0, env.sleep t.0.imported_keys_delay t.1) in
            continue-Keeps V (import_all env t.0.config slept).0 _ _
              (import_all-Keeps t.0.config slept) (λ u v. refl)
            ∙ ap (λ x. (t.0.config, x)) (sleep_keeps t.0.imported_keys_delay t.1))
          s
