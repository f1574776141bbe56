-- ===== src/Cli/Command/Cleared.antt =====
-- What `generateConfig` of cli/src/generate.js leaves of its temporary directory.
use habs.Base.{
  ◌≡◌, refl, arith, ℕ, zero, suc, String, Bool, true, false, not, Option, ◌<>◌, if◌then◌else◌,
  Result, ok, err, pending, Exec, continue-Then, throw, ◌>>=◌,
}
use habs.Cli.Shell.{Tools, exec_async}
use habs.Cli.Files.{
  Files, for_each, rm_entry, rm_non_empty_dir, prepare_temp_directory, file_exists, load_json_file,
  create_archive,
}
use habs.Cli.Generate.{ConfigData, FederationConfig, validate_config_data, construct_config}
use habs.Cli.Command.{returned, ending, generate_archive, generate_command, temp_dir, config_file}

module _ {W : Type 0} (Q : W → Type 0) where
  -- Whenever `m` returns, `Q` holds.
  abbrev After : Exec W (Unit {0}) → Type 0
  After m = (w : W) → (m w).0 ≡ ok tt → Q (m w).1

  then-After :
      {C : Type 0} (m : Exec W C) (f : C → Exec W (Unit {0}))
      → ((c : C) → After (f c))
      → After (m >>= f)
  then-After m f after w h = continue-Then Q (m w).0 f (m w).1 (λ c e. after c (m w).1 e) h

  if-After : (b : Bool) (m n : Exec W (Unit {0})) → After m → After n → After (if b then m else n)
  if-After true m n am an = am
  if-After false m n am an = an

  throw-After : (message : String) → After (throw message)
  throw-After message w h = absurd (ground arith)

module _ {W A B : Type 0} (files : Files W A B) where
  -- `rmdirSync` that returns has removed the directory.
  abbrev pub Removes : Type 0
  Removes =
      (path : String) (w : W)
      → (files.rmdir path w).0 ≡ ok tt
      → files.exists path (files.rmdir path w).1 ≡ false

  abbrev pub Gone : String → W → Type 0
  Gone path w = files.exists path w ≡ false

  rm_non_empty_dir-Gone :
      Removes → (n : ℕ) (path : String) → After (Gone path) (rm_non_empty_dir files n path)
  unfolding rm_non_empty_dir
  rm_non_empty_dir-Gone removes zero path w h = absurd (ground arith)
  rm_non_empty_dir-Gone removes (suc n) path w h =
      let remove = rm_non_empty_dir files n in
      if-After (Gone path) (files.exists path w) _ _
        (then-After (Gone path) (files.readdir path) _ λ names.
          then-After (Gone path) (for_each names (rm_entry files remove path)) _ λ u. removes path)
        (throw-After (Gone path) "Directory was not found.") w h

ending-returned : (r : Result (Unit {0})) → ending r ≡ returned → r ≡ ok tt
ending-returned (ok u) h = refl
ending-returned (err e) h = absurd (ground arith)
ending-returned pending h = absurd (ground arith)

module _ {W : Type 0} (tools : Tools W) (files : Files W ConfigData FederationConfig)
    (prompt : Exec W (Option String)) (fuel : ℕ) where
  create_archive-Gone :
      Removes files
      → (folder result : String) (password : Option String)
      → After (Gone files folder) (create_archive files fuel tools folder result password)
  unfolding create_archive
  create_archive-Gone removes folder result password =
      then-After (Gone files folder) (exec_async tools _) _
        λ out. rm_non_empty_dir-Gone files removes fuel folder

  generate_archive-Gone :
      Removes files → After (Gone files temp_dir) (generate_archive tools files prompt fuel)
  unfolding generate_archive
  generate_archive-Gone removes =
      let Q = Gone files temp_dir in
      then-After Q (prepare_temp_directory files fuel temp_dir) _ λ u.
        then-After Q (file_exists files config_file) _ λ found.
          if-After Q (not found) _ _ (throw-After Q _) (
            then-After Q (load_json_file files config_file) _ λ config_data.
              then-After Q (validate_config_data tools config_data) _ λ v.
                then-After Q prompt _ λ password.
                  then-After Q (construct_config tools config_data) _ λ config.
                    then-After Q (files.write_json config (temp_dir <> "/config.json")) _
                      λ x. create_archive-Gone removes temp_dir _ password)

  -- Where rmdirSync has removed the directory when it returns, a command generate that returns
  -- leaves no temporary directory, in which the configuration with the keys was written.
  pub generate_command-Gone :
      Removes files
      → (w : W) → (generate_command tools files prompt fuel w).0 ≡ returned
      → Gone files temp_dir (generate_command tools files prompt fuel w).1
  unfolding generate_command
  generate_command-Gone removes w h =
      generate_archive-Gone removes w
        (ending-returned (generate_archive tools files prompt fuel w).0 h)
