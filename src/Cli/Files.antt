-- ===== src/Cli/Files.antt =====
-- The files of cli/src/utils.js: `rmNonEmptyDir`, `prepareTempDirectory`, `createArchive`,
-- `fileExists` and where JSON is read and written
pub mod Removal
use habs.Base.{
  ℕ, zero, suc, String, Bool, true, false, Option, none, some, List, [], ◌∷◌, if◌then◌else◌, ◌<>◌,
  is_empty, pending, Exec, pure, throw, gets, ◌>>=◌, ◌>>◌,
}
use habs.Cli.Shell.{Tools, exec_async}

-- What the tool calls of fs-extra and of the process. A JSON text is taken as the value that it
-- stands for: `A` is what is read, `B` what is written.
pub record Files (W A B : Type 0) : Type 0 where
  pub exists : String → W → Bool
  pub readdir : String → Exec W (List String)
  -- `statSync(path).isDirectory()`
  pub is_directory : String → Exec W Bool
  pub unlink : String → Exec W (Unit {0})
  pub rmdir : String → Exec W (Unit {0})
  pub mkdir : String → Exec W (Unit {0})
  -- `fs.access`, without its error
  pub access : String → W → Bool
  pub read_json : String → Exec W A
  pub write_json : B → String → Exec W (Unit {0})
  -- `process.cwd()`
  pub cwd : String

-- `files.forEach`
unfoldable pub for_each :
    {W : Type 0} → List String → (String → Exec W (Unit {0})) → Exec W (Unit {0})
for_each [] f = pure tt
for_each (name ∷ names) f = let rest = for_each names f in do f name; rest

module _ {W A B : Type 0} (files : Files W A B) where
  open files use {
    exists, readdir, is_directory, unlink, rmdir, mkdir, access, read_json, write_json, cwd,
  }

  -- An entry of the directory; `remove` is the recursive call.
  unfoldable pub rm_entry : (String → Exec W (Unit {0})) → String → String → Exec W (Unit {0})
  rm_entry remove path filename = do
    directory ← is_directory (path <> "/" <> filename)
    if directory then remove (path <> "/" <> filename) else unlink (path <> "/" <> filename)

  -- Remove a directory with files in it, at most as many directories deep as the fuel says. Without
  -- fuel it does not end.
  unfoldable pub rm_non_empty_dir : ℕ → String → Exec W (Unit {0})
  rm_non_empty_dir zero path = λ w. (pending, w)
  rm_non_empty_dir (suc fuel) path =
      let remove = rm_non_empty_dir fuel in
      do
        here ← gets (exists path)
        if here
            then (do names ← readdir path; for_each names (rm_entry remove path); rmdir path)
            else throw "Directory was not found."

  -- Delete temp directory if already exists if not create one
  unfoldable pub prepare_temp_directory : ℕ → String → Exec W (Unit {0})
  prepare_temp_directory fuel temp_dir = do
    here ← gets (exists temp_dir)
    if here then (do rm_non_empty_dir fuel temp_dir; mkdir temp_dir) else mkdir temp_dir

  -- `path.join(process.cwd(), fileName)`
  abbrev pub in_cwd : String → String
  in_cwd file_name = cwd <> "/" <> file_name

  -- Check if file exists
  unfoldable pub file_exists : String → Exec W Bool
  file_exists file_name = gets (access (in_cwd file_name))

  -- Load JSON file to object
  unfoldable pub load_json_file : String → Exec W A
  load_json_file file_name = read_json (in_cwd file_name)

  -- Save object to file
  unfoldable pub save_json_to_file : B → String → Exec W (Unit {0})
  save_json_to_file json file_name = write_json json (in_cwd file_name)

  -- Create a zip Archive
  unfoldable pub create_archive : ℕ → Tools W → String → String → Option String → Exec W (Unit {0})
  create_archive fuel tools folder_path result_file_path password = do
    exec_async tools (zip_command password)
    rm_non_empty_dir fuel folder_path
    where
      zip_command : Option String → String
      zip_command none = "zip -r -j " <> result_file_path <> " " <> folder_path
      zip_command (some p) =
          if is_empty p
          then "zip -r -j " <> result_file_path <> " " <> folder_path
          else "zip -P \"" <> p <> "\" -r -j " <> result_file_path <> " " <> folder_path
