-- ===== src/Cli/Command.antt =====
-- The two commands of the tool: `generateConfig` of cli/src/generate.js and `initConfig` of
-- cli/src/init.js, with their files.
pub mod Cleared
use habs.Base.{
  ℕ, String, Bool, true, false, not, Option, none, some, ◌<>◌, if◌then◌else◌, Result, ok, err,
  pending, Exec, pure, throw, lift, ◌>>=◌, ◌>>◌,
}
use habs.Cli.Shell.{Tools}
use habs.Cli.Files.{
  Files, prepare_temp_directory, file_exists, load_json_file, save_json_to_file, create_archive,
  in_cwd,
}
use habs.Cli.Generate.{ConfigData, FederationConfig, validate_config_data, construct_config}
use habs.Cli.Init.{init_config}

abbrev pub config_file : String
config_file = "archipel.json"

abbrev pub temp_dir : String
temp_dir = "/tmp/archipel-bootstrap"

-- How a command ends: it returns, it exits with status 1, or an awaited call never settles.
pub data Ending : Type 0 where
  returned exited stuck : Ending

abbrev pub ending : Result (Unit {0}) → Ending
ending (ok u) = returned
ending (err e) = exited
ending pending = stuck

-- A command: an error is printed and the process exits.
abbrev command : {W : Type 0} → Exec W (Unit {0}) → W → Ending × W
command m w = let (r, w') = m w in (ending r, w')

-- `prompt` is `getPasswordFromUser`. The fuel bounds how deep the old directories go.
module _ {W : Type 0} (tools : Tools W) (files : Files W ConfigData FederationConfig)
    (prompt : Exec W (Option String)) (fuel : ℕ) where
  -- The `try` of `generateConfig`
  unfoldable pub generate_archive : Exec W (Unit {0})
  generate_archive = do
    prepare_temp_directory files fuel temp_dir
    found ← file_exists files config_file
    if not found
        then throw "Archipel config file was not found. Try to launch 'init' command."
        else do
          config_data ← load_json_file files config_file
          validate_config_data tools config_data
          password ← prompt
          config ← construct_config tools config_data
          files.write_json config (temp_dir <> "/config.json")
          create_archive files fuel tools temp_dir (in_cwd files "config.zip") password

  -- Generate config
  unfoldable pub generate_command : W → Ending × W
  generate_command = command generate_archive

module _ {W A : Type 0} (files : Files W A ConfigData) where
  -- Init config: `services` is the argument of the command.
  unfoldable pub init_command : String → W → Ending × W
  init_command services =
      command (do config ← lift (init_config services); save_json_to_file files config config_file)
