-- ===== src/Cli/Passwords.antt =====
-- cli/cli.go: handleAuthCommand, where the password file opens without error.
use ant_cache.Base.{
  ◌+◌, ◌&&◌, Option, none, some, List, [], ◌∷◌, ◌++◌, if◌then◌else◌, Text, codes, text_eq, length,
  leb, ltb,
}
use ant_cache.Auth.{
  AuthManager, Crypto, SetEffects, Verdict, valid, invalid, failed, Result, ok, error, has_password,
  set_password, verify_password,
}
use ant_cache.Auth.Prompts.{Typed, setup_password}
use ant_cache.Server.Commands.{line}

abbrev pub cli_error : Text → Text
cli_error s = line (codes "ERROR: " ++ s)

-- What is typed at the prompts, and what SetPassword meets.
pub record AuthInput : Type 0 where
  pub typed : Typed
  pub effects : SetEffects

-- The password file after a command, and what the command prints.
pub record Account : Type 0 where
  pub file : Option Text
  pub printed : Text

abbrev pub account : Option Text → Text → Account
account file printed = record { file = file; printed = printed }

abbrev pub setup_done : Option Text × Option Text → Account
setup_done (none, file) = account file []
setup_done (some e, file) = account file (cli_error e)

abbrev pub change_done : Option Text × Option Text → Account
change_done (none, file) = account file (line (codes "Password changed successfully!"))
change_done (some e, file) = account file (cli_error (codes "Failed to change password: " ++ e))

abbrev pub change_confirmed :
    Crypto → AuthInput → AuthManager → Option Text → Text → Result → Account
change_confirmed crypto input am file password (error e) = account file (cli_error e)
change_confirmed crypto input am file password (ok again) =
    if text_eq password again
    then change_done (set_password crypto input.effects am password file)
    else account file (cli_error (codes "Passwords do not match"))

abbrev pub change_new : Crypto → AuthInput → AuthManager → Option Text → Result → Account
change_new crypto input am file (error e) = account file (cli_error e)
change_new crypto input am file (ok password) =
    if ltb (length password) 6
    then account file (cli_error (codes "Password must be at least 6 characters long"))
    else change_confirmed crypto input am file password (input.typed 2)

abbrev pub change_verified : Crypto → AuthInput → AuthManager → Option Text → Verdict → Account
change_verified crypto input am file (failed e) = account file (cli_error e)
change_verified crypto input am file invalid =
    account file (cli_error (codes "Invalid current password"))
change_verified crypto input am file valid = change_new crypto input am file (input.typed 1)

abbrev pub change_password : Crypto → AuthInput → AuthManager → Option Text → Result → Account
change_password crypto input am file (error e) = account file (cli_error e)
change_password crypto input am file (ok current) =
    change_verified crypto input am file (verify_password crypto none am file current)

-- strings.ToLower, as far as a comparison with `setup` and `change` can see.
unfoldable pub to_lower : Text → Text
to_lower [] = []
to_lower (c ∷ s) = (if leb b'A' c && leb c b'Z' then c + 32 else c) ∷ to_lower s

abbrev pub auth_subcommand : Crypto → AuthInput → AuthManager → Option Text → Text → Account
auth_subcommand crypto input am file sub =
    if text_eq sub (codes "setup")
    then (if has_password am file
        then account file
            (cli_error (codes "Password already set. Use 'auth change' to change password."))
        else setup_done (setup_password crypto input.effects am input.typed file))
    else if text_eq sub (codes "change")
    then (if has_password am file
        then change_password crypto input am file (input.typed 0)
        else account file (cli_error (codes "No password set. Use 'auth setup' first.")))
    else account file (cli_error (codes "Unknown auth subcommand. Available: setup, change"))

abbrev pub auth_parts : Crypto → AuthInput → AuthManager → Option Text → List Text → Account
auth_parts crypto input am file (command ∷ sub ∷ rest) =
    auth_subcommand crypto input am file (to_lower sub)
auth_parts crypto input am file parts =
    account file (cli_error (codes "AUTH command requires subcommand (setup, change)"))

unfoldable pub handle_auth_command :
    Crypto → AuthInput → Option AuthManager → List Text → Option Text → Account
unfolding to_lower has_password setup_password verify_password set_password
handle_auth_command crypto input none parts file =
    account file (cli_error (codes "Authentication is disabled"))
handle_auth_command crypto input (some am) parts file =
    if am.enabled
    then auth_parts crypto input am file parts
    else account file (cli_error (codes "Authentication is disabled"))
