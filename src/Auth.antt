-- ===== src/Auth.antt =====
-- auth/auth.go: the AuthManager struct, what VerifyPassword may answer, and HasPassword, SetPassword
-- and VerifyPassword on the password file, whose text is an argument (`none`: there is no file).
pub mod Hex
pub mod Prompts
pub mod Stored
use ant_cache.Base.{
  take, ℕ, zero, suc, ◌+◌, ◌-◌, ◌*◌, ◌≤◌, ◌<◌, ◌≡◌, refl, sym, ap, ◌∙◌, ◌≢◌, ◌⊎◌, inl, inr, Bool,
  true, false, not, ◌&&◌, ◌||◌, Option, none, some, List, [], ◌∷◌, ◌++◌, arith, ℤ, pos, negsuc,
  if◌then◌else◌, Text, codes, text_eq, Table, lookup, insert, erase, length, ltb_ℤ, ◌==◌, is_some,
  Bool-cases, Option-cases, All, lookup-insert, lookup-erase, text_eq_iff, text_eq_refl, leb, ltb,
  join, ◌<ℤ◌,
}
use ant_cache.Strings.{scan_lines}
use ant_cache.Utils.Quotes.{trim_space}
use ant_cache.Auth.Hex.{hex_encode, hex_decode}

pub record AuthManager : Type 0 where
  pub password_file : Text
  pub enabled : Bool

abbrev pub new_auth_manager : Text → Bool → AuthManager
new_auth_manager password_file enabled = record { password_file = password_file; enabled = enabled }

-- `valid` and `invalid` are `true, nil` and `false, nil`; `failed` has the text of the error.
pub data Verdict : Type 0 where
  valid invalid : Verdict
  failed : Text → Verdict

-- A result of the operating system or of a library: a text, or an error by its text.
pub data Result : Type 0 where
  ok : Text → Result
  error : Text → Result

-- What is not in the repository: pbkdf2.Key, of a password and a salt, with its fixed other
-- arguments, and the texts of the errors of hex.DecodeString.
pub record Crypto : Type 0 where
  pub key : Text → Text → Text
  pub hex_error : Text → Text

-- What SetPassword meets: the random salt, an error of Create, and an error of the write with the
-- number of bytes that were written before it.
pub record SetEffects : Type 0 where
  pub salt : Result
  pub create_error : Option Text
  pub write_error : Option (ℕ × Text)

unfoldable pub has_password : AuthManager → Option Text → Bool
has_password am file = am.enabled && is_some file

-- The salt and the hash, each on its line.
abbrev pub password_text : Crypto → Text → Text → Text
password_text crypto salt password =
    hex_encode salt ++ 10 ∷ (hex_encode (crypto.key password salt) ++ 10 ∷ [])

abbrev pub written : Text → Option (ℕ × Text) → Option Text × Option Text
written text none = (none, some text)
written text (some (n, e)) =
    (some (codes "failed to write password file: " ++ e), some (take n text))

abbrev pub created :
    Crypto → SetEffects → Text → Text → Option Text → Option Text → Option Text × Option Text
created crypto effects password salt file (some e) =
    (some (codes "failed to create password file: " ++ e), file)
created crypto effects password salt file none =
    written (password_text crypto salt password) effects.write_error

abbrev pub salted : Crypto → SetEffects → Text → Option Text → Result → Option Text × Option Text
salted crypto effects password file (error e) =
    (some (codes "failed to generate salt: " ++ e), file)
salted crypto effects password file (ok salt) =
    created crypto effects password salt file effects.create_error

-- The error, if there is one, and the file after it.
unfoldable pub set_password :
    Crypto → SetEffects → AuthManager → Text → Option Text → Option Text × Option Text
set_password crypto effects am password file =
    if am.enabled
    then salted crypto effects password file effects.salt
    else (some (codes "authentication is disabled"), file)

-- The two loops that compare lengths and bytes.
abbrev pub compared : Text → Text → Verdict
compared actual expected = if text_eq actual expected then valid else invalid

abbrev pub checked_hash : Crypto → Text → Text → Text → Option Text → Verdict
checked_hash crypto password salt hash_hex (some expected) =
    compared (crypto.key password salt) expected
checked_hash crypto password salt hash_hex none =
    failed (codes "invalid hash format: " ++ crypto.hex_error hash_hex)

abbrev pub checked_salt : Crypto → Text → Text → Text → Option Text → Verdict
checked_salt crypto password salt_hex hash_hex (some salt) =
    checked_hash crypto password salt hash_hex (hex_decode hash_hex)
checked_salt crypto password salt_hex hash_hex none =
    failed (codes "invalid salt format: " ++ crypto.hex_error salt_hex)

abbrev pub check_lines : Crypto → Text → List Text → Verdict
check_lines crypto password (salt ∷ hash ∷ rest) =
    let salt_hex = trim_space salt in
    checked_salt crypto password salt_hex (trim_space hash) (hex_decode salt_hex)
check_lines crypto password _ = failed (codes "invalid password file format")

abbrev pub open_file : Crypto → Text → Text → Option Text → Verdict
open_file crypto password text (some e) = failed (codes "failed to open password file: " ++ e)
open_file crypto password text none = check_lines crypto password (scan_lines text).0

abbrev pub stored_verdict : Crypto → Option Text → Text → Option Text → Verdict
stored_verdict crypto open_error password none = failed (codes "no password set")
stored_verdict crypto open_error password (some text) = open_file crypto password text open_error

-- `open_error` is an error of Open.
unfoldable pub verify_password : Crypto → Option Text → AuthManager → Option Text → Text → Verdict
verify_password crypto open_error am file password =
    if am.enabled then stored_verdict crypto open_error password file else valid
