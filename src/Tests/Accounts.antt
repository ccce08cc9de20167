-- ===== src/Tests/Accounts.antt =====
-- The theorems on passwords and the client at concrete data.
use ant_cache.Base.{
  replicate, ◌%◌, ℕ, zero, suc, ◌≡◌, refl, true, none, some, [], ◌∷◌, ◌++◌, arith, pos,
  if◌then◌else◌, Text, codes, text_eq, length,
}
use ant_cache.Auth.{
  AuthManager, Crypto, SetEffects, ok, valid, invalid, set_password, verify_password,
}
use ant_cache.Auth.Hex.{hex_encode, hex_decode}
use ant_cache.Auth.Stored.{IsKey, verify_password-set_password}
use ant_cache.Auth.Prompts.{Typed, IsAccepted, authenticate, authenticate-IsAccepted}
use ant_cache.Auth.{has_password}
use ant_cache.Auth.Prompts.{attempts}
use ant_cache.Strings.{scan_lines, split, scan_pieces}
use ant_cache.Utils.Quotes.{after_prefix, after_any, trim_space, trim_left}
use ant_cache.Server.{process_parts}
use ant_cache.Server.Commands.{Verb}
use ant_cache.Cli.{handle_cache_command}
use ant_cache.Cli.Passwords.{AuthInput, handle_auth_command}
use ant_cache.Cli.Agreement.{cache_of, answered, handle_cache_command-process_parts}
use ant_cache.Cli.Changes.{IsGuarded, handle_auth_command-IsGuarded}
use ant_cache.Tests.{stocked, locked}

-- A key that depends on the length of the password.
abbrev pub key_text : ℕ → Text
key_text n = replicate 31 7 ++ (n % 256) ∷ []

abbrev pub crypto : Crypto
crypto = record {
  key = λ password salt. key_text (length password);
  hex_error = λ s. codes "bad hex";
}

abbrev pub salt : Text
salt = replicate 32 9

abbrev pub effects : SetEffects
effects = record { salt = ok salt; create_error = none; write_error = none }

abbrev account_manager : AuthManager
account_manager = record { password_file = codes "auth.dat"; enabled = true }

pub salt-IsKey : IsKey salt
salt-IsKey = (omega arith, refl)

pub stored-IsKey : IsKey (crypto.key (codes "secret") salt)
stored-IsKey = (omega arith, refl)

verify_password-set_password_example :
    ((set_password crypto effects account_manager (codes "secret") none).0 ≡ none)
    × (verify_password crypto none account_manager
          (set_password crypto effects account_manager (codes "secret") none).1
          (codes "wrong password")
        ≡ (if text_eq (key_text 14) (key_text 6) then valid else invalid))
verify_password-set_password_example =
    verify_password-set_password crypto effects account_manager (codes "secret")
      (codes "wrong password") salt none refl refl refl refl salt-IsKey stored-IsKey

-- The second answer is the password.
abbrev typed : Typed
typed zero = ok (codes "a wrong one")
typed (suc n) = ok (codes "secret")

abbrev password_lines : Text
password_lines = hex_encode salt ++ 10 ∷ (hex_encode (key_text 6) ++ 10 ∷ [])

authenticated : (authenticate crypto effects account_manager typed (some password_lines)).0 ≡ none
unfolding authenticate attempts has_password verify_password scan_lines split scan_pieces
    after_prefix after_any hex_encode hex_decode trim_space trim_left text_eq
authenticated = refl

authenticate-IsAccepted_example :
    IsAccepted crypto account_manager (some password_lines) typed 0 3
    × ((authenticate crypto effects account_manager typed (some password_lines)).1
        ≡ some password_lines)
authenticate-IsAccepted_example =
    authenticate-IsAccepted crypto effects account_manager typed password_lines refl authenticated

handle_cache_command-process_parts_example :
    cache_of (
      handle_cache_command locked.formats stocked
        (pos 20)
        Verb.setx
        (codes "setx" ∷ codes "tags" ∷ codes "-t" ∷ codes "1h" ∷ codes "k" ∷ codes "v" ∷ []))
    ≡ answered (
        process_parts locked stocked
          (pos 20)
          true
          Verb.setx
          (codes "setx" ∷ codes "tags" ∷ codes "-t" ∷ codes "1h" ∷ codes "k" ∷ codes "v" ∷ []))
handle_cache_command-process_parts_example =
    handle_cache_command-process_parts locked stocked (pos 20) Verb.setx
      (codes "setx" ∷ codes "tags" ∷ codes "-t" ∷ codes "1h" ∷ codes "k" ∷ codes "v" ∷ []) tt

abbrev auth_input : AuthInput
auth_input = record { typed = typed; effects = effects }

handle_auth_command-IsGuarded_example : IsGuarded crypto auth_input account_manager password_lines (
    handle_auth_command crypto auth_input
      (some account_manager)
      (codes "auth" ∷ codes "change" ∷ [])
      (some password_lines))
handle_auth_command-IsGuarded_example =
    handle_auth_command-IsGuarded crypto auth_input account_manager password_lines
      (codes "auth" ∷ codes "change" ∷ []) refl
