-- ===== src/Server.antt =====
-- tcpserver/single_goroutine_server.go: processCommandDirect, with handleAuth and parseTTLFromParts.
-- tcpserver/pooled_goroutine_server.go has the same three methods (module Server/Pooled).
pub mod Commands
pub mod Pooled
pub mod Safety
pub mod Access
pub mod Errors
pub mod Session
pub mod Guarded
pub mod Accepting
pub mod Pooling
use ant_cache.Base.{
  ℤ, pos, Bool, true, false, ◌&&◌, ◌||◌, not, List, [], ◌∷◌, ◌++◌, Option, none, some, Text, codes,
  text_eq, leb, length, if◌then◌else◌,
}
use ant_cache.Item.{Compression}
use ant_cache.Cache.{Cache}
use ant_cache.Auth.{AuthManager, Verdict, valid, invalid, failed}
use ant_cache.Utils.Ttl.{parse_ttl, ttl_error}
use ant_cache.Utils.Quotes.{parse_command_with_quotes}
use ant_cache.Server.Commands.{Reply, Formats, line, Verb, verb_of, to_upper, run}

-- What a connection's goroutine works with: the formats of the replies, the authentication manager
-- of the cache and its VerifyPassword.
pub record Server (z : Compression) : Type 0 where
  pub formats : Formats z
  pub auth_manager : Option AuthManager
  pub verify_password : AuthManager → Text → Verdict

-- The reply, with the cache and the connection's `authenticated` after it.
pub record Answer (z : Compression) : Type 0 where
  pub reply : Reply z
  pub authenticated : Bool

-- `authManager != nil && authManager.IsEnabled()`
unfoldable pub auth_enabled : Option AuthManager → Bool
auth_enabled none = false
auth_enabled (some m) = m.enabled

abbrev pub has_ttl : Verb → Bool
has_ttl Verb.del = false
has_ttl Verb.get = false
has_ttl Verb.keys = false
has_ttl Verb.flush_all = false
has_ttl _ = true

-- parseTTLFromParts; an error is the left value.
pub data TtlParts : Type 0 where
  ttl_parts : ℤ → List Text → TtlParts
  ttl_failed : Text → TtlParts

abbrev pub found_ttl : Option ℤ → Text → Text → Text → List Text → TtlParts
found_ttl (some ttl) text command key rest = ttl_parts ttl (command ∷ key ∷ rest)
found_ttl none text command key rest = ttl_failed (codes "invalid ttl value: " ++ ttl_error text)

unfoldable pub parse_ttl_from_parts : Verb → List Text → TtlParts
parse_ttl_from_parts verb (command ∷ key ∷ flag ∷ ttl ∷ rest) =
    if has_ttl verb && text_eq flag (codes "-t")
    then found_ttl (parse_ttl ttl) ttl command key rest
    else ttl_parts (pos 0) (command ∷ key ∷ flag ∷ ttl ∷ rest)
parse_ttl_from_parts verb parts = ttl_parts (pos 0) parts

module _ {z : Compression} where
  abbrev pub answer : Cache z → Bool → Text → Answer z
  answer c authenticated response = record {
    reply = record { response = response; cache = c };
    authenticated = authenticated;
  }

  abbrev pub verdict_answer : Cache z → Bool → Verdict → Answer z
  verdict_answer c authenticated valid = answer c true (line (codes "OK authenticated"))
  verdict_answer c authenticated invalid =
      answer c authenticated (line (codes "ERROR invalid password"))
  verdict_answer c authenticated (failed e) =
      answer c authenticated (line (codes "ERROR authentication error: " ++ e))

  abbrev pub check_password : Server z → Cache z → Bool → Option AuthManager → Text → Answer z
  check_password s c authenticated none password =
      answer c true (line (codes "OK no authentication required"))
  check_password s c authenticated (some m) password =
      if m.enabled
      then verdict_answer c authenticated (s.verify_password m password)
      else answer c true (line (codes "OK no authentication required"))

  unfoldable pub handle_auth : Server z → Cache z → Bool → List Text → Answer z
  handle_auth s c authenticated (command ∷ password ∷ []) =
      check_password s c authenticated s.auth_manager password
  handle_auth s c authenticated _ =
      answer c authenticated (line (codes "ERROR AUTH requires password"))

  abbrev pub keep_auth : Bool → Option (Reply z) → Option (Answer z)
  keep_auth authenticated none = none
  keep_auth authenticated (some r) = some (record { reply = r; authenticated = authenticated })

  -- The switch on the command, once the TTL has been taken out.
  abbrev pub run_parts : Server z → Cache z → ℤ → Bool → Verb → TtlParts → Option (Answer z)
  run_parts s c now authenticated verb (ttl_failed e) =
      some (answer c authenticated (line (codes "ERROR " ++ e)))
  run_parts s c now authenticated verb (ttl_parts ttl parts) =
      keep_auth authenticated (run s.formats c now ttl verb parts)

  unfoldable pub process_parts :
      Server z → Cache z → ℤ → Bool → Verb → List Text → Option (Answer z)
  process_parts s c now authenticated Verb.auth parts = some (handle_auth s c authenticated parts)
  process_parts s c now authenticated verb parts =
      if auth_enabled s.auth_manager && not authenticated
      then some (answer c authenticated (line (codes "ERROR authentication required")))
      else run_parts s c now authenticated verb (parse_ttl_from_parts verb parts)

  abbrev pub process_split : Server z → Cache z → ℤ → Bool → List Text → Option (Answer z)
  process_split s c now authenticated [] =
      some (answer c authenticated (line (codes "ERROR invalid command format")))
  process_split s c now authenticated (command ∷ parts) =
      process_parts s c now authenticated (verb_of (to_upper command)) (command ∷ parts)

  -- `none` stands for a run-time panic.
  unfoldable pub process_command_direct : Server z → Cache z → ℤ → Bool → Text → Option (Answer z)
  unfolding process_parts
  process_command_direct s c now authenticated command =
      process_split s c now authenticated (parse_command_with_quotes command)
