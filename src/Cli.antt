-- ===== src/Cli.antt =====
-- cli/cli.go: the interactive client, which works on the cache itself. `output` is what
-- handleCacheCommand and handleAuthCommand print, each text without the prompt; what the methods of
-- AuthManager print by themselves is left out. `none` stands for a run-time panic.
pub mod Passwords
pub mod Agreement
pub mod Changes
use ant_cache.Base.{
  ℕ, zero, suc, ◌+◌, ◌-◌, ◌*◌, ◌≤◌, ◌<◌, ◌≡◌, refl, sym, ap, ◌∙◌, ◌≢◌, ◌⊎◌, inl, inr, Bool, true,
  false, not, ◌&&◌, ◌||◌, Option, none, some, List, [], ◌∷◌, ◌++◌, arith, ℤ, pos, negsuc,
  if◌then◌else◌, Text, codes, text_eq, Table, lookup, insert, erase, length, ltb_ℤ, ◌==◌, is_some,
  Bool-cases, Option-cases, All, lookup-insert, lookup-erase, text_eq_iff, text_eq_refl, leb, ltb,
  join, ◌<ℤ◌,
}
use ant_cache.Item.{Compression, Value, str, array, object, other, nil}
use ant_cache.Cache
use ant_cache.Cache.{Cache}
use ant_cache.Utils.Ttl.{parse_ttl, ttl_error}
use ant_cache.Utils.Quotes.{parse_command_with_quotes, trim_space}
use ant_cache.Server.{TtlParts, ttl_parts, ttl_failed, has_ttl}
use ant_cache.Server.Commands.{
  Reply, reply, Formats, line, Verb, verb_of, to_upper, is_even, pairs_into, pattern_of,
}
use ant_cache.Cli.Passwords.{Account, AuthInput, handle_auth_command, cli_error}
use ant_cache.Auth.{AuthManager, Crypto, Result, ok, error}

abbrev pub taken_ttl : Option ℤ → Text → Text → Text → List Text → TtlParts
taken_ttl (some ttl) text command key rest = ttl_parts ttl (command ∷ key ∷ rest)
taken_ttl none text command key rest = ttl_failed (ttl_error text)

-- The TTL behind the key, for the commands that support it.
unfoldable pub take_ttl : Verb → List Text → TtlParts
take_ttl verb (command ∷ key ∷ flag ∷ ttl ∷ rest) =
    if not (has_ttl verb)
    then ttl_parts (pos 0) (command ∷ key ∷ flag ∷ ttl ∷ rest)
    else if text_eq flag (codes "-t")
    then taken_ttl (parse_ttl ttl) ttl command key rest
    else ttl_parts (pos 0) (command ∷ key ∷ flag ∷ ttl ∷ rest)
take_ttl verb parts = ttl_parts (pos 0) parts

abbrev pub print_keys : List Text → Text
print_keys [] = line (codes "No keys found")
print_keys (k ∷ ks) = line (join (k ∷ ks))

module _ {z : Compression} where
  unfoldable pub put_ok : Cache z → ℤ → ℤ → Text → Value z.Packed → Reply z
  put_ok c now ttl key value = reply (Cache.set c now key value ttl) (line (codes "OK"))

  unfoldable pub put_nx : Cache z → ℤ → ℤ → Text → Value z.Packed → Reply z
  put_nx c now ttl key value =
      let (stored, c') = Cache.set_nx c now key value ttl in
      reply c' (line (if stored then codes "OK" else codes "NOT_SET"))

  -- SET and SETNX, SETS and SETSNX, SETX and SETXNX: the name stands in the error texts.
  unfoldable pub put_string :
      Text → (Text → Value z.Packed → Reply z) → Cache z → List Text → Reply z
  put_string name put c (command ∷ key ∷ v ∷ vs) = put key (str (join (v ∷ vs)))
  put_string name put c parts = reply c (cli_error (name ++ codes " requires key and value"))

  unfoldable pub put_array :
      Text → (Text → Value z.Packed → Reply z) → Cache z → List Text → Reply z
  put_array name put c (command ∷ key ∷ v ∷ vs) = put key (array (v ∷ vs))
  put_array name put c parts =
      reply c (cli_error (name ++ codes " requires key and at least one array element"))

  unfoldable pub put_object :
      Text → (Text → Value z.Packed → Reply z) → Cache z → List Text → Reply z
  put_object name put c (command ∷ key ∷ k ∷ v ∷ rest) =
      if is_even (k ∷ v ∷ rest)
      then put key (object (pairs_into [] (k ∷ v ∷ rest)))
      else reply c
          (cli_error (name ++ codes " requires even number of arguments for key-value pairs"))
  put_object name put c parts =
      reply c (cli_error (name ++ codes " requires key and at least one key-value pair"))

  unfoldable pub print_value : Formats z → Option (Value z.Packed) → Text
  print_value f none = line (codes "NOT_FOUND")
  print_value f (some (str s)) = line s
  print_value f (some (array vs)) = line (codes "[" ++ join vs ++ codes "]")
  print_value f (some (object m)) = line (f.marshal m)
  print_value f (some (other p)) = line (f.show p)
  print_value f (some nil) = line (codes "<nil>")

  unfoldable pub print_get : Formats z → Cache z → ℤ → List Text → Reply z
  print_get f c now (command ∷ key ∷ rest) = reply c (print_value f (Cache.get c now key))
  print_get f c now parts = reply c (cli_error (codes "GET requires key"))

  abbrev pub printed_delete : Option (Bool × Cache z) → Option (Reply z)
  printed_delete none = none
  printed_delete (some (deleted, c)) =
      some (reply c (line (if deleted then codes "OK" else codes "NOT_FOUND")))

  unfoldable pub print_del : Cache z → ℤ → List Text → Option (Reply z)
  print_del c now (command ∷ key ∷ rest) = printed_delete (Cache.delete c now key)
  print_del c now parts = some (reply c (cli_error (codes "DEL requires key")))

  unfoldable pub execute : Formats z → Cache z → ℤ → ℤ → Verb → List Text → Option (Reply z)
  unfolding put_string put_array put_object put_ok put_nx print_get print_del
  execute f c now ttl Verb.set parts = some (put_string (codes "SET") (put_ok c now ttl) c parts)
  execute f c now ttl Verb.sets parts = some (put_array (codes "SETS") (put_ok c now ttl) c parts)
  execute f c now ttl Verb.setx parts = some (put_object (codes "SETX") (put_ok c now ttl) c parts)
  execute f c now ttl Verb.setnx parts =
      some (put_string (codes "SETNX") (put_nx c now ttl) c parts)
  execute f c now ttl Verb.setsnx parts =
      some (put_array (codes "SETSNX") (put_nx c now ttl) c parts)
  execute f c now ttl Verb.setxnx parts =
      some (put_object (codes "SETXNX") (put_nx c now ttl) c parts)
  execute f c now ttl Verb.get parts = some (print_get f c now parts)
  execute f c now ttl Verb.del parts = print_del c now parts
  execute f c now ttl Verb.keys parts =
      some (reply c (print_keys (Cache.keys c now (pattern_of parts))))
  execute f c now ttl Verb.flush_all parts = some (reply (Cache.flush_all c).1 (line (codes "OK")))
  execute f c now ttl _ parts = some (reply c (cli_error (codes "Unknown command")))

  abbrev pub execute_parts : Formats z → Cache z → ℤ → Verb → TtlParts → Option (Reply z)
  execute_parts f c now verb (ttl_parts ttl parts) = execute f c now ttl verb parts
  execute_parts f c now verb (ttl_failed e) =
      some (reply c (cli_error (codes "Invalid TTL value: " ++ e)))

  unfoldable pub handle_cache_command :
      Formats z → Cache z → ℤ → Verb → List Text → Option (Reply z)
  unfolding take_ttl execute
  handle_cache_command f c now verb parts = execute_parts f c now verb (take_ttl verb parts)

-- A line that ReadString gives, when, and what is typed and answered while it is handled.
pub record Entered : Type 0 where
  pub text : Text
  pub now : ℤ
  pub auth : AuthInput

pub record Client (z : Compression) : Type 0 where
  pub cache : Cache z
  pub password_file : Option Text
  pub output : List Text

-- What the client works with.
pub record Setting (z : Compression) : Type 0 where
  pub formats : Formats z
  pub crypto : Crypto
  pub auth_manager : Option AuthManager

-- `false` stands for os.Exit(1); `typed` is what ReadString gives for the password.
abbrev pub password_ok : Text → Result → Bool
password_ok config_password (error e) = false
password_ok config_password (ok typed) = text_eq (trim_space typed) config_password

module _ {z : Compression} where
  abbrev pub after_cache : Client z → Option (Reply z) → Option (Client z)
  after_cache st none = none
  after_cache st (some r) = some (record st { cache = r.cache; output = r.response ∷ st.output })

  abbrev pub after_auth : Client z → Account → Option (Client z)
  after_auth st account =
      some (record st { password_file = account.file; output = account.printed ∷ st.output })

  -- The switch of the loop.
  unfoldable pub handle_parts :
      Setting z → Entered → Client z → Verb → List Text → Option (Client z)
  handle_parts s e st Verb.auth parts =
      after_auth st (handle_auth_command s.crypto e.auth s.auth_manager parts st.password_file)
  handle_parts s e st Verb.unknown parts =
      some (record st { output = cli_error (codes "Unknown command") ∷ st.output })
  handle_parts s e st verb parts =
      after_cache st (handle_cache_command s.formats st.cache e.now verb parts)

  abbrev pub handle_split : Setting z → Entered → Client z → List Text → Option (Client z)
  handle_split s e st [] = some st
  handle_split s e st (command ∷ parts) =
      handle_parts s e st (verb_of (to_upper command)) (command ∷ parts)

  -- The lines that ReadString gives before its first error, which ends the loop as `exit` does.
  unfoldable pub client_loop : Setting z → List Entered → Client z → Option (Client z)
  unfolding handle_parts
  client_loop s [] st = some st
  client_loop s (e ∷ rest) st =
      let input = trim_space e.text in
      let continue : Option (Client z) =
        elim (handle_split s e st (parse_command_with_quotes input)) [
          | some st1 ↦ client_loop s rest st1
          | none ↦ none
        ] in
      if text_eq input (codes "exit") || text_eq input (codes "quit") then some st else continue

  abbrev pub ended : Option (Client z) → Option (Bool × Client z)
  ended none = none
  ended (some st) = some (true, st)

  unfoldable pub start_interactive_cli :
      Setting z → Text → Result → List Entered → Client z → Option (Bool × Client z)
  unfolding client_loop
  start_interactive_cli s config_password typed entered st =
      if text_eq config_password [] || password_ok config_password typed
      then ended (client_loop s entered st)
      else some (false, st)
