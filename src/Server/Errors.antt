-- ===== src/Server/Errors.antt =====
-- tcpserver/single_goroutine_server.go: the error responses of processCommandDirect.
use ant_cache.Base.{
  ℤ, ◌≡◌, refl, ap, ◌∙◌, sym, inl, inr, ◌⊎◌, Bool-cases, Option-cases, Bool, true, false, ◌&&◌, not,
  List, [], ◌∷◌, Option, none, some, Text, codes, is_some, join,
}
use mathlib.Core.Path.{subst}
use mathlib.Core.Option.{some-injective, none-ne-some}
use ant_cache.Item.{Compression, Value, array, object, str}
use ant_cache.Cache
use ant_cache.Cache.{Cache}
use ant_cache.Server.{
  Server, Answer, TtlParts, ttl_parts, ttl_failed, auth_enabled, keep_auth, run_parts,
  process_parts, process_split, process_command_direct, parse_ttl_from_parts,
}
use ant_cache.Server.Safety.{handle_auth-cache}
use ant_cache.Server.Commands.{
  Reply, Formats, Verb, verb_of, to_upper, run, store_set, store_set_nx, string_command,
  array_command, object_command, deleted_reply, is_even, pairs_into,
}
use ant_cache.Utils.Quotes.{parse_command_with_quotes, after_prefix}

-- Whether a response begins with "ERROR".
unfoldable pub is_error : Text → Bool
unfolding after_prefix
is_error response = is_some (after_prefix (codes "ERROR") response)

module _ {z : Compression} where
  -- The reply leaves the cache alone, or reports no error.
  abbrev Honest : Cache z → Reply z → Type 0
  Honest c r = (r.cache ≡ c) ⊎ (is_error r.response ≡ false)

  store_set_nx-reports :
      (c : Cache z) (now ttl : ℤ) (key : Text) (v : Value z.Packed)
      → is_error (store_set_nx c now ttl key v).response ≡ false
  unfolding store_set_nx is_error
  store_set_nx-reports c now ttl key v = elim (Bool-cases (Cache.set_nx c now key v ttl).0) [
    | inl stored ↦ rw stored refl
    | inr taken ↦ rw taken refl
  ]

  store_set-reports :
      (c : Cache z) (now ttl : ℤ) (key : Text) (v : Value z.Packed)
      → is_error (store_set c now ttl key v).response ≡ false
  unfolding store_set is_error
  store_set-reports c now ttl key v = refl

  module _ (name : Text) (store : Text → Value z.Packed → Reply z) (c : Cache z)
      (reports : (key : Text) (v : Value z.Packed) → is_error (store key v).response ≡ false) where
    string_command-Honest : (parts : List Text) → Honest c (string_command name store c parts)
    unfolding string_command
    string_command-Honest (command ∷ key ∷ a ∷ vs) = inr (reports key (str (join (a ∷ vs))))
    string_command-Honest _ = inl refl

    array_command-Honest : (parts : List Text) → Honest c (array_command name store c parts)
    unfolding array_command
    array_command-Honest (command ∷ key ∷ a ∷ vs) = inr (reports key (array (a ∷ vs)))
    array_command-Honest _ = inl refl

    object_command-Honest : (parts : List Text) → Honest c (object_command name store c parts)
    unfolding object_command
    object_command-Honest (command ∷ key ∷ k ∷ a ∷ rest) =
        elim (Bool-cases (is_even (k ∷ a ∷ rest))) [
          | inl even ↦ rw even (inr (reports key (object (pairs_into [] (k ∷ a ∷ rest)))))
          | inr odd ↦ rw odd (inl refl)
        ]
    object_command-Honest _ = inl refl

  abbrev HonestWhere : Cache z → Option (Reply z) → Type 0
  HonestWhere c o = (r : Reply z) → o ≡ some r → Honest c r

  honest : {c : Cache z} {r : Reply z} → Honest c r → HonestWhere c (some r)
  honest {c} {r = a} h r e = subst (Honest c) (some-injective a r e) h

  deleted-Honest : (c : Cache z) (o : Option (Bool × Cache z)) → HonestWhere c (deleted_reply o)
  unfolding is_error
  deleted-Honest c none = λ r e. cc
  deleted-Honest c (some (true, c')) = honest (inr refl)
  deleted-Honest c (some (false, c')) = honest (inr refl)

  run-Honest :
      (f : Formats z) (c : Cache z) (now ttl : ℤ) (verb : Verb) (parts : List Text)
      → HonestWhere c (run f c now ttl verb parts)
  unfolding run is_error
  run-Honest f c now ttl Verb.set parts = honest (
      string_command-Honest (codes "SET") (store_set c now ttl) c (store_set-reports c now ttl)
        parts)
  run-Honest f c now ttl Verb.sets parts = honest (
      array_command-Honest (codes "SETS") (store_set c now ttl) c (store_set-reports c now ttl)
        parts)
  run-Honest f c now ttl Verb.setx parts = honest (
      object_command-Honest (codes "SETX") (store_set c now ttl) c (store_set-reports c now ttl)
        parts)
  run-Honest f c now ttl Verb.setnx parts = honest (
      string_command-Honest (codes "SETNX") (store_set_nx c now ttl) c
        (store_set_nx-reports c now ttl) parts)
  run-Honest f c now ttl Verb.setsnx parts = honest (
      array_command-Honest (codes "SETSNX") (store_set_nx c now ttl) c
        (store_set_nx-reports c now ttl) parts)
  run-Honest f c now ttl Verb.setxnx parts = honest (
      object_command-Honest (codes "SETXNX") (store_set_nx c now ttl) c
        (store_set_nx-reports c now ttl) parts)
  run-Honest f c now ttl Verb.get (command ∷ key ∷ rest) = honest (inl refl)
  run-Honest f c now ttl Verb.get (command ∷ []) = honest (inl refl)
  run-Honest f c now ttl Verb.get [] = honest (inl refl)
  run-Honest f c now ttl Verb.del (command ∷ key ∷ rest) = deleted-Honest c (Cache.delete c now key)
  run-Honest f c now ttl Verb.del (command ∷ []) = honest (inl refl)
  run-Honest f c now ttl Verb.del [] = honest (inl refl)
  run-Honest f c now ttl Verb.flush_all parts = honest (inr refl)
  run-Honest f c now ttl _ parts = honest (inl refl)

  abbrev Harmless : Cache z → Option (Answer z) → Type 0
  Harmless c o = (a : Answer z) → o ≡ some a → is_error a.reply.response ≡ true → a.reply.cache ≡ c

  harmless : {c : Cache z} {a : Answer z} → Honest c a.reply → Harmless c (some a)
  harmless {c} {a = b} (inl same) a e error =
      ap (λ (x : Answer z). x.reply.cache) (sym (some-injective b a e)) ∙ same
  harmless {c} {a = b} (inr fine) a e error = cc (some-injective b a e)

  run_parts-Harmless :
      (s : Server z) (c : Cache z) (now : ℤ) (authenticated : Bool) (verb : Verb) (parts : TtlParts)
      → Harmless c (run_parts s c now authenticated verb parts)
  run_parts-Harmless s c now authenticated verb (ttl_failed e) = harmless (inl refl)
  run_parts-Harmless s c now authenticated verb (ttl_parts ttl parts) =
      elim (Option-cases (run s.formats c now ttl verb parts)) [
        | inl panics ↦
            λ a e. absurd (none-ne-some a (sym (ap (keep_auth authenticated) panics) ∙ e))
        | inr (r, ran) ↦ rw ran (harmless (run-Honest s.formats c now ttl verb parts r ran))
      ]

  process_parts-Harmless :
      (s : Server z) (c : Cache z) (now : ℤ) (authenticated : Bool) (verb : Verb)
      (parts : List Text)
      → Harmless c (process_parts s c now authenticated verb parts)
  unfolding process_parts
  process_parts-Harmless s c now authenticated Verb.auth parts =
      harmless (inl (handle_auth-cache s c authenticated parts))
  process_parts-Harmless s c now authenticated verb parts =
      elim (Bool-cases (auth_enabled s.auth_manager && not authenticated)) [
        | inl shut ↦ rw shut (harmless (inl refl))
        | inr free ↦
            rw free
              (run_parts-Harmless s c now authenticated verb (parse_ttl_from_parts verb parts))
      ]

  -- A command whose response begins with "ERROR" leaves the cache as it was.
  pub error_changes_nothing :
      (s : Server z) (c : Cache z) (now : ℤ) (authenticated : Bool) (command : Text) (a : Answer z)
      → process_command_direct s c now authenticated command ≡ some a
      → is_error a.reply.response ≡ true
      → a.reply.cache ≡ c
  unfolding process_command_direct
  error_changes_nothing s c now authenticated command = split (parse_command_with_quotes command)
    where
      split : (parts : List Text) → Harmless c (process_split s c now authenticated parts)
      split [] = harmless (inl refl)
      split (p ∷ parts) =
          process_parts-Harmless s c now authenticated (verb_of (to_upper p)) (p ∷ parts)
