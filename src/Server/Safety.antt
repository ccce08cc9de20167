-- ===== src/Server/Safety.antt =====
-- tcpserver/single_goroutine_server.go: processCommandDirect and the well-formedness of the cache.
use ant_cache.Base.{
  ℤ, ◌≡◌, refl, ap, inl, inr, Bool-cases, arith, Bool, ◌&&◌, not, List, [], ◌∷◌, Option, some, Text,
  codes, if◌then◌else◌, join,
}
use ant_cache.Item.{Compression, Value, array, object, str}
use ant_cache.Cache.{Cache}
use ant_cache.Cache.Valid.{IsValid, set-IsValid, set_nx-IsValid, flush_all-IsValid}
use ant_cache.Cache.Reads.{get-delete}
use ant_cache.Server.{
  Server, Answer, TtlParts, ttl_parts, ttl_failed, auth_enabled, handle_auth, run_parts,
  process_parts, process_split, process_command_direct, parse_ttl_from_parts,
}
use ant_cache.Server.Commands.{
  Reply, Formats, Verb, verb_of, to_upper, run, store_set, store_set_nx, string_command,
  array_command, object_command, del_command, deleted_reply, is_even, pairs_into,
}
use ant_cache.Utils.Quotes.{parse_command_with_quotes}

module _ {z : Compression} where
  abbrev Stores : (Text → Value z.Packed → Reply z) → Type 0
  Stores store = (key : Text) (v : Value z.Packed) → IsValid (store key v).cache

  store_set-IsValid : (c : Cache z) (now ttl : ℤ) → IsValid c → Stores (store_set c now ttl)
  unfolding store_set
  store_set-IsValid c now ttl v key value = set-IsValid c now key value ttl v

  store_set_nx-IsValid : (c : Cache z) (now ttl : ℤ) → IsValid c → Stores (store_set_nx c now ttl)
  unfolding store_set_nx
  store_set_nx-IsValid c now ttl v key value = set_nx-IsValid c now key value ttl v

  module _ (name : Text) (store : Text → Value z.Packed → Reply z) (c : Cache z) (v : IsValid c)
      (ok : Stores store) where
    string_command-IsValid : (parts : List Text) → IsValid (string_command name store c parts).cache
    unfolding string_command
    string_command-IsValid (command ∷ key ∷ a ∷ vs) = ok key (str (join (a ∷ vs)))
    string_command-IsValid _ = v

    array_command-IsValid : (parts : List Text) → IsValid (array_command name store c parts).cache
    unfolding array_command
    array_command-IsValid (command ∷ key ∷ a ∷ vs) = ok key (array (a ∷ vs))
    array_command-IsValid _ = v

    object_command-IsValid : (parts : List Text) → IsValid (object_command name store c parts).cache
    unfolding object_command
    object_command-IsValid (command ∷ key ∷ k ∷ a ∷ rest) =
        elim (Bool-cases (is_even (k ∷ a ∷ rest))) [
          | inl even ↦ rw even (ok key (object (pairs_into [] (k ∷ a ∷ rest))))
          | inr odd ↦ rw odd v
        ]
    object_command-IsValid _ = v

  -- The command returns, with a well-formed cache.
  abbrev Succeeds : Option (Reply z) → Type 0
  Succeeds o = (r : Reply z) × (o ≡ some r) × IsValid r.cache

  del_command-Succeeds :
      (c : Cache z) (now : ℤ) (parts : List Text) → IsValid c → Succeeds (del_command c now parts)
  unfolding del_command
  del_command-Succeeds c now (command ∷ key ∷ rest) v =
      let (c', e, valid', _) = get-delete c now key v in (_, ap deleted_reply e, valid')
  del_command-Succeeds c now _ v = (_, refl, v)

  run-Succeeds :
      (f : Formats z) (c : Cache z) (now ttl : ℤ) (verb : Verb) (parts : List Text)
      → IsValid c
      → Succeeds (run f c now ttl verb parts)
  unfolding run
  run-Succeeds f c now ttl Verb.set parts v = (
    _,
    refl,
    string_command-IsValid (codes "SET") (store_set c now ttl) c v (store_set-IsValid c now ttl v)
        parts,
  )
  run-Succeeds f c now ttl Verb.sets parts v = (
    _,
    refl,
    array_command-IsValid (codes "SETS") (store_set c now ttl) c v (store_set-IsValid c now ttl v)
        parts,
  )
  run-Succeeds f c now ttl Verb.setx parts v = (
    _,
    refl,
    object_command-IsValid (codes "SETX") (store_set c now ttl) c v (store_set-IsValid c now ttl v)
        parts,
  )
  run-Succeeds f c now ttl Verb.setnx parts v = (
    _,
    refl,
    string_command-IsValid (codes "SETNX") (store_set_nx c now ttl) c v
        (store_set_nx-IsValid c now ttl v) parts,
  )
  run-Succeeds f c now ttl Verb.setsnx parts v = (
    _,
    refl,
    array_command-IsValid (codes "SETSNX") (store_set_nx c now ttl) c v
        (store_set_nx-IsValid c now ttl v) parts,
  )
  run-Succeeds f c now ttl Verb.setxnx parts v = (
    _,
    refl,
    object_command-IsValid (codes "SETXNX") (store_set_nx c now ttl) c v
        (store_set_nx-IsValid c now ttl v) parts,
  )
  run-Succeeds f c now ttl Verb.get (command ∷ key ∷ rest) v = (_, refl, v)
  run-Succeeds f c now ttl Verb.get (command ∷ []) v = (_, refl, v)
  run-Succeeds f c now ttl Verb.get [] v = (_, refl, v)
  run-Succeeds f c now ttl Verb.del parts v = del_command-Succeeds c now parts v
  run-Succeeds f c now ttl Verb.flush_all parts v = (_, refl, flush_all-IsValid c)
  run-Succeeds f c now ttl _ parts v = (_, refl, v)

  abbrev pub Answers : Option (Answer z) → Type 0
  Answers o = (a : Answer z) × (o ≡ some a) × IsValid a.reply.cache

  run_parts-Answers :
      (s : Server z) (c : Cache z) (now : ℤ) (authenticated : Bool) (verb : Verb) (parts : TtlParts)
      → IsValid c
      → Answers (run_parts s c now authenticated verb parts)
  run_parts-Answers s c now authenticated verb (ttl_failed e) v = (_, refl, v)
  run_parts-Answers s c now authenticated verb (ttl_parts ttl parts) v =
      let (r, e, valid') = run-Succeeds s.formats c now ttl verb parts v in
      (record { reply = r; authenticated = authenticated }, rw e refl, valid')

  -- AUTH never changes the cache.
  pub handle_auth-cache :
      (s : Server z) (c : Cache z) (authenticated : Bool) (parts : List Text)
      → (handle_auth s c authenticated parts).reply.cache ≡ c
  unfolding handle_auth
  handle_auth-cache s c authenticated (command ∷ password ∷ []) = ground arith
  handle_auth-cache s c authenticated _ = refl

  guarded :
      (s : Server z) (c : Cache z) (authenticated : Bool) (response : Text)
      (rest : Option (Answer z))
      → IsValid c
      → Answers rest
      → Answers (
          if auth_enabled s.auth_manager && not authenticated
          then some (record {
            reply = record { response = response; cache = c };
            authenticated = authenticated;
          })
          else rest)
  guarded s c authenticated response rest v h =
      elim (Bool-cases (auth_enabled s.auth_manager && not authenticated)) [
        | inl shut ↦ rw shut (_, refl, v)
        | inr free ↦ rw free h
      ]

  process_parts-Answers :
      (s : Server z) (c : Cache z) (now : ℤ) (authenticated : Bool) (verb : Verb)
      (parts : List Text)
      → IsValid c
      → Answers (process_parts s c now authenticated verb parts)
  unfolding process_parts
  process_parts-Answers s c now authenticated Verb.auth parts v = (_, refl, rw handle_auth-cache v)
  process_parts-Answers s c now authenticated verb parts v =
      guarded s c authenticated _ _ v
        (run_parts-Answers s c now authenticated verb (parse_ttl_from_parts verb parts) v)

  -- On a well-formed cache every command line is answered: no command panics, and the cache stays well
  -- formed.
  pub process_total :
      (s : Server z) (c : Cache z) (now : ℤ) (authenticated : Bool) (command : Text)
      → IsValid c
      → Answers (process_command_direct s c now authenticated command)
  unfolding process_command_direct
  process_total s c now authenticated command v = split (parse_command_with_quotes command)
    where
      split : (parts : List Text) → Answers (process_split s c now authenticated parts)
      split [] = (_, refl, v)
      split (p ∷ parts) =
          process_parts-Answers s c now authenticated (verb_of (to_upper p)) (p ∷ parts) v
