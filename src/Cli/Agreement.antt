-- ===== src/Cli/Agreement.antt =====
-- cli/cli.go and tcpserver/single_goroutine_server.go: what a command does to the cache in the client
-- and in the server.
use ant_cache.Base.{
  ◌≡◌, refl, sym, ap, ◌∙◌, inl, inr, Bool, true, false, ◌&&◌, Option, none, some, List, [], ◌∷◌, ℤ,
  if◌then◌else◌, Text, codes, text_eq, Bool-cases, Option-cases,
}
use ant_cache.Item.{Compression, Value}
use ant_cache.Cache
use ant_cache.Cache.{Cache}
use ant_cache.Utils.Ttl.{parse_ttl}
use ant_cache.Server.{
  auth_enabled, Server, Answer, TtlParts, ttl_parts, ttl_failed, has_ttl, parse_ttl_from_parts,
  process_parts, run_parts, keep_auth,
}
use ant_cache.Server.Commands.{
  Reply, Formats, Verb, is_even, run, string_command, array_command, object_command, store_set,
  store_set_nx, get_command, del_command, keys_command,
}
use ant_cache.Cli.{
  take_ttl, put_ok, put_nx, put_string, put_array, put_object, print_get, print_del, execute,
  execute_parts, handle_cache_command,
}

abbrev pub cache_of : {z : Compression} → Option (Reply z) → Option (Cache z)
cache_of none = none
cache_of (some r) = some r.cache

abbrev pub answered : {z : Compression} → Option (Answer z) → Option (Cache z)
answered none = none
answered (some a) = some a.reply.cache

-- A command of a connection or of the client other than AUTH.
abbrev pub IsCacheCommand : Verb → Type 0
IsCacheCommand Verb.auth = ⊥
IsCacheCommand _ = Unit {0}

-- The two ways of taking the TTL out agree on everything but the text of an error.
abbrev SameTtl : TtlParts → TtlParts → Type 0
SameTtl (ttl_parts t ps) (ttl_parts u qs) = (t ≡ u) × (ps ≡ qs)
SameTtl (ttl_failed _) (ttl_failed _) = Unit {0}
SameTtl _ _ = ⊥

take_ttl-SameTtl :
    (verb : Verb) (parts : List Text)
    → SameTtl (take_ttl verb parts) (parse_ttl_from_parts verb parts)
unfolding take_ttl parse_ttl_from_parts
take_ttl-SameTtl verb [] = (refl, refl)
take_ttl-SameTtl verb (a ∷ []) = (refl, refl)
take_ttl-SameTtl verb (a ∷ b ∷ []) = (refl, refl)
take_ttl-SameTtl verb (a ∷ b ∷ c ∷ []) = (refl, refl)
take_ttl-SameTtl verb (a ∷ b ∷ flag ∷ ttl ∷ rest) = elim (Bool-cases (has_ttl verb)) [
  | inr without ↦ rw without (refl, refl)
  | inl supported ↦ elim (Bool-cases (text_eq flag (codes "-t"))) [
    | inr plain ↦ rw (supported, plain) (refl, refl)
    | inl flagged ↦ elim (Option-cases (parse_ttl ttl)) [
      | inl bad ↦ rw (supported, flagged, bad) tt
      | inr (t, good) ↦ rw (supported, flagged, good) (refl, refl)
    ]
  ]
]

unguarded {ℓ} : {A : Type ℓ} → (b : Bool) (x y : A) → (if b && false then x else y) ≡ y
unguarded true x y = refl
unguarded false x y = refl

module _ {z : Compression} where
  -- Two ways of storing that leave the same cache.
  abbrev SameStore : (Text → Value z.Packed → Reply z) → (Text → Value z.Packed → Reply z) → Type 0
  SameStore put store =
      (key : Text) (value : Value z.Packed) → (put key value).cache ≡ (store key value).cache

  put_ok-SameStore :
      (c : Cache z) (now ttl : ℤ) → SameStore (put_ok c now ttl) (store_set c now ttl)
  unfolding put_ok store_set
  put_ok-SameStore c now ttl key value = refl

  put_nx-SameStore :
      (c : Cache z) (now ttl : ℤ) → SameStore (put_nx c now ttl) (store_set_nx c now ttl)
  unfolding put_nx store_set_nx
  put_nx-SameStore c now ttl key value = refl

  module _ (name : Text) (put store : Text → Value z.Packed → Reply z) (c : Cache z)
      (same : SameStore put store) where
    put_string-cache :
        (parts : List Text)
        → (put_string name put c parts).cache ≡ (string_command name store c parts).cache
    unfolding put_string string_command
    put_string-cache [] = refl
    put_string-cache (command ∷ []) = refl
    put_string-cache (command ∷ key ∷ []) = refl
    put_string-cache (command ∷ key ∷ v ∷ vs) = same key _

    put_array-cache :
        (parts : List Text)
        → (put_array name put c parts).cache ≡ (array_command name store c parts).cache
    unfolding put_array array_command
    put_array-cache [] = refl
    put_array-cache (command ∷ []) = refl
    put_array-cache (command ∷ key ∷ []) = refl
    put_array-cache (command ∷ key ∷ v ∷ vs) = same key _

    put_object-cache :
        (parts : List Text)
        → (put_object name put c parts).cache ≡ (object_command name store c parts).cache
    unfolding put_object object_command
    put_object-cache [] = refl
    put_object-cache (command ∷ []) = refl
    put_object-cache (command ∷ key ∷ []) = refl
    put_object-cache (command ∷ key ∷ k ∷ []) = refl
    put_object-cache (command ∷ key ∷ k ∷ v ∷ rest) = elim (Bool-cases (is_even (k ∷ v ∷ rest))) [
      | inl even ↦ rw even (same key _)
      | inr odd ↦ rw odd refl
    ]

  print_del-cache :
      (c : Cache z) (now : ℤ) (parts : List Text)
      → cache_of (print_del c now parts) ≡ cache_of (del_command c now parts)
  unfolding print_del del_command
  print_del-cache c now [] = refl
  print_del-cache c now (command ∷ []) = refl
  print_del-cache c now (command ∷ key ∷ rest) = elim (Option-cases (Cache.delete c now key)) [
    | inl panic ↦ rw panic refl
    | inr (r, done) ↦ rw done refl
  ]

  print_get-cache :
      (f : Formats z) (c : Cache z) (now : ℤ) (parts : List Text)
      → (print_get f c now parts).cache ≡ (get_command f c now parts).cache
  unfolding print_get get_command
  print_get-cache f c now [] = refl
  print_get-cache f c now (command ∷ []) = refl
  print_get-cache f c now (command ∷ key ∷ rest) = refl

  execute-cache :
      (f : Formats z) (c : Cache z) (now ttl : ℤ) (verb : Verb) (parts : List Text)
      → cache_of (execute f c now ttl verb parts) ≡ cache_of (run f c now ttl verb parts)
  unfolding execute run
  execute-cache f c now ttl Verb.set parts = ap some (
      put_string-cache (codes "SET") (put_ok c now ttl) (store_set c now ttl) c
        (put_ok-SameStore c now ttl) parts)
  execute-cache f c now ttl Verb.sets parts = ap some (
      put_array-cache (codes "SETS") (put_ok c now ttl) (store_set c now ttl) c
        (put_ok-SameStore c now ttl) parts)
  execute-cache f c now ttl Verb.setx parts = ap some (
      put_object-cache (codes "SETX") (put_ok c now ttl) (store_set c now ttl) c
        (put_ok-SameStore c now ttl) parts)
  execute-cache f c now ttl Verb.setnx parts = ap some (
      put_string-cache (codes "SETNX") (put_nx c now ttl) (store_set_nx c now ttl) c
        (put_nx-SameStore c now ttl) parts)
  execute-cache f c now ttl Verb.setsnx parts = ap some (
      put_array-cache (codes "SETSNX") (put_nx c now ttl) (store_set_nx c now ttl) c
        (put_nx-SameStore c now ttl) parts)
  execute-cache f c now ttl Verb.setxnx parts = ap some (
      put_object-cache (codes "SETXNX") (put_nx c now ttl) (store_set_nx c now ttl) c
        (put_nx-SameStore c now ttl) parts)
  execute-cache f c now ttl Verb.get parts = ap some (print_get-cache f c now parts)
  execute-cache f c now ttl Verb.del parts = print_del-cache c now parts
  execute-cache f c now ttl Verb.keys parts = unfold keys_command in refl
  execute-cache f c now ttl Verb.flush_all parts = refl
  execute-cache f c now ttl Verb.auth parts = refl
  execute-cache f c now ttl Verb.unknown parts = refl

  keep_auth-cache : (r : Option (Reply z)) → answered (keep_auth true r) ≡ cache_of r
  keep_auth-cache none = refl
  keep_auth-cache (some r) = refl

  execute_parts-cache :
      (s : Server z) (c : Cache z) (now : ℤ) (verb : Verb) (x y : TtlParts)
      → SameTtl x y
      → cache_of (execute_parts s.formats c now verb x) ≡ answered (run_parts s c now true verb y)
  execute_parts-cache s c now verb (ttl_parts t ps) (ttl_parts u qs) (same, parts) =
      execute-cache s.formats c now t verb ps
      ∙ ap (λ t. cache_of (run s.formats c now t verb ps)) same
      ∙ ap (λ ps. cache_of (run s.formats c now u verb ps)) parts
      ∙ sym (keep_auth-cache (run s.formats c now u verb qs))
  execute_parts-cache s c now verb (ttl_failed d) (ttl_failed e) h = refl
  execute_parts-cache s c now verb (ttl_parts t ps) (ttl_failed e) h = elim h [ ]
  execute_parts-cache s c now verb (ttl_failed d) (ttl_parts u qs) h = elim h [ ]

  process_parts-run :
      (s : Server z) (c : Cache z) (now : ℤ) (verb : Verb) (parts : List Text)
      → IsCacheCommand verb
      → process_parts s c now true verb parts
        ≡ run_parts s c now true verb (parse_ttl_from_parts verb parts)
  unfolding process_parts
  process_parts-run s c now Verb.set parts h = unguarded (auth_enabled s.auth_manager) _ _
  process_parts-run s c now Verb.sets parts h = unguarded (auth_enabled s.auth_manager) _ _
  process_parts-run s c now Verb.setx parts h = unguarded (auth_enabled s.auth_manager) _ _
  process_parts-run s c now Verb.setnx parts h = unguarded (auth_enabled s.auth_manager) _ _
  process_parts-run s c now Verb.setsnx parts h = unguarded (auth_enabled s.auth_manager) _ _
  process_parts-run s c now Verb.setxnx parts h = unguarded (auth_enabled s.auth_manager) _ _
  process_parts-run s c now Verb.get parts h = unguarded (auth_enabled s.auth_manager) _ _
  process_parts-run s c now Verb.del parts h = unguarded (auth_enabled s.auth_manager) _ _
  process_parts-run s c now Verb.keys parts h = unguarded (auth_enabled s.auth_manager) _ _
  process_parts-run s c now Verb.flush_all parts h = unguarded (auth_enabled s.auth_manager) _ _
  process_parts-run s c now Verb.unknown parts h = unguarded (auth_enabled s.auth_manager) _ _
  process_parts-run s c now Verb.auth parts h = elim h [ ]

  -- A command other than AUTH leaves the same cache, or panics alike, in the interactive client and on
  -- an authenticated connection of the server.
  pub handle_cache_command-process_parts :
      (s : Server z) (c : Cache z) (now : ℤ) (verb : Verb) (parts : List Text)
      → IsCacheCommand verb
      → cache_of (handle_cache_command s.formats c now verb parts)
        ≡ answered (process_parts s c now true verb parts)
  unfolding handle_cache_command
  handle_cache_command-process_parts s c now verb parts h =
      execute_parts-cache s c now verb _ _ (take_ttl-SameTtl verb parts)
      ∙ ap answered (sym (process_parts-run s c now verb parts h))
