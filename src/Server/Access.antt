-- ===== src/Server/Access.antt =====
-- tcpserver/single_goroutine_server.go: processCommandDirect and authentication.
use ant_cache.Base.{
  ℤ, ◌≡◌, ◌≢◌, refl, ap, ◌∙◌, arith, true, false, List, [], ◌∷◌, Option, none, some, Text, codes,
}
use mathlib.Core.Bool.{false≢true}
use ant_cache.Item.{Compression}
use ant_cache.Cache.{Cache}
use ant_cache.Auth.{AuthManager, Verdict, valid, invalid, failed}
use ant_cache.Server.{
  Server, Answer, answer, auth_enabled, check_password, handle_auth, process_parts, process_split,
  process_command_direct, line,
}
use ant_cache.Server.Commands.{Verb, verb_of, to_upper}
use ant_cache.Utils.Quotes.{parse_command_with_quotes}

module _ {z : Compression} (s : Server z) (c : Cache z) (now : ℤ)
    (on : auth_enabled s.auth_manager ≡ true) where
  pub gate :
      (verb : Verb) (parts : List Text)
      → verb ≢ Verb.auth
      → process_parts s c now false verb parts
        ≡ some (answer c false (line (codes "ERROR authentication required")))
  unfolding process_parts
  gate Verb.auth parts h = absurd (h refl)
  gate verb parts h = rw on refl

  -- Where authentication is enabled, any command but AUTH of a connection that is not authenticated is
  -- refused, and changes nothing.
  pub unauthenticated_refused :
      (command first : Text) (rest : List Text)
      → parse_command_with_quotes command ≡ first ∷ rest
      → verb_of (to_upper first) ≢ Verb.auth
      → process_command_direct s c now false command
        ≡ some (answer c false (line (codes "ERROR authentication required")))
  unfolding process_command_direct
  unauthenticated_refused command first rest parsed other =
      ap (process_split s c now false) parsed ∙ gate (verb_of (to_upper first)) (first ∷ rest) other

  -- The line is an AUTH with a password that the manager accepts.
  abbrev pub Accepts : List Text → Type 0
  Accepts parts =
      (first : Text) × (password : Text) × (m : AuthManager) × (parts ≡ first ∷ password ∷ [])
      × (verb_of (to_upper first) ≡ Verb.auth)
      × (s.auth_manager ≡ some m)
      × (s.verify_password m password ≡ valid)

  checked :
      (o : Option AuthManager) (password : Text)
      → auth_enabled o ≡ true
      → (check_password s c false o password).authenticated ≡ true
      → (m : AuthManager) × (o ≡ some m) × (s.verify_password m password ≡ valid)
  unfolding auth_enabled
  checked none password enabled e = cc
  checked (some m) password enabled e = (m, refl, verdict (s.verify_password m password) refl)
    where
      verdict :
          (w : Verdict) → s.verify_password m password ≡ w → s.verify_password m password ≡ valid
      verdict valid q = q
      verdict invalid q = absurd (false≢true (simp (enabled, q) at e))
      verdict (failed text) q = absurd (false≢true (simp (enabled, q) at e))

  pub handled :
      (first : Text) (rest : List Text)
      → verb_of (to_upper first) ≡ Verb.auth
      → (handle_auth s c false (first ∷ rest)).authenticated ≡ true
      → Accepts (first ∷ rest)
  unfolding handle_auth
  handled first (password ∷ []) v e =
      let (m, there, accepted) = checked s.auth_manager password on e in
      (first, password, m, refl, v, there, accepted)
  handled first [] v e = cc
  handled first (a ∷ b ∷ rest) v e = cc

  authenticated_parts :
      (parts : List Text) (a : Answer z)
      → process_split s c now false parts ≡ some a
      → a.authenticated ≡ true
      → Accepts parts
  authenticated_parts [] a e t = cc
  authenticated_parts (first ∷ rest) a e t = by_verb (verb_of (to_upper first)) refl
    where
      refused : verb_of (to_upper first) ≢ Verb.auth → Accepts (first ∷ rest)
      refused h = cc (gate (verb_of (to_upper first)) (first ∷ rest) h, e, t)

      by_verb : (verb : Verb) → verb_of (to_upper first) ≡ verb → Accepts (first ∷ rest)
      by_verb Verb.auth q = handled first rest q (unfold process_parts in ground (arith, rw q at e))
      by_verb verb q = refused (λ h. cc)

  -- Where authentication is enabled, a connection becomes authenticated by AUTH with a password that
  -- the manager accepts, and in no other way.
  pub authenticated_by_auth :
      (command : Text) (a : Answer z)
      → process_command_direct s c now false command ≡ some a
      → a.authenticated ≡ true
      → Accepts (parse_command_with_quotes command)
  unfolding process_command_direct
  authenticated_by_auth command a e t =
      authenticated_parts (parse_command_with_quotes command) a e t
