-- ===== src/Server/Guarded.antt =====
-- tcpserver/single_goroutine_server.go: connections that do not know the password.
use ant_cache.Base.{
  if_true, if_false, ◌≡◌, refl, ap, ◌∙◌, inl, inr, Bool, true, false, Option, none, some, List, [],
  ◌∷◌, ℤ, Text, text_eq, Bool-cases, All,
}
use ant_cache.Item.{Compression}
use ant_cache.Cache.{Cache}
use ant_cache.Auth.{AuthManager, Verdict, valid, invalid, failed}
use ant_cache.Server.{
  Server, Answer, auth_enabled, verdict_answer, check_password, handle_auth, process_parts,
  process_split, process_command_direct,
}
use ant_cache.Server.Commands.{Verb, verb_of, to_upper}
use ant_cache.Server.Access.{gate, handled}
use ant_cache.Server.Session.{
  Received, Session, processed, responded, serve, handle_text_connection, EndsWith, ends_with,
}
use ant_cache.Utils.Quotes.{parse_command_with_quotes}

module _ {z : Compression} (s : Server z) where
  verdict-cache : (c : Cache z) (b : Bool) (v : Verdict) → (verdict_answer c b v).reply.cache ≡ c
  verdict-cache c b valid = refl
  verdict-cache c b invalid = refl
  verdict-cache c b (failed e) = refl

  check_password-cache :
      (c : Cache z) (b : Bool) (o : Option AuthManager) (password : Text)
      → (check_password s c b o password).reply.cache ≡ c
  check_password-cache c b none password = refl
  check_password-cache c b (some m) password = elim (Bool-cases m.enabled) [
    | inl on ↦
        ap (λ (a : Answer z). a.reply.cache)
          (if_true m.enabled (verdict_answer c b (s.verify_password m password)) _ on)
        ∙ verdict-cache c b (s.verify_password m password)
    | inr off ↦ ap (λ (a : Answer z). a.reply.cache) (if_false m.enabled _ _ off)
  ]

  handle_auth-cache :
      (c : Cache z) (b : Bool) (parts : List Text) → (handle_auth s c b parts).reply.cache ≡ c
  unfolding handle_auth
  handle_auth-cache c b (first ∷ password ∷ []) = check_password-cache c b s.auth_manager password
  handle_auth-cache c b [] = refl
  handle_auth-cache c b (first ∷ []) = refl
  handle_auth-cache c b (first ∷ password ∷ x ∷ xs) = refl

  -- A line is answered, the cache stays as it is, and the connection unauthenticated.
  abbrev pub Shut : Cache z → Option (Answer z) → Type 0
  Shut c o = (a : Answer z) × (o ≡ some a) × (a.reply.cache ≡ c) × (a.authenticated ≡ false)

  -- The parts of an AUTH command with a password that the manager accepts.
  abbrev pub Admits : List Text → Type 0
  Admits parts =
      (first : Text) × (password : Text) × (m : AuthManager) × (parts ≡ first ∷ password ∷ [])
      × (verb_of (to_upper first) ≡ Verb.auth)
      × (s.auth_manager ≡ some m)
      × (s.verify_password m password ≡ valid)

  module _ (on : auth_enabled s.auth_manager ≡ true) where
    auth-Shut :
        (c : Cache z) (now : ℤ) (first : Text) (rest : List Text)
        → ¬ Admits (first ∷ rest)
        → verb_of (to_upper first) ≡ Verb.auth
        → Shut c (some (handle_auth s c false (first ∷ rest)))
    auth-Shut c now first rest other is_auth = (
      handle_auth s c false (first ∷ rest),
      refl,
      handle_auth-cache c false (first ∷ rest),
      elim (Bool-cases (handle_auth s c false (first ∷ rest)).authenticated) [
        | inl opened ↦ absurd (other (handled s c now on first rest is_auth opened))
        | inr shut ↦ shut
      ],
    )

    parts-Shut :
        (c : Cache z) (now : ℤ) (parts : List Text)
        → ¬ Admits parts
        → Shut c (process_split s c now false parts)
    parts-Shut c now [] other = (_, refl, refl, refl)
    parts-Shut c now (first ∷ rest) other = by_verb (verb_of (to_upper first)) refl
      where
        by_verb :
            (verb : Verb)
            → verb_of (to_upper first) ≡ verb
            → Shut c (process_parts s c now false (verb_of (to_upper first)) (first ∷ rest))
        by_verb Verb.auth q = rw q (unfold process_parts in auth-Shut c now first rest other q)
        by_verb verb q =
            (_, gate s c now on (verb_of (to_upper first)) (first ∷ rest) (λ h. cc), refl, refl)

    pub line-Shut :
        (c : Cache z) (now : ℤ) (text : Text)
        → ¬ Admits (parse_command_with_quotes text)
        → Shut c (process_command_direct s c now false text)
    unfolding process_command_direct
    line-Shut c now text other = parts-Shut c now (parse_command_with_quotes text) other

    serve-IsGuarded :
        (lines : List Received) (st : Session z)
        → st.authenticated ≡ false
        → All (λ l. ¬ Admits (parse_command_with_quotes l.text)) lines
        → EndsWith st.cache (serve (process_command_direct s) lines st)
    unfolding serve
    serve-IsGuarded [] st out h = ends_with st
    serve-IsGuarded (l ∷ lines) st out (hl, h) = elim (Bool-cases (text_eq l.text [])) [
      | inl empty ↦ rw empty (serve-IsGuarded lines st out h)
      | inr some_text ↦
          let (a, e, same, still) = line-Shut st.cache l.now l.text hl in
          let e' : process_command_direct s st.cache l.now st.authenticated l.text ≡ some a =
            rw out e in
          rw (some_text, e')
            (elim (Bool-cases l.writable) [
              | inl can ↦
                  rw can (λ st' q. serve-IsGuarded lines (responded st a) still h st' q ∙ same)
              | inr cannot ↦ rw cannot (λ st' q. ends_with (processed st a) st' q ∙ same)
            ])
    ]

    -- Where authentication is enabled, a connection that never sends AUTH with a password that the manager
    -- accepts leaves the cache as it was, however many lines it sends, AUTH with other passwords included.
    pub handle_text_connection-IsGuarded :
        (lines : List Received) (c : Cache z) (st : Session z)
        → All (λ l. ¬ Admits (parse_command_with_quotes l.text)) lines
        → handle_text_connection s lines c ≡ some st
        → st.cache ≡ c
    unfolding handle_text_connection
    handle_text_connection-IsGuarded lines c st h e = serve-IsGuarded lines _ refl h st e
