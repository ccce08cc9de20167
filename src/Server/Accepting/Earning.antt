-- ===== src/Server/Accepting/Earning.antt =====
-- tcpserver/single_goroutine_server.go: which connections are authenticated, and what the others can do.
use ant_cache.Base.{
  All-implies, if_true, if_false, ℕ, ◌≡◌, refl, sym, ◌∙◌, ◌⊎◌, inl, inr, Bool, true, false, Option,
  none, some, List, [], ◌∷◌, arith, if◌then◌else◌, text_eq, ◌==◌, Bool-cases, Option-cases, All,
}
use mathlib.Core.Path.{subst}
use mathlib.Core.Option.{some-injective}
use ant_cache.Item.{Compression}
use ant_cache.Cache.{Cache}
use ant_cache.Utils.Quotes.{parse_command_with_quotes}
use ant_cache.Server.{Server, Answer, auth_enabled, process_command_direct}
use ant_cache.Server.Access.{authenticated_by_auth}
use ant_cache.Server.Guarded.{Admits}
use ant_cache.Server.Session.{Received}
use ant_cache.Server.Accepting.{
  Connection, SingleServer, Event, accepts, accept_fails, receives, ends, stops, authenticated_of,
  authenticate, leave, accept, close_connection, asked, receive, stop, happen, happen_all,
}

-- An authenticated connection has earned it.
abbrev pub Earned : (ℕ → Type 0) → Connection → Type 0
Earned E x = x.authenticated ≡ true → E x.number

module _ (E : ℕ → Type 0) where
  pub leave-All : (n : ℕ) (xs : List Connection) → All (Earned E) xs → All (Earned E) (leave n xs)
  leave-All n [] h = tt
  leave-All n (x ∷ xs) (p, h) = elim (Bool-cases (x.number == n)) [
    | inl same ↦ rw same h
    | inr other ↦ rw other (p, leave-All n xs h)
  ]

  pub authenticate-All :
      (n : ℕ) (b : Bool) (xs : List Connection)
      → (b ≡ true → E n)
      → All (Earned E) xs
      → All (Earned E) (authenticate n b xs)
  authenticate-All n b [] earns h = tt
  authenticate-All n b (x ∷ xs) earns (p, h) = elim (Bool-cases (x.number == n)) [
    | inl same ↦
        let at_n : x.number ≡ n = ground arith in rw same ((λ (t : b ≡ true). rw at_n (earns t)), h)
    | inr other ↦ rw other (p, authenticate-All n b xs earns h)
  ]

  pub earned_before :
      (n : ℕ) (b : Bool) (xs : List Connection)
      → All (Earned E) xs
      → authenticated_of n xs ≡ some b
      → b ≡ true
      → E n
  earned_before n b [] h e t = absurd (cc e)
  earned_before n b (x ∷ xs) (p, h) e t = elim (Bool-cases (x.number == n)) [
    | inl same ↦
        let at_n : x.number ≡ n = ground arith in
        let was : x.authenticated ≡ b =
          some-injective x.authenticated b (
            sym (if_true (x.number == n) (some x.authenticated) (authenticated_of n xs) same)
            ∙ e) in
        rw at_n at (p (was ∙ t))
    | inr other ↦
        earned_before n b xs h
          (sym (if_false (x.number == n) (some x.authenticated) (authenticated_of n xs) other) ∙ e)
          t
  ]

module _ {z : Compression} (s : Server z) (on : auth_enabled s.auth_manager ≡ true)
    (E : ℕ → Type 0) where
  -- An accepted AUTH earns it for its connection.
  abbrev pub Grants : Event → Type 0
  Grants (receives n l) = Admits s (parse_command_with_quotes l.text) → E n
  Grants _ = Unit {0}

  answered-Earned :
      (n : ℕ) (l : Received) (c : Cache z) (b : Bool) (a : Answer z)
      → (Admits s (parse_command_with_quotes l.text) → E n)
      → (b ≡ true → E n)
      → process_command_direct s c l.now b l.text ≡ some a
      → a.authenticated ≡ true
      → E n
  answered-Earned n l c true a grants before e t = before refl
  answered-Earned n l c false a grants before e t =
      grants (authenticated_by_auth s c l.now on l.text a e t)

  -- Every connection of a state that an event leaves has earned it.
  abbrev pub AllEarned : Option (SingleServer z) → Type 0
  AllEarned o = (st : SingleServer z) → o ≡ some st → All (Earned E) st.connections

  at_state : (st : SingleServer z) → All (Earned E) st.connections → AllEarned (some st)
  at_state st h st' e =
      subst (λ (x : SingleServer z). All (Earned E) x.connections) (some-injective st st' e) h

  receive-Earned :
      (n : ℕ) (l : Received) (st : SingleServer z) (b : Bool)
      → (Admits s (parse_command_with_quotes l.text) → E n)
      → authenticated_of n st.connections ≡ some b
      → All (Earned E) st.connections
      → AllEarned (receive s n l st (some b))
  unfolding receive asked close_connection
  receive-Earned n l st b grants open_one h = elim (Bool-cases (text_eq l.text [])) [
    | inl empty ↦ rw (receive, empty) (at_state st h)
    | inr some_text ↦ elim (Option-cases (process_command_direct s st.cache l.now b l.text)) [
      | inl panic ↦ rw (receive, some_text, panic) (λ st' e. absurd (cc e))
      | inr (a, e) ↦
          let after : All (Earned E) (asked n a st).connections =
            authenticate-All E n a.authenticated st.connections
              (answered-Earned n l st.cache b a grants
                (earned_before E n b st.connections h open_one) e)
              h in
          elim (Bool-cases l.writable) [
            | inl can ↦ rw (receive, some_text, e, can) (at_state _ after)
            | inr cannot ↦ rw (receive, some_text, e, cannot) (at_state _ (leave-All E n _ after))
          ]
    ]
  ]

  either-AllEarned :
      (b : Bool) (x y : Option (SingleServer z))
      → AllEarned x
      → AllEarned y
      → AllEarned (if b then x else y)
  either-AllEarned true x y h k = h
  either-AllEarned false x y h k = k

  pub happen-Earned :
      (e : Event) (st : SingleServer z)
      → Grants e
      → All (Earned E) st.connections
      → AllEarned (happen s e st)
  unfolding happen receive accept close_connection stop
  happen-Earned accepts st g h =
      either-AllEarned st.accepting (some (accept st)) (some st)
        (at_state (accept st) ((λ t. absurd (cc t)), h)) (at_state st h)
  happen-Earned accept_fails st g h = at_state _ h
  happen-Earned (receives n l) st g h = elim (Option-cases (authenticated_of n st.connections)) [
    | inl closed ↦ rw (happen, closed) (unfold receive in at_state st h)
    | inr (b, open_one) ↦ rw (happen, open_one) (receive-Earned n l st b g open_one h)
  ]
  happen-Earned (ends n) st g h = elim (Option-cases (authenticated_of n st.connections)) [
    | inl closed ↦ rw (happen, closed) (at_state st h)
    | inr (b, open_one) ↦ rw (happen, open_one) (at_state _ (leave-All E n st.connections h))
  ]
  happen-Earned stops st g h =
      either-AllEarned st.stopped none (some (record st { running = false; stopped = true }))
        (λ st' e. absurd (cc e)) (at_state (record st { running = false; stopped = true }) h)

  happen_all-Earned :
      (es : List Event) (st : SingleServer z)
      → All Grants es
      → All (Earned E) st.connections
      → AllEarned (happen_all s es st)
  unfolding happen_all
  happen_all-Earned [] st g h = at_state st h
  happen_all-Earned (e ∷ es) st (g, gs) h = elim (Option-cases (happen s e st)) [
    | inl panic ↦ rw (happen_all, panic) (λ st' q. absurd (cc q))
    | inr (st1, q) ↦ rw (happen_all, q) (happen_all-Earned es st1 gs (happen-Earned e st g h st1 q))
  ]

module _ {z : Compression} (s : Server z) where
  -- The connection `n` has sent an AUTH command with a password that the manager accepts.
  abbrev pub Sent : ℕ → List Event → Type 0
  Sent n [] = ⊥
  Sent n (receives m l ∷ es) = ((m ≡ n) × Admits s (parse_command_with_quotes l.text)) ⊎ Sent n es
  Sent n (_ ∷ es) = Sent n es

  Sent-later : (n : ℕ) (e : Event) (es : List Event) → Sent n es → Sent n (e ∷ es)
  Sent-later n (receives m l) es h = inr h
  Sent-later n accepts es h = h
  Sent-later n accept_fails es h = h
  Sent-later n (ends m) es h = h
  Sent-later n stops es h = h

  module _ (on : auth_enabled s.auth_manager ≡ true) where
    Grants-later :
        (e0 : Event) (es : List Event) (e : Event)
        → Grants s on (λ n. Sent n es) e
        → Grants s on (λ n. Sent n (e0 ∷ es)) e
    Grants-later e0 es (receives n l) g = λ admitted. Sent-later n e0 es (g admitted)
    Grants-later e0 es accepts g = tt
    Grants-later e0 es accept_fails g = tt
    Grants-later e0 es (ends m) g = tt
    Grants-later e0 es stops g = tt

    Grants-now : (e : Event) (es : List Event) → Grants s on (λ n. Sent n (e ∷ es)) e
    Grants-now (receives n l) es = λ admitted. inl (refl, admitted)
    Grants-now accepts es = tt
    Grants-now accept_fails es = tt
    Grants-now (ends m) es = tt
    Grants-now stops es = tt

    All-Grants : (es : List Event) → All (Grants s on (λ n. Sent n es)) es
    All-Grants [] = tt
    All-Grants (e ∷ es) = (
      Grants-now e es,
      All-implies (Grants s on (λ n. Sent n es)) (Grants s on (λ n. Sent n (e ∷ es))) es
          (Grants-later e es) (All-Grants es),
    )

    -- Where authentication is enabled, whatever the connections do on the shared server and in whatever
    -- order: from a state without connections on, a connection that is authenticated has itself sent AUTH
    -- with a password that the manager accepts.
    pub happen_all-Sent :
        (es : List Event) (st st' : SingleServer z) (n : ℕ)
        → st.connections ≡ []
        → happen_all s es st ≡ some st'
        → authenticated_of n st'.connections ≡ some true
        → Sent n es
    happen_all-Sent es st st' n closed e authenticated =
        earned_before (λ n. Sent n es) n true st'.connections
          (happen_all-Earned s on (λ n. Sent n es) es st (All-Grants es)
            (subst (All (Earned (λ n. Sent n es))) (sym closed) tt) st' e)
          authenticated refl
