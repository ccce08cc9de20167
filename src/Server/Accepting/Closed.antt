-- ===== src/Server/Accepting/Closed.antt =====
-- tcpserver/single_goroutine_server.go: connections that do not know the password, on a shared server.
use ant_cache.Base.{
  ℕ, ◌≡◌, refl, sym, ap, ◌∙◌, inl, inr, Bool, true, false, Option, none, some, List, [], ◌∷◌,
  if◌then◌else◌, text_eq, Bool-cases, Option-cases, All,
}
use mathlib.Core.Path.{subst}
use mathlib.Core.Option.{some-injective}
use ant_cache.Item.{Compression}
use ant_cache.Cache.{Cache}
use ant_cache.Utils.Quotes.{parse_command_with_quotes}
use ant_cache.Server.{Server, auth_enabled}
use ant_cache.Server.Guarded.{Admits, line-Shut}
use ant_cache.Server.Session.{Received}
use ant_cache.Server.Accepting.{
  SingleServer, Event, accepts, accept_fails, receives, ends, stops, authenticated_of, accept,
  close_connection, asked, receive, stop, happen, happen_all,
}
use ant_cache.Server.Accepting.Earning.{Earned, earned_before, Grants, happen-Earned}

module _ {z : Compression} (s : Server z) where
  -- The event is no accepted AUTH.
  abbrev pub IsClosed : Event → Type 0
  IsClosed (receives n l) = ¬ Admits s (parse_command_with_quotes l.text)
  IsClosed _ = Unit {0}

  -- What an event leaves has cache `c`.
  abbrev Leaves : Cache z → Option (SingleServer z) → Type 0
  Leaves c o = (st : SingleServer z) → o ≡ some st → st.cache ≡ c

  Leaves-state : (st : SingleServer z) → Leaves st.cache (some st)
  Leaves-state st st' e = ap (λ (x : SingleServer z). x.cache) (some-injective st' st (sym e))

  module _ (on : auth_enabled s.auth_manager ≡ true) where
    closed-Grants : (e : Event) → IsClosed e → Grants s on (λ n. ⊥) e
    closed-Grants (receives n l) h = h
    closed-Grants accepts h = tt
    closed-Grants accept_fails h = tt
    closed-Grants (ends n) h = tt
    closed-Grants stops h = tt

    receive_closed :
        (n : ℕ) (l : Received) (st : SingleServer z)
        → ¬ Admits s (parse_command_with_quotes l.text)
        → Leaves st.cache (receive s n l st (some false))
    unfolding receive asked close_connection
    receive_closed n l st other =
        let (a, e, same, _) = line-Shut s on st.cache l.now l.text other in
        elim (Bool-cases (text_eq l.text [])) [
          | inl empty ↦ rw (receive, empty) (Leaves-state st)
          | inr some_text ↦ elim (Bool-cases l.writable) [
            | inl can ↦ rw (receive, some_text, e, can) (λ st' q. Leaves-state _ st' q ∙ same)
            | inr cannot ↦ rw (receive, some_text, e, cannot) (λ st' q. Leaves-state _ st' q ∙ same)
          ]
        ]

    either-Leaves :
        (c : Cache z) (b : Bool) (x y : Option (SingleServer z))
        → Leaves c x
        → Leaves c y
        → Leaves c (if b then x else y)
    either-Leaves c true x y h k = h
    either-Leaves c false x y h k = k

    happen_closed :
        (e : Event) (st : SingleServer z)
        → IsClosed e
        → All (Earned (λ n. ⊥)) st.connections
        → Leaves st.cache (happen s e st)
    unfolding happen receive accept close_connection stop
    happen_closed accepts st other h =
        either-Leaves st.cache st.accepting (some (accept st)) (some st) (Leaves-state (accept st))
          (Leaves-state st)
    happen_closed accept_fails st other h = Leaves-state _
    happen_closed (receives n l) st other h =
        elim (Option-cases (authenticated_of n st.connections)) [
          | inl closed ↦ rw (happen, closed) (unfold receive in Leaves-state st)
          | inr (true, open_one) ↦
              absurd (earned_before (λ n. ⊥) n true st.connections h open_one refl)
          | inr (false, open_one) ↦ rw (happen, open_one) (receive_closed n l st other)
        ]
    happen_closed (ends n) st other h = elim (Option-cases (authenticated_of n st.connections)) [
      | inl closed ↦ rw (happen, closed) (Leaves-state st)
      | inr (b, open_one) ↦ rw (happen, open_one) (Leaves-state _)
    ]
    happen_closed stops st other h =
        either-Leaves st.cache st.stopped none
          (some (record st { running = false; stopped = true })) (λ st' e. absurd (cc e))
          (Leaves-state _)

    closed_from :
        (es : List Event) (st : SingleServer z)
        → All IsClosed es
        → All (Earned (λ n. ⊥)) st.connections
        → Leaves st.cache (happen_all s es st)
    unfolding happen_all
    closed_from [] st others h = Leaves-state st
    closed_from (e ∷ es) st (other, others) h = elim (Option-cases (happen s e st)) [
      | inl panic ↦ rw (happen_all, panic) (λ st' q. absurd (cc q))
      | inr (st1, q) ↦
          let h1 = happen-Earned s on (λ n. ⊥) e st (closed-Grants e other) h st1 q in
          rw (happen_all, q)
            (λ st' r. closed_from es st1 others h1 st' r ∙ happen_closed e st other h st1 q)
    ]

    -- Where authentication is enabled, on a server without connections at first: as long as no connection
    -- sends AUTH with a password that the manager accepts, the cache stays as it is, whatever the
    -- connections do and in whatever order.
    pub happen_all-IsClosed :
        (es : List Event) (st st' : SingleServer z)
        → st.connections ≡ []
        → All IsClosed es
        → happen_all s es st ≡ some st'
        → st'.cache ≡ st.cache
    happen_all-IsClosed es st st' closed others e =
        closed_from es st others (subst (All (Earned (λ n. ⊥))) (sym closed) tt) st' e
