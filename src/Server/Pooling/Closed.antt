-- ===== src/Server/Pooling/Closed.antt =====
-- tcpserver/pooled_goroutine_server.go: connections that do not know the password, on a shared server.
use ant_cache.Base.{
  ℕ, ℤ, Text, ◌≡◌, refl, sym, ap, ◌∙◌, inl, inr, Bool, true, false, not, ◌&&◌, ◌||◌, Option, none,
  some, is_some, List, [], ◌∷◌, if◌then◌else◌, ltb, text_eq, Bool-cases, Option-cases, All,
}
use mathlib.Core.Path.{subst}
use mathlib.Core.Option.{some-injective}
use ant_cache.Item.{Compression}
use ant_cache.Cache.{Cache}
use ant_cache.Utils.Quotes.{parse_command_with_quotes}
use ant_cache.Server.{Server, Answer, auth_enabled}
use ant_cache.Server.Guarded.{Admits, line-Shut}
use ant_cache.Server.Pooled.{process_command_direct}
use ant_cache.Server.Session.{Received}
use ant_cache.Server.Accepting.{authenticated_of}
use ant_cache.Server.Accepting.Earning.{Earned, earned_before, leave-All, authenticate-All}
use ant_cache.Server.Pooling.{
  PooledServer, Event, accepts, accept_fails, enqueues, times_out, begins, takes, quits, stops,
  checks, receives, ends, accept, submit, reject, check, begin, exit, take_task, finish, asked,
  receive, stop, happen, happen_all,
}

module _ {z : Compression} (s : Server z) where
  -- The event is no accepted AUTH.
  abbrev pub IsClosed : Event → Type 0
  IsClosed (receives n l duration) = ¬ Admits s (parse_command_with_quotes l.text)
  IsClosed _ = Unit {0}

  -- No connection that a worker handles is authenticated.
  abbrev IsOut : PooledServer z → Type 0
  IsOut st = All (Earned (λ n. ⊥)) st.busy

  -- What an event leaves has cache `c`, and no connection is authenticated.
  abbrev Leaves : Cache z → Option (PooledServer z) → Type 0
  Leaves c o = (st : PooledServer z) → o ≡ some st → (st.cache ≡ c) × IsOut st

  Leaves-state : (c : Cache z) (st : PooledServer z) → st.cache ≡ c → IsOut st → Leaves c (some st)
  Leaves-state c st same h st' e =
      subst (λ (x : PooledServer z). (x.cache ≡ c) × IsOut x) (some-injective st st' e) (same, h)

  either-Leaves :
      (c : Cache z) (b : Bool) (x y : Option (PooledServer z))
      → Leaves c x
      → Leaves c y
      → Leaves c (if b then x else y)
  either-Leaves c true x y h k = h
  either-Leaves c false x y h k = k

  module _ (on : auth_enabled s.auth_manager ≡ true) where
    shut :
        (c : Cache z) (now : ℤ) (text : Text)
        → ¬ Admits s (parse_command_with_quotes text)
        → (a : Answer z) × (process_command_direct s c now false text ≡ some a)
          × (a.reply.cache ≡ c)
          × (a.authenticated ≡ false)
    unfolding process_command_direct
    shut c now text other = line-Shut s on c now text other

    receive_closed :
        (n duration : ℕ) (l : Received) (st : PooledServer z)
        → ¬ Admits s (parse_command_with_quotes l.text)
        → IsOut st
        → Leaves st.cache (receive s n l duration st (some false))
    unfolding receive asked finish
    receive_closed n duration l st other h =
        let (a, e, same, still) = shut st.cache l.now l.text other in
        let outs = authenticate-All (λ n. ⊥) n a.authenticated st.busy (λ t. cc (still, t)) h in
        elim (Bool-cases (text_eq l.text [])) [
          | inl empty ↦ rw (receive, empty) (Leaves-state st.cache st refl h)
          | inr some_text ↦ elim (Bool-cases l.writable) [
            | inl can ↦ rw (receive, some_text, e, can) (Leaves-state st.cache _ same outs)
            | inr cannot ↦
                rw (receive, some_text, e, cannot)
                  (Leaves-state st.cache _ same (leave-All (λ n. ⊥) n _ outs))
          ]
        ]

    taken_closed :
        (chan : List (Option ℕ)) (st : PooledServer z)
        → IsOut st
        → Leaves st.cache (some (take_task chan st))
    unfolding take_task exit
    taken_closed [] st h = Leaves-state st.cache st refl h
    taken_closed (none ∷ rest) st h = Leaves-state st.cache _ refl h
    taken_closed (some n ∷ rest) st h = Leaves-state st.cache _ refl ((λ t. cc t), h)

    happen_closed :
        (e : Event) (st : PooledServer z) → IsClosed e → IsOut st → Leaves st.cache (happen s e st)
    unfolding happen accept submit reject check begin exit finish stop
    happen_closed accepts st other h =
        either-Leaves st.cache (st.accepting && not st.checking && not (is_some st.submitting)) _ _
          (Leaves-state st.cache (accept st) refl h) (Leaves-state st.cache st refl h)
    happen_closed accept_fails st other h =
        either-Leaves st.cache (st.checking || is_some st.submitting) _ _
          (Leaves-state st.cache st refl h) (Leaves-state st.cache _ refl h)
    happen_closed enqueues st other h = elim (Option-cases st.submitting) [
      | inl free ↦ rw (happen, free) (Leaves-state st.cache st refl h)
      | inr (n, held) ↦
          rw (happen, held)
            (either-Leaves st.cache (ltb st.pool.queued st.pool.capacity) _ _
              (Leaves-state st.cache (submit n st) refl h) (Leaves-state st.cache st refl h))
    ]
    happen_closed times_out st other h = elim (Option-cases st.submitting) [
      | inl free ↦ rw (happen, free) (Leaves-state st.cache st refl h)
      | inr (n, held) ↦
          rw (happen, held)
            (either-Leaves st.cache (ltb st.pool.queued st.pool.capacity) _ _
              (Leaves-state st.cache st refl h) (Leaves-state st.cache (reject n st) refl h))
    ]
    happen_closed (checks now) st other h =
        either-Leaves st.cache st.checking _ _ (Leaves-state st.cache (check now st) refl h)
          (Leaves-state st.cache st refl h)
    happen_closed begins st other h =
        either-Leaves st.cache (ltb 0 st.spawned) _ _ (Leaves-state st.cache (begin st) refl h)
          (Leaves-state st.cache st refl h)
    happen_closed takes st other h =
        either-Leaves st.cache (ltb 0 st.idle) _ _ (taken_closed st.task_chan st h)
          (Leaves-state st.cache st refl h)
    happen_closed quits st other h =
        either-Leaves st.cache (st.stopped && ltb 0 st.idle) _ _
          (Leaves-state st.cache (exit st) refl h) (Leaves-state st.cache st refl h)
    happen_closed (receives n l duration) st other h =
        elim (Option-cases (authenticated_of n st.busy)) [
          | inl closed ↦ rw (happen, closed) (unfold receive in Leaves-state st.cache st refl h)
          | inr (true, open_one) ↦ absurd (earned_before (λ n. ⊥) n true st.busy h open_one refl)
          | inr (false, open_one) ↦ rw (happen, open_one) (receive_closed n duration l st other h)
        ]
    happen_closed (ends n duration) st other h = elim (Option-cases (authenticated_of n st.busy)) [
      | inl closed ↦ rw (happen, closed) (Leaves-state st.cache st refl h)
      | inr (b, open_one) ↦
          rw (happen, open_one)
            (Leaves-state st.cache (finish n duration st) refl (leave-All (λ n. ⊥) n st.busy h))
    ]
    happen_closed stops st other h =
        either-Leaves st.cache st.stopped _ _ (λ st' e. absurd (cc e))
          (Leaves-state st.cache _ refl h)

    -- Where authentication is enabled and no connection that a worker handles is authenticated: as long
    -- as no connection sends AUTH with a password that the manager accepts, the cache stays as it is,
    -- whatever the connections, the workers and the accept loop do and in whatever order.
    pub closed_from :
        (es : List Event) (st st' : PooledServer z)
        → All IsClosed es
        → IsOut st
        → happen_all s es st ≡ some st'
        → st'.cache ≡ st.cache
    unfolding happen_all
    closed_from [] st st' others h e =
        ap (λ (x : PooledServer z). x.cache) (some-injective st' st (sym e))
    closed_from (e ∷ es) st st' (other, others) h q = elim (Option-cases (happen s e st)) [
      | inl panic ↦ absurd (cc (rw (happen_all, panic) at q))
      | inr (st1, q1) ↦
          let (same, h1) = happen_closed e st other h st1 q1 in
          closed_from es st1 st' others h1 (rw (happen_all, q1) at q) ∙ same
    ]
