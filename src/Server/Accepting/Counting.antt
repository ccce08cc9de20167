-- ===== src/Server/Accepting/Counting.antt =====
-- tcpserver/single_goroutine_server.go: the counters of the server while its connections come and go.
use ant_cache.Base.{
  if_true, if_false, ◌%◌, ◌^◌, ℕ, suc, ◌+◌, ◌≤◌, ◌≡◌, refl, sym, ap, ◌∙◌, inl, inr, Bool, true,
  false, ◌&&◌, Option, some, List, [], ◌∷◌, arith, text_eq, length, ◌==◌, Bool-cases, Option-cases,
}
use ant_cache.Item.{Compression}
use ant_cache.Cache.Valid.{IsValid}
use ant_cache.Server.{Server, Answer}
use ant_cache.Server.Safety.{process_total}
use ant_cache.Server.Session.{Received}
use ant_cache.Server.Accepting.{
  Connection, SingleServer, Event, accepts, accept_fails, receives, ends, stops, increment,
  decrement, authenticated_of, authenticate, leave, accept, close_connection, asked, receive, stop,
  happen, happen_all,
}

pub increment_mod : (n : ℕ) → increment (n % 2 ^ 64) ≡ (n + 1) % 2 ^ 64
increment_mod n = omega arith

pub decrement_mod : (n : ℕ) → decrement ((n + 1) % 2 ^ 64) ≡ n % 2 ^ 64
decrement_mod n = omega arith

pub length-leave :
    (n : ℕ) (b : Bool) (xs : List Connection)
    → authenticated_of n xs ≡ some b
    → length xs ≡ length (leave n xs) + 1
length-leave n b [] e = absurd (cc e)
length-leave n b (x ∷ xs) e = ground (arith, length-leave n b xs)

pub length-authenticate :
    (n : ℕ) (b : Bool) (xs : List Connection) → length (authenticate n b xs) ≡ length xs
length-authenticate n b [] = refl
length-authenticate n b (x ∷ xs) = ground (arith, length-authenticate n b xs)

pub authenticated_of-authenticate :
    (n : ℕ) (a b : Bool) (xs : List Connection)
    → authenticated_of n xs ≡ some a
    → authenticated_of n (authenticate n b xs) ≡ some b
authenticated_of-authenticate n a b [] e = absurd (cc e)
authenticated_of-authenticate n a b (x ∷ xs) e = elim (Bool-cases (x.number == n)) [
  | inl same ↦ rw (same, same) refl
  | inr other ↦ rw (other, other) (authenticated_of-authenticate n a b xs (ground arith))
]

-- How often Stop is called.
abbrev pub stop_count : List Event → ℕ
stop_count [] = 0
stop_count (stops ∷ es) = suc (stop_count es)
stop_count (_ ∷ es) = stop_count es

abbrev pub stopped_once : Bool → ℕ
stopped_once true = 1
stopped_once false = 0

module _ {z : Compression} where
  -- The cache is well formed; the counters, which wrap around at 2 ^ 64, count the open connections
  -- and all that were accepted.
  pub record IsServing (st : SingleServer z) : Type 0 where
    pub valid : IsValid st.cache
    pub active : st.active_connections ≡ length st.connections % 2 ^ 64
    pub total : st.total_connections ≡ st.accepted % 2 ^ 64

  accept-IsServing : (st : SingleServer z) → IsServing st → IsServing (accept st)
  unfolding accept
  accept-IsServing st v = record {
    valid = v.valid;
    active = ap increment v.active ∙ increment_mod (length st.connections) ∙ omega arith;
    total = ap increment v.total ∙ increment_mod st.accepted;
  }

  close_connection-IsServing :
      (n : ℕ) (b : Bool) (st : SingleServer z)
      → authenticated_of n st.connections ≡ some b
      → IsServing st
      → IsServing (close_connection n st)
  unfolding close_connection
  close_connection-IsServing n b st open_one v = record {
    valid = v.valid;
    active =
        ap decrement (v.active ∙ ap (λ k. k % 2 ^ 64) (length-leave n b st.connections open_one))
        ∙ decrement_mod (length (leave n st.connections));
    total = v.total;
  }

  asked-IsServing :
      (n : ℕ) (a : Answer z) (st : SingleServer z)
      → IsValid a.reply.cache
      → IsServing st
      → IsServing (asked n a st)
  unfolding asked
  asked-IsServing n a st va v = record {
    valid = va;
    active =
        v.active
        ∙ ap (λ k. k % 2 ^ 64) (sym (length-authenticate n a.authenticated st.connections));
    total = v.total;
  }

  -- An event that happens without a panic, and leaves the server as it should be.
  abbrev Serving : Bool → Option (SingleServer z) → Type 0
  Serving stopped o = (st : SingleServer z) × (o ≡ some st) × IsServing st × (st.stopped ≡ stopped)

  module _ (s : Server z) where
    answered-Serving :
        (n : ℕ) (l : Received) (st : SingleServer z) (b : Bool)
        → authenticated_of n st.connections ≡ some b
        → IsServing st
        → Serving st.stopped (receive s n l st (some b))
    unfolding receive asked close_connection
    answered-Serving n l st b open_one v = elim (Bool-cases (text_eq l.text [])) [
      | inl empty ↦ rw empty (st, refl, v, refl)
      | inr some_text ↦
          let (a, e, va) = process_total s st.cache l.now b l.text v.valid in
          let st1 = asked n a st in
          let v1 : IsServing st1 = asked-IsServing n a st va v in
          elim (Bool-cases l.writable) [
            | inl can ↦
                let next : SingleServer z = record st1 {
                  total_responses = increment st1.total_responses;
                } in
                (
                  next,
                  rw (receive, some_text, e, can) refl,
                  record { valid = v1.valid; active = v1.active; total = v1.total },
                  refl,
                )
            | inr cannot ↦ (
              close_connection n st1,
              rw (receive, some_text, e, cannot) refl,
              close_connection-IsServing n a.authenticated st1
                  (authenticated_of-authenticate n b a.authenticated st.connections open_one) v1,
              refl,
            )
          ]
    ]

    receive-Serving :
        (n : ℕ) (l : Received) (st : SingleServer z)
        → IsServing st
        → Serving st.stopped (receive s n l st (authenticated_of n st.connections))
    unfolding receive
    receive-Serving n l st v = elim (Option-cases (authenticated_of n st.connections)) [
      | inl closed ↦ rw closed (st, refl, v, refl)
      | inr (b, open_one) ↦ rw open_one (unfold receive in answered-Serving n l st b open_one v)
    ]

    same_counts :
        (st : SingleServer z) (running accepting stopped : Bool)
        → IsServing st
        → IsServing (record st { running = running; accepting = accepting; stopped = stopped })
    same_counts st running accepting stopped v = record {
      valid = v.valid;
      active = v.active;
      total = v.total;
    }

    -- An event happens, and counts as a Stop if it is one.
    abbrev Happens : Event → SingleServer z → Type 0
    Happens e st =
        (st' : SingleServer z) × (happen s e st ≡ some st')
        × IsServing st'
        × (stopped_once st'.stopped ≡ stop_count (e ∷ []) + stopped_once st.stopped)

    kept_stopped :
        (st st' : SingleServer z)
        → st'.stopped ≡ st.stopped
        → stopped_once st'.stopped ≡ 0 + stopped_once st.stopped
    kept_stopped st st' e = ap stopped_once e ∙ omega arith

    happen-Happens :
        (e : Event) (st : SingleServer z)
        → stop_count (e ∷ []) + stopped_once st.stopped ≤ 1
        → IsServing st
        → Happens e st
    unfolding happen accept close_connection stop
    happen-Happens accepts st once v = elim (Bool-cases st.accepting) [
      | inl on ↦ (accept st, if_true st.accepting _ _ on, accept-IsServing st v, omega arith)
      | inr off ↦ (st, if_false st.accepting _ _ off, v, omega arith)
    ]
    happen-Happens accept_fails st once v =
        (_, refl, same_counts st st.running (st.accepting && st.running) st.stopped v, omega arith)
    happen-Happens (receives n l) st once v =
        let (st', e, v', kept) = receive-Serving n l st v in (st', e, v', kept_stopped st st' kept)
    happen-Happens (ends n) st once v = elim (Option-cases (authenticated_of n st.connections)) [
      | inl closed ↦ (st, rw (happen, closed) refl, v, omega arith)
      | inr (b, open_one) ↦ (
        close_connection n st,
        rw (happen, open_one) refl,
        close_connection-IsServing n b st open_one v,
        omega arith,
      )
    ]
    happen-Happens stops st once v = elim (Bool-cases st.stopped) [
      | inl again ↦ absurd (omega (arith, ap stopped_once again))
      | inr first ↦ (
        record st { running = false; stopped = true },
        if_false st.stopped _ _ first,
        same_counts st false st.accepting true v,
        omega (arith, ap stopped_once first),
      )
    ]

    stop_count-cons :
        (e : Event) (es : List Event) → stop_count (e ∷ es) ≡ stop_count (e ∷ []) + stop_count es
    stop_count-cons stops es = omega arith
    stop_count-cons accepts es = omega arith
    stop_count-cons accept_fails es = omega arith
    stop_count-cons (receives n l) es = omega arith
    stop_count-cons (ends n) es = omega arith

    -- From a state in which the counters agree with the connections, whatever the connections, the accept
    -- loop and at most one Stop do, and in whatever order: no command panics, the cache is well
    -- formed after it, and the counters agree with the connections.
    pub happen_all-IsServing :
        (es : List Event) (st : SingleServer z)
        → stop_count es + stopped_once st.stopped ≤ 1
        → IsServing st
        → (st' : SingleServer z) × (happen_all s es st ≡ some st') × IsServing st'
    unfolding happen_all
    happen_all-IsServing [] st once v = (st, refl, v)
    happen_all-IsServing (e ∷ es) st once v =
        let split = stop_count-cons e es in
        let (st1, e1, v1, counted) = happen-Happens e st (omega (arith, split, once)) v in
        let (st2, e2, v2) = happen_all-IsServing es st1 (omega (arith, split, counted)) v1 in
        (st2, rw (happen_all, e1) e2, v2)
