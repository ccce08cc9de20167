-- ===== src/Server/Session.antt =====
-- tcpserver/single_goroutine_server.go: handleTextConnection, the loop of a connection over the
-- lines that it receives.
use ant_cache.Base.{
  ℕ, ◌+◌, ◌≤◌, ℤ, ◌≡◌, refl, ap, ◌∙◌, sym, inl, inr, Bool-cases, arith, Bool, true, false, List, [],
  ◌∷◌, Option, none, some, Text, codes, text_eq, All, if◌then◌else◌,
}
use mathlib.Core.Option.{some-injective}
use ant_cache.Item.{Compression}
use ant_cache.Cache.{Cache}
use ant_cache.Cache.Valid.{IsValid}
use ant_cache.Server.{
  Server, Answer, answer, line, auth_enabled, process_command_direct, process_split,
}
use ant_cache.Server.Commands.{Verb, verb_of, to_upper}
use ant_cache.Server.Safety.{process_total}
use ant_cache.Server.Access.{unauthenticated_refused}
use ant_cache.Utils.Quotes.{parse_command_with_quotes}

-- A line that scanner.Scan gives, when, and whether the response to it can be written.
pub record Received : Type 0 where
  pub text : Text
  pub now : ℤ
  pub writable : Bool

-- The responses that were written come latest first.
pub record Session (z : Compression) : Type 0 where
  pub cache : Cache z
  pub authenticated : Bool
  pub total_requests : ℕ
  pub total_responses : ℕ
  pub written : List Text

-- What processes a command: the cache, the time, whether the connection is authenticated, the line.
abbrev pub Processor : Compression → Type 0
Processor z = Cache z → ℤ → Bool → Text → Option (Answer z)

-- The line is an AUTH command.
abbrev pub IsAuth : Text → Type 0
IsAuth text =
    (first : Text) × (rest : List Text) × (parse_command_with_quotes text ≡ first ∷ rest)
    × (verb_of (to_upper first) ≡ Verb.auth)

module _ {z : Compression} where
  -- The session after a command, before the response is written.
  abbrev pub processed : Session z → Answer z → Session z
  processed st a = record st {
    cache = a.reply.cache;
    authenticated = a.authenticated;
    total_requests = st.total_requests + 1;
  }

  abbrev pub responded : Session z → Answer z → Session z
  responded st a = record (processed st a) {
    total_responses = st.total_responses + 1;
    written = a.reply.response ∷ st.written;
  }

  -- `none` stands for a run-time panic.
  unfoldable pub serve : Processor z → List Received → Session z → Option (Session z)
  serve process [] st = some st
  serve process (l ∷ lines) st =
      let skipped = serve process lines st in
      let answered : Option (Session z) = elim (process st.cache l.now st.authenticated l.text) [
        | some a ↦
            let more = serve process lines (responded st a) in
            if l.writable then more else some (processed st a)
        | none ↦ none
      ] in
      if text_eq l.text [] then skipped else answered

  unfoldable pub handle_text_connection : Server z → List Received → Cache z → Option (Session z)
  handle_text_connection s lines c = serve (process_command_direct s) lines (record {
    cache = c;
    authenticated = false;
    total_requests = 0;
    total_responses = 0;
    written = [];
  })

  -- The session goes on to an end without a panic, with a well-formed cache, and no more responses
  -- are written than there were requests.
  abbrev pub Serves : Option (Session z) → Type 0
  Serves o =
      (st : Session z) × (o ≡ some st)
      × (IsValid st.cache)
      × (st.total_responses ≤ st.total_requests)

  serve-Serves :
      (s : Server z) (lines : List Received) (st : Session z)
      → IsValid st.cache
      → st.total_responses ≤ st.total_requests
      → Serves (serve (process_command_direct s) lines st)
  unfolding serve
  serve-Serves s [] st v h = (st, refl, v, h)
  serve-Serves s (l ∷ lines) st v h = elim (Bool-cases (text_eq l.text [])) [
    | inl empty ↦ rw empty (serve-Serves s lines st v h)
    | inr some_text ↦
        let (a, e, va) = process_total s st.cache l.now st.authenticated l.text v in
        rw (some_text, e)
          (elim (Bool-cases l.writable) [
            | inl can ↦ rw can (serve-Serves s lines (responded st a) va (omega arith))
            | inr cannot ↦ rw cannot (processed st a, refl, va, omega arith)
          ])
  ]

  -- From a well-formed cache, a connection is served to an end without a panic whatever lines it
  -- sends: the cache is well formed, and no more responses are written than there were requests.
  pub handle_text_connection-Serves :
      (s : Server z) (lines : List Received) (c : Cache z)
      → IsValid c
      → Serves (handle_text_connection s lines c)
  unfolding handle_text_connection
  handle_text_connection-Serves s lines c v = serve-Serves s lines _ v (omega arith)

  no_parts :
      (s : Server z) (c : Cache z) (now : ℤ) (text : Text)
      → parse_command_with_quotes text ≡ []
      → process_command_direct s c now false text
        ≡ some (answer c false (line (codes "ERROR invalid command format")))
  unfolding process_command_direct
  no_parts s c now text e = ap (process_split s c now false) e

  refused_line :
      (s : Server z) (c : Cache z) (now : ℤ) (text : Text)
      → auth_enabled s.auth_manager ≡ true
      → ¬ IsAuth text
      → (a : Answer z) × (process_command_direct s c now false text ≡ some a)
        × (a.reply.cache ≡ c)
        × (a.authenticated ≡ false)
  refused_line s c now text on other = by_parts (parse_command_with_quotes text) refl
    where
      Refused : Type 0
      Refused =
          (a : Answer z) × (process_command_direct s c now false text ≡ some a)
          × (a.reply.cache ≡ c)
          × (a.authenticated ≡ false)

      by_parts : (parts : List Text) → parse_command_with_quotes text ≡ parts → Refused
      by_parts [] e = (_, no_parts s c now text e, refl, refl)
      by_parts (first ∷ rest) e = (
        _,
        unauthenticated_refused s c now on text first rest e (λ auth. other (first, rest, e, auth)),
        refl,
        refl,
      )

  -- A session that ends has cache `c` in the end.
  abbrev pub EndsWith : Cache z → Option (Session z) → Type 0
  EndsWith c o = (st : Session z) → o ≡ some st → st.cache ≡ c

  pub ends_with : (st : Session z) → EndsWith st.cache (some st)
  ends_with st st' e = sym (ap (λ (x : Session z). x.cache) (some-injective st st' e))

  serve-refused :
      (s : Server z) (lines : List Received) (st : Session z)
      → auth_enabled s.auth_manager ≡ true
      → st.authenticated ≡ false
      → All (λ l. ¬ IsAuth l.text) lines
      → EndsWith st.cache (serve (process_command_direct s) lines st)
  unfolding serve
  serve-refused s [] st on out h = ends_with st
  serve-refused s (l ∷ lines) st on out (hl, h) = elim (Bool-cases (text_eq l.text [])) [
    | inl empty ↦ rw empty (serve-refused s lines st on out h)
    | inr some_text ↦
        let (a, e, same, still) = refused_line s st.cache l.now l.text on hl in
        let e' : process_command_direct s st.cache l.now st.authenticated l.text ≡ some a =
          rw out e in
        rw (some_text, e')
          (elim (Bool-cases l.writable) [
            | inl can ↦
                rw can (λ st' q. serve-refused s lines (responded st a) on still h st' q ∙ same)
            | inr cannot ↦ rw cannot (λ st' q. ends_with (processed st a) st' q ∙ same)
          ])
  ]

  -- Where authentication is enabled, a connection that never sends an AUTH command leaves the cache
  -- as it was, however many lines it sends.
  pub handle_text_connection-refused :
      (s : Server z) (lines : List Received) (c : Cache z) (st : Session z)
      → auth_enabled s.auth_manager ≡ true
      → All (λ l. ¬ IsAuth l.text) lines
      → handle_text_connection s lines c ≡ some st
      → st.cache ≡ c
  unfolding handle_text_connection
  handle_text_connection-refused s lines c st on h e = serve-refused s lines _ on refl h st e
