-- ===== src/Server/Accepting.antt =====
-- tcpserver/single_goroutine_server.go: the SingleGoroutineServer struct with Start, handleConnection
-- and Stop. The goroutines of the connections work on one cache, in an order that is not known: an
-- event is what one of them, the accept loop or Stop does next. Sockets are not modelled.
pub mod Counting
pub mod Earning
pub mod Closed
use ant_cache.Base.{
  Table, codes, ◌%◌, ◌^◌, ℕ, zero, suc, ◌+◌, ◌-◌, ◌*◌, ◌≤◌, ◌<◌, ◌≡◌, refl, sym, ap, ◌∙◌, ◌≢◌, ◌⊎◌,
  inl, inr, Bool, true, false, not, ◌&&◌, ◌||◌, Option, none, some, List, [], ◌∷◌, ◌++◌, arith, ℤ,
  pos, negsuc, if◌then◌else◌, Text, text_eq, lookup, insert, erase, length, ltb_ℤ, ◌==◌, is_some,
  Bool-cases, Option-cases, All, lookup-insert, lookup-erase, text_eq_iff, text_eq_refl, leb, ltb,
  join, ◌<ℤ◌,
}
use ant_cache.Item.{Compression}
use ant_cache.Cache.{Cache}
use ant_cache.Server.{Server, Answer, process_command_direct}
use ant_cache.Server.Session.{Received}

-- The goroutine of a connection that is open; connections have numbers in the order of Accept.
pub record Connection : Type 0 where
  pub number : ℕ
  pub authenticated : Bool

-- `accepting` says that the accept loop has not ended, `stopped` that `stop_chan` is closed;
-- `accepted` counts the connections without wrapping around, to number them.
pub record SingleServer (z : Compression) : Type 0 where
  pub cache : Cache z
  pub running : Bool
  pub accepting : Bool
  pub stopped : Bool
  pub connections : List Connection
  pub accepted : ℕ
  pub total_connections : ℕ
  pub active_connections : ℕ
  pub total_requests : ℕ
  pub total_responses : ℕ

-- `ends` is the end of a connection's lines: the peer, the deadline, or an error of the read.
pub data Event : Type 0 where
  accepts accept_fails : Event
  receives : ℕ → Received → Event
  ends : ℕ → Event
  stops : Event

-- atomic.AddUint64 of 1 and of ^uint64(0).
abbrev pub increment : ℕ → ℕ
increment n = (n + 1) % 2 ^ 64

abbrev pub decrement : ℕ → ℕ
decrement n = (n + (2 ^ 64 - 1)) % 2 ^ 64

-- Whether a connection is open, and then whether it is authenticated.
abbrev pub authenticated_of : ℕ → List Connection → Option Bool
authenticated_of n [] = none
authenticated_of n (x ∷ xs) = if x.number == n then some x.authenticated else authenticated_of n xs

abbrev pub authenticate : ℕ → Bool → List Connection → List Connection
authenticate n b [] = []
authenticate n b (x ∷ xs) =
    let rest = authenticate n b xs in
    if x.number == n then record x { authenticated = b } ∷ xs else x ∷ rest

abbrev pub leave : ℕ → List Connection → List Connection
leave n [] = []
leave n (x ∷ xs) = let rest = leave n xs in if x.number == n then xs else x ∷ rest

module _ {z : Compression} where
  unfoldable pub new_single_goroutine_server : Cache z → SingleServer z
  new_single_goroutine_server c = record {
    cache = c;
    running = false;
    accepting = false;
    stopped = false;
    connections = [];
    accepted = 0;
    total_connections = 0;
    active_connections = 0;
    total_requests = 0;
    total_responses = 0;
  }

  -- Start, where the port can be listened on, up to the loop.
  unfoldable pub start : SingleServer z → SingleServer z
  start st = record st { running = true; accepting = true }

  -- A round of the accept loop with a connection.
  unfoldable pub accept : SingleServer z → SingleServer z
  accept st = record st {
    accepting = st.running;
    connections = record { number = st.accepted; authenticated = false } ∷ st.connections;
    accepted = st.accepted + 1;
    total_connections = increment st.total_connections;
    active_connections = increment st.active_connections;
  }

  -- The deferred function of handleConnection.
  unfoldable pub close_connection : ℕ → SingleServer z → SingleServer z
  close_connection n st = record st {
    connections = leave n st.connections;
    active_connections = decrement st.active_connections;
  }

  unfoldable pub asked : ℕ → Answer z → SingleServer z → SingleServer z
  asked n a st = record st {
    cache = a.reply.cache;
    connections = authenticate n a.authenticated st.connections;
    total_requests = increment st.total_requests;
  }

  -- A round of the loop of handleTextConnection; a response that cannot be written ends the connection.
  unfoldable pub receive :
      Server z → ℕ → Received → SingleServer z → Option Bool → Option (SingleServer z)
  receive s n l st none = some st
  receive s n l st (some authenticated) =
      let answered : Option (SingleServer z) =
        elim (process_command_direct s st.cache l.now authenticated l.text) [
          | some a ↦
              let st1 = asked n a st in
              if l.writable
              then some (record st1 { total_responses = increment st1.total_responses })
              else some (close_connection n st1)
          | none ↦ none
        ] in
      if text_eq l.text [] then some st else answered

  -- A second Stop closes `stop_chan` again, which panics.
  unfoldable pub stop : SingleServer z → Option (SingleServer z)
  stop st = if st.stopped then none else some (record st { running = false; stopped = true })

  unfoldable pub happen : Server z → Event → SingleServer z → Option (SingleServer z)
  unfolding accept receive close_connection stop
  happen s accepts st = if st.accepting then some (accept st) else some st
  happen s accept_fails st = some (record st { accepting = st.accepting && st.running })
  happen s (receives n l) st = receive s n l st (authenticated_of n st.connections)
  happen s (ends n) st = elim (authenticated_of n st.connections) [
    | some _ ↦ some (close_connection n st)
    | none ↦ some st
  ]
  happen s stops st = stop st

  unfoldable pub happen_all : Server z → List Event → SingleServer z → Option (SingleServer z)
  unfolding happen
  happen_all s [] st = some st
  happen_all s (e ∷ es) st = elim (happen s e st) [ some st1 ↦ happen_all s es st1 | none ↦ none ]

  unfoldable pub get_stats : SingleServer z → Table ℕ
  get_stats st =
      (codes "total_connections", st.total_connections)
      ∷ (codes "active_connections", st.active_connections)
      ∷ (codes "total_requests", st.total_requests)
      ∷ (codes "total_responses", st.total_responses)
      ∷ []
