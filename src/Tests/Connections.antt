-- ===== src/Tests/Connections.antt =====
-- The theorems on the servers' connections at a server with a password and the sample cache.
use Prim.Native.String.{String}
use ant_cache.Base.{
  ◌≡◌, refl, sym, ap, ◌∙◌, Bool, true, false, some, List, [], ◌∷◌, arith, pos, codes, text_eq,
  length,
}
use ant_cache.Server.{auth_enabled, handle_auth, process_parts, process_command_direct}
use ant_cache.Server.Commands.{verb_of, to_upper}
use ant_cache.Server.Session.{Received}
use ant_cache.Server.Guarded.{Admits}
use ant_cache.Server.Accepting.{
  SingleServer, Event, accepts, receives, ends, stops, happen, happen_all, accept, receive, asked,
  start, new_single_goroutine_server,
}
use ant_cache.Server.Accepting.Counting.{IsServing, happen_all-IsServing}
use ant_cache.Server.Accepting.Earning.{Sent, happen_all-Sent}
use ant_cache.Server.Accepting.Closed.{happen_all-IsClosed}
use ant_cache.Server.Pooling
use ant_cache.Server.Pooling.{PooledServer, new_pooled_goroutine_server}
use ant_cache.Server.Pooling.Accounts.{IsPooling}
use ant_cache.Server.Pooling.Serving.{happen_all-IsPooling}
use ant_cache.Utils.Quotes.{parse_command_with_quotes}
use ant_cache.Tests.{plain_compression, stocked, stocked-IsValid, locked}

on : auth_enabled locked.auth_manager ≡ true
unfolding auth_enabled
on = refl

abbrev line_of : String → Received
line_of s = record { text = codes s; now = pos 20; writable = true }

abbrev ready : SingleServer plain_compression
ready = start (new_single_goroutine_server stocked)

ready-IsServing : IsServing ready
unfolding start new_single_goroutine_server
ready-IsServing = record { valid = stocked-IsValid; active = refl; total = refl }

abbrev visits : List Event
visits =
    accepts ∷ accepts ∷ receives 1 (line_of "GET name") ∷ ends 0 ∷ stops ∷ accepts ∷ ends 1 ∷ []

happen_all-IsServing_example :
    (st : SingleServer plain_compression) × (happen_all locked visits ready ≡ some st)
    × IsServing st
unfolding start new_single_goroutine_server
happen_all-IsServing_example =
    happen_all-IsServing locked visits ready (omega arith) ready-IsServing

-- One connection that sends a line.
abbrev after_line : Bool → SingleServer plain_compression
after_line authenticated = record ready {
  connections = record { number = 0; authenticated = authenticated } ∷ [];
  accepted = 1;
  total_connections = 1;
  active_connections = 1;
  total_requests = 1;
  total_responses = 1;
}

abbrev logs_in : List Event
logs_in = accepts ∷ receives 0 (line_of "auth secret") ∷ []

logged_in : happen_all locked logs_in ready ≡ some (after_line true)
unfolding happen_all happen accept receive asked start new_single_goroutine_server
    process_command_direct process_parts parse_command_with_quotes verb_of to_upper text_eq
    handle_auth
logged_in = refl

happen_all-Sent_example : Sent locked 0 logs_in
unfolding start new_single_goroutine_server
happen_all-Sent_example =
    happen_all-Sent locked on logs_in ready (after_line true) 0 refl logged_in refl

abbrev asks : List Event
asks = accepts ∷ receives 0 (line_of "FLUSHALL") ∷ []

refused : happen_all locked asks ready ≡ some (after_line false)
unfolding happen_all happen accept receive asked start new_single_goroutine_server
    process_command_direct process_parts parse_command_with_quotes verb_of to_upper text_eq
    auth_enabled
refused = refl

split_flush : parse_command_with_quotes (codes "FLUSHALL") ≡ codes "FLUSHALL" ∷ []
unfolding parse_command_with_quotes
split_flush = refl

no_auth : ¬ Admits locked (parse_command_with_quotes (codes "FLUSHALL"))
no_auth (first, password, m, parts, is_auth, there, accepted) =
    absurd (omega (arith, ap length (sym split_flush ∙ parts)))

happen_all-IsClosed_example : (after_line false).cache ≡ ready.cache
unfolding start new_single_goroutine_server
happen_all-IsClosed_example =
    happen_all-IsClosed locked on asks ready (after_line false) refl (tt, (no_auth, tt)) refused

abbrev pool_visits : List Pooling.Event
pool_visits =
    Pooling.begins
    ∷ Pooling.accepts
    ∷ Pooling.enqueues
    ∷ Pooling.takes
    ∷ Pooling.checks 6000000000
    ∷ Pooling.receives 0 (line_of "GET name") 7
    ∷ Pooling.ends 0 9
    ∷ Pooling.stops
    ∷ Pooling.quits
    ∷ []

happen_all-IsPooling_example :
    (st : PooledServer plain_compression) × (Pooling.happen_all locked pool_visits
        (Pooling.start (new_pooled_goroutine_server stocked 4 0))
      ≡ some st)
    × IsPooling st
happen_all-IsPooling_example =
    happen_all-IsPooling locked pool_visits stocked 4 0 (omega arith) stocked-IsValid (omega arith)
