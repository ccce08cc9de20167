-- ===== src/Tests/Starts.antt =====
-- The theorems on a start, with and without a password, and on a cache that is closed and opened again.
use ant_cache.Base.{
  ◌≤ℤ◌, ◌≡◌, refl, sym, ap, ◌∙◌, true, false, not, ◌&&◌, none, some, List, [], ◌∷◌, arith, ℤ, pos,
  Text, codes, text_eq, lookup, insert, erase, length,
}
use ant_cache.Auth.{ok, new_auth_manager, set_password}
use ant_cache.Cache
use ant_cache.Persistence.{new_persistence_manager, log_to, log_command}
use ant_cache.Cache.{
  Cache, new, get, put_item, add_item, alloc, logged, expiration_of, delete_found, unheap,
}
use ant_cache.Item.{str}
use ant_cache.Atd.Values.RoundTrip.{IsMap}
use ant_cache.Atd.Snapshot.{FitRecords}
use ant_cache.Config.{Config, decoded, load_config, with_defaults}
use ant_cache.Log.Replay.{missing, load_acl}
use ant_cache.Log.Restart.{run_calls, started, call, commands_of_call, logged_by}
use ant_cache.Server.{process_command_direct, process_parts, auth_enabled}
use ant_cache.Server.Commands.{verb_of, to_upper}
use ant_cache.Utils.Quotes.{parse_command_with_quotes}
use ant_cache.Server.Accepting.{
  SingleServer, Event, accepts, receives, ends, happen_all, happen, accept, receive, asked,
  new_single_goroutine_server,
}
use ant_cache.Server.Accepting
use ant_cache.Atd.{load_atd}
use ant_cache.Start.{
  single, Opened, default_flags, World, Running, running, setup_auth, launch, main,
  new_with_persistence, load_files, start_manager, set_compression_config,
}
use ant_cache.Start.Guarded.{SetsPassword, server_of, Opens, on_single, main-IsGuarded}
use ant_cache.Start.Closing.{Ending, close}
use ant_cache.Start.Restart.{closed_reopens, found, nothing}
use ant_cache.Tests.{plain_compression, plain-Restores, manager, locked}
use ant_cache.Tests.Accounts.{crypto, salt, effects, salt-IsKey, stored-IsKey}
use ant_cache.Tests.Restarts.{
  shows, ticks, calls, disks, logged_commands, calls-IsKept, smooth, unrotated,
}

abbrev settings : Config
settings = record {
  host = codes "localhost";
  port = codes "8890";
  password = codes "secret";
  atd_interval = codes "1h";
  acl_interval = codes "1s";
  compression_enabled = false;
  compression_type = codes "gzip";
  compression_level = codes "default";
  min_size = pos 1024;
  strings_only = false;
}

abbrev world : World plain_compression
world = record {
  json = record { decode = λ text. decoded settings; marshal_indent = λ c. ok [] };
  config_at = λ path. ok (codes "{}");
  parse_duration = λ text. none;
  crypto = crypto;
  set_effects = effects;
  auth_file = none;
  stored_at =
      λ atd acl. record { snapshot = none; log = missing; now = pos 10; clock = λ n. pos 10 };
  make_compression = λ enabled size strings. tt;
}

settings_loaded : load_config world.json (ok (codes "{}")) ≡ decoded settings
unfolding load_config with_defaults text_eq
settings_loaded = refl

secret_set : SetsPassword world settings salt
secret_set = record {
  salted = refl;
  created = refl;
  written = refl;
  salt_key = salt-IsKey;
  password_key = stored-IsKey;
}

abbrev server : Running plain_compression
server = record {
  cache = record new {
    persistence = some (
        new_persistence_manager (codes "cache.atd") (codes "cache.acl") (pos 3600000000000)
          (pos 1000000000));
  };
  auth_manager = some (new_auth_manager (codes "auth.dat") true);
  password_file =
      (set_password crypto effects (new_auth_manager (codes "auth.dat") true) (codes "secret")
        none).1;
  host = codes "localhost";
  port = codes "8890";
  mode = single;
}

server_started : main world default_flags ≡ some (running server)
unfolding main launch load_config with_defaults text_eq setup_auth new_with_persistence load_files
    start_manager set_compression_config load_atd load_acl new new_persistence_manager
server_started = refl

abbrev asks : List Event
asks = accepts ∷ receives 0 (record { text = codes "FLUSHALL"; now = pos 20; writable = true }) ∷ []

abbrev refused : SingleServer plain_compression
refused = record {
  cache = server.cache;
  running = true;
  accepting = true;
  stopped = false;
  connections = record { number = 0; authenticated = false } ∷ [];
  accepted = 1;
  total_connections = 1;
  active_connections = 1;
  total_requests = 1;
  total_responses = 1;
}

asks_refused :
    happen_all
      (server_of world locked.formats server)
      asks
      (Accepting.start (new_single_goroutine_server server.cache))
    ≡ some refused
unfolding happen_all happen accept receive asked Accepting.start new_single_goroutine_server
    process_command_direct process_parts parse_command_with_quotes verb_of to_upper text_eq
    auth_enabled
asks_refused = refl

split_flush : parse_command_with_quotes (codes "FLUSHALL") ≡ codes "FLUSHALL" ∷ []
unfolding parse_command_with_quotes
split_flush = refl

no_auth : ¬ Opens world settings salt (codes "FLUSHALL")
no_auth (first, password, parts, is_auth, key) =
    absurd (omega (arith, ap length (sym split_flush ∙ parts)))

main-IsGuarded_example : refused.cache ≡ server.cache
unfolding text_eq
main-IsGuarded_example =
    main-IsGuarded world settings salt secret_set refl default_flags locked.formats server
      (on_single asks refused) refl settings_loaded server_started (tt, (no_auth, tt))
      (refl, asks_refused)

-- The cache after the three calls.
abbrev named : Cache plain_compression
named =
    Cache.set (started plain_compression manager) (pos 5) (codes "name") (str (codes "ann")) (pos 0)

abbrev unnamed : Cache plain_compression
unnamed = logged (record named { items = [] }) (pos 6) (codes "DEL") (codes "name") (str []) (pos 0)

abbrev last : Cache plain_compression
last = Cache.set unnamed (pos 7) (codes "b") (str (codes "v")) (pos 0)

calls_made : run_calls (started plain_compression manager) calls ≡ some last
unfolding run_calls call Cache.set put_item add_item alloc logged log_to log_command expiration_of
    Cache.delete delete_found unheap lookup insert erase text_eq new
calls_made = refl

last-IsMap : IsMap last.items
unfolding Cache.set put_item add_item alloc logged log_to log_command expiration_of insert text_eq
    new lookup
last-IsMap = (refl, tt)

last-FitRecords : FitRecords last.mem last.items
unfolding Cache.set put_item add_item alloc logged log_to log_command expiration_of insert text_eq
    new lookup
last-FitRecords = ((omega arith, (omega arith, (omega arith, omega arith))), tt)

abbrev ending : Ending
ending = record {
  taken = 3;
  disks = disks;
  compact = record {
    opens = λ n. true;
    created = true;
    write_error = none;
    removes = λ name. true;
    renamed = true;
    stats = true;
  };
  now = pos 20;
  timestamp = pos 0;
}

three_commands : 3 ≡ length logged_commands
unfolding logged_by call commands_of_call Cache.set put_item add_item alloc logged log_to
    log_command expiration_of Cache.delete delete_found unheap lookup insert erase text_eq new
three_commands = refl

named_paths : not (text_eq (codes "a.atd") []) && not (text_eq (codes "a.acl") []) ≡ true
unfolding text_eq
named_paths = refl

closed_reopens_example :
    (o : Opened plain_compression) × (new_with_persistence
        (codes "a.atd")
        (codes "a.acl")
        (pos 1)
        (pos 1)
        (found plain_compression shows ticks
          (close shows shows ending last (nothing plain_compression shows ticks))
          (pos 30))
      ≡ some o)
    × ((t : ℤ) (k : Text) → pos 30 ≤ℤ t → get o.cache t k ≡ get last t k)
closed_reopens_example =
    closed_reopens plain_compression shows ticks manager shows ending calls last (pos 30)
      (codes "a.atd") (codes "a.acl") (pos 1) (pos 1) plain-Restores (λ s. refl) refl (omega arith)
      calls-IsKept three_commands smooth unrotated calls_made last-IsMap last-FitRecords
      (omega arith, omega arith) (omega arith) named_paths refl
