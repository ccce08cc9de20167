-- ===== src/Start.antt =====
-- cache/cache.go: NewWithPersistence, NewWithPersistenceAndAuth and SetCompressionConfig; main.go:
-- main and handleQueryConfig, up to the point where the client or a server runs. The flags, the
-- files, the clock and what the libraries answer are arguments; the goroutines that are started, the
-- log messages and the cleaner, whose package is not in the repository, are left out. A panic of a
-- goroutine that Start of the persistence manager starts ends the program, as one of main does.
pub mod Loading
pub mod Opening
pub mod Guarded
pub mod Intervals
pub mod Closing
pub mod Restart
use ant_cache.Base.{
  ℕ, zero, suc, ◌+◌, ◌-◌, ◌*◌, ◌≤◌, ◌<◌, ◌≡◌, refl, sym, ap, ◌∙◌, ◌≢◌, ◌⊎◌, inl, inr, Bool, true,
  false, not, ◌&&◌, ◌||◌, Option, none, some, List, [], ◌∷◌, ◌++◌, arith, ℤ, pos, negsuc,
  if◌then◌else◌, Text, codes, text_eq, Table, lookup, insert, erase, length, ltb_ℤ, ◌==◌, is_some,
  Bool-cases, Option-cases, All, lookup-insert, lookup-erase, text_eq_iff, text_eq_refl, leb, ltb,
  join, ◌<ℤ◌,
}
use ant_cache.Item.{Compression}
use ant_cache.Auth.{AuthManager, Crypto, SetEffects, Result, set_password, new_auth_manager}
use ant_cache.Persistence.{PersistenceManager, new_persistence_manager}
use ant_cache.Cache.{Cache, new}
use ant_cache.Atd.{load_atd}
use ant_cache.Log.Replay.{AclFile, load_acl}
use ant_cache.Config.{
  Config, Json, Decoded, decoded, decode_error, load_config, parsed_or, hour, second,
}

-- A new cache with the files that are loaded into it, and whether each load ended without an error.
pub record Opened (z : Compression) : Type 0 where
  pub cache : Cache z
  pub atd_ok : Bool
  pub acl_ok : Bool

-- The files at the two paths, and the clock: `now` while LoadAtd reads, `clock n` at the line `n` of
-- the log.
pub record Stored : Type 0 where
  pub snapshot : Option Text
  pub log : AclFile
  pub now : ℤ
  pub clock : ℕ → ℤ

-- Whether the two goroutines of Start get their tickers: NewTicker panics on an interval that is not
-- positive.
abbrev pub ticks : ℤ → ℤ → Bool
ticks atd_interval acl_interval = ltb_ℤ (pos 0) atd_interval && ltb_ℤ (pos 0) acl_interval

module _ {z : Compression} where
  abbrev pub opened : Bool → Option (Bool × Cache z) → Option (Opened z)
  opened atd_ok none = none
  opened atd_ok (some (acl_ok, c)) = some (record { cache = c; atd_ok = atd_ok; acl_ok = acl_ok })

  -- Both loads, the second whatever the first has met.
  unfoldable pub load_files : Cache z → PersistenceManager z.Packed → Stored → Option (Opened z)
  load_files c pm stored =
      let (atd_ok, c1) = load_atd pm c stored.now stored.snapshot in
      opened atd_ok (load_acl pm.enabled stored.clock c1 stored.log)

  -- Start of the manager.
  unfoldable pub start_manager : PersistenceManager z.Packed → Opened z → Option (Opened z)
  start_manager pm o =
      if not pm.enabled || ticks pm.atd_interval pm.acl_interval then some o else none

  -- `none` stands for a run-time panic.
  unfoldable pub new_with_persistence : Text → Text → ℤ → ℤ → Stored → Option (Opened z)
  unfolding load_files start_manager
  new_with_persistence atd_path acl_path atd_interval acl_interval stored =
      let pm = new_persistence_manager atd_path acl_path atd_interval acl_interval in
      let loaded : Option (Opened z) =
        elim (load_files (record new { persistence = some pm }) pm stored) [
          | some o ↦ start_manager pm o
          | none ↦ none
        ] in
      if not (text_eq atd_path []) && not (text_eq acl_path [])
      then loaded
      else some (record { cache = new; atd_ok = true; acl_ok = true })

  unfoldable pub set_compression_config : Cache z → z.Config → Cache z
  set_compression_config c config = record c { compression_config = config }

-- The command line flags; an interval is in nanoseconds.
pub record Flags : Type 0 where
  pub cli_mode : Bool
  pub config_file : Text
  pub atd_file : Text
  pub acl_file : Text
  pub atd_interval : ℤ
  pub acl_interval : ℤ
  pub query_config : Bool
  pub server_type : Text
  pub max_workers : ℤ

abbrev pub default_flags : Flags
default_flags = record {
  cli_mode = false;
  config_file = [];
  atd_file = [];
  acl_file = [];
  atd_interval = hour;
  acl_interval = second;
  query_config = false;
  server_type = codes "single-goroutine";
  max_workers = pos 200;
}

-- What main finds: the files at the paths, and what is not in the repository.
pub record World (z : Compression) : Type 1 where
  pub json : Json
  pub config_at : Text → Result
  pub parse_duration : Text → Option ℤ
  pub crypto : Crypto
  pub set_effects : SetEffects
  pub auth_file : Option Text
  pub stored_at : Text → Text → Stored
  pub make_compression : Bool → ℤ → Bool → z.Config

abbrev pub same_ℤ : ℤ → ℤ → Bool
same_ℤ a b = not (ltb_ℤ a b) && not (ltb_ℤ b a)

abbrev pub config_path : Flags → Text
config_path f = if text_eq f.config_file [] then codes "config.json" else f.config_file

-- A flag that has its default leaves what the configuration says.
abbrev pub atd_path_of : Flags → Text
atd_path_of f = if text_eq f.atd_file [] then codes "cache.atd" else f.atd_file

abbrev pub acl_path_of : Flags → Text
acl_path_of f = if text_eq f.acl_file [] then codes "cache.acl" else f.acl_file

abbrev pub atd_interval_of : (Text → Option ℤ) → Flags → Config → ℤ
atd_interval_of parse_duration f cfg =
    if same_ℤ f.atd_interval hour
    then parsed_or hour (parse_duration cfg.atd_interval)
    else f.atd_interval

abbrev pub acl_interval_of : (Text → Option ℤ) → Flags → Config → ℤ
acl_interval_of parse_duration f cfg =
    if same_ℤ f.acl_interval second
    then parsed_or second (parse_duration cfg.acl_interval)
    else f.acl_interval

-- The authentication manager and the password file; an error of SetPassword is only logged.
unfoldable pub setup_auth : Crypto → SetEffects → Config → Option Text → AuthManager × Option Text
setup_auth crypto effects cfg file =
    let am = new_auth_manager (codes "auth.dat") true in
    if text_eq cfg.password []
    then (new_auth_manager [] false, file)
    else (am, (set_password crypto effects am cfg.password file).1)

abbrev pub query_auth : Text → List Text
query_auth password =
    if text_eq password []
    then codes "Enabled: false" ∷ codes "Password: (not set)" ∷ []
    else codes "Enabled: true" ∷ (codes "Password: " ++ password) ∷ []

abbrev pub query_lines : Text → Config → List Text
query_lines path cfg =
    codes "=== Ant-Cache Configuration ==="
    ∷ (codes "Config File: " ++ path)
    ∷ []
    ∷ codes "[Server]"
    ∷ (codes "Host: " ++ cfg.host)
    ∷ (codes "Port: " ++ cfg.port)
    ∷ []
    ∷ codes "[Persistence]"
    ∷ (codes "ATD Interval: " ++ cfg.atd_interval)
    ∷ (codes "ACL Interval: " ++ cfg.acl_interval)
    ∷ []
    ∷ codes "[Authentication]"
    ∷ query_auth cfg.password

-- The texts of log.Fatalf.
abbrev pub query_error : Text → Text → Text
query_error path e =
    codes "Failed to load config file '"
    ++ (path
        ++ (codes "': "
            ++ (e ++ 10 ∷ codes "Please ensure the config file exists and is valid JSON.")))

abbrev pub config_error : Flags → Text → Text
config_error f e =
    if text_eq f.config_file []
    then codes "Failed to load default config file 'config.json': "
      ++ (e
          ++ 10
            ∷ codes
                "Please ensure config.json exists in the current directory or specify a config file with -config flag.")
    else codes "Failed to load specified config file '"
      ++ (f.config_file
          ++ (codes "': "
              ++ (e ++ 10 ∷ codes "Please ensure the config file exists and is valid JSON.")))

-- What runs in the end.
pub data Mode : Type 0 where
  client single : Mode
  pooled : ℤ → Mode

-- The cache and the authentication manager that the client or the server gets.
pub record Running (z : Compression) : Type 0 where
  pub cache : Cache z
  pub auth_manager : Option AuthManager
  pub password_file : Option Text
  pub host : Text
  pub port : Text
  pub mode : Mode

pub data Outcome (z : Compression) : Type 0 where
  fatal : Text → Outcome z
  queried : List Text → Outcome z
  running : Running z → Outcome z

-- `none` stands for a server type that is not known.
abbrev pub mode_of : Flags → Option Mode
mode_of f =
    if f.cli_mode
    then some client
    else if text_eq f.server_type (codes "single-goroutine")
    then some single
    else if text_eq f.server_type (codes "pooled-goroutine")
    then some (pooled f.max_workers)
    else none

abbrev pub server_error : Text → Text
server_error server_type =
    codes "Unknown server type: "
    ++ (server_type ++ codes ". Available types: single-goroutine, pooled-goroutine")

module _ {z : Compression} (w : World z) (f : Flags) where
  unfoldable pub handle_query_config : Text → Outcome z
  handle_query_config path = elim (load_config w.json (w.config_at path)) [
    | decoded cfg ↦ queried (query_lines path cfg)
    | decode_error e ↦ fatal (query_error path e)
  ]

  abbrev pub entered : Config → AuthManager × Option Text → Opened z → Option Mode → Outcome z
  entered cfg auth o none = fatal (server_error f.server_type)
  entered cfg (am, file) o (some mode) = running (record {
    cache =
        set_compression_config o.cache
          (w.make_compression cfg.compression_enabled cfg.min_size cfg.strings_only);
    auth_manager = some am;
    password_file = file;
    host = cfg.host;
    port = cfg.port;
    mode = mode;
  })

  abbrev pub launched : Config → AuthManager × Option Text → Option (Opened z) → Option (Outcome z)
  launched cfg auth none = none
  launched cfg auth (some o) = some (entered cfg auth o (mode_of f))

  -- From the configuration on; NewWithPersistenceAndAuth gives the cache the manager.
  unfoldable pub launch : Config → Option (Outcome z)
  unfolding set_compression_config
  launch cfg = launched cfg (setup_auth w.crypto w.set_effects cfg w.auth_file) (
      new_with_persistence (atd_path_of f) (acl_path_of f) (atd_interval_of w.parse_duration f cfg)
        (acl_interval_of w.parse_duration f cfg) (w.stored_at (atd_path_of f) (acl_path_of f)))

  abbrev pub configured : Decoded → Option (Outcome z)
  configured (decoded cfg) = launch cfg
  configured (decode_error e) = some (fatal (config_error f e))

  unfoldable pub main : Option (Outcome z)
  unfolding launch
  main =
      if f.query_config
      then some (handle_query_config (config_path f))
      else configured (load_config w.json (w.config_at (config_path f)))
