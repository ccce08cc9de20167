-- ===== src/Start/Guarded.antt =====
-- main.go: what the password of the configuration protects.
use ant_cache.Base.{
  ℕ, pos, All-implies, if_false, ◌≡◌, refl, sym, ap, ◌∙◌, inl, inr, true, false, not, Option, none,
  some, List, [], ◌∷◌, if◌then◌else◌, Text, codes, text_eq, Bool-cases, All, text_eq_iff,
}
use mathlib.Core.Option.{some-injective}
use ant_cache.Item.{Compression}
use ant_cache.Cache.{Cache}
use ant_cache.Auth.{
  AuthManager, valid, invalid, ok, set_password, verify_password, new_auth_manager,
}
use ant_cache.Auth.Stored.{IsKey, verify_password-set_password}
use ant_cache.Config.{Config, decoded, load_config}
use ant_cache.Server.{Server, auth_enabled}
use ant_cache.Server.Commands.{Formats, Verb, verb_of, to_upper}
use ant_cache.Server.Accepting.{
  SingleServer, Event, accepts, accept_fails, receives, ends, stops, start,
  new_single_goroutine_server, happen_all,
}
use ant_cache.Server.Accepting.Closed.{IsClosed, happen_all-IsClosed}
use ant_cache.Server.Guarded.{Admits}
use ant_cache.Server.Pooling
use ant_cache.Server.Pooling.{PooledServer, new_pooled_goroutine_server}
use ant_cache.Server.Pooling.Closed
use ant_cache.Utils.Quotes.{parse_command_with_quotes}
use ant_cache.Start.{
  Flags, World, Running, single, pooled, running, config_path, setup_auth, launch, configured, main,
  handle_query_config,
}
use ant_cache.Start.Opening.{launch-Ready}

-- What happens at a server, and the state that it leaves: the single-goroutine server, or the pooled one
-- with a number of workers, made at a time.
pub data Run (z : Compression) : Type 0 where
  on_single : List Event → SingleServer z → Run z
  on_pooled : ℕ → ℕ → List Pooling.Event → PooledServer z → Run z

abbrev pub cache_of : {z : Compression} → Run z → Cache z
cache_of (on_single es st) = st.cache
cache_of (on_pooled workers now es st) = st.cache

module _ {z : Compression} (w : World z) where
  -- The server that works on what runs; AUTH reads the password file.
  abbrev pub server_of : Formats z → Running z → Server z
  server_of formats r = record {
    formats = formats;
    auth_manager = r.auth_manager;
    verify_password = λ m password. verify_password w.crypto none m r.password_file password;
  }

  -- The line is an AUTH command whose password has the key of the configured one.
  abbrev pub Opens : Config → Text → Text → Type 0
  Opens cfg salt text =
      (first : Text) × (password : Text) × (parse_command_with_quotes text ≡ first ∷ password ∷ [])
      × (verb_of (to_upper first) ≡ Verb.auth)
      × (w.crypto.key password salt ≡ w.crypto.key cfg.password salt)

  -- SetPassword meets no error, and its keys are those of pbkdf2.
  pub record SetsPassword (cfg : Config) (salt : Text) : Type 0 where
    pub salted : w.set_effects.salt ≡ ok salt
    pub created : w.set_effects.create_error ≡ none
    pub written : w.set_effects.write_error ≡ none
    pub salt_key : IsKey salt
    pub password_key : IsKey (w.crypto.key cfg.password salt)

  -- The event is no AUTH with that key.
  abbrev pub IsShut : Config → Text → Event → Type 0
  IsShut cfg salt (receives n l) = ¬ Opens cfg salt l.text
  IsShut cfg salt _ = Unit {0}

  abbrev pub IsShutPooled : Config → Text → Pooling.Event → Type 0
  IsShutPooled cfg salt (Pooling.receives n l duration) = ¬ Opens cfg salt l.text
  IsShutPooled cfg salt _ = Unit {0}

  abbrev pub AllShut : Config → Text → Run z → Type 0
  AllShut cfg salt (on_single es st) = All (IsShut cfg salt) es
  AllShut cfg salt (on_pooled workers now es st) = All (IsShutPooled cfg salt) es

  -- The run is one of the server that main starts.
  abbrev pub IsRun : Formats z → Running z → Run z → Type 0
  IsRun formats r (on_single es st) =
      (r.mode ≡ single)
      × (happen_all (server_of formats r) es (start (new_single_goroutine_server r.cache))
          ≡ some st)
  IsRun formats r (on_pooled workers now es st) =
      (r.mode ≡ pooled (pos workers))
      × (Pooling.happen_all (server_of formats r) es
            (Pooling.start (new_pooled_goroutine_server r.cache workers now))
          ≡ some st)

  module _ (cfg : Config) (salt : Text) (sets : SetsPassword cfg salt)
      (protected : text_eq cfg.password [] ≡ false) where
    set_up : setup_auth w.crypto w.set_effects cfg w.auth_file ≡ (
      new_auth_manager (codes "auth.dat") true,
      (set_password w.crypto w.set_effects
          (new_auth_manager (codes "auth.dat") true)
          cfg.password
          w.auth_file).1,
    )
    unfolding setup_auth
    set_up = rw protected refl

    verified :
        (password : Text)
        → verify_password w.crypto none
            (new_auth_manager (codes "auth.dat") true)
            (setup_auth w.crypto w.set_effects cfg w.auth_file).1
            password
          ≡ valid
        → w.crypto.key password salt ≡ w.crypto.key cfg.password salt
    verified password e =
        let key = w.crypto.key password salt in
        let set_key = w.crypto.key cfg.password salt in
        let am = new_auth_manager (codes "auth.dat") true in
        let answered =
          (verify_password-set_password w.crypto w.set_effects am cfg.password password salt
            w.auth_file refl sets.salted sets.created sets.written sets.salt_key
            sets.password_key).1 in
        let asked =
          ap (λ (x : AuthManager × Option Text). verify_password w.crypto none am x.1 password)
            set_up in
        let accepted : (if text_eq key set_key then valid else invalid) ≡ valid =
          sym answered ∙ sym asked ∙ e in
        elim (Bool-cases (text_eq key set_key)) [
          | inl same ↦ (text_eq_iff key set_key).0 same
          | inr other ↦ absurd (cc (rw other at accepted))
        ]

    launched_by :
        (f : Flags) (r : Running z)
        → launch w f cfg ≡ some (running r)
        → (auth_enabled r.auth_manager ≡ true)
          × (r.auth_manager ≡ some (new_auth_manager (codes "auth.dat") true))
          × (r.password_file ≡ (setup_auth w.crypto w.set_effects cfg w.auth_file).1)
    launched_by f r e =
        let (ready, manager, file) = launch-Ready w f cfg r e in
        (
          ready.guarded ∙ ap not protected,
          manager ∙ ap (λ (x : AuthManager × Option Text). some x.0) set_up,
          file,
        )

    admitted-Opens :
        (formats : Formats z) (r : Running z) (text : Text)
        → r.auth_manager ≡ some (new_auth_manager (codes "auth.dat") true)
        → r.password_file ≡ (setup_auth w.crypto w.set_effects cfg w.auth_file).1
        → Admits (server_of formats r) (parse_command_with_quotes text)
        → Opens cfg salt text
    admitted-Opens formats r text manager file (first, password, m, parts, auth, there, accepted) =
        let am = new_auth_manager (codes "auth.dat") true in
        let same : m ≡ am = some-injective m am (sym there ∙ manager) in
        (
          first,
          password,
          parts,
          auth,
          verified password (
              ap (λ x. verify_password w.crypto none am x password) (sym file)
              ∙ ap (λ x. verify_password w.crypto none x r.password_file password) (sym same)
              ∙ accepted),
        )

    shut-IsClosed :
        (formats : Formats z) (r : Running z)
        → r.auth_manager ≡ some (new_auth_manager (codes "auth.dat") true)
        → r.password_file ≡ (setup_auth w.crypto w.set_effects cfg w.auth_file).1
        → (e : Event) → IsShut cfg salt e
        → IsClosed (server_of formats r) e
    shut-IsClosed formats r manager file (receives n l) h =
        λ admitted. h (admitted-Opens formats r l.text manager file admitted)
    shut-IsClosed formats r manager file accepts h = tt
    shut-IsClosed formats r manager file accept_fails h = tt
    shut-IsClosed formats r manager file (ends n) h = tt
    shut-IsClosed formats r manager file stops h = tt

    shut_pooled-IsClosed :
        (formats : Formats z) (r : Running z)
        → r.auth_manager ≡ some (new_auth_manager (codes "auth.dat") true)
        → r.password_file ≡ (setup_auth w.crypto w.set_effects cfg w.auth_file).1
        → (e : Pooling.Event) → IsShutPooled cfg salt e
        → Closed.IsClosed (server_of formats r) e
    shut_pooled-IsClosed formats r manager file (Pooling.receives n l duration) h =
        λ admitted. h (admitted-Opens formats r l.text manager file admitted)
    shut_pooled-IsClosed formats r manager file Pooling.accepts h = tt
    shut_pooled-IsClosed formats r manager file Pooling.accept_fails h = tt
    shut_pooled-IsClosed formats r manager file Pooling.enqueues h = tt
    shut_pooled-IsClosed formats r manager file Pooling.times_out h = tt
    shut_pooled-IsClosed formats r manager file Pooling.begins h = tt
    shut_pooled-IsClosed formats r manager file Pooling.takes h = tt
    shut_pooled-IsClosed formats r manager file Pooling.quits h = tt
    shut_pooled-IsClosed formats r manager file Pooling.stops h = tt
    shut_pooled-IsClosed formats r manager file (Pooling.checks now) h = tt
    shut_pooled-IsClosed formats r manager file (Pooling.ends n duration) h = tt

    run-IsGuarded :
        (formats : Formats z) (r : Running z) (run : Run z)
        → auth_enabled r.auth_manager ≡ true
        → r.auth_manager ≡ some (new_auth_manager (codes "auth.dat") true)
        → r.password_file ≡ (setup_auth w.crypto w.set_effects cfg w.auth_file).1
        → AllShut cfg salt run
        → IsRun formats r run
        → cache_of run ≡ r.cache
    unfolding start new_single_goroutine_server Pooling.start new_pooled_goroutine_server
    run-IsGuarded formats r (on_single es st) on manager file closed (_, served) =
        happen_all-IsClosed (server_of formats r) on es
          (start (new_single_goroutine_server r.cache)) st refl
          (All-implies (IsShut cfg salt) (IsClosed (server_of formats r)) es
            (shut-IsClosed formats r manager file) closed)
          served
    run-IsGuarded formats r (on_pooled workers now es st) on manager file closed (_, served) =
        Closed.closed_from (server_of formats r) on es
          (Pooling.start (new_pooled_goroutine_server r.cache workers now)) st
          (All-implies (IsShutPooled cfg salt) (Closed.IsClosed (server_of formats r)) es
            (shut_pooled-IsClosed formats r manager file) closed)
          tt served

    -- Where the configuration has a password and SetPassword stores it without an error: the connections
    -- to the server that main starts, single-goroutine or pooled, leave the cache as it was loaded,
    -- whatever they do and in whatever order, as long as none sends AUTH with a password that has the key
    -- of the configured one.
    pub main-IsGuarded :
        (f : Flags) (formats : Formats z) (r : Running z) (run : Run z)
        → f.query_config ≡ false
        → load_config w.json (w.config_at (config_path f)) ≡ decoded cfg
        → main w f ≡ some (running r)
        → AllShut cfg salt run
        → IsRun formats r run
        → cache_of run ≡ r.cache
    unfolding main
    main-IsGuarded f formats r run running_server loaded started closed served =
        let launched : launch w f cfg ≡ some (running r) =
          sym (ap (configured w f) loaded)
          ∙ sym (
              if_false f.query_config (some (handle_query_config w f (config_path f))) _
                running_server)
          ∙ started in
        let (on, manager, file) = launched_by f r launched in
        run-IsGuarded formats r run on manager file closed served
