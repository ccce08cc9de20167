-- ===== src/Start/Opening.antt =====
-- cache/cache.go and main.go: what a start gives, whatever the files hold.
use ant_cache.Base.{
  ◌≡◌, refl, sym, ap, ◌∙◌, ◌⊎◌, inl, inr, Bool, true, false, not, Option, none, some, [], Text,
  text_eq, Bool-cases,
}
use mathlib.Core.Path.{subst}
use mathlib.Core.Option.{some-injective}
use ant_cache.Item.{Compression}
use ant_cache.Cache.Valid.{IsValid}
use ant_cache.Server.{auth_enabled}
use ant_cache.Config.{Config, decoded, decode_error, load_config}
use ant_cache.Start.{
  Opened, Mode, mode_of, entered, server_error, ticks, set_compression_config, Flags, World,
  Running, Outcome, fatal, queried, running, config_path, setup_auth, launched, launch, atd_path_of,
  acl_path_of, atd_interval_of, acl_interval_of,
}
use ant_cache.Start.Loading.{
  named_paths, IsAsked, IsUnknown, mode_of-IsAsked, new_with_persistence-IsValid, untimed,
}

abbrev running_of : {z : Compression} → Outcome z → Option (Running z)
running_of (running r) = some r
running_of _ = none

module _ {z : Compression} where
  -- The intervals that main takes are positive.
  abbrev pub timers : World z → Flags → Config → Bool
  timers w f cfg =
      ticks (atd_interval_of w.parse_duration f cfg) (acl_interval_of w.parse_duration f cfg)

  -- The cache that the client or the server gets is well formed, authentication is enabled exactly if
  -- the configuration has a password, and the mode is what the flags ask for.
  pub record Ready (f : Flags) (cfg : Config) (r : Running z) : Type 0 where
    pub valid : IsValid r.cache
    pub guarded : auth_enabled r.auth_manager ≡ not (text_eq cfg.password [])
    pub asked : IsAsked f r.mode

  entered-Ready :
      (w : World z) (f : Flags) (cfg : Config) (o : Opened z) (mode : Mode) (r : Running z)
      → IsValid o.cache
      → IsAsked f mode
      → entered w f cfg (setup_auth w.crypto w.set_effects cfg w.auth_file) o (some mode)
        ≡ running r
      → Ready f cfg r
        × (r.auth_manager ≡ some (setup_auth w.crypto w.set_effects cfg w.auth_file).0)
        × (r.password_file ≡ (setup_auth w.crypto w.set_effects cfg w.auth_file).1)
  unfolding set_compression_config setup_auth auth_enabled
  entered-Ready w f cfg o mode r v known e =
      let auth = setup_auth w.crypto w.set_effects cfg w.auth_file in
      subst
        (λ (x : Running z).
          Ready f cfg x × (x.auth_manager ≡ some auth.0) × (x.password_file ≡ auth.1))
        (some-injective _ r (ap running_of e))
        (
          record {
            valid = record {
              heap = v.heap;
              tracked = v.tracked;
              keyed = v.keyed;
              mapped_used = v.mapped_used;
              heaped_used = v.heaped_used;
            };
            guarded = elim (Bool-cases (text_eq cfg.password [])) [
              | inl none_set ↦ rw none_set refl
              | inr has ↦ rw has refl
            ];
            asked = known;
          },
          refl,
          refl,
        )

  -- What a start with a configuration gives.
  launch-cases :
      (w : World z) (f : Flags) (cfg : Config)
      → ((launch w f cfg ≡ none) × (timers w f cfg ≡ false))
        ⊎ ((o : Opened z) × IsValid o.cache
            × (timers w f cfg ≡ true)
            × (launch w f cfg
                ≡ some (
                    entered w f cfg
                      (setup_auth w.crypto w.set_effects cfg w.auth_file)
                      o
                      (mode_of f))))
  unfolding launch
  launch-cases w f cfg =
      let auth = setup_auth w.crypto w.set_effects cfg w.auth_file in
      let stored = w.stored_at (atd_path_of f) (acl_path_of f) in
      let atd = atd_interval_of w.parse_duration f cfg in
      let acl = acl_interval_of w.parse_duration f cfg in
      elim (Bool-cases (timers w f cfg)) [
        | inl timed ↦
            let (o, e, v) =
              new_with_persistence-IsValid (atd_path_of f) (acl_path_of f) atd acl stored timed in
            inr (o, v, timed, ap (launched w f cfg auth) e)
        | inr off ↦ inl (
          ap (launched w f cfg auth)
              (untimed (atd_path_of f) (acl_path_of f) atd acl stored (named_paths f) off),
          off,
        )
      ]

  pub launch-Ready :
      (w : World z) (f : Flags) (cfg : Config) (r : Running z)
      → launch w f cfg ≡ some (running r)
      → Ready f cfg r
        × (r.auth_manager ≡ some (setup_auth w.crypto w.set_effects cfg w.auth_file).0)
        × (r.password_file ≡ (setup_auth w.crypto w.set_effects cfg w.auth_file).1)
  launch-Ready w f cfg r e =
      let auth = setup_auth w.crypto w.set_effects cfg w.auth_file in
      elim (launch-cases w f cfg) [
        | inl (panic, _) ↦ absurd (cc (panic, e))
        | inr (o, v, _, got) ↦
            let same : entered w f cfg auth o (mode_of f) ≡ running r =
              some-injective _ (running r) (sym got ∙ e) in
            elim (mode_of-IsAsked f) [
              | inr (unknown, _) ↦
                  let no : none ≡ some r =
                    ap running_of (sym (ap (entered w f cfg auth o) unknown) ∙ same) in
                  absurd (cc no)
              | inl (mode, known, asked) ↦
                  entered-Ready w f cfg o mode r v asked
                    (sym (ap (entered w f cfg auth o) known) ∙ same)
            ]
      ]

  -- What main may come to: it prints the configuration if it is asked to; it fails if the configuration
  -- cannot be loaded, or if a server of an unknown type is asked for; else something runs.
  abbrev pub Sound : World z → Flags → Outcome z → Type 0
  Sound w f (queried lines) = f.query_config ≡ true
  Sound w f (fatal text) =
      ((e : Text) × (load_config w.json (w.config_at (config_path f)) ≡ decode_error e))
      ⊎ ((f.query_config ≡ false) × IsUnknown f × (text ≡ server_error f.server_type))
  Sound w f (running r) =
      (f.query_config ≡ false)
      × (cfg : Config) × (load_config w.json (w.config_at (config_path f)) ≡ decoded cfg)
      × (timers w f cfg ≡ true)
      × Ready f cfg r

  -- The configuration is loaded, but has an interval that no ticker takes.
  abbrev pub Untimed : World z → Flags → Type 0
  Untimed w f =
      (f.query_config ≡ false)
      × (cfg : Config) × (load_config w.json (w.config_at (config_path f)) ≡ decoded cfg)
      × (timers w f cfg ≡ false)

  -- It ends in a panic for such an interval, or comes to what `Sound` says.
  abbrev pub Ends : World z → Flags → Option (Outcome z) → Type 0
  Ends w f result =
      ((result ≡ none) × Untimed w f) ⊎ ((o : Outcome z) × (result ≡ some o) × Sound w f o)
