-- ===== src/Config/Defaults.antt =====
-- config/config.go: a configuration that is loaded and saved.
use ant_cache.Base.{
  zero, suc, ◌≡◌, refl, sym, ap, ◌∙◌, ◌⊎◌, inl, inr, Option, none, some, [], ℤ, pos, negsuc, Text,
  codes, text_eq, Bool-cases,
}
use ant_cache.Auth.{Result, ok, error}
use ant_cache.Config.{
  Config, Json, Decoded, decoded, decode_error, or_default, or_size, with_defaults, filled,
  load_config, saved, save_config,
}

or_default_twice :
    (default s : Text) → or_default default (or_default default s) ≡ or_default default s
or_default_twice default s = elim (Bool-cases (text_eq s [])) [
  | inl empty ↦ elim (Bool-cases (text_eq default [])) [
    | inl e ↦ rw (empty, e) refl
    | inr e ↦ rw (empty, e) refl
  ]
  | inr full ↦ rw (full, full) refl
]

or_size_twice : (default n : ℤ) → or_size default (or_size default n) ≡ or_size default n
or_size_twice (pos zero) (pos zero) = refl
or_size_twice (pos (suc k)) (pos zero) = refl
or_size_twice (negsuc k) (pos zero) = refl
or_size_twice default (pos (suc n)) = refl
or_size_twice default (negsuc n) = refl

with_defaults_twice : (c : Config) → with_defaults (with_defaults c) ≡ with_defaults c
unfolding with_defaults
with_defaults_twice c = λ i. record c {
  host = or_default_twice (codes "localhost") c.host i;
  port = or_default_twice (codes "8890") c.port i;
  atd_interval = or_default_twice (codes "1h") c.atd_interval i;
  acl_interval = or_default_twice (codes "1s") c.acl_interval i;
  compression_type = or_default_twice (codes "gzip") c.compression_type i;
  compression_level = or_default_twice (codes "default") c.compression_level i;
  min_size = or_size_twice (pos 1024) c.min_size i;
}

-- Decode reads back what MarshalIndent writes for the configuration.
abbrev pub IsFaithful : Json → Config → Type 0
IsFaithful json c =
    (text : Text) × (json.marshal_indent c ≡ ok text) × (json.decode text ≡ decoded c)

decoded_cases :
    (d : Decoded) → ((c : Config) × (d ≡ decoded c)) ⊎ ((e : Text) × (d ≡ decode_error e))
decoded_cases (decoded c) = inl (c, refl)
decoded_cases (decode_error e) = inr (e, refl)

-- What LoadConfig gives has its defaults filled in already.
pub loaded_filled :
    (json : Json) (file : Result) (c : Config)
    → load_config json file ≡ decoded c
    → with_defaults c ≡ c
unfolding load_config
loaded_filled json (error e) c h = cc h
loaded_filled json (ok text) c h = elim (decoded_cases (json.decode text)) [
  | inr (e, bad) ↦ cc (rw bad at h)
  | inl (d, good) ↦
      let same : with_defaults d ≡ c = cc (rw good at h) in
      ap with_defaults (sym same) ∙ with_defaults_twice d ∙ same
]

-- A configuration that LoadConfig gives, saved by SaveConfig and loaded again, is the same, defaults
-- included, if Decode reads back what MarshalIndent writes for it.
pub load_config-save_config :
    (json : Json) (file : Result) (c : Config) (old : Option Text)
    → IsFaithful json c
    → load_config json file ≡ decoded c
    → (text : Text) × (save_config json c old ≡ (none, some text))
      × (load_config json (ok text) ≡ decoded c)
unfolding load_config save_config
load_config-save_config json file c old faithful h =
    let (text, written, read) = faithful in
    (
      text,
      ap (saved old) written,
      ap filled read ∙ ap decoded (unfold load_config in loaded_filled json file c h),
    )
