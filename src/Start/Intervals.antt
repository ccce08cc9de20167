-- ===== src/Start/Intervals.antt =====
-- main.go: the two intervals, and the methods of Config that compute them.
use ant_cache.Base.{
  if_false, ◌≡◌, refl, sym, ap, inl, inr, false, Option, [], ℤ, Text, codes, text_eq, Bool-cases,
}
use ant_cache.Auth.{Result}
use ant_cache.Config.{
  Config, Json, decoded, load_config, with_defaults, or_default, get_atd_interval, get_acl_interval,
}
use ant_cache.Config.Defaults.{loaded_filled}
use ant_cache.Start.{default_flags, atd_interval_of, acl_interval_of}

-- A text that has its default is not empty.
defaulted :
    (default s : Text)
    → text_eq default [] ≡ false
    → or_default default s ≡ s
    → text_eq s [] ≡ false
defaulted default s some_default e = elim (Bool-cases (text_eq s [])) [
  | inl empty ↦ absurd (cc (rw empty at e, some_default, empty))
  | inr full ↦ full
]

-- With no interval on the command line and a configuration that LoadConfig gave, main takes the two
-- intervals that the methods GetAtdInterval and GetAclInterval of Config give, which it does not call.
pub intervals-get_interval :
    (parse_duration : Text → Option ℤ) (json : Json) (file : Result) (cfg : Config)
    → load_config json file ≡ decoded cfg
    → (atd_interval_of parse_duration default_flags cfg ≡ get_atd_interval parse_duration cfg)
      × (acl_interval_of parse_duration default_flags cfg ≡ get_acl_interval parse_duration cfg)
unfolding get_atd_interval get_acl_interval with_defaults text_eq
intervals-get_interval parse_duration json file cfg loaded =
    let filled = loaded_filled json file cfg loaded in
    let atd =
      defaulted (codes "1h") cfg.atd_interval refl (ap (λ (c : Config). c.atd_interval) filled) in
    let acl =
      defaulted (codes "1s") cfg.acl_interval refl (ap (λ (c : Config). c.acl_interval) filled) in
    (
      sym (if_false (text_eq cfg.atd_interval []) _ _ atd),
      sym (if_false (text_eq cfg.acl_interval []) _ _ acl),
    )
