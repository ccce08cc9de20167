-- ===== src/Cli/Changes.antt =====
-- cli/cli.go: who can change the password with handleAuthCommand.
use ant_cache.Base.{
  ◌≡◌, refl, ap, ◌⊎◌, inl, inr, Bool, true, false, ◌&&◌, Option, none, some, List, [], ◌∷◌, arith,
  if◌then◌else◌, Text, codes, text_eq,
}
use ant_cache.Auth.{AuthManager, Crypto, ok, valid, has_password, verify_password}
use ant_cache.Auth.Prompts.{typed_cases, verdict_cases}
use ant_cache.Cli.Passwords.{
  AuthInput, Account, change_password, auth_subcommand, auth_parts, handle_auth_command, to_lower,
}

-- What was typed first is a password that VerifyPassword accepts.
abbrev pub IsVerified : Crypto → AuthInput → AuthManager → Option Text → Type 0
IsVerified crypto input am file =
    (current : Text) × (input.typed 0 ≡ ok current)
    × (verify_password crypto none am file current ≡ valid)

module _ (crypto : Crypto) (input : AuthInput) (am : AuthManager) (text : Text) where
  -- The file is as it was, or the current password was given.
  abbrev pub IsGuarded : Account → Type 0
  IsGuarded account = (account.file ≡ some text) ⊎ IsVerified crypto input am (some text)

  IsGuarded-if :
      (b : Bool) (x y : Account) → IsGuarded x → IsGuarded y → IsGuarded (if b then x else y)
  IsGuarded-if true x y hx hy = hx
  IsGuarded-if false x y hx hy = hy

  IsGuarded-on :
      (b : Bool) (x y : Account) → b ≡ true → IsGuarded x → IsGuarded (if b then x else y)
  IsGuarded-on true x y on hx = hx
  IsGuarded-on false x y on hx = cc on

  change_password-IsGuarded :
      IsGuarded (change_password crypto input am (some text) (input.typed 0))
  change_password-IsGuarded = elim (typed_cases (input.typed 0)) [
    | inr (e, bad) ↦ inl (ap (λ r. (change_password crypto input am (some text) r).file) bad)
    | inl (current, given) ↦
        elim (verdict_cases (verify_password crypto none am (some text) current)) [
          | inl good ↦ inr (current, given, good)
          | inr (inl wrong) ↦ inl (rw (given, wrong) refl)
          | inr (inr (e, broken)) ↦ inl (rw (given, broken) refl)
        ]
  ]

  auth_subcommand-IsGuarded :
      (sub : Text) → am.enabled ≡ true → IsGuarded (auth_subcommand crypto input am (some text) sub)
  unfolding has_password
  auth_subcommand-IsGuarded sub on =
      let there : am.enabled && true ≡ true = ground (arith, on) in
      IsGuarded-if (text_eq sub (codes "setup")) _ _
        (IsGuarded-on (am.enabled && true) _ _ there (inl refl))
        (IsGuarded-if (text_eq sub (codes "change")) _ _
          (IsGuarded-on (am.enabled && true) _ _ there change_password-IsGuarded) (inl refl))

  auth_parts-IsGuarded :
      (parts : List Text)
      → am.enabled ≡ true
      → IsGuarded (auth_parts crypto input am (some text) parts)
  auth_parts-IsGuarded [] on = inl refl
  auth_parts-IsGuarded (command ∷ []) on = inl refl
  auth_parts-IsGuarded (command ∷ sub ∷ rest) on = auth_subcommand-IsGuarded (to_lower sub) on

  -- Where a password is set, an AUTH command of the client leaves the password file as it was, unless
  -- what was typed first is a password that VerifyPassword accepts.
  pub handle_auth_command-IsGuarded :
      (parts : List Text)
      → am.enabled ≡ true
      → IsGuarded (handle_auth_command crypto input (some am) parts (some text))
  unfolding handle_auth_command
  handle_auth_command-IsGuarded parts on =
      IsGuarded-if am.enabled _ _ (auth_parts-IsGuarded parts on) (inl refl)
