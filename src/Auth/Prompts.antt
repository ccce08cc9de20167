-- ===== src/Auth/Prompts.antt =====
-- auth/auth.go: SetupPassword and Authenticate, which ask for passwords. What PromptPassword gives
-- is an argument; the error, if there is one, is the result. The password file opens without error.
use ant_cache.Base.{
  if_true, ℕ, zero, suc, ◌+◌, ◌≤◌, ◌<◌, ◌≡◌, refl, sym, ap, ◌∙◌, ◌⊎◌, inl, inr, true, ◌&&◌, Option,
  none, some, ◌++◌, arith, if◌then◌else◌, Text, codes, text_eq, length, ltb,
}
use ant_cache.Auth.{
  AuthManager, Crypto, SetEffects, Verdict, valid, invalid, failed, Result, ok, error, has_password,
  set_password, verify_password,
}

-- What the operator types, prompt by prompt.
abbrev pub Typed : Type 0
Typed = ℕ → Result

abbrev pub set_failed : Option Text × Option Text → Option Text × Option Text
set_failed (none, file) = (none, file)
set_failed (some e, file) = (some (codes "failed to set password: " ++ e), file)

abbrev pub confirm :
    Crypto → SetEffects → AuthManager → Option Text → Text → Result → Option Text × Option Text
confirm crypto effects am file password (error e) = (some e, file)
confirm crypto effects am file password (ok again) =
    if text_eq password again
    then set_failed (set_password crypto effects am password file)
    else (some (codes "passwords do not match"), file)

abbrev pub setup_typed :
    Crypto → SetEffects → AuthManager → Option Text → Typed → Result → Option Text × Option Text
setup_typed crypto effects am file typed (error e) = (some e, file)
setup_typed crypto effects am file typed (ok password) =
    if ltb (length password) 6
    then (some (codes "password must be at least 6 characters long"), file)
    else confirm crypto effects am file password (typed 1)

unfoldable pub setup_password :
    Crypto → SetEffects → AuthManager → Typed → Option Text → Option Text × Option Text
setup_password crypto effects am typed file =
    if am.enabled
    then setup_typed crypto effects am file typed (typed 0)
    else (some (codes "authentication is disabled"), file)

abbrev pub too_many : Text
too_many = codes "authentication failed: maximum attempts exceeded"

abbrev pub on_verdict : Option Text → Verdict → Option Text
on_verdict next valid = none
on_verdict next invalid = next
on_verdict next (failed e) = some (codes "authentication error: " ++ e)

abbrev pub on_typed : Crypto → AuthManager → Option Text → Option Text → Result → Option Text
on_typed crypto am file next (error e) = some e
on_typed crypto am file next (ok password) =
    on_verdict next (verify_password crypto none am file password)

-- `left` attempts, from the prompt `n` on.
unfoldable pub attempts : Crypto → AuthManager → Option Text → Typed → ℕ → ℕ → Option Text
attempts crypto am file typed n zero = some too_many
attempts crypto am file typed n (suc left) =
    on_typed crypto am file (attempts crypto am file typed (suc n) left) (typed n)

unfoldable pub authenticate :
    Crypto → SetEffects → AuthManager → Typed → Option Text → Option Text × Option Text
unfolding setup_password attempts has_password
authenticate crypto effects am typed file =
    if am.enabled
    then (if has_password am file
        then (attempts crypto am file typed 0 3, file)
        else setup_password crypto effects am typed file)
    else (none, file)

-- One of the next prompts gives a password that VerifyPassword accepts.
abbrev pub IsAccepted : Crypto → AuthManager → Option Text → Typed → ℕ → ℕ → Type 0
IsAccepted crypto am file typed n left =
    (i : ℕ) × (password : Text) × (n ≤ i)
    × (i < n + left)
    × (typed i ≡ ok password)
    × (verify_password crypto none am file password ≡ valid)

pub typed_cases : (r : Result) → ((p : Text) × (r ≡ ok p)) ⊎ ((e : Text) × (r ≡ error e))
typed_cases (ok p) = inl (p, refl)
typed_cases (error e) = inr (e, refl)

pub verdict_cases : (v : Verdict) → (v ≡ valid) ⊎ ((v ≡ invalid) ⊎ ((e : Text) × (v ≡ failed e)))
verdict_cases valid = inl refl
verdict_cases invalid = inr (inl refl)
verdict_cases (failed e) = inr (inr (e, refl))

attempts-IsAccepted :
    (crypto : Crypto) (am : AuthManager) (file : Option Text) (typed : Typed) (n left : ℕ)
    → attempts crypto am file typed n left ≡ none
    → IsAccepted crypto am file typed n left
unfolding attempts
attempts-IsAccepted crypto am file typed n zero h = cc h
attempts-IsAccepted crypto am file typed n (suc left) h = elim (typed_cases (typed n)) [
  | inr (e, bad) ↦ cc (rw bad at h)
  | inl (p, given) ↦ elim (verdict_cases (verify_password crypto none am file p)) [
    | inl good ↦ (n, p, omega arith, omega arith, given, good)
    | inr (inl wrong) ↦
        let (i, q, low, high, e, good) =
          attempts-IsAccepted crypto am file typed (suc n) left (rw (given, wrong) at h) in
        (i, q, omega arith, omega arith, e, good)
    | inr (inr (e, broken)) ↦ cc (rw (given, broken) at h)
  ]
]

authenticate_set :
    (crypto : Crypto) (effects : SetEffects) (am : AuthManager) (typed : Typed) (text : Text)
    → am.enabled ≡ true
    → authenticate crypto effects am typed (some text)
      ≡ (attempts crypto am (some text) typed 0 3, some text)
unfolding authenticate has_password
authenticate_set crypto effects am typed text on =
    if_true am.enabled _ _ on ∙ if_true (am.enabled && true) _ _ (ground (arith, on))

-- Where a password is set, Authenticate ends without an error only if one of the first three answers
-- to its prompts is a password that VerifyPassword accepts, and it leaves the password file alone.
pub authenticate-IsAccepted :
    (crypto : Crypto) (effects : SetEffects) (am : AuthManager) (typed : Typed) (text : Text)
    → am.enabled ≡ true
    → (authenticate crypto effects am typed (some text)).0 ≡ none
    → IsAccepted crypto am (some text) typed 0 3
      × ((authenticate crypto effects am typed (some text)).1 ≡ some text)
authenticate-IsAccepted crypto effects am typed text on h =
    let e = authenticate_set crypto effects am typed text on in
    (
      attempts-IsAccepted crypto am (some text) typed 0 3 (sym (ap (λ r. r.0) e) ∙ h),
      ap (λ r. r.1) e,
    )
