-- ===== src/Auth/Stored.antt =====
-- auth/auth.go: a password that SetPassword stores and VerifyPassword checks.
use ant_cache.Base.{
  ℕ, ◌≡◌, refl, ap, ◌∙◌, true, Option, none, [], ◌∷◌, ◌++◌, arith, if◌then◌else◌, Text, text_eq,
  length, All,
}
use ant_cache.Strings.Split.{Without}
use ant_cache.Strings.{scan_lines}
use ant_cache.Strings.Lines.{IsLine, scan_lines-unlines}
use ant_cache.Strings.Fields.{trim_space_id}
use ant_cache.Utils.Quotes.{trim_space}
use ant_cache.Auth.Hex.{
  hex_encode, hex_decode-encode, hex_encode-IsHex, IsHex, IsByte, length-hex_encode,
}
use ant_cache.Auth.{
  AuthManager, Crypto, SetEffects, valid, invalid, ok, set_password, verify_password, compared,
  check_lines, password_text,
}

-- 32 bytes: SaltLength and KeyLength.
abbrev pub IsKey : Text → Type 0
IsKey s = All IsByte s × (length s ≡ 32)

-- A text of hexadecimal digits has a last one.
last-IsHex :
    (a : ℕ) (r : Text) → All IsHex (a ∷ r) → (t : Text) × (b : ℕ) × (a ∷ r ≡ t ++ b ∷ []) × IsHex b
last-IsHex a [] (h, _) = ([], a, refl, h)
last-IsHex a (c ∷ r) (h, hs) =
    let (t, b, e, hb) = last-IsHex c r hs in (a ∷ t, b, ap (λ (s : Text). a ∷ s) e, hb)

hex-Without : (s : Text) → All IsHex s → Without 10 s
hex-Without [] h = tt
hex-Without (c ∷ s) (hc, h) = (omega arith, hex-Without s h)

-- A line of hexadecimal digits is scanned whole and not trimmed.
hex-IsLine : (s : Text) → All IsHex s → length s ≡ 64 → IsLine s × (trim_space s ≡ s)
hex-IsLine [] h size = absurd (omega arith)
hex-IsLine (a ∷ r) h size =
    let (t, b, e, hb) = last-IsHex a r h in
    (
      (hex-Without (a ∷ r) h, omega arith, (t, b, e, omega arith)),
      trim_space_id a b r t (omega (arith, h.0)) (omega arith) e,
    )

key-IsLine :
    (s : Text) → IsKey s → IsLine (hex_encode s) × (trim_space (hex_encode s) ≡ hex_encode s)
key-IsLine s (bytes, size) =
    hex-IsLine (hex_encode s) (hex_encode-IsHex s bytes) (omega (arith, length-hex_encode s))

-- What VerifyPassword makes of the text that SetPassword writes.
check_lines-password_text :
    (crypto : Crypto) (salt p q : Text)
    → IsKey salt
    → IsKey (crypto.key p salt)
    → check_lines crypto q (scan_lines (password_text crypto salt p)).0
      ≡ compared (crypto.key q salt) (crypto.key p salt)
check_lines-password_text crypto salt p q hs hk =
    let (line1, trim1) = key-IsLine salt hs in
    let (line2, trim2) = key-IsLine (crypto.key p salt) hk in
    ap (λ x. check_lines crypto q x.0)
      (scan_lines-unlines (hex_encode salt ∷ hex_encode (crypto.key p salt) ∷ [])
        (line1, (line2, tt)))
    ∙ rw (trim1, trim2, hex_decode-encode salt hs.0, hex_decode-encode (crypto.key p salt) hk.0)
        refl

-- Where no step of SetPassword fails, it stores a password that VerifyPassword checks: of a text it
-- answers whether its key for the stored salt is the key of the password that was set. The salt and
-- that key are 32 bytes.
pub verify_password-set_password :
    (crypto : Crypto) (effects : SetEffects) (am : AuthManager) (p q salt : Text)
    (file : Option Text)
    → am.enabled ≡ true
    → effects.salt ≡ ok salt
    → effects.create_error ≡ none
    → effects.write_error ≡ none
    → IsKey salt
    → IsKey (crypto.key p salt)
    → ((set_password crypto effects am p file).0 ≡ none)
      × (verify_password crypto none am (set_password crypto effects am p file).1 q
          ≡ (if text_eq (crypto.key q salt) (crypto.key p salt) then valid else invalid))
unfolding set_password verify_password
verify_password-set_password crypto effects am p q salt file on random create write hs hk =
    rw (on, random, create, write) (refl, check_lines-password_text crypto salt p q hs hk)
