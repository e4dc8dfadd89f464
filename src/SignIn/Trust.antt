-- ===== src/SignIn/Trust.antt =====
-- Trusted devices: app/routes/auth.py.
use cert_generator.Prelude.{
  ℕ, ◌≡◌, arith, ◌+◌, ◌*◌, false, Option, none, some, List, [], ◌∷◌, ◌++◌, is_empty, if◌then◌else◌,
  Text, codes, contains_text,
}
use cert_generator.Accounts.{User, create_trusted_device, verify_trusted_device, get_user}
use cert_generator.SignIn.{
  Library, Cookie, World, Moment, Outcome, set, raised, integrity_error, start_session,
}

abbrev trust_seconds : ℕ
trust_seconds = 30 * 86400

-- the first name that stands in the text in lower case, if any
abbrev first_named : List (Text × Text) → Text → Text → Text
first_named [] ua default = default
first_named ((pattern_of, label) ∷ names) ua default =
    if contains_text pattern_of ua then label else first_named names ua default

abbrev browsers : List (Text × Text)
browsers =
    (codes "firefox", codes "Firefox")
    ∷ (codes "edg", codes "Edge")
    ∷ (codes "chrome", codes "Chrome")
    ∷ (codes "safari", codes "Safari")
    ∷ (codes "opera", codes "Opera")
    ∷ []

abbrev systems : List (Text × Text)
systems =
    (codes "windows", codes "Windows")
    ∷ (codes "iphone", codes "iOS")
    ∷ (codes "ipad", codes "iPadOS")
    ∷ (codes "android", codes "Android")
    ∷ (codes "macintosh", codes "macOS")
    ∷ (codes "mac os", codes "macOS")
    ∷ (codes "linux", codes "Linux")
    ∷ (codes "cros", codes "ChromeOS")
    ∷ []

module _ (lib : Library) where
  unfoldable pub device_label_from_ua : Text → Text
  device_label_from_ua ua =
      if is_empty ua
      then codes "Unknown device"
      else (let ua_lower = lib.lower ua in
          first_named browsers ua_lower (codes "Browser")
          ++ codes " on "
          ++ first_named systems ua_lower (codes "Unknown OS"))

  -- `hash_token` of app/web.py
  abbrev pub hash_token : Text → Text
  hash_token token = lib.sha256_hex token

  -- `_create_trust_cookie`, on a response
  unfoldable pub create_trust_cookie : Moment → Text → User → Outcome → Outcome
  create_trust_cookie now ua user r =
      elim (create_trusted_device user.id (hash_token now.token) (now.utc + trust_seconds)
        (device_label_from_ua ua) r.world.accounts) [
          | none ↦ record r { answer = raised integrity_error }
          | some (accounts, id) ↦ record r {
            world = record r.world { accounts = accounts };
            trust = set now.token;
          }
        ]

  pub create_trust_cookie-cookie :
      (now : Moment) (ua : Text) (user : User) (r : Outcome)
      → (create_trust_cookie now ua user r).cookie ≡ r.cookie
  unfolding create_trust_cookie
  create_trust_cookie-cookie now ua user r = ground arith

  -- `trust_token` is the value of the browser's cookie
  unfoldable pub auto_login_from_trust_cookie :
      Moment → Option Text → World → Cookie → Option User × Cookie
  auto_login_from_trust_cookie now trust_token w c = elim trust_token [
    | none ↦ (none, c)
    | some token ↦
        if is_empty token
        then (none, c)
        else elim (verify_trusted_device now.utc (hash_token token) w.accounts) [
          | none ↦ (none, c)
          | some owner ↦
              if owner.require_password
              then (none, c)
              else elim (get_user owner.username w.accounts) [
                | none ↦ (none, c)
                | some user ↦ (some user, start_session user false now.time)
              ]
        ]
  ]
