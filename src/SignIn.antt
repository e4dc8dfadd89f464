-- ===== src/SignIn.antt =====
-- Signing in to the web interface: app/routes/auth.py, app/routes/account.py, the sessions of app/web.py
-- and the check before every request of app/server.py. A handler runs as one step.
pub mod Trust
pub mod Login
pub mod Mfa
pub mod Account
pub mod Gate
use cert_generator.Prelude.{
  ℕ, ◌+◌, ◌-◌, ◌*◌, Bool, true, false, not, ◌&&◌, ◌||◌, Option, none, some, List, [], ◌∷◌, length,
  is_empty, ltb, leb, if◌then◌else◌, String, Text, codes, text_eq, strip,
}
use cert_generator.Security.AttemptLimiter.{Config, Limiter}
use cert_generator.Accounts.{Accounts, User, Session}
use cert_generator.Accounts
use cert_generator.Vault
use cert_generator.Vault.{Vault}

-- What is outside the repository. A limiter's key is an `str`, made by the two functions.
pub record Library : Type 0 where
  pub accounts : Accounts.Library
  pub crypto : Vault.Crypto
  pub lower : Text → Text  -- `str.lower`
  pub is_digit : ℕ → Bool  -- `str.isdigit`, of one code point
  pub otp : Text → ℕ → Text  -- `pyotp.TOTP(secret).generate_otp`
  pub sha256_hex : Text → Text
  pub login_key : Text → String  -- f"login:{name}"
  pub mfa_key : ℕ → String  -- f"mfa:{id}"
  pub tick : ℕ  -- ticks of `time.monotonic` to a second

-- `auth_limiter`
abbrev pub auth_limiter : Library → Config
auth_limiter lib = record {
  max_failures = 5;
  base_lockout = 60 * lib.tick;
  max_lockout = 900 * lib.tick;
  window = 900 * lib.tick;
  max_keys = 10000;
}

-- the session cookie, which is signed
pub record Cookie : Type 0 where
  pub user : Option Text
  pub sv : ℕ
  pub reauth_at : Option ℕ
  pub mfa_pending : Option ℕ
  pub mfa_trust : Bool
  pub mfa_setup_secret : Option Text

-- `session.clear()`
abbrev pub cleared : Cookie
cleared = record {
  user = none;
  sv = 0;
  reauth_at = none;
  mfa_pending = none;
  mfa_trust = false;
  mfa_setup_secret = none;
}

-- what the handlers share: the tables, the keys and the limiter
pub record World : Type 0 where
  pub accounts : Accounts
  pub vault : Vault
  pub limiter : Limiter

-- the times that a handler reads, and what it draws
pub record Moment : Type 0 where
  pub at_check : ℕ  -- `time.monotonic()` in `retry_after`
  pub at_failure : ℕ  -- and in `failure`
  pub utc : ℕ  -- of app/db.py, in seconds
  pub time : ℕ  -- `int(time.time())`
  pub step : ℕ  -- the time step of the authenticator codes
  pub token : Text  -- `secrets.token_urlsafe(32)`
  pub salt : ℕ  -- of bcrypt
  pub secret : Text  -- `pyotp.random_base32()`

-- what a handler raises
pub data Failure : Type 0 where
  vault_error : Vault.Error → Failure
  type_error integrity_error : Failure

pub data Answer : Type 0 where
  redirect : Text → Answer
  page : ℕ → Option Text → Answer  -- the page of the form: its status and its error
  locked_out : ℕ → Answer  -- 429, with the message for this wait
  recovery_page : Text → Answer  -- the page that shows a new recovery key
  done : Answer  -- the JSON {"ok": true}, with what it counts
  refused : ℕ → Text → Answer  -- a JSON error
  reauth_required : Bool → Answer  -- 403, and whether an authenticator code will do
  raised : Failure → Answer

-- the trust cookie of the browser
pub data TrustCookie : Type 0 where
  kept : TrustCookie
  set : Text → TrustCookie
  deleted : TrustCookie

pub record Outcome : Type 0 where
  pub world : World
  pub cookie : Cookie
  pub answer : Answer
  pub trust : TrustCookie

abbrev pub answered : World → Cookie → Answer → Outcome
answered w c a = record { world = w; cookie = c; answer = a; trust = kept }

-- app/web.py ------------------------------------------------------------------------------------

abbrev pub reauth_window_seconds : ℕ
reauth_window_seconds = 300

unfoldable pub start_session : User → Bool → ℕ → Cookie
start_session user authenticated_now time = record cleared {
  user = some user.username;
  sv = user.session_version;
  reauth_at = if authenticated_now then some time else none;
}

abbrev pub mark_reauthenticated : ℕ → Cookie → Cookie
mark_reauthenticated time c = record c { reauth_at = some time }

-- `0 <= time.time() - reauth_at < REAUTH_WINDOW_SECONDS`, at a whole second
abbrev is_recent : Option ℕ → ℕ → Bool
is_recent none time = false
is_recent (some at) time = leb at time && ltb (time - at) reauth_window_seconds

-- `none` lets the request on; `user` is `g.user`
unfoldable pub reauth_rejection : Bool → Option User → ℕ → Cookie → Option Answer
reauth_rejection desktop user time c =
    if desktop || is_recent c.reauth_at time
    then none
    else some (reauth_required (elim user [ none ↦ false | some u ↦ u.totp_enabled ]))

unfoldable pub new_password_error : Text → Text → Text → Option Text
new_password_error password confirm empty_message =
    if is_empty password
    then some empty_message
    else if not (text_eq password confirm)
    then some (codes "Passwords do not match")
    else if ltb (length password) 8
    then some (codes "Password must be at least 8 characters")
    else none

abbrev pub session_of : Cookie → Session
session_of c = record { user = c.user; sv = c.sv }
