-- ===== src/SignIn/Login.antt =====
-- The sign-in and set-up pages: app/routes/auth.py.
pub mod Sound
use cert_generator.Prelude.{
  ℕ, Bool, true, false, not, ◌&&◌, ◌||◌, Option, none, some, is_empty, is_some, length, ltb,
  if◌then◌else◌, Text, codes, text_eq, strip, Result, ok, refuse,
}
use cert_generator.Security.AttemptLimiter.{retry_after, failure, success}
use cert_generator.Accounts.{
  User, Accounts, verify_user, get_user, cleanup_expired_devices, has_users, create_first_user,
  password_too_long, delete_trusted_device_by_token,
}
use cert_generator.SignIn.{
  Library, auth_limiter, Cookie, cleared, World, Moment, Outcome, Answer, redirect, page,
  locked_out, answered, start_session, kept, set, deleted,
}
use cert_generator.SignIn.Trust.{create_trust_cookie, hash_token}

-- the method and the fields of the form, and the browser's User-Agent
pub record LoginForm : Type 0 where
  pub is_get : Bool
  pub username : Text
  pub password : Text
  pub trust_device : Bool
  pub user_agent : Text

pub record SetupForm : Type 0 where
  pub is_get : Bool
  pub username : Text
  pub password : Text
  pub confirm : Text
  pub setup_token : Text

abbrev pub no_match : Text
no_match = codes "Invalid username or password"

module _ (lib : Library) where
  -- below the check of the password
  unfoldable pub sign_in : Moment → LoginForm → Text → World → Cookie → Outcome
  unfolding start_session create_trust_cookie
  sign_in now form username w c = elim (get_user username w.accounts) [
    | none ↦ answered w c (page 200 (some no_match))
    | some user ↦
        let w' : World = record w { accounts = (cleanup_expired_devices now.utc w.accounts).0 } in
        if user.totp_enabled
        then answered w'
            (record cleared { mfa_pending = some user.id; mfa_trust = form.trust_device })
            (redirect (codes "/mfa"))
        else (let r = answered w' (start_session user true now.time) (redirect (codes "/")) in
            if form.trust_device then create_trust_cookie lib now form.user_agent user r else r)
  ]

  -- the lockout, and the password
  unfoldable pub check_password : Moment → LoginForm → Text → World → Cookie → Outcome
  check_password now form username w c =
      let key = lib.login_key (lib.lower username) in
      let wait = retry_after now.at_check key w.limiter in
      if ltb 0 wait
      then answered w c (locked_out wait)
      else if not (verify_user lib.accounts username form.password w.accounts)
      then answered (record w { limiter = failure (auth_limiter lib) now.at_failure key w.limiter })
          c (page 200 (some no_match))
      else sign_in now form username (record w { limiter = success key w.limiter }) c

  -- `desktop` is `state.desktop_mode()`
  unfoldable pub login : Bool → Moment → LoginForm → World → Cookie → Outcome
  login desktop now form w c =
      let username = strip form.username in
      if desktop
      then answered w c (redirect (codes "/"))
      else if form.is_get
      then answered w c (page 200 none)
      else if is_empty username || is_empty form.password
      then answered w c (page 200 (some (codes "Username and password are required")))
      else check_password now form username w c

  unfoldable pub setup_form_error : Text → Text → Text → Option Text
  setup_form_error username password confirm =
      if is_empty username || ltb 100 (length username)
      then some (codes "Username is required (max 100 chars)")
      else if ltb (length password) 8
      then some (codes "Password must be at least 8 characters")
      else if password_too_long lib.accounts password
      then some (codes "Password must be at most 72 bytes")
      else if not (text_eq password confirm)
      then some (codes "Passwords do not match")
      else none

  -- from the call of `db.create_first_user` on
  unfoldable pub create_admin : Moment → Text → Text → World → Cookie → Outcome
  create_admin now username password w c =
      let (accounts, created) =
        create_first_user lib.accounts now.salt username password w.accounts in
      let w' : World = record w { accounts = accounts } in
      if not created
      then answered w' c (redirect (codes "/login"))
      else elim (get_user username accounts) [
        | none ↦ answered w' c (redirect (codes "/"))
        | some user ↦ answered w' (start_session user true now.time) (redirect (codes "/"))
      ]

  -- whether `SETUP_TOKEN` is set, and is not what the form gives
  abbrev wrong_token : Option Text → Text → Bool
  wrong_token none given = false
  wrong_token (some expected) given = not (is_empty expected) && not (text_eq given expected)

  unfoldable pub setup : Bool → Option Text → Moment → SetupForm → World → Cookie → Outcome
  setup desktop expected now form w c =
      let username = strip form.username in
      if desktop || has_users w.accounts
      then answered w c (redirect (codes "/"))
      else if form.is_get
      then answered w c (page 200 none)
      else if wrong_token expected form.setup_token
      then answered w c (page 403 (some (codes "Invalid setup token")))
      else elim (setup_form_error username form.password form.confirm) [
        | some problem ↦ answered w c (page 200 (some problem))
        | none ↦ create_admin now username form.password w c
      ]

  unfoldable pub logout : Bool → Option Text → World → Cookie → Outcome
  logout is_get trust_token w c = if is_get then answered w c (redirect (codes "/")) else record {
    world = elim trust_token [
      | none ↦ w
      | some token ↦ if is_empty token then w else record w {
        accounts = (delete_trusted_device_by_token (hash_token lib token) w.accounts).0;
      }
    ];
    cookie = cleared;
    answer = redirect (codes "/login");
    trust = deleted;
  }

-- `_AUTH_NEXT`, and where the desktop window is sent
abbrev next_page : Option Text → Text
next_page none = codes "/"
next_page (some next) =
    if text_eq next (codes "/guide/cert") || text_eq next (codes "/guide/ssh")
    then next
    else codes "/"

-- `app_token` is `state.app_token`; the page to go to and the cookie with the token, or the status
-- of the refusal
unfoldable pub app_token_cookie : Option Text → Text → Option Text → Result ℕ (Text × Text)
app_token_cookie none token next = refuse 404
app_token_cookie (some app_token) token next =
    if text_eq token app_token then ok (next_page next, app_token) else refuse 403
