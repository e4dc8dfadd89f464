-- ===== src/SignIn/Gate.antt =====
-- The check before every request in server mode: `_auth_check` of app/server.py.
pub mod Sound
use cert_generator.Prelude.{
  ℕ, Bool, true, false, not, ◌&&◌, ◌||◌, Option, none, some, is_some, is_empty, List, [], ◌∷◌, any,
  starts_with, if◌then◌else◌, Text, codes, text_eq,
}
use cert_generator.Accounts.{User, Accounts, has_users, session_user}
use cert_generator.SignIn.{Library, Cookie, cleared, World, Moment, session_of}
use cert_generator.SignIn.Trust.{auto_login_from_trust_cookie}

-- what is known of a request: its path and method, whether its headers are those of another site's
-- page (`is_cross_site_request`), and the trust cookie
pub record Request : Type 0 where
  pub path : Text
  pub method : Text
  pub cross_site : Bool
  pub trust_token : Option Text

-- the request goes on, with `g.user`, or is answered
pub data Verdict : Type 0 where
  goes_on : Option User → Verdict
  to_page : Text → Verdict
  forbidden unauthorized : Verdict

abbrev pub is_safe_method : Text → Bool
is_safe_method m = any (text_eq m) (codes "GET" ∷ codes "HEAD" ∷ codes "OPTIONS" ∷ [])

-- the paths that need no sign-in
abbrev pub is_public : Text → Bool
is_public path =
    any (text_eq path)
      (codes "/login" ∷ codes "/setup" ∷ codes "/logout" ∷ codes "/mfa" ∷ codes "/favicon.ico" ∷ [])
    || starts_with path (codes "/static/")
    || starts_with path (codes "/crl/")
    || starts_with path (codes "/api/pal/v1/")
    || text_eq path (codes "/pal/CertGeneratorPal.exe")

-- `session.get("user")` as a test
abbrev pub has_user : Cookie → Bool
has_user c = elim c.user [ none ↦ false | some name ↦ not (is_empty name) ]

-- `_session_user`, which clears a session that is revoked
unfoldable pub session_user_or_clear : World → Cookie → Option User × Cookie
session_user_or_clear w c = elim (session_user (session_of c) w.accounts) [
  | some user ↦ (some user, c)
  | none ↦ (none, if has_user c then cleared else c)
]

module _ (lib : Library) where
  unfoldable pub signed_in_user : Moment → Request → World → Cookie → Option User × Cookie
  signed_in_user now r w c =
      let (user, c') = session_user_or_clear w c in
      elim user [
        | some u ↦ (some u, c')
        | none ↦ auto_login_from_trust_cookie lib now r.trust_token w c'
      ]

  abbrev pub verdict_of : Text → Option User × Cookie → Verdict × Cookie
  verdict_of path (some user, c) = (goes_on (some user), c)
  verdict_of path (none, c) =
      (if starts_with path (codes "/api/") then unauthorized else to_page (codes "/login"), c)

  unfoldable pub auth_check : Moment → Request → World → Cookie → Verdict × Cookie
  auth_check now r w c =
      if not (is_safe_method r.method) && r.cross_site
      then (forbidden, c)
      else if is_public r.path
      then (goes_on none, c)
      else if not (has_users w.accounts)
      then (to_page (codes "/setup"), c)
      else if is_some c.mfa_pending
      then (to_page (codes "/mfa"), c)
      else verdict_of r.path (signed_in_user now r w c)
