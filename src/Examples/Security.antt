-- ===== src/Examples/Security.antt =====
-- Runs of app/security.py.
use cert_generator.Prelude.{
  ℕ, ◌≤◌, ◌≡◌, refl, true, false, none, some, List, [], ◌∷◌, arith, leb, ◌==◌, if◌then◌else◌,
  String, Text, codes, str_eq, ◌↔◌, Bool, ◌&&◌, ◌||◌, all, ltb, split_on, strip,
}
use cert_generator.Security.AttemptLimiter
use cert_generator.Security.AttemptLimiter.{Limiter, Entry, failure, success, retry_after}
use cert_generator.Security.AttemptLimiter.Lockout.{fail_all, retry_after-fail_all}
use cert_generator.Security.AttemptLimiter.Unlock.{Call, fail}
use cert_generator.Security.RateLimiter
use cert_generator.Security.RateLimiter.{allow}
use cert_generator.Security.RateLimiter.Quota.{hits, hits-le-limit}
use cert_generator.Security.Totp.{returns, type_error, verify_totp, verify_totp_raises}
use cert_generator.Security.CrossSite.{
  Headers, is_cross_site_request, IsSameSite, is_cross_site_request_iff,
}

-- the limits of the sign-in pages
abbrev sign_in : AttemptLimiter.Config
sign_in = record {
  max_failures = 5;
  base_lockout = 60;
  max_lockout = 900;
  window = 900;
  max_keys = 10000;
}

abbrev tiny : AttemptLimiter.Config
tiny = record sign_in { max_keys = 1 }

abbrev entry : ℕ → ℕ → Entry
entry n t = record { count = n; last = t; locked_until = 0 }

abbrev two_keys : Limiter
two_keys = ("a", entry 1 10) ∷ ("b", entry 2 20) ∷ []

-- the oldest keys go first
failure-two_keys : failure tiny 30 "c" two_keys ≡ ("c", entry 1 30) ∷ []
unfolding failure
failure-two_keys = refl

-- the seventh failure in a row: 60 * 2 ^ 2 seconds from its time
retry_after-fail_all_example :
    retry_after 100 "a" (fail_all sign_in "a" (1 ∷ 2 ∷ 3 ∷ 4 ∷ 5 ∷ 70 ∷ 100 ∷ []) []) ≡ 240
retry_after-fail_all_example =
    retry_after-fail_all sign_in "a" 1 100 (2 ∷ 3 ∷ 4 ∷ 5 ∷ 70 ∷ 100 ∷ []) [] refl (omega arith)
      (omega arith)

abbrev some_calls : List Call
some_calls = fail 1 "a" ∷ fail 2 "b" ∷ fail 3 "a" ∷ []

abbrev two_a_minute : RateLimiter.Config
two_a_minute = record { limit = 2; window = 60; max_keys = 3 }

abbrev asks : List (ℕ × String)
asks = (100, "a") ∷ (101, "b") ∷ (110, "a") ∷ (120, "a") ∷ []

hits-asks : hits two_a_minute "a" asks [] ≡ 2
unfolding hits allow
hits-asks = refl

hits-le-limit_example : hits two_a_minute "a" asks [] ≤ 2
hits-le-limit_example =
    hits-le-limit two_a_minute 100 "a" asks [] (record { once = λ k. omega arith }) tt (omega arith)
      (omega arith)

abbrev ascii_digit : ℕ → Bool
ascii_digit c = leb b'0' c && leb c b'9'

-- every step has the code 123456, but step 7
abbrev otp : ℕ → Text
otp step = if step == 7 then codes "777777" else codes "123456"

verify_totp-seven : verify_totp ascii_digit otp (codes "777777") 5 6 ≡ returns (some 7)
unfolding verify_totp
verify_totp-seven = refl

otp_is_ascii : (s : ℕ) → all (λ (c : ℕ). ltb c 128) (otp s) ≡ true
otp_is_ascii s = ground arith

-- a superscript one is a digit to `str.isdigit`
abbrev wide_digit : ℕ → Bool
wide_digit c = ascii_digit c || c == 0xb9

abbrev superscripts : Text
superscripts = 0xb9 ∷ 0xb9 ∷ 0xb9 ∷ 0xb9 ∷ 0xb9 ∷ 0xb9 ∷ []

verify_totp_raises_example : verify_totp wide_digit otp superscripts 5 6 ≡ type_error
verify_totp_raises_example =
    verify_totp_raises wide_digit otp superscripts 5 6 refl refl refl (omega arith)

abbrev netloc : Text → Text
netloc origin = origin

abbrev from_app : Headers
from_app name = if str_eq name "Sec-Fetch-Site" then some (codes "same-origin") else none

abbrev from_proxy : Headers
from_proxy name =
    if str_eq name "Origin"
    then some (codes "ca.lan")
    else if str_eq name "X-Forwarded-Host"
    then some (codes "x, ca.lan")
    else none

from_proxy_allowed : is_cross_site_request netloc (codes "inner") from_proxy ≡ false
unfolding is_cross_site_request split_on strip
from_proxy_allowed = refl

is_cross_site_request_iff_example :
    (is_cross_site_request netloc (codes "inner") from_proxy ≡ false)
    ↔ IsSameSite netloc
        (codes "inner")
        (from_proxy "Sec-Fetch-Site")
        (from_proxy "Origin")
        (from_proxy "X-Forwarded-Host")
is_cross_site_request_iff_example = is_cross_site_request_iff netloc (codes "inner") from_proxy
