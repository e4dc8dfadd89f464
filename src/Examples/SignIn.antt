-- ===== src/Examples/SignIn.antt =====
-- Runs of the sign-in handlers.
use cert_generator.Prelude.{◌≡◌, refl, true, false, none, some, [], ◌∷◌, codes, text_eq, strip, ◌⊎◌}
use cert_generator.Accounts
use cert_generator.Accounts.{
  User, Accounts, Trusted, Session, session_user, get_user, get_user_by_id, bump, verify_user,
  claim_totp_step, update_user_totp, delete_trusted_devices, bump_session_version, has_users,
}
use cert_generator.Vault
use cert_generator.Vault.{Vault, Rows, Settings, decrypt_with}
use cert_generator.Security.AttemptLimiter.{retry_after}
use cert_generator.Security.Totp.{verify_totp}
use cert_generator.SignIn
use cert_generator.SignIn.{
  Cookie, cleared, World, Moment, done, reauth_rejection, start_session, session_of,
}
use cert_generator.SignIn.Login.{LoginForm, login}
use cert_generator.SignIn.Login.Sound as LoginSound
use cert_generator.SignIn.Mfa.{MfaForm, mfa_verify, get_totp_secret, claim_code}
use cert_generator.SignIn.Mfa.Sound as MfaSound
use cert_generator.SignIn.Account.{mfa_disable, disable_checked}
use cert_generator.SignIn.Account.Sound.{mfa_disable-IsConfirmed, IsConfirmed}
use cert_generator.SignIn.Gate.{
  Request, goes_on, auth_check, signed_in_user, session_user_or_clear, is_safe_method,
}
use cert_generator.SignIn.Gate.Sound.{IsAdmitted, auth_check-IsAdmitted}

abbrev crypto : Vault.Crypto
crypto = record {
  token_bytes = λ size n. [];
  choice = λ alphabet n. b'0';
  scrypt = λ password salt. password;
  hkdf = λ secret salt. secret;
  encrypt = λ key n p a. p;
  decrypt = λ key n c a. some c;
  upper = λ s. s;
}

abbrev lib : SignIn.Library
lib = record {
  accounts = record { encode = λ s. s; hashpw = λ salt p. p; checkpw = text_eq };
  crypto = crypto;
  lower = λ s. s;
  is_digit = λ c. true;
  otp = λ secret step. codes "123456";
  sha256_hex = λ s. s;
  login_key = λ s. "login";
  mfa_key = λ id. "mfa";
  tick = 1;
}

abbrev now : Moment
now = record {
  at_check = 10;
  at_failure = 10;
  utc = 1000;
  time = 1000;
  step = 33;
  token = codes "token";
  salt = 1;
  secret = codes "secret";
}

abbrev admin : User
admin = record {
  id = 1;
  username = codes "admin";
  password_hash = codes "open sesame";
  totp_secret = some (codes "SECRET");
  totp_enabled = true;
  totp_last_step = 20;
  require_password = false;
  session_version = 3;
}

abbrev phone : Trusted
phone = record {
  id = 1;
  user_id = 1;
  token_hash = codes "phone token";
  expires_at = 5000;
  label = codes "phone";
}

abbrev no_settings : Settings
no_settings = record {
  encryption_salt = none;
  encryption_verify = none;
  encryption_wrapped_key = none;
  recovery_salt = none;
  recovery_wrapped_key = none;
  login_username = none;
  cloudflare_token = none;
  pal_relay_key = none;
  pal_relay_token = none;
}

abbrev world : World
world = record {
  accounts = record { users = admin ∷ []; user_seq = 2; trusted = phone ∷ []; trusted_seq = 2 };
  vault = record {
    rows = record {
      ca_keys = [];
      cert_keys = [];
      ssh_keys = [];
      code_keys = [];
      totp_secrets = [];
    };
    settings = no_settings;
    master = none;
    drawn = 0;
  };
  limiter = [];
}

abbrev form : LoginForm
form = record {
  is_get = false;
  username = codes " admin";
  password = codes "open sesame";
  trust_device = false;
  user_agent = [];
}

login-IsSound_example :
    LoginSound.IsSound lib now form world cleared (login lib false now form world cleared).cookie
login-IsSound_example = LoginSound.login-IsSound lib now form false world cleared

abbrev pending : Cookie
pending = record cleared { mfa_pending = some 1 }

abbrev mfa_form : MfaForm
mfa_form = record {
  is_get = false;
  code = codes "123456";
  recovery_key = [];
  new_password = [];
  confirm_password = [];
  encryption_password = [];
  trust_device = false;
  user_agent = [];
}

mfa_verify-IsSound_example :
    MfaSound.IsSound lib now mfa_form world pending
      (mfa_verify lib false now mfa_form world pending)
mfa_verify-IsSound_example = MfaSound.mfa_verify-IsSound lib now false mfa_form world pending

abbrev session : Cookie
session = record cleared { user = some (codes "admin"); sv = 3 }

abbrev request : Request
request = record { path = codes "/"; method = codes "GET"; cross_site = false; trust_token = none }

admitted : auth_check lib now request world session ≡ (goes_on (some admin), session)
unfolding auth_check signed_in_user session_user_or_clear session_user get_user has_users
admitted = refl

auth_check-IsAdmitted_example :
    ((is_safe_method request.method ≡ true) ⊎ (request.cross_site ≡ false))
    × IsAdmitted lib now request world session (some admin) session
auth_check-IsAdmitted_example =
    auth_check-IsAdmitted lib now request world session (some admin) session admitted

known : get_user (codes "admin") world.accounts ≡ some admin
unfolding get_user
known = refl

own : get_user_by_id 1 world.accounts ≡ some admin
unfolding get_user_by_id
own = refl

disabled :
    (mfa_disable lib now (some admin) (codes "open sesame") (codes "123456") world session).answer
    ≡ done
unfolding mfa_disable disable_checked strip retry_after verify_user Accounts.password_bytes
    get_totp_secret decrypt_with claim_code verify_totp claim_totp_step
disabled = refl

mfa_disable-IsConfirmed_example :
    IsConfirmed lib now (codes "open sesame") (codes "123456") admin world
mfa_disable-IsConfirmed_example =
    mfa_disable-IsConfirmed lib now admin (codes "open sesame") (codes "123456") world session
      disabled
