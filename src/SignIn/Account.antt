-- ===== src/SignIn/Account.antt =====
-- The account API: app/routes/account.py. Every handler is for the signed-in user, `g.user`, and
-- answers 401 without one; the fields of the JSON body have their types.
pub mod Sound
use cert_generator.Prelude.{
  ℕ, Bool, true, false, not, ◌&&◌, ◌||◌, Option, none, some, all, is_empty, length, ltb, ◌==◌,
  if◌then◌else◌, Text, codes, strip, Result, ok, refuse,
}
use cert_generator.Security.AttemptLimiter.{retry_after, failure, success}
use cert_generator.Security.Totp.{verify_totp, returns, type_error as compare_error}
use cert_generator.Accounts.{
  User, Accounts, verify_user, update_user_totp, delete_trusted_devices, delete_trusted_device,
  bump_session_version, update_user_require_password,
}
use cert_generator.Vault.{Vault, maybe_encrypt}
use cert_generator.SignIn.{
  Library, auth_limiter, Cookie, World, Moment, Outcome, Answer, done, refused, raised, locked_out,
  answered, vault_error, type_error, Failure, mark_reauthenticated,
}
use cert_generator.SignIn.Mfa.{get_totp_secret, claim_code}

-- `@login_required`
abbrev pub login_required : Option User → World → Cookie → (User → Outcome) → Outcome
login_required none w c view = answered w c (refused 401 (codes "Not authenticated"))
login_required (some user) w c view = view user

-- `_revoke_other_sessions`: the session is kept at the new version
unfoldable pub revoke_other_sessions : ℕ → World → Cookie → World × Cookie
revoke_other_sessions id w c =
    let (accounts, sv) = bump_session_version id w.accounts in
    (record w { accounts = accounts }, record c { sv = sv })

module _ (lib : Library) where
  -- `_reauth_code_ok`
  unfoldable pub reauth_code_ok : Moment → User → Text → World → Result Failure (World × Bool)
  reauth_code_ok now user code w =
      if not user.totp_enabled || not (length code == 6) || not (all lib.is_digit code)
      then ok (w, false)
      else elim (get_totp_secret lib user none w.vault) [
        | refuse error ↦ refuse error
        | ok secret ↦ claim_code lib now code user secret w
      ]

  -- below the lockout
  unfoldable pub confirm_user : Moment → User → Text → World → Cookie → Outcome
  confirm_user now user entered w c =
      let key = lib.login_key (lib.lower user.username) in
      elim (reauth_code_ok now user (strip entered) w) [
        | refuse error ↦ answered w c (raised error)
        | ok (w', code_ok) ↦
            if not (code_ok || verify_user lib.accounts user.username entered w'.accounts)
            then answered
                (record w' { limiter = failure (auth_limiter lib) now.at_failure key w'.limiter }) c
                (refused 400 (codes "That password or code isn't right"))
            else answered (record w' { limiter = success key w'.limiter })
                (mark_reauthenticated now.time c) done
      ]

  unfoldable pub reauth : Moment → Option User → Text → World → Cookie → Outcome
  reauth now current entered w c = login_required current w c λ user.
      let wait = retry_after now.at_check (lib.login_key (lib.lower user.username)) w.limiter in
      if is_empty (strip entered)
      then answered w c (
          refused 400 (
            if user.totp_enabled
            then codes "Enter your password or authenticator code"
            else codes "Enter your password"))
      else if ltb 0 wait
      then answered w c (locked_out wait)
      else confirm_user now user entered w c

  unfoldable pub mfa_setup : Moment → Option User → World → Cookie → Outcome
  mfa_setup now current w c = login_required current w c λ user.
      if user.totp_enabled
      then answered w c (refused 400 (codes "MFA is already enabled"))
      else answered w (record c { mfa_setup_secret = some now.secret }) done

  -- the secret is stored, and every other session and every trusted device is ended
  unfoldable pub enable_mfa : ℕ → User → Text → World → Cookie → Outcome
  enable_mfa step user secret w c = elim (maybe_encrypt lib.crypto secret w.vault) [
    | refuse error ↦ answered w c (raised (vault_error error))
    | ok (sealed, vault) ↦
        let stored = update_user_totp user.id (some sealed) true step w.accounts in
        let accounts = (delete_trusted_devices user.id stored).0 in
        let (w', c') =
          revoke_other_sessions user.id (record w { accounts = accounts; vault = vault }) c in
        answered w' (record c' { mfa_setup_secret = none }) done
  ]

  unfoldable pub mfa_confirm : Moment → Option User → Text → World → Cookie → Outcome
  mfa_confirm now current typed w c = login_required current w c λ user.
      let code = strip typed in
      elim c.mfa_setup_secret [
        | none ↦ answered w c (refused 400 (codes "No MFA setup in progress"))
        | some secret ↦
            if is_empty secret
            then answered w c (refused 400 (codes "No MFA setup in progress"))
            else if is_empty code
            then answered w c (refused 400 (codes "Verification code is required"))
            else elim (verify_totp lib.is_digit (lib.otp secret) code 0 now.step) [
              | compare_error ↦ answered w c (raised type_error)
              | returns none ↦ answered w c (
                  refused 400 (
                    codes "Invalid verification code. Check your authenticator app and try again."))
              | returns (some step) ↦ enable_mfa step user secret w c
            ]
      ]

  -- below the password
  unfoldable pub disable_checked : Moment → User → Text → World → Cookie → Outcome
  disable_checked now user code w c = elim (get_totp_secret lib user none w.vault) [
    | refuse error ↦ answered w c (raised error)
    | ok secret ↦ elim (claim_code lib now code user secret w) [
      | refuse error ↦ answered w c (raised error)
      | ok (w', claimed) ↦
          let key = lib.mfa_key user.id in
          if not claimed
          then answered
              (record w' { limiter = failure (auth_limiter lib) now.at_failure key w'.limiter }) c
              (refused 400 (codes "Invalid verification code"))
          else (let stored = update_user_totp user.id none false 0 w'.accounts in
              let accounts = (delete_trusted_devices user.id stored).0 in
              let w'' : World = record w' {
                accounts = accounts;
                limiter = success key w'.limiter;
              } in
              let (w3, c3) = revoke_other_sessions user.id w'' c in answered w3 c3 done)
    ]
  ]

  unfoldable pub mfa_disable : Moment → Option User → Text → Text → World → Cookie → Outcome
  mfa_disable now current password typed w c = login_required current w c λ user.
      let code = strip typed in
      let key = lib.mfa_key user.id in
      let wait = retry_after now.at_check key w.limiter in
      if not user.totp_enabled
      then answered w c (refused 400 (codes "MFA is not enabled"))
      else if is_empty password || is_empty code
      then answered w c (refused 400 (codes "Password and verification code are required"))
      else if ltb 0 wait
      then answered w c (locked_out wait)
      else if not (verify_user lib.accounts user.username password w.accounts)
      then answered (record w { limiter = failure (auth_limiter lib) now.at_failure key w.limiter })
          c (refused 400 (codes "Invalid password"))
      else disable_checked now user code w c

unfoldable pub account_require_password : Option User → Bool → World → Cookie → Outcome
account_require_password current require w c = login_required current w c λ user.
    answered (record w { accounts = update_user_require_password user.id require w.accounts }) c
      done

unfoldable pub mfa_revoke_devices : Option User → World → Cookie → Outcome
mfa_revoke_devices current w c = login_required current w c λ user.
    let accounts = (delete_trusted_devices user.id w.accounts).0 in
    let (w', c') = revoke_other_sessions user.id (record w { accounts = accounts }) c in
    answered w' c' done

unfoldable pub delete_device : Option User → ℕ → World → Cookie → Outcome
delete_device current device_id w c = login_required current w c λ user.
    let (accounts, deleted) = delete_trusted_device device_id user.id w.accounts in
    if deleted
    then answered (record w { accounts = accounts }) c done
    else answered (record w { accounts = accounts }) c (refused 404 (codes "Device not found"))
