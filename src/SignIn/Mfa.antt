-- ===== src/SignIn/Mfa.antt =====
-- The page of the authenticator code: app/routes/auth.py, and the TOTP secret of app/db.py.
pub mod Sound
pub mod Stored
use cert_generator.Prelude.{
  ℕ, Bool, true, false, not, ◌&&◌, ◌||◌, Option, none, some, List, [], ◌∷◌, is_empty, is_none, drop,
  ltb, if◌then◌else◌, Text, codes, strip, Result, ok, refuse, ◌>>=◌,
}
use cert_generator.Security.AttemptLimiter.{retry_after, failure, success}
use cert_generator.Security.Totp.{verify_totp, returns, type_error as compare_error}
use cert_generator.Accounts.{User, Accounts, get_user_by_id, claim_totp_step}
use cert_generator.Vault
use cert_generator.Vault.{Vault, user_error, is_encrypted, decrypt_with}
use cert_generator.Vault.Keys.{key_for_password, key_for_recovery_key, open_with_password}
use cert_generator.Vault.Changes.{recover_with_key}
use cert_generator.SignIn.{
  Library, auth_limiter, Cookie, cleared, World, Moment, Outcome, Answer, redirect, page,
  locked_out, recovery_page, raised, answered, Failure, vault_error, type_error, start_session,
  new_password_error,
}
use cert_generator.SignIn.Trust.{create_trust_cookie}

-- the fields of the form
pub record MfaForm : Type 0 where
  pub is_get : Bool
  pub code : Text
  pub recovery_key : Text
  pub new_password : Text
  pub confirm_password : Text
  pub encryption_password : Text
  pub trust_device : Bool
  pub user_agent : Text

-- what `_check_mfa_submission` finds: a problem, the column key if it was asked for, or an exception
pub data Check : Type 0 where
  problem : World → Text → Check
  passed : World → Option Text → Check
  raises : World → Failure → Check

-- `key or _master_key`
abbrev pub key_or_master : Option Text → Vault → Option Text
key_or_master (some key) v = some key
key_or_master none v = v.master

unfoldable pub totp_secret_is_locked : User → Vault → Bool
totp_secret_is_locked u v =
    is_none v.master && elim u.totp_secret [ none ↦ false | some raw ↦ is_encrypted raw ]

-- the secrets of the users in the rows that `_reencrypt_all` rewrites, and back
abbrev pub secrets_of : List User → List Text
secrets_of [] = []
secrets_of (u ∷ users) = elim u.totp_secret [
  | none ↦ secrets_of users
  | some s ↦ s ∷ secrets_of users
]

unfoldable pub put_secret : Option Text → List Text → User → User
put_secret none secrets u = u
put_secret (some old) [] u = u
put_secret (some old) (s ∷ secrets) u = record u { totp_secret = some s }

unfoldable pub rest_after : Option Text → List Text → List Text
rest_after none secrets = secrets
rest_after (some old) secrets = drop 1 secrets

unfoldable pub put_secrets : List Text → List User → List User
unfolding put_secret rest_after
put_secrets secrets [] = []
put_secrets secrets (u ∷ users) =
    put_secret u.totp_secret secrets u ∷ put_secrets (rest_after u.totp_secret secrets) users

module _ (lib : Library) where
  -- an empty secret counts as none
  unfoldable pub get_totp_secret : User → Option Text → Vault → Result Failure (Option Text)
  get_totp_secret u key v = elim u.totp_secret [
    | none ↦ ok none
    | some raw ↦ elim (decrypt_with lib.crypto (key_or_master key v) raw) [
      | refuse error ↦ refuse (vault_error error)
      | ok secret ↦ ok (if is_empty secret then none else some secret)
    ]
  ]

  -- a limiter that has one more failure of the user
  abbrev pub failed : Moment → ℕ → World → World
  failed now id w = record w {
    limiter = failure (auth_limiter lib) now.at_failure (lib.mfa_key id) w.limiter;
  }

  -- `_form_encryption_key`
  unfoldable pub form_encryption_key : Moment → MfaForm → ℕ → World → Check
  form_encryption_key now form id w =
      let recovery_key = strip form.recovery_key in
      let password = strip form.encryption_password in
      if not (is_empty recovery_key)
      then elim (new_password_error (strip form.new_password) (strip form.confirm_password)
          (codes "Choose a new encryption password")) [
            | some message ↦ problem w message
            | none ↦ elim (key_for_recovery_key lib.crypto w.vault.settings recovery_key) [
              | none ↦ problem (failed now id w) (codes "Invalid recovery key")
              | some key ↦ passed w (some key)
            ]
          ]
      else if is_empty password
      then problem w (codes "Encryption password or recovery key is required")
      else elim (key_for_password lib.crypto w.vault.settings password).0 [
        | none ↦ problem (failed now id w) (codes "Invalid encryption password")
        | some key ↦ passed w (some key)
      ]

  -- the code against a secret: the step that it claims
  unfoldable pub claim_code :
      Moment → Text → User → Option Text → World → Result Failure (World × Bool)
  claim_code now code user secret w = elim secret [
    | none ↦ ok (w, false)
    | some s ↦ elim (verify_totp lib.is_digit (lib.otp s) code user.totp_last_step now.step) [
      | compare_error ↦ refuse type_error
      | returns none ↦ ok (w, false)
      | returns (some step) ↦
          let (accounts, claimed) = claim_totp_step user.id step w.accounts in
          ok (record w { accounts = accounts }, claimed)
    ]
  ]

  -- the code, when the key is known that opens the secret
  unfoldable pub check_code : Moment → Text → User → Option Text → World → Check
  unfolding claim_code
  check_code now code user key w = elim (get_totp_secret user key w.vault) [
    | refuse error ↦ raises w error
    | ok secret ↦ elim (claim_code now code user secret w) [
      | refuse error ↦ raises w error
      | ok (w', claimed) ↦
          if claimed
          then passed (record w' { limiter = success (lib.mfa_key user.id) w'.limiter }) key
          else problem (failed now user.id w') (codes "Invalid verification code")
    ]
  ]

  unfoldable pub check_mfa_submission : Moment → MfaForm → User → Bool → World → Check
  check_mfa_submission now form user locked w =
      let code = strip form.code in
      if is_empty code
      then problem w (codes "Verification code is required")
      else if locked
      then elim (form_encryption_key now form user.id w) [
        | problem w' message ↦ problem w' message
        | raises w' error ↦ raises w' error
        | passed w' key ↦ check_code now code user key w'
      ]
      else check_code now code user none w

  -- `db.open_with_password`, on the tables of the accounts too, and `db.set_master_key`
  unfoldable pub unlock_with_password : Text → World → Result Vault.Error World
  unlock_with_password password w =
      let before : Vault = record w.vault {
        rows = record w.vault.rows { totp_secrets = secrets_of w.accounts.users };
      } in
      open_with_password lib.crypto password before >>= λ opened. elim opened.1 [
        | none ↦ refuse (user_error (codes "Wrong password"))
        | some key ↦ ok (record w {
          vault = record opened.0 { master = some key };
          accounts = record w.accounts {
            users = put_secrets opened.0.rows.totp_secrets w.accounts.users;
          };
        })
      ]

  -- `_unlock_after_mfa`: the new recovery key, if one was used
  unfoldable pub unlock_after_mfa : MfaForm → World → Result Vault.Error (World × Option Text)
  unlock_after_mfa form w =
      let recovery_key = strip form.recovery_key in
      if not (is_empty recovery_key)
      then (recover_with_key lib.crypto recovery_key (strip form.new_password) w.vault
          >>= λ recovered. ok (record w { vault = recovered.0 }, some recovered.1))
      else unlock_with_password (strip form.encryption_password) w >>= λ w'. ok (w', none)

  abbrev page_after : Option Text → Answer
  page_after none = redirect (codes "/")
  page_after (some recovery_key) = recovery_page recovery_key

  -- the end of the handler: the session starts
  unfoldable pub finish_mfa : Moment → MfaForm → User → Cookie → World → Option Text → Outcome
  finish_mfa now form user c w new_recovery_key =
      let r = answered w (start_session user true now.time) (page_after new_recovery_key) in
      if form.trust_device || c.mfa_trust
      then create_trust_cookie lib now form.user_agent user r
      else r

  -- a `ValueError` shows the page again; of these exceptions a UserError is one
  abbrev after_failed_unlock : World → Cookie → Vault.Error → Outcome
  after_failed_unlock w c (user_error message) =
      answered w c (page 200 (some (codes "Unlock failed, try again")))
  after_failed_unlock w c error = answered w c (raised (vault_error error))

  -- after the code: the unlock, if the key was asked for
  unfoldable pub unlock_and_finish :
      Moment → MfaForm → User → Cookie → World → Option Text → Outcome
  unfolding finish_mfa
  unlock_and_finish now form user c w none = finish_mfa now form user c w none
  unlock_and_finish now form user c w (some key) = elim (unlock_after_mfa form w) [
    | ok (w', recovery_key) ↦ finish_mfa now form user c w' recovery_key
    | refuse error ↦ after_failed_unlock w c error
  ]

  -- the lockout, and the code
  unfoldable pub check_mfa : Moment → MfaForm → User → World → Cookie → Outcome
  check_mfa now form user w c =
      let wait = retry_after now.at_check (lib.mfa_key user.id) w.limiter in
      if ltb 0 wait
      then answered w c (locked_out wait)
      else elim (check_mfa_submission now form user (totp_secret_is_locked user w.vault) w) [
        | problem w' message ↦ answered w' c (page 200 (some message))
        | raises w' error ↦ answered w' c (raised error)
        | passed w' key ↦ unlock_and_finish now form user c w' key
      ]

  unfoldable pub mfa_verify : Bool → Moment → MfaForm → World → Cookie → Outcome
  mfa_verify desktop now form w c =
      if desktop then answered w c (redirect (codes "/")) else elim c.mfa_pending [
        | none ↦ answered w c (redirect (codes "/login"))
        | some id ↦ elim (get_user_by_id id w.accounts) [
          | none ↦ answered w cleared (redirect (codes "/login"))
          | some user ↦
              if not user.totp_enabled
              then answered w cleared (redirect (codes "/login"))
              else if form.is_get
              then answered w c (page 200 none)
              else check_mfa now form user w c
        ]
      ]
