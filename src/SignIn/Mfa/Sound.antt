-- ===== src/SignIn/Mfa/Sound.antt =====
-- What it takes to sign in by the page of the authenticator code: app/routes/auth.py.
use cert_generator.Prelude.{
  All, ℕ, ◌<◌, ◌≤◌, ◌+◌, ◌≡◌, refl, sym, subst, Bool, true, false, ◌⊎◌, inl, inr, Option, none,
  some, Text, strip, ltb, arith, Bool-cases, is_empty, ◌||◌, Result, ok, refuse,
}
use cert_generator.Security.AttemptLimiter.{retry_after}
use cert_generator.Security.Totp.{
  Outcome as Compared, returns, type_error as compare_error, verify_totp, verify_totp_sound,
}
use cert_generator.Accounts.{User, claim_totp_step, get_user_by_id}
use cert_generator.Accounts.Steps.{Reached, claimed-Reached}
use cert_generator.Vault
use cert_generator.Vault.{Vault}
use cert_generator.SignIn.{Library, Cookie, cleared, World, Moment, Outcome, Failure, start_session}
use cert_generator.SignIn.Trust.{create_trust_cookie-cookie}
use cert_generator.SignIn.Mfa.Stored.{IsStored, finish_mfa-IsStored, unlock_after_mfa-IsStored}
use cert_generator.SignIn.Mfa.{
  MfaForm, Check, problem, passed, raises, totp_secret_is_locked, get_totp_secret,
  form_encryption_key, claim_code, check_code, check_mfa_submission, unlock_after_mfa, finish_mfa,
  unlock_and_finish, check_mfa, mfa_verify,
}

module _ (lib : Library) (now : Moment) where
  -- a code of the user's authenticator, of a step within one of the clock that is claimed now and
  -- was not used before
  pub record IsCode (code : Text) (user : User) (w : World) : Type 0 where
    pub key : Option Text
    pub secret : Text
    pub step : ℕ
    pub read : get_totp_secret lib user key w.vault ≡ ok (some secret)
    pub typed : lib.otp secret step ≡ code
    pub near : (step ≤ now.step + 1) × (now.step ≤ step + 1)
    pub unused : user.totp_last_step < step
    pub claimed : (claim_totp_step user.id step w.accounts).1 ≡ true

  claim_code-claimed :
      (code : Text) (user : User) (secret : Option Text) (w w' : World)
      → claim_code lib now code user secret w ≡ ok (w', true)
      → (s : Text) × (step : ℕ) × (secret ≡ some s)
        × (verify_totp lib.is_digit (lib.otp s) code user.totp_last_step now.step
            ≡ returns (some step))
        × ((claim_totp_step user.id step w.accounts).1 ≡ true)
        × (w'.accounts ≡ (claim_totp_step user.id step w.accounts).0)
  unfolding claim_code
  claim_code-claimed code user none w w' h = ground (arith, h)
  claim_code-claimed code user (some s) w w' h =
      compared (verify_totp lib.is_digit (lib.otp s) code user.totp_last_step now.step) refl
    where
      compared :
          (r : Compared (Option ℕ))
          → verify_totp lib.is_digit (lib.otp s) code user.totp_last_step now.step ≡ r
          → (t : Text) × (step : ℕ) × (some s ≡ some t)
            × (verify_totp lib.is_digit (lib.otp t) code user.totp_last_step now.step
                ≡ returns (some step))
            × ((claim_totp_step user.id step w.accounts).1 ≡ true)
            × (w'.accounts ≡ (claim_totp_step user.id step w.accounts).0)
      compared compare_error e = ground (arith, h, e)
      compared (returns none) e = ground (arith, h, e)
      compared (returns (some step)) e =
          (s, step, refl, e, ground (arith, h, e), ground (arith, h, e))

  -- a code whose step is stored as a used one
  abbrev pub IsUsed : Text → User → World → World → Type 0
  IsUsed code user w w' = (c : IsCode code user w) × IsStored user.id c.step w'

  claim_code-IsUsed :
      (code : Text) (user : User) (key secret : Option Text) (w w' : World)
      → get_totp_secret lib user key w.vault ≡ ok secret
      → claim_code lib now code user secret w ≡ ok (w', true)
      → IsUsed code user w w'
  unfolding claim_totp_step
  claim_code-IsUsed code user key secret w w' e c =
      let (s, step, is_s, verified, claimed, accounts) =
        claim_code-claimed code user secret w w' c in
      let sound =
        verify_totp_sound lib.is_digit (lib.otp s) code user.totp_last_step now.step verified in
      (
        record {
          key = key;
          secret = s;
          step = step;
          read = rw (← is_s) e;
          typed = sound.3;
          near = (sound.1, sound.2);
          unused = sound.0;
          claimed = claimed;
        },
        subst (λ a. All (Reached user.id step) a.users) (sym accounts)
            (claimed-Reached user.id step w.accounts.users),
      )

  pub claim_code-IsCode :
      (code : Text) (user : User) (key secret : Option Text) (w w' : World)
      → get_totp_secret lib user key w.vault ≡ ok secret
      → claim_code lib now code user secret w ≡ ok (w', true)
      → IsCode code user w
  claim_code-IsCode code user key secret w w' e c =
      (claim_code-IsUsed code user key secret w w' e c).0

  check_code-IsUsed :
      (code : Text) (user : User) (key : Option Text) (w w' : World) (k : Option Text)
      → check_code lib now code user key w ≡ passed w' k
      → IsUsed code user w w'
  unfolding check_code
  check_code-IsUsed code user key w w' k h = read_as (get_totp_secret lib user key w.vault) refl
    where
      claimed_as :
          (secret : Option Text)
          → get_totp_secret lib user key w.vault ≡ ok secret
          → (r : Result Failure (World × Bool)) → claim_code lib now code user secret w ≡ r
          → IsUsed code user w w'
      claimed_as secret e (refuse error) c = ground (arith, h, e, c)
      claimed_as secret e (ok (w1, false)) c = ground (arith, h, e, c)
      claimed_as secret e (ok (w1, true)) c =
          let (used, stored) = claim_code-IsUsed code user key secret w w1 e c in
          let same : w'.accounts ≡ w1.accounts = ground (arith, h, e, c) in (used, rw same stored)

      read_as :
          (r : Result Failure (Option Text))
          → get_totp_secret lib user key w.vault ≡ r
          → IsUsed code user w w'
      read_as (refuse error) e = ground (arith, h, e)
      read_as (ok secret) e = claimed_as secret e (claim_code lib now code user secret w) refl

  form_encryption_key-accounts :
      (form : MfaForm) (id : ℕ) (w w1 : World) (key : Option Text)
      → form_encryption_key lib now form id w ≡ passed w1 key
      → w1.accounts ≡ w.accounts
  unfolding form_encryption_key
  form_encryption_key-accounts form id w w1 key h = ground arith

  -- every passed check of the form is a code that is stored as a used one
  check_mfa_submission-IsUsed :
      (form : MfaForm) (user : User) (locked : Bool) (w w' : World) (k : Option Text)
      → check_mfa_submission lib now form user locked w ≡ passed w' k
      → (w1 : World) × (w1.accounts ≡ w.accounts) × IsUsed (strip form.code) user w1 w'
  unfolding check_mfa_submission
  check_mfa_submission-IsUsed form user locked w w' k h =
      elim (Bool-cases (is_empty (strip form.code))) [
        | inl blank ↦ ground (arith, h, blank)
        | inr typed ↦ elim (Bool-cases locked) [
          | inr unlocked ↦ (
            w,
            refl,
            check_code-IsUsed (strip form.code) user none w w' k
                (ground (arith, h, typed, unlocked)),
          )
          | inl shut ↦ keyed_as typed shut (form_encryption_key lib now form user.id w) refl
        ]
      ]
    where
      keyed_as :
          is_empty (strip form.code) ≡ false
          → locked ≡ true
          → (r : Check) → form_encryption_key lib now form user.id w ≡ r
          → (w1 : World) × (w1.accounts ≡ w.accounts) × IsUsed (strip form.code) user w1 w'
      keyed_as typed shut (problem w1 message) e = ground (arith, h, typed, shut, e)
      keyed_as typed shut (raises w1 error) e = ground (arith, h, typed, shut, e)
      keyed_as typed shut (passed w1 key) e = (
        w1,
        form_encryption_key-accounts form user.id w w1 key e,
        check_code-IsUsed (strip form.code) user key w1 w' k (ground (arith, h, typed, shut, e)),
      )

  -- The cookie of the page: it is left as it was, or cleared when no code is waited for, or it is a
  -- session of the user whose password was right before.
  -- The step of the code is stored as a used one.
  pub record IsVerified (form : MfaForm) (w w' : World) (c c' : Cookie) : Type 0 where
    pub id : ℕ
    pub user : User
    pub pending : c.mfa_pending ≡ some id
    pub known : get_user_by_id id w.accounts ≡ some user
    pub has_totp : user.totp_enabled ≡ true
    pub not_locked : retry_after now.at_check (lib.mfa_key user.id) w.limiter ≡ 0
    pub unlocked : World
    pub same_accounts : unlocked.accounts ≡ w.accounts
    pub code : IsCode (strip form.code) user unlocked
    pub stored : IsStored user.id code.step w'
    pub started : c' ≡ start_session user true now.time

  abbrev pub IsSound : MfaForm → World → Cookie → Outcome → Type 0
  IsSound form w c o = (o.cookie ≡ c) ⊎ (o.cookie ≡ cleared) ⊎ IsVerified form w o.world c o.cookie

  finish_mfa-cookie :
      (form : MfaForm) (user : User) (c : Cookie) (w : World) (recovery_key : Option Text)
      → (finish_mfa lib now form user c w recovery_key).cookie ≡ start_session user true now.time
  unfolding finish_mfa
  finish_mfa-cookie form user c w recovery_key =
      elim (Bool-cases (form.trust_device || c.mfa_trust)) [
        | inr forget ↦ rw (finish_mfa, forget) refl
        | inl trust ↦
            rw (finish_mfa, trust) (create_trust_cookie-cookie lib now form.user_agent user _)
      ]

  -- a session that starts leaves the used step stored
  abbrev IsStarted : ℕ → User → Cookie → World → Outcome → Type 0
  IsStarted step user c w o =
      (o.cookie ≡ c)
      ⊎ ((o.cookie ≡ start_session user true now.time) × IsStored user.id step o.world)

  unlock_and_finish-IsStarted :
      (step : ℕ) (form : MfaForm) (user : User) (c : Cookie) (w : World) (key : Option Text)
      → IsStored user.id step w
      → IsStarted step user c w (unlock_and_finish lib now form user c w key)
  unfolding unlock_and_finish
  unlock_and_finish-IsStarted step form user c w none stored = inr (
    finish_mfa-cookie form user c w none,
    finish_mfa-IsStored user.id step lib now form user c w none stored,
  )
  unlock_and_finish-IsStarted step form user c w (some key) stored =
      unlocked_as (unlock_after_mfa lib form w) refl
    where
      unlocked_as :
          (u : Result Vault.Error (World × Option Text))
          → unlock_after_mfa lib form w ≡ u
          → IsStarted step user c w (unlock_and_finish lib now form user c w (some key))
      unlocked_as (ok (w', recovery_key)) e = inr (
        rw (unlock_and_finish, e) (finish_mfa-cookie form user c w' recovery_key),
        rw (unlock_and_finish, e)
            (finish_mfa-IsStored user.id step lib now form user c w' recovery_key
              (unlock_after_mfa-IsStored user.id step lib form w w' recovery_key e stored)),
      )
      unlocked_as (refuse error) e = inl (ground (arith, e))

  check_mfa-IsSound :
      (form : MfaForm) (w : World) (c : Cookie) (id : ℕ) (user : User)
      → c.mfa_pending ≡ some id
      → get_user_by_id id w.accounts ≡ some user
      → user.totp_enabled ≡ true
      → IsSound form w c (check_mfa lib now form user w c)
  unfolding check_mfa
  check_mfa-IsSound form w c id user pending known has_totp =
      let wait = retry_after now.at_check (lib.mfa_key user.id) w.limiter in
      elim (Bool-cases (ltb 0 wait)) [
        | inl locked ↦ inl (ground (arith, locked))
        | inr free ↦
            checked_as free
              (check_mfa_submission lib now form user (totp_secret_is_locked user w.vault) w) refl
      ]
    where
      checked_as :
          ltb 0 (retry_after now.at_check (lib.mfa_key user.id) w.limiter) ≡ false
          → (r : Check)
          → check_mfa_submission lib now form user (totp_secret_is_locked user w.vault) w ≡ r
          → IsSound form w c (check_mfa lib now form user w c)
      checked_as free (problem w1 message) e = inl (ground (arith, free, e))
      checked_as free (raises w1 error) e = inl (ground (arith, free, e))
      checked_as free (passed w1 key) e =
          let (w2, same, used) =
            check_mfa_submission-IsUsed form user (totp_secret_is_locked user w.vault) w w1 key e in
          let passes : check_mfa lib now form user w c
              ≡ unlock_and_finish lib now form user c w1 key =
            ground (arith, free, e) in
          subst (IsSound form w c) (sym passes)
            (elim (unlock_and_finish-IsStarted used.0.step form user c w1 key used.1) [
              | inl kept ↦ inl kept
              | inr (started, still) ↦ inr (
                  inr (record {
                    id = id;
                    user = user;
                    pending = pending;
                    known = known;
                    has_totp = has_totp;
                    not_locked = ground (arith, free);
                    unlocked = w2;
                    same_accounts = same;
                    code = used.0;
                    stored = still;
                    started = started;
                  }))
            ])

  -- The page of the code leaves the session cookie as it was, or clears it, or it starts a session
  -- of the user whose password was right before, who is not locked out, and has typed a code of
  -- the authenticator that belongs to a step within one of the clock and was not used before. After
  -- that, the last used step that is stored for the user is that step or a later one.
  pub mfa_verify-IsSound :
      (desktop : Bool) (form : MfaForm) (w : World) (c : Cookie)
      → IsSound form w c (mfa_verify lib desktop now form w c)
  unfolding mfa_verify
  mfa_verify-IsSound desktop form w c = elim (Bool-cases desktop) [
    | inl app ↦ inl (ground (arith, app))
    | inr server ↦ pending_as server c.mfa_pending refl
  ]
    where
      known_as :
          desktop ≡ false
          → (id : ℕ) → c.mfa_pending ≡ some id
          → (o : Option User) → get_user_by_id id w.accounts ≡ o
          → IsSound form w c (mfa_verify lib desktop now form w c)
      known_as server id pending none e = inr (inl (ground (arith, server, pending, e)))
      known_as server id pending (some user) e = elim (Bool-cases user.totp_enabled) [
        | inr off ↦ inr (inl (ground (arith, server, pending, e, off)))
        | inl on ↦ elim (Bool-cases form.is_get) [
          | inl get ↦ inl (ground (arith, server, pending, e, on, get))
          | inr post ↦
              let checks : mfa_verify lib desktop now form w c ≡ check_mfa lib now form user w c =
                ground (arith, server, pending, e, on, post) in
              subst (IsSound form w c) (sym checks)
                (check_mfa-IsSound form w c id user pending e on)
        ]
      ]

      pending_as :
          desktop ≡ false
          → (o : Option ℕ) → c.mfa_pending ≡ o
          → IsSound form w c (mfa_verify lib desktop now form w c)
      pending_as server none e = inl (ground (arith, server, e))
      pending_as server (some id) e = known_as server id e (get_user_by_id id w.accounts) refl
