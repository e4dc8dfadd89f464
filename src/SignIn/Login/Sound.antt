-- ===== src/SignIn/Login/Sound.antt =====
-- What it takes to sign in by the login page: app/routes/auth.py.
use cert_generator.Prelude.{
  ◌≡◌, refl, sym, subst, ◌∙◌, Bool, true, false, ◌⊎◌, inl, inr, none, some, Text, strip, ltb, arith,
  Bool-cases, Option-cases, is_empty, ◌||◌, if◌then◌else◌,
}
use cert_generator.Security.AttemptLimiter.{retry_after, success}
use cert_generator.Accounts.{User, verify_user, get_user}
use cert_generator.SignIn.{Library, Cookie, cleared, World, Moment, start_session}
use cert_generator.SignIn.Trust.{create_trust_cookie-cookie}
use cert_generator.SignIn.Login.{LoginForm, sign_in, check_password, login}

module _ (lib : Library) (now : Moment) (form : LoginForm) where
  -- what a new session cookie of the login page stands for: the password of the user was right, and
  -- it is a session of the user, or the authenticator code is asked for
  pub record IsSignedIn (w : World) (c' : Cookie) : Type 0 where
    pub user : User
    pub known : get_user (strip form.username) w.accounts ≡ some user
    pub right : verify_user lib.accounts (strip form.username) form.password w.accounts ≡ true
    pub not_locked :
        retry_after now.at_check (lib.login_key (lib.lower (strip form.username))) w.limiter ≡ 0
    pub started :
        ((user.totp_enabled ≡ false) × (c' ≡ start_session user true now.time))
        ⊎ ((user.totp_enabled ≡ true)
            × (c' ≡ record cleared { mfa_pending = some user.id; mfa_trust = form.trust_device }))

  -- the cookie that the login page gives to a user
  abbrev new_cookie : User → Cookie
  new_cookie user =
      if user.totp_enabled
      then record cleared { mfa_pending = some user.id; mfa_trust = form.trust_device }
      else start_session user true now.time

  sign_in-cookie :
      (username : Text) (w : World) (c : Cookie) (user : User)
      → get_user username w.accounts ≡ some user
      → (sign_in lib now form username w c).cookie ≡ new_cookie user
  unfolding sign_in
  sign_in-cookie username w c user e = elim (Bool-cases user.totp_enabled) [
    | inl totp ↦ rw (sign_in, e, totp) refl
    | inr plain ↦ elim (Bool-cases form.trust_device) [
      | inr forget ↦ rw (sign_in, e, plain, forget) refl
      | inl trust ↦
          rw (sign_in, e, plain, trust) (create_trust_cookie-cookie lib now form.user_agent user _)
    ]
  ]

  sign_in-unknown :
      (username : Text) (w : World) (c : Cookie)
      → get_user username w.accounts ≡ none
      → (sign_in lib now form username w c).cookie ≡ c
  unfolding sign_in
  sign_in-unknown username w c e = rw (sign_in, e) refl

  -- a cookie that the page left as it was, or one of a user who signed in
  abbrev pub IsSound : World → Cookie → Cookie → Type 0
  IsSound w c c' = (c' ≡ c) ⊎ IsSignedIn w c'

  started_by :
      (user : User)
      → ((user.totp_enabled ≡ false) × (new_cookie user ≡ start_session user true now.time))
        ⊎ ((user.totp_enabled ≡ true)
            × (new_cookie user
                ≡ record cleared { mfa_pending = some user.id; mfa_trust = form.trust_device }))
  started_by user = elim (Bool-cases user.totp_enabled) [
    | inl totp ↦ inr (totp, rw totp refl)
    | inr plain ↦ inl (plain, rw plain refl)
  ]

  check_password-IsSound :
      (w : World) (c : Cookie)
      → IsSound w c (check_password lib now form (strip form.username) w c).cookie
  unfolding check_password
  check_password-IsSound w c =
      let username = strip form.username in
      let key = lib.login_key (lib.lower username) in
      let wait = retry_after now.at_check key w.limiter in
      let freed : World = record w { limiter = success key w.limiter } in
      elim (Bool-cases (ltb 0 wait)) [
        | inl locked ↦ inl (ground (arith, locked))
        | inr free ↦
            elim (Bool-cases (verify_user lib.accounts username form.password w.accounts)) [
              | inr wrong ↦ inl (ground (arith, free, wrong))
              | inl right ↦
                  let passes : (check_password lib now form username w c).cookie
                      ≡ (sign_in lib now form username freed c).cookie =
                    ground (arith, free, right) in
                  elim (Option-cases (get_user username w.accounts)) [
                    | inl unknown ↦ inl (passes ∙ sign_in-unknown username freed c unknown)
                    | inr (user, known) ↦
                        let started = passes ∙ sign_in-cookie username freed c user known in
                        inr (record {
                          user = user;
                          known = known;
                          right = right;
                          not_locked = ground (arith, free);
                          started = rw started (started_by user);
                        })
                  ]
            ]
      ]

  -- The login page leaves the session cookie as it was, or the form had the name and the password of
  -- a user who was not locked out, and the new cookie is a session of that user if there is no
  -- authenticator, and only waits for the code if there is one.
  pub login-IsSound :
      (desktop : Bool) (w : World) (c : Cookie)
      → IsSound w c (login lib desktop now form w c).cookie
  unfolding login
  login-IsSound desktop w c =
      elim (Bool-cases
        (desktop || form.is_get || is_empty (strip form.username) || is_empty form.password)) [
          | inl e ↦ inl (ground (arith, e))
          | inr e ↦
              let checks : (login lib desktop now form w c).cookie
                  ≡ (check_password lib now form (strip form.username) w c).cookie =
                ground (arith, e) in
              subst (IsSound w c) (sym checks) (check_password-IsSound w c)
        ]
