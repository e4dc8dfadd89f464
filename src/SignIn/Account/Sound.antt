-- ===== src/SignIn/Account/Sound.antt =====
-- What the account API asks for, and what it ends: app/routes/account.py and app/web.py.
use cert_generator.Prelude.{
  ℕ, ◌+◌, ◌<◌, ◌≤◌, ◌≡◌, ◌↔◌, refl, Bool, true, false, not, inl, inr, Option, none, some, List, [],
  ◌∷◌, any, find, update_where, delete_where, Text, strip, ltb, arith, Bool-cases, is_empty, ◌||◌,
  ◌&&◌, Result, ok, refuse, ◌==◌, if◌then◌else◌,
}
use cert_generator.Security.AttemptLimiter.{retry_after}
use cert_generator.Accounts.{
  User, Trusted, is_named, has_user_id, get_user, get_user_by_id, session_user, verify_user, bump,
  bump_session_version, delete_trusted_devices,
}
use cert_generator.SignIn.{
  Library, Cookie, World, Moment, Failure, done, start_session, session_of, reauth_rejection,
}
use cert_generator.SignIn.Mfa.{get_totp_secret, claim_code}
use cert_generator.SignIn.Mfa.Sound.{IsCode, claim_code-IsCode}
use cert_generator.SignIn.Account.{
  revoke_other_sessions, mfa_revoke_devices, mfa_disable, disable_checked,
}

-- A session may receive key material exactly in the 300 seconds from a sign-in by password or code;
-- a session that a trusted device started may not. (In server mode, while nothing confirms the
-- session anew.)
pub reauth_rejection-start_session :
    (current : Option User) (user : User) (authenticated : Bool) (at time : ℕ)
    → (reauth_rejection false current time (start_session user authenticated at) ≡ none)
      ↔ ((authenticated ≡ true) × (at ≤ time) × (time < at + 300))
unfolding reauth_rejection start_session
reauth_rejection-start_session current user true at time =
    (λ h. ground (arith, h), λ h. ground (arith, h))
reauth_rejection-start_session current user false at time =
    (λ h. ground (arith, h), λ h. ground (arith, h))

find-update_where {ℓ} :
    {A : Type ℓ} (p q : A → Bool) (f : A → A) (x : A)
    → ((y : A) → p (f y) ≡ p y)
    → (xs : List A) → find p xs ≡ some x
    → find p (update_where q f xs) ≡ some (if q x then f x else x)
find-update_where p q f x keep [] h = cc
find-update_where p q f x keep (y ∷ ys) h = elim (Bool-cases (p y)) [
  | inl hit ↦ ground (arith, h, hit, keep y)
  | inr miss ↦ ground (arith, h, miss, keep y, find-update_where p q f x keep ys)
]

any-delete_where {ℓ} : {A : Type ℓ} (p : A → Bool) (xs : List A) → any p (delete_where p xs) ≡ false
any-delete_where p [] = refl
any-delete_where p (x ∷ xs) = ground (arith, any-delete_where p xs)

module _ (w : World) (c : Cookie) (user : User)
    (known : get_user user.username w.accounts ≡ some user)
    (own : get_user_by_id user.id w.accounts ≡ some user) (signed_in : c.user ≡ some user.username)
    (named : is_empty user.username ≡ false) where
  -- After mfa_revoke_devices, the user's other sessions are no sessions any more, the session of the
  -- request goes on, and the user has no trusted device.
  pub mfa_revoke_devices-ends_sessions :
      let r = mfa_revoke_devices (some user) w c in
      (session_user
          (record { user = some user.username; sv = user.session_version })
          r.world.accounts
        ≡ none)
      × (session_user (session_of r.cookie) r.world.accounts ≡ some (bump user))
      × (any (λ (t : Trusted). t.user_id == user.id) r.world.accounts.trusted ≡ false)
  unfolding mfa_revoke_devices revoke_other_sessions session_user bump_session_version get_user
      get_user_by_id delete_trusted_devices
  mfa_revoke_devices-ends_sessions =
      let by_name =
        find-update_where (is_named user.username) (has_user_id user.id) bump user (λ u. refl)
          w.accounts.users known in
      let by_id =
        find-update_where (has_user_id user.id) (has_user_id user.id) bump user (λ u. refl)
          w.accounts.users own in
      (
        ground (arith, by_name, by_id, named),
        ground (arith, by_name, by_id, named, signed_in),
        any-delete_where (λ (t : Trusted). t.user_id == user.id) w.accounts.trusted,
      )

module _ (lib : Library) (now : Moment) where
  disable_checked-IsCode :
      (user : User) (code : Text) (w : World) (c : Cookie)
      → (disable_checked lib now user code w c).answer ≡ done
      → IsCode lib now code user w
  unfolding disable_checked
  disable_checked-IsCode user code w c h = read_as (get_totp_secret lib user none w.vault) refl
    where
      claimed_as :
          (secret : Option Text)
          → get_totp_secret lib user none w.vault ≡ ok secret
          → (r : Result Failure (World × Bool)) → claim_code lib now code user secret w ≡ r
          → IsCode lib now code user w
      claimed_as secret e (refuse error) k = ground (arith, h, e, k)
      claimed_as secret e (ok (w1, false)) k = ground (arith, h, e, k)
      claimed_as secret e (ok (w1, true)) k =
          claim_code-IsCode lib now code user none secret w w1 e k

      read_as :
          (r : Result Failure (Option Text))
          → get_totp_secret lib user none w.vault ≡ r
          → IsCode lib now code user w
      read_as (refuse error) e = ground (arith, h, e)
      read_as (ok secret) e = claimed_as secret e (claim_code lib now code user secret w) refl

  -- what it takes to switch the authenticator off
  pub record IsConfirmed (password typed : Text) (user : User) (w : World) : Type 0 where
    pub has_totp : user.totp_enabled ≡ true
    pub not_locked : retry_after now.at_check (lib.mfa_key user.id) w.limiter ≡ 0
    pub right : verify_user lib.accounts user.username password w.accounts ≡ true
    pub code : IsCode lib now (strip typed) user w

  -- If mfa_disable answers that it is done, then the user had an authenticator and was not locked
  -- out, the password was right, and the code was one that was not used before.
  pub mfa_disable-IsConfirmed :
      (user : User) (password typed : Text) (w : World) (c : Cookie)
      → (mfa_disable lib now (some user) password typed w c).answer ≡ done
      → IsConfirmed password typed user w
  unfolding mfa_disable
  mfa_disable-IsConfirmed user password typed w c h =
      let wait = retry_after now.at_check (lib.mfa_key user.id) w.limiter in
      let right = verify_user lib.accounts user.username password w.accounts in
      elim (Bool-cases (
        user.totp_enabled
        && not (is_empty password || is_empty (strip typed))
        && not (ltb 0 wait)
        && right)) [
          | inr missing ↦ ground (arith, h, missing)
          | inl all_there ↦ record {
            has_totp = ground (arith, all_there);
            not_locked = ground (arith, all_there);
            right = ground (arith, all_there);
            code = disable_checked-IsCode user (strip typed) w c (ground (arith, h, all_there));
          }
        ]
