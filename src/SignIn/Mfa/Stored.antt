-- ===== src/SignIn/Mfa/Stored.antt =====
-- app/routes/auth.py: the step of the code stays stored while the page of the code goes on.
use cert_generator.Prelude.{
  ℕ, ◌≡◌, subst, Option, none, some, List, [], ◌∷◌, Text, strip, is_empty, any, arith, All,
  Bool-cases, Option-cases, inl, inr, ◌||◌, ok, bind-ok,
}
use cert_generator.Accounts.{User, has_user_id, create_trusted_device}
use cert_generator.Accounts.Steps.{Reached}
use cert_generator.Vault.Changes.{recover_with_key}
use cert_generator.Vault.Keys.{open_with_password}
use cert_generator.SignIn.{Library, Cookie, World, Moment, Outcome}
use cert_generator.SignIn.Trust.{create_trust_cookie}
use cert_generator.SignIn.Mfa.{
  MfaForm, put_secrets, put_secret, rest_after, unlock_with_password, unlock_after_mfa, finish_mfa,
}

-- no row of the user has an earlier step as its last one
abbrev pub IsStored : ℕ → ℕ → World → Type 0
IsStored id step w = All (Reached id step) w.accounts.users

module _ (id step : ℕ) where
  put_secret-Reached :
      (old : Option Text) (secrets : List Text) (u : User)
      → Reached id step u
      → Reached id step (put_secret old secrets u)
  unfolding put_secret
  put_secret-Reached none secrets u h = h
  put_secret-Reached (some old) [] u h = h
  put_secret-Reached (some old) (s ∷ secrets) u h = h

  put_secrets-Reached :
      (secrets : List Text) (users : List User)
      → All (Reached id step) users
      → All (Reached id step) (put_secrets secrets users)
  unfolding put_secrets
  put_secrets-Reached secrets [] h = tt
  put_secrets-Reached secrets (u ∷ users) h = (
    put_secret-Reached u.totp_secret secrets u h.0,
    put_secrets-Reached (rest_after u.totp_secret secrets) users h.1,
  )

  module _ (lib : Library) where
    create_trust_cookie-IsStored :
        (now : Moment) (ua : Text) (user : User) (r : Outcome)
        → IsStored id step r.world
        → IsStored id step (create_trust_cookie lib now ua user r).world
    unfolding create_trust_cookie create_trusted_device
    create_trust_cookie-IsStored now ua user r h =
        elim (Bool-cases (any (has_user_id user.id) r.world.accounts.users)) [
          | inl e ↦ rw (create_trust_cookie, e) h
          | inr e ↦ rw (create_trust_cookie, e) h
        ]

    pub finish_mfa-IsStored :
        (now : Moment) (form : MfaForm) (user : User) (c : Cookie) (w : World)
        (recovery_key : Option Text)
        → IsStored id step w
        → IsStored id step (finish_mfa lib now form user c w recovery_key).world
    unfolding finish_mfa
    finish_mfa-IsStored now form user c w recovery_key h =
        elim (Bool-cases (form.trust_device || c.mfa_trust)) [
          | inr forget ↦ rw (finish_mfa, forget) h
          | inl trust ↦
              rw (finish_mfa, trust) (create_trust_cookie-IsStored now form.user_agent user _ h)
        ]

    unlock_with_password-IsStored :
        (password : Text) (w w' : World)
        → unlock_with_password lib password w ≡ ok w'
        → IsStored id step w
        → IsStored id step w'
    unfolding unlock_with_password
    unlock_with_password-IsStored password w w' e h =
        let (opened, is_opened, rest) = bind-ok (open_with_password lib.crypto password _) _ w' e in
        elim (Option-cases opened.1) [
          | inl n ↦ ground (arith, rest, n)
          | inr (key, k) ↦
              let same : w'.accounts.users
                  ≡ put_secrets opened.0.rows.totp_secrets w.accounts.users =
                ground (arith, rest, k) in
              rw same (put_secrets-Reached opened.0.rows.totp_secrets w.accounts.users h)
        ]

    pub unlock_after_mfa-IsStored :
        (form : MfaForm) (w w' : World) (recovery_key : Option Text)
        → unlock_after_mfa lib form w ≡ ok (w', recovery_key)
        → IsStored id step w
        → IsStored id step w'
    unfolding unlock_after_mfa
    unlock_after_mfa-IsStored form w w' recovery_key e h =
        elim (Bool-cases (is_empty (strip form.recovery_key))) [
          | inr used ↦
              let (recovered, is_recovered, rest) =
                bind-ok {B = World × Option Text}
                  (recover_with_key lib.crypto (strip form.recovery_key) (strip form.new_password)
                    w.vault)
                  (λ recovered. ok (record w { vault = recovered.0 }, some recovered.1))
                  (w', recovery_key) (ground (arith, e, used)) in
              let same : w'.accounts ≡ w.accounts = ground (arith, rest) in rw same h
          | inl blank ↦
              let (w1, is_w1, rest) =
                bind-ok {B = World × Option Text}
                  (unlock_with_password lib (strip form.encryption_password) w)
                  (λ w1. ok (w1, none)) (w', recovery_key) (ground (arith, e, blank)) in
              let same : w1 ≡ w' = ground (arith, rest) in
              subst (IsStored id step) same
                (unlock_with_password-IsStored (strip form.encryption_password) w w1 is_w1 h)
        ]
