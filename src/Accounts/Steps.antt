-- ===== src/Accounts/Steps.antt =====
-- A code of the authenticator app is used once: `claim_totp_step` of app/db.py.
use cert_generator.Prelude.{
  ℕ, ◌+◌, ◌<◌, ◌≤◌, ◌≡◌, ◌≢◌, refl, Bool, true, List, [], ◌∷◌, any, arith, update_where,
  count_where, ltb, ◌==◌, is_empty, Text, All, All-append, Bool-cases, inl, inr,
}
use cert_generator.Accounts.{
  Library, User, Accounts, has_user_id, is_claimable, claim_totp_step, is_named, hash_password,
  create_user, create_first_user, reset_user_password, update_user_totp, bump_session_version,
  update_user_require_password, create_trusted_device, delete_trusted_device,
  delete_trusted_device_by_token, delete_trusted_devices, cleanup_expired_devices, bump, Restored,
  restored_user,
}
use cert_generator.Accounts.Calls.{
  Call, add_user, add_first, reset_password, set_totp, claim, bump_sessions, set_required, trust,
  forget, forget_token, forget_all, cleanup, restore, committed, apply, run, run_induction,
}
use cert_generator.Accounts.Restores.{restore_users-All, restore_users-user_seq}

-- the user of the id has used the step, and the id was given away
record IsUsed (id step : ℕ) (a : Accounts) : Type 0 where
  reached : All (λ (u : User). u.id ≡ id → step ≤ u.totp_last_step) a.users
  given : id < a.user_seq

-- A call other than a new authenticator secret for this user, from its page or from a backup.
abbrev pub IsOther : ℕ → Call → Type 0
IsOther id (set_totp i s e l) = i ≢ id
IsOther id (restore rows) = All (λ (r : Restored). r.id ≢ id) rows
IsOther id (add_first salt n p) = Unit
IsOther id _ = Unit

-- An update that lowers no used step of the user.
All-update :
    (id step : ℕ) (q : User → Bool) (f : User → User)
    → ((u : User)
        → q u ≡ true
        → (u.id ≡ id → step ≤ u.totp_last_step)
        → (f u).id ≡ id
        → step ≤ (f u).totp_last_step)
    → (users : List User) → All (λ (u : User). u.id ≡ id → step ≤ u.totp_last_step) users
    → All (λ (u : User). u.id ≡ id → step ≤ u.totp_last_step) (update_where q f users)
All-update id step q f keep [] h = tt
All-update id step q f keep (u ∷ users) h = elim (Bool-cases (q u)) [
  | inl e ↦ rw e (keep u e h.0, All-update id step q f keep users h.1)
  | inr e ↦ rw e (h.0, All-update id step q f keep users h.1)
]

module _ (id step : ℕ) where
  abbrev pub Reached : User → Type 0
  Reached u = u.id ≡ id → step ≤ u.totp_last_step

  pub claimed-Reached :
      (users : List User)
      → All Reached (
          update_where
            (is_claimable id step)
            (λ (u : User). record u { totp_last_step = step })
            users)
  claimed-Reached [] = tt
  claimed-Reached (u ∷ users) = elim (Bool-cases (is_claimable id step u)) [
    | inl e ↦ rw e (λ same. omega arith, claimed-Reached users)
    | inr e ↦ rw e (λ same. ground (arith, e, same), claimed-Reached users)
  ]

  claim_totp_step-IsUsed :
      (a : Accounts) → id < a.user_seq → IsUsed id step (claim_totp_step id step a).0
  unfolding claim_totp_step
  claim_totp_step-IsUsed a given = record { reached = claimed-Reached a.users; given = given }

  -- an update of users that lowers no used step
  module _ {a : Accounts} (h : IsUsed id step a) where
    update-IsUsed :
        (q : User → Bool) (f : User → User)
        → ((u : User) → q u ≡ true → Reached u → Reached (f u))
        → (b : Accounts) → b.users ≡ update_where q f a.users
        → b.user_seq ≡ a.user_seq
        → IsUsed id step b
    update-IsUsed q f keep b users seq = record {
      reached = rw users (All-update id step q f keep a.users h.reached);
      given = rw seq h.given;
    }

    same-IsUsed : (b : Accounts) → b.users ≡ a.users → b.user_seq ≡ a.user_seq → IsUsed id step b
    same-IsUsed b users seq = record { reached = rw users h.reached; given = rw seq h.given }

    create_user-IsUsed :
        (lib : Library) (salt : ℕ) (name password : Text)
        → IsUsed id step (committed a (create_user lib salt name password a))
    unfolding create_user
    create_user-IsUsed lib salt name password = elim (Bool-cases (any (is_named name) a.users)) [
      | inl taken ↦ rw taken h
      | inr free ↦ rw free (record {
        reached =
            All-append Reached a.users _ h.reached
              (λ same. absurd (omega (arith, h.given, same)), tt);
        given = omega (arith, h.given);
      })
    ]

    create_first_user-IsUsed :
        (lib : Library) (salt : ℕ) (name password : Text)
        → IsUsed id step (create_first_user lib salt name password a).0
    unfolding create_first_user
    create_first_user-IsUsed lib salt name password = elim (Bool-cases (is_empty a.users)) [
      | inr others ↦ rw others h
      | inl first ↦ rw first (record {
        reached = (λ same. absurd (omega (arith, h.given, same)), tt);
        given = omega (arith, h.given);
      })
    ]

    reset_user_password-IsUsed :
        (lib : Library) (salt : ℕ) (name password : Text)
        → IsUsed id step (reset_user_password lib salt name password a).0
    unfolding reset_user_password
    reset_user_password-IsUsed lib salt name password =
        elim (Bool-cases (count_where (is_named name) a.users == 0)) [
          | inl unknown ↦ rw unknown h
          | inr known ↦ rw known (
              update-IsUsed (is_named name)
                (λ (u : User). record u {
                  password_hash = hash_password lib salt password;
                  session_version = u.session_version + 1;
                })
                (λ u own r. r) _ refl refl)
        ]

  not_restored :
      (rows : List Restored)
      → All (λ (r : Restored). r.id ≢ id) rows
      → All (λ (r : Restored). Reached (restored_user r)) rows
  not_restored [] o = tt
  not_restored (r ∷ rows) o = (λ same. absurd (o.0 same), not_restored rows o.1)

  apply-IsUsed :
      (lib : Library) (call : Call) (a : Accounts)
      → IsOther id call
      → IsUsed id step a
      → IsUsed id step (apply lib call a)
  unfolding apply update_user_totp claim_totp_step bump_session_version update_user_require_password
      create_trusted_device delete_trusted_device delete_trusted_device_by_token
      delete_trusted_devices cleanup_expired_devices
  apply-IsUsed lib (add_user salt n p) a o h = create_user-IsUsed h lib salt n p
  apply-IsUsed lib (add_first salt n p) a o h = create_first_user-IsUsed h lib salt n p
  apply-IsUsed lib (reset_password salt n p) a o h = reset_user_password-IsUsed h lib salt n p
  apply-IsUsed lib (set_totp i s e l) a o h =
      update-IsUsed h (has_user_id i) _ (λ u own r same. absurd (o (ground (arith, own, same)))) _
        refl refl
  apply-IsUsed lib (claim i t) a o h =
      update-IsUsed h (is_claimable i t) _ (λ u own r same. ground (arith, own, r same)) _ refl refl
  apply-IsUsed lib (bump_sessions i) a o h =
      update-IsUsed h (has_user_id i) bump (λ u own r. r) _ refl refl
  apply-IsUsed lib (set_required i q) a o h =
      update-IsUsed h (has_user_id i) _ (λ u own r. r) _ refl refl
  apply-IsUsed lib (trust i t e l) a o h = elim (Bool-cases (any (has_user_id i) a.users)) [
    | inl known ↦ rw known (same-IsUsed h _ refl refl)
    | inr unknown ↦ rw unknown h
  ]
  apply-IsUsed lib (forget i u) a o h = same-IsUsed h _ refl refl
  apply-IsUsed lib (forget_token t) a o h = same-IsUsed h _ refl refl
  apply-IsUsed lib (forget_all u) a o h = same-IsUsed h _ refl refl
  apply-IsUsed lib (cleanup now) a o h = same-IsUsed h _ refl refl
  apply-IsUsed lib (restore rows) a o h = record {
    reached = restore_users-All Reached (λ u r. r) rows a (not_restored rows o) h.reached;
    given = omega (arith, h.given, restore_users-user_seq rows a);
  }

  -- who can claim a step that all rows of the user have not reached
  claimable-lt :
      (t : ℕ) (users : List User)
      → All Reached users
      → ltb 0 (count_where (is_claimable id t) users) ≡ true
      → step < t
  claimable-lt t [] h c = ground arith
  claimable-lt t (u ∷ users) h c = elim (Bool-cases (is_claimable id t u)) [
    | inl e ↦ ground (arith, e, h.0 (ground (arith, e)))
    | inr e ↦ claimable-lt t users h.1 (ground (arith, c, e))
  ]

  -- After a step was claimed for a user, no step up to it is claimed again for that user, whatever
  -- calls on the tables come between, as long as none of them sets a new authenticator secret for
  -- the user or restores the user from a backup. (The user's id was given to it before: it is less than the next id.)
  pub claim_totp_step-lt :
      (lib : Library) (a : Accounts) (calls : List Call) (later : ℕ)
      → id < a.user_seq
      → All (IsOther id) calls
      → (claim_totp_step id later (run lib calls (claim_totp_step id step a).0)).1 ≡ true
      → step < later
  claim_totp_step-lt lib a calls later given others claimed =
      let used =
        run_induction lib (IsUsed id step) (IsOther id) (apply-IsUsed lib) calls
          (claim_totp_step id step a).0 others (claim_totp_step-IsUsed a given) in
      claimable-lt later (run lib calls (claim_totp_step id step a).0).users used.reached
        (unfold claim_totp_step in claimed)
