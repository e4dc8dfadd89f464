-- ===== src/Accounts/Sessions.antt =====
-- What ends a session: the session versions of app/db.py and `_session_user` of app/server.py.
use cert_generator.Prelude.{
  ℕ, ◌+◌, ◌<◌, ◌≤◌, ◌≡◌, refl, Bool, true, false, none, some, List, [], ◌∷◌, ◌++◌, any, find, arith,
  update_where, count_where, ◌==◌, is_empty, Text, text_eq, text_eq_iff, subst, All, All-append,
  Bool-cases, inl, inr, Option-cases, count-delete, count-none, count-any-false, ap, sym, ◌∙◌,
}
use cert_generator.Accounts.{
  Library, User, Accounts, Session, has_user_id, is_named, is_claimable, is_of, claim_totp_step,
  new_user, hash_password, create_user, create_first_user, reset_user_password, update_user_totp,
  bump_session_version, update_user_require_password, create_trusted_device, delete_trusted_device,
  delete_trusted_device_by_token, delete_trusted_devices, cleanup_expired_devices, bump, get_user,
  restore_users, session_user,
}
use cert_generator.Accounts.Calls.{
  Call, add_user, add_first, reset_password, set_totp, claim, bump_sessions, set_required, trust,
  forget, forget_token, forget_all, cleanup, restore, committed, apply, run, run_induction,
}

-- A call other than a restore of a backup that has users.
abbrev pub IsRunning : Call → Type 0
IsRunning (restore []) = Unit
IsRunning (restore (r ∷ rows)) = ⊥
IsRunning _ = Unit

module _ (name : Text) (sv : ℕ) where
  -- a session of this version is not of this user any more
  abbrev pub IsLater : User → Type 0
  IsLater u = is_named name u ≡ true → sv < u.session_version

  -- every user of the name has a later version, and there is one
  record IsEnded (a : Accounts) : Type 0 where
    later : All IsLater a.users
    known : any (is_named name) a.users ≡ true

  -- An update that keeps the name and does not lower the version.
  module _ (q : User → Bool) (f : User → User)
      (same : (u : User) → (f u).username ≡ u.username) where
    update-IsLater :
        ((u : User) → u.session_version ≤ (f u).session_version)
        → (users : List User) → All IsLater users
        → All IsLater (update_where q f users)
    update-IsLater keep [] h = tt
    update-IsLater keep (u ∷ users) h = elim (Bool-cases (q u)) [
      | inl e ↦
          rw e (
            λ named. omega (arith, keep u, h.0 (rw (← same u) named)),
            update-IsLater keep users h.1,
          )
      | inr e ↦ rw e (h.0, update-IsLater keep users h.1)
    ]

    any-update :
        (users : List User)
        → any (is_named name) (update_where q f users) ≡ any (is_named name) users
    any-update [] = refl
    any-update (u ∷ users) = elim (Bool-cases (q u)) [
      | inl e ↦ rw (e, same u, any-update users) refl
      | inr e ↦ rw (e, any-update users) refl
    ]

    update-IsEnded :
        ((u : User) → u.session_version ≤ (f u).session_version)
        → {a : Accounts} → IsEnded a
        → (b : Accounts) → b.users ≡ update_where q f a.users
        → IsEnded b
    update-IsEnded keep {a} h b users = record {
      later = rw users (update-IsLater keep a.users h.later);
      known = rw (users, any-update a.users) h.known;
    }

  same-IsEnded : {a : Accounts} → IsEnded a → (b : Accounts) → b.users ≡ a.users → IsEnded b
  same-IsEnded h b users = record { later = rw users h.later; known = rw users h.known }

  any-append :
      (users : List User) (u : User)
      → any (is_named name) users ≡ true
      → any (is_named name) (users ++ u ∷ []) ≡ true
  any-append [] u h = ground (arith, h)
  any-append (v ∷ users) u h = ground (arith, h, any-append users u)

  taken :
      (other : Text) (users : List User)
      → any (is_named name) users ≡ true
      → any (is_named other) users ≡ false
      → text_eq other name ≡ false
  taken other users h free = elim (Bool-cases (text_eq other name)) [
    | inr e ↦ e
    | inl e ↦
        let none_named : any (is_named name) users ≡ false =
          subst (λ n. any (is_named n) users ≡ false) ((text_eq_iff other name).0 e) free in
        ground (arith, h, none_named)
  ]

  not_empty : (users : List User) → any (is_named name) users ≡ true → is_empty users ≡ false
  not_empty [] h = ground (arith, h)
  not_empty (u ∷ users) h = refl

  module _ {a : Accounts} (h : IsEnded a) (lib : Library) (salt : ℕ) (other password : Text) where
    create_user-IsEnded : IsEnded (committed a (create_user lib salt other password a))
    unfolding create_user
    create_user-IsEnded = elim (Bool-cases (any (is_named other) a.users)) [
      | inl exists ↦ rw exists h
      | inr free ↦
          let differ = taken other a.users h.known free in
          rw free (record {
            later =
                All-append IsLater a.users _ h.later (λ named. ground (arith, differ, named), tt);
            known =
                any-append a.users (new_user lib a.user_seq other (hash_password lib salt password))
                  h.known;
          })
    ]

    create_first_user-IsEnded : IsEnded (create_first_user lib salt other password a).0
    unfolding create_first_user
    create_first_user-IsEnded = rw (not_empty a.users h.known) h

    reset_user_password-IsEnded : IsEnded (reset_user_password lib salt other password a).0
    unfolding reset_user_password
    reset_user_password-IsEnded = elim (Bool-cases (count_where (is_named other) a.users == 0)) [
      | inl unknown ↦ rw unknown h
      | inr found ↦ rw found (
          update-IsEnded (is_named other)
            (λ (u : User). record u {
              password_hash = hash_password lib salt password;
              session_version = u.session_version + 1;
            })
            (λ u. refl) (λ u. omega arith) h _ refl)
    ]

  restore_none-IsEnded : {a : Accounts} → IsEnded a → IsEnded (restore_users [] a)
  unfolding restore_users
  restore_none-IsEnded h =
      update-IsEnded (λ (u : User). true) bump (λ u. refl) (λ u. omega arith) h _ refl

  apply-IsEnded :
      (lib : Library) (call : Call) (a : Accounts)
      → IsRunning call
      → IsEnded a
      → IsEnded (apply lib call a)
  unfolding apply update_user_totp claim_totp_step bump_session_version update_user_require_password
      create_trusted_device delete_trusted_device delete_trusted_device_by_token
      delete_trusted_devices cleanup_expired_devices
  apply-IsEnded lib (add_user salt n p) a o h = create_user-IsEnded h lib salt n p
  apply-IsEnded lib (add_first salt n p) a o h = create_first_user-IsEnded h lib salt n p
  apply-IsEnded lib (reset_password salt n p) a o h = reset_user_password-IsEnded h lib salt n p
  apply-IsEnded lib (set_totp i s e l) a o h =
      update-IsEnded (has_user_id i) _ (λ u. refl) (λ u. omega arith) h _ refl
  apply-IsEnded lib (claim i t) a o h =
      update-IsEnded (is_claimable i t) _ (λ u. refl) (λ u. omega arith) h _ refl
  apply-IsEnded lib (bump_sessions i) a o h =
      update-IsEnded (has_user_id i) bump (λ u. refl) (λ u. omega arith) h _ refl
  apply-IsEnded lib (set_required i q) a o h =
      update-IsEnded (has_user_id i) _ (λ u. refl) (λ u. omega arith) h _ refl
  apply-IsEnded lib (trust i t e l) a o h = elim (Bool-cases (any (has_user_id i) a.users)) [
    | inl known ↦ rw known (same-IsEnded h _ refl)
    | inr unknown ↦ rw unknown h
  ]
  apply-IsEnded lib (forget i u) a o h = same-IsEnded h _ refl
  apply-IsEnded lib (forget_token t) a o h = same-IsEnded h _ refl
  apply-IsEnded lib (forget_all u) a o h = same-IsEnded h _ refl
  apply-IsEnded lib (cleanup now) a o h = same-IsEnded h _ refl
  apply-IsEnded lib (restore []) a o h = restore_none-IsEnded h
  apply-IsEnded lib (restore (r ∷ rows)) a o h = absurd o

  find-IsLater :
      (users : List User) (u : User)
      → All IsLater users
      → find (is_named name) users ≡ some u
      → sv < u.session_version
  find-IsLater [] u h e = ground (arith, e)
  find-IsLater (v ∷ users) u h e = elim (Bool-cases (is_named name v)) [
    | inl own ↦
        let same : v ≡ u = ground (arith, e, own) in
        subst (λ (x : User). sv < x.session_version) same (h.0 own)
    | inr other ↦ find-IsLater users u h.1 (ground (arith, e, other))
  ]

  session_user-IsEnded :
      (a : Accounts) → IsEnded a → session_user (record { user = some name; sv = sv }) a ≡ none
  unfolding session_user get_user
  session_user-IsEnded a h = elim (Bool-cases (is_empty name)) [
    | inl e ↦ rw e refl
    | inr e ↦ elim (Option-cases (find (is_named name) a.users)) [
      | inl unknown ↦ rw (e, unknown) refl
      | inr (u, found) ↦
          let old = find-IsLater a.users u h.later found in
          let differ : (u.session_version == sv) ≡ false = ground (arith, old) in
          rw (e, found, differ) refl
    ]
  ]

  -- the user's versions are raised by a reset
  reset-IsLater :
      (lib : Library) (salt : ℕ) (password : Text) (users : List User)
      → All (λ (u : User). is_named name u ≡ true → sv ≤ u.session_version) users
      → All IsLater (
          update_where
            (is_named name)
            (λ (u : User). record u {
              password_hash = hash_password lib salt password;
              session_version = u.session_version + 1;
            })
            users)
  reset-IsLater lib salt password [] h = tt
  reset-IsLater lib salt password (u ∷ users) h = elim (Bool-cases (is_named name u)) [
    | inl e ↦ rw e (λ named. omega (arith, h.0 e), reset-IsLater lib salt password users h.1)
    | inr e ↦ rw e (λ named. ground (arith, e, named), reset-IsLater lib salt password users h.1)
  ]

  is_known :
      (a : Accounts)
      → (count_where (is_named name) a.users == 0) ≡ false
      → any (is_named name) a.users ≡ true
  is_known a h = ground (arith, h, count-any-false (is_named name) a.users)

  reset_user_password-ends :
      (lib : Library) (salt : ℕ) (password : Text) (a : Accounts)
      → All (λ (u : User). is_named name u ≡ true → sv ≤ u.session_version) a.users
      → (reset_user_password lib salt name password a).1 ≡ true
      → IsEnded (reset_user_password lib salt name password a).0
        × (count_where
              (is_of lib (get_user name a))
              (reset_user_password lib salt name password a).0.trusted
            ≡ 0)
  unfolding reset_user_password get_user
  reset_user_password-ends lib salt password a old done =
      elim (Bool-cases (count_where (is_named name) a.users == 0)) [
        | inl unknown ↦ ground (arith, unknown, done)
        | inr known ↦ rw known (
          record {
            later = reset-IsLater lib salt password a.users old;
            known =
                any-update (is_named name)
                  (λ (u : User). record u {
                    password_hash = hash_password lib salt password;
                    session_version = u.session_version + 1;
                  })
                  (λ u. refl) a.users
                ∙ is_known a known;
          },
          count-delete (is_of lib (find (is_named name) a.users))
                (is_of lib (find (is_named name) a.users)) a.trusted
              ∙ count-none _ (λ t. ground arith) a.trusted,
        )
      ]

-- After a password was reset, a session from before is never again a session of the user, whatever
-- calls on the tables follow that are not a restore of a backup with users, and no trusted device
-- of the user is left by the reset. (The session's version is no newer than the user's, as that of
-- a session that the server made.)
pub reset_user_password-ends_sessions :
    (lib : Library) (salt : ℕ) (password : Text) (a : Accounts) (s : Session) (name : Text)
    (calls : List Call)
    → s.user ≡ some name
    → All (λ (u : User). is_named name u ≡ true → s.sv ≤ u.session_version) a.users
    → All IsRunning calls
    → (reset_user_password lib salt name password a).1 ≡ true
    → (session_user s (run lib calls (reset_user_password lib salt name password a).0) ≡ none)
      × (count_where
            (is_of lib (get_user name a))
            (reset_user_password lib salt name password a).0.trusted
          ≡ 0)
reset_user_password-ends_sessions lib salt password a s name calls user old running done =
    let a' = (reset_user_password lib salt name password a).0 in
    let (ended, forgotten) = reset_user_password-ends name s.sv lib salt password a old done in
    let after =
      run_induction lib (IsEnded name s.sv) IsRunning (apply-IsEnded name s.sv lib) calls a' running
        ended in
    (
      subst (λ (t : Session). session_user t (run lib calls a') ≡ none)
          (ap (λ u. record { user = u; sv = s.sv }) (sym user))
          (session_user-IsEnded name s.sv (run lib calls a') after),
      forgotten,
    )
