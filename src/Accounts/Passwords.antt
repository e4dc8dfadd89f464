-- ===== src/Accounts/Passwords.antt =====
-- Passwords of the web interface, and the first account, in app/db.py.
use cert_generator.Prelude.{
  ℕ, ◌+◌, ◌≡◌, refl, Bool, true, false, some, List, [], ◌∷◌, ◌++◌, any, find, arith, update_where,
  count_where, ◌==◌, is_empty, Text, Bool-cases, inl, inr, count-find, Option-cases, subst, sym,
  ◌∙◌,
}
use cert_generator.Accounts.{
  Library, User, Accounts, has_user_id, is_named, is_claimable, bump, password_bytes, hash_password,
  create_user, create_first_user, reset_user_password, verify_user, update_user_totp,
  claim_totp_step, bump_session_version, update_user_require_password, create_trusted_device,
  delete_trusted_device, delete_trusted_device_by_token, delete_trusted_devices,
  cleanup_expired_devices,
}
use cert_generator.Accounts.Calls.{
  Call, add_user, add_first, reset_password, set_totp, claim, bump_sessions, set_required, trust,
  forget, forget_token, forget_all, cleanup, restore, apply, run, run_induction, All-Unit,
}
use cert_generator.Accounts.Restores.{restore_users-is_empty}

-- what bcrypt is documented to do
pub record IsBcrypt (lib : Library) : Type 0 where
  pub checks : (salt : ℕ) (password : Text) → lib.checkpw password (lib.hashpw salt password) ≡ true

-- what bcrypt is given of them is the same: they agree in their first 72 bytes
abbrev pub IsSame : Library → Text → Text → Type 0
IsSame lib p q = password_bytes lib p ≡ password_bytes lib q

module _ (lib : Library) (salt : ℕ) (name password : Text) where
  abbrev with_password : User → User
  with_password u = record u {
    password_hash = hash_password lib salt password;
    session_version = u.session_version + 1;
  }

  find-reset :
      (users : List User) (u : User)
      → find (is_named name) users ≡ some u
      → find (is_named name) (update_where (is_named name) with_password users)
        ≡ some (with_password u)
  find-reset [] u e = ground (arith, e)
  find-reset (v ∷ users) u e = elim (Bool-cases (is_named name v)) [
    | inl own ↦ let same : v ≡ u = ground (arith, e, own) in rw (own, own, same) refl
    | inr other ↦ rw (other, other) (find-reset users u (ground (arith, e, other)))
  ]

  -- After a password was reset, the user signs in with it, as with any text that agrees with it in
  -- its first 72 bytes of UTF-8.
  pub verify_user-reset_user_password :
      IsBcrypt lib
      → (a : Accounts) (given : Text) → (reset_user_password lib salt name password a).1 ≡ true
      → IsSame lib given password
      → verify_user lib name given (reset_user_password lib salt name password a).0 ≡ true
  unfolding reset_user_password verify_user hash_password
  verify_user-reset_user_password h a given done same =
      elim (Bool-cases (count_where (is_named name) a.users == 0)) [
        | inl unknown ↦ ground (arith, unknown, done)
        | inr known ↦ elim (Option-cases (find (is_named name) a.users)) [
          | inl missing ↦ ground (arith, known, count-find (is_named name) a.users missing)
          | inr (u, found) ↦
              rw (known, verify_user, find-reset a.users u found, same)
                (h.checks salt (password_bytes lib password))
        ]
      ]

module _ (lib : Library) where
  -- there is an account
  abbrev IsSetUp : Accounts → Type 0
  IsSetUp a = is_empty a.users ≡ false

  is_empty-update :
      (q : User → Bool) (f : User → User) (users : List User)
      → is_empty (update_where q f users) ≡ is_empty users
  is_empty-update q f [] = refl
  is_empty-update q f (u ∷ users) = refl

  is_empty-append : (users : List User) (u : User) → is_empty (users ++ u ∷ []) ≡ false
  is_empty-append [] u = refl
  is_empty-append (v ∷ users) u = refl

  create_first_user-again :
      (salt : ℕ) (name password : Text) (a : Accounts)
      → IsSetUp a
      → create_first_user lib salt name password a ≡ (a, false)
  unfolding create_first_user
  create_first_user-again salt name password a h = rw (create_first_user, h) refl

  reset_user_password-IsSetUp :
      (salt : ℕ) (name password : Text) (a : Accounts)
      → IsSetUp a
      → IsSetUp (reset_user_password lib salt name password a).0
  unfolding reset_user_password
  reset_user_password-IsSetUp salt name password a h =
      elim (Bool-cases (count_where (is_named name) a.users == 0)) [
        | inl e ↦ rw e h
        | inr e ↦
            rw e
              (is_empty-update (is_named name) (with_password lib salt name password) a.users ∙ h)
      ]

  created :
      (salt : ℕ) (name password : Text) (a : Accounts)
      → (create_first_user lib salt name password a).1 ≡ true
      → IsSetUp (create_first_user lib salt name password a).0
  unfolding create_first_user
  created salt name password a done = ground (arith, done)

  apply-IsSetUp : (call : Call) (a : Accounts) → Unit {0} → IsSetUp a → IsSetUp (apply lib call a)
  unfolding apply update_user_totp claim_totp_step bump_session_version update_user_require_password
      create_trusted_device delete_trusted_device delete_trusted_device_by_token
      delete_trusted_devices cleanup_expired_devices create_user reset_user_password
  apply-IsSetUp (add_user salt n p) a o h = elim (Bool-cases (any (is_named n) a.users)) [
    | inl e ↦ rw e h
    | inr e ↦ rw e (is_empty-append a.users _)
  ]
  apply-IsSetUp (add_first salt n p) a o h =
      subst (λ (r : Accounts × Bool). is_empty r.0.users ≡ false)
        (sym (create_first_user-again salt n p a h)) h
  apply-IsSetUp (reset_password salt n p) a o h = reset_user_password-IsSetUp salt n p a h
  apply-IsSetUp (set_totp i s e l) a o h = rw (is_empty-update (has_user_id i) _ a.users) h
  apply-IsSetUp (claim i t) a o h = rw (is_empty-update (is_claimable i t) _ a.users) h
  apply-IsSetUp (bump_sessions i) a o h = rw (is_empty-update (has_user_id i) bump a.users) h
  apply-IsSetUp (set_required i q) a o h = rw (is_empty-update (has_user_id i) _ a.users) h
  apply-IsSetUp (trust i t e l) a o h = elim (Bool-cases (any (has_user_id i) a.users)) [
    | inl e ↦ rw e h
    | inr e ↦ rw e h
  ]
  apply-IsSetUp (forget i u) a o h = h
  apply-IsSetUp (forget_token t) a o h = h
  apply-IsSetUp (forget_all u) a o h = h
  apply-IsSetUp (cleanup now) a o h = h
  apply-IsSetUp (restore rows) a o h = restore_users-is_empty rows a h

  -- The set-up page makes one account at most: after it made one, it makes no other and changes
  -- nothing, whatever calls on the tables come between.
  pub create_first_user-once :
      (salt salt' : ℕ) (name password name' password' : Text) (a : Accounts) (calls : List Call)
      → (create_first_user lib salt name password a).1 ≡ true
      → create_first_user lib salt' name' password'
          (run lib calls (create_first_user lib salt name password a).0)
        ≡ (run lib calls (create_first_user lib salt name password a).0, false)
  create_first_user-once salt salt' name password name' password' a calls done =
      let a' = (create_first_user lib salt name password a).0 in
      create_first_user-again salt' name' password' (run lib calls a') (
        run_induction lib IsSetUp (λ c. Unit) apply-IsSetUp calls a' (All-Unit calls)
          (created salt name password a done))
