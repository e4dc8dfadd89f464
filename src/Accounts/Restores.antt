-- ===== src/Accounts/Restores.antt =====
-- `_restore_users` of app/db.py: the users of a backup, in place of those that have their id or name.
use cert_generator.Prelude.{
  ℕ, suc, ◌≤◌, ◌≡◌, refl, Bool, true, false, some, List, [], ◌∷◌, ◌++◌, find, arith, update_where,
  delete_where, ltb, is_empty, if◌then◌else◌, text_eq_refl, All, All-append, Bool-cases, inl, inr,
}
use cert_generator.Accounts.{
  User, Accounts, Restored, is_named, is_replaced, restored_user, restore_user, restore_each,
  restore_users, bump, session_user, get_user,
}

is_empty-append : (users : List User) (u : User) → is_empty (users ++ u ∷ []) ≡ false
is_empty-append [] u = refl
is_empty-append (v ∷ users) u = refl

restore_each-is_empty :
    (rows : List Restored) (a : Accounts)
    → is_empty a.users ≡ false
    → is_empty (restore_each rows a).users ≡ false
unfolding restore_user
restore_each-is_empty [] a h = h
restore_each-is_empty (r ∷ rows) a h =
    restore_each-is_empty rows (restore_user r a)
      (is_empty-append (delete_where (is_replaced r) a.users) (restored_user r))

is_empty-bump :
    (users : List User) → is_empty (update_where (λ (u : User). true) bump users) ≡ is_empty users
is_empty-bump [] = refl
is_empty-bump (u ∷ users) = refl

-- A restore leaves an account where there was one.
pub restore_users-is_empty :
    (rows : List Restored) (a : Accounts)
    → is_empty a.users ≡ false
    → is_empty (restore_users rows a).users ≡ false
unfolding restore_users
restore_users-is_empty rows a h =
    rw (is_empty-bump (restore_each rows a).users) (restore_each-is_empty rows a h)

module _ (P : User → Type 0) where
  All-delete : (q : User → Bool) (users : List User) → All P users → All P (delete_where q users)
  All-delete q [] h = tt
  All-delete q (u ∷ users) h = elim (Bool-cases (q u)) [
    | inl e ↦ rw e (All-delete q users h.1)
    | inr e ↦ rw e (h.0, All-delete q users h.1)
  ]

  restore_each-All :
      (rows : List Restored) (a : Accounts)
      → All (λ (r : Restored). P (restored_user r)) rows
      → All P a.users
      → All P (restore_each rows a).users
  unfolding restore_user
  restore_each-All [] a new h = h
  restore_each-All (r ∷ rows) a new h = restore_each-All rows (restore_user r a) new.1 (
      All-append P (delete_where (is_replaced r) a.users) _ (All-delete (is_replaced r) a.users h)
        (new.0, tt))

  All-bump :
      ((u : User) → P u → P (bump u))
      → (users : List User) → All P users
      → All P (update_where (λ (u : User). true) bump users)
  All-bump keep [] h = tt
  All-bump keep (u ∷ users) h = (keep u h.0, All-bump keep users h.1)

  -- What holds of every row, and of every row of the backup, holds of every row after a restore.
  pub restore_users-All :
      ((u : User) → P u → P (bump u))
      → (rows : List Restored) (a : Accounts) → All (λ (r : Restored). P (restored_user r)) rows
      → All P a.users
      → All P (restore_users rows a).users
  unfolding restore_users
  restore_users-All keep rows a new h =
      All-bump keep (restore_each rows a).users (restore_each-All rows a new h)

seq-le : (n m : ℕ) → n ≤ (if ltb m n then n else suc m)
seq-le n m = ground arith

restore_each-user_seq :
    (rows : List Restored) (a : Accounts) → a.user_seq ≤ (restore_each rows a).user_seq
unfolding restore_user
restore_each-user_seq [] a = omega arith
restore_each-user_seq (r ∷ rows) a =
    let first = seq-le a.user_seq r.id in
    let rest = restore_each-user_seq rows (restore_user r a) in omega (arith, first, rest)

pub restore_users-user_seq :
    (rows : List Restored) (a : Accounts) → a.user_seq ≤ (restore_users rows a).user_seq
unfolding restore_users
restore_users-user_seq rows a = restore_each-user_seq rows a

restore_each-append :
    (earlier : List Restored) (r : Restored) (a : Accounts)
    → restore_each (earlier ++ r ∷ []) a ≡ restore_user r (restore_each earlier a)
restore_each-append [] r a = refl
restore_each-append (e ∷ earlier) r a = restore_each-append earlier r (restore_user e a)

-- the row that is restored is the one of its name
find-restored :
    (r : Restored) (users : List User)
    → find (is_named r.username) (
        update_where
          (λ (u : User). true)
          bump
          (delete_where (is_replaced r) users ++ restored_user r ∷ []))
      ≡ some (bump (restored_user r))
find-restored r [] = rw (text_eq_refl r.username) refl
find-restored r (u ∷ users) = elim (Bool-cases (is_replaced r u)) [
  | inl gone ↦ rw gone (find-restored r users)
  | inr kept ↦
      let other : is_named r.username u ≡ false = ground (arith, kept) in
      rw (kept, other) (find-restored r users)
]

-- A restore forgets the session versions: whatever the tables were, a cookie of version 1 is a
-- session of the last user of the backup after it. (The name is not empty.)
pub session_user-restore_users :
    (earlier : List Restored) (r : Restored) (a : Accounts)
    → is_empty r.username ≡ false
    → session_user (record { user = some r.username; sv = 1 }) (restore_users (earlier ++ r ∷ []) a)
      ≡ some (bump (restored_user r))
unfolding session_user get_user restore_users restore_user
session_user-restore_users earlier r a named =
    rw
      (
        named,
        restore_each-append earlier r a,
        restore_user,
        find-restored r (restore_each earlier a).users,
      )
      refl
