-- ===== src/Accounts.antt =====
-- The tables `users` and `trusted_devices` of app/db.py and the functions on them, one transaction
-- each. `_utc_now()` is the argument `now`, in seconds; `none` is an `IntegrityError`.
pub mod Calls
pub mod Passwords
pub mod Steps
pub mod Sessions
pub mod Restores
use cert_generator.Prelude.{
  ℕ, suc, ◌+◌, Bool, true, false, not, ◌&&◌, ◌||◌, Option, none, some, List, [], ◌∷◌, ◌++◌, map,
  any, find, select, length, is_empty, take, update_where, delete_where, count_where, ltb, leb,
  ◌==◌, if◌then◌else◌, Text, text_eq, codes,
}

-- What bcrypt and `str.encode` do. Salts are numbered in the order in which they are drawn.
pub record Library : Type 0 where
  pub encode : Text → Text
  pub hashpw : ℕ → Text → Text
  pub checkpw : Text → Text → Bool

-- `totp_secret` is what `_maybe_encrypt` made of it
pub record User : Type 0 where
  pub id : ℕ
  pub username : Text
  pub password_hash : Text
  pub totp_secret : Option Text
  pub totp_enabled : Bool
  pub totp_last_step : ℕ
  pub require_password : Bool
  pub session_version : ℕ

pub record Trusted : Type 0 where
  pub id : ℕ
  pub user_id : ℕ
  pub token_hash : Text
  pub expires_at : ℕ
  pub label : Text

pub record Accounts : Type 0 where
  pub users : List User
  pub user_seq : ℕ  -- AUTOINCREMENT: the next id
  pub trusted : List Trusted
  pub trusted_seq : ℕ

abbrev pub bcrypt_max_bytes : ℕ
bcrypt_max_bytes = 72

abbrev pub is_named : Text → User → Bool
is_named name u = text_eq u.username name

abbrev pub has_user_id : ℕ → User → Bool
has_user_id id u = u.id == id

module _ (lib : Library) where
  unfoldable pub password_bytes : Text → Text
  password_bytes password = take bcrypt_max_bytes (lib.encode password)

  unfoldable pub password_too_long : Text → Bool
  password_too_long password = ltb bcrypt_max_bytes (length (lib.encode password))

  unfoldable pub hash_password : ℕ → Text → Text
  hash_password salt password = lib.hashpw salt (password_bytes password)

  abbrev pub new_user : ℕ → Text → Text → User
  new_user id username hash = record {
    id = id;
    username = username;
    password_hash = hash;
    totp_secret = none;
    totp_enabled = false;
    totp_last_step = 0;
    require_password = false;
    session_version = 0;
  }

  unfoldable pub create_user : ℕ → Text → Text → Accounts → Option (Accounts × ℕ)
  create_user salt username password a =
      if any (is_named username) a.users
      then none
      else (some (
        record a {
          users = a.users ++ new_user a.user_seq username (hash_password salt password) ∷ [];
          user_seq = suc a.user_seq;
        },
        a.user_seq,
      ))

  unfoldable pub create_first_user : ℕ → Text → Text → Accounts → Accounts × Bool
  create_first_user salt username password a =
      if is_empty a.users
      then (
        record a {
          users = new_user a.user_seq username (hash_password salt password) ∷ [];
          user_seq = suc a.user_seq;
        },
        true,
      )
      else (a, false)

  -- the trusted devices of the user of a name
  abbrev pub is_of : Option User → Trusted → Bool
  is_of none t = false
  is_of (some u) t = t.user_id == u.id

  unfoldable pub reset_user_password : ℕ → Text → Text → Accounts → Accounts × Bool
  reset_user_password salt username new_password a =
      if count_where (is_named username) a.users == 0 then (a, false) else (
        record a {
          users =
              update_where (is_named username)
                (λ (u : User). record u {
                  password_hash = hash_password salt new_password;
                  session_version = u.session_version + 1;
                })
                a.users;
          trusted = delete_where (is_of (find (is_named username) a.users)) a.trusted;
        },
        true,
      )

  unfoldable pub verify_user : Text → Text → Accounts → Bool
  verify_user username password a = elim (find (is_named username) a.users) [
    | none ↦ false
    | some u ↦ lib.checkpw (password_bytes password) u.password_hash
  ]

unfoldable pub has_users : Accounts → Bool
has_users a = not (is_empty a.users)

unfoldable pub get_user : Text → Accounts → Option User
get_user username a = find (is_named username) a.users

unfoldable pub get_user_by_id : ℕ → Accounts → Option User
get_user_by_id id a = find (has_user_id id) a.users

unfoldable pub update_user_totp : ℕ → Option Text → Bool → ℕ → Accounts → Accounts
update_user_totp id sealed enabled last_step a = record a {
  users =
      update_where (has_user_id id)
        (λ (u : User). record u {
          totp_secret = sealed;
          totp_enabled = enabled;
          totp_last_step = last_step;
        })
        a.users;
}

-- the WHERE of the UPDATE
abbrev pub is_claimable : ℕ → ℕ → User → Bool
is_claimable id step u = has_user_id id u && ltb u.totp_last_step step

unfoldable pub claim_totp_step : ℕ → ℕ → Accounts → Accounts × Bool
claim_totp_step id step a = (
  record a {
    users =
        update_where (is_claimable id step) (λ (u : User). record u { totp_last_step = step })
          a.users;
  },
  ltb 0 (count_where (is_claimable id step) a.users),
)

abbrev pub bump : User → User
bump u = record u { session_version = u.session_version + 1 }

unfoldable pub bump_session_version : ℕ → Accounts → Accounts × ℕ
bump_session_version id a =
    let users = update_where (has_user_id id) bump a.users in
    (
      record a { users = users },
      elim (find (has_user_id id) users) [ none ↦ 0 | some u ↦ u.session_version ],
    )

unfoldable pub update_user_require_password : ℕ → Bool → Accounts → Accounts
update_user_require_password id required a = record a {
  users =
      update_where (has_user_id id) (λ (u : User). record u { require_password = required })
        a.users;
}

-- Trusted devices -------------------------------------------------------------------------------

unfoldable pub create_trusted_device : ℕ → Text → ℕ → Text → Accounts → Option (Accounts × ℕ)
create_trusted_device user_id token_hash expires_at label a =
    if any (has_user_id user_id) a.users
    then (some (
      record a {
        trusted =
            a.trusted
            ++ record {
              id = a.trusted_seq;
              user_id = user_id;
              token_hash = token_hash;
              expires_at = expires_at;
              label = label;
            }
              ∷ [];
        trusted_seq = suc a.trusted_seq;
      },
      a.trusted_seq,
    ))
    else none

-- a row of the JOIN
abbrev pub is_trusted : ℕ → Text → List User → Trusted → Bool
is_trusted now token_hash users t =
    text_eq t.token_hash token_hash && ltb now t.expires_at && any (has_user_id t.user_id) users

-- the user of the device
unfoldable pub verify_trusted_device : ℕ → Text → Accounts → Option User
verify_trusted_device now token_hash a = elim (find (is_trusted now token_hash a.users) a.trusted) [
  | none ↦ none
  | some t ↦ find (has_user_id t.user_id) a.users
]

abbrev is_live : ℕ → ℕ → Trusted → Bool
is_live now user_id t = t.user_id == user_id && ltb now t.expires_at

unfoldable pub delete_trusted_device : ℕ → ℕ → Accounts → Accounts × Bool
delete_trusted_device id user_id a =
    let chosen = λ (t : Trusted). t.id == id && t.user_id == user_id in
    (record a { trusted = delete_where chosen a.trusted }, ltb 0 (count_where chosen a.trusted))

unfoldable pub delete_trusted_device_by_token : Text → Accounts → Accounts × Bool
delete_trusted_device_by_token token_hash a =
    let chosen = λ (t : Trusted). text_eq t.token_hash token_hash in
    (record a { trusted = delete_where chosen a.trusted }, ltb 0 (count_where chosen a.trusted))

unfoldable pub delete_trusted_devices : ℕ → Accounts → Accounts × ℕ
delete_trusted_devices user_id a =
    let chosen = λ (t : Trusted). t.user_id == user_id in
    (record a { trusted = delete_where chosen a.trusted }, count_where chosen a.trusted)

unfoldable pub count_trusted_devices : ℕ → ℕ → Accounts → ℕ
count_trusted_devices now user_id a = count_where (is_live now user_id) a.trusted

unfoldable pub cleanup_expired_devices : ℕ → Accounts → Accounts × ℕ
cleanup_expired_devices now a =
    let expired = λ (t : Trusted). leb t.expires_at now in
    (record a { trusted = delete_where expired a.trusted }, count_where expired a.trusted)

-- Restoring a backup --------------------------------------------------------------------------

-- a user of a backup; `totp_secret` is what `_maybe_encrypt` makes of it
pub record Restored : Type 0 where
  pub id : ℕ
  pub username : Text
  pub password_hash : Text
  pub totp_secret : Option Text
  pub totp_enabled : Bool
  pub require_password : Bool

-- the new row: the columns that a backup does not have are at their defaults
abbrev pub restored_user : Restored → User
restored_user r = record {
  id = r.id;
  username = r.username;
  password_hash = r.password_hash;
  totp_secret = r.totp_secret;
  totp_enabled = r.totp_enabled;
  totp_last_step = 0;
  require_password = r.require_password;
  session_version = 0;
}

-- the rows that INSERT OR REPLACE replaces: the id and the name are unique
abbrev pub is_replaced : Restored → User → Bool
is_replaced r u = u.id == r.id || text_eq u.username r.username

-- the trusted devices of a row that is replaced go with it (ON DELETE CASCADE)
unfoldable pub restore_user : Restored → Accounts → Accounts
restore_user r a = record a {
  users = delete_where (is_replaced r) a.users ++ restored_user r ∷ [];
  user_seq = if ltb r.id a.user_seq then a.user_seq else suc r.id;
  trusted =
      delete_where
        (λ (t : Trusted). any (λ (u : User). u.id == t.user_id && is_replaced r u) a.users)
        a.trusted;
}

abbrev pub restore_each : List Restored → Accounts → Accounts
restore_each [] a = a
restore_each (r ∷ rows) a = restore_each rows (restore_user r a)

-- `_restore_users`
unfoldable pub restore_users : List Restored → Accounts → Accounts
restore_users rows a =
    let b = restore_each rows a in
    record b { users = update_where (λ (u : User). true) bump b.users }

-- Sessions --------------------------------------------------------------------------------------

-- what the signed cookie of a session says: the user, and `sv`, which is 0 if it is not there
pub record Session : Type 0 where
  pub user : Option Text
  pub sv : ℕ

-- `_session_user` of app/server.py
unfoldable pub session_user : Session → Accounts → Option User
unfolding get_user
session_user s a = elim s.user [
  | none ↦ none
  | some name ↦ if is_empty name then none else elim (get_user name a) [
    | none ↦ none
    | some u ↦ if u.session_version == s.sv then some u else none
  ]
]
