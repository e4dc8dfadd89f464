-- ===== src/Examples/Accounts.antt =====
-- Runs of the accounts of the web interface.
use cert_generator.Accounts.{
  bump_session_version, create_user, Library, User, Accounts, Session, create_first_user,
  reset_user_password, claim_totp_step, session_user, is_of, get_user, bump, Restored,
  restored_user, restore_users,
}
use cert_generator.Accounts.Calls.{apply, Call, claim, bump_sessions, add_user, run}
use cert_generator.Prelude.{
  ◌<◌, ◌≡◌, refl, true, false, none, some, List, [], ◌∷◌, codes, text_eq, count_where, arith,
  text_eq_refl,
}
use cert_generator.Accounts.Passwords.{IsBcrypt, create_first_user-once}
use cert_generator.Accounts.Restores.{session_user-restore_users}
use cert_generator.Accounts.Sessions.{reset_user_password-ends_sessions}
use cert_generator.Accounts.Steps.{claim_totp_step-lt}

-- a hash that is the password
abbrev lib : Library
lib = record { encode = λ s. s; hashpw = λ salt p. p; checkpw = λ p hash. text_eq p hash }

lib-IsBcrypt : IsBcrypt lib
lib-IsBcrypt = record { checks = λ salt p. text_eq_refl p }

abbrev admin : User
admin = record {
  id = 1;
  username = codes "admin";
  password_hash = codes "hunter22";
  totp_secret = some (codes "JBSWY3DP");
  totp_enabled = true;
  totp_last_step = 10;
  require_password = false;
  session_version = 3;
}

abbrev accounts : Accounts
accounts = record {
  users = admin ∷ [];
  user_seq = 2;
  trusted =
      record {
        id = 1;
        user_id = 1;
        token_hash = codes "hash";
        expires_at = 1000;
        label = codes "Firefox on Linux";
      }
      ∷ [];
  trusted_seq = 2;
}

abbrev no_accounts : Accounts
no_accounts = record { users = []; user_seq = 1; trusted = []; trusted_seq = 1 }

abbrev between : List Call
between = claim 1 12 ∷ bump_sessions 1 ∷ add_user 4 (codes "second") (codes "password") ∷ []

-- step 11 is claimed, then 12, then 13
claim_totp_step-later :
    (claim_totp_step 1 13 (run lib between (claim_totp_step 1 11 accounts).0)).1 ≡ true
unfolding run claim_totp_step apply create_user bump_session_version
claim_totp_step-later = refl

claim_totp_step-lt_example : 11 < 13
claim_totp_step-lt_example =
    claim_totp_step-lt 1 11 lib accounts between 13 (omega arith) (tt, (tt, (tt, tt)))
      claim_totp_step-later

abbrev session : Session
session = record { user = some (codes "admin"); sv = 3 }

reset_user_password-admin :
    (reset_user_password lib 7 (codes "admin") (codes "correct horse") accounts).1 ≡ true
unfolding reset_user_password
reset_user_password-admin = refl

reset_user_password-ends_sessions_example :
    (session_user session (
        run lib between
          (reset_user_password lib 7 (codes "admin") (codes "correct horse") accounts).0)
      ≡ none)
    × (count_where
          (is_of lib (get_user (codes "admin") accounts))
          (reset_user_password lib 7 (codes "admin") (codes "correct horse") accounts).0.trusted
        ≡ 0)
reset_user_password-ends_sessions_example =
    reset_user_password-ends_sessions lib 7 (codes "correct horse") accounts session (codes "admin")
      between refl (λ named. omega arith, tt) (tt, (tt, (tt, tt))) reset_user_password-admin

create_first_user-admin :
    (create_first_user lib 1 (codes "admin") (codes "hunter22") no_accounts).1 ≡ true
unfolding create_first_user
create_first_user-admin = refl

create_first_user-once_example :
    create_first_user lib 2
      (codes "eve")
      (codes "password")
      (run lib between (create_first_user lib 1 (codes "admin") (codes "hunter22") no_accounts).0)
    ≡ (
      run lib between (create_first_user lib 1 (codes "admin") (codes "hunter22") no_accounts).0,
      false,
    )
create_first_user-once_example =
    create_first_user-once lib 1 2 (codes "admin") (codes "hunter22") (codes "eve")
      (codes "password") no_accounts between create_first_user-admin

-- the admin as a backup has it
abbrev saved : Restored
saved = record {
  id = 1;
  username = codes "admin";
  password_hash = codes "hunter22";
  totp_secret = some (codes "JBSWY3DP");
  totp_enabled = true;
  require_password = false;
}

session_user-restore_users_example :
    session_user
      (record { user = some (codes "admin"); sv = 1 })
      (restore_users (saved ∷ []) accounts)
    ≡ some (bump (restored_user saved))
session_user-restore_users_example = session_user-restore_users [] saved accounts refl
