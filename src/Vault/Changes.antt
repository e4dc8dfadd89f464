-- ===== src/Vault/Changes.antt =====
-- The operations of app/db.py on encryption at rest, each one transaction under the write lock.
use cert_generator.Prelude.{
  suc, ◌+◌, Bool, true, false, not, ◌||◌, Option, none, some, ◌∷◌, is_empty, if◌then◌else◌, is_some,
  is_none, Text, codes, Result, ok, refuse, refuse_if, ◌>>=◌, ◌>>◌,
}
use cert_generator.Vault.{
  Crypto, Error, user_error, database_locked, Settings, Vault, reencrypt_all, count_rows,
}
use cert_generator.Vault.Keys.{
  key_for_password, store_password_wrap, store_recovery_wrap, key_for_recovery_key,
  open_with_password,
}

abbrev pub is_encryption_enabled : Vault → Bool
is_encryption_enabled v = is_some v.settings.encryption_salt

-- the name is stored if it is not empty
abbrev pub name_setting : Option Text → Option Text → Option Text
name_setting (some (c ∷ name)) old = some (c ∷ name)
name_setting _ old = old

-- without `_KEY_SETTINGS`
abbrev pub clear_keys : Settings → Settings
clear_keys s = record s {
  encryption_salt = none;
  encryption_verify = none;
  encryption_wrapped_key = none;
  recovery_salt = none;
  recovery_wrapped_key = none;
  login_username = none;
}

-- the key, or the error if there is none
abbrev pub need : Text → Option Text → Result Error Text
need message none = refuse (user_error message)
need message (some key) = ok key

module _ (lib : Crypto) where
  unfoldable pub enable_encryption : Text → Option Text → Vault → Result Error (Vault × Text)
  enable_encryption password username v =
      let data_key = lib.token_bytes 32 v.drawn in
      let after = suc v.drawn + count_rows lib v.rows in
      do
        refuse_if (is_encryption_enabled v) (user_error (codes "Encryption is already enabled"))
        rows ← reencrypt_all lib none (some data_key) (suc v.drawn) v.rows
        stored ←
            store_recovery_wrap lib (after + 2) data_key
              (store_password_wrap lib after password data_key v.settings)
        ok (
          record v {
            rows = rows;
            settings = record stored.0 {
              login_username = name_setting username stored.0.login_username;
            };
            master = some data_key;
            drawn = after + 29;
          },
          stored.1,
        )

  unfoldable pub disable_encryption : Text → Vault → Result Error Vault
  disable_encryption password v = do
    refuse_if (not (is_encryption_enabled v)) (user_error (codes "Encryption is not enabled"))
    refuse_if (is_some v.settings.cloudflare_token) (
        user_error
          (codes "Disconnect Cloudflare first: its API token is only ever stored encrypted"))
    refuse_if (is_some v.settings.pal_relay_key || is_some v.settings.pal_relay_token) (
        user_error (codes "Remove the remote relay first: its keys are only ever stored encrypted"))
    key ← need (codes "Wrong password") (key_for_password lib v.settings password).0
    rows ← reencrypt_all lib (some key) none v.drawn v.rows
    ok (record v { rows = rows; settings = clear_keys v.settings; master = none })

  unfoldable pub unlock_if : Text → Bool → Vault → Result Error (Vault × Bool)
  unlock_if password allowed v = do
    opened ← open_with_password lib password v
    elim opened.1 [
      | none ↦ ok (opened.0, false)
      | some key ↦
          if allowed then ok (record opened.0 { master = some key }, true) else ok (opened.0, false)
    ]

  unfoldable pub unlock : Text → Vault → Result Error (Vault × Bool)
  unfolding unlock_if
  unlock password v = unlock_if password true v

  unfoldable pub change_password : Text → Text → Vault → Result Error Vault
  change_password old_password new_password v = do
    opened ← open_with_password lib old_password v
    key ← need (codes "Wrong current password") opened.1
    ok (record opened.0 {
      settings = store_password_wrap lib opened.0.drawn new_password key opened.0.settings;
      master = some key;
      drawn = opened.0.drawn + 2;
    })

  abbrev loaded_key : Vault → Result Error Text
  loaded_key v = elim v.master [ none ↦ refuse database_locked | some key ↦ ok key ]

  -- the key that a new recovery key is to open
  abbrev key_to_recover : Option Text → Vault → Result Error Text
  key_to_recover password v =
      if is_none v.settings.recovery_wrapped_key then loaded_key v else elim password [
        | none ↦ refuse (user_error (codes "Password is required to replace the recovery key"))
        | some text ↦
            if is_empty text
            then refuse (user_error (codes "Password is required to replace the recovery key"))
            else need (codes "Wrong password") (key_for_password lib v.settings text).0
      ]

  unfoldable pub create_recovery_key : Option Text → Vault → Result Error (Vault × Text)
  create_recovery_key password v = do
    refuse_if (is_none v.settings.encryption_wrapped_key)
        (user_error (codes "Encryption is not enabled"))
    key ← key_to_recover password v
    stored ← store_recovery_wrap lib v.drawn key v.settings
    ok (record v { settings = stored.0; drawn = v.drawn + 27 }, stored.1)

  unfoldable pub recover_with_key : Text → Text → Vault → Result Error (Vault × Text)
  recover_with_key recovery_key new_password v = do
    refuse_if (is_none v.settings.recovery_wrapped_key)
        (user_error (codes "This database has no recovery key"))
    key ← need (codes "Wrong recovery key") (key_for_recovery_key lib v.settings recovery_key)
    stored ←
        store_recovery_wrap lib (v.drawn + 2) key
          (store_password_wrap lib v.drawn new_password key v.settings)
    ok (record v { settings = stored.0; master = some key; drawn = v.drawn + 29 }, stored.1)
