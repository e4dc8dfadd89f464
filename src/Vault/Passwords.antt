-- ===== src/Vault/Passwords.antt =====
-- Passwords and recovery keys replaced, by `change_password`, `recover_with_key`,
-- `create_recovery_key` and the unlock of app/db.py.
use cert_generator.Prelude.{
  none, suc, ◌+◌, ◌≡◌, refl, Bool, true, false, some, is_some, is_none, Text, ok, arith, ap,
}
use cert_generator.Vault.{Crypto, Rows, Vault, count_rows}
use cert_generator.Vault.Keys.{
  key_for_password, store_password_wrap, key_for_recovery_key, open_with_password, upgrade,
  generate_recovery_key, normalize_recovery_key,
}
use cert_generator.Vault.Changes.{unlock_if, change_password, recover_with_key}
use cert_generator.Vault.Readable.{IsCrypto, Reads, IsPlain, reencrypt_all-Reads}
use cert_generator.Vault.Recovery.{IsChoice}
use cert_generator.Vault.Enable.{
  store_password_wrap-opens, recovery_settings, store_recovery_wrap_lem, recovery_settings-opens,
  Refuses, recovery_settings-Refuses,
}

module _ (lib : Crypto) where
  -- what an unlock leaves: the secrets read as before, and the password opens the database
  pub record IsUnlocked (plains : Rows) (password : Text) (v' : Vault) : Type 0 where
    pub loaded : is_some v'.master ≡ true
    pub reads : Reads lib v'.master v'.rows plains
    pub by_password : key_for_password lib v'.settings password ≡ (v'.master, false)

module _ (lib : Crypto) (c : IsCrypto lib) where
  has_recovery_key :
      (recovery_key key : Text) (v : Vault)
      → key_for_recovery_key lib v.settings recovery_key ≡ some key
      → is_none v.settings.recovery_wrapped_key ≡ false
  unfolding key_for_recovery_key
  has_recovery_key recovery_key key v opens = ground (arith, opens)

  -- The right password unlocks the database, also one of the format before 2.6.0, which is moved to
  -- a data key on the way: every secret then reads as it did under the key of the password, and the
  -- password still opens the database, in the new format.
  pub unlock_if-IsUnlocked :
      (password key : Text) (legacy : Bool) (plains : Rows) (v : Vault)
      → key_for_password lib v.settings password ≡ (some key, legacy)
      → Reads lib (some key) v.rows plains
      → IsPlain plains
      → (v' : Vault) × (unlock_if lib password true v ≡ ok (v', true))
        × IsUnlocked lib plains password v'
  unfolding unlock_if open_with_password upgrade
  unlock_if-IsUnlocked password key false plains v opens reads plain =
      let opened : open_with_password lib password v ≡ ok (v, some key) =
        rw (open_with_password, ap (λ r. r.0) opens, ap (λ r. r.1) opens) refl in
      (
        record v { master = some key },
        rw (unlock_if, opened) refl,
        record { loaded = refl; reads = reads; by_password = opens },
      )
  unlock_if-IsUnlocked password key true plains v opens reads plain =
      let data_key = lib.token_bytes 32 v.drawn in
      let after = suc v.drawn + count_rows lib v.rows in
      let (rows, rows_ok, new_reads, sealed) =
        reencrypt_all-Reads lib c (some key) data_key (suc v.drawn) v.rows plains reads plain in
      let moved : Vault = record v {
        rows = rows;
        settings = store_password_wrap lib after password data_key v.settings;
        drawn = after + 2;
      } in
      let upgraded : upgrade lib password key v ≡ ok (moved, some data_key) =
        rw (upgrade, rows_ok) refl in
      let opened : open_with_password lib password v ≡ ok (moved, some data_key) =
        rw (open_with_password, ap (λ r. r.0) opens, ap (λ r. r.1) opens) upgraded in
      (
        record moved { master = some data_key },
        rw (unlock_if, opened) refl,
        record {
          loaded = refl;
          reads = new_reads;
          by_password = store_password_wrap-opens lib c after password data_key v.settings;
        },
      )

  -- A database in the format of 2.6.0 or later gets a new password with the old one: the secrets are
  -- left as they are, the new password opens them, and every recovery key still opens what it did.
  pub change_password-opens :
      (old_password new_password key : Text) (v : Vault)
      → key_for_password lib v.settings old_password ≡ (some key, false)
      → (v' : Vault) × (change_password lib old_password new_password v ≡ ok v')
        × (v'.rows ≡ v.rows)
        × (v'.master ≡ some key)
        × (key_for_password lib v'.settings new_password ≡ (some key, false))
        × ((recovery_key : Text)
            → key_for_recovery_key lib v'.settings recovery_key
              ≡ key_for_recovery_key lib v.settings recovery_key)
  unfolding change_password open_with_password key_for_recovery_key store_password_wrap
  change_password-opens old_password new_password key v opens =
      let opened : open_with_password lib old_password v ≡ ok (v, some key) =
        rw (open_with_password, ap (λ r. r.0) opens, ap (λ r. r.1) opens) refl in
      (
        record v {
          settings = store_password_wrap lib v.drawn new_password key v.settings;
          master = some key;
          drawn = v.drawn + 2;
        },
        rw (change_password, opened) refl,
        refl,
        refl,
        store_password_wrap-opens lib c v.drawn new_password key v.settings,
        λ r. refl,
      )

  -- A recovery key opens the database for a new password: the secrets are left as they are, the new
  -- password and the new recovery key open them, and the recovery key that was used does not any
  -- more, if AES-GCM refuses, under the key that HKDF derives from the used one and the newly drawn
  -- salt, what was encrypted under the key derived from the newly drawn one.
  pub recover_with_key-opens :
      (h : IsChoice lib) (recovery_key new_password key chars : Text) (v : Vault)
      → key_for_recovery_key lib v.settings recovery_key ≡ some key
      → normalize_recovery_key lib recovery_key ≡ some chars
      → Refuses lib c h (v.drawn + 2) key chars
      → (v' : Vault) × (new_recovery_key : Text) × (recover_with_key lib recovery_key new_password v
          ≡ ok (v', new_recovery_key))
        × (v'.rows ≡ v.rows)
        × (v'.master ≡ some key)
        × (key_for_password lib v'.settings new_password ≡ (some key, false))
        × (key_for_recovery_key lib v'.settings new_recovery_key ≡ some key)
        × (key_for_recovery_key lib v'.settings recovery_key ≡ none)
  unfolding recover_with_key key_for_password
  recover_with_key-opens h recovery_key new_password key chars v opens is_key refuses =
      let s = store_password_wrap lib v.drawn new_password key v.settings in
      let i = v.drawn + 2 in
      (
        record v {
          settings = recovery_settings lib c h i key s;
          master = some key;
          drawn = v.drawn + 29;
        },
        generate_recovery_key lib i,
        rw
            (
              recover_with_key,
              has_recovery_key recovery_key key v opens,
              opens,
              store_recovery_wrap_lem lib c h i key s,
            )
            refl,
        refl,
        refl,
        store_password_wrap-opens lib c v.drawn new_password key v.settings,
        recovery_settings-opens lib c h i key s,
        recovery_settings-Refuses lib c h i key recovery_key chars s is_key refuses,
      )
