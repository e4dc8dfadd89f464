-- ===== src/Vault/Enable.antt =====
-- Encryption switched on and off again, by `enable_encryption` and `disable_encryption` of app/db.py.
use cert_generator.Prelude.{
  ◌∙◌, ℕ, suc, ◌+◌, ◌≡◌, refl, true, false, not, Option, none, some, List, [], ◌∷◌, all, Text, ok,
  arith,
}
use cert_generator.Vault.{
  wrap_aad, Crypto, Rows, Settings, Vault, is_encrypted, decrypt_with, count_rows, wrap_key,
}
use cert_generator.Vault.Keys.{
  normalize_recovery_key, key_for_password, store_password_wrap, store_recovery_wrap,
  generate_recovery_key, derive_recovery_kek, drawn_chars, recovery_len, key_for_recovery_key,
}
use cert_generator.Vault.Changes.{
  is_encryption_enabled, enable_encryption, disable_encryption, clear_keys, name_setting,
}
use cert_generator.Vault.Readable.{
  unwrap_key-decrypt, IsCrypto, Reads, Every, IsPlain, read, reencrypt_all-Reads,
  reencrypt_all-plain, unwrap_key-wrap_key,
}
use cert_generator.Vault.Recovery.{IsChoice, normalize_recovery_key-generate_recovery_key}

module _ (lib : Crypto) where
  -- of an encrypted database that is unlocked: the secrets read as before, and what opens it
  pub record IsOpened (plains : Rows) (password recovery_key : Text) (v : Vault) : Type 0 where
    pub reads : Reads lib v.master v.rows plains
    pub sealed : Every is_encrypted v.rows
    pub by_password : key_for_password lib v.settings password ≡ (v.master, false)
    pub by_recovery_key : key_for_recovery_key lib v.settings recovery_key ≡ v.master

module _ (lib : Crypto) (c : IsCrypto lib) where
  -- What `_store_password_wrap` stores is opened by the password.
  pub store_password_wrap-opens :
      (i : ℕ) (password data_key : Text) (s : Settings)
      → key_for_password lib (store_password_wrap lib i password data_key s) password
        ≡ (some data_key, false)
  unfolding store_password_wrap key_for_password
  store_password_wrap-opens i password data_key s =
      rw (unwrap_key-wrap_key lib c (suc i) data_key (lib.scrypt password (lib.token_bytes 32 i)))
        refl

module _ (lib : Crypto) (c : IsCrypto lib) (h : IsChoice lib) where
  -- a value that is not encrypted is read without a key
  read-plain :
      (values : List Text)
      → all (λ v. not (is_encrypted v)) values ≡ true
      → read lib none values ≡ ok values
  unfolding decrypt_with
  read-plain [] e = refl
  read-plain (v ∷ values) e =
      let is_plain : is_encrypted v ≡ false = ground (arith, e) in
      let first : decrypt_with lib none v ≡ ok v = rw (decrypt_with, is_plain) refl in
      rw (first, read-plain values (ground (arith, e))) refl

  Reads-plain : (r : Rows) → IsPlain r → Reads lib none r r
  Reads-plain r p = record {
    ca_keys = read-plain r.ca_keys p.ca_keys;
    cert_keys = read-plain r.cert_keys p.cert_keys;
    ssh_keys = read-plain r.ssh_keys p.ssh_keys;
    code_keys = read-plain r.code_keys p.code_keys;
    totp_secrets = read-plain r.totp_secrets p.totp_secrets;
  }

  derive_recovery_kek-generate_recovery_key :
      (i : ℕ) (salt : Text)
      → derive_recovery_kek lib (generate_recovery_key lib i) salt
        ≡ some (lib.hkdf (drawn_chars lib i recovery_len) salt)
  unfolding derive_recovery_kek
  derive_recovery_kek-generate_recovery_key i salt =
      rw (derive_recovery_kek, normalize_recovery_key-generate_recovery_key lib h i) refl

  -- the settings after `_store_recovery_wrap`
  abbrev pub recovery_settings : ℕ → Text → Settings → Settings
  recovery_settings i data_key s =
      let salt = lib.token_bytes 32 (i + 25) in
      record s {
        recovery_salt = some salt;
        recovery_wrapped_key =
            some (wrap_key lib (i + 26) data_key (lib.hkdf (drawn_chars lib i recovery_len) salt));
      }

  pub store_recovery_wrap_lem :
      (i : ℕ) (data_key : Text) (s : Settings)
      → store_recovery_wrap lib i data_key s
        ≡ ok (recovery_settings i data_key s, generate_recovery_key lib i)
  unfolding store_recovery_wrap
  store_recovery_wrap_lem i data_key s =
      rw
        (
          store_recovery_wrap,
          derive_recovery_kek-generate_recovery_key i (lib.token_bytes 32 (i + 25)),
        )
        refl

  pub recovery_settings-opens :
      (i : ℕ) (data_key : Text) (s : Settings)
      → key_for_recovery_key lib (recovery_settings i data_key s) (generate_recovery_key lib i)
        ≡ some data_key
  unfolding key_for_recovery_key
  recovery_settings-opens i data_key s =
      let salt = lib.token_bytes 32 (i + 25) in
      rw (key_for_recovery_key, derive_recovery_kek-generate_recovery_key i salt)
        (unwrap_key-wrap_key lib c (i + 26) data_key
          (lib.hkdf (drawn_chars lib i recovery_len) salt))

  -- AES-GCM refuses what the code derives from another recovery key.
  abbrev pub Refuses : ℕ → Text → Text → Type 0
  Refuses i data_key chars =
      let salt = lib.token_bytes 32 (i + 25) in
      let nonce = lib.token_bytes 12 (i + 26) in
      lib.decrypt (lib.hkdf chars salt) nonce
        (lib.encrypt (lib.hkdf (drawn_chars lib i recovery_len) salt) nonce data_key wrap_aad)
        wrap_aad
      ≡ none

  pub recovery_settings-Refuses :
      (i : ℕ) (data_key recovery_key chars : Text) (s : Settings)
      → normalize_recovery_key lib recovery_key ≡ some chars
      → Refuses i data_key chars
      → key_for_recovery_key lib (recovery_settings i data_key s) recovery_key ≡ none
  unfolding key_for_recovery_key derive_recovery_kek
  recovery_settings-Refuses i data_key recovery_key chars s is_key refuses =
      let salt = lib.token_bytes 32 (i + 25) in
      rw (key_for_recovery_key, is_key)
        (unwrap_key-decrypt lib c (i + 26) data_key (lib.hkdf (drawn_chars lib i recovery_len) salt)
            (lib.hkdf chars salt)
          ∙ refuses)

  -- What `_store_recovery_wrap` stores is opened by the key that it returns.
  pub store_recovery_wrap-opens :
      (i : ℕ) (data_key : Text) (s : Settings)
      → (salt wrapped recovery_key : Text) × (store_recovery_wrap lib i data_key s
          ≡ ok (
            record s { recovery_salt = some salt; recovery_wrapped_key = some wrapped },
            recovery_key,
          ))
        × (key_for_recovery_key lib
              (record s { recovery_salt = some salt; recovery_wrapped_key = some wrapped })
              recovery_key
            ≡ some data_key)
  unfolding store_recovery_wrap key_for_recovery_key
  store_recovery_wrap-opens i data_key s =
      let salt = lib.token_bytes 32 (i + 25) in
      let kek = lib.hkdf (drawn_chars lib i recovery_len) salt in
      let known = derive_recovery_kek-generate_recovery_key i salt in
      (
        salt,
        wrap_key lib (i + 26) data_key kek,
        generate_recovery_key lib i,
        rw (store_recovery_wrap, known) refl,
        rw (key_for_recovery_key, known) (unwrap_key-wrap_key lib c (i + 26) data_key kek),
      )

  -- Encryption that is not on can be switched on: every secret is then stored encrypted and reads
  -- as it did, and the password and the recovery key that is returned both open the database.
  pub enable_encryption-IsOpened :
      (password : Text) (username : Option Text) (v : Vault)
      → is_encryption_enabled v ≡ false
      → IsPlain v.rows
      → (v' : Vault) × (recovery_key : Text) × (enable_encryption lib password username v
          ≡ ok (v', recovery_key))
        × IsOpened lib v.rows password recovery_key v'
  unfolding enable_encryption key_for_password key_for_recovery_key
  enable_encryption-IsOpened password username v off plain =
      let data_key = lib.token_bytes 32 v.drawn in
      let after = suc v.drawn + count_rows lib v.rows in
      let s = store_password_wrap lib after password data_key v.settings in
      let (salt, wrapped, recovery_key, stored, opens) =
        store_recovery_wrap-opens (after + 2) data_key s in
      let (rows, rows_ok, reads, sealed) =
        reencrypt_all-Reads lib c none data_key (suc v.drawn) v.rows v.rows
          (Reads-plain v.rows plain) plain in
      (
        record v {
          rows = rows;
          settings = record s {
            recovery_salt = some salt;
            recovery_wrapped_key = some wrapped;
            login_username = name_setting username s.login_username;
          };
          master = some data_key;
          drawn = after + 29;
        },
        recovery_key,
        rw (off, rows_ok, stored) refl,
        record {
          reads = reads;
          sealed = sealed;
          by_password = store_password_wrap-opens lib c after password data_key v.settings;
          by_recovery_key = opens;
        },
      )

module _ (lib : Crypto) (c : IsCrypto lib) where
  -- Encryption that is on can be switched off with a password that opens the database, unless
  -- Cloudflare or the relay is set up: every secret is then stored as it read.
  pub disable_encryption-plain :
      (password key : Text) (plains : Rows) (v : Vault)
      → is_encryption_enabled v ≡ true
      → v.settings.cloudflare_token ≡ none
      → v.settings.pal_relay_key ≡ none
      → v.settings.pal_relay_token ≡ none
      → (key_for_password lib v.settings password).0 ≡ some key
      → Reads lib (some key) v.rows plains
      → disable_encryption lib password v
        ≡ ok (record v { rows = plains; settings = clear_keys v.settings; master = none })
  unfolding disable_encryption key_for_password
  disable_encryption-plain password key plains v on cloudflare relay_key relay_token opens reads =
      rw
        (
          disable_encryption,
          on,
          cloudflare,
          relay_key,
          relay_token,
          opens,
          reencrypt_all-plain lib c (some key) v.drawn v.rows plains reads,
        )
        refl
