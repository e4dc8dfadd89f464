-- ===== src/Vault.antt =====
-- Encryption at rest: the secret columns of app/db.py, and the functions of app/crypto_engine.py
-- that encrypt a column and wrap a key.
pub mod Keys
pub mod Changes
pub mod Readable
pub mod Recovery
pub mod Enable
pub mod Passwords
use cert_generator.Prelude.{
  ℕ, suc, ◌+◌, Bool, true, false, not, ◌&&◌, ◌||◌, Option, none, some, List, [], ◌∷◌, ◌++◌, all,
  length, ◌==◌, take, drop, if◌then◌else◌, is_some, is_none, Text, codes, contains, starts_with,
  is_space, Result, ok, refuse, ◌>>=◌,
}

-- What the Python library and the cryptography package do. Random values are numbered in the
-- order in which they are drawn.
pub record Crypto : Type 0 where
  pub token_bytes : ℕ → ℕ → Text  -- so many bytes, in the drawing of this number
  pub choice : Text → ℕ → ℕ  -- `secrets.choice`, in the drawing of this number
  pub scrypt : Text → Text → Text  -- of a password and a salt
  pub hkdf : Text → Text → Text  -- of a text and a salt
  pub encrypt : Text → Text → Text → Text → Text  -- AES-GCM: key, nonce, data, associated data
  pub decrypt : Text → Text → Text → Text → Option Text  -- `none` is an `InvalidTag`
  pub upper : Text → Text  -- `str.upper`

-- what these functions raise
pub data Error : Type 0 where
  user_error : Text → Error
  database_locked invalid_tag runtime_error : Error

-- `_SENSITIVE_BLOBS`, row by row, and the `totp_secret` of each user that has one
pub record Rows : Type 0 where
  pub ca_keys : List Text
  pub cert_keys : List Text
  pub ssh_keys : List Text
  pub code_keys : List Text
  pub totp_secrets : List Text

-- the rows of app_settings that these functions read
pub record Settings : Type 0 where
  pub encryption_salt : Option Text
  pub encryption_verify : Option Text
  pub encryption_wrapped_key : Option Text
  pub recovery_salt : Option Text
  pub recovery_wrapped_key : Option Text
  pub login_username : Option Text
  pub cloudflare_token : Option Text
  pub pal_relay_key : Option Text
  pub pal_relay_token : Option Text

pub record Vault : Type 0 where
  pub rows : Rows
  pub settings : Settings
  pub master : Option Text  -- `_master_key`, of the process
  pub drawn : ℕ  -- how many random values were drawn

abbrev pub enc_prefix : Text
enc_prefix = b'E' ∷ b'N' ∷ b'C' ∷ 1 ∷ []

abbrev pub wrap_prefix : Text
wrap_prefix = b'D' ∷ b'E' ∷ b'K' ∷ 1 ∷ []

abbrev pub wrap_aad : Text
wrap_aad = codes "cert-generator data key"

-- `is_column_encrypted`
abbrev pub is_encrypted : Text → Bool
is_encrypted value = starts_with value enc_prefix

abbrev pub nonce_of : Text → Text
nonce_of value = take 12 (drop 4 value)

module _ (lib : Crypto) where
  unfoldable pub encrypt_column : ℕ → Text → Text → Text
  encrypt_column drawing value key =
      if is_encrypted value
      then value
      else (let nonce = lib.token_bytes 12 drawing in
          enc_prefix ++ nonce ++ lib.encrypt key nonce value [])

  -- `none` is an `InvalidTag`
  unfoldable pub decrypt_column : Text → Text → Option Text
  decrypt_column value key =
      if is_encrypted value then lib.decrypt key (nonce_of value) (drop 16 value) [] else some value

  unfoldable pub wrap_key : ℕ → Text → Text → Text
  wrap_key drawing data_key kek =
      let nonce = lib.token_bytes 12 drawing in
      wrap_prefix ++ nonce ++ lib.encrypt kek nonce data_key wrap_aad

  unfoldable pub unwrap_key : Text → Text → Option Text
  unwrap_key wrapped kek =
      if starts_with wrapped wrap_prefix
      then lib.decrypt kek (nonce_of wrapped) (drop 16 wrapped) wrap_aad
      else none

  -- `_decrypt_with`
  unfoldable pub decrypt_with : Option Text → Text → Result Error Text
  decrypt_with key value = if not (is_encrypted value) then ok value else elim key [
    | none ↦ refuse database_locked
    | some k ↦ elim (decrypt_column value k) [ none ↦ refuse invalid_tag | some plain ↦ ok plain ]
  ]

  -- `_maybe_encrypt`
  unfoldable pub maybe_encrypt : Text → Vault → Result Error (Text × Vault)
  maybe_encrypt value v = elim v.master [
    | some key ↦ ok (encrypt_column v.drawn value key, record v { drawn = suc v.drawn })
    | none ↦ if is_some v.settings.encryption_salt then refuse database_locked else ok (value, v)
  ]

  -- `_maybe_decrypt`
  unfoldable pub maybe_decrypt : Text → Vault → Result Error Text
  maybe_decrypt value v = decrypt_with v.master value

  -- one value of `_reencrypt_all`
  unfoldable pub reencrypt : Option Text → Option Text → ℕ → Text → Result Error Text
  reencrypt old_key new_key drawing value = decrypt_with old_key value >>= λ plain. elim new_key [
    | none ↦ ok plain
    | some key ↦ ok (encrypt_column drawing plain key)
  ]

  -- one column; each value has a drawing of its own
  unfoldable pub reencrypt_column :
      Option Text → Option Text → ℕ → List Text → Result Error (List Text)
  reencrypt_column old_key new_key drawing [] = ok []
  reencrypt_column old_key new_key drawing (value ∷ values) = do
    new_value ← reencrypt old_key new_key drawing value
    new_values ← reencrypt_column old_key new_key (suc drawing) values
    ok (new_value ∷ new_values)

  abbrev pub count_rows : Rows → ℕ
  count_rows r =
      length r.ca_keys
      + length r.cert_keys
      + length r.ssh_keys
      + length r.code_keys
      + length r.totp_secrets

  -- `_reencrypt_all`
  unfoldable pub reencrypt_all : Option Text → Option Text → ℕ → Rows → Result Error Rows
  reencrypt_all old_key new_key n r = do
    cas ← reencrypt_column old_key new_key n r.ca_keys
    certs ← reencrypt_column old_key new_key (n + length r.ca_keys) r.cert_keys
    keys ← reencrypt_column old_key new_key (n + length r.ca_keys + length r.cert_keys) r.ssh_keys
    code_keys ←
        reencrypt_column old_key new_key
          (n + length r.ca_keys + length r.cert_keys + length r.ssh_keys) r.code_keys
    secrets ←
        reencrypt_column old_key new_key
          (n + length r.ca_keys + length r.cert_keys + length r.ssh_keys + length r.code_keys)
          r.totp_secrets
    ok (record {
      ca_keys = cas;
      cert_keys = certs;
      ssh_keys = keys;
      code_keys = code_keys;
      totp_secrets = secrets;
    })
