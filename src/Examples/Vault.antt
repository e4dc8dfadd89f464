-- ===== src/Examples/Vault.antt =====
-- Runs of encryption at rest, with a cipher that leaves its data as it is.
use cert_generator.Vault.Keys.{
  derive_recovery_kek, join_groups, verify_plaintext, store_password_wrap, key_for_password,
  key_for_recovery_key, recovery_len, normalize_recovery_key, generate_recovery_key, drawn_chars,
}
use cert_generator.Vault.{
  decrypt_column, unwrap_key, Crypto, Rows, Settings, Vault, encrypt_column, wrap_key, decrypt_with,
}
use cert_generator.Prelude.{
  Option, ltb, if◌then◌else◌, ◌==◌, ==_refl, Bool-cases, inl, inr, ℕ, zero, suc, ◌≡◌, refl, ap,
  true, false, none, some, [], ◌∷◌, Text, codes, length, ok,
}
use cert_generator.Vault.Changes.{
  is_encryption_enabled, enable_encryption, disable_encryption, unlock_if, recover_with_key,
  clear_keys,
}
use cert_generator.Vault.Readable.{IsCrypto, Reads, IsPlain}
use cert_generator.Vault.Recovery.{IsChoice, normalize_recovery_key-generate_recovery_key}
use cert_generator.Vault.Enable.{
  Refuses, IsOpened, enable_encryption-IsOpened, disable_encryption-plain,
}
use cert_generator.Vault.Passwords.{IsUnlocked, unlock_if-IsUnlocked, recover_with_key-opens}

abbrev copies : ℕ → ℕ → Text
copies zero c = []
copies (suc n) c = c ∷ copies n c

length-copies : (n c : ℕ) → length (copies n c) ≡ n
length-copies zero c = refl
length-copies (suc n) c = ap suc (length-copies n c)

abbrev lib : Crypto
lib = record {
  token_bytes = copies;
  choice = λ alphabet i. b'7';
  scrypt = λ password salt. password;
  hkdf = λ text salt. text;
  encrypt = λ key nonce plain aad. plain;
  decrypt = λ key nonce cipher aad. some cipher;
  upper = λ s. s;
}

lib-IsCrypto : IsCrypto lib
lib-IsCrypto = record { length-token = length-copies; decrypts = λ key nonce plain aad. refl }

lib-IsChoice : IsChoice lib
lib-IsChoice = record { choice-letter = λ i. refl; upper-letters = λ s h. refl }

abbrev secrets : Rows
secrets = record {
  ca_keys = codes "ca key" ∷ [];
  cert_keys = codes "key 1" ∷ codes "key 2" ∷ [];
  ssh_keys = [];
  code_keys = codes "code" ∷ [];
  totp_secrets = codes "JBSWY3DP" ∷ [];
}

abbrev no_settings : Settings
no_settings = record {
  encryption_salt = none;
  encryption_verify = none;
  encryption_wrapped_key = none;
  recovery_salt = none;
  recovery_wrapped_key = none;
  login_username = none;
  cloudflare_token = none;
  pal_relay_key = none;
  pal_relay_token = none;
}

abbrev open_vault : Vault
open_vault = record { rows = secrets; settings = no_settings; master = none; drawn = 0 }

secrets-IsPlain : IsPlain secrets
secrets-IsPlain = record {
  ca_keys = refl;
  cert_keys = refl;
  ssh_keys = refl;
  code_keys = refl;
  totp_secrets = refl;
}

normalize_recovery_key-generate_recovery_key_example :
    normalize_recovery_key lib (generate_recovery_key lib 3) ≡ some (drawn_chars lib 3 recovery_len)
normalize_recovery_key-generate_recovery_key_example =
    normalize_recovery_key-generate_recovery_key lib lib-IsChoice 3

enable_encryption-IsOpened_example :
    (v' : Vault) × (recovery_key : Text) × (enable_encryption lib (codes "hunter2") none open_vault
      ≡ ok (v', recovery_key))
    × IsOpened lib secrets (codes "hunter2") recovery_key v'
enable_encryption-IsOpened_example =
    enable_encryption-IsOpened lib lib-IsCrypto lib-IsChoice (codes "hunter2") none open_vault refl
      secrets-IsPlain

abbrev one_key : Rows
one_key = record {
  ca_keys = codes "ca key" ∷ [];
  cert_keys = [];
  ssh_keys = [];
  code_keys = [];
  totp_secrets = [];
}

abbrev data_key : Text
data_key = codes "the data key"

-- in the format since 2.6.0, with a recovery key
abbrev sealed_vault : Vault
sealed_vault = record {
  rows = record one_key { ca_keys = encrypt_column lib 9 (codes "ca key") data_key ∷ [] };
  settings = record (store_password_wrap lib 3 (codes "hunter2") data_key no_settings) {
    recovery_salt = some (codes "salt");
    recovery_wrapped_key = some (wrap_key lib 5 data_key (codes "kek"));
  };
  master = none;
  drawn = 10;
}

-- in the format before, where the columns are under the key of the password
abbrev old_vault : Vault
old_vault = record {
  rows = record one_key { ca_keys = encrypt_column lib 9 (codes "ca key") (codes "hunter2") ∷ [] };
  settings = record no_settings {
    encryption_salt = some (codes "salt");
    encryption_verify = some (encrypt_column lib 1 verify_plaintext (codes "hunter2"));
  };
  master = none;
  drawn = 10;
}

sealed_vault-opens :
    key_for_password lib sealed_vault.settings (codes "hunter2") ≡ (some data_key, false)
unfolding key_for_password store_password_wrap unwrap_key wrap_key
sealed_vault-opens = refl

old_vault-opens :
    key_for_password lib old_vault.settings (codes "hunter2") ≡ (some (codes "hunter2"), true)
unfolding key_for_password decrypt_column encrypt_column
old_vault-opens = refl

sealed_vault-Reads : Reads lib (some data_key) sealed_vault.rows one_key
unfolding decrypt_with encrypt_column decrypt_column
sealed_vault-Reads = record {
  ca_keys = refl;
  cert_keys = refl;
  ssh_keys = refl;
  code_keys = refl;
  totp_secrets = refl;
}

old_vault-Reads : Reads lib (some (codes "hunter2")) old_vault.rows one_key
unfolding decrypt_with encrypt_column decrypt_column
old_vault-Reads = record {
  ca_keys = refl;
  cert_keys = refl;
  ssh_keys = refl;
  code_keys = refl;
  totp_secrets = refl;
}

one_key-IsPlain : IsPlain one_key
one_key-IsPlain = record {
  ca_keys = refl;
  cert_keys = refl;
  ssh_keys = refl;
  code_keys = refl;
  totp_secrets = refl;
}

sealed_vault-enabled : is_encryption_enabled sealed_vault ≡ true
unfolding store_password_wrap
sealed_vault-enabled = refl

disable_encryption-plain_example :
    disable_encryption lib (codes "hunter2") sealed_vault
    ≡ ok (record sealed_vault {
      rows = one_key;
      settings = clear_keys sealed_vault.settings;
      master = none;
    })
unfolding store_password_wrap
disable_encryption-plain_example =
    disable_encryption-plain lib lib-IsCrypto (codes "hunter2") data_key one_key sealed_vault
      sealed_vault-enabled refl refl refl (ap (λ r. r.0) sealed_vault-opens) sealed_vault-Reads

unlock_if-IsUnlocked_example :
    (v' : Vault) × (unlock_if lib (codes "hunter2") true old_vault ≡ ok (v', true))
    × IsUnlocked lib one_key (codes "hunter2") v'
unlock_if-IsUnlocked_example =
    unlock_if-IsUnlocked lib lib-IsCrypto (codes "hunter2") (codes "hunter2") true one_key old_vault
      old_vault-opens old_vault-Reads one_key-IsPlain

-- a cipher that opens only with a key of the same first byte, and two recovery keys to draw
abbrev first_byte : Text → ℕ
first_byte [] = 0
first_byte (c ∷ s) = c

abbrev open_with : ℕ → Text → Option Text
open_with k [] = none
open_with k (c ∷ s) = if c == k then some s else none

abbrev keyed : Crypto
keyed = record lib {
  choice = λ alphabet i. if ltb i 25 then b'7' else b'8';
  encrypt = λ key nonce plain aad. first_byte key ∷ plain;
  decrypt = λ key nonce cipher aad. open_with (first_byte key) cipher;
}

keyed-IsCrypto : IsCrypto keyed
keyed-IsCrypto = record {
  length-token = length-copies;
  decrypts = λ key nonce plain aad. rw (==_refl (first_byte key)) refl;
}

keyed-IsChoice : IsChoice keyed
keyed-IsChoice = record {
  choice-letter = λ i. elim (Bool-cases (ltb i 25)) [ inl e ↦ rw e refl | inr e ↦ rw e refl ];
  upper-letters = λ s h. refl;
}

abbrev keyed_vault : Vault
keyed_vault = record {
  rows = record one_key { ca_keys = [] };
  settings = record no_settings {
    recovery_salt = some (codes "salt");
    recovery_wrapped_key = some (wrap_key keyed 5 data_key (drawn_chars keyed 0 recovery_len));
  };
  master = none;
  drawn = 30;
}

keyed_vault-recovers :
    key_for_recovery_key keyed keyed_vault.settings (generate_recovery_key keyed 0) ≡ some data_key
unfolding key_for_recovery_key derive_recovery_kek normalize_recovery_key generate_recovery_key
    join_groups drawn_chars unwrap_key wrap_key
keyed_vault-recovers = refl

keyed_vault-Refuses :
    Refuses keyed keyed-IsCrypto keyed-IsChoice 32 data_key (drawn_chars keyed 0 recovery_len)
unfolding drawn_chars
keyed_vault-Refuses = refl

recover_with_key-opens_example :
    (v' : Vault) × (new_recovery_key : Text) × (recover_with_key keyed
        (generate_recovery_key keyed 0)
        (codes "correct horse")
        keyed_vault
      ≡ ok (v', new_recovery_key))
    × (v'.rows ≡ keyed_vault.rows)
    × (v'.master ≡ some data_key)
    × (key_for_password keyed v'.settings (codes "correct horse") ≡ (some data_key, false))
    × (key_for_recovery_key keyed v'.settings new_recovery_key ≡ some data_key)
    × (key_for_recovery_key keyed v'.settings (generate_recovery_key keyed 0) ≡ none)
recover_with_key-opens_example =
    recover_with_key-opens keyed keyed-IsCrypto keyed-IsChoice (generate_recovery_key keyed 0)
      (codes "correct horse") data_key (drawn_chars keyed 0 recovery_len) keyed_vault
      keyed_vault-recovers (normalize_recovery_key-generate_recovery_key keyed keyed-IsChoice 0)
      keyed_vault-Refuses
