-- ===== src/Vault/Keys.antt =====
-- The keys of app/db.py and app/crypto_engine.py: what a password or a recovery key opens, and how
-- the data key is stored under them.
use cert_generator.Prelude.{
  ℕ, zero, suc, ◌+◌, Bool, true, false, ◌&&◌, ◌||◌, Option, none, some, [], ◌∷◌, ◌++◌, all, length,
  ◌==◌, take, drop, map, if◌then◌else◌, Text, codes, contains, text_eq, is_space, Result, ok,
  refuse, ◌>>=◌,
}
use cert_generator.Vault.{
  Crypto, Error, runtime_error, Settings, Vault, decrypt_column, wrap_key, unwrap_key,
  reencrypt_all, count_rows,
}

abbrev pub verify_plaintext : Text
verify_plaintext = codes "cert-generator-verify-token"

abbrev pub recovery_alphabet : Text
recovery_alphabet = codes "0123456789ABCDEFGHJKMNPQRSTVWXYZ"

abbrev pub recovery_len : ℕ
recovery_len = 25

-- `[c for c in s if not p(c)]`
abbrev pub without : (ℕ → Bool) → Text → Text
without p [] = []
without p (c ∷ s) = if p c then without p s else c ∷ without p s

-- `_RECOVERY_ALIASES`
abbrev pub alias_of : ℕ → ℕ
alias_of c = if c == b'O' then b'0' else if c == b'I' || c == b'L' then b'1' else c

-- five characters to a group, with `-` between the groups
unfoldable pub join_groups : ℕ → Text → Text
join_groups zero s = []
join_groups (suc zero) s = take 5 s
join_groups (suc (suc n)) s = take 5 s ++ b'-' ∷ join_groups (suc n) (drop 5 s)

module _ (lib : Crypto) where
  -- the characters drawn from this number on
  unfoldable pub drawn_chars : ℕ → ℕ → Text
  drawn_chars drawing zero = []
  drawn_chars drawing (suc n) = lib.choice recovery_alphabet drawing ∷ drawn_chars (suc drawing) n

  unfoldable pub generate_recovery_key : ℕ → Text
  generate_recovery_key drawing = join_groups 5 (drawn_chars drawing recovery_len)

  unfoldable pub normalize_recovery_key : Text → Option Text
  normalize_recovery_key text =
      let chars = map alias_of (lib.upper (without (λ c. c == b'-') (without is_space text))) in
      if length chars == recovery_len && all (λ c. contains c recovery_alphabet) chars
      then some chars
      else none

  unfoldable pub derive_recovery_kek : Text → Text → Option Text
  derive_recovery_kek recovery_key salt = elim (normalize_recovery_key recovery_key) [
    | none ↦ none
    | some canonical ↦ some (lib.hkdf canonical salt)
  ]

  abbrev is_verified : Option Text → Text → Bool
  is_verified none kek = false
  is_verified (some token) kek = elim (decrypt_column lib token kek) [
    | none ↦ false
    | some plain ↦ text_eq plain verify_plaintext
  ]

  -- `_key_for_password`: the column key, and whether the format is the old one
  unfoldable pub key_for_password : Settings → Text → Option Text × Bool
  key_for_password s password = elim s.encryption_salt [
    | none ↦ (none, false)
    | some salt ↦
        let kek = lib.scrypt password salt in
        elim s.encryption_wrapped_key [
          | some wrapped ↦ (unwrap_key lib wrapped kek, false)
          | none ↦ (if is_verified s.encryption_verify kek then some kek else none, true)
        ]
  ]

  -- `_store_password_wrap`, with two drawings
  unfoldable pub store_password_wrap : ℕ → Text → Text → Settings → Settings
  store_password_wrap drawing password data_key s =
      let salt = lib.token_bytes 32 drawing in
      let kek = lib.scrypt password salt in
      record s {
        encryption_salt = some salt;
        encryption_wrapped_key = some (wrap_key lib (suc drawing) data_key kek);
        encryption_verify = none;
      }

  -- `_store_recovery_wrap`, with 25 drawings of a character and two more
  unfoldable pub store_recovery_wrap : ℕ → Text → Settings → Result Error (Settings × Text)
  store_recovery_wrap drawing data_key s =
      let recovery_key = generate_recovery_key drawing in
      let salt = lib.token_bytes 32 (drawing + 25) in
      elim (derive_recovery_kek recovery_key salt) [
        | none ↦ refuse runtime_error
        | some kek ↦ ok (
          record s {
            recovery_salt = some salt;
            recovery_wrapped_key = some (wrap_key lib (drawing + 26) data_key kek);
          },
          recovery_key,
        )
      ]

  -- `_key_for_recovery_key`
  unfoldable pub key_for_recovery_key : Settings → Text → Option Text
  key_for_recovery_key s recovery_key = elim s.recovery_salt [
    | none ↦ none
    | some salt ↦ elim s.recovery_wrapped_key [
      | none ↦ none
      | some wrapped ↦ elim (derive_recovery_kek recovery_key salt) [
        | none ↦ none
        | some kek ↦ unwrap_key lib wrapped kek
      ]
    ]
  ]

  -- the move of a database of the old format to a data key
  unfoldable pub upgrade : Text → Text → Vault → Result Error (Vault × Option Text)
  upgrade password key v =
      let data_key = lib.token_bytes 32 v.drawn in
      let after = suc v.drawn + count_rows lib v.rows in
      reencrypt_all lib (some key) (some data_key) (suc v.drawn) v.rows >>= λ rows. ok (
        record v {
          rows = rows;
          settings = store_password_wrap after password data_key v.settings;
          drawn = after + 2;
        },
        some data_key,
      )

  -- `_open_with_password`
  unfoldable pub open_with_password : Text → Vault → Result Error (Vault × Option Text)
  open_with_password password v =
      let (key, legacy) = key_for_password v.settings password in
      elim key [
        | none ↦ ok (v, none)
        | some k ↦ if legacy then upgrade password k v else ok (v, some k)
      ]
