-- ===== src/Vault/Readable.antt =====
-- What was encrypted or wrapped by app/crypto_engine.py is read back, and a change of keys by
-- `_reencrypt_all` of app/db.py keeps every value readable.
use cert_generator.Prelude.{
  ◌∙◌, ℕ, suc, ◌+◌, ◌≡◌, refl, Bool, true, false, not, Option, none, some, List, [], ◌∷◌, ◌++◌, all,
  length, take, drop, Text, Result, ok, ◌>>=◌, for_each, bind-ok, ok-injective, arith, Bool-cases,
  inl, inr, ap, subst, sym,
}
use cert_generator.Vault.{
  Crypto, Error, Rows, wrap_aad, is_encrypted, encrypt_column, decrypt_column, wrap_key, unwrap_key,
  decrypt_with, reencrypt, reencrypt_column, reencrypt_all,
}

-- what the cryptography package and `secrets` are documented to do
pub record IsCrypto (lib : Crypto) : Type 0 where
  pub length-token : (n i : ℕ) → length (lib.token_bytes n i) ≡ n
  pub decrypts :
      (key nonce plain aad : Text)
      → lib.decrypt key nonce (lib.encrypt key nonce plain aad) aad ≡ some plain

take-append : (s t : Text) → take (length s) (s ++ t) ≡ s
take-append [] t = refl
take-append (c ∷ s) t = ap (λ r. c ∷ r) (take-append s t)

drop-append : (s t : Text) → drop (length s) (s ++ t) ≡ t
drop-append [] t = refl
drop-append (c ∷ s) t = drop-append s t

take-12 : (s t : Text) → length s ≡ 12 → take 12 (s ++ t) ≡ s
take-12 s t h = rw (← h) (take-append s t)

drop-12 : (s t : Text) → length s ≡ 12 → drop 12 (s ++ t) ≡ t
drop-12 s t h = rw (← h) (drop-append s t)

abbrev pub AllPlain : List Text → Type 0
AllPlain plains = all (λ p. not (is_encrypted p)) plains ≡ true

-- every value of every table meets a test
pub record Every (test : Text → Bool) (r : Rows) : Type 0 where
  pub ca_keys : all test r.ca_keys ≡ true
  pub cert_keys : all test r.cert_keys ≡ true
  pub ssh_keys : all test r.ssh_keys ≡ true
  pub code_keys : all test r.code_keys ≡ true
  pub totp_secrets : all test r.totp_secrets ≡ true

abbrev pub IsPlain : Rows → Type 0
IsPlain r = Every (λ v. not (is_encrypted v)) r

module _ (lib : Crypto) where
  -- the values of one column as they are read with a key
  abbrev pub read : Option Text → List Text → Result Error (List Text)
  read key values = for_each (decrypt_with lib key) values

  pub record IsRewritten (key : Text) (plains values : List Text) : Type 0 where
    pub reads : read (some key) values ≡ ok plains
    pub sealed : all is_encrypted values ≡ true

  -- every value of every table is read with a key
  pub record Reads (key : Option Text) (r plains : Rows) : Type 0 where
    pub ca_keys : read key r.ca_keys ≡ ok plains.ca_keys
    pub cert_keys : read key r.cert_keys ≡ ok plains.cert_keys
    pub ssh_keys : read key r.ssh_keys ≡ ok plains.ssh_keys
    pub code_keys : read key r.code_keys ≡ ok plains.code_keys
    pub totp_secrets : read key r.totp_secrets ≡ ok plains.totp_secrets

module _ (lib : Crypto) (h : IsCrypto lib) where
  pub decrypt_column-encrypt_column :
      (i : ℕ) (plain key : Text)
      → is_encrypted plain ≡ false
      → decrypt_column lib (encrypt_column lib i plain key) key ≡ some plain
  unfolding decrypt_column encrypt_column
  decrypt_column-encrypt_column i plain key new =
      let nonce = lib.token_bytes 12 i in
      let cipher = lib.encrypt key nonce plain [] in
      rw new (
        rw (take-12 nonce cipher (h.length-token 12 i), drop-12 nonce cipher (h.length-token 12 i))
          (h.decrypts key nonce plain []))

  pub encrypt_column-is_encrypted :
      (i : ℕ) (plain key : Text) → is_encrypted (encrypt_column lib i plain key) ≡ true
  unfolding encrypt_column
  encrypt_column-is_encrypted i plain key = elim (Bool-cases (is_encrypted plain)) [
    | inl old ↦ rw (old, encrypt_column) old
    | inr new ↦ rw (new, encrypt_column) refl
  ]

  -- Any key meets the copy as it was encrypted.
  pub unwrap_key-decrypt :
      (i : ℕ) (data_key kek other : Text)
      → unwrap_key lib (wrap_key lib i data_key kek) other
        ≡ lib.decrypt other
            (lib.token_bytes 12 i)
            (lib.encrypt kek (lib.token_bytes 12 i) data_key wrap_aad)
            wrap_aad
  unfolding unwrap_key wrap_key
  unwrap_key-decrypt i data_key kek other =
      let nonce = lib.token_bytes 12 i in
      let cipher = lib.encrypt kek nonce data_key wrap_aad in
      rw (take-12 nonce cipher (h.length-token 12 i), drop-12 nonce cipher (h.length-token 12 i))
        refl

  pub unwrap_key-wrap_key :
      (i : ℕ) (data_key kek : Text)
      → unwrap_key lib (wrap_key lib i data_key kek) kek ≡ some data_key
  unwrap_key-wrap_key i data_key kek =
      unwrap_key-decrypt i data_key kek kek
      ∙ h.decrypts kek (lib.token_bytes 12 i) data_key wrap_aad

  decrypt_with-encrypt_column :
      (i : ℕ) (plain key : Text)
      → is_encrypted plain ≡ false
      → decrypt_with lib (some key) (encrypt_column lib i plain key) ≡ ok plain
  unfolding decrypt_with
  decrypt_with-encrypt_column i plain key new =
      rw (encrypt_column-is_encrypted i plain key, decrypt_column-encrypt_column i plain key new)
        refl

  pub reencrypt_column-IsRewritten :
      (old : Option Text) (key : Text) (i : ℕ) (values plains : List Text)
      → read lib old values ≡ ok plains
      → AllPlain plains
      → (news : List Text) × (reencrypt_column lib old (some key) i values ≡ ok news)
        × IsRewritten lib key plains news
  unfolding reencrypt_column reencrypt
  reencrypt_column-IsRewritten old key i [] plains e p =
      let same : [] ≡ plains = ok-injective (read lib old []) refl e in
      ([], refl, rw (← same) (record { reads = refl; sealed = refl }))
  reencrypt_column-IsRewritten old key i (value ∷ values) plains e p =
      let (plain, plain_ok, rest) =
        bind-ok (decrypt_with lib old value) (λ b. read lib old values >>= λ bs. ok (b ∷ bs)) plains
          e in
      let (others, others_ok, last) =
        bind-ok (read lib old values) (λ bs. ok (plain ∷ bs)) plains rest in
      let same : plain ∷ others ≡ plains = ok-injective _ refl last in
      let all_plain : AllPlain (plain ∷ others) = subst AllPlain (sym same) p in
      let (news, news_ok, rewritten) =
        reencrypt_column-IsRewritten old key (suc i) values others others_ok
          (ground (arith, all_plain)) in
      let new = encrypt_column lib i plain key in
      let first : reencrypt lib old (some key) i value ≡ ok new = rw (reencrypt, plain_ok) refl in
      let is_new : is_encrypted plain ≡ false = ground (arith, all_plain) in
      (
        new ∷ news,
        rw (first, news_ok) refl,
        subst (λ ps. IsRewritten lib key ps (new ∷ news)) same
            (record {
              reads = rw (decrypt_with-encrypt_column i plain key is_new, rewritten.reads) refl;
              sealed = ground (arith, encrypt_column-is_encrypted i plain key, rewritten.sealed);
            }),
      )

  -- Without a new key every value becomes what it was read as.
  pub reencrypt_column-plain :
      (old : Option Text) (i : ℕ) (values plains : List Text)
      → read lib old values ≡ ok plains
      → reencrypt_column lib old none i values ≡ ok plains
  unfolding reencrypt_column reencrypt
  reencrypt_column-plain old i [] plains e = e
  reencrypt_column-plain old i (value ∷ values) plains e =
      let (plain, plain_ok, rest) =
        bind-ok (decrypt_with lib old value) (λ b. read lib old values >>= λ bs. ok (b ∷ bs)) plains
          e in
      let (others, others_ok, last) =
        bind-ok (read lib old values) (λ bs. ok (plain ∷ bs)) plains rest in
      let first : reencrypt lib old none i value ≡ ok plain = rw (reencrypt, plain_ok) refl in
      rw (first, reencrypt_column-plain old (suc i) values others others_ok) last

  pub reencrypt_all-Reads :
      (old : Option Text) (key : Text) (n : ℕ) (r plains : Rows)
      → Reads lib old r plains
      → IsPlain plains
      → (r' : Rows) × (reencrypt_all lib old (some key) n r ≡ ok r')
        × Reads lib (some key) r' plains
        × Every is_encrypted r'
  unfolding reencrypt_all
  reencrypt_all-Reads old key n r plains e p =
      let (cas, e1, w1) =
        reencrypt_column-IsRewritten old key n r.ca_keys plains.ca_keys e.ca_keys p.ca_keys in
      let (certs, e2, w2) =
        reencrypt_column-IsRewritten old key (n + length r.ca_keys) r.cert_keys plains.cert_keys
          e.cert_keys p.cert_keys in
      let (keys, e3, w3) =
        reencrypt_column-IsRewritten old key (n + length r.ca_keys + length r.cert_keys) r.ssh_keys
          plains.ssh_keys e.ssh_keys p.ssh_keys in
      let (code_keys, e4, w4) =
        reencrypt_column-IsRewritten old key
          (n + length r.ca_keys + length r.cert_keys + length r.ssh_keys) r.code_keys
          plains.code_keys e.code_keys p.code_keys in
      let (secrets, e5, w5) =
        reencrypt_column-IsRewritten old key
          (n + length r.ca_keys + length r.cert_keys + length r.ssh_keys + length r.code_keys)
          r.totp_secrets plains.totp_secrets e.totp_secrets p.totp_secrets in
      (
        record {
          ca_keys = cas;
          cert_keys = certs;
          ssh_keys = keys;
          code_keys = code_keys;
          totp_secrets = secrets;
        },
        rw (e1, e2, e3, e4, e5) refl,
        record {
          ca_keys = w1.reads;
          cert_keys = w2.reads;
          ssh_keys = w3.reads;
          code_keys = w4.reads;
          totp_secrets = w5.reads;
        },
        record {
          ca_keys = w1.sealed;
          cert_keys = w2.sealed;
          ssh_keys = w3.sealed;
          code_keys = w4.sealed;
          totp_secrets = w5.sealed;
        },
      )

  pub reencrypt_all-plain :
      (old : Option Text) (n : ℕ) (r plains : Rows)
      → Reads lib old r plains
      → reencrypt_all lib old none n r ≡ ok plains
  unfolding reencrypt_all
  reencrypt_all-plain old n r plains e =
      rw
        (
          reencrypt_column-plain old n r.ca_keys plains.ca_keys e.ca_keys,
          reencrypt_column-plain old (n + length r.ca_keys) r.cert_keys plains.cert_keys
              e.cert_keys,
          reencrypt_column-plain old (n + length r.ca_keys + length r.cert_keys) r.ssh_keys
              plains.ssh_keys e.ssh_keys,
          reencrypt_column-plain old (n + length r.ca_keys + length r.cert_keys + length r.ssh_keys)
              r.code_keys plains.code_keys e.code_keys,
          reencrypt_column-plain old
              (n + length r.ca_keys + length r.cert_keys + length r.ssh_keys + length r.code_keys)
              r.totp_secrets plains.totp_secrets e.totp_secrets,
        )
        refl
