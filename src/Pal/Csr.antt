-- ===== src/Pal/Csr.antt =====
-- `load_csr` and `public_key_algorithm` of app/crypto_engine.py: what a certificate request must be.
use cert_generator.Prelude.{
  ℕ, ◌*◌, Bool, not, Option, none, some, ltb, ◌==◌, if◌then◌else◌, Text, codes, text_eq, Result, ok,
  refuse_if, or_raise, ◌>>=◌, ◌>>◌,
}

-- the kinds of key that the code tells apart
pub data Key : Type 0 where
  elliptic : Text → Key  -- by the name of its curve
  rsa : ℕ → Key  -- by its size
  other_key : Key

pub record Csr : Type 0 where
  pub is_signature_valid : Bool
  pub public_key : Key

pub data CsrError : Type 0 where
  too_large unreadable bad_signature unsupported_key : CsrError

abbrev pub max_csr_bytes : ℕ
max_csr_bytes = 16 * 1024

unfoldable pub public_key_algorithm : Key → Option Text
public_key_algorithm (elliptic curve) =
    if text_eq curve (codes "secp256r1")
    then some (codes "ecdsa-p256")
    else if text_eq curve (codes "secp384r1")
    then some (codes "ecdsa-p384")
    else none
public_key_algorithm (rsa size) =
    if size == 2048
    then some (codes "rsa-2048")
    else if size == 3072
    then some (codes "rsa-3072")
    else if size == 4096
    then some (codes "rsa-4096")
    else none
public_key_algorithm other_key = none

-- `bytes` is the length of the text in UTF-8, and `csr` what the cryptography library reads in it,
-- with its key; `none` is the `ValueError` or `UnsupportedAlgorithm` of any of the three calls.
unfoldable pub load_csr : ℕ → Option Csr → Result CsrError (Key × Text)
load_csr bytes csr = do
  refuse_if (ltb max_csr_bytes bytes) too_large
  read ← or_raise unreadable csr
  refuse_if (not read.is_signature_valid) bad_signature
  algorithm ← or_raise unsupported_key (public_key_algorithm read.public_key)
  ok (read.public_key, algorithm)
