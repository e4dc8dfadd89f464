-- ===== src/Relay.antt =====
-- The remote relay: app/relay.py, the sealed envelope by which a PC away from the LAN reaches the
-- server, `relay_dispatch` of app/routes/pal.py, and app/relay_collector.py.
pub mod Envelope
pub mod Bytes
pub mod Encoded
pub mod Sealed
pub mod Reply
pub mod Dispatch
pub mod Collector
use cert_generator.Prelude.{ℕ, Bool, Option, Text, ℤ}
use cert_generator.Pal.Json.{Json}

-- What the Python library and the cryptography package do. A private key, a key in DER form and a
-- point are texts; a DER signature is the pair of its numbers.
pub record Library : Type 0 where
  pub b64encode : Text → Text  -- `base64.urlsafe_b64encode`
  pub b64decode : Text → Option Text  -- `base64.urlsafe_b64decode`; `none` is a `ValueError`
  pub loads : Text → Option Json  -- `json.loads`; `none` is a `ValueError`
  pub dumps : Json → Text  -- `json.dumps`, encoded
  pub dumps_spaced : Json → Text  -- `json.dumps` with its own separators, encoded
  pub str_int : ℤ → Text  -- `str` of an `int`
  pub encode : Text → Option Text  -- `str.encode`; `none` is a `UnicodeEncodeError`
  pub public_raw : Text → Text  -- the point of a private key
  pub is_point : Text → Bool  -- whether `from_encoded_point` takes it
  pub is_p256_key : Text → Bool  -- whether the DER form is that of a P-256 private key
  pub fits_float : ℤ → Bool  -- whether the conversion to a `float` raises no `OverflowError`
  pub exchange : Text → Text → Text  -- ECDH, of a private key and a point
  pub hkdf : Text → Text → Text → Text  -- 64 bytes, of the shared secret, the salt and the info
  pub encrypt : Text → Text → Text → Text → Text  -- AES-GCM: key, nonce, data, associated data
  pub decrypt : Text → Text → Text → Text → Option Text  -- `none` is an `InvalidTag`
  pub sign : Text → Text → ℕ × ℕ  -- ECDSA, of a private key and a message
  -- the key is an elliptic-curve key, and the signature of the message is its own
  pub verify : Text → ℕ × ℕ → Text → Bool
