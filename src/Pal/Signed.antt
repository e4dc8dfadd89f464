-- ===== src/Pal/Signed.antt =====
-- `_signed_device` of app/routes/pal.py, with the signing string and the signature check of
-- app/pal.py: which PC signed a request. The clock counts ticks, `tick` of them to a second.
pub mod Kept
pub mod Replay
pub mod Sound
use cert_generator.Prelude.{
  ℕ, ◌+◌, ◌-◌, ◌*◌, ◌%◌, leb, Bool, true, false, not, ◌&&◌, ◌||◌, Option, none, some, List, [], ◌∷◌,
  ◌++◌, all, length, ltb, ◌==◌, if◌then◌else◌, is_some, is_none, Text, codes,
}
use cert_generator.Pal.Tables.{Device}
use cert_generator.Pal.Patterns.{newline, is_b64url, valid_nonce}
use cert_generator.Pal.Store.{Store, get_pal_device, touch_pal_device}
use cert_generator.Pal.Store.Rows.{use_pal_nonce}

-- what the Python library and the cryptography package do for these functions
pub record Library : Type 0 where
  pub upper : Text → Text  -- `str.upper`
  pub is_digit : ℕ → Bool  -- `str.isdigit`, of one code point
  pub int_of : Text → Option ℕ  -- `int`; `none` is a `ValueError`
  pub sha256_hex : Text → Text
  pub b64decode : Text → Option Text  -- `base64.urlsafe_b64decode`; `none` is a `ValueError`
  -- the key is an elliptic-curve key, and the signature of the message is its own
  pub verify : Text → Text → Text → Bool

-- a request: its method and path, the X-Pal-* headers and the body
pub record Signature : Type 0 where
  pub method : Text
  pub path : Text
  pub device : Text
  pub timestamp : Text
  pub nonce : Text
  pub signature : Text
  pub body : Text
  pub version : Option Text  -- `_pal_version()`
  pub via_relay : Bool  -- the WSGI key of a request out of a relay envelope

-- the device, the error to return, or a `ValueError` that is not caught
pub data Signed : Type 0 where
  signed_by : Device → Signed
  refused : ℕ → Text → Signed
  value_error : Signed

abbrev pub skew_seconds : ℕ
skew_seconds = 300

abbrev pub nonce_ttl_seconds : ℕ
nonce_ttl_seconds = 2 * skew_seconds

-- `abs(a - b)`
abbrev pub distance : ℕ → ℕ → ℕ
distance a b = (a - b) + (b - a)

abbrev device_unknown : Text
device_unknown =
    codes
      "Not connected. This server doesn't know this PC. Connect it again with a new pairing code"

abbrev pub device_revoked : Text
device_revoked =
    codes
      "Disconnected. Your admin has disconnected this PC. Connect it again with a new pairing code"

abbrev pub clock_wrong : Text
clock_wrong =
    codes
      "Clock wrong. This PC's clock is more than 5 minutes off the server's. Fix the time and try again"

abbrev replayed : Text
replayed = codes "Request replayed. The same request arrived twice; try again"

-- the three times that the function reads: for the timestamp, for the nonce, and for the row (in seconds)
pub record Clock : Type 0 where
  pub tick : ℕ
  pub at_check : ℕ
  pub at_nonce : ℕ
  pub at_touch : ℕ

module _ (lib : Library) where
  unfoldable pub request_signing_string : Text → Text → Text → Text → Text → Text
  request_signing_string method path timestamp nonce body =
      codes "CGP1-REQ"
      ++ newline ∷ lib.upper method
      ++ newline ∷ path
      ++ newline ∷ timestamp
      ++ newline ∷ nonce
      ++ newline ∷ lib.sha256_hex body

  abbrev padding : ℕ → Text
  padding n =
      if n % 4 == 0
      then []
      else if n % 4 == 1
      then codes "==="
      else if n % 4 == 2
      then codes "=="
      else codes "="

  -- `none` is a `PalError` or a `ValueError`
  unfoldable pub b64url_decode : Text → Option Text
  b64url_decode text =
      if is_b64url text then lib.b64decode (text ++ padding (length text)) else none

  unfoldable pub verify_device_signature : Text → Text → Text → Bool
  verify_device_signature key message signature = elim (b64url_decode signature) [
    | none ↦ false
    | some raw ↦ lib.verify key message raw
  ]

  -- below the look-up of the device
  signed_by_device : Clock → Signature → Store → Device → Store × Signed
  signed_by_device clock r s device =
      let message = request_signing_string r.method r.path r.timestamp r.nonce r.body in
      if not (verify_device_signature device.public_key message r.signature)
      then (s, refused 401 device_unknown)
      else elim (lib.int_of r.timestamp) [
        | none ↦ (s, value_error)
        | some time ↦
            if ltb (skew_seconds * clock.tick) (distance clock.at_check (time * clock.tick))
            then (s, refused 401 clock_wrong)
            else (let (s', fresh) =
                  use_pal_nonce clock.at_nonce (nonce_ttl_seconds * clock.tick) r.device r.nonce
                    s in
                if not fresh
                then (s', refused 401 replayed)
                else if is_some device.revoked_at
                then (s', refused 403 device_revoked)
                else (
                  touch_pal_device clock.at_touch r.device r.version
                      (if r.via_relay then codes "relay" else codes "lan") s',
                  signed_by device,
                ))
      ]

  unfoldable pub signed_device : Clock → Signature → Store → Store × Signed
  unfolding signed_by_device
  signed_device clock r s =
      let found = if length r.device == 32 then get_pal_device r.device s else none in
      elim found [
        | none ↦ (s, refused 401 device_unknown)
        | some device ↦
            if not (all lib.is_digit r.timestamp && leb 1 (length r.timestamp))
              || not (valid_nonce r.nonce)
            then (s, refused 401 device_unknown)
            else signed_by_device clock r s device
      ]
