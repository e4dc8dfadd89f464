-- ===== src/Examples/Relay.antt =====
-- Runs of app/relay.py and of relay_dispatch of app/routes/pal.py.
use cert_generator.Prelude.{
  ◌+◌, ◌*◌, ◌-◌, ◌%◌, length, take, ℕ, zero, suc, ◌≡◌, refl, true, ◌&&◌, Option, some, [], ◌∷◌,
  ◌++◌, Text, codes, text_eq, is_some, if◌then◌else◌, ◌==◌, pos, ok, arith,
}
use cert_generator.Pal.Json.{Json, Fields, whole, text, object, no_fields, field, get}
use cert_generator.Relay.{Library}
use cert_generator.Relay.Bytes.{to_bytes, der_to_p1363}
use cert_generator.Relay.Envelope.{
  Envelope, Request, envelope_json, b64url, b64url_decode, load_point, keys_of_exchange,
  signing_string, request_aad, parse_request, verify_request, open_request, seal_request,
}
use cert_generator.Relay.Encoded.{equals, IsBase64, IsPoint}
use cert_generator.Relay.Sealed
use cert_generator.Relay.Sealed.{Agreement, open_request-seal_request}

abbrev pub zeros : ℕ → Text
zeros zero = []
zeros (suc n) = 0 ∷ zeros n

abbrev pub device_id : Text
device_id = codes "00112233445566778899aabbccddeeff"

abbrev pub nonce : Text
nonce = codes "0123456789abcdef"

-- the one point of the example
abbrev pub point : Text
point = 4 ∷ zeros 64

abbrev pub iv : Text
iv = zeros 12

abbrev pub inner : Fields
inner = field (codes "method") (text (codes "GET")) (
    field (codes "path") (text (codes "/api/pal/v1/device")) (
      field (codes "headers") (object (field (codes "X-Pal-Device") (text device_id) no_fields))
        (field (codes "body") (text []) no_fields)))

-- An encoding whose texts are one character short of a multiple of four: a digit, the bytes, and as
-- many fillers as the digit says.
abbrev fill : ℕ → ℕ
fill n = (2 + 3 * n) % 4

abbrev fillers : ℕ → Text
fillers zero = []
fillers (suc n) = b'A' ∷ fillers n

abbrev pub encoded : Text → Text
encoded s = (b'0' + fill (length s)) ∷ (s ++ fillers (fill (length s)))

abbrev decoded : Text → Text
decoded [] = []
decoded (digit ∷ s) = take (length s - 1 - (digit - b'0')) s

-- the numbers 1 and 2, of 32 bytes each
abbrev signature_bytes : Text
signature_bytes = zeros 31 ++ 1 ∷ (zeros 31 ++ 2 ∷ [])

abbrev pub envelope : Envelope
envelope = record {
  d = device_id;
  t = pos 1000;
  n = nonce;
  e = encoded point;
  i = encoded iv;
  c = encoded (codes "inner");
  s = encoded signature_bytes;
}

abbrev pub response : Fields
response = field (codes "status") (whole 200) (
    field (codes "headers") (object no_fields)
      (field (codes "body") (text (encoded (codes "body"))) no_fields))

abbrev pub reply : Json
reply = object (
    field (codes "v") (whole 1) (
      field (codes "n") (text nonce) (
        field (codes "i") (text (encoded iv))
          (field (codes "c") (text (encoded (codes "response"))) no_fields))))

-- the texts of the four values of the example
abbrev written : Json → Text
written (object fs) =
    if is_some (get (codes "d") fs)
    then codes "envelope"
    else if is_some (get (codes "v") fs)
    then codes "reply"
    else if is_some (get (codes "status") fs)
    then codes "response"
    else codes "inner"
written _ = []

abbrev read : Text → Option Json
read s =
    if text_eq s (codes "envelope")
    then some (envelope_json envelope)
    else if text_eq s (codes "reply")
    then some reply
    else if text_eq s (codes "response")
    then some (object response)
    else some (object inner)

abbrev pub lib : Library
lib = record {
  b64encode = λ s. encoded s ++ equals 1;
  b64decode = λ s. some (decoded s);
  loads = read;
  dumps = written;
  dumps_spaced = written;
  str_int = λ n. codes "1000";
  encode = some;
  public_raw = λ k. point;
  is_point = λ p. true;
  is_p256_key = λ der. true;
  fits_float = λ n. true;
  exchange = λ k p. codes "shared";
  hkdf = λ shared salt info. info;
  encrypt = λ k n p a. p;
  decrypt = λ k n c a. some c;
  sign = λ k m. (1, 2);
  verify = λ k rs m. text_eq k (codes "good") && rs.0 == 1;
}

abbrev aad : Text
aad = request_aad lib device_id (pos 1000) nonce

abbrev device_key : Text
device_key = codes "private"

abbrev pub relay_key : Text
relay_key = codes "relay"

abbrev one_time : Text
one_time = codes "one time"

abbrev message : Text
message = signing_string lib (record envelope { s = [] })

pub point-IsBase64 : IsBase64 lib point
point-IsBase64 = record {
  body = encoded point;
  padding = 1;
  shape = refl;
  filled = refl;
  little = omega arith;
  clean = refl;
  short = omega arith;
  decodes = refl;
}

pub iv-IsBase64 : IsBase64 lib iv
iv-IsBase64 = record {
  body = encoded iv;
  padding = 1;
  shape = refl;
  filled = refl;
  little = omega arith;
  clean = refl;
  short = omega arith;
  decodes = refl;
}

pub inner-IsBase64 : IsBase64 lib (codes "inner")
inner-IsBase64 = record {
  body = encoded (codes "inner");
  padding = 1;
  shape = refl;
  filled = refl;
  little = omega arith;
  clean = refl;
  short = omega arith;
  decodes = refl;
}

pub signature-IsBase64 : IsBase64 lib signature_bytes
signature-IsBase64 = record {
  body = encoded signature_bytes;
  padding = 1;
  shape = refl;
  filled = refl;
  little = omega arith;
  clean = refl;
  short = omega arith;
  decodes = refl;
}

point_on_curve : IsPoint lib point
point_on_curve = record { size = refl; first = refl; on_curve = refl }

agree : Agreement lib relay_key one_time
agree = record { shared = refl; relay_point = point_on_curve; own_point = point_on_curve }

documented :
    Sealed.Documented lib device_key
      (codes "good")
      relay_key
      one_time
      device_id
      nonce
      iv
      aad
      message
      (pos 1000)
      inner
unfolding b64url b64url_decode load_point keys_of_exchange der_to_p1363 to_bytes
documented = record {
  agreement = agree;
  encoded_aad = refl;
  encoded_message = refl;
  deciphers = λ k n p a. refl;
  reads_inner = refl;
  reads_envelope = refl;
  base64_epk = point-IsBase64;
  base64_iv = iv-IsBase64;
  base64_sealed = inner-IsBase64;
  base64_signature = signature-IsBase64;
  numbers = omega arith;
  verifies = refl;
  short = omega arith;
  id_length = refl;
  nonce_length = omega arith;
  iv_length = refl;
}

open_request-seal_request_example :
    (data_and_key : Text × Text) × (req : Request) × (seal_request lib device_key device_id point
        inner
        (pos 1000)
        nonce
        one_time
        iv
      ≡ ok data_and_key)
    × (parse_request lib data_and_key.0 ≡ ok req)
    × (verify_request lib req (codes "good") ≡ true)
    × (open_request lib req relay_key ≡ ok (inner, data_and_key.1))
    × (req.device_id ≡ device_id)
    × (req.timestamp ≡ pos 1000)
    × (req.nonce ≡ nonce)
open_request-seal_request_example =
    open_request-seal_request lib device_key (codes "good") relay_key one_time device_id nonce iv
      aad message (pos 1000) inner documented
