-- ===== src/Relay/Sealed.antt =====
-- app/relay.py: what a PC seals, the server opens, and the other way round.
use cert_generator.Prelude.{
  ℕ, ◌^◌, ◌≤◌, ◌<◌, ◌≡◌, refl, true, some, length, Text, ℤ, pos, negsuc, ok, arith,
}
use cert_generator.Pal.Json.{Json, Fields, object}
use cert_generator.Relay.{Library}
use cert_generator.Relay.Bytes.{p1363_to_der, der_to_p1363, p1363_to_der-der_to_p1363}
use cert_generator.Relay.Encoded.{IsBase64, b64url_decode-b64url, IsPoint, load_point-IsPoint}
use cert_generator.Relay.Envelope.{
  max_envelope, Envelope, Request, envelope_json, parse_json, b64url, keys_of_exchange,
  signing_string, request_aad, parse_request, verify_request, decrypt_inner, open_request, unsigned,
  seal_request,
}

abbrev request_of : Envelope → Request
request_of env = record { raw = env; device_id = env.d; timestamp = env.t; nonce = env.n }

parse_json-envelope_json :
    (env : Envelope)
    → length env.d ≡ 32
    → 16 ≤ length env.n
    → length env.n ≤ 64
    → parse_json (envelope_json env) ≡ ok (request_of env)
unfolding parse_json
parse_json-envelope_json env h l u = go env.t refl
  where
    go : (t : ℤ) → env.t ≡ t → parse_json (envelope_json env) ≡ ok (request_of env)
    go (pos m) e = rw e (ground arith)
    go (negsuc m) e = rw e (ground arith)

module _ (lib : Library) where
  -- what JSON is documented to do, at a value
  abbrev pub Reads : Json → Type 0
  Reads value = lib.loads (lib.dumps value) ≡ some value

  -- what the two sides of a key agreement are documented to have in common
  pub record Agreement (relay_key one_time : Text) : Type 0 where
    pub shared :
        lib.exchange one_time (lib.public_raw relay_key)
        ≡ lib.exchange relay_key (lib.public_raw one_time)
    pub relay_point : IsPoint lib (lib.public_raw relay_key)
    pub own_point : IsPoint lib (lib.public_raw one_time)

  parse_request-envelope :
      (env : Envelope)
      → Reads (envelope_json env)
      → length (lib.dumps (envelope_json env)) ≤ max_envelope
      → length env.d ≡ 32
      → 16 ≤ length env.n
      → length env.n ≤ 64
      → parse_request lib (lib.dumps (envelope_json env)) ≡ ok (request_of env)
  unfolding parse_request
  parse_request-envelope env reads small d n n' =
      rw (reads) (ground (arith, parse_json-envelope_json env d n n'))

  abbrev IsSmall : ℕ × ℕ → Type 0
  IsSmall rs = (rs.0 < 256 ^ 32) × (rs.1 < 256 ^ 32)

  p1363_to_der-sign : (rs : ℕ × ℕ) → IsSmall rs → p1363_to_der (der_to_p1363 rs) ≡ ok rs
  p1363_to_der-sign (r, s) h = p1363_to_der-der_to_p1363 r s h.0 h.1

  -- the values of one exchange: the keys, the inner request, and what the PC chose and drew
  module _ (device_key device_pub relay_key one_time : Text) (device_id nonce iv aad message : Text)
      (timestamp : ℤ) (inner : Fields) where
    abbrev pub epk : Text
    epk = lib.public_raw one_time

    abbrev pub both_keys : Text × Text
    both_keys =
        keys_of_exchange lib (lib.exchange one_time (lib.public_raw relay_key)) epk
          (lib.public_raw relay_key)

    abbrev pub sealed : Text
    sealed = lib.encrypt both_keys.0 iv (lib.dumps (object inner)) aad

    abbrev pub unsigned_one : Envelope
    unsigned_one = unsigned lib device_id timestamp nonce epk iv sealed

    abbrev pub signature : Text
    signature = der_to_p1363 (lib.sign device_key message)

    -- the envelope that `seal_request` makes
    abbrev pub sealed_envelope : Envelope
    sealed_envelope = record unsigned_one { s = b64url lib signature }

    -- what the libraries are documented to do, at these values, and the sizes of the PC's values
    pub record Documented : Type 0 where
      pub agreement : Agreement relay_key one_time
      pub encoded_aad : lib.encode (request_aad lib device_id timestamp nonce) ≡ some aad
      pub encoded_message : lib.encode (signing_string lib unsigned_one) ≡ some message
      pub deciphers : (k n p a : Text) → lib.decrypt k n (lib.encrypt k n p a) a ≡ some p
      pub reads_inner : Reads (object inner)
      pub reads_envelope : Reads (envelope_json sealed_envelope)
      pub base64_epk : IsBase64 lib epk
      pub base64_iv : IsBase64 lib iv
      pub base64_sealed : IsBase64 lib sealed
      pub base64_signature : IsBase64 lib signature
      pub numbers : IsSmall (lib.sign device_key message)
      pub verifies : lib.verify device_pub (lib.sign device_key message) message ≡ true
      pub short : length (lib.dumps (envelope_json sealed_envelope)) ≤ max_envelope
      pub id_length : length device_id ≡ 32
      pub nonce_length : (16 ≤ length nonce) × (length nonce ≤ 64)
      pub iv_length : length iv ≡ 12

    module _ (h : Documented) where
      open h use {agreement}

      seal_request_lem :
          seal_request lib device_key device_id
            (lib.public_raw relay_key)
            inner
            timestamp
            nonce
            one_time
            iv
          ≡ ok (lib.dumps (envelope_json sealed_envelope), both_keys.1)
      unfolding seal_request
      seal_request_lem =
          rw
            (
              load_point-IsPoint lib (lib.public_raw relay_key) agreement.relay_point,
              h.encoded_aad,
              h.encoded_message,
            )
            refl

      verify_request_lem : verify_request lib (request_of sealed_envelope) device_pub ≡ true
      unfolding verify_request signing_string
      verify_request_lem =
          rw
            (
              b64url_decode-b64url lib signature h.base64_signature,
              p1363_to_der-sign (lib.sign device_key message) h.numbers,
              h.encoded_message,
            )
            h.verifies

      decrypt_inner_lem :
          decrypt_inner lib both_keys.0 iv (request_of sealed_envelope) ≡ ok (object inner)
      unfolding decrypt_inner
      decrypt_inner_lem =
          rw
            (
              b64url_decode-b64url lib sealed h.base64_sealed,
              h.encoded_aad,
              h.deciphers both_keys.0 iv (lib.dumps (object inner)) aad,
              h.reads_inner,
            )
            refl

      open_request_lem :
          open_request lib (request_of sealed_envelope) relay_key ≡ ok (inner, both_keys.1)
      unfolding open_request
      open_request_lem =
          rw
            (
              b64url_decode-b64url lib epk h.base64_epk,
              load_point-IsPoint lib epk agreement.own_point,
              ← agreement.shared,
              b64url_decode-b64url lib iv h.base64_iv,
              h.iv_length,
              decrypt_inner_lem,
              ← agreement.shared,
            )
            refl

      -- What `seal_request` of a PC makes, `parse_request` takes apart, `verify_request` accepts
      -- under the PC's key, and `open_request` of the server opens: the server has the inner
      -- request and the reply key that the PC has. (The libraries do what they are documented to
      -- do, and the id, the nonce, the IV and the envelope have their sizes.)
      pub open_request-seal_request :
          (data_and_key : Text × Text) × (req : Request) × (seal_request lib device_key device_id
              (lib.public_raw relay_key)
              inner
              timestamp
              nonce
              one_time
              iv
            ≡ ok data_and_key)
          × (parse_request lib data_and_key.0 ≡ ok req)
          × (verify_request lib req device_pub ≡ true)
          × (open_request lib req relay_key ≡ ok (inner, data_and_key.1))
          × (req.device_id ≡ device_id)
          × (req.timestamp ≡ timestamp)
          × (req.nonce ≡ nonce)
      open_request-seal_request = (
        (lib.dumps (envelope_json sealed_envelope), both_keys.1),
        request_of sealed_envelope,
        seal_request_lem,
        parse_request-envelope sealed_envelope h.reads_envelope h.short h.id_length h.nonce_length.0
            h.nonce_length.1,
        verify_request_lem,
        open_request_lem,
        refl,
        refl,
        refl,
      )
