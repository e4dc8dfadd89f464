-- ===== src/Relay/Envelope.antt =====
-- app/relay.py: the envelope that a PC seals and the server opens, and the reply. A message of a
-- `RelayError` is the text of the result; other exceptions are caught where they may be raised.
use cert_generator.Prelude.{
  ℕ, ◌*◌, ◌%◌, Bool, false, not, ◌&&◌, ◌||◌, Option, some, List, [], ◌∷◌, ◌++◌, length, any, all,
  ◌==◌, leb, ltb, if◌then◌else◌, Text, codes, text_eq, drop_while_end, take, drop, ℤ, pos, negsuc,
  Result, ok, refuse, refuse_if, or_raise, or_else_raise, ◌>>=◌, ◌>>◌,
}
use cert_generator.Pal.Patterns.{newline}
use cert_generator.Pal.Json.{
  Json, Fields, boolean, whole, below_zero, fraction, text, object, no_fields, field, get, keys,
}
use cert_generator.Relay.{Library}
use cert_generator.Relay.Bytes.{p1363_to_der, der_to_p1363}

abbrev pub max_envelope : ℕ
max_envelope = 300 * 1024

-- the values of an envelope, but for its version
pub record Envelope : Type 0 where
  pub d : Text
  pub t : ℤ
  pub n : Text
  pub e : Text
  pub i : Text
  pub c : Text
  pub s : Text

pub record Request : Type 0 where
  pub raw : Envelope
  pub device_id : Text
  pub timestamp : ℤ
  pub nonce : Text

-- `_FIELDS`
abbrev fields_of_envelope : List Text
fields_of_envelope =
    codes "v"
    ∷ codes "d"
    ∷ codes "t"
    ∷ codes "n"
    ∷ codes "e"
    ∷ codes "i"
    ∷ codes "c"
    ∷ codes "s"
    ∷ []

abbrev is_among : List Text → Text → Bool
is_among names name = any (text_eq name) names

-- `set(env) == set(_FIELDS)`
abbrev has_the_fields : Fields → Bool
has_the_fields env =
    all (is_among fields_of_envelope) (keys env) && all (is_among (keys env)) fields_of_envelope

-- `value == VERSION`: Python has `1 == True == 1.0`
abbrev is_version : Option Json → Bool
is_version (some (whole n)) = n == 1
is_version (some (boolean b)) = b
is_version (some (fraction r)) = text_eq r (codes "1.0")
is_version _ = false

-- `value == s`
abbrev pub is_text : Text → Option Json → Bool
is_text s (some (text r)) = text_eq r s
is_text s _ = false

abbrev as_text : Option Json → Result Text Text
as_text (some (text s)) = ok s
as_text _ = refuse (codes "Not a CGP1 relay envelope")

-- `type(value) is int`
abbrev as_int : Option Json → Result Text ℤ
as_int (some (whole n)) = ok (pos n)
as_int (some (below_zero n)) = ok (negsuc n)
as_int _ = refuse (codes "Not a CGP1 relay envelope")

abbrev json_of_int : ℤ → Json
json_of_int (pos n) = whole n
json_of_int (negsuc n) = below_zero n

-- the dict of an envelope, in the order in which `seal_request` makes it
abbrev pub envelope_json : Envelope → Json
envelope_json env = object (
    field (codes "v") (whole 1) (
      field (codes "d") (text env.d) (
        field (codes "t") (json_of_int env.t) (
          field (codes "n") (text env.n) (
            field (codes "e") (text env.e) (
              field (codes "i") (text env.i)
                (field (codes "c") (text env.c) (field (codes "s") (text env.s) no_fields))))))))

-- the checks of `parse_request` on the dict
unfoldable pub parse_fields : Fields → Result Text Request
parse_fields env = do
  refuse_if (not (has_the_fields env) || not (is_version (get (codes "v") env)))
      (codes "Not a CGP1 relay envelope")
  d ← as_text (get (codes "d") env)
  n ← as_text (get (codes "n") env)
  e ← as_text (get (codes "e") env)
  i ← as_text (get (codes "i") env)
  c ← as_text (get (codes "c") env)
  s ← as_text (get (codes "s") env)
  t ← as_int (get (codes "t") env)
  refuse_if (not (length d == 32) || not (leb 16 (length n) && leb (length n) 64))
      (codes "Not a CGP1 relay envelope")
  ok (record {
    raw = record { d = d; t = t; n = n; e = e; i = i; c = c; s = s };
    device_id = d;
    timestamp = t;
    nonce = n;
  })

unfoldable pub parse_json : Json → Result Text Request
unfolding parse_fields
parse_json (object env) = parse_fields env
parse_json _ = refuse (codes "Not a CGP1 relay envelope")

-- `"=" * (-n % 4)`
abbrev pub pad : ℕ → Text
pad n =
    if n % 4 == 0
    then []
    else if n % 4 == 1
    then codes "==="
    else if n % 4 == 2
    then codes "=="
    else codes "="

-- `env["i"]` and `env["c"]` of a reply, after the checks of `open_reply`
unfoldable pub reply_parts : Text → Json → Result Text (Json × Json)
reply_parts nonce (object env) = do
  refuse_if (not (is_version (get (codes "v") env)) || not (is_text nonce (get (codes "n") env)))
      (codes "Not the reply to this request")
  i ← or_raise (codes "KeyError") (get (codes "i") env)
  c ← or_raise (codes "KeyError") (get (codes "c") env)
  ok (i, c)
reply_parts nonce _ = refuse (codes "Not the reply to this request")

module _ (lib : Library) where
  unfoldable pub b64url : Text → Text
  b64url bytes = drop_while_end (λ c. c == b'=') (lib.b64encode bytes)

  unfoldable pub b64url_decode : Json → Result Text Text
  b64url_decode (text s) = do
    refuse_if (ltb (2 * max_envelope) (length s)) (codes "Bad envelope field")
    or_raise (codes "Bad envelope field") (lib.b64decode (s ++ pad (length s)))
  b64url_decode _ = refuse (codes "Bad envelope field")

  -- `_load_point`: a point is its encoding
  unfoldable pub load_point : Text → Result Text Text
  load_point raw = do
    refuse_if (not (length raw == 65) || not (text_eq (take 1 raw) (4 ∷ [])))
        (codes "Bad one-time key")
    refuse_if (not (lib.is_point raw)) (codes "Bad one-time key")
    ok raw

  -- `_keys`: for the request and for the reply
  unfoldable pub keys_of_exchange : Text → Text → Text → Text × Text
  keys_of_exchange shared epk relay_pub =
      let okm = lib.hkdf shared (codes "CGP1-RELAY") (epk ++ relay_pub) in
      (take 32 okm, drop 32 okm)

  unfoldable pub signing_string : Envelope → Text
  signing_string env =
      codes "CGP1-RELAY"
      ++ newline ∷ env.d
      ++ newline ∷ lib.str_int env.t
      ++ newline ∷ env.n
      ++ newline ∷ env.e
      ++ newline ∷ env.i
      ++ newline ∷ env.c

  unfoldable pub request_aad : Text → ℤ → Text → Text
  request_aad device_id timestamp nonce =
      codes "CGP1-RELAY-REQ"
      ++ newline ∷ device_id
      ++ newline ∷ lib.str_int timestamp
      ++ newline ∷ nonce

  unfoldable pub reply_aad : Text → Text → Text
  reply_aad device_id nonce = codes "CGP1-RELAY-REP" ++ newline ∷ device_id ++ newline ∷ nonce

  -- The server's side ---------------------------------------------------------------------------

  unfoldable pub parse_request : Text → Result Text Request
  parse_request bytes = do
    refuse_if (ltb max_envelope (length bytes)) (codes "Envelope too large")
    env ← or_raise (codes "Envelope is not JSON") (lib.loads bytes)
    parse_json env

  abbrev is_ok : Result Text Bool → Bool
  is_ok (ok b) = b
  is_ok (refuse e) = false

  -- an `InvalidSignature`, a `RelayError` and a `ValueError` alike give False
  unfoldable pub verify_request : Request → Text → Bool
  verify_request req device_key = is_ok do
    bytes ← b64url_decode (text req.raw.s)
    signature ← p1363_to_der bytes
    message ← or_raise (codes "UnicodeEncodeError") (lib.encode (signing_string req.raw))
    ok (lib.verify device_key signature message)

  -- the inner request inside the envelope's ciphertext
  unfoldable pub decrypt_inner : Text → Text → Request → Result Text Json
  decrypt_inner k_req iv req =
      or_else_raise (codes "Envelope does not open with this server's relay key") do
        sealed ← b64url_decode (text req.raw.c)
        aad ←
            or_raise (codes "UnicodeEncodeError")
              (lib.encode (request_aad req.device_id req.timestamp req.nonce))
        plain ← or_raise (codes "InvalidTag") (lib.decrypt k_req iv sealed aad)
        or_raise (codes "JSONDecodeError") (lib.loads plain)

  unfoldable pub open_request : Request → Text → Result Text (Fields × Text)
  unfolding decrypt_inner
  open_request req relay_key = do
    epk ← b64url_decode (text req.raw.e)
    point ← load_point epk
    let keys = keys_of_exchange (lib.exchange relay_key point) epk (lib.public_raw relay_key)
    iv ← b64url_decode (text req.raw.i)
    refuse_if (not (length iv == 12)) (codes "Bad envelope IV")
    inner ← decrypt_inner keys.0 iv req
    elim inner [ object fields ↦ ok (fields, keys.1) | _ ↦ refuse (codes "Bad inner request") ]

  unfoldable pub reply_key : Request → Text → Result Text Text
  reply_key req relay_key = do
    epk ← b64url_decode (text req.raw.e)
    point ← load_point epk
    ok (keys_of_exchange (lib.exchange relay_key point) epk (lib.public_raw relay_key)).1

  -- the dict of a reply: the nonce, the IV and the ciphertext
  abbrev pub reply_json : Text → Text → Text → Json
  reply_json nonce iv sealed = object (
      field (codes "v") (whole 1) (
        field (codes "n") (text nonce) (
          field (codes "i") (text (b64url iv))
            (field (codes "c") (text (b64url sealed)) no_fields))))

  -- `iv` is the argument, or the 12 bytes that were drawn
  unfoldable pub seal_reply : Text → Text → Text → Fields → Text → Result Text Text
  seal_reply k_rep device_id nonce inner iv = do
    aad ← or_raise (codes "UnicodeEncodeError") (lib.encode (reply_aad device_id nonce))
    ok (lib.dumps (reply_json nonce iv (lib.encrypt k_rep iv (lib.dumps (object inner)) aad)))

  -- The PC's side -------------------------------------------------------------------------------

  -- the envelope without its signature
  abbrev pub unsigned : Text → ℤ → Text → Text → Text → Text → Envelope
  unsigned device_id timestamp nonce epk iv sealed = record {
    d = device_id;
    t = timestamp;
    n = nonce;
    e = b64url epk;
    i = b64url iv;
    c = b64url sealed;
    s = [];
  }

  -- `one_time` and `iv` are the arguments, or what was drawn in their place
  unfoldable pub seal_request :
      Text → Text → Text → Fields → ℤ → Text → Text → Text → Result Text (Text × Text)
  seal_request device_key device_id relay_pub inner timestamp nonce one_time iv = do
    let epk = lib.public_raw one_time
    point ← load_point relay_pub
    let keys = keys_of_exchange (lib.exchange one_time point) epk relay_pub
    aad ← or_raise (codes "UnicodeEncodeError") (lib.encode (request_aad device_id timestamp nonce))
    let sealed = lib.encrypt keys.0 iv (lib.dumps (object inner)) aad
    let env = unsigned device_id timestamp nonce epk iv sealed
    message ← or_raise (codes "UnicodeEncodeError") (lib.encode (signing_string env))
    let signature = b64url (der_to_p1363 (lib.sign device_key message))
    ok (lib.dumps (envelope_json (record env { s = signature })), keys.1)

  unfoldable pub open_reply : Text → Text → Text → Text → Result Text Fields
  open_reply k_rep device_id nonce bytes = do
    let failed = codes "The reply did not come from this PC's server"
    inner ← or_else_raise failed do
      env ← or_raise (codes "JSONDecodeError") (lib.loads bytes)
      sealed ← reply_parts nonce env
      iv ← b64url_decode sealed.0
      c ← b64url_decode sealed.1
      aad ← or_raise (codes "UnicodeEncodeError") (lib.encode (reply_aad device_id nonce))
      plain ← or_raise (codes "InvalidTag") (lib.decrypt k_rep iv c aad)
      or_raise (codes "JSONDecodeError") (lib.loads plain)
    elim inner [ object fields ↦ ok fields | _ ↦ refuse (codes "Bad inner reply") ]
