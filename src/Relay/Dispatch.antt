-- ===== src/Relay/Dispatch.antt =====
-- `relay_dispatch` of app/routes/pal.py: an envelope out of the relay is opened, and the request in
-- it is run through the device API as if it came over the LAN.
pub mod Inside
pub mod Guarded
pub mod Answered
use cert_generator.Prelude.{
  ℕ, suc, ◌+◌, ◌*◌, ◌-◌, Bool, true, false, not, ◌&&◌, ◌||◌, Option, none, some, List, [], ◌∷◌,
  ◌++◌, any, take, is_empty, ◌==◌, ltb, if◌then◌else◌, is_some, is_none, length, Text, codes,
  text_eq, contains, contains_text, starts_with, ℤ, pos, negsuc, Result, ok, refuse, refuse_if,
  ◌>>=◌, ◌>>◌,
}
use cert_generator.Pal.Json.{
  Json, Fields, null, boolean, whole, below_zero, fraction, text, array, object, no_items,
  no_fields, item, field, get,
}
use cert_generator.Pal.Tables.{Device}
use cert_generator.Pal.Store.{Store, get_pal_device}
use cert_generator.Pal.Signed.{distance, skew_seconds, device_revoked, clock_wrong}
use cert_generator.Relay.{Library}
use cert_generator.Relay.Envelope.{
  Request, is_text, b64url, b64url_decode, parse_request, verify_request, open_request, reply_key,
  seal_reply,
}

-- a request to the device API, and its response
pub record Inner : Type 0 where
  pub method : Text
  pub path : Text
  pub headers : List (Text × Text)
  pub body : Text

pub record Response : Type 0 where
  pub status : ℕ
  pub headers : List (Text × Text)
  pub body : Text

-- what the call returns, or the message of the exception that leaves it
pub data Dispatched : Type 0 where
  dropped : Dispatched
  replied : Text → Dispatched
  raised : Text → Dispatched

-- what is to be done with an envelope
pub data Decision : Type 0 where
  unanswered : Decision
  refusal : Request → Text → ℕ → Text → Decision  -- with the relay key, a status and a message
  forward : Request → Inner → Text → Decision  -- with the reply key
  raise : Text → Decision

-- a value with the test of Python's `or`
abbrev is_falsy : Json → Bool
is_falsy null = true
is_falsy (boolean b) = not b
is_falsy (whole n) = n == 0
is_falsy (below_zero n) = false
is_falsy (fraction r) = text_eq r (codes "0.0") || text_eq r (codes "-0.0")
is_falsy (text s) = is_empty s
is_falsy (array no_items) = true
is_falsy (array (item j js)) = false
is_falsy (object no_fields) = true
is_falsy (object (field name j fs)) = false

-- `d.get(key) or default`
abbrev pub get_or_else : Text → Json → Fields → Json
get_or_else key default fs = elim (get key fs) [
  | none ↦ default
  | some j ↦ if is_falsy j then default else j
]

abbrev pub device_prefix : Text
device_prefix = codes "/api/pal/v1/"

-- `_RELAY_METHODS`
abbrev pub is_method : Text → Bool
is_method m = text_eq m (codes "GET") || text_eq m (codes "POST")

-- the paths that the relay serves
abbrev pub is_relayed : Text → Bool
is_relayed path =
    starts_with path device_prefix
    && not (text_eq path (device_prefix ++ codes "enroll"))
    && not (contains b'?' path)
    && not (contains_text (codes "..") path)

-- `_RELAY_HEADERS`
abbrev pub relay_headers : List Text
relay_headers =
    codes "X-Pal-Device"
    ∷ codes "X-Pal-Time"
    ∷ codes "X-Pal-Nonce"
    ∷ codes "X-Pal-Signature"
    ∷ codes "User-Agent"
    ∷ []

-- the headers that are sent on
unfoldable pub sent_headers : List Text → Fields → List (Text × Text)
sent_headers [] headers = []
sent_headers (name ∷ names) headers =
    let rest = sent_headers names headers in
    elim (get name headers) [ some (text s) ↦ (name, take 512 s) ∷ rest | _ ↦ rest ]

-- `time.time() - timestamp` without its sign, in ticks
abbrev pub time_off : ℕ → ℕ → ℤ → ℕ
time_off tick now (pos n) = distance now (n * tick)
time_off tick now (negsuc n) = now + suc n * tick

abbrev pub remote_off : Text
remote_off = codes "Remote access is off. Your admin hasn't allowed this PC to use the relay"

-- the tests of the inner request
unfoldable pub check_inner : Request → Json → Json → Json → Text → Result Text Inner
unfolding sent_headers
check_inner req (text method) (text path) (object headers) body = do
  refuse_if (not (is_method method) || not (is_relayed path)) (codes "Not a device API request")
  refuse_if (not (is_text req.device_id (get (codes "X-Pal-Device") headers)))
      (codes "The inner request is from another PC")
  ok (record {
    method = method;
    path = path;
    headers = sent_headers relay_headers headers;
    body = body;
  })
check_inner req _ _ _ body = refuse (codes "Not a device API request")

-- `dict.get`, where None is a JSON null
abbrev pub get_or_null : Text → Fields → Json
get_or_null key fs = elim (get key fs) [ none ↦ null | some j ↦ j ]

module _ (lib : Library) where
  unfoldable pub load_private_key : Text → Result Text Text
  load_private_key der =
      if lib.is_p256_key der then ok der else refuse (codes "The relay key must be P-256")

  -- the `try` block: the inner request, and the reply key
  unfoldable pub open_inner : Request → Text → Result Text (Inner × Text)
  open_inner req key = do
    opened ← open_request lib req key
    body ← b64url_decode lib (get_or_else (codes "body") (text []) opened.0)
    inner ←
        check_inner req (get_or_null (codes "method") opened.0)
          (get_or_null (codes "path") opened.0)
          (get_or_else (codes "headers") (object no_fields) opened.0) body
    ok (inner, opened.1)

  -- below the look-up of the relay key
  unfoldable pub decide_opened : ℕ → ℕ → Request → Device → Text → Decision
  decide_opened tick now req device key =
      if is_some device.revoked_at
      then refusal req key 403 device_revoked
      else if not device.remote_allowed
      then refusal req key 403 remote_off
      else if not (lib.fits_float req.timestamp)
      then raise (codes "OverflowError")
      else if ltb (skew_seconds * tick) (time_off tick now req.timestamp)
      then refusal req key 401 clock_wrong
      else elim (open_inner req key) [
        | refuse message ↦ refusal req key 400 message
        | ok (inner, k_rep) ↦ forward req inner k_rep
      ]

  -- from the look-up of the relay key on: `relay_key` is what `db.get_pal_relay_key()` returns, or
  -- the exception that it raises
  unfoldable pub decide_signed : ℕ → ℕ → Result Text (Option Text) → Request → Device → Decision
  decide_signed tick now (refuse error) req device = raise error
  decide_signed tick now (ok none) req device = unanswered
  decide_signed tick now (ok (some der)) req device = elim (load_private_key der) [
    | refuse message ↦ raise message
    | ok key ↦ decide_opened tick now req device key
  ]

  unfoldable pub decide : ℕ → ℕ → Result Text (Option Text) → Text → Store → Decision
  decide tick now relay_key envelope s = elim (parse_request lib envelope) [
    | refuse message ↦ unanswered
    | ok req ↦ elim (get_pal_device req.device_id s) [
      | none ↦ unanswered
      | some device ↦
          if not (verify_request lib req device.public_key)
          then unanswered
          else decide_signed tick now relay_key req device
    ]
  ]

  abbrev as_dispatched : Result Text Text → Dispatched
  as_dispatched (ok reply) = replied reply
  as_dispatched (refuse message) = raised message

  -- the dict of a reply
  abbrev pub headers_json : List (Text × Text) → Fields
  headers_json [] = no_fields
  headers_json ((name, value) ∷ rest) = field name (text value) (headers_json rest)

  abbrev pub reply_fields : ℕ → Fields → Text → Fields
  reply_fields status headers body = field (codes "status") (whole status) (
      field (codes "headers") (object headers)
        (field (codes "body") (text (b64url lib body)) no_fields))

  -- `_relay_refusal`; `iv` is what is drawn
  unfoldable pub relay_refusal : Request → Text → ℕ → Text → Text → Result Text Text
  relay_refusal req key status message iv = do
    k_rep ← reply_key lib req key
    seal_reply lib k_rep req.device_id req.nonce
        (reply_fields status
          (field (codes "Content-Type") (text (codes "application/json")) no_fields)
          (lib.dumps_spaced (object (field (codes "error") (text message) no_fields))))
        iv

  -- `api` is the device API: the test client runs the handler of the path. Of the response's
  -- headers, `_RELAY_REPLY_HEADERS` are those that `Response` holds.
  module _ (api : Inner → Store → Store × Response) where
    unfoldable pub relay_dispatch :
        ℕ → ℕ → Result Text (Option Text) → Text → Text → Store → Store × Dispatched
    relay_dispatch tick now relay_key iv envelope s = elim (decide tick now relay_key envelope s) [
      | unanswered ↦ (s, dropped)
      | raise message ↦ (s, raised message)
      | refusal req key status message ↦
          (s, as_dispatched (relay_refusal req key status message iv))
      | forward req inner k_rep ↦
          let (s', r) = api inner s in
          (
            s',
            as_dispatched (
                seal_reply lib k_rep req.device_id req.nonce
                  (reply_fields r.status (headers_json r.headers) r.body) iv),
          )
    ]
