-- ===== src/Relay/Dispatch/Answered.antt =====
-- `relay_dispatch` of app/routes/pal.py: what is answered.
use cert_generator.Prelude.{
  ℕ, ◌*◌, ◌≤◌, ◌≡◌, refl, true, false, Option, none, some, Text, codes, text_eq, Result, ok, refuse,
  arith, if◌then◌else◌, List, [], ◌∷◌, ap, Bool-cases, inl, inr, ltb, is_some,
}
use cert_generator.Pal.Json.{Fields, text, whole, object, field, no_fields, get}
use cert_generator.Pal.Tables.{Device}
use cert_generator.Pal.Store.{Store, get_pal_device}
use cert_generator.Pal.Signed.{skew_seconds, device_revoked, clock_wrong}
use cert_generator.Relay.{Library}
use cert_generator.Relay.Envelope.{
  Request, b64url, b64url_decode, parse_request, verify_request, open_request, reply_key,
  open_reply,
}
use cert_generator.Relay.Encoded.{IsBase64, b64url_decode-b64url}
use cert_generator.Relay.Reply.{Documented, open_reply-seal_reply}
use cert_generator.Relay.Dispatch.{
  Inner, Response, refusal, forward, replied, raised, time_off, open_inner, decide_opened,
  decide_signed, decide, relay_dispatch, relay_refusal, remote_off, load_private_key, reply_fields,
  headers_json,
}

module _ (lib : Library) (tick now : ℕ) where
  -- an envelope of a known PC, and a server with a relay key
  pub record Arrives (relay_key : Result Text (Option Text)) (envelope : Text) (s : Store)
      (req : Request) (device : Device) (key : Text) : Type 0 where
    pub parsed : parse_request lib envelope ≡ ok req
    pub known : get_pal_device req.device_id s ≡ some device
    pub signed : verify_request lib req device.public_key ≡ true
    pub has_key : relay_key ≡ ok (some key)
    pub p256 : lib.is_p256_key key ≡ true
    pub finite : lib.fits_float req.timestamp ≡ true

  decide-Arrives :
      (relay_key : Result Text (Option Text)) (envelope : Text) (s : Store) (req : Request)
      (device : Device) (key : Text)
      → Arrives relay_key envelope s req device key
      → decide lib tick now relay_key envelope s ≡ decide_opened lib tick now req device key
  unfolding decide decide_signed load_private_key
  decide-Arrives relay_key envelope s req device key a =
      rw (decide, a.parsed, a.known, a.signed, a.has_key, decide_signed, load_private_key, a.p256)
        refl

  open_request-refuse :
      (req : Request) (key message : Text)
      → reply_key lib req key ≡ refuse message
      → open_request lib req key ≡ refuse message
  unfolding reply_key open_request
  open_request-refuse req key message h = epk_as (b64url_decode lib (text req.raw.e)) refl
    where
      epk_as :
          (r : Result Text Text)
          → b64url_decode lib (text req.raw.e) ≡ r
          → open_request lib req key ≡ refuse message
      epk_as (refuse m) e = ground (arith, h, e)
      epk_as (ok epk) e = ground (arith, h, e)

  open_inner-refuse :
      (req : Request) (key message : Text)
      → reply_key lib req key ≡ refuse message
      → open_inner lib req key ≡ refuse message
  unfolding open_inner
  open_inner-refuse req key message h = rw (open_request-refuse req key message h) refl

  -- every way on from the look-up of the relay key is a refusal
  decide_opened-refusal :
      (req : Request) (device : Device) (key message : Text)
      → lib.fits_float req.timestamp ≡ true
      → open_inner lib req key ≡ refuse message
      → (status : ℕ) × (shown : Text) × (decide_opened lib tick now req device key
          ≡ refusal req key status shown)
  unfolding decide_opened
  decide_opened-refusal req device key message fits h =
      elim (Bool-cases (is_some device.revoked_at)) [
        | inl gone ↦ (403, device_revoked, rw gone refl)
        | inr here ↦ elim (Bool-cases device.remote_allowed) [
          | inr off ↦ (403, remote_off, rw (here, off) refl)
          | inl on ↦
              elim (Bool-cases (ltb (skew_seconds * tick) (time_off tick now req.timestamp))) [
                | inl late ↦ (401, clock_wrong, rw (here, on, fits, late) refl)
                | inr timely ↦ (400, message, rw (here, on, fits, timely, h) refl)
              ]
        ]
      ]

  forward-decide_opened :
      (req : Request) (device : Device) (key : Text) (inner : Inner) (k_rep : Text)
      → device.revoked_at ≡ none
      → device.remote_allowed ≡ true
      → lib.fits_float req.timestamp ≡ true
      → time_off tick now req.timestamp ≤ skew_seconds * tick
      → open_inner lib req key ≡ ok (inner, k_rep)
      → decide_opened lib tick now req device key ≡ forward req inner k_rep
  unfolding decide_opened
  forward-decide_opened req device key inner k_rep connected allowed fits on_time opened =
      let timely : ltb (skew_seconds * tick) (time_off tick now req.timestamp) ≡ false =
        ground (arith, on_time) in
      rw (connected, allowed, fits, timely, opened) refl

  -- the headers as a dict
  abbrev pub dict_of : List (Text × Text) → Fields
  dict_of [] = no_fields
  dict_of (header ∷ rest) = field header.0 (text header.1) (dict_of rest)

  -- a dict that tells the PC of a response: its status, its headers, and its body in base64
  abbrev pub Tells : Response → Fields → Type 0
  Tells r told =
      (get (codes "status") told ≡ some (whole r.status))
      × (get (codes "headers") told ≡ some (object (dict_of r.headers)))
      × (encoded : Text) × (get (codes "body") told ≡ some (text encoded))
      × (b64url_decode lib (text encoded) ≡ ok r.body)

  headers_json-eq : (hs : List (Text × Text)) → headers_json lib hs ≡ dict_of hs
  headers_json-eq [] = refl
  headers_json-eq ((name, value) ∷ rest) = ap (field name (text value)) (headers_json-eq rest)

  reply_fields-Tells :
      (r : Response)
      → IsBase64 lib r.body
      → Tells r (reply_fields lib r.status (headers_json lib r.headers) r.body)
  reply_fields-Tells r h = (
    refl,
    ap (λ hs. some (object hs)) (headers_json-eq r.headers),
    b64url lib r.body,
    refl,
    b64url_decode-b64url lib r.body h,
  )

  module _ (api : Inner → Store → Store × Response) where
    -- For an envelope that a known PC signed, if the one-time key in it is not one, then
    -- relay_dispatch raises the RelayError of reply_key in place of a refusal, whether the PC is
    -- connected and allowed to use the relay or not. (The server has a relay key, and the time in
    -- the envelope converts to a float.)
    pub relay_dispatch_raises :
        (relay_key : Result Text (Option Text)) (iv envelope : Text) (s : Store) (req : Request)
        (device : Device) (key message : Text)
        → Arrives relay_key envelope s req device key
        → reply_key lib req key ≡ refuse message
        → relay_dispatch lib api tick now relay_key iv envelope s ≡ (s, raised message)
    unfolding relay_dispatch relay_refusal
    relay_dispatch_raises relay_key iv envelope s req device key message a bad =
        let (status, shown, decided) =
          decide_opened-refusal req device key message a.finite
            (open_inner-refuse req key message bad) in
        rw
          (
            relay_dispatch,
            decide-Arrives relay_key envelope s req device key a,
            decided,
            relay_refusal,
            bad,
          )
          refl

    -- the dict that the server seals for a response
    abbrev pub reply_of : Response → Fields
    reply_of r = reply_fields lib r.status (headers_json lib r.headers) r.body

    -- An envelope of a PC that is connected and allowed to use the relay, no more than five minutes
    -- off, whose inner request opens and passes its tests, is run through the device API once, and
    -- is answered with a reply that the PC's reply key opens to a dict of the status and the headers
    -- that the API gave, and a text that decodes to the body that it gave; as the reply to a request
    -- of another nonce it is refused. (The server has a relay key, the time in the envelope converts
    -- to a float, and the libraries do what they are documented to do.)
    pub relay_dispatch_answers :
        (relay_key : Result Text (Option Text)) (iv envelope aad : Text) (s : Store) (req : Request)
        (device : Device) (key : Text) (inner : Inner) (k_rep : Text)
        → Arrives relay_key envelope s req device key
        → device.revoked_at ≡ none
        → device.remote_allowed ≡ true
        → time_off tick now req.timestamp ≤ skew_seconds * tick
        → open_inner lib req key ≡ ok (inner, k_rep)
        → Documented lib k_rep req.device_id req.nonce iv aad (reply_of (api inner s).1)
        → IsBase64 lib (api inner s).1.body
        → (asked : Text)
        → (reply : Text) × (told : Fields) × (relay_dispatch lib api tick now relay_key iv envelope
              s
            ≡ ((api inner s).0, replied reply))
          × (open_reply lib k_rep req.device_id asked reply ≡ (
              if text_eq req.nonce asked
              then ok told
              else refuse (codes "The reply did not come from this PC's server")))
          × Tells (api inner s).1 told
    unfolding relay_dispatch
    relay_dispatch_answers relay_key iv envelope aad s req device key inner k_rep a connected
          allowed on_time opened d written asked =
        let (reply, seals, opens) =
          open_reply-seal_reply lib k_rep req.device_id req.nonce iv aad (reply_of (api inner s).1)
            d asked in
        let decided =
          forward-decide_opened req device key inner k_rep connected allowed a.finite on_time
            opened in
        (
          reply,
          reply_of (api inner s).1,
          rw (relay_dispatch, decide-Arrives relay_key envelope s req device key a, decided, seals)
              refl,
          opens,
          reply_fields-Tells (api inner s).1 written,
        )
