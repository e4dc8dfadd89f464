-- ===== src/Examples/Dispatch.antt =====
-- Runs of relay_dispatch of app/routes/pal.py.
use cert_generator.Prelude.{
  suc, ◌≡◌, ◌≢◌, refl, ap, sym, ◌∙◌, true, false, Option, none, some, [], ◌∷◌, Text, codes, text_eq,
  Result, ok, refuse, if◌then◌else◌, arith, pos,
}
use cert_generator.Pal.Tables.{Device}
use cert_generator.Pal.Store.{Store, empty, get_pal_device}
use cert_generator.Relay.{Library}
use cert_generator.Relay.Envelope.{
  Request, load_point, b64url, b64url_decode, keys_of_exchange, reply_aad, reply_key, parse_request,
  parse_json, verify_request, signing_string, open_request, decrypt_inner, open_reply, request_aad,
}
use cert_generator.Relay.Bytes.{p1363_to_der, bytes_value}
use cert_generator.Relay.Reply
use cert_generator.Relay.Encoded.{IsBase64}
use cert_generator.Pal.Json.{Fields}
use cert_generator.Relay.Dispatch.{
  Inner, Response, Dispatched, replied, raised, relay_dispatch, open_inner, check_inner,
  sent_headers,
}
use cert_generator.Relay.Dispatch.Guarded.{IsGuarded, relay_dispatch-IsGuarded}
use cert_generator.Relay.Dispatch.Answered.{
  Arrives, Tells, reply_of, relay_dispatch_raises, relay_dispatch_answers,
}
use cert_generator.Examples.Relay.{
  device_id, nonce, point, iv, iv-IsBase64, encoded, envelope, lib, relay_key,
}

abbrev pub laptop : Device
laptop = record {
  id = device_id;
  label = codes "laptop";
  hostname = codes "laptop";
  fqdn = codes "laptop.lan";
  os = codes "Windows 11";
  public_key = codes "good";
  ca_id = 1;
  policy = codes "{}";
  code_id = codes "c1";
  last_seen = none;
  revoked_at = none;
  pal_version = none;
  remote_allowed = true;
  last_via = none;
  key_storage = none;
}

abbrev pub tables : Store
tables = record empty { devices = laptop ∷ [] }

-- a device API that counts its calls, by the id of the next request
abbrev api : Inner → Store → Store × Response
api r s = (
  record s { request_seq = suc s.request_seq },
  record { status = 200; headers = []; body = codes "body" },
)

abbrev request : Request
request = record { raw = envelope; device_id = device_id; timestamp = pos 1000; nonce = nonce }

abbrev inner_request : Inner
inner_request = record {
  method = codes "GET";
  path = codes "/api/pal/v1/device";
  headers = (codes "X-Pal-Device", device_id) ∷ [];
  body = [];
}

abbrev k_rep : Text
k_rep = (keys_of_exchange lib (codes "shared") point point).1

abbrev relay_keys : Result Text (Option Text)
relay_keys = ok (some relay_key)

arrives : Arrives lib 1 1100 relay_keys (codes "envelope") tables request laptop relay_key
unfolding parse_request parse_json get_pal_device verify_request b64url_decode p1363_to_der
    signing_string bytes_value
arrives = record {
  parsed = refl;
  known = refl;
  signed = refl;
  has_key = refl;
  p256 = refl;
  finite = refl;
}

opens : open_inner lib request relay_key ≡ ok (inner_request, k_rep)
unfolding open_inner open_request b64url_decode load_point decrypt_inner request_aad check_inner
    sent_headers
opens = refl

response-IsBase64 : IsBase64 lib (codes "response")
response-IsBase64 = record {
  body = encoded (codes "response");
  padding = 1;
  shape = refl;
  filled = refl;
  little = omega arith;
  clean = refl;
  short = omega arith;
  decodes = refl;
}

body-IsBase64 : IsBase64 lib (codes "body")
body-IsBase64 = record {
  body = encoded (codes "body");
  padding = 1;
  shape = refl;
  filled = refl;
  little = omega arith;
  clean = refl;
  short = omega arith;
  decodes = refl;
}

documented :
    Reply.Documented lib k_rep device_id nonce iv
      (reply_aad lib device_id nonce)
      (reply_of lib 1 1100 api (api inner_request tables).1)
unfolding b64url reply_aad
documented = record {
  encoded = refl;
  deciphers = λ k n p a. refl;
  reads_inner = refl;
  reads_reply = refl;
  base64_iv = iv-IsBase64;
  base64_sealed = response-IsBase64;
}

relay_dispatch_answers_example :
    (reply : Text) × (told : Fields) × (relay_dispatch lib api 1 1100 relay_keys iv
        (codes "envelope")
        tables
      ≡ ((api inner_request tables).0, replied reply))
    × (open_reply lib k_rep device_id nonce reply ≡ (
        if text_eq nonce nonce
        then ok told
        else refuse (codes "The reply did not come from this PC's server")))
    × Tells lib 1 1100 (api inner_request tables).1 told
relay_dispatch_answers_example =
    relay_dispatch_answers lib 1 1100 api relay_keys iv (codes "envelope")
      (reply_aad lib device_id nonce) tables request laptop relay_key inner_request k_rep arrives
      refl refl (omega arith) opens documented body-IsBase64 nonce

served :
    (relay_dispatch lib api 1 1100 relay_keys iv (codes "envelope") tables).0
    ≡ (api inner_request tables).0
served =
    ap (λ (p : Store × Dispatched). p.0)
      (relay_dispatch_answers lib 1 1100 api relay_keys iv (codes "envelope")
        (reply_aad lib device_id nonce) tables request laptop relay_key inner_request k_rep arrives
        refl refl (omega arith) opens documented body-IsBase64 nonce).2

changed : (relay_dispatch lib api 1 1100 relay_keys iv (codes "envelope") tables).0 ≢ tables
changed same =
    let seqs : suc tables.request_seq ≡ tables.request_seq =
      ap (λ (s : Store). s.request_seq) (sym served ∙ same) in
    absurd (omega arith)

relay_dispatch-IsGuarded_example :
    (req : Request) × (device : Device) × (inner : Inner) × ((relay_dispatch lib api 1 1100
        relay_keys iv
        (codes "envelope")
        tables).0
      ≡ (api inner tables).0)
    × IsGuarded lib 1 1100 relay_keys (codes "envelope") tables req device inner
relay_dispatch-IsGuarded_example =
    relay_dispatch-IsGuarded lib 1 1100 api relay_keys iv (codes "envelope") tables changed

-- the same envelope at a server whose library takes no point
abbrev strict : Library
strict = record lib { is_point = λ p. false }

strict-Arrives : Arrives strict 1 1100 relay_keys (codes "envelope") tables request laptop relay_key
unfolding parse_request parse_json get_pal_device verify_request b64url_decode p1363_to_der
    signing_string bytes_value
strict-Arrives = record {
  parsed = refl;
  known = refl;
  signed = refl;
  has_key = refl;
  p256 = refl;
  finite = refl;
}

no_reply_key : reply_key strict request relay_key ≡ refuse (codes "Bad one-time key")
unfolding reply_key b64url_decode load_point
no_reply_key = refl

relay_dispatch_raises_example :
    relay_dispatch strict api 1 1100 relay_keys iv (codes "envelope") tables
    ≡ (tables, raised (codes "Bad one-time key"))
relay_dispatch_raises_example =
    relay_dispatch_raises strict 1 1100 api relay_keys iv (codes "envelope") tables request laptop
      relay_key (codes "Bad one-time key") strict-Arrives no_reply_key
