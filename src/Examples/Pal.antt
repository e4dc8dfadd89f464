-- ===== src/Examples/Pal.antt =====
-- Runs of app/pal.py, the pal_* tables of app/db.py and app/routes/pal.py.
use cert_generator.Pal.Store.Binds.{}
use cert_generator.Prelude.{
  ℕ, ◌*◌, ◌≤◌, ◌≡◌, refl, true, false, none, some, List, [], ◌∷◌, Text, codes, arith, count_where,
  leb, ◌&&◌, text_eq,
}
use cert_generator.Pal.Tables.{Device, Code}
use cert_generator.Pal.CodeState.{
  IsEnrolled, code_state, is_shown_unused, enroll_pal_device-code_state,
}
use cert_generator.Pal.Patterns.{valid_nonce, is_b64url}
use cert_generator.Pal.Store.{
  Store, empty, NewDevice, get_pal_device, get_pal_code, create_pal_code, enroll_pal_device,
}
use cert_generator.Pal.Store.Rows.{
  NewRequest, use_pal_nonce, create_pal_request, transition_pal_request,
}
use cert_generator.Pal.Store.Calls.{
  Call, create_code, enroll_device, revoke_device, use_nonce, create_request, apply, run,
}
use cert_generator.Pal.Store.Pairing.{came_by}
use cert_generator.Pal.Store.Pairing.Calls.{devices_per_code-le}
use cert_generator.Pal.Signed.{
  Library, Signature, signed_by, Clock, distance, skew_seconds, request_signing_string,
  verify_device_signature, b64url_decode, signed_device,
}
use cert_generator.Pal.Signed.Replay.{IsAccepted, signed_device_no_replay}
use cert_generator.Pal.Signed.Sound.{signed_device_sound}
use cert_generator.Pal.Issue.{
  System, start, begin_issue, Reach, other, begin, sign, here, next, times,
}
use cert_generator.Pal.Issue.Once.Steps.{signed-le}

abbrev pc_id : Text
pc_id = codes "00112233445566778899aabbccddeeff"

abbrev pc : NewDevice
pc = record {
  id = pc_id;
  hostname = codes "pc01";
  fqdn = codes "pc01.lan";
  os = codes "Windows 11";
  public_key = codes "key";
  remote_allowed = false;
  key_storage = some (codes "tpm");
}

-- one code, two PCs that try to use it
abbrev two_pcs : List Call
two_pcs =
    create_code (codes "c1") (codes "PC 1") 1 (codes "{}") (codes "k") (codes "https://ca") 50
    ∷ enroll_device 10 (codes "c1") pc
    ∷ enroll_device 11 (codes "c1") (record pc { id = codes "ffeeddccbbaa99887766554433221100" })
    ∷ []

abbrev cas : List ℕ
cas = 1 ∷ []

abbrev connected : Store
connected = run two_pcs (record empty { cas = cas })

connected_once : count_where (came_by (codes "c1")) connected.devices ≡ 1
unfolding run apply enroll_pal_device create_pal_code
connected_once = refl

devices_per_code-le_example : count_where (came_by (codes "c1")) connected.devices ≤ 1
devices_per_code-le_example = devices_per_code-le cas two_pcs (codes "c1")

-- a library that signs a message with the message itself
abbrev lib : Library
lib = record {
  upper = λ s. s;
  is_digit = λ c. leb b'0' c && leb c b'9';
  int_of = λ s. some 1000;
  sha256_hex = λ s. s;
  b64decode = λ s. some s;
  verify = λ key message signature. text_eq signature (codes "good");
}

abbrev request : Signature
request = record {
  method = codes "POST";
  path = codes "/pal/api/requests";
  device = pc_id;
  timestamp = codes "1000";
  nonce = codes "AAAAAAAAAAAAAAAA";
  signature = codes "good";
  body = codes "{}";
  version = some (codes "1.2.3");
  via_relay = false;
}

abbrev at : ℕ → Clock
at t = record { tick = 1; at_check = t; at_nonce = t; at_touch = t }

abbrev pc_row : Device
pc_row = record {
  id = pc_id;
  label = codes "pc01";
  hostname = codes "pc01";
  fqdn = codes "pc01.lan";
  os = codes "Windows 11";
  public_key = codes "key";
  ca_id = 1;
  policy = codes "{}";
  code_id = codes "c1";
  last_seen = some 10;
  revoked_at = none;
  pal_version = none;
  remote_allowed = false;
  last_via = none;
  key_storage = some (codes "tpm");
}

abbrev known : Store
known = record empty { cas = cas; devices = pc_row ∷ [] }

signed_device-request : (signed_device lib (at 1100) request known).1 ≡ signed_by pc_row
unfolding signed_device get_pal_device valid_nonce is_b64url verify_device_signature b64url_decode
    use_pal_nonce
signed_device-request = refl

signed_device_sound_example :
    (get_pal_device pc_id known ≡ some pc_row)
    × (pc_row.id ≡ pc_id)
    × (pc_row.revoked_at ≡ none)
    × (verify_device_signature lib pc_row.public_key
          (request_signing_string lib request.method request.path request.timestamp request.nonce
            request.body)
          request.signature
        ≡ true)
    × (valid_nonce request.nonce ≡ true)
    × ((t : ℕ) × (lib.int_of request.timestamp ≡ some t)
        × (distance 1100 (t * 1) ≤ skew_seconds * 1))
signed_device_sound_example =
    signed_device_sound lib (at 1100) request known pc_row signed_device-request

abbrev between : List Call
between = use_nonce 1150 600 pc_id (codes "BBBBBBBBBBBBBBBB") ∷ revoke_device 1160 (codes "x") ∷ []

accepted : IsAccepted (signed_device lib (at 1100) request known).1
unfolding signed_device get_pal_device valid_nonce is_b64url verify_device_signature b64url_decode
    use_pal_nonce
accepted = tt

signed_device_no_replay_example :
    ¬ IsAccepted
      (signed_device lib
        (at 1200)
        request
        (run between (signed_device lib (at 1100) request known).0)).1
signed_device_no_replay_example =
    signed_device_no_replay lib (at 1100) (at 1200) request request known between refl (omega arith)
      refl refl refl (omega arith, (tt, tt)) accepted

abbrev asked : NewRequest
asked = record {
  device_id = pc_id;
  use_case = codes "computer";
  names = codes "[]";
  csr_pem = codes "csr";
  lifetime_days = 90;
  renew_of = none;
  crl_dp = none;
  key_storage = none;
  windows_user = none;
  note = none;
}

-- the request is made, issuing begins, and the certificate is signed
abbrev before_begin : System
before_begin = record (start cas) { store = apply (create_request asked) connected }

before_begin-Reach : Reach (start cas) before_begin
unfolding run
before_begin-Reach =
    next
      (next
        (next
          (next here (
            other (start cas)
              (create_code (codes "c1") (codes "PC 1") 1 (codes "{}") (codes "k")
                (codes "https://ca") 50)
              tt))
          (other _ (enroll_device 10 (codes "c1") pc) tt))
        (other _
          (enroll_device 11 (codes "c1")
            (record pc { id = codes "ffeeddccbbaa99887766554433221100" }))
          tt))
      (other _ (create_request asked) tt)

begins : (begin_issue 20 1 before_begin.store).1 ≡ true
unfolding run begin_issue transition_pal_request apply create_pal_request enroll_pal_device
    create_pal_code
begins = refl

abbrev after_begin : System
after_begin = record before_begin {
  store = (begin_issue 20 1 before_begin.store).0;
  begun = 1 ∷ [];
}

abbrev after_sign : System
after_sign = record after_begin { begun = []; signed = 1 ∷ [] }

after_sign-Reach : Reach (start cas) after_sign
after_sign-Reach =
    next (next before_begin-Reach (begin before_begin 20 1 begins))
      (sign after_begin 1 (omega arith))

signed-le_example : times 1 after_sign.signed ≤ 1
signed-le_example = signed-le cas after_sign 1 after_sign-Reach

-- one code, not used
abbrev first_code : Code
first_code = record {
  id = codes "c1";
  label = codes "PC 1";
  ca_id = 1;
  policy = codes "{}";
  key = codes "k";
  server_url = codes "https://ca";
  expires_at = 50;
  used_at = none;
  device_id = none;
  revoked_at = none;
}

abbrev one_code : Store
one_code = record empty { cas = cas; code_rows = first_code ∷ [] }

has_first_code : get_pal_code (codes "c1") one_code ≡ some first_code
unfolding get_pal_code
has_first_code = refl

enroll_pal_device-code_state_example :
    (s' : Store) × (enroll_pal_device 10 (codes "c1") pc one_code
      ≡ some (s', is_shown_unused (code_state 10 first_code)))
    × IsEnrolled 10
        (codes "c1")
        one_code
        first_code
        pc
        s'
        (is_shown_unused (code_state 10 first_code))
enroll_pal_device-code_state_example =
    enroll_pal_device-code_state 10 (codes "c1") one_code first_code pc has_first_code refl refl
