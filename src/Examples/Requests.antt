-- ===== src/Examples/Requests.antt =====
-- Runs of a PC's certificate requests, renewals and revocations.
use cert_generator.Prelude.{
  ℕ, ◌+◌, ◌-◌, ◌*◌, ◌≤◌, ◌≡◌, ◌<◌, ◌⊎◌, refl, true, false, none, some, List, [], ◌∷◌, map, select,
  codes, ok, arith, All, if◌then◌else◌, ◌&&◌, strip,
}
use cert_generator.Pal.Json.{text, whole, object, field, no_fields, Fields}
use cert_generator.Pal.Tables.{Device}
use cert_generator.Pal.Store.{Store, empty}
use cert_generator.Pal.Store.Rows.{create_pal_request, request_row}
use cert_generator.Pal.Policy.{computer}
use cert_generator.Pal.Names.{parse_names}
use cert_generator.Pal.Reported.{key_storage, windows_user, request_note, one_line}
use cert_generator.Pal.Csr.{elliptic, load_csr, public_key_algorithm}
use cert_generator.Pal.Held.{
  Held, Publishing, live_certs, list_pal_device_certs, revoke_superseded, revoke_own_certs,
}
use cert_generator.Pal.Held.Changes.{IsKeyed}
use cert_generator.Pal.Held.Superseded.{is_current, revoke_superseded-is_current}
use cert_generator.Pal.Held.Own.{own_row, needs_key, is_revoked_own, revoke_own_certs-own_row}
use cert_generator.Pal.Requests.{
  Library, value_error, issuing, Times, day, renew_window_days, renew_opens, use_case_of, mode_of,
  checked_renewal, covered_refusal, list_pending,
}
use cert_generator.Pal.Requests.Create.{
  create_request, wanted_of, terms_of, store_request, csr_of, lifetime_of, parse_int,
  duplicate_refusal, Wanted, Terms,
}
use cert_generator.Pal.Requests.Permitted.{IsPermitted, create_request-IsPermitted}
use cert_generator.Pal.Presence.{Audit}
use cert_generator.Pal.Presence.Accounts.{is_kept, audits, audits-is_kept}
use cert_generator.Pal.Requests.Renewals.{renew_opens_window}
use cert_generator.Examples.Names.{lib as name_lib, policy}

abbrev lib : Library
lib = record {
  names = name_lib;
  report = record { lower = λ s. s; is_printable = λ c. true };
  int_of_text = λ s. value_error;
  int_of_float = λ s. value_error;
  utf8_length = λ s. some 500;
  load_pem =
      λ s. some (record { is_signature_valid = true; public_key = elliptic (codes "secp256r1") });
  dumps = λ j. codes "{}";
  loads = λ s. some (object no_fields);
}

abbrev pub pc : Device
pc = record {
  id = codes "d1";
  label = codes "pc01";
  hostname = codes "pc01";
  fqdn = codes "pc01.lan";
  os = codes "Windows 11";
  public_key = codes "key";
  ca_id = 1;
  policy = codes "{}";
  code_id = codes "c1";
  last_seen = none;
  revoked_at = none;
  pal_version = none;
  remote_allowed = false;
  last_via = none;
  key_storage = none;
}

abbrev pub known : Store
known = record empty { cas = 1 ∷ []; devices = pc ∷ [] }

abbrev sent : Fields
sent =
    field (codes "use_case") (text (codes "computer")) (
      field (codes "csr") (text (codes "pem"))
        (field (codes "lifetime_days") (whole 400) no_fields))

abbrev pub certificate : ℕ → Held
certificate id = record {
  id = id;
  ca_id = 1;
  common_name = codes "pc01.lan";
  san_domains = codes "pc01.lan";
  template = codes "computer";
  serial = codes "0x1";
  not_before = 0;
  not_after = 90 * day;
  revoked = false;
  revoked_at = none;
  crl_dp_url = some (codes "http://crl.lan/1");
  pal_device_id = some (codes "d1");
  pal_present = some true;
  pal_checked_at = none;
  pal_user = none;
  pal_key_storage = none;
  pal_binds = none;
}

-- one that the PC removed
abbrev rows : List Held
rows = record (certificate 1) { pal_present = some false } ∷ []

abbrev at : ℕ → Times
at t = record { at_covered = t; at_duplicate = t; at_live = t }

abbrev stored : Store
stored = record known {
  requests =
      request_row known.request_seq (record {
        device_id = codes "d1";
        use_case = codes "computer";
        names = codes "{}";
        csr_pem = codes "pem";
        lifetime_days = 365;
        renew_of = none;
        crl_dp = some (codes "none");
        key_storage = none;
        windows_user = none;
        note = none;
      })
      ∷ [];
  request_seq = known.request_seq + 1;
}

request_is_stored :
    create_request lib (at day) policy pc sent known rows ≡ ok (stored, issuing known.request_seq)
unfolding create_request wanted_of terms_of store_request use_case_of mode_of parse_names csr_of
    load_csr public_key_algorithm request_note one_line lifetime_of parse_int checked_renewal
    covered_refusal duplicate_refusal live_certs list_pal_device_certs list_pending key_storage
    windows_user create_pal_request request_row strip
request_is_stored = refl

create_request-IsPermitted_example :
    (w : Wanted) × (t : Terms) × (id : ℕ) × IsPermitted lib
      (at day)
      policy
      pc
      sent
      known
      rows
      stored
      (issuing known.request_seq)
      w
      t
      id
create_request-IsPermitted_example =
    create_request-IsPermitted lib (at day) policy pc sent known stored rows
      (issuing known.request_seq) request_is_stored

renew_opens_window_example :
    (((90 * day ≤ 90 * day - 0) × (renew_opens 0 (90 * day) + renew_window_days * day ≡ 90 * day))
      ⊎ ((90 * day - 0 < 90 * day)
          × (3 * (90 * day - renew_opens 0 (90 * day)) ≤ 90 * day - 0 + 1)
          × (90 * day - 0 ≤ 3 * (90 * day - renew_opens 0 (90 * day)) + 1)))
    × (0 ≤ renew_opens 0 (90 * day))
    × (renew_opens 0 (90 * day) ≤ 90 * day)
renew_opens_window_example = renew_opens_window 0 (90 * day) (omega arith)

abbrev two_rows : List Held
two_rows = record (certificate 1) { pal_present = some false } ∷ certificate 2 ∷ []

revoke_superseded-is_current_example :
    All
      (λ c. is_current 2 c ≡ true)
      (live_certs
        (2 * day)
        (codes "d1")
        computer
        (codes "pc01.lan")
        (revoke_superseded day (codes "d1") computer (codes "pc01.lan") 2 two_rows))
revoke_superseded-is_current_example =
    revoke_superseded-is_current day (2 * day) (codes "d1") computer (codes "pc01.lan") 2 two_rows
      (omega arith)

two_rows-IsKeyed : IsKeyed two_rows
two_rows-IsKeyed = (refl, (refl, tt))

abbrev unlocked : Publishing
unlocked = record { locked = false; is_published = λ ca. true }

revoke_own_certs-own_row_example :
    revoke_own_certs unlocked day (codes "d1") (codes "0x1" ∷ []) two_rows ≡ (
      if needs_key unlocked (codes "d1") (codes "0x1" ∷ []) two_rows && unlocked.locked
      then none
      else (some (
        map (own_row day (codes "d1") (codes "0x1" ∷ [])) two_rows,
        map
            (λ (c : Held). c.serial)
            (select (is_revoked_own (codes "d1") (codes "0x1" ∷ [])) two_rows),
      )))
revoke_own_certs-own_row_example =
    revoke_own_certs-own_row unlocked day (codes "d1") (codes "0x1" ∷ []) two_rows two_rows-IsKeyed

abbrev user_rows : List Held
user_rows =
    record (certificate 1) { template = codes "user"; pal_user = some (codes "PC01_alice") } ∷ []

abbrev bobs_audit : Audit
bobs_audit = record { at = day; serials = []; account = some (codes "PC01_bob") }

audits-is_kept_example :
    All
      (λ c. is_kept (λ s. s) (codes "PC01_alice") c ≡ true)
      (audits (λ s. s) (codes "d1") (bobs_audit ∷ []) user_rows)
audits-is_kept_example =
    audits-is_kept (λ s. s) (codes "PC01_alice") (codes "d1") (bobs_audit ∷ []) user_rows (refl, tt)
      (refl, tt)
