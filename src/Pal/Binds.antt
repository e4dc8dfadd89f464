-- ===== src/Pal/Binds.antt =====
-- `create_binds` of app/routes/pal.py: a PC asks to put a certificate to work for some roles. Times
-- of certificates are numbers of microseconds, `at` is the clock in the seconds of the pal_* tables.
pub mod Allowed
use cert_generator.Prelude.{
  ℕ, Bool, true, false, not, ◌&&◌, ◌||◌, Option, none, some, List, [], ◌∷◌, any, find, select, leb,
  if◌then◌else◌, is_empty, Text, codes, text_eq, Result, ok, refuse, refuse_if, or_raise, ◌>>=◌,
  ◌>>◌,
}
use cert_generator.Pal.Json.{Json, null, Fields, get_or}
use cert_generator.Pal.Tables.{Status, Device}
use cert_generator.Pal.Store.{Store}
use cert_generator.Pal.Store.Binds.{NewBind, create_pal_bind}
use cert_generator.Pal.Policy.{Mode, off, approve, is_off, Policy, Binds}
use cert_generator.Pal.Reported.{
  Library, ReportError, parse_binds, request_note, normalize_serial, windows_user,
}
use cert_generator.Pal.Held.{Held}
use cert_generator.Certificates.{Registry}
use cert_generator.Certificates.Roots.{root_ca_id}
use cert_generator.Certificates.Tree.{has_member, ca_tree_ids}

pub data BindRefusal : Type 0 where
  bad_report : ReportError → BindRefusal
  not_ours not_usable wrong_kind not_allowed : BindRefusal
  unknown_device : BindRefusal  -- the `IntegrityError` of `create_pal_bind`

-- `policy.binds.get(target, "off")`
unfoldable pub bind_mode : Text → Binds → Mode
bind_mode target binds =
    if text_eq target (codes "rdp")
    then binds.rdp
    else if text_eq target (codes "winrm")
    then binds.winrm
    else if text_eq target (codes "iis")
    then binds.iis
    else if text_eq target (codes "rd-gateway")
    then binds.rd_gateway
    else if text_eq target (codes "rd-broker")
    then binds.rd_broker
    else off

abbrev pub is_issued : List ℕ → Text → Held → Bool
is_issued ca_ids serial c = has_member c.ca_id ca_ids && text_eq c.serial serial

unfoldable pub get_pal_cert_by_serial : List ℕ → Text → List Held → Option Held
get_pal_cert_by_serial ca_ids serial rows = find (is_issued ca_ids serial) rows

-- the CAs under the root of the PC's CA
unfoldable pub tree_of : ℕ → Registry → List ℕ
tree_of ca r = elim (root_ca_id ca r) [ none ↦ [] | some root ↦ ca_tree_ids root r ]

abbrev pub is_bindable : Held → Bool
is_bindable c = text_eq c.template (codes "web-server") || text_eq c.template (codes "computer")

unfoldable pub refused : Policy → List (Text × Text) → List (Text × Text)
refused policy wanted = select (λ (w : Text × Text). is_off (bind_mode w.0 policy.binds)) wanted

abbrev pub bind_status : Mode → Status
bind_status approve = Status.pending
bind_status _ = Status.approved

abbrev pub new_bind :
    Policy → Device → Text → Text → Option Text → Option Text → Text × Text → NewBind
new_bind policy device serial name account note (target, detail) = record {
  device_id = device.id;
  serial = serial;
  cert_name = name;
  target = target;
  detail = detail;
  status = bind_status (bind_mode target policy.binds);
  windows_user = account;
  note = note;
}

-- the loop, with the ids of the binds
unfoldable pub store_binds :
    ℕ → (Text × Text → NewBind) → List (Text × Text) → Store → Option (Store × List ℕ)
store_binds at bind_for [] s = some (s, [])
store_binds at bind_for (w ∷ wanted) s = elim (create_pal_bind at (bind_for w) s) [
  | none ↦ none
  | some stored ↦ elim (store_binds at bind_for wanted stored.0) [
    | none ↦ none
    | some rest ↦ some (rest.0, stored.1 ∷ rest.1)
  ]
]

-- `except PalError`
abbrev pub report_ok : {A : Type 0} → Result ReportError A → Result BindRefusal A
report_ok (ok a) = ok a
report_ok (refuse e) = refuse (bad_report e)

abbrev pub certificate_of : List ℕ → Option Text → List Held → Option Held
certificate_of tree none rows = none
certificate_of tree (some serial) rows = get_pal_cert_by_serial tree serial rows

-- the checks of the certificate, and of the roles
unfoldable pub usable : ℕ → Policy → List (Text × Text) → Option Held → Result BindRefusal Held
usable now policy wanted found = do
  cert ← or_raise not_ours found
  refuse_if (cert.revoked || leb cert.not_after now) not_usable
  refuse_if (not (is_bindable cert)) wrong_kind
  refuse_if (not (is_empty (refused policy wanted))) not_allowed
  ok cert

abbrev pub or_empty_text : Option Text → Text
or_empty_text none = []
or_empty_text (some t) = t

module _ (lib : Library) where
  unfoldable pub create_binds :
      ℕ
      → ℕ
      → Policy
      → Device
      → Fields
      → Registry
      → List Held
      → Store
      → Result BindRefusal (Store × List ℕ)
  create_binds now at policy device sent r rows s = do
    wanted ← report_ok (parse_binds lib (get_or (codes "binds") null sent))
    note ← report_ok (request_note lib (get_or (codes "note") null sent))
    cert ← usable now policy wanted (
        certificate_of (tree_of device.ca_id r)
          (normalize_serial lib (get_or (codes "serial") null sent)) rows)
    or_raise unknown_device (
        store_binds at
          (new_bind policy device
            (or_empty_text (normalize_serial lib (get_or (codes "serial") null sent)))
            cert.common_name (windows_user (get_or (codes "windows_user") null sent)) note)
          wanted s)
