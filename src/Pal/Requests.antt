-- ===== src/Pal/Requests.antt =====
-- `create_request` of app/routes/pal.py, up to where the certificate is issued, with the functions
-- that refuse a request. Times are numbers of microseconds.
pub mod Create
pub mod Renewals
pub mod Permitted
use cert_generator.Prelude.{
  ℕ, ℤ, pos, negsuc, ◌+◌, ◌-◌, ◌*◌, ◌/◌, ◌^◌, min, max, Bool, true, false, not, ◌&&◌, ◌||◌, Option,
  none, some, List, [], ◌∷◌, ◌++◌, any, find, select, take, reverse, ltb, leb, ◌==◌, if◌then◌else◌,
  is_empty, is_none, Text, codes, text_eq, Result, ok, refuse, refuse_if, or_raise, ◌>>=◌, ◌>>◌,
  for_each,
}
use cert_generator.Pal.Json.{
  Json, null, boolean, whole, below_zero, fraction, text, array, object, Items, no_items, item,
  Fields, no_fields, field, get, get_or,
}
use cert_generator.Pal.Tables.{Status, same_status, Device, Request}
use cert_generator.Pal.Store.{Store, has_device_id}
use cert_generator.Pal.Store.Rows.{NewRequest, create_pal_request}
use cert_generator.Pal.Policy.{
  Mode, is_off, auto, approve, Policy, UseCase, web_server, computer, user, code_signing,
}
use cert_generator.Pal.Policy.{Library as NameLibrary}
use cert_generator.Pal.Names.{Names, NamesError, parse_names, member}
use cert_generator.Pal.Reported.{ReportError, key_storage, windows_user, request_note}
use cert_generator.Pal.Reported.{Library as ReportLibrary}
use cert_generator.Pal.Csr.{Csr, CsrError, load_csr}
use cert_generator.Pal.Held.{Held, template_of, is_of, is_present, has_held_id, live_certs}

-- what `int(value)` gives for a text or a `float`
pub data Parsed : Type 0 where
  number : ℤ → Parsed
  value_error overflow_error : Parsed

-- what the libraries do for these functions
pub record Library : Type 1 where
  pub names : NameLibrary
  pub report : ReportLibrary
  pub int_of_text : Text → Parsed
  pub int_of_float : Text → Parsed  -- from its `repr`
  pub utf8_length : Text → Option ℕ  -- `len(s.encode())`; `none` is a `UnicodeEncodeError`
  pub load_pem : Text → Option Csr  -- see `load_csr`
  pub dumps : Json → Text
  pub loads : Text → Option Json

pub data Refusal : Type 0 where
  unknown_use_case not_allowed csr_not_text revocation_type bad_lifetime cannot_renew : Refusal
  bad_names : NamesError → Refusal
  bad_csr : CsrError → Refusal
  bad_note : ReportError → Refusal
  covered already_requested already_renewed : Refusal
  already_issued : ℕ → Refusal  -- until when
  too_early : ℕ → Refusal  -- when renewal opens
  unhandled : Refusal  -- an exception that the handler does not catch

-- what is left to do: wait for the admin, or issue the certificate now
pub data Granted : Type 0 where
  waiting issuing : ℕ → Granted

-- what `_utc_now()` gives to `_covered_refusal`, `_duplicate_refusal` and its `_live_certs`
pub record Times : Type 0 where
  pub at_covered : ℕ
  pub at_duplicate : ℕ
  pub at_live : ℕ

-- Renewals --------------------------------------------------------------------------------------

abbrev pub day : ℕ
day = 24 * 3600 * 1000000

abbrev pub renew_window_days : ℕ
renew_window_days = 30

-- a third of a `timedelta`, to the nearest microsecond
abbrev pub third : ℕ → ℕ
third n = (n + 1) / 3

-- If the certificate ends before it begins, the window is a negative `timedelta`.
unfoldable pub renew_opens : ℕ → ℕ → ℕ
renew_opens not_before not_after =
    if leb not_before not_after
    then not_after - min (renew_window_days * day) (third (not_after - not_before))
    else not_after + third (not_before - not_after)

-- `",".join(parts)`
abbrev pub comma_joined : List Text → Text
comma_joined [] = []
comma_joined (t ∷ []) = t
comma_joined (t ∷ ts) = t ++ b',' ∷ comma_joined ts

abbrev pub is_same : Device → UseCase → Names → Held → Bool
is_same device use_case names old =
    is_of device.id old
    && not old.revoked
    && text_eq old.template (template_of use_case)
    && text_eq old.common_name names.common_name
    && text_eq old.san_domains (comma_joined names.san)

-- `_renewable`: the certificate
unfoldable pub renewable : Json → Device → UseCase → Names → List Held → Option ℕ
renewable (whole id) device use_case names rows = elim (find (has_held_id id) rows) [
  | none ↦ none
  | some old ↦ if is_same device use_case names old then some id else none
]
renewable _ device use_case names rows = none

-- sqlite3 raises an `OverflowError` for an integer of more than 64 bits.
abbrev pub is_too_large : Json → Bool
is_too_large (whole id) = leb (2 ^ 63) id
is_too_large (below_zero n) = leb (2 ^ 63) n
is_too_large _ = false

-- `renew_of is not None and not _renewable(…)`
unfoldable pub checked_renewal :
    Json → Device → UseCase → Names → List Held → Result Refusal (Option ℕ)
checked_renewal null device use_case names rows = ok none
checked_renewal raw device use_case names rows =
    if is_too_large raw then refuse unhandled else elim (renewable raw device use_case names rows) [
      | none ↦ refuse cannot_renew
      | some id ↦ ok (some id)
    ]

-- The certificates and requests there are -------------------------------------------------------

abbrev is_web_server : UseCase → Bool
is_web_server web_server = true
is_web_server _ = false

-- `names.san == [fqdn]`
abbrev pub is_only : Text → List Text → Bool
is_only t [] = false
is_only t (u ∷ []) = text_eq u t
is_only t (u ∷ v ∷ us) = false

unfoldable pub covered_refusal :
    ℕ → Device → UseCase → Names → Option ℕ → List Held → Result Refusal (Unit {0})
covered_refusal now device use_case names renew_of rows =
    refuse_if
      (is_web_server use_case
        && is_none renew_of
        && is_only device.fqdn names.san
        && any is_present (live_certs now device.id computer device.fqdn rows))
      covered

abbrev pub max_listed : ℕ
max_listed = 500

-- `db.list_pal_requests(status="pending", device_id=…)`, for a device there is: the newest first
unfoldable pub list_pending : Text → Store → List Request
list_pending device s =
    if any (has_device_id device) s.devices
    then take max_listed (
        reverse (
          select
            (λ (r : Request). same_status r.status Status.pending && text_eq r.device_id device)
            s.requests))
    else []

abbrev pub use_case_text : UseCase → Text
use_case_text web_server = codes "web-server"
use_case_text computer = codes "computer"
use_case_text user = codes "user"
use_case_text code_signing = codes "code-signing"

abbrev pub latest : List Held → ℕ
latest [] = 0
latest (c ∷ cs) = max c.not_after (latest cs)

abbrev pub ends_later : Held → ℕ → Held → Bool
ends_later old id c = not (c.id == id) && ltb old.not_after c.not_after

abbrev is_text : Text → Json → Bool
is_text name (text t) = text_eq t name
is_text name _ = false

-- `json.loads(r["names"]).get("common_name") == name`
abbrev pub common_name_is : Text → Option Json → Result Refusal Bool
common_name_is name (some (object fs)) = ok (is_text name (get_or (codes "common_name") null fs))
common_name_is name _ = refuse unhandled

-- the policy for the use case
unfoldable pub mode_of : UseCase → Policy → Mode
mode_of web_server p = p.use_cases.web_server
mode_of computer p = p.use_cases.computer
mode_of user p = p.use_cases.user
mode_of code_signing p = p.use_cases.code_signing

-- `USE_CASES`, looked up with what was sent
unfoldable pub use_case_of : Json → Result Refusal UseCase
use_case_of (text t) =
    if text_eq t (codes "web-server")
    then ok web_server
    else if text_eq t (codes "computer")
    then ok computer
    else if text_eq t (codes "user")
    then ok user
    else if text_eq t (codes "code-signing")
    then ok code_signing
    else refuse unknown_use_case
use_case_of (array js) = refuse unhandled
use_case_of (object fs) = refuse unhandled
use_case_of _ = refuse unknown_use_case

-- `Policy.crl_dp`
abbrev pub default_crl_dp : List Text → Text
default_crl_dp [] = codes "none"
default_crl_dp (t ∷ ts) = t

abbrev pub allowed_crl_dp : List Text → Json → Result Refusal Text
allowed_crl_dp allowed (text t) = if member t allowed then ok t else refuse revocation_type
allowed_crl_dp allowed _ = refuse revocation_type
