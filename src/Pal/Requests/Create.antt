-- ===== src/Pal/Requests/Create.antt =====
-- `_duplicate_refusal` and `create_request` of app/routes/pal.py, and `parse_int` of app/web.py.
use cert_generator.Prelude.{
  ℕ, ℤ, pos, negsuc, min, Bool, false, not, Option, none, some, List, [], ◌∷◌, any, find, select,
  ltb, ◌==◌, if◌then◌else◌, Text, codes, text_eq, Result, ok, refuse, refuse_if, or_raise, ◌>>=◌,
  ◌>>◌, for_each,
}
use cert_generator.Pal.Json.{
  Json, null, whole, below_zero, fraction, text, array, Items, no_items, item, object, Fields,
  no_fields, field, get_or,
}
use cert_generator.Pal.Tables.{Device, Request}
use cert_generator.Pal.Store.{Store}
use cert_generator.Pal.Store.Rows.{NewRequest, create_pal_request}
use cert_generator.Pal.Policy.{Mode, is_off, approve, Policy, UseCase}
use cert_generator.Pal.Names.{Names, parse_names}
use cert_generator.Pal.Reported.{key_storage, windows_user, request_note}
use cert_generator.Pal.Csr.{load_csr}
use cert_generator.Pal.Held.{Held, is_present, has_held_id, live_certs}
use cert_generator.Pal.Requests.{
  Library, Parsed, number, value_error, overflow_error, Refusal, not_allowed, csr_not_text,
  bad_lifetime, bad_names, bad_csr, bad_note, already_requested, already_renewed, already_issued,
  too_early, unhandled, Granted, waiting, issuing, Times, renew_opens, checked_renewal,
  covered_refusal, list_pending, use_case_text, latest, ends_later, common_name_is, mode_of,
  use_case_of, default_crl_dp, allowed_crl_dp,
}

-- the exception of a function, as a refusal
abbrev pub raised_as {ℓ} : {E : Type 0} {A : Type ℓ} → (E → Refusal) → Result E A → Result Refusal A
raised_as f (ok a) = ok a
raised_as f (refuse e) = refuse (f e)

-- `names.__dict__`
abbrev texts_json : List Text → Items
texts_json [] = no_items
texts_json (t ∷ ts) = item (text t) (texts_json ts)

abbrev or_null : Option Text → Json
or_null none = null
or_null (some t) = text t

unfoldable pub names_json : Names → Json
names_json n = object (
    field (codes "common_name") (text n.common_name) (
      field (codes "san") (array (texts_json n.san))
        (field (codes "upn") (or_null n.upn) (field (codes "email") (or_null n.email) no_fields))))

-- `int(value)`, with the exceptions that `parse_int` catches
abbrev int_or_none : Parsed → Result Refusal (Option ℤ)
int_or_none (number n) = ok (some n)
int_or_none value_error = ok none
int_or_none overflow_error = refuse unhandled

abbrev pub days_from : ℕ → Option ℤ → Result Refusal ℕ
days_from max_days (some (pos n)) = if ltb n 1 then refuse bad_lifetime else ok (min n max_days)
days_from max_days _ = refuse bad_lifetime

-- the refusals where the request is no renewal
abbrev pub refuse_live : List Held → Result Refusal (Unit {0})
refuse_live [] = ok tt
refuse_live (c ∷ cs) = refuse (already_issued (latest (c ∷ cs)))

-- and where it is one of the certificate `old`, which the query for it found or not
abbrev pub refuse_renewal : ℕ → ℕ → Option Held → List Held → Result Refusal (Unit {0})
refuse_renewal now id none live = refuse_if (any (λ c. not (c.id == id)) live) unhandled
refuse_renewal now id (some old) live =
    refuse_if (ltb now (renew_opens old.not_before old.not_after))
      (too_early (renew_opens old.not_before old.not_after))
    >> refuse_if (any (ends_later old id) live) already_renewed

-- A renewal was approved once.
abbrev pub granted : Mode → Option ℕ → ℕ → Granted
granted approve none id = waiting id
granted _ renew_of id = issuing id

pub record Wanted : Type 0 where
  pub use_case : UseCase
  pub names : Names
  pub csr : Text
  pub note : Option Text

pub record Terms : Type 0 where
  pub crl_dp : Text
  pub lifetime : ℕ
  pub renew_of : Option ℕ

module _ (lib : Library) where
  unfoldable pub parse_int : Json → ℤ → Result Refusal (Option ℤ)
  parse_int null default = ok (some default)
  parse_int (whole n) default = ok (some (pos n))
  parse_int (below_zero n) default = ok (some (negsuc n))
  parse_int (fraction t) default = int_or_none (lib.int_of_float t)
  parse_int (text t) default = int_or_none (lib.int_of_text t)
  parse_int _ default = ok none

  -- `lifetime_days`, at most what the policy allows
  unfoldable pub lifetime_of : Json → ℕ → Result Refusal ℕ
  unfolding parse_int
  lifetime_of raw max_days = parse_int raw (pos max_days) >>= days_from max_days

  -- the condition of the comprehension `pending`
  unfoldable pub is_pending_for : UseCase → Text → Request → Result Refusal Bool
  is_pending_for use_case name r =
      if text_eq r.use_case (use_case_text use_case)
      then common_name_is name (lib.loads r.names)
      else ok false

  unfoldable pub duplicate_refusal :
      Times → Device → UseCase → Names → Option ℕ → Store → List Held → Result Refusal (Unit {0})
  unfolding list_pending live_certs renew_opens
  duplicate_refusal now device use_case names none s rows = do
    refuse_live
        (select is_present (live_certs now.at_live device.id use_case names.common_name rows))
    pending ← for_each (is_pending_for use_case names.common_name) (list_pending device.id s)
    refuse_if (any (λ b. b) pending) already_requested
  duplicate_refusal now device use_case names (some id) s rows =
      refuse_renewal now.at_duplicate id (find (has_held_id id) rows)
        (live_certs now.at_live device.id use_case names.common_name rows)

  -- `csr` of the request
  unfoldable pub csr_of : Json → Result Refusal Text
  csr_of (text csr) = do
    bytes ← or_raise unhandled (lib.utf8_length csr)
    key ← raised_as bad_csr (load_csr bytes (lib.load_pem csr))
    ok csr
  csr_of _ = refuse csr_not_text

  -- the certificate that is asked for, checked with the policy
  unfoldable pub wanted_of : Policy → Device → Fields → Result Refusal Wanted
  wanted_of policy device sent = do
    use_case ← use_case_of (get_or (codes "use_case") null sent)
    refuse_if (is_off (mode_of use_case policy)) not_allowed
    names ←
        raised_as bad_names
          (parse_names lib.names use_case (get_or (codes "names") null sent) policy device.fqdn)
    csr ← csr_of (get_or (codes "csr") null sent)
    note ← raised_as bad_note (request_note lib.report (get_or (codes "note") null sent))
    ok (record { use_case = use_case; names = names; csr = csr; note = note })

  -- its revocation type and lifetime, and the certificate that it renews
  unfoldable pub terms_of :
      Policy → Device → Fields → UseCase → Names → List Held → Result Refusal Terms
  terms_of policy device sent use_case names rows = do
    crl_dp ←
        allowed_crl_dp policy.crl_dps
          (get_or (codes "crl_dp") (text (default_crl_dp policy.crl_dps)) sent)
    lifetime ← lifetime_of (get_or (codes "lifetime_days") null sent) policy.max_days
    renew_of ← checked_renewal (get_or (codes "renew_of") null sent) device use_case names rows
    ok (record { crl_dp = crl_dp; lifetime = lifetime; renew_of = renew_of })

  abbrev pub new_request : Device → Fields → Wanted → Terms → NewRequest
  new_request device sent w t = record {
    device_id = device.id;
    use_case = use_case_text w.use_case;
    names = lib.dumps (names_json w.names);
    csr_pem = w.csr;
    lifetime_days = t.lifetime;
    renew_of = t.renew_of;
    crl_dp = some t.crl_dp;
    key_storage = key_storage (get_or (codes "key_storage") null sent);
    windows_user = windows_user (get_or (codes "windows_user") null sent);
    note = w.note;
  }

  -- the refusals of a second copy, and the new row
  unfoldable pub store_request :
      Times
      → Policy
      → Device
      → Fields
      → Wanted
      → Terms
      → Store
      → List Held
      → Result Refusal (Store × Granted)
  store_request now policy device sent w t s rows = do
    covered_refusal now.at_covered device w.use_case w.names t.renew_of rows
    duplicate_refusal now device w.use_case w.names t.renew_of s rows
    stored ← or_raise unhandled (create_pal_request (new_request device sent w t) s)
    ok (stored.0, granted (mode_of w.use_case policy) t.renew_of stored.1)

  unfoldable pub create_request :
      Times → Policy → Device → Fields → Store → List Held → Result Refusal (Store × Granted)
  create_request now policy device sent s rows = do
    w ← wanted_of policy device sent
    t ← terms_of policy device sent w.use_case w.names rows
    store_request now policy device sent w t s rows
