-- ===== src/Pal/Policy.antt =====
-- The policy of a PC, `Policy` and `parse_policy` of app/pal.py: which certificates it may ask for.
pub mod Accepted
use cert_generator.Prelude.{
  Result, ok, refuse, refuse_if, ◌>>=◌, ◌>>◌, for_each, ℕ, Bool, true, false, not, ◌&&◌, ◌||◌,
  Option, none, some, List, [], ◌∷◌, any, all, length, ltb, leb, ◌==◌, if◌then◌else◌, is_some,
  is_empty, Text, codes, text_eq, strip, rstrip_dots, starts_with, split_on, drop,
}
use cert_generator.Pal.Json.{
  Json, boolean, whole, text, array, object, Fields, no_items, items, get, get_or,
}
use cert_generator.Pal.Patterns.{dollar, is_lower, is_ascii_digit, is_dns_name}

pub data Mode : Type 0 where
  off auto approve : Mode

abbrev pub is_off : Mode → Bool
is_off off = true
is_off _ = false

-- `USE_CASES`
pub data UseCase : Type 0 where
  web_server computer user code_signing : UseCase

-- a dict with a key for each use case
pub record Cases : Type 0 where
  pub web_server : Mode
  pub computer : Mode
  pub user : Mode
  pub code_signing : Mode

-- a dict with a key for each of `BIND_TARGETS`
pub record Binds : Type 0 where
  pub rdp : Mode
  pub winrm : Mode
  pub iis : Mode
  pub rd_gateway : Mode
  pub rd_broker : Mode

pub record Policy : Type 0 where
  pub use_cases : Cases
  pub dns : List Text
  pub users : List Text
  pub max_days : ℕ
  pub crl_dps : List Text
  pub crl_base_url : Option Text
  pub allow_remote : Bool
  pub binds : Binds

-- what a policy is refused for
pub data PolicyError : Type 0 where
  use_cases_not_object all_off names_not_lists too_many_names no_dns_name no_user_name : PolicyError
  bad_lifetime remote_not_boolean binds_not_object : PolicyError
  bad_mode bad_bind : Text → PolicyError
  pattern_not_text pattern_length user_not_text : PolicyError
  bad_dns_pattern bad_user_pattern : Text → PolicyError

abbrev pub max_patterns : ℕ
max_patterns = 32

abbrev pub max_pattern_len : ℕ
max_pattern_len = 253

-- what the Python library does for these functions
pub record Library : Type 1 where
  pub lower : Text → Text  -- `str.lower`
  pub is_word : ℕ → Bool  -- `\w`
  pub Address : Type 0
  pub Network : Type 0
  pub ip_address : Text → Option Address  -- `none` is a `ValueError`
  pub ip_network : Text → Option Network  -- with `strict=False`
  pub is_in : Address → Network → Bool

abbrev pub is_email_char : ℕ → Bool
is_email_char c =
    is_lower c
    || is_ascii_digit c
    || c == b'.'
    || c == b'_'
    || c == b'%'
    || c == b'+'
    || c == 39
    || c == b'-'

abbrev is_host_char : ℕ → Bool
is_host_char c = is_lower c || is_ascii_digit c || c == b'.' || c == b'-'

-- neither part can hold an `@`, so there is one `@` to split at
abbrev pub is_email_body : Text → Bool
is_email_body s = elim (split_on b'@' s) [
  | local ∷ host ∷ [] ↦
      all is_email_char local
      && leb 1 (length local)
      && leb (length local) 64
      && all is_host_char host
      && leb 1 (length host)
      && leb (length host) 253
  | _ ↦ false
]

-- `_EMAIL_RE.match`
unfoldable pub is_email : Text → Bool
is_email s = dollar is_email_body s

abbrev mode_of : Json → Option Mode
mode_of (text t) =
    if text_eq t (codes "off")
    then some off
    else if text_eq t (codes "auto")
    then some auto
    else if text_eq t (codes "approve")
    then some approve
    else none
mode_of _ = none

-- `DEFAULT_APPROVALS`
abbrev default_approvals : Cases
default_approvals = record {
  web_server = auto;
  computer = auto;
  user = approve;
  code_signing = off;
}

-- `DEFAULT_BINDS`
abbrev default_binds : Binds
default_binds = record { rdp = auto; winrm = auto; iis = auto; rd_gateway = auto; rd_broker = auto }

abbrev mode_at : (Text → PolicyError) → Text → Text → Fields → Result PolicyError Mode
mode_at error key default fs = elim (mode_of (get_or key (text default) fs)) [
  | none ↦ refuse (error key)
  | some mode ↦ ok mode
]

-- the loop over `USE_CASES`
abbrev cases_of : Fields → Result PolicyError Cases
cases_of fs = do
  web_server_mode ← mode_at bad_mode (codes "web-server") (codes "off") fs
  computer_mode ← mode_at bad_mode (codes "computer") (codes "off") fs
  user_mode ← mode_at bad_mode (codes "user") (codes "off") fs
  code_signing_mode ← mode_at bad_mode (codes "code-signing") (codes "off") fs
  ok (record {
    web_server = web_server_mode;
    computer = computer_mode;
    user = user_mode;
    code_signing = code_signing_mode;
  })

-- the loop over `BIND_TARGETS`
abbrev binds_of : Fields → Result PolicyError Binds
binds_of fs = do
  rdp ← mode_at bad_bind (codes "rdp") (codes "auto") fs
  winrm ← mode_at bad_bind (codes "winrm") (codes "auto") fs
  iis ← mode_at bad_bind (codes "iis") (codes "auto") fs
  rd_gateway ← mode_at bad_bind (codes "rd-gateway") (codes "auto") fs
  rd_broker ← mode_at bad_bind (codes "rd-broker") (codes "auto") fs
  ok (record {
    rdp = rdp;
    winrm = winrm;
    iis = iis;
    rd_gateway = rd_gateway;
    rd_broker = rd_broker;
  })

abbrev list_of : Json → Option (List Json)
list_of (array js) = some (items js)
list_of _ = none

abbrev pub all_are_off : Cases → Bool
all_are_off c = is_off c.web_server && is_off c.computer && is_off c.user && is_off c.code_signing

-- `any(use_cases[c] != "off" for c in MACHINE_USE_CASES)`
abbrev pub is_for_machine : Cases → Bool
is_for_machine c = not (is_off c.web_server) || not (is_off c.computer)

-- `pattern[2:]` of a pattern that starts with `*.`
abbrev pub host_of : Text → Text
host_of pattern = if starts_with pattern (codes "*.") then drop 2 pattern else pattern

abbrev cases_json : Option Json → Result PolicyError Cases
cases_json none = ok default_approvals
cases_json (some (object fs)) = cases_of fs
cases_json _ = refuse use_cases_not_object

abbrev binds_json : Option Json → Result PolicyError Binds
binds_json none = ok default_binds
binds_json (some (object fs)) = binds_of fs
binds_json _ = refuse binds_not_object

-- `max_days`, and the limit on it
abbrev days_of : ℕ → Json → Result PolicyError ℕ
days_of max_lifetime (whole n) = if leb 1 n && leb n max_lifetime then ok n else refuse bad_lifetime
days_of max_lifetime _ = refuse bad_lifetime

abbrev remote_of : Json → Result PolicyError Bool
remote_of (boolean b) = ok b
remote_of _ = refuse remote_not_boolean

module _ (lib : Library) where
  -- `_parse_dns_pattern`
  unfoldable pub parse_dns_pattern : Json → Result PolicyError Text
  parse_dns_pattern (text raw) =
      let pattern = rstrip_dots (lib.lower (strip raw)) in
      if is_empty pattern || ltb max_pattern_len (length pattern)
      then refuse pattern_length
      else if is_some (lib.ip_network pattern)
      then ok pattern
      else if is_dns_name (host_of pattern)
      then ok pattern
      else refuse (bad_dns_pattern raw)
  parse_dns_pattern _ = refuse pattern_not_text

  -- `_parse_user_pattern`
  unfoldable pub parse_user_pattern : Json → Result PolicyError Text
  parse_user_pattern (text raw) =
      let pattern = lib.lower (strip raw) in
      if starts_with pattern (codes "*@") && is_dns_name (drop 2 pattern)
      then ok pattern
      else if is_email pattern
      then ok pattern
      else refuse (bad_user_pattern raw)
  parse_user_pattern _ = refuse user_not_text

  -- the two lists of raw patterns
  abbrev patterns_of :
      Option (List Json) → Option (List Json) → Result PolicyError (List Text × List Text)
  patterns_of (some dns_raw) (some users_raw) = do
    refuse_if (ltb max_patterns (length dns_raw) || ltb max_patterns (length users_raw))
        too_many_names
    dns ← for_each parse_dns_pattern dns_raw
    users ← for_each parse_user_pattern users_raw
    ok (dns, users)
  patterns_of _ _ = refuse names_not_lists

  unfoldable pub parse_policy : Fields → ℕ → Result PolicyError Policy
  parse_policy form max_lifetime = do
    use_cases ← cases_json (get (codes "use_cases") form)
    refuse_if (all_are_off use_cases) all_off
    names ←
        patterns_of (list_of (get_or (codes "dns") (array no_items) form))
          (list_of (get_or (codes "users") (array no_items) form))
    refuse_if (is_for_machine use_cases && is_empty names.0) no_dns_name
    refuse_if (not (is_off use_cases.user) && is_empty names.1) no_user_name
    max_days ← days_of max_lifetime (get_or (codes "max_days") (whole 365) form)
    allow_remote ← remote_of (get_or (codes "allow_remote") (boolean false) form)
    binds ← binds_json (get (codes "binds") form)
    ok (record {
      use_cases = use_cases;
      dns = names.0;
      users = names.1;
      max_days = max_days;
      crl_dps = codes "none" ∷ [];
      crl_base_url = none;
      allow_remote = allow_remote;
      binds = binds;
    })
