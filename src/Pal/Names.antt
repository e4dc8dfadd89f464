-- ===== src/Pal/Names.antt =====
-- The names of a certificate request, checked against the policy of the PC: the functions of
-- app/pal.py from `_is_requestable_name` to `parse_names`.
pub mod Allowed
pub mod Covered
use cert_generator.Prelude.{
  Result, ok, refuse, refuse_if, ◌>>=◌, ◌>>◌, for_each, ℕ, Bool, true, false, not, ◌&&◌, ◌||◌,
  Option, none, some, List, [], ◌∷◌, map, any, all, length, leb, ◌==◌, if◌then◌else◌, is_some,
  is_empty, Text, codes, text_eq, strip, rstrip_dots, starts_with, ends_with, split_on, drop,
  contains,
}
use cert_generator.Pal.Json.{
  Json, null, text, array, object, Fields, items, get_or, boolean, whole, fraction, Items, no_items,
  no_fields,
}
use cert_generator.Pal.Patterns.{dollar, is_dns_name}
use cert_generator.Pal.Policy.{
  Policy, Library, is_email, is_for_machine, UseCase, web_server, computer, user, code_signing,
}

pub record Names : Type 0 where
  pub common_name : Text
  pub san : List Text
  pub upn : Option Text
  pub email : Option Text

-- what names are refused for
pub data NamesError : Type 0 where
  no_dns_suffix : NamesError
  pc_outside names_not_object dns_not_list not_valid_name : NamesError
  wrong_domain name_not_allowed : Text → NamesError
  upn_not_email email_not_email bad_common_name : NamesError

abbrev pub max_names : ℕ
max_names = 20

-- a text of the list is there
abbrev pub member : Text → List Text → Bool
member t ts = any (text_eq t) ts

-- `list(dict.fromkeys(xs))`
abbrev pub distinct_from : List Text → List Text → List Text
distinct_from seen [] = []
distinct_from seen (t ∷ ts) =
    if member t seen then distinct_from seen ts else t ∷ distinct_from (t ∷ seen) ts

abbrev texts_of : List Json → Option (List Text)
texts_of [] = some []
texts_of (text t ∷ js) = elim (texts_of js) [ none ↦ none | some ts ↦ some (t ∷ ts) ]
texts_of _ = none

abbrev texts_in : Json → Option (List Text)
texts_in (array js) = texts_of (items js)
texts_in _ = none

-- `data.get("email") or None`: what Python takes for false is no address
abbrev is_falsy : Json → Bool
is_falsy null = true
is_falsy (boolean b) = not b
is_falsy (whole n) = n == 0
is_falsy (text t) = is_empty t
is_falsy (array no_items) = true
is_falsy (object no_fields) = true
is_falsy (fraction t) = text_eq t (codes "0.0") || text_eq t (codes "-0.0")
is_falsy _ = false

module _ (lib : Library) where
  -- `_is_requestable_name`
  unfoldable pub is_requestable_name : Text → Bool
  is_requestable_name name = is_some (lib.ip_address name) || is_dns_name name

  -- one pattern of the loop of `dns_name_allowed`; `none` for a name that is no address
  abbrev pub pattern_allows : Text → Option lib.Address → Text → Bool
  pattern_allows name (some address) pattern = elim (lib.ip_network pattern) [
    | none ↦ false
    | some network ↦ lib.is_in address network
  ]
  pattern_allows name none pattern =
      text_eq name pattern || (starts_with pattern (codes "*.") && ends_with name (drop 1 pattern))

  unfoldable pub dns_name_allowed : Text → List Text → Bool
  dns_name_allowed raw patterns =
      let name = rstrip_dots (lib.lower raw) in
      not (contains b'*' name) && any (pattern_allows name (lib.ip_address name)) patterns

  unfoldable pub user_name_allowed : Text → List Text → Bool
  user_name_allowed raw patterns =
      let name = lib.lower raw in
      any (λ p. text_eq name p || (starts_with p (codes "*@") && ends_with name (drop 1 p)))
        patterns

  unfoldable pub parse_fqdn : Json → Policy → Result NamesError Text
  parse_fqdn (text raw) policy =
      let fqdn = rstrip_dots (lib.lower (strip raw)) in
      if is_empty fqdn || not (is_dns_name fqdn)
      then refuse no_dns_suffix
      else if is_for_machine policy.use_cases && not (dns_name_allowed fqdn policy.dns)
      then refuse pc_outside
      else ok fqdn
  parse_fqdn _ policy = refuse no_dns_suffix

  -- the loop over the cleaned names
  unfoldable pub check_name : Policy → Text → Result NamesError Text
  check_name policy name = do
    refuse_if (not (is_requestable_name name)) not_valid_name
    refuse_if (not (dns_name_allowed name policy.dns)) (wrong_domain name)
    ok name

  abbrev pub first_and_all : List Text → Result NamesError Names
  first_and_all [] = refuse dns_not_list
  first_and_all (name ∷ names) =
      ok (record { common_name = name; san = name ∷ names; upn = none; email = none })

  unfoldable pub dns_list : Policy → List Text → Result NamesError Names
  dns_list policy dns = do
    refuse_if (not (leb 1 (length dns) && leb (length dns) max_names)) dns_not_list
    cleaned ← for_each (check_name policy) (map (λ n. rstrip_dots (lib.lower (strip n))) dns)
    first_and_all (distinct_from [] cleaned)

  -- "Web server"
  unfoldable pub dns_names : Fields → Policy → Result NamesError Names
  dns_names sent policy = elim (texts_in (get_or (codes "dns") null sent)) [
    | none ↦ refuse dns_not_list
    | some dns ↦ dns_list policy dns
  ]

  -- an address that the policy allows
  unfoldable pub user_name : NamesError → Policy → Json → Result NamesError Text
  user_name error policy (text raw) =
      let name = lib.lower (strip raw) in
      do
        refuse_if (not (is_email name)) error
        refuse_if (not (user_name_allowed name policy.users)) (name_not_allowed name)
        ok name
  user_name error policy _ = refuse error

  -- an e-mail address goes in only when one was sent
  unfoldable pub email_of : Policy → Json → Result NamesError (Option Text)
  email_of policy raw =
      if is_falsy raw
      then ok none
      else user_name email_not_email policy raw >>= λ email. ok (some email)

  unfoldable pub user_names : Fields → Policy → Result NamesError Names
  user_names sent policy = do
    upn ← user_name upn_not_email policy (get_or (codes "upn") null sent)
    email ← email_of policy (get_or (codes "email") null sent)
    ok (record { common_name = upn; san = []; upn = some upn; email = email })

  -- `_CN_RE.match`
  unfoldable pub is_common_name : Text → Bool
  is_common_name s =
      dollar
        (λ t.
          all (λ c. lib.is_word c || any (λ d. d == c) (codes " .,'()&-")) t
          && leb 1 (length t)
          && leb (length t) 64)
        s

  unfoldable pub signing_names : Json → Result NamesError Names
  signing_names (text cn) =
      if is_common_name (strip cn)
      then ok (record { common_name = strip cn; san = []; upn = none; email = none })
      else refuse bad_common_name
  signing_names _ = refuse bad_common_name

  unfoldable pub parse_names : UseCase → Json → Policy → Text → Result NamesError Names
  parse_names computer sent policy device_fqdn =
      ok (record { common_name = device_fqdn; san = device_fqdn ∷ []; upn = none; email = none })
  parse_names web_server (object sent) policy device_fqdn = dns_names sent policy
  parse_names user (object sent) policy device_fqdn = user_names sent policy
  parse_names code_signing (object sent) policy device_fqdn =
      signing_names (get_or (codes "cn") null sent)
  parse_names use_case sent policy device_fqdn = refuse names_not_object
