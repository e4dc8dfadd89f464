-- ===== src/Examples/Names.antt =====
-- Runs of the policy and name checks of app/pal.py.
use cert_generator.Pal.Names.{
  check_name, dns_list, dns_names, is_requestable_name, Names, dns_name_allowed, parse_names,
}
use cert_generator.Pal.Patterns.{is_dns_name, is_label}
use cert_generator.Prelude.{
  ok, rstrip_dots, split_on, strip, ℕ, refl, ◌≡◌, false, none, [], ◌∷◌, codes, leb,
}
use cert_generator.Pal.Policy.{
  parse_dns_pattern, parse_user_pattern, Policy, Library, web_server, off, auto, approve,
  parse_policy,
}
use cert_generator.Pal.Json.{Json, text, array, object, item, no_items, field, no_fields, Fields}
use cert_generator.Pal.Policy.Accepted.{IsAccepted, parse_policy-IsAccepted}
use cert_generator.Pal.Names.Allowed.{IsAllowed, parse_names-IsAllowed}

-- no name is an address
abbrev pub lib : Library
lib = record {
  lower = λ s. s;
  is_word = λ c. leb b'a' c;
  Address = ℕ;
  Network = ℕ;
  ip_address = λ s. none;
  ip_network = λ s. none;
  is_in = λ a n. false;
}

abbrev form : Fields
form =
    field (codes "dns") (array (item (text (codes " *.lan. ")) no_items))
      (field (codes "users") (array (item (text (codes "*@home.lan")) no_items)) no_fields)

abbrev pub policy : Policy
policy = record {
  use_cases = record { web_server = auto; computer = auto; user = approve; code_signing = off };
  dns = codes "*.lan" ∷ [];
  users = codes "*@home.lan" ∷ [];
  max_days = 365;
  crl_dps = codes "none" ∷ [];
  crl_base_url = none;
  allow_remote = false;
  binds = record { rdp = auto; winrm = auto; iis = auto; rd_gateway = auto; rd_broker = auto };
}

parse_policy-form : parse_policy lib form 825 ≡ ok policy
unfolding parse_policy parse_dns_pattern rstrip_dots strip is_dns_name split_on is_label
    parse_user_pattern
parse_policy-form = refl

parse_policy-IsAccepted_example : IsAccepted lib 825 policy
parse_policy-IsAccepted_example = parse_policy-IsAccepted lib form 825 policy parse_policy-form

abbrev wanted : Json
wanted = object (
    field (codes "dns")
      (array (
        item (text (codes "nas.lan"))
          (item (text (codes "nas.lan.")) (item (text (codes "www.nas.lan")) no_items))))
      no_fields)

abbrev two_names : Names
two_names = record {
  common_name = codes "nas.lan";
  san = codes "nas.lan" ∷ codes "www.nas.lan" ∷ [];
  upn = none;
  email = none;
}

parse_names-wanted : parse_names lib web_server wanted policy (codes "pc01.lan") ≡ ok two_names
unfolding parse_names dns_names dns_list check_name is_requestable_name is_dns_name rstrip_dots
    strip split_on is_label dns_name_allowed
parse_names-wanted = refl

parse_names-IsAllowed_example : IsAllowed lib policy (codes "pc01.lan") web_server two_names
parse_names-IsAllowed_example =
    parse_names-IsAllowed lib policy web_server wanted (codes "pc01.lan") two_names
      parse_names-wanted

rstrip-www : rstrip_dots (codes "www.nas.lan") ≡ codes "www.nas.lan"
unfolding rstrip_dots
rstrip-www = refl
