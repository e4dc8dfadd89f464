-- ===== src/Pal/Policy/Accepted.antt =====
-- What `parse_policy` of app/pal.py lets through.
use cert_generator.Prelude.{
  ok, refuse_if, for_each, for_each-All, ok-injective, bind-ok, refuse_if-ok, ℕ, ap, refl, ◌≤◌, ◌≡◌,
  ◌⊎◌, Bool, true, false, not, ◌&&◌, ◌||◌, Option, none, some, List, [], ◌∷◌, length, ltb, is_some,
  is_empty, Text, codes, starts_with, drop, All, arith,
}
use cert_generator.Pal.Json.{Json, Fields, array, no_items, get, get_or, whole, boolean}
use cert_generator.Pal.Patterns.{is_dns_name}
use cert_generator.Pal.Policy.{
  is_off, Policy, Library, max_patterns, max_pattern_len, is_email, all_are_off, is_for_machine,
  host_of, parse_dns_pattern, parse_user_pattern, patterns_of, parse_policy, cases_json, binds_json,
  days_of, remote_of, list_of, too_many_names, all_off, no_dns_name, no_user_name,
}

-- an address or a network, a DNS name, or `*.` and a DNS name
abbrev pub IsDnsPattern : Library → Text → Type 0
IsDnsPattern lib p =
    (1 ≤ length p)
    × (length p ≤ max_pattern_len)
    × ((is_some (lib.ip_network p) ≡ true) ⊎ (is_dns_name (host_of p) ≡ true))

-- an address, or `*@` and a DNS name
abbrev pub IsUserPattern : Text → Type 0
IsUserPattern p =
    (is_email p ≡ true) ⊎ ((starts_with p (codes "*@") ≡ true) × (is_dns_name (drop 2 p) ≡ true))

length-not_empty :
    (wanted : Bool) (names : List Text)
    → (wanted && is_empty names) ≡ false
    → wanted ≡ true
    → 1 ≤ length names
length-not_empty wanted names h w = ground arith

days_of-le :
    (max_lifetime : ℕ) (j : Json) (n : ℕ)
    → days_of max_lifetime j ≡ ok n
    → (1 ≤ n) × (n ≤ max_lifetime)
days_of-le max_lifetime j n h = ground arith

module _ (lib : Library) where
  parse_dns_pattern-IsDnsPattern :
      (j : Json) (p : Text) → parse_dns_pattern lib j ≡ ok p → IsDnsPattern lib p
  unfolding parse_dns_pattern
  parse_dns_pattern-IsDnsPattern j p h = ground arith

  parse_user_pattern-IsUserPattern :
      (j : Json) (p : Text) → parse_user_pattern lib j ≡ ok p → IsUserPattern p
  unfolding parse_user_pattern
  parse_user_pattern-IsUserPattern j p h = ground arith

  patterns_of-IsDnsPattern :
      (dns_raw users_raw : Option (List Json)) (names : List Text × List Text)
      → patterns_of lib dns_raw users_raw ≡ ok names
      → All (IsDnsPattern lib) names.0
        × All IsUserPattern names.1
        × (length names.0 ≤ max_patterns)
        × (length names.1 ≤ max_patterns)
  patterns_of-IsDnsPattern none users_raw names e = ground arith
  patterns_of-IsDnsPattern (some dns_raw) none names e = ground arith
  patterns_of-IsDnsPattern (some dns_raw) (some users_raw) names e =
      let (u, short, e1) =
        bind-ok
          (refuse_if (ltb max_patterns (length dns_raw) || ltb max_patterns (length users_raw))
            too_many_names)
          _ names e in
      let (dns, dns_ok, e2) = bind-ok (for_each (parse_dns_pattern lib) dns_raw) _ names e1 in
      let (users, users_ok, e3) =
        bind-ok (for_each (parse_user_pattern lib) users_raw) _ names e2 in
      let (dns_all, dns_length) =
        for_each-All (IsDnsPattern lib) (parse_dns_pattern lib) parse_dns_pattern-IsDnsPattern
          dns_raw dns dns_ok in
      let (users_all, users_length) =
        for_each-All IsUserPattern (parse_user_pattern lib) parse_user_pattern-IsUserPattern
          users_raw users users_ok in
      let same : (dns, users) ≡ names = ground (arith, e3) in
      rw (← same)
        (dns_all, users_all, ground (arith, short, dns_length), ground (arith, short, users_length))

  -- of an accepted policy: it is for something, its name lists are short and well formed and not
  -- empty where a use case needs them, and its lifetime is within the server's limit.
  pub record IsAccepted (max_lifetime : ℕ) (p : Policy) : Type 0 where
    pub not_all_off : all_are_off p.use_cases ≡ false
    pub dns_formed : All (IsDnsPattern lib) p.dns
    pub users_formed : All IsUserPattern p.users
    pub dns_few : length p.dns ≤ max_patterns
    pub users_few : length p.users ≤ max_patterns
    pub machine_named : is_for_machine p.use_cases ≡ true → 1 ≤ length p.dns
    pub user_named : is_off p.use_cases.user ≡ false → 1 ≤ length p.users
    pub days : (1 ≤ p.max_days) × (p.max_days ≤ max_lifetime)

  -- A policy that `parse_policy` accepts turns on at least one use case, has at most 32 name
  -- patterns of each kind, all of them well formed, at least one of the kind that a use case that
  -- is on needs, and a lifetime between one day and the server's limit.
  pub parse_policy-IsAccepted :
      (form : Fields) (max_lifetime : ℕ) (p : Policy)
      → parse_policy lib form max_lifetime ≡ ok p
      → IsAccepted max_lifetime p
  unfolding parse_policy
  parse_policy-IsAccepted form max_lifetime p e =
      let dns_raw = list_of (get_or (codes "dns") (array no_items) form) in
      let users_raw = list_of (get_or (codes "users") (array no_items) form) in
      let days_raw = get_or (codes "max_days") (whole 365) form in
      let (cases, cases_ok, e1) = bind-ok (cases_json (get (codes "use_cases") form)) _ p e in
      let (u1, on, e2) = bind-ok (refuse_if (all_are_off cases) all_off) _ p e1 in
      let (names, names_ok, e3) = bind-ok (patterns_of lib dns_raw users_raw) _ p e2 in
      let (u2, machine, e4) =
        bind-ok (refuse_if (is_for_machine cases && is_empty names.0) no_dns_name) _ p e3 in
      let (u3, user, e5) =
        bind-ok (refuse_if (not (is_off cases.user) && is_empty names.1) no_user_name) _ p e4 in
      let (max_days, days_ok, e6) = bind-ok (days_of max_lifetime days_raw) _ p e5 in
      let (remote, remote_ok, e7) =
        bind-ok (remote_of (get_or (codes "allow_remote") (boolean false) form)) _ p e6 in
      let (binds, binds_ok, e8) = bind-ok (binds_json (get (codes "binds") form)) _ p e7 in
      let (dns_formed, users_formed, dns_few, users_few) =
        patterns_of-IsDnsPattern dns_raw users_raw names names_ok in
      let same : record {
        use_cases = cases;
        dns = names.0;
        users = names.1;
        max_days = max_days;
        crl_dps = codes "none" ∷ [];
        crl_base_url = none;
        allow_remote = remote;
        binds = binds;
      }
          ≡ p =
        ok-injective _ refl e8 in
      rw (← same) (record {
        not_all_off = refuse_if-ok _ all_off u1 on;
        dns_formed = dns_formed;
        users_formed = users_formed;
        dns_few = dns_few;
        users_few = users_few;
        machine_named = length-not_empty _ names.0 (refuse_if-ok _ no_dns_name u2 machine);
        user_named = λ on.
            length-not_empty (not (is_off cases.user)) names.1 (refuse_if-ok _ no_user_name u3 user)
              (ap not on);
        days = days_of-le max_lifetime days_raw max_days days_ok;
      })
