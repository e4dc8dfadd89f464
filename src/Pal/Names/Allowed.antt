-- ===== src/Pal/Names/Allowed.antt =====
-- What `parse_names` of app/pal.py lets through, for each use case.
use cert_generator.Prelude.{
  ok, refuse, refuse_if, ◌>>=◌, for_each, for_each-All, bind-ok, refuse_if-ok, ok-injective, suc,
  ap, refl, ◌≤◌, ◌≡◌, true, false, not, ◌&&◌, Option, none, some, List, [], ◌∷◌, map, length, leb,
  if◌then◌else◌, Text, codes, strip, rstrip_dots, All, Holds, arith, subst, Option-cases,
  Bool-cases, inl, inr,
}
use cert_generator.Pal.Json.{Json, null, object, Fields, get_or}
use cert_generator.Pal.Policy.{
  Policy, Library, is_email, UseCase, web_server, computer, user, code_signing,
}
use cert_generator.Pal.Names.{
  Names, NamesError, max_names, member, distinct_from, texts_in, is_falsy, is_requestable_name,
  dns_name_allowed, user_name_allowed, check_name, first_and_all, dns_list, dns_names, user_name,
  email_of, user_names, is_common_name, signing_names, parse_names, dns_not_list, upn_not_email,
  email_not_email,
}

-- no text comes again, nor is one of those seen before
abbrev pub IsDistinct : List Text → List Text → Type 0
IsDistinct seen [] = Unit
IsDistinct seen (t ∷ ts) = (member t seen ≡ false) × IsDistinct (t ∷ seen) ts

distinct_from-IsDistinct : (seen ts : List Text) → IsDistinct seen (distinct_from seen ts)
distinct_from-IsDistinct seen [] = tt
distinct_from-IsDistinct seen (t ∷ ts) = elim (Bool-cases (member t seen)) [
  | inl e ↦ rw e (distinct_from-IsDistinct seen ts)
  | inr e ↦ rw e (e, distinct_from-IsDistinct (t ∷ seen) ts)
]

length-distinct_from-le : (seen ts : List Text) → length (distinct_from seen ts) ≤ length ts
length-distinct_from-le seen [] = omega arith
length-distinct_from-le seen (t ∷ ts) =
    ground (arith, length-distinct_from-le seen ts, length-distinct_from-le (t ∷ seen) ts)

distinct_from-All :
    (P : Text → Type 0) (seen ts : List Text) → All P ts → All P (distinct_from seen ts)
distinct_from-All P seen [] h = tt
distinct_from-All P seen (t ∷ ts) h = elim (Bool-cases (member t seen)) [
  | inl e ↦ rw e (distinct_from-All P seen ts h.1)
  | inr e ↦ rw e (h.0, distinct_from-All P (t ∷ seen) ts h.1)
]

length-map : (f : Text → Text) (ts : List Text) → length (map f ts) ≡ length ts
length-map f [] = refl
length-map f (t ∷ ts) = ap suc (length-map f ts)

module _ (lib : Library) (policy : Policy) where
  abbrev pub IsAllowedDns : Text → Type 0
  IsAllowedDns name =
      (is_requestable_name lib name ≡ true) × (dns_name_allowed lib name policy.dns ≡ true)

  abbrev pub IsAllowedUser : Text → Type 0
  IsAllowedUser name = (is_email name ≡ true) × (user_name_allowed lib name policy.users ≡ true)

  -- the names that each use case may have
  abbrev pub IsAllowed : Text → UseCase → Names → Type 0
  IsAllowed fqdn computer n =
      (n.common_name ≡ fqdn) × (n.san ≡ fqdn ∷ []) × (n.upn ≡ none) × (n.email ≡ none)
  IsAllowed fqdn web_server n =
      All IsAllowedDns n.san
      × IsDistinct [] n.san
      × (length n.san ≤ max_names)
      × ((rest : List Text) × (n.san ≡ n.common_name ∷ rest))
  IsAllowed fqdn user n =
      IsAllowedUser n.common_name
      × (n.san ≡ [])
      × (n.upn ≡ some n.common_name)
      × Holds IsAllowedUser n.email
  IsAllowed fqdn code_signing n =
      (is_common_name lib n.common_name ≡ true) × (n.san ≡ []) × (n.upn ≡ none) × (n.email ≡ none)

  check_name-IsAllowedDns :
      (raw name : Text) → check_name lib policy raw ≡ ok name → IsAllowedDns name
  unfolding check_name
  check_name-IsAllowedDns raw name h = ground arith

  user_name-IsAllowedUser :
      (error : NamesError) (j : Json) (name : Text)
      → user_name lib error policy j ≡ ok name
      → IsAllowedUser name
  unfolding user_name
  user_name-IsAllowedUser error j name h = ground arith

  email_of-IsAllowedUser :
      (j : Json) (email : Option Text)
      → email_of lib policy j ≡ ok email
      → Holds IsAllowedUser email
  unfolding email_of
  email_of-IsAllowedUser j email h = elim (Bool-cases (is_falsy j)) [
    | inl none_sent ↦
        let same : none ≡ email =
          ok-injective (email_of lib policy j) (rw (none_sent, email_of) refl) h in
        rw (← same) tt
    | inr was_sent ↦
        let (name, is_ok, last) =
          bind-ok (user_name lib email_not_email policy j) (λ e. ok (some e)) email
            (subst
              (λ b.
                (if b then ok none else user_name lib email_not_email policy j >>= λ e. ok (some e))
                ≡ ok email)
              was_sent h) in
        let same : some name ≡ email = ok-injective _ refl last in
        rw (← same) (user_name-IsAllowedUser email_not_email j name is_ok)
  ]

  first_and_all-IsAllowed :
      (names : List Text) (n : Names) (fqdn : Text)
      → All IsAllowedDns names
      → IsDistinct [] names
      → length names ≤ max_names
      → first_and_all lib names ≡ ok n
      → IsAllowed fqdn web_server n
  first_and_all-IsAllowed [] n fqdn allowed distinct few h = ground (arith, h)
  first_and_all-IsAllowed (name ∷ names) n fqdn allowed distinct few h =
      let same : record { common_name = name; san = name ∷ names; upn = none; email = none } ≡ n =
        ok-injective (first_and_all lib (name ∷ names)) refl h in
      rw (← same) (allowed, distinct, few, (names, refl))

  dns_list-IsAllowed :
      (dns : List Text) (n : Names) (fqdn : Text)
      → dns_list lib policy dns ≡ ok n
      → IsAllowed fqdn web_server n
  unfolding dns_list
  dns_list-IsAllowed dns n fqdn h =
      let raw = map (λ m. rstrip_dots (lib.lower (strip m))) dns in
      let (u, few, rest) =
        bind-ok (refuse_if (not (leb 1 (length dns) && leb (length dns) max_names)) dns_not_list) _
          n h in
      let (cleaned, cleaned_ok, last) = bind-ok (for_each (check_name lib policy) raw) _ n rest in
      let (allowed, same) =
        for_each-All IsAllowedDns (check_name lib policy) check_name-IsAllowedDns raw cleaned
          cleaned_ok in
      first_and_all-IsAllowed (distinct_from [] cleaned) n fqdn
        (distinct_from-All IsAllowedDns [] cleaned allowed) (distinct_from-IsDistinct [] cleaned)
        (ground (
          arith,
          refuse_if-ok _ dns_not_list u few,
          length-distinct_from-le [] cleaned,
          same,
          length-map (λ m. rstrip_dots (lib.lower (strip m))) dns,
        ))
        last

  dns_names-IsAllowed :
      (sent : Fields) (n : Names) (fqdn : Text)
      → dns_names lib sent policy ≡ ok n
      → IsAllowed fqdn web_server n
  unfolding dns_names
  dns_names-IsAllowed sent n fqdn h =
      elim (Option-cases (texts_in (get_or (codes "dns") null sent))) [
        | inl no_list ↦ ground (arith, no_list)
        | inr (dns, found) ↦ dns_list-IsAllowed dns n fqdn (
            subst
              (λ o. elim o [ none ↦ refuse dns_not_list | some d ↦ dns_list lib policy d ] ≡ ok n)
              found h)
      ]

  user_names-IsAllowed :
      (sent : Fields) (n : Names) (fqdn : Text)
      → user_names lib sent policy ≡ ok n
      → IsAllowed fqdn user n
  unfolding user_names
  user_names-IsAllowed sent n fqdn h =
      let (upn, upn_ok, rest) =
        bind-ok (user_name lib upn_not_email policy (get_or (codes "upn") null sent)) _ n h in
      let (email, email_ok, last) =
        bind-ok (email_of lib policy (get_or (codes "email") null sent)) _ n rest in
      let same : record { common_name = upn; san = []; upn = some upn; email = email } ≡ n =
        ok-injective _ refl last in
      rw (← same) (
        user_name-IsAllowedUser upn_not_email _ upn upn_ok,
        refl,
        refl,
        email_of-IsAllowedUser _ email email_ok,
      )

  signing_names-IsAllowed :
      (j : Json) (n : Names) (fqdn : Text)
      → signing_names lib j ≡ ok n
      → IsAllowed fqdn code_signing n
  unfolding signing_names
  signing_names-IsAllowed j n fqdn h = ground arith

  -- Names that `parse_names` accepts are those the PC may have. "computer": the name recorded when
  -- it was connected, and no other. "web-server": 1 to 20 distinct names, each a DNS name or an
  -- address and each allowed by the policy, with the first as common name. "user": an allowed
  -- address as common name and UPN, with no other e-mail address than an allowed one.
  -- "code-signing": a plain common name alone.
  pub parse_names-IsAllowed :
      (use_case : UseCase) (sent : Json) (fqdn : Text) (n : Names)
      → parse_names lib use_case sent policy fqdn ≡ ok n
      → IsAllowed fqdn use_case n
  unfolding parse_names
  parse_names-IsAllowed computer sent fqdn n h =
      let same : record { common_name = fqdn; san = fqdn ∷ []; upn = none; email = none } ≡ n =
        ok-injective (parse_names lib computer sent policy fqdn) refl h in
      rw (← same) (refl, refl, refl, refl)
  parse_names-IsAllowed web_server (object sent) fqdn n h = dns_names-IsAllowed sent n fqdn h
  parse_names-IsAllowed user (object sent) fqdn n h = user_names-IsAllowed sent n fqdn h
  parse_names-IsAllowed code_signing (object sent) fqdn n h = signing_names-IsAllowed _ n fqdn h
  parse_names-IsAllowed web_server sent fqdn n h = ground (arith, h)
  parse_names-IsAllowed user sent fqdn n h = ground (arith, h)
  parse_names-IsAllowed code_signing sent fqdn n h = ground (arith, h)
