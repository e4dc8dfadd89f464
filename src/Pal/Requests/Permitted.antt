-- ===== src/Pal/Requests/Permitted.antt =====
-- What `create_request` of app/routes/pal.py stores, if it stores a request.
use cert_generator.Prelude.{
  ℕ, min, ℤ, pos, ◌≤◌, ◌≡◌, Bool, true, false, Option, none, some, List, [], any, find, select,
  Text, codes, Result, ok, refuse_if, or_raise, for_each, bind-ok, refuse_if-ok, arith,
  Option-cases, Bool-cases, inl, inr,
}
use cert_generator.Pal.Json.{Json, null, whole, text, Fields, get_or}
use cert_generator.Pal.Tables.{Device}
use cert_generator.Pal.Store.{Store}
use cert_generator.Pal.Store.Rows.{create_pal_request}
use cert_generator.Pal.Policy.{is_off, Policy, UseCase}
use cert_generator.Pal.Names.{Names, parse_names, member}
use cert_generator.Pal.Names.Allowed.{IsAllowed, parse_names-IsAllowed}
use cert_generator.Pal.Reported.{request_note}
use cert_generator.Pal.Csr.{Csr, Key, load_csr, public_key_algorithm}
use cert_generator.Pal.Held.{Held, is_present, has_held_id, live_certs}
use cert_generator.Pal.Requests.{
  Library, Refusal, Granted, Times, renew_opens, checked_renewal, covered_refusal, list_pending,
  ends_later, mode_of, is_same, allowed_crl_dp, bad_names, bad_csr, bad_note, renewable, unhandled,
  not_allowed, use_case_of, default_crl_dp, already_requested,
}
use cert_generator.Pal.Requests.Create.{
  raised_as, days_from, refuse_live, parse_int, lifetime_of, is_pending_for, duplicate_refusal,
  csr_of, create_request, granted, Wanted, Terms, wanted_of, terms_of, store_request, new_request,
}

days_from-le :
    (max_days : ℕ) (o : Option ℤ) (n : ℕ)
    → days_from max_days o ≡ ok n
    → (n ≤ max_days) × (min 1 max_days ≤ n)
days_from-le max_days o n h = ground arith

raised_as-ok :
    {E A : Type 0} (f : E → Refusal) (r : Result E A) (a : A) → raised_as f r ≡ ok a → r ≡ ok a
raised_as-ok f r a h = ground arith

module _ (lib : Library) where
  lifetime_of-le :
      (raw : Json) (max_days n : ℕ)
      → lifetime_of lib raw max_days ≡ ok n
      → (n ≤ max_days) × (min 1 max_days ≤ n)
  unfolding lifetime_of
  lifetime_of-le raw max_days n h =
      let (o, _, e) = bind-ok (parse_int lib raw (pos max_days)) (days_from max_days) n h in
      days_from-le max_days o n e

  -- a certificate request that proves that its sender holds the key
  abbrev pub IsProven : Text → Type 0
  IsProven pem =
      (csr : Csr) × (lib.load_pem pem ≡ some csr)
      × (csr.is_signature_valid ≡ true)
      × ((algorithm : Text) × (public_key_algorithm csr.public_key ≡ some algorithm))

  load_csr-IsProven :
      (bytes : ℕ) (pem : Text) (key : Key × Text)
      → load_csr bytes (lib.load_pem pem) ≡ ok key
      → IsProven pem
  unfolding load_csr
  load_csr-IsProven bytes pem key h = elim (Option-cases (lib.load_pem pem)) [
    | inl e ↦ ground (arith, e)
    | inr (csr, e) ↦ elim (Option-cases (public_key_algorithm csr.public_key)) [
      | inl e' ↦ ground (arith, e, e')
      | inr (algorithm, e') ↦ (csr, e, ground (arith, e, e'), (algorithm, e'))
    ]
  ]

  csr_of-IsProven : (raw : Json) (pem : Text) → csr_of lib raw ≡ ok pem → IsProven pem
  unfolding csr_of
  csr_of-IsProven (text csr) pem h =
      let (bytes, _, h1) = bind-ok (or_raise unhandled (lib.utf8_length csr)) _ pem h in
      let (key, h2, h3) =
        bind-ok (raised_as bad_csr (load_csr bytes (lib.load_pem csr))) _ pem h1 in
      let same : csr ≡ pem = ground (arith, h3) in
      rw (← same) (
        load_csr-IsProven bytes csr key
          (raised_as-ok bad_csr (load_csr bytes (lib.load_pem csr)) key h2))
  csr_of-IsProven _ pem h = absurd (ground (arith, h))

  -- no certificate of the kind and name that the PC holds, and no request for one
  abbrev pub IsFirst : Times → Device → UseCase → Names → Store → List Held → Type 0
  IsFirst now device use_case names s rows =
      (select is_present (live_certs now.at_live device.id use_case names.common_name rows) ≡ [])
      × ((waits : List Bool) × (for_each (is_pending_for lib use_case names.common_name)
              (list_pending device.id s)
            ≡ ok waits)
          × (any (λ b. b) waits ≡ false))

  -- the renewal of a certificate of the PC, in its window, that has no successor
  abbrev pub IsRenewal : Times → Device → UseCase → Names → ℕ → List Held → Type 0
  IsRenewal now device use_case names id rows =
      (old : Held) × (find (has_held_id id) rows ≡ some old)
      × (is_same device use_case names old ≡ true)
      × (renew_opens old.not_before old.not_after ≤ now.at_duplicate)
      × (any (ends_later old id) (live_certs now.at_live device.id use_case names.common_name rows)
          ≡ false)

  abbrev pub IsFree : Times → Device → UseCase → Names → Option ℕ → Store → List Held → Type 0
  IsFree now device use_case names none s rows = IsFirst now device use_case names s rows
  IsFree now device use_case names (some id) s rows = IsRenewal now device use_case names id rows

  refuse_live-ok : (cs : List Held) (u : Unit {0}) → refuse_live cs ≡ ok u → cs ≡ []
  refuse_live-ok cs u h = ground arith

  checked_renewal-is_same :
      (raw : Json) (device : Device) (use_case : UseCase) (names : Names) (rows : List Held)
      (id : ℕ)
      → checked_renewal raw device use_case names rows ≡ ok (some id)
      → (old : Held) × (find (has_held_id id) rows ≡ some old)
        × (is_same device use_case names old ≡ true)
  unfolding checked_renewal renewable
  checked_renewal-is_same (whole i) device use_case names rows id h =
      elim (Option-cases (find (has_held_id i) rows)) [
        | inl e ↦ ground (arith, h, e)
        | inr (old, e) ↦
            let same : i ≡ id = ground (arith, h, e) in rw (← same) (old, e, ground (arith, h, e))
      ]
  checked_renewal-is_same _ device use_case names rows id h = absurd (ground (arith, h))

  duplicate_refusal-IsFree :
      (now : Times) (device : Device) (use_case : UseCase) (names : Names) (raw : Json)
      (renew_of : Option ℕ) (s : Store) (rows : List Held) (u : Unit {0})
      → checked_renewal raw device use_case names rows ≡ ok renew_of
      → duplicate_refusal lib now device use_case names renew_of s rows ≡ ok u
      → IsFree now device use_case names renew_of s rows
  unfolding duplicate_refusal
  duplicate_refusal-IsFree now device use_case names raw none s rows u k h =
      let live = live_certs now.at_live device.id use_case names.common_name rows in
      let (v, h1, h2) = bind-ok (refuse_live (select is_present live)) _ u h in
      let (waits, h3, h4) =
        bind-ok
          (for_each (is_pending_for lib use_case names.common_name) (list_pending device.id s)) _ u
          h2 in
      (
        refuse_live-ok (select is_present live) v h1,
        (waits, h3, refuse_if-ok (any (λ b. b) waits) already_requested u h4),
      )
  duplicate_refusal-IsFree now device use_case names raw (some id) s rows u k h =
      let (old, e, same) = checked_renewal-is_same raw device use_case names rows id k in
      (old, e, same, ground (arith, h, e), ground (arith, h, e))

  allowed_crl_dp-member :
      (allowed : List Text) (raw : Json) (t : Text)
      → allowed_crl_dp allowed raw ≡ ok t
      → member t allowed ≡ true
  allowed_crl_dp-member allowed (text u) t h = elim (Bool-cases (member u allowed)) [
    | inl e ↦ let same : u ≡ t = ground (arith, h, e) in rw (← same) e
    | inr e ↦ ground (arith, h, e)
  ]
  allowed_crl_dp-member allowed _ t h = absurd (ground (arith, h))

  -- a certificate that the policy lets the PC ask for
  abbrev pub IsWanted : Policy → Device → Wanted → Type 0
  IsWanted policy device w =
      (is_off (mode_of w.use_case policy) ≡ false)
      × IsAllowed lib.names policy device.fqdn w.use_case w.names
      × IsProven w.csr

  wanted_of-IsWanted :
      (policy : Policy) (device : Device) (sent : Fields) (w : Wanted)
      → wanted_of lib policy device sent ≡ ok w
      → IsWanted policy device w
  unfolding wanted_of
  wanted_of-IsWanted policy device sent w h =
      let raw = get_or (codes "names") null sent in
      let (use_case, _, h1) = bind-ok (use_case_of (get_or (codes "use_case") null sent)) _ w h in
      let (u, is_on, h2) =
        bind-ok (refuse_if (is_off (mode_of use_case policy)) not_allowed) _ w h1 in
      let parsed = parse_names lib.names use_case raw policy device.fqdn in
      let (names, are_names, h3) = bind-ok (raised_as bad_names parsed) _ w h2 in
      let (csr, is_csr, h4) = bind-ok (csr_of lib (get_or (codes "csr") null sent)) _ w h3 in
      let (note, _, h5) =
        bind-ok (raised_as bad_note (request_note lib.report (get_or (codes "note") null sent))) _ w
          h4 in
      let same : record { use_case = use_case; names = names; csr = csr; note = note } ≡ w =
        ground (arith, h5) in
      rw (← same) (
        refuse_if-ok (is_off (mode_of use_case policy)) not_allowed u is_on,
        parse_names-IsAllowed lib.names policy use_case raw device.fqdn names
            (raised_as-ok bad_names parsed names are_names),
        csr_of-IsProven (get_or (codes "csr") null sent) csr is_csr,
      )

  abbrev pub AreTerms : Policy → Device → UseCase → Names → List Held → Terms → Type 0
  AreTerms policy device use_case names rows t =
      (member t.crl_dp policy.crl_dps ≡ true)
      × ((t.lifetime ≤ policy.max_days) × (min 1 policy.max_days ≤ t.lifetime))
      × ((raw : Json) × (checked_renewal raw device use_case names rows ≡ ok t.renew_of))

  terms_of-AreTerms :
      (policy : Policy) (device : Device) (sent : Fields) (use_case : UseCase) (names : Names)
      (rows : List Held) (t : Terms)
      → terms_of lib policy device sent use_case names rows ≡ ok t
      → AreTerms policy device use_case names rows t
  unfolding terms_of
  terms_of-AreTerms policy device sent use_case names rows t h =
      let raw = get_or (codes "crl_dp") (text (default_crl_dp policy.crl_dps)) sent in
      let days = get_or (codes "lifetime_days") null sent in
      let old = get_or (codes "renew_of") null sent in
      let (crl_dp, is_crl_dp, h1) = bind-ok (allowed_crl_dp policy.crl_dps raw) _ t h in
      let (lifetime, is_lifetime, h2) = bind-ok (lifetime_of lib days policy.max_days) _ t h1 in
      let (renew_of, is_renewal, h3) =
        bind-ok (checked_renewal old device use_case names rows) _ t h2 in
      let same : record { crl_dp = crl_dp; lifetime = lifetime; renew_of = renew_of } ≡ t =
        ground (arith, h3) in
      rw (← same) (
        allowed_crl_dp-member policy.crl_dps raw crl_dp is_crl_dp,
        lifetime_of-le days policy.max_days lifetime is_lifetime,
        (old, is_renewal),
      )

  -- what the request says, and its answer
  abbrev pub IsPermitted :
      Times
      → Policy
      → Device
      → Fields
      → Store
      → List Held
      → Store
      → Granted
      → Wanted
      → Terms
      → ℕ
      → Type 0
  IsPermitted now policy device sent s rows s' answer w t id =
      IsWanted policy device w
      × AreTerms policy device w.use_case w.names rows t
      × IsFree now device w.use_case w.names t.renew_of s rows
      × (create_pal_request (new_request lib device sent w t) s ≡ some (s', id))
      × (answer ≡ granted (mode_of w.use_case policy) t.renew_of id)

  store_request-IsFree :
      (now : Times) (policy : Policy) (device : Device) (sent : Fields) (w : Wanted) (t : Terms)
      (s s' : Store) (rows : List Held) (answer : Granted) (raw : Json)
      → checked_renewal raw device w.use_case w.names rows ≡ ok t.renew_of
      → store_request lib now policy device sent w t s rows ≡ ok (s', answer)
      → (id : ℕ) × IsFree now device w.use_case w.names t.renew_of s rows
        × (create_pal_request (new_request lib device sent w t) s ≡ some (s', id))
        × (answer ≡ granted (mode_of w.use_case policy) t.renew_of id)
  unfolding store_request
  store_request-IsFree now policy device sent w t s s' rows answer raw k h =
      let (_, _, h1) =
        bind-ok (covered_refusal now.at_covered device w.use_case w.names t.renew_of rows) _
          (s', answer) h in
      let (u, is_free, h2) =
        bind-ok (duplicate_refusal lib now device w.use_case w.names t.renew_of s rows) _
          (s', answer) h1 in
      let free =
        duplicate_refusal-IsFree now device w.use_case w.names raw t.renew_of s rows u k is_free in
      elim (Option-cases (create_pal_request (new_request lib device sent w t) s)) [
        | inl e ↦ ground (arith, h2, e)
        | inr (stored, e) ↦ (stored.1, free, ground (arith, h2, e), ground (arith, h2, e))
      ]

  -- If `create_request` stores a request, then the admin's policy lets the PC ask for certificates
  -- of its kind and for its names, the key was proved by a valid certificate request, the revocation
  -- type is one of those allowed, and the lifetime is at most the policy's, and at least a day if
  -- that is. If the request is no renewal, the PC holds no live certificate of the kind and name,
  -- and none of its newest 500 pending requests is for one. If it is a renewal, the certificate is
  -- the PC's own, of the same kind and names and not revoked, its renewal has opened, and no live
  -- certificate of the kind and name ends later. The new row says all this, and only a request of a
  -- kind that needs approval, and that is no renewal, waits for it.
  pub create_request-IsPermitted :
      (now : Times) (policy : Policy) (device : Device) (sent : Fields) (s s' : Store)
      (rows : List Held) (answer : Granted)
      → create_request lib now policy device sent s rows ≡ ok (s', answer)
      → (w : Wanted) × (t : Terms) × (id : ℕ) × IsPermitted now policy device sent s rows s' answer
          w t id
  unfolding create_request
  create_request-IsPermitted now policy device sent s s' rows answer h =
      let (w, is_wanted, h1) = bind-ok (wanted_of lib policy device sent) _ (s', answer) h in
      let (t, is_terms, h2) =
        bind-ok (terms_of lib policy device sent w.use_case w.names rows) _ (s', answer) h1 in
      let terms = terms_of-AreTerms policy device sent w.use_case w.names rows t is_terms in
      let (raw, k) = terms.2 in
      let (id, free, stored, said) =
        store_request-IsFree now policy device sent w t s s' rows answer raw k h2 in
      (w, t, id, (wanted_of-IsWanted policy device sent w is_wanted, terms, free, stored, said))
