-- ===== src/Security/CrossSite.antt =====
-- `is_cross_site_request` of app/security.py. `urlparse(origin).netloc` is the parameter `netloc`.
use cert_generator.Prelude.{
  String, ◌≡◌, Bool, true, false, not, Option, none, some, List, [], ◌∷◌, map, any, is_empty,
  if◌then◌else◌, refl, ap, ◌||◌, text_eq_iff, inl, inr, Bool-cases, Text, codes, text_eq, strip,
  split_on, arith, is_some, ◌↔◌, ◌⊎◌,
}

abbrev pub Headers : Type 0
Headers = String → Option Text

-- `x in texts`
abbrev pub member : Text → List Text → Bool
member x texts = any (λ t. text_eq x t) texts

module _ (netloc : Text → Text) where
  -- the hosts that count as this site
  unfoldable pub allowed_hosts : Text → Option Text → List Text
  allowed_hosts host none = host ∷ []
  allowed_hosts host (some forwarded) =
      if is_empty forwarded then host ∷ [] else host ∷ map strip (split_on b',' forwarded)

  by_origin : Text → Option Text → Option Text → Bool
  unfolding allowed_hosts
  by_origin host forwarded none = false
  by_origin host forwarded (some origin) =
      if text_eq origin (codes "null")
      then true
      else not (member (netloc origin) (allowed_hosts host forwarded))

  by_fetch_site : Text → Option Text → Option Text → Option Text → Bool
  unfolding by_origin
  by_fetch_site host forwarded origin none = by_origin host forwarded origin
  by_fetch_site host forwarded origin (some site) =
      not (member site (codes "same-origin" ∷ codes "none" ∷ []))

  unfoldable pub is_cross_site_request : Text → Headers → Bool
  unfolding by_fetch_site
  is_cross_site_request host headers =
      by_fetch_site host (headers "X-Forwarded-Host") (headers "Origin") (headers "Sec-Fetch-Site")

  -- A request that a browser marks with a `Sec-Fetch-Site` of its own is judged by that alone,
  -- whatever `Host`, `Origin` and `X-Forwarded-Host` a proxy writes.
  pub fetch_site_decides :
      (host host' : Text) (headers headers' : Headers)
      → is_some (headers "Sec-Fetch-Site") ≡ true
      → headers "Sec-Fetch-Site" ≡ headers' "Sec-Fetch-Site"
      → is_cross_site_request host headers ≡ is_cross_site_request host' headers'
  unfolding is_cross_site_request
  fetch_site_decides host host' headers headers' marked same = ground arith

  -- the forwarded hosts name `site`: one of the parts between commas is `site`, spaces aside
  abbrev pub IsForwarded : Text → Option Text → Type 0
  IsForwarded site none = false ≡ true
  IsForwarded site (some forwarded) =
      (is_empty forwarded ≡ false)
      × (any (λ part. text_eq site (strip part)) (split_on b',' forwarded) ≡ true)

  -- a request of this site, by the headers alone
  abbrev pub IsSameSite : Text → Option Text → Option Text → Option Text → Type 0
  IsSameSite host (some site) origin forwarded =
      (site ≡ codes "same-origin") ⊎ (site ≡ codes "none")
  IsSameSite host none none forwarded = Unit
  IsSameSite host none (some origin) forwarded =
      (text_eq origin (codes "null") ≡ false)
      × ((netloc origin ≡ host) ⊎ IsForwarded (netloc origin) forwarded)

  member-map :
      (site : Text) (parts : List Text)
      → member site (map strip parts) ≡ any (λ part. text_eq site (strip part)) parts
  member-map site [] = refl
  member-map site (part ∷ parts) = ap (λ b. text_eq site (strip part) || b) (member-map site parts)

  allowed_hosts-member :
      (site host : Text) (forwarded : Option Text)
      → (member site (allowed_hosts host forwarded) ≡ true)
        ↔ ((site ≡ host) ⊎ IsForwarded site forwarded)
  unfolding allowed_hosts
  allowed_hosts-member site host none = (
    λ h. inl ((text_eq_iff site host).0 (ground (arith, h))),
    λ h. elim h [ inl e ↦ ground (arith, (text_eq_iff site host).1 e) | inr e ↦ ground (arith, e) ],
  )
  allowed_hosts-member site host (some forwarded) = (
    λ h. elim (Bool-cases (text_eq site host)) [
      | inl own ↦ inl ((text_eq_iff site host).0 own)
      | inr other ↦ inr (ground (arith, h, other, member-map site (split_on b',' forwarded)))
    ],
    λ h. elim h [
      | inl e ↦ ground (arith, (text_eq_iff site host).1 e)
      | inr e ↦ ground (arith, e, member-map site (split_on b',' forwarded))
    ],
  )

  by_fetch_site_iff :
      (host : Text) (site origin forwarded : Option Text)
      → (by_fetch_site host forwarded origin site ≡ false) ↔ IsSameSite host site origin forwarded
  unfolding by_fetch_site by_origin
  by_fetch_site_iff host (some site) origin forwarded = (
    λ h. elim (Bool-cases (text_eq site (codes "same-origin"))) [
      | inl own ↦ inl ((text_eq_iff site (codes "same-origin")).0 own)
      | inr other ↦ inr ((text_eq_iff site (codes "none")).0 (ground (arith, h, other)))
    ],
    λ h. elim h [
      | inl e ↦ ground (arith, (text_eq_iff site (codes "same-origin")).1 e)
      | inr e ↦ ground (arith, (text_eq_iff site (codes "none")).1 e)
    ],
  )
  by_fetch_site_iff host none none forwarded = (λ h. tt, λ h. refl)
  by_fetch_site_iff host none (some origin) forwarded =
      elim (Bool-cases (text_eq origin (codes "null"))) [
        | inl e ↦ (λ h. ground (arith, h, e), λ h. ground (arith, h.0, e))
        | inr e ↦ (
          λ h. (e, (allowed_hosts-member (netloc origin) host forwarded).0 (ground (arith, h, e))),
          λ h. ground (arith, e, (allowed_hosts-member (netloc origin) host forwarded).1 h.1),
        )
      ]

  -- A request is taken for one of this site exactly if its headers say so: `Sec-Fetch-Site`, where
  -- the browser sends it, is "same-origin" or "none"; and otherwise there is no `Origin`, or one
  -- other than "null" whose host is the `Host` header or stands, spaces aside, between the commas of
  -- `X-Forwarded-Host`.
  pub is_cross_site_request_iff :
      (host : Text) (headers : Headers)
      → (is_cross_site_request host headers ≡ false)
        ↔ IsSameSite host (headers "Sec-Fetch-Site") (headers "Origin") (headers "X-Forwarded-Host")
  unfolding is_cross_site_request
  is_cross_site_request_iff host headers =
      by_fetch_site_iff host (headers "Sec-Fetch-Site") (headers "Origin")
        (headers "X-Forwarded-Host")
