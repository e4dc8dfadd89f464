-- ===== src/Pal/Names/Covered.antt =====
-- Which names `dns_name_allowed` and `user_name_allowed` of app/pal.py allow, said by the shape of
-- the names.
use cert_generator.Prelude.{
  ℕ, refl, ◌≡◌, ◌↔◌, ◌⊎◌, inl, inr, Bool, true, false, ◌&&◌, ◌||◌, none, List, [], ◌∷◌, ◌++◌, any,
  Text, text_eq, text_eq_iff, text_eq_refl, rstrip_dots, starts_with, ends_with, drop, contains,
  arith, ends_with_iff, subst, Bool-cases,
}
use cert_generator.Pal.Policy.{Library}
use cert_generator.Pal.Names.{member, dns_name_allowed, user_name_allowed}

any_iff :
    (p : Text → Bool) (ts : List Text)
    → (any p ts ≡ true) ↔ ((t : Text) × (member t ts ≡ true) × (p t ≡ true))
any_iff p [] = ground arith
any_iff p (t ∷ ts) = (
  λ h. elim (Bool-cases (p t)) [
    | inl e ↦ (t, ground (arith, text_eq_refl t), e)
    | inr e ↦ let (x, m, px) = (any_iff p ts).0 (ground (arith, h, e)) in (x, ground (arith, m), px)
  ],
  λ h. elim (Bool-cases (text_eq h.0 t)) [
    | inl e ↦
        let same : p t ≡ true = subst (λ x. p x ≡ true) ((text_eq_iff h.0 t).0 e) h.2 in
        ground (arith, same)
    | inr e ↦
        let later = (any_iff p ts).1 (h.0, ground (arith, h.1, e), h.2) in ground (arith, later)
  ],
)

-- A pattern `*` + `sep` + domain covers every name that is a host, `sep` and the domain.
abbrev pub IsUnder : ℕ → Text → Text → Type 0
IsUnder sep name pattern =
    (host domain : Text) × (pattern ≡ b'*' ∷ sep ∷ domain) × (name ≡ host ++ sep ∷ domain)

wildcard_iff :
    (sep : ℕ) (name pattern : Text)
    → ((starts_with pattern (b'*' ∷ sep ∷ []) && ends_with name (drop 1 pattern)) ≡ true)
      ↔ IsUnder sep name pattern
wildcard_iff sep name [] = ground arith
wildcard_iff sep name (a ∷ []) = ground arith
wildcard_iff sep name (a ∷ b ∷ d) = (
  λ h.
      let (host, e) = (ends_with_iff name (b ∷ d)).0 (ground (arith, h)) in
      let star : a ≡ b'*' = ground (arith, h) in
      let same : b ≡ sep = ground (arith, h) in (host, d, rw (star, same) refl, rw (← same) e),
  λ h.
      let (host, domain, p, n) = h in
      let star : a ≡ b'*' = ground (arith, p) in
      let same : b ≡ sep = ground (arith, p) in
      let rest : d ≡ domain = ground (arith, p) in
      let ends : ends_with name (b ∷ d) ≡ true =
        (ends_with_iff name (b ∷ d)).1 (host, rw (same, rest) n) in
      ground (arith, star, same, ends),
)

-- what a pattern says of a name that is no address
abbrev pub IsCovered : ℕ → Text → Text → Type 0
IsCovered sep name pattern = (name ≡ pattern) ⊎ IsUnder sep name pattern

IsCovered-iff :
    (sep : ℕ) (name pattern : Text)
    → ((text_eq name pattern
          || (starts_with pattern (b'*' ∷ sep ∷ []) && ends_with name (drop 1 pattern)))
        ≡ true)
      ↔ IsCovered sep name pattern
IsCovered-iff sep name pattern =
    let same = text_eq_iff name pattern in
    let wild = wildcard_iff sep name pattern in
    (
      λ h. elim (Bool-cases (text_eq name pattern)) [
        | inl e ↦ inl (same.0 e)
        | inr e ↦ inr (wild.0 (ground (arith, h, e)))
      ],
      λ h. elim h [ inl e ↦ ground (arith, same.1 e) | inr e ↦ ground (arith, wild.1 e) ],
    )

abbrev covers : ℕ → Text → Text → Bool
covers sep name p = text_eq name p || (starts_with p (b'*' ∷ sep ∷ []) && ends_with name (drop 1 p))

any-covers_iff :
    (sep : ℕ) (name : Text) (patterns : List Text)
    → (any (covers sep name) patterns ≡ true)
      ↔ ((pattern : Text) × (member pattern patterns ≡ true) × IsCovered sep name pattern)
any-covers_iff sep name patterns =
    let found = any_iff (covers sep name) patterns in
    (
      λ h. let (p, m, c) = found.0 h in (p, m, (IsCovered-iff sep name p).0 c),
      λ h. found.1 (h.0, h.1, (IsCovered-iff sep name h.0).1 h.2),
    )

module _ (lib : Library) where
  -- A name that is no address, lower case and without final dots, is allowed exactly if it has no
  -- `*` and some pattern of the policy is the name itself or is `*.` and a domain that the name is
  -- under, at any depth.
  pub dns_name_allowed_iff :
      (name : Text) (patterns : List Text)
      → rstrip_dots (lib.lower name) ≡ name
      → lib.ip_address name ≡ none
      → (dns_name_allowed lib name patterns ≡ true) ↔ (
          (contains b'*' name ≡ false)
          × ((pattern : Text) × (member pattern patterns ≡ true) × IsCovered b'.' name pattern))
  unfolding dns_name_allowed
  dns_name_allowed_iff name patterns lower no_address =
      rw (dns_name_allowed, lower, no_address)
        (let all = any-covers_iff b'.' name patterns in
          (
            λ h. (ground (arith, h), all.0 (ground (arith, h))),
            λ h. ground (arith, h.0, all.1 h.1),
          ))

  -- A user name in lower case is allowed exactly if some pattern of the policy is the name itself,
  -- or is `*@` and the domain of the name.
  pub user_name_allowed_iff :
      (name : Text) (patterns : List Text)
      → lib.lower name ≡ name
      → (user_name_allowed lib name patterns ≡ true)
        ↔ ((pattern : Text) × (member pattern patterns ≡ true) × IsCovered b'@' name pattern)
  unfolding user_name_allowed
  user_name_allowed_iff name patterns lower =
      rw (user_name_allowed, lower) (any-covers_iff b'@' name patterns)
