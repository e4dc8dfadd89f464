-- ===== src/Pal/Held/Own.antt =====
-- What `revoke_own_certs` of app/routes/pal.py changes.
use cert_generator.Prelude.{
  ℕ, ◌≡◌, inl, inr, refl, ap, Bool, true, false, not, ◌&&◌, none, some, List, [], ◌∷◌, map, any,
  select, Text, All, arith, if◌then◌else◌, Bool-cases,
}
use cert_generator.Pal.Held.{
  Held, is_of, is_wanted, revocable, list_pal_device_certs, revoke_all, mark_pal_removed,
  revoke_own_certs, Publishing,
}
use cert_generator.Pal.Held.Changes.{
  is_among, revoked_by, removed_by, revoke_all_lem, mark_pal_removed_lem, select_among,
  select_not_among, select-select, IsKeyed,
}

abbrev is_removed : Text → List Text → Held → Bool
is_removed device wanted c = is_of device c && is_wanted wanted c

abbrev pub is_revoked_own : Text → List Text → Held → Bool
is_revoked_own device wanted c = is_removed device wanted c && revocable c

abbrev pub own_result : ℕ → Text → List Text → List Held → Held → Held
own_result now device wanted rows c =
    removed_by now (select (is_removed device wanted) rows)
      (revoked_by now (select (is_revoked_own device wanted) rows) c)

map-map : (f g : Held → Held) (rows : List Held) → map f (map g rows) ≡ map (λ c. f (g c)) rows
map-map f g [] = refl
map-map f g (c ∷ rows) = ap (λ cs. f (g c) ∷ cs) (map-map f g rows)

-- The two loops treat each row by itself.
loops-map :
    (now : ℕ) (device : Text) (wanted : List Text) (rows : List Held)
    → mark_pal_removed now
        (map (λ (c : Held). c.id) (select (is_removed device wanted) rows))
        (revoke_all now (select (is_revoked_own device wanted) rows) rows)
      ≡ map (own_result now device wanted rows) rows
loops-map now device wanted rows =
    rw (revoke_all_lem now, mark_pal_removed_lem now)
      (map-map (removed_by now (select (is_removed device wanted) rows))
        (revoked_by now (select (is_revoked_own device wanted) rows)) rows)

-- what the call is for: a row is changed if it is a certificate of the PC that is not revoked yet,
-- with a serial that the call names
abbrev pub own_row : ℕ → Text → List Text → Held → Held
own_row now device wanted c =
    if not (is_removed device wanted c)
    then c
    else if revocable c
    then (record c {
      revoked = true;
      revoked_at = some now;
      pal_present = some false;
      pal_checked_at = some now;
    })
    else (record c { pal_present = some false; pal_checked_at = some now })

-- a list that holds just the rows of a query
abbrev HoldsJust : (Held → Bool) → List Held → Held → Type 0
HoldsJust p rows c =
    (p c ≡ true → is_among (select p rows) c ≡ true)
    × (p c ≡ false → is_among (select p rows) c ≡ false)

own_result-own_row :
    (now : ℕ) (device : Text) (wanted : List Text) (rows : List Held) (c : Held)
    → HoldsJust (is_removed device wanted) rows c
    → HoldsJust (is_revoked_own device wanted) rows c
    → own_result now device wanted rows c ≡ own_row now device wanted c
own_result-own_row now device wanted rows c h k = elim (Bool-cases (is_removed device wanted c)) [
  | inl e ↦ elim (Bool-cases (revocable c)) [
    | inl r ↦ ground (arith, h.0 e, k.0 (rw (e, r) refl))
    | inr r ↦ ground (arith, h.0 e, k.1 (rw (e, r) refl))
  ]
  | inr e ↦ ground (arith, h.1 e, k.1 (rw e refl))
]

map-own_row :
    (now : ℕ) (device : Text) (wanted : List Text) (rows qs : List Held)
    → All
        (λ c.
          is_removed device wanted c ≡ true
          → is_among (select (is_removed device wanted) rows) c ≡ true)
        qs
    → All
        (λ c.
          is_removed device wanted c ≡ false
          → is_among (select (is_removed device wanted) rows) c ≡ false)
        qs
    → All
        (λ c.
          is_revoked_own device wanted c ≡ true
          → is_among (select (is_revoked_own device wanted) rows) c ≡ true)
        qs
    → All
        (λ c.
          is_revoked_own device wanted c ≡ false
          → is_among (select (is_revoked_own device wanted) rows) c ≡ false)
        qs
    → map (own_result now device wanted rows) qs ≡ map (own_row now device wanted) qs
map-own_row now device wanted rows [] a b c d = refl
map-own_row now device wanted rows (q ∷ qs) a b c d =
    rw
      (
        own_result-own_row now device wanted rows q (a.0, b.0) (c.0, d.0),
        map-own_row now device wanted rows qs a.1 b.1 c.1 d.1,
      )
      refl

-- one of the certificates that the call revokes is on a CRL that the server or a Worker publishes
abbrev pub needs_key : Publishing → Text → List Text → List Held → Bool
needs_key state device wanted rows =
    any (λ (c : Held). state.is_published c.ca_id) (select (is_revoked_own device wanted) rows)

-- With the ids of the rows distinct, `revoke_own_certs` does to each row what `own_row` says, by
-- itself: of the PC's own certificates that the call names, those not revoked are marked as
-- removed, those of them that name a CRL are revoked and their serials answered, and no other row
-- is changed. Only if one to revoke is on a published CRL and the database is locked is the call
-- refused instead.
pub revoke_own_certs-own_row :
    (state : Publishing) (now : ℕ) (device : Text) (wanted : List Text) (rows : List Held)
    → IsKeyed rows
    → revoke_own_certs state now device wanted rows ≡ (
        if needs_key state device wanted rows && state.locked
        then none
        else (some (
          map (own_row now device wanted) rows,
          map (λ (c : Held). c.serial) (select (is_revoked_own device wanted) rows),
        )))
unfolding revoke_own_certs list_pal_device_certs
revoke_own_certs-own_row state now device wanted rows keyed =
    rw
      (
        select-select (is_of device) (is_wanted wanted),
        select-select (is_removed device wanted) revocable,
        loops-map now device wanted rows,
        map-own_row now device wanted rows rows
            (select_among (is_removed device wanted) rows rows (λ c h. h))
            (select_not_among (is_removed device wanted) rows keyed)
            (select_among (is_revoked_own device wanted) rows rows (λ c h. h))
            (select_not_among (is_revoked_own device wanted) rows keyed),
      )
      refl
