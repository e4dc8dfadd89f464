-- ===== src/Pal/Held/Changes.antt =====
-- What the loops of Pal/Held.antt do to each row.
use cert_generator.Prelude.{
  ℕ, ◌≡◌, refl, ◌∙◌, ap, Bool, true, false, not, ◌&&◌, some, List, [], ◌∷◌, map, any, select,
  update_where, ◌==◌, if◌then◌else◌, All, arith, ==_refl, Bool-cases, inl, inr,
}
use cert_generator.Pal.Held.{Held, has_held_id, revoke, revoke_all, mark_pal_removed}

-- a row of `cs` has the id of `c`
abbrev pub is_among : List Held → Held → Bool
is_among cs c = any (λ d. c.id == d.id) cs

abbrev pub revoked_by : ℕ → List Held → Held → Held
revoked_by now cs c =
    if is_among cs c && not c.revoked then record c { revoked = true; revoked_at = some now } else c

revoked_by-first :
    (now : ℕ) (d : Held) (ds : List Held) (c : Held)
    → revoked_by now ds (
        if has_held_id d.id c && not c.revoked
        then record c { revoked = true; revoked_at = some now }
        else c)
      ≡ revoked_by now (d ∷ ds) c
revoked_by-first now d ds c = ground arith

map-revoke :
    (now : ℕ) (d : Held) (ds rows : List Held)
    → map (revoked_by now ds) (revoke now d.id rows) ≡ map (revoked_by now (d ∷ ds)) rows
map-revoke now d ds [] = refl
map-revoke now d ds (c ∷ rows) = rw (revoked_by-first now d ds c, map-revoke now d ds rows) refl

map-revoked_by-none : (now : ℕ) (rows : List Held) → rows ≡ map (revoked_by now []) rows
map-revoked_by-none now [] = refl
map-revoked_by-none now (c ∷ rows) = ap (λ cs. c ∷ cs) (map-revoked_by-none now rows)

-- `revoke_all` revokes the rows that have the id of one of `cs`, and no other.
pub revoke_all_lem :
    (now : ℕ) (cs rows : List Held) → revoke_all now cs rows ≡ map (revoked_by now cs) rows
unfolding revoke_all
revoke_all_lem now [] rows = map-revoked_by-none now rows
revoke_all_lem now (d ∷ ds) rows =
    revoke_all_lem now ds (revoke now d.id rows) ∙ map-revoke now d ds rows

abbrev pub removed_by : ℕ → List Held → Held → Held
removed_by now cs c =
    if is_among cs c then record c { pal_present = some false; pal_checked_at = some now } else c

removed_by-first :
    (now : ℕ) (d : Held) (ds : List Held) (c : Held)
    → removed_by now ds (
        if has_held_id d.id c
        then record c { pal_present = some false; pal_checked_at = some now }
        else c)
      ≡ removed_by now (d ∷ ds) c
removed_by-first now d ds c = ground arith

map-removed :
    (now : ℕ) (d : Held) (ds rows : List Held)
    → map (removed_by now ds) (
        update_where
          (has_held_id d.id)
          (λ (c : Held). record c { pal_present = some false; pal_checked_at = some now })
          rows)
      ≡ map (removed_by now (d ∷ ds)) rows
map-removed now d ds [] = refl
map-removed now d ds (c ∷ rows) = rw (removed_by-first now d ds c, map-removed now d ds rows) refl

map-removed_by-none : (now : ℕ) (rows : List Held) → rows ≡ map (removed_by now []) rows
map-removed_by-none now [] = refl
map-removed_by-none now (c ∷ rows) = ap (λ cs. c ∷ cs) (map-removed_by-none now rows)

pub mark_pal_removed_lem :
    (now : ℕ) (cs rows : List Held)
    → mark_pal_removed now (map (λ (c : Held). c.id) cs) rows ≡ map (removed_by now cs) rows
unfolding mark_pal_removed
mark_pal_removed_lem now [] rows = map-removed_by-none now rows
mark_pal_removed_lem now (d ∷ ds) rows =
    mark_pal_removed_lem now ds (
      update_where (has_held_id d.id)
        (λ (c : Held). record c { pal_present = some false; pal_checked_at = some now }) rows)
    ∙ map-removed now d ds rows

-- no id stands in two rows
abbrev pub IsKeyed : List Held → Type 0
IsKeyed [] = Unit
IsKeyed (c ∷ cs) = (is_among cs c ≡ false) × IsKeyed cs

module _ (p : Held → Bool) where
  any-select :
      (c : Held) (rows : List Held) → is_among rows c ≡ false → is_among (select p rows) c ≡ false
  any-select c [] h = refl
  any-select c (d ∷ rows) h = ground (arith, any-select c rows)

  among_more :
      (d c : Held) (rows : List Held) → is_among rows c ≡ true → is_among (d ∷ rows) c ≡ true
  among_more d c rows h = ground arith

  among-select-cons :
      (d c : Held) (rows : List Held)
      → is_among (select p rows) c ≡ true
      → is_among (select p (d ∷ rows)) c ≡ true
  among-select-cons d c rows h = ground arith

  -- A row that a query selects has its id among the selected.
  pub select_among :
      (all_rows rows : List Held)
      → ((c : Held) → is_among (select p rows) c ≡ true → is_among (select p all_rows) c ≡ true)
      → All (λ c. p c ≡ true → is_among (select p all_rows) c ≡ true) rows
  select_among all_rows [] h = tt
  select_among all_rows (c ∷ rows) h = (
    λ e. h c (ground (arith, ==_refl c.id)),
    select_among all_rows rows (λ d e. h d (among-select-cons c d rows e)),
  )

  distinct_ids :
      (d : Held) (rows : List Held)
      → is_among rows d ≡ false
      → All (λ c. (c.id == d.id) ≡ false) rows
  distinct_ids d [] h = tt
  distinct_ids d (c ∷ rows) h = (ground arith, distinct_ids d rows (ground arith))

  among_other :
      (d : Held) (rows : List Held)
      → (qs : List Held) → is_among qs d ≡ false
      → All (λ c. p c ≡ false → is_among (select p rows) c ≡ false) qs
      → All (λ c. p c ≡ false → is_among (select p (d ∷ rows)) c ≡ false) qs
  among_other d rows [] h k = tt
  among_other d rows (c ∷ qs) h k =
      (λ e. ground (arith, k.0 e), among_other d rows qs (ground arith) k.1)

  -- With the ids distinct, a row that the query leaves out has its id not among the selected.
  pub select_not_among :
      (rows : List Held)
      → IsKeyed rows
      → All (λ c. p c ≡ false → is_among (select p rows) c ≡ false) rows
  select_not_among [] h = tt
  select_not_among (d ∷ rows) h = (
    λ e. ground (arith, any-select d rows h.0),
    among_other d rows rows h.0 (select_not_among rows h.1),
  )

-- A query on the result of a query.
pub select-select :
    (p q : Held → Bool) (rows : List Held)
    → select q (select p rows) ≡ select (λ c. p c && q c) rows
select-select p q [] = refl
select-select p q (c ∷ rows) = elim (Bool-cases (p c)) [
  | inl e ↦ rw (e, select-select p q rows) refl
  | inr e ↦ rw (e, select-select p q rows) refl
]

-- What a query finds in the rows as `f` leaves them.
pub All-select-map :
    (H P : Held → Type 0) (p : Held → Bool) (f : Held → Held)
    → ((c : Held) → H c → p (f c) ≡ true → P (f c))
    → (rows : List Held) → All H rows
    → All P (select p (map f rows))
All-select-map H P p f h [] k = tt
All-select-map H P p f h (c ∷ rows) k = elim (Bool-cases (p (f c))) [
  | inl e ↦ rw e (h c k.0 e, All-select-map H P p f h rows k.1)
  | inr e ↦ rw e (All-select-map H P p f h rows k.1)
]

pub All-map :
    (H P : Held → Type 0) (f : Held → Held)
    → ((c : Held) → H c → P (f c))
    → (rows : List Held) → All H rows
    → All P (map f rows)
All-map H P f h [] k = tt
All-map H P f h (c ∷ rows) k = (h c k.0, All-map H P f h rows k.1)
