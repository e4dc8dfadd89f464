-- ===== src/Pal/CodeState.antt =====
-- The state of a pairing code: `_code_state` of app/routes/pal.py, which the admin's page shows and
-- by which a PC is told why its code is refused.
use cert_generator.Prelude.{
  ℕ, ◌≡◌, refl, Bool, true, false, not, ◌&&◌, none, some, List, [], ◌∷◌, find, text_eq_refl, subst,
  sym, any, ltb, leb, ◌==◌, if◌then◌else◌, is_some, Text, arith, find-holds, Bool-cases, inl, inr,
  count_where, update_where, count-find_pos, count-split, count_mono, ◌∙◌, select, ◌++◌,
}
use cert_generator.Pal.Tables.{Code, Device}
use cert_generator.Pal.Store.{
  Store, NewDevice, get_pal_device, has_id, is_usable, is_unused, use_code, new_row, get_pal_code,
  enroll_pal_device, has_device_id,
}

pub data CodeState : Type 0 where
  used revoked expired unused : CodeState

unfoldable pub code_state : ℕ → Code → CodeState
code_state now c =
    if is_some c.used_at
    then used
    else if is_some c.revoked_at
    then revoked
    else if leb c.expires_at now
    then expired
    else unused

abbrev pub is_shown_unused : CodeState → Bool
is_shown_unused unused = true
is_shown_unused _ = false

is_shown_unused-code_state :
    (now : ℕ) (c : Code)
    → is_shown_unused (code_state now c) ≡ (is_unused c && ltb now c.expires_at)
unfolding code_state
is_shown_unused-code_state now c = ground arith

-- the row of the code, after the UPDATE
find-used :
    (now : ℕ) (id device : Text) (c : Code) (rows : List Code)
    → find (has_id id) rows ≡ some c
    → is_usable now id c ≡ true
    → find (has_id id) (update_where (is_usable now id) (use_code now device) rows)
      ≡ some (use_code now device c)
find-used now id device c [] found u = ground (arith, found)
find-used now id device c (x ∷ rows) found u = elim (Bool-cases (has_id id x)) [
  | inl e ↦
      let same : x ≡ c = ground (arith, found, e) in
      let usable = subst (λ y. is_usable now id y ≡ true) (sym same) u in
      rw (← same) (rw (usable, e) refl)
  | inr e ↦ ground (arith, e, find-used now id device c rows (ground (arith, found, e)) u)
]

select-unused :
    (now : ℕ) (id device : Text) (rows : List Code)
    → count_where (has_id id) rows ≡ 0
    → select (has_id id) (update_where (is_usable now id) (use_code now device) rows) ≡ []
select-unused now id device [] none_there = refl
select-unused now id device (x ∷ rows) none_there =
    ground (arith, none_there, select-unused now id device rows)

select-used :
    (now : ℕ) (id device : Text) (c : Code) (rows : List Code)
    → find (has_id id) rows ≡ some c
    → count_where (has_id id) rows ≡ 1
    → is_usable now id c ≡ true
    → select (has_id id) (update_where (is_usable now id) (use_code now device) rows)
      ≡ use_code now device c ∷ []
select-used now id device c [] found one u = ground (arith, found)
select-used now id device c (x ∷ rows) found one u = elim (Bool-cases (has_id id x)) [
  | inl e ↦
      let same : x ≡ c = ground (arith, found, e) in
      let usable = subst (λ y. is_usable now id y ≡ true) (sym same) u in
      let rest = select-unused now id device rows (ground (arith, one, e)) in
      rw (← same) (rw (usable, e, rest) refl)
  | inr e ↦ ground (
    arith,
    e,
    select-used now id device c rows (ground (arith, found, e)) (ground (arith, one, e)) u,
  )
]

find-last :
    (p : Device → Bool) (d : Device) (rows : List Device)
    → any p rows ≡ false
    → p d ≡ true
    → find p (rows ++ d ∷ []) ≡ some d
find-last p d [] unknown own = ground (arith, own)
find-last p d (x ∷ rows) unknown own = ground (arith, unknown, own, find-last p d rows)

module _ (now : ℕ) (id : Text) (s : Store) (c : Code) where
  -- of the one row with the id, whether the UPDATE takes it
  count-is_usable :
      get_pal_code id s ≡ some c
      → count_where (has_id id) s.code_rows ≡ 1
      → (count_where (is_usable now id) s.code_rows == 1) ≡ is_shown_unused (code_state now c)
  unfolding get_pal_code
  count-is_usable found one =
      let taken = λ (x : Code). has_id id x && is_usable now id x in
      let left = λ (x : Code). has_id id x && not (is_usable now id x) in
      let own = find-holds (has_id id) c s.code_rows found in
      let state = is_shown_unused-code_state now c in
      let split = count-split (has_id id) (is_usable now id) s.code_rows in
      let more = count_mono (is_usable now id) taken (λ x e. ground (arith, e)) s.code_rows in
      elim (Bool-cases (is_usable now id c)) [
        | inl takes_it ↦
            let one_usable =
              count-find_pos (has_id id) (is_usable now id) c s.code_rows found takes_it in
            ground (arith, own, state, split, more, takes_it, one, one_usable)
        | inr leaves_it ↦
            let one_left =
              count-find_pos (has_id id) left c s.code_rows found
                (ground (arith, own, leaves_it)) in
            ground (arith, own, state, split, more, leaves_it, one, one_left)
      ]

  shown-is_usable :
      get_pal_code id s ≡ some c
      → is_shown_unused (code_state now c) ≡ true
      → is_usable now id c ≡ true
  unfolding get_pal_code
  shown-is_usable found shown =
      ground
        (arith, find-holds (has_id id) c s.code_rows found, is_shown_unused-code_state now c, shown)

  -- what the call leaves: a connected PC with what it sent and what the code allows, and the code
  -- used up by it; or the tables as they were
  abbrev pub IsEnrolled : NewDevice → Store → Bool → Type 0
  IsEnrolled d s' true =
      ((device : Device) × (get_pal_device d.id s' ≡ some device)
        × (device.public_key ≡ d.public_key)
        × (device.fqdn ≡ d.fqdn)
        × (device.ca_id ≡ c.ca_id)
        × (device.policy ≡ c.policy)
        × (device.code_id ≡ c.id)
        × (device.revoked_at ≡ none))
      × ((code : Code) × (get_pal_code id s' ≡ some code)
          × (code.used_at ≡ some now)
          × (code.device_id ≡ some d.id))
  IsEnrolled d s' false = s' ≡ s

  -- A PC that comes with a code is connected exactly if the code is shown as unused: the answer says
  -- so, and then the table has the PC with the key and name that it sent and the CA and policy of the
  -- code, not disconnected, and the code is used up by it now; otherwise the tables are as they were.
  -- (The code's id and the PC's new id are their own, as the primary keys have it.)
  pub enroll_pal_device-code_state :
      (d : NewDevice)
      → get_pal_code id s ≡ some c
      → count_where (has_id id) s.code_rows ≡ 1
      → any (has_device_id d.id) s.devices ≡ false
      → (s' : Store) × (enroll_pal_device now id d s
          ≡ some (s', is_shown_unused (code_state now c)))
        × IsEnrolled d s' (is_shown_unused (code_state now c))
  unfolding enroll_pal_device new_row get_pal_code get_pal_device
  enroll_pal_device-code_state d found one new =
      elim (Bool-cases (is_shown_unused (code_state now c))) [
        | inl takes_it ↦
            let takes = count-is_usable found one ∙ takes_it in
            let usable = shown-is_usable found takes_it in
            let row = new_row now d (use_code now d.id c) in
            let used = update_where (is_usable now id) (use_code now d.id) s.code_rows in
            let selected = select-used now id d.id c s.code_rows found one usable in
            rw takes_it (
              record s { code_rows = used; devices = s.devices ++ row ∷ [] },
              rw (takes, new, selected) refl,
              (
                (
                  row,
                  find-last (has_device_id d.id) row s.devices new (text_eq_refl d.id),
                  refl,
                  refl,
                  refl,
                  refl,
                  refl,
                  refl,
                ),
                (use_code now d.id c, find-used now id d.id c s.code_rows found usable, refl, refl),
              ),
            )
        | inr leaves_it ↦
            let refuses = count-is_usable found one ∙ leaves_it in
            rw leaves_it (s, rw refuses refl, refl)
      ]
