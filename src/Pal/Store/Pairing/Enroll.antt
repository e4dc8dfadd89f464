-- ===== src/Pal/Store/Pairing/Enroll.antt =====
-- `enroll_pal_device` of app/db.py: a PC comes by a code.
use cert_generator.Prelude.{
  ℕ, ◌≤◌, ◌≡◌, Bool, not, ◌&&◌, List, [], ◌∷◌, ◌++◌, map, arith, any, select, update_where,
  count_where, ◌==◌, if◌then◌else◌, Text, text_eq, text_eq_iff, count-update, count_mono,
  count-split, count-append, Bool-cases, inl, inr, Holds, ==_iff,
}
use cert_generator.Pal.Tables.{Code}
use cert_generator.Pal.Store.{
  Store, has_id, is_usable, use_code, NewDevice, new_row, has_device_id, enroll_pal_device,
}
use cert_generator.Pal.Store.Calls.{}
use cert_generator.Pal.Store.Pairing.{came_by, is_used, IsPaired}

count-new_row :
    (k code_id : Text) (now : ℕ) (d : NewDevice) (rows : List Code)
    → count_where (came_by k) (map (new_row now d) (select (has_id code_id) rows))
      ≡ (if text_eq code_id k then count_where (has_id code_id) rows else 0)
unfolding new_row
count-new_row k code_id now d [] = ground arith
count-new_row k code_id now d (c ∷ rows) = ground (
  arith,
  text_eq_iff c.id code_id,
  text_eq_iff c.id k,
  text_eq_iff code_id k,
  count-new_row k code_id now d rows,
)

-- of the rows before the use of a code: those that are used after it
abbrev used_after : Text → ℕ → Text → Code → Bool
used_after k now code_id c = if is_usable now code_id c then has_id k c else is_used k c

module _ (k : Text) {s : Store} (p : IsPaired k s) (now : ℕ) (code_id : Text) (d : NewDevice) where
  used : List Code
  used = update_where (is_usable now code_id) (use_code now d.id) s.code_rows

  count-has_id_used : (j : Text) → count_where (has_id j) used ≡ count_where (has_id j) s.code_rows
  unfolding used
  count-has_id_used j =
      count-update (has_id j) (is_usable now code_id) (has_id j) (use_code now d.id)
        (λ c. ground arith) s.code_rows

  count-is_used_used :
      count_where (is_used k) used ≡ count_where (used_after k now code_id) s.code_rows
  unfolding used
  count-is_used_used =
      count-update (is_used k) (is_usable now code_id) (used_after k now code_id)
        (use_code now d.id) (λ c. ground arith) s.code_rows

  is_used-le :
      count_where (is_used k) s.code_rows ≤ count_where (used_after k now code_id) s.code_rows
  is_used-le = count_mono (is_used k) (used_after k now code_id) (λ c h. ground arith) s.code_rows

  -- the code's own case: no device came by it before
  own_code :
      count_where (is_usable now code_id) s.code_rows ≡ 1
      → code_id ≡ k
      → (count_where (came_by k) s.devices ≡ 0)
        × (1 ≤ count_where (used_after k now code_id) s.code_rows)
  own_code one same =
      let usable = is_usable now code_id in
      let own = λ (c : Code). has_id k c && usable c in
      let other = λ (c : Code). has_id k c && not (usable c) in
      omega (
        arith,
        p.once,
        p.used,
        count-split (has_id k) usable s.code_rows,
        count_mono usable own (λ c h. ground (arith, text_eq_iff c.id code_id, text_eq_iff c.id k))
            s.code_rows,
        count_mono (is_used k) other (λ c h. ground arith) s.code_rows,
        count_mono usable (used_after k now code_id)
            (λ c h. ground (arith, text_eq_iff c.id code_id, text_eq_iff c.id k)) s.code_rows,
      )

  enrolled-IsPaired :
      count_where (is_usable now code_id) s.code_rows ≡ 1
      → IsPaired k (record s {
        code_rows = used;
        devices = s.devices ++ map (new_row now d) (select (has_id code_id) used);
      })
  enrolled-IsPaired one = record {
    once = ground (arith, p.once, count-has_id_used k);
    used = ground (
      arith,
      p.once,
      p.used,
      own_code one,
      text_eq_iff code_id k,
      is_used-le,
      count-is_used_used,
      count-append (came_by k) s.devices (map (new_row now d) (select (has_id code_id) used)),
      count-new_row k code_id now d used,
      count-has_id_used code_id,
    );
  }

  pub enroll_pal_device-IsPaired : Holds (λ r. IsPaired k r.0) (enroll_pal_device now code_id d s)
  unfolding enroll_pal_device used
  enroll_pal_device-IsPaired =
      elim (Bool-cases (count_where (is_usable now code_id) s.code_rows == 1)) [
        | inr refused ↦ rw refused p
        | inl one ↦ rw one (elim (Bool-cases (any (has_device_id d.id) s.devices)) [
          | inl taken ↦ rw taken tt
          | inr free ↦ rw free (enrolled-IsPaired ((==_iff _ 1).0 one))
        ])
      ]
