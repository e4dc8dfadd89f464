-- ===== src/Pal/Store/Pairing/Codes.antt =====
-- The functions of app/db.py that change pairing codes, or devices but do not add one.
use cert_generator.Prelude.{
  ℕ, ◌≤◌, ◌≡◌, Bool, true, false, not, ◌&&◌, ◌||◌, some, [], ◌∷◌, arith, any, find, update_where,
  delete_where, count_where, ◌==◌, Text, text_eq, text_eq_iff, count-update, count_mono,
  count-delete, count-split, count-append, count-any-false, find-holds, count-find_pos, Bool-cases,
  inl, inr, Option-cases, Holds,
}
use cert_generator.Pal.Tables.{Code, Device}
use cert_generator.Pal.Store.{
  Store, has_id, is_unused, code_row, create_pal_code, revoke_pal_code, has_device_id,
}
use cert_generator.Pal.Store.Calls.{}
use cert_generator.Pal.Store.Ends.{is_disconnected, forget_device, delete_pal_device}
use cert_generator.Pal.Store.Pairing.{came_by, is_used, IsPaired, IsPaired-devices-le}

module _ (k : Text) {s : Store} (p : IsPaired k s) where
  pub create_pal_code-IsPaired :
      (id label : Text) (ca : ℕ) (policy key url : Text) (expires : ℕ)
      → Holds (IsPaired k) (create_pal_code id label ca policy key url expires s)
  unfolding create_pal_code
  create_pal_code-IsPaired id label ca policy key url expires =
      elim (Bool-cases (any (has_id id) s.code_rows || not (any (λ x. x == ca) s.cas))) [
        | inl refused ↦ rw refused tt
        | inr new ↦ rw new (
            let row = code_row id label ca policy key url expires in
            record {
              once = ground (
                arith,
                p.once,
                count-any-false (has_id id) s.code_rows,
                text_eq_iff id k,
                count-append (has_id k) s.code_rows (row ∷ []),
              );
              used = ground (arith, p.used, count-append (is_used k) s.code_rows (row ∷ []));
            })
      ]

  pub revoke_pal_code-IsPaired : (now : ℕ) (id : Text) → IsPaired k (revoke_pal_code now id s).0
  unfolding revoke_pal_code
  revoke_pal_code-IsPaired now id =
      let chosen = λ (c : Code). has_id id c && is_unused c in
      let f = λ (c : Code). record c { revoked_at = some now } in
      record {
        once = ground (
          arith,
          p.once,
          count-update (has_id k) chosen (has_id k) f (λ c. ground arith) s.code_rows,
        );
        used = ground (
          arith,
          p.used,
          count-update (is_used k) chosen (is_used k) f (λ c. ground arith) s.code_rows,
        );
      }

  -- an update of devices that leaves their codes
  pub devices-IsPaired :
      (q : Device → Bool) (f : Device → Device)
      → ((d : Device) → (f d).code_id ≡ d.code_id)
      → IsPaired k (record s { devices = update_where q f s.devices })
  devices-IsPaired q f same = record {
    once = p.once;
    used = ground (
      arith,
      p.used,
      count-update (came_by k) q (came_by k) f (λ d. ground (arith, same d)) s.devices,
    );
  }

  -- the device that is deleted, and its code
  module _ (id : Text) (d : Device) (found : find (is_disconnected id) s.devices ≡ some d) where
    own_devices-gone :
        text_eq d.code_id k ≡ true
        → count_where (came_by k) (delete_where (has_device_id id) s.devices) ≡ 0
    own_devices-gone own = ground (
      arith,
      IsPaired-devices-le k p,
      count-delete (came_by k) (has_device_id id) s.devices,
      count-split (came_by k) (has_device_id id) s.devices,
      count-find_pos (is_disconnected id) (λ (e : Device). came_by k e && has_device_id id e) d
          s.devices found,
      find-holds (is_disconnected id) d s.devices found,
    )

    other_codes-kept :
        text_eq d.code_id k ≡ false
        → count_where (is_used k) s.code_rows
          ≤ count_where (is_used k) (delete_where (has_id d.code_id) s.code_rows)
    other_codes-kept other = rw (count-delete (is_used k) (has_id d.code_id) s.code_rows) (
        count_mono (is_used k) (λ (c : Code). is_used k c && not (has_id d.code_id c))
          (λ c h.
            ground (arith, text_eq_iff c.id k, text_eq_iff c.id d.code_id, text_eq_iff d.code_id k))
          s.code_rows)

    forget_device-IsPaired : IsPaired k (forget_device id s d)
    unfolding forget_device
    forget_device-IsPaired = record {
      once = omega (
        arith,
        p.once,
        count-delete (has_id k) (has_id d.code_id) s.code_rows,
        count_mono (λ (c : Code). has_id k c && not (has_id d.code_id c)) (has_id k)
            (λ c h. ground arith) s.code_rows,
      );
      used = elim (Bool-cases (text_eq d.code_id k)) [
        | inl own ↦ omega (arith, own_devices-gone own)
        | inr other ↦ omega (
          arith,
          p.used,
          other_codes-kept other,
          count-delete (came_by k) (has_device_id id) s.devices,
          count_mono (λ (e : Device). came_by k e && not (has_device_id id e)) (came_by k)
              (λ e h. ground arith) s.devices,
        )
      ];
    }

  pub delete_pal_device-IsPaired : (id : Text) → IsPaired k (delete_pal_device id s).0
  unfolding delete_pal_device
  delete_pal_device-IsPaired id = elim (Option-cases (find (is_disconnected id) s.devices)) [
    | inl unknown ↦ rw (unknown, delete_pal_device) p
    | inr (d, found) ↦ rw (found, delete_pal_device) (forget_device-IsPaired id d found)
  ]
