-- ===== src/Pal/Held/Disconnected.antt =====
-- What `_disconnect` of app/routes/pal.py leaves of a PC's certificates.
use cert_generator.Prelude.{ℕ, ◌≡◌, Bool, true, false, ◌&&◌, some, List, select, Text, All, arith}
use cert_generator.Pal.Store.{Store}
use cert_generator.Pal.Held.{Held, is_of, is_open, list_pal_device_certs, revoke_all, disconnect}
use cert_generator.Pal.Held.Changes.{
  is_among, revoked_by, revoke_all_lem, select_among, select-select, All-map,
}

abbrev is_open_of : Text → Held → Bool
is_open_of device c = is_of device c && is_open c

closed_row :
    (now : ℕ) (device : Text) (cs : List Held) (c : Held)
    → (is_open_of device c ≡ true → is_among cs c ≡ true)
    → is_open_of device (revoked_by now cs c) ≡ false
closed_row now device cs c h = ground arith

revoke_all-closes :
    (now : ℕ) (device : Text) (rows : List Held)
    → All
        (λ c. is_open_of device c ≡ false)
        (revoke_all now (select is_open (list_pal_device_certs device rows)) rows)
unfolding list_pal_device_certs
revoke_all-closes now device rows =
    rw (select-select (is_of device) is_open, revoke_all_lem now)
      (All-map
        (λ c. is_open_of device c ≡ true → is_among (select (is_open_of device) rows) c ≡ true)
        (λ c. is_open_of device c ≡ false) (revoked_by now (select (is_open_of device) rows))
        (λ c h. closed_row now device (select (is_open_of device) rows) c h) rows
        (select_among (is_open_of device) rows rows (λ c h. h)))

-- A PC that was disconnected with its certificates has none left that is not revoked and that
-- names a CRL.
pub disconnect-closes :
    (locked : Bool) (at_device now : ℕ) (device : Text) (s s' : Store) (rows rows' : List Held)
    (n : ℕ)
    → disconnect locked at_device now device true s rows ≡ some (s', rows', n)
    → All (λ c. is_open_of device c ≡ false) rows'
unfolding disconnect
disconnect-closes locked at_device now device s s' rows rows' n h =
    let same : revoke_all now (select is_open (list_pal_device_certs device rows)) rows ≡ rows' =
      ground (arith, h) in
    rw (← same) (revoke_all-closes now device rows)
