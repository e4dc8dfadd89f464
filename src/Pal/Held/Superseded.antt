-- ===== src/Pal/Held/Superseded.antt =====
-- What stands after `_revoke_superseded` of app/routes/pal.py.
use cert_generator.Prelude.{
  ℕ, ◌≤◌, ◌≡◌, Bool, true, not, ◌&&◌, ◌||◌, List, select, ◌==◌, Text, All, arith,
}
use cert_generator.Pal.Policy.{UseCase}
use cert_generator.Pal.Held.{
  Held, is_of, is_live, is_gone, is_present, revocable, list_pal_device_certs, live_certs,
  revoke_superseded,
}
use cert_generator.Pal.Held.Changes.{
  is_among, revoked_by, revoke_all_lem, select_among, select-select, All-select-map,
}

-- the new certificate, or one that the PC still holds, or one that names no CRL
abbrev pub is_current : ℕ → Held → Bool
is_current new_id c = c.id == new_id || is_present c || not (revocable c)

abbrev is_found : ℕ → Text → UseCase → Text → Held → Bool
is_found now device use_case name c = is_of device c && is_live now use_case name c

abbrev is_superseded : ℕ → Text → UseCase → Text → ℕ → Held → Bool
is_superseded now device use_case name new_id c =
    is_found now device use_case name c && is_gone new_id c

revoked_by-is_current :
    (now later : ℕ) (device : Text) (use_case : UseCase) (name : Text) (new_id : ℕ)
    (gone : List Held)
    → now ≤ later
    → (c : Held) → (is_superseded now device use_case name new_id c ≡ true → is_among gone c ≡ true)
    → is_found later device use_case name (revoked_by now gone c) ≡ true
    → is_current new_id (revoked_by now gone c) ≡ true
revoked_by-is_current now later device use_case name new_id gone le c h e = ground arith

-- After `_revoke_superseded`, at any later time too, each live certificate of the PC, kind and name
-- is the new one, or one that the PC still holds or has not reported on, or one that names no CRL.
pub revoke_superseded-is_current :
    (now later : ℕ) (device : Text) (use_case : UseCase) (name : Text) (new_id : ℕ)
    (rows : List Held)
    → now ≤ later
    → All
        (λ c. is_current new_id c ≡ true)
        (live_certs later device use_case name
          (revoke_superseded now device use_case name new_id rows))
unfolding live_certs revoke_superseded list_pal_device_certs
revoke_superseded-is_current now later device use_case name new_id rows le =
    let found = select-select (is_of device) (is_live now use_case name) rows in
    let gone = select-select (is_found now device use_case name) (is_gone new_id) rows in
    rw (select-select (is_of device) (is_live later use_case name), found, gone, revoke_all_lem now)
      (All-select-map
        (λ c.
          is_superseded now device use_case name new_id c ≡ true
          → is_among (select (is_superseded now device use_case name new_id) rows) c ≡ true)
        (λ c. is_current new_id c ≡ true) (is_found later device use_case name)
        (revoked_by now (select (is_superseded now device use_case name new_id) rows))
        (revoked_by-is_current now later device use_case name new_id
          (select (is_superseded now device use_case name new_id) rows) le)
        rows (select_among (is_superseded now device use_case name new_id) rows rows (λ c h. h)))
