-- ===== src/Certificates/Listed.antt =====
-- `list_revoked_serials` of app/db.py: what the CRL of a CA lists.
use cert_generator.Prelude.{
  ℕ, ◌<◌, ◌≤◌, ◌≡◌, inl, inr, refl, Bool, true, ◌||◌, List, [], ◌∷◌, ◌++◌, map, any, select,
  count_where, Text, text_eq, arith, Bool-cases,
}
use cert_generator.Certificates.{
  Certificate, DeletedRevocation, Registry, is_revoked, is_deleted, revocation_time,
  list_revoked_serials,
}
use cert_generator.Certificates.Calls.{Call, run}
use cert_generator.Certificates.Trace.{is_it, is_trace}
use cert_generator.Certificates.Revoked.{IsPresent, run-IsKept}

-- the serial is on the list
abbrev pub is_listed : Text → List (Text × ℕ) → Bool
is_listed serial rows = any (λ (p : Text × ℕ). text_eq p.0 serial) rows

is_listed-append :
    (serial : Text) (xs ys : List (Text × ℕ))
    → is_listed serial (xs ++ ys) ≡ (is_listed serial xs || is_listed serial ys)
is_listed-append serial [] ys = refl
is_listed-append serial (x ∷ xs) ys = ground (arith, is_listed-append serial xs ys)

module _ (ca : ℕ) (serial : Text) (expires id : ℕ) where
  is_it-is_listed :
      (rows : List Certificate)
      → 1 ≤ count_where (is_it ca serial expires id) rows
      → is_listed serial
          (map (λ (c : Certificate). (c.serial, revocation_time c)) (select (is_revoked ca) rows))
        ≡ true
  is_it-is_listed [] h = ground (arith, h)
  is_it-is_listed (c ∷ rows) h = elim (Bool-cases (is_revoked ca c)) [
    | inl e ↦ rw e (ground (arith, h, e, is_it-is_listed rows))
    | inr e ↦ rw e (is_it-is_listed rows (ground (arith, h, e)))
  ]

  is_trace-is_listed :
      (now : ℕ) (rows : List DeletedRevocation)
      → now < expires
      → any (is_trace ca serial expires id) rows ≡ true
      → is_listed serial (
          map
            (λ (d : DeletedRevocation). (d.serial, d.revoked_at))
            (select (is_deleted now ca) rows))
        ≡ true
  is_trace-is_listed now [] before h = ground (arith, h)
  is_trace-is_listed now (d ∷ rows) before h = elim (Bool-cases (is_deleted now ca d)) [
    | inl e ↦ rw e (ground (arith, h, e, is_trace-is_listed now rows before))
    | inr e ↦ rw e (is_trace-is_listed now rows before (ground (arith, h, e, before)))
  ]

  -- A certificate that is revoked is on the list of its CA's CRL at every time before it expires,
  -- whatever certificates are saved, revoked or deleted meanwhile, itself among them. (Its id and
  -- its serial are its own, as the keys of the table have it, and no deleted certificate of the CA
  -- had its serial.)
  pub list_revoked_serials-is_listed :
      (r : Registry) (calls : List Call) (now : ℕ)
      → IsPresent ca serial expires id r
      → now < expires
      → is_listed serial (list_revoked_serials now ca (run calls r)) ≡ true
  unfolding list_revoked_serials
  list_revoked_serials-is_listed r calls now h before =
      let after = run calls r in
      rw
        (is_listed-append serial
          (map (λ (c : Certificate). (c.serial, revocation_time c))
            (select (is_revoked ca) after.certificates))
          (map (λ (d : DeletedRevocation). (d.serial, d.revoked_at))
            (select (is_deleted now ca) after.deleted_revocations)))
        (elim (run-IsKept ca serial expires id calls r (inl h)) [
          | inl present ↦ ground (arith, is_it-is_listed after.certificates present.there)
          | inr kept ↦ ground (arith, is_trace-is_listed now after.deleted_revocations before kept)
        ])
