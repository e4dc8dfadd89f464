-- ===== src/Certificates/Revoked.antt =====
-- A certificate that was revoked stays on the CRL of its CA, also when it is deleted: app/db.py.
use cert_generator.Prelude.{
  ℕ, ◌<◌, ◌≤◌, ◌≡◌, ◌⊎◌, inl, inr, refl, subst, sym, Bool, true, false, not, ◌&&◌, ◌||◌, some, List,
  [], ◌∷◌, any, find, delete_where, count_where, ◌==◌, if◌then◌else◌, Text, text_eq_iff, arith,
  Bool-cases, Option-cases, count-update, count_mono, count-delete, count-split, count-append,
  count-any-false, count-find, count-find_pos, find-holds, ==_iff,
}
use cert_generator.Certificates.{
  Certificate, Registry, NewCertificate, has_serial, has_cert_id, certificate_row, save_cert,
  revoke_cert, is_revocable, is_key, delete_cert, has_ca,
}
use cert_generator.Certificates.Calls.{Call, save, revoke, delete, committed, apply, run}
use cert_generator.Certificates.Trace.{
  is_it, is_trace, keep_revocation-trace, keep_revocation-is_it, keep_revocation-other,
}

module _ (ca : ℕ) (serial : Text) (expires id : ℕ) where
  -- it is there, and no other row has its id or its serial
  pub record IsPresent (r : Registry) : Type 0 where
    pub there : 1 ≤ count_where (is_it ca serial expires id) r.certificates
    pub one_serial : count_where (has_serial serial) r.certificates ≤ 1
    pub one_id : count_where (has_cert_id id) r.certificates ≤ 1
    pub given : id < r.cert_seq
    pub no_trace : any (is_key ca serial) r.deleted_revocations ≡ false

  abbrev pub IsKept : Registry → Type 0
  IsKept r = IsPresent r ⊎ (any (is_trace ca serial expires id) r.deleted_revocations ≡ true)

  save_cert-IsPresent :
      (now : ℕ) (c : NewCertificate) (r : Registry)
      → IsPresent r
      → IsPresent (committed r (save_cert now c r))
  unfolding save_cert
  save_cert-IsPresent now c r h =
      elim (Bool-cases
        (any (has_serial c.serial) r.certificates || not (any (has_ca c.ca_id) r.cas))) [
          | inl refused ↦ rw refused h
          | inr new ↦ rw new (
              let row = certificate_row now r.cert_seq c in
              let own =
                count_mono (is_it ca serial expires id) (has_serial serial) (λ x e. ground arith)
                  r.certificates in
              let none_yet =
                count-any-false (has_serial c.serial) r.certificates (ground (arith, new)) in
              record {
                there = ground (
                  arith,
                  h.there,
                  count-append (is_it ca serial expires id) r.certificates (row ∷ []),
                );
                one_serial = ground (
                  arith,
                  h.one_serial,
                  h.there,
                  own,
                  none_yet,
                  text_eq_iff c.serial serial,
                  count-append (has_serial serial) r.certificates (row ∷ []),
                );
                one_id = ground (
                  arith,
                  h.one_id,
                  h.given,
                  count-append (has_cert_id id) r.certificates (row ∷ []),
                );
                given = omega (arith, h.given);
                no_trace = h.no_trace;
              })
        ]

  revoke_cert-IsPresent :
      (now i : ℕ) (r : Registry) → IsPresent r → IsPresent (revoke_cert now i r).0
  unfolding revoke_cert
  revoke_cert-IsPresent now i r h =
      let q = is_revocable i in
      let f = λ (c : Certificate). record c { revoked = true; revoked_at = some now } in
      record {
        there =
            rw
              (count-update (is_it ca serial expires id) q
                (λ (c : Certificate).
                  if q c
                  then (is_it ca serial expires id) (f c)
                  else (is_it ca serial expires id) c)
                f (λ c. refl) r.certificates)
              (ground (
                arith,
                h.there,
                count_mono (is_it ca serial expires id)
                    (λ (c : Certificate).
                      if q c
                      then (is_it ca serial expires id) (f c)
                      else (is_it ca serial expires id) c)
                    (λ c e. ground (arith, e)) r.certificates,
              ));
        one_serial =
            rw
              (count-update (has_serial serial) q (has_serial serial) f (λ c. ground arith)
                r.certificates)
              h.one_serial;
        one_id =
            rw
              (count-update (has_cert_id id) q (has_cert_id id) f (λ c. ground arith)
                r.certificates)
              h.one_id;
        given = h.given;
        no_trace = h.no_trace;
      }

  module _ (r : Registry) (h : IsPresent r) where
    find-is_it :
        (c : Certificate)
        → find (has_cert_id id) r.certificates ≡ some c
        → (is_it ca serial expires id) c ≡ true
    find-is_it c found =
        let other = λ (x : Certificate). has_cert_id id x && not ((is_it ca serial expires id) x) in
        let same = λ (x : Certificate). has_cert_id id x && (is_it ca serial expires id) x in
        ground (
          arith,
          h.there,
          h.one_id,
          count-split (has_cert_id id) (is_it ca serial expires id) r.certificates,
          count_mono (is_it ca serial expires id) same (λ x e. ground (arith, e)) r.certificates,
          count-find_pos (has_cert_id id) other c r.certificates found,
          find-holds (has_cert_id id) c r.certificates found,
        )

    find-other :
        (i : ℕ) (c : Certificate)
        → (i == id) ≡ false
        → find (has_cert_id i) r.certificates ≡ some c
        → has_serial serial c ≡ false
    find-other i c differ found =
        let with_i = λ (x : Certificate). has_serial serial x && has_cert_id i x in
        let without_i = λ (x : Certificate). has_serial serial x && not (has_cert_id i x) in
        ground (
          arith,
          h.there,
          h.one_serial,
          count-split (has_serial serial) (has_cert_id i) r.certificates,
          count_mono (is_it ca serial expires id) without_i (λ x e. ground (arith, e, differ))
              r.certificates,
          count-find_pos (has_cert_id i) with_i c r.certificates found,
          find-holds (has_cert_id i) c r.certificates found,
        )

    delete_cert-own :
        any (is_trace ca serial expires id) (delete_cert id r).0.deleted_revocations ≡ true
    unfolding delete_cert
    delete_cert-own = elim (Option-cases (find (has_cert_id id) r.certificates)) [
      | inl missing ↦
          let own =
            count_mono (is_it ca serial expires id) (has_cert_id id) (λ x e. ground (arith, e))
              r.certificates in
          absurd (omega (arith, h.there, own, count-find (has_cert_id id) r.certificates missing))
      | inr (c, found) ↦ rw found (
          keep_revocation-is_it ca serial expires id c r.deleted_revocations (find-is_it c found)
            h.no_trace)
    ]

    delete_cert-other : (i : ℕ) → (i == id) ≡ false → IsPresent (delete_cert i r).0
    unfolding delete_cert
    delete_cert-other i differ =
        let shrinks : (p : Certificate → Bool)
            → count_where p (delete_where (has_cert_id i) r.certificates)
              ≤ count_where p r.certificates =
          λ p. rw (count-delete p (has_cert_id i) r.certificates) (
            count_mono (λ (x : Certificate). p x && not (has_cert_id i x)) p (λ x e. ground arith)
              r.certificates) in
        record {
          there = rw (count-delete (is_it ca serial expires id) (has_cert_id i) r.certificates) (
              omega (
                arith,
                h.there,
                count_mono (is_it ca serial expires id)
                    (λ (x : Certificate). (is_it ca serial expires id) x && not (has_cert_id i x))
                    (λ x e. ground (arith, e, differ)) r.certificates,
              ));
          one_serial = omega (arith, h.one_serial, shrinks (has_serial serial));
          one_id = omega (arith, h.one_id, shrinks (has_cert_id id));
          given = h.given;
          no_trace = elim (Option-cases (find (has_cert_id i) r.certificates)) [
            | inl missing ↦ rw missing h.no_trace
            | inr (c, found) ↦ rw found (
                keep_revocation-other ca serial expires id c r.deleted_revocations
                  (find-other i c differ found) h.no_trace)
          ];
        }

    delete_cert-IsKept : (i : ℕ) → IsKept (delete_cert i r).0
    delete_cert-IsKept i = elim (Bool-cases (i == id)) [
      | inr differ ↦ inl (delete_cert-other i differ)
      | inl same ↦ inr (
          subst
            (λ j.
              any (is_trace ca serial expires id) (delete_cert j r).0.deleted_revocations ≡ true)
            (sym ((==_iff i id).0 same)) delete_cert-own)
    ]

  save_cert-trace :
      (now : ℕ) (c : NewCertificate) (r : Registry)
      → (committed r (save_cert now c r)).deleted_revocations ≡ r.deleted_revocations
  unfolding save_cert
  save_cert-trace now c r = ground arith

  apply-IsKept : (call : Call) (r : Registry) → IsKept r → IsKept (apply call r)
  unfolding apply revoke_cert delete_cert
  apply-IsKept (save now c) r (inl h) = inl (save_cert-IsPresent now c r h)
  apply-IsKept (save now c) r (inr h) = inr (rw (save_cert-trace now c r) h)
  apply-IsKept (revoke now i) r (inl h) = inl (revoke_cert-IsPresent now i r h)
  apply-IsKept (revoke now i) r (inr h) = inr h
  apply-IsKept (delete i) r (inl h) = delete_cert-IsKept r h i
  apply-IsKept (delete i) r (inr h) = inr (
      keep_revocation-trace ca serial expires id (find (has_cert_id i) r.certificates)
        r.deleted_revocations h)

  pub run-IsKept : (calls : List Call) (r : Registry) → IsKept r → IsKept (run calls r)
  unfolding run
  run-IsKept [] r h = h
  run-IsKept (call ∷ calls) r h = run-IsKept calls (apply call r) (apply-IsKept call r h)
