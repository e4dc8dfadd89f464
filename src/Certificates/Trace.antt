-- ===== src/Certificates/Trace.antt =====
-- What the deletion of a certificate keeps in `deleted_revocations` (app/db.py).
use cert_generator.Prelude.{
  ℕ, ◌≡◌, inl, inr, Bool, true, false, ◌&&◌, Option, none, some, List, [], ◌∷◌, ◌++◌, any, leb,
  ◌==◌, Text, text_eq_iff, text_eq_refl, arith, Bool-cases,
}
use cert_generator.Certificates.{
  Certificate, DeletedRevocation, has_serial, has_cert_id, is_key, keep_revocation,
}

module _ (ca : ℕ) (serial : Text) (expires id : ℕ) where
  -- the revoked certificate itself
  abbrev pub is_it : Certificate → Bool
  is_it c =
      has_cert_id id c
      && has_serial serial c
      && c.ca_id == ca
      && c.revoked
      && leb expires c.not_after

  -- what is kept of it
  abbrev pub is_trace : DeletedRevocation → Bool
  is_trace d = is_key ca serial d && leb expires d.not_after

  any-append_left :
      (p : DeletedRevocation → Bool) (rows : List DeletedRevocation) (d : DeletedRevocation)
      → any p rows ≡ true
      → any p (rows ++ d ∷ []) ≡ true
  any-append_left p [] d h = ground (arith, h)
  any-append_left p (x ∷ rows) d h = ground (arith, h, any-append_left p rows d)

  any-append_new :
      (p : DeletedRevocation → Bool) (rows : List DeletedRevocation) (d : DeletedRevocation)
      → p d ≡ true
      → any p (rows ++ d ∷ []) ≡ true
  any-append_new p [] d h = ground (arith, h)
  any-append_new p (x ∷ rows) d h = ground (arith, any-append_new p rows d h)

  any-append_other :
      (p : DeletedRevocation → Bool) (rows : List DeletedRevocation) (d : DeletedRevocation)
      → any p rows ≡ false
      → p d ≡ false
      → any p (rows ++ d ∷ []) ≡ false
  any-append_other p [] d h e = ground (arith, e)
  any-append_other p (x ∷ rows) d h e = ground (arith, h, any-append_other p rows d, e)

  pub keep_revocation-trace :
      (c : Option Certificate) (rows : List DeletedRevocation)
      → any is_trace rows ≡ true
      → any is_trace (keep_revocation c rows) ≡ true
  keep_revocation-trace none rows h = h
  keep_revocation-trace (some c) rows h = elim (Bool-cases c.revoked) [
    | inr e ↦ rw e h
    | inl e ↦ rw e (elim (Bool-cases (any (is_key c.ca_id c.serial) rows)) [
      | inl old ↦ rw old h
      | inr new ↦ rw new (any-append_left is_trace rows _ h)
    ])
  ]

  -- its deletion leaves a trace
  pub keep_revocation-is_it :
      (c : Certificate) (rows : List DeletedRevocation)
      → is_it c ≡ true
      → any (is_key ca serial) rows ≡ false
      → any is_trace (keep_revocation (some c) rows) ≡ true
  keep_revocation-is_it c rows it new =
      let a : c.ca_id ≡ ca = ground (arith, it) in
      let s : c.serial ≡ serial = (text_eq_iff c.serial serial).0 (ground (arith, it)) in
      let v : c.revoked ≡ true = ground (arith, it) in
      rw (v, a, s, new) (any-append_new is_trace rows _ (ground (arith, it, text_eq_refl serial)))

  -- another deletion leaves none of its serial
  pub keep_revocation-other :
      (c : Certificate) (rows : List DeletedRevocation)
      → has_serial serial c ≡ false
      → any (is_key ca serial) rows ≡ false
      → any (is_key ca serial) (keep_revocation (some c) rows) ≡ false
  keep_revocation-other c rows other none_yet = elim (Bool-cases c.revoked) [
    | inr e ↦ rw e none_yet
    | inl e ↦ rw e (elim (Bool-cases (any (is_key c.ca_id c.serial) rows)) [
      | inl old ↦ rw old none_yet
      | inr new ↦
          rw new (any-append_other (is_key ca serial) rows _ none_yet (ground (arith, other)))
    ])
  ]
