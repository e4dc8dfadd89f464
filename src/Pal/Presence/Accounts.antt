-- ===== src/Pal/Presence/Accounts.antt =====
-- What the audits of other Windows accounts cannot say: `mark_pal_presence` of app/db.py.
use cert_generator.Prelude.{
  ◌≡◌, refl, Bool, true, false, not, ◌||◌, Option, none, some, List, [], ◌∷◌, map, if◌then◌else◌,
  Text, text_eq_iff, All, arith, Bool-cases, inl, inr,
}
use cert_generator.Pal.Held.{Held, is_of, is_present}
use cert_generator.Pal.Presence.{
  Audit, is_user_template, is_found, same_account, mark_row, mark_pal_presence,
}

module _ (casefold : Text → Text) where
  -- a certificate of an account's own store that is the account's, or nobody's, is not missed
  abbrev pub is_kept : Text → Held → Bool
  is_kept owner c =
      not (is_user_template c)
      || not (same_account casefold c.pal_user (some owner))
      || is_present c

  -- the audits of a PC, one after the other
  abbrev pub audits : Text → List Audit → List Held → List Held
  audits device [] rows = rows
  audits device (audit ∷ more) rows =
      audits device more (mark_pal_presence casefold device audit rows).0

  abbrev pub IsByOther : Text → Audit → Type 0
  IsByOther owner audit = same_account casefold audit.account (some owner) ≡ false

  same_account-other :
      (owner : Text) (user account : Option Text)
      → same_account casefold user account ≡ true
      → same_account casefold account (some owner) ≡ false
      → same_account casefold user (some owner) ≡ false
  same_account-other owner none account h k = refl
  same_account-other owner (some u) none h k = ground (arith, h)
  same_account-other owner (some u) (some a) h k = ground (
    arith,
    text_eq_iff (casefold u) (casefold a),
    text_eq_iff (casefold a) (casefold owner),
    text_eq_iff (casefold u) (casefold owner),
  )

  mark_row-is_kept :
      (owner : Text) (audit : Audit) (c : Held)
      → IsByOther owner audit
      → is_kept owner c ≡ true
      → is_kept owner (mark_row casefold audit c) ≡ true
  unfolding mark_row
  mark_row-is_kept owner audit c other h = elim (Bool-cases (is_user_template c)) [
    | inr e ↦ rw e (rw e refl)
    | inl e ↦ elim (Bool-cases (is_found audit c)) [
      | inl f ↦ ground (arith, h, e, f)
      | inr f ↦ elim (Bool-cases (same_account casefold c.pal_user audit.account)) [
        | inr g ↦ ground (arith, h, e, f, g)
        | inl g ↦
            ground (arith, h, e, f, g, same_account-other owner c.pal_user audit.account g other)
      ]
    ]
  ]

  marked-is_kept :
      (owner device : Text) (audit : Audit) (rows : List Held)
      → IsByOther owner audit
      → All (λ c. is_kept owner c ≡ true) rows
      → All
          (λ c. is_kept owner c ≡ true)
          (map (λ c. if is_of device c then mark_row casefold audit c else c) rows)
  marked-is_kept owner device audit [] other h = tt
  marked-is_kept owner device audit (c ∷ rows) other h = elim (Bool-cases (is_of device c)) [
    | inl e ↦
        rw e (
          mark_row-is_kept owner audit c other h.0,
          marked-is_kept owner device audit rows other h.1,
        )
    | inr e ↦ rw e (h.0, marked-is_kept owner device audit rows other h.1)
  ]

  -- If every certificate in the own store of the Windows account `owner` is marked as present on
  -- its PC, or as not checked, then it still is after any number of store audits of the PC that ran
  -- as other accounts, whatever serials they found.
  pub audits-is_kept :
      (owner device : Text) (more : List Audit) (rows : List Held)
      → All (IsByOther owner) more
      → All (λ c. is_kept owner c ≡ true) rows
      → All (λ c. is_kept owner c ≡ true) (audits device more rows)
  unfolding mark_pal_presence
  audits-is_kept owner device [] rows others h = h
  audits-is_kept owner device (audit ∷ more) rows others h =
      audits-is_kept owner device more (mark_pal_presence casefold device audit rows).0 others.1
        (marked-is_kept owner device audit rows others.0 h)
