-- ===== src/Pal/Status/Answered.antt =====
-- What the answers of `cert_status` of app/routes/pal.py say of the tables.
use cert_generator.Prelude.{
  ℕ, ◌≡◌, ◌⊎◌, inl, inr, refl, subst, sym, Bool, true, false, not, ◌&&◌, ◌||◌, Option, none, some,
  List, [], ◌∷◌, ◌++◌, map, any, select, leb, ltb, length, codes, ok, refuse_if, bind-ok, Text,
  text_eq, text_eq_iff, text_eq_refl, All, arith, Bool-cases, Option-cases,
}
use cert_generator.Pal.Json.{Json, null, array, items, Fields, get_or}
use cert_generator.Pal.Tables.{Device}
use cert_generator.Pal.Store.{Store}
use cert_generator.Pal.Binds.{tree_of}
use cert_generator.Pal.Names.{member}
use cert_generator.Pal.Reported.{Library}
use cert_generator.Pal.Held.{Held}
use cert_generator.Certificates.{DeletedRevocation, Registry}
use cert_generator.Certificates.Tree.{has_member}
use cert_generator.Pal.Status.{
  CaCertificate, Entry, Tables, is_sought, find_serials, last_entry, Answer, unknown, revoked,
  expired, valid, answer_of, entry_of, somes, normalized, answers_of, tables_of, recorded, texts_of,
  max_serials, bad_serials, Status, status_of, cert_status,
}

abbrev is_hit : (Entry → Bool) → Text → Text × Entry → Bool
is_hit p serial item = text_eq item.0 serial && p item.1

last_entry-is_hit :
    (p : Entry → Bool) (serial : Text) (e : Entry) (found : List (Text × Entry))
    → last_entry serial found ≡ some e
    → p e ≡ true
    → any (is_hit p serial) found ≡ true
unfolding last_entry
last_entry-is_hit p serial e [] h k = ground (arith, h)
last_entry-is_hit p serial e ((key, f) ∷ found) h k =
    elim (Option-cases (last_entry serial found)) [
      | inr (later, l) ↦
          let same : later ≡ e = ground (arith, h, l) in
          let rest =
            last_entry-is_hit p serial later found l (subst (λ x. p x ≡ true) (sym same) k) in
          ground (arith, rest)
      | inl l ↦ elim (Bool-cases (text_eq key serial)) [
        | inr n ↦ ground (arith, h, l, n)
        | inl y ↦
            let same : f ≡ e = ground (arith, h, l, y) in
            let holds = subst (λ x. p x ≡ true) (sym same) k in rw (y, holds) refl
      ]
    ]

last_entry-none :
    (serial : Text) (found : List (Text × Entry))
    → last_entry serial found ≡ none
    → any (is_hit (λ e. true) serial) found ≡ false
unfolding last_entry
last_entry-none serial [] h = refl
last_entry-none serial ((key, f) ∷ found) h = elim (Option-cases (last_entry serial found)) [
  | inr (later, l) ↦ ground (arith, h, l)
  | inl l ↦ ground (arith, h, l, last_entry-none serial found l)
]

any-append :
    {A : Type 0} (p : A → Bool) (xs ys : List A) → any p (xs ++ ys) ≡ (any p xs || any p ys)
any-append p [] ys = refl
any-append p (x ∷ xs) ys = ground (arith, any-append p xs ys)

-- one of the three queries
module _ {A : Type 0} (ca : A → ℕ) (key : A → Text) (entry : A → Entry) where
  abbrev is_row : (Entry → Bool) → List ℕ → Text → A → Bool
  is_row p tree serial x = has_member (ca x) tree && text_eq (key x) serial && p (entry x)

  abbrev queried : List ℕ → List Text → List A → List (Text × Entry)
  queried tree serials xs =
      map (λ x. (key x, entry x)) (select (λ x. is_sought tree serials (ca x) (key x)) xs)

  any-queried :
      (p : Entry → Bool) (tree : List ℕ) (serials : List Text) (serial : Text) (xs : List A)
      → any (is_hit p serial) (queried tree serials xs) ≡ true
      → any (is_row p tree serial) xs ≡ true
  any-queried p tree serials serial [] h = h
  any-queried p tree serials serial (x ∷ xs) h =
      ground (arith, h, any-queried p tree serials serial xs)

  any-not_queried :
      (p : Entry → Bool) (tree : List ℕ) (serials : List Text) (serial : Text) (xs : List A)
      → member serial serials ≡ true
      → any (is_hit p serial) (queried tree serials xs) ≡ false
      → any (is_row p tree serial) xs ≡ false
  any-not_queried p tree serials serial [] m h = refl
  any-not_queried p tree serials serial (x ∷ xs) m h = elim (Bool-cases (text_eq (key x) serial)) [
    | inr n ↦ ground (arith, h, n, any-not_queried p tree serials serial xs m)
    | inl y ↦
        let same = (text_eq_iff (key x) serial).0 y in
        let sought = subst (λ t. member t serials ≡ true) (sym same) m in
        ground (arith, h, y, sought, any-not_queried p tree serials serial xs m)
  ]

-- a row of the three tables, of a CA in the tree, with the serial
abbrev pub is_in : (Entry → Bool) → List ℕ → Text → Tables → Bool
is_in p tree serial t =
    any
      (λ (c : Held).
        has_member c.ca_id tree
        && text_eq c.serial serial
        && p (record { not_after = c.not_after; revoked = c.revoked }))
      t.rows
    || any
        (λ (d : DeletedRevocation).
          has_member d.ca_id tree
          && text_eq d.serial serial
          && p (record { not_after = d.not_after; revoked = true }))
        t.deleted
    || any
        (λ (c : CaCertificate).
          has_member c.id tree
          && text_eq c.serial serial
          && p (record { not_after = c.not_after; revoked = false }))
        t.cas

abbrev certificate_entry : Held → Entry
certificate_entry c = record { not_after = c.not_after; revoked = c.revoked }

abbrev deleted_entry : DeletedRevocation → Entry
deleted_entry d = record { not_after = d.not_after; revoked = true }

abbrev ca_entry : CaCertificate → Entry
ca_entry c = record { not_after = c.not_after; revoked = false }

abbrev of_rows : List ℕ → List Text → Tables → List (Text × Entry)
of_rows tree serials t =
    queried (λ (c : Held). c.ca_id) (λ c. c.serial) certificate_entry tree serials t.rows

abbrev of_deleted : List ℕ → List Text → Tables → List (Text × Entry)
of_deleted tree serials t =
    queried (λ (d : DeletedRevocation). d.ca_id) (λ d. d.serial) deleted_entry tree serials
      t.deleted

abbrev of_cas : List ℕ → List Text → Tables → List (Text × Entry)
of_cas tree serials t =
    queried (λ (c : CaCertificate). c.id) (λ c. c.serial) ca_entry tree serials t.cas

or_assoc : (a b c : Bool) → ((a || b) || c) ≡ (a || b || c)
or_assoc a b c = ground arith

any-three :
    (p : Entry → Bool) (tree : List ℕ) (serials : List Text) (serial : Text) (t : Tables)
    → any
        (is_hit p serial)
        (of_rows tree serials t ++ of_deleted tree serials t ++ of_cas tree serials t)
      ≡ (any (is_hit p serial) (of_rows tree serials t)
          || any (is_hit p serial) (of_deleted tree serials t)
          || any (is_hit p serial) (of_cas tree serials t))
any-three p tree serials serial t =
    rw
      (
        any-append (is_hit p serial) (of_rows tree serials t ++ of_deleted tree serials t)
            (of_cas tree serials t),
        any-append (is_hit p serial) (of_rows tree serials t) (of_deleted tree serials t),
      )
      (or_assoc (any (is_hit p serial) (of_rows tree serials t))
        (any (is_hit p serial) (of_deleted tree serials t))
        (any (is_hit p serial) (of_cas tree serials t)))

find_serials-is_in :
    (p : Entry → Bool) (tree : List ℕ) (serials : List Text) (serial : Text) (t : Tables)
    → any (is_hit p serial) (find_serials tree serials t) ≡ true
    → is_in p tree serial t ≡ true
unfolding find_serials
find_serials-is_in p [] serials serial t h = ground (arith, h)
find_serials-is_in p (ca ∷ tree) [] serial t h = ground (arith, h)
find_serials-is_in p (ca ∷ tree) (s ∷ serials) serial t h = ground (
  arith,
  sym (any-three p (ca ∷ tree) (s ∷ serials) serial t),
  h,
  any-queried (λ (c : Held). c.ca_id) (λ c. c.serial) certificate_entry p (ca ∷ tree) (s ∷ serials)
      serial t.rows,
  any-queried (λ (d : DeletedRevocation). d.ca_id) (λ d. d.serial) deleted_entry p (ca ∷ tree)
      (s ∷ serials) serial t.deleted,
  any-queried (λ (c : CaCertificate). c.id) (λ c. c.serial) ca_entry p (ca ∷ tree) (s ∷ serials)
      serial t.cas,
)

any-never : {A : Type 0} (xs : List A) → any (λ x. false) xs ≡ false
any-never [] = refl
any-never (x ∷ xs) = any-never xs

find_serials-not_in :
    (p : Entry → Bool) (tree : List ℕ) (serials : List Text) (serial : Text) (t : Tables)
    → member serial serials ≡ true
    → any (is_hit p serial) (find_serials tree serials t) ≡ false
    → is_in p tree serial t ≡ false
unfolding find_serials
find_serials-not_in p [] serials serial t m h =
    rw (any-never t.rows, any-never t.deleted, any-never t.cas) refl
find_serials-not_in p (ca ∷ tree) [] serial t m h = ground (arith, m)
find_serials-not_in p (ca ∷ tree) (s ∷ serials) serial t m h = ground (
  arith,
  any-three p (ca ∷ tree) (s ∷ serials) serial t,
  h,
  any-not_queried (λ (c : Held). c.ca_id) (λ c. c.serial) certificate_entry p (ca ∷ tree)
      (s ∷ serials) serial t.rows m,
  any-not_queried (λ (d : DeletedRevocation). d.ca_id) (λ d. d.serial) deleted_entry p (ca ∷ tree)
      (s ∷ serials) serial t.deleted m,
  any-not_queried (λ (c : CaCertificate). c.id) (λ c. c.serial) ca_entry p (ca ∷ tree) (s ∷ serials)
      serial t.cas m,
)

module _ (lib : Library) (casefold : Text → Text) where
  -- a row of the tables with what was sent as its serial
  abbrev pub IsFor : (Entry → Bool) → List ℕ → Tables → Text → Type 0
  IsFor p tree t raw =
      (serial : Text) × (normalized lib casefold raw ≡ some serial) × (is_in p tree serial t ≡ true)

  -- what each answer says
  abbrev pub IsTrue : ℕ → List ℕ → Tables → Text × Answer → Type 0
  IsTrue now tree t (raw, valid) = IsFor (λ e. not e.revoked && ltb now e.not_after) tree t raw
  IsTrue now tree t (raw, expired) = IsFor (λ e. not e.revoked && leb e.not_after now) tree t raw
  IsTrue now tree t (raw, revoked) = IsFor (λ e. e.revoked) tree t raw
  IsTrue now tree t (raw, unknown) =
      (normalized lib casefold raw ≡ none)
      ⊎ ((serial : Text) × (normalized lib casefold raw ≡ some serial)
          × (is_in (λ e. true) tree serial t ≡ false))

  answer-IsTrue :
      (now : ℕ) (tree : List ℕ) (serials : List Text) (t : Tables) (raw serial : Text)
      → normalized lib casefold raw ≡ some serial
      → member serial serials ≡ true
      → (o : Option Entry) → last_entry serial (find_serials tree serials t) ≡ o
      → IsTrue now tree t (raw, answer_of now o)
  answer-IsTrue now tree serials t raw serial n m none l =
      let found = find_serials tree serials t in
      inr (
        serial,
        n,
        find_serials-not_in (λ e. true) tree serials serial t m (last_entry-none serial found l),
      )
  answer-IsTrue now tree serials t raw serial n m (some e) l =
      let found = find_serials tree serials t in
      let hit = λ (p : Entry → Bool) (k : p e ≡ true).
        find_serials-is_in p tree serials serial t (last_entry-is_hit p serial e found l k) in
      elim (Bool-cases e.revoked) [
        | inl r ↦ rw r (serial, n, hit (λ x. x.revoked) r)
        | inr r ↦ elim (Bool-cases (leb e.not_after now)) [
          | inl x ↦
              rw (r, x)
                (serial, n, hit (λ x. not x.revoked && leb x.not_after now) (ground (arith, r, x)))
          | inr x ↦
              rw (r, x)
                (serial, n, hit (λ x. not x.revoked && ltb now x.not_after) (ground (arith, r, x)))
        ]
      ]

  abbrev IsListed : List Text → Text → Type 0
  IsListed serials raw =
      (serial : Text) → normalized lib casefold raw ≡ some serial → member serial serials ≡ true

  All-IsListed :
      (serials : List Text) (raws : List Text)
      → ((t : Text)
          → member t (somes (map (normalized lib casefold) raws)) ≡ true
          → member t serials ≡ true)
      → All (IsListed serials) raws
  All-IsListed serials [] h = tt
  All-IsListed serials (raw ∷ raws) h = elim (Option-cases (normalized lib casefold raw)) [
    | inl n ↦ (λ s e. ground (arith, n, e), All-IsListed serials raws (λ t k. h t (rw n k)))
    | inr (serial, n) ↦ (
      λ s e.
          let same : serial ≡ s = ground (arith, n, e) in
          h s (rw n (rw (← same, text_eq_refl serial) refl)),
      All-IsListed serials raws (λ t k. h t (rw n (ground (arith, k)))),
    )
  ]

  each-IsTrue :
      (now : ℕ) (tree : List ℕ) (serials : List Text) (t : Tables) (raws : List Text)
      → All (IsListed serials) raws
      → All (IsTrue now tree t) (
          map
            (λ raw. (
              raw,
              answer_of now (entry_of (find_serials tree serials t) (normalized lib casefold raw)),
            ))
            raws)
  each-IsTrue now tree serials t [] h = tt
  each-IsTrue now tree serials t (raw ∷ raws) h =
      let rest = each-IsTrue now tree serials t raws h.1 in
      elim (Option-cases (normalized lib casefold raw)) [
        | inl n ↦ rw n (inl n, rest)
        | inr (serial, n) ↦ rw n (
          answer-IsTrue now tree serials t raw serial n (h.0 serial n)
              (last_entry serial (find_serials tree serials t)) refl,
          rest,
        )
      ]

  answers_of-IsTrue :
      (now : ℕ) (tree : List ℕ) (raws : List Text) (t : Tables)
      → All (IsTrue now tree t) (answers_of lib casefold now tree raws t)
  answers_of-IsTrue now tree raws t =
      let serials = somes (map (normalized lib casefold) raws) in
      each-IsTrue now tree serials t raws (All-IsListed serials raws (λ s k. k))

  status_of-IsTrue :
      (now at : ℕ) (device : Device) (sent : Fields) (ca_rows : List CaCertificate) (r : Registry)
      (s : Store) (rows : List Held) (j : Json) (st : Status)
      → status_of lib casefold now at device sent ca_rows r s rows j ≡ ok st
      → All (IsTrue now (tree_of device.ca_id r) (tables_of ca_rows r rows)) st.answers
  unfolding status_of
  status_of-IsTrue now at device sent ca_rows r s rows (array js) st h =
      let st' =
        recorded lib casefold now at device sent (tree_of device.ca_id r) (texts_of (items js))
          ca_rows r s rows in
      let (_, _, last) =
        bind-ok (refuse_if (ltb max_serials (length (items js))) bad_serials) (λ u. ok st') st h in
      let same : st'.answers ≡ st.answers = ground (arith, last) in
      rw (← same) (
        answers_of-IsTrue now (tree_of device.ca_id r) (texts_of (items js))
          (tables_of ca_rows r rows))
  status_of-IsTrue now at device sent ca_rows r s rows _ st h = absurd (ground (arith, h))

  -- Each answer of `cert_status` is true of the tables: "valid" only if a certificate, or a CA's, of
  -- a CA in the tree has the serial, is not revoked and has not expired; "expired" only if one has
  -- that is not revoked; "revoked" only if one has that is revoked, or was before it was deleted;
  -- and "unknown" only if the text is no serial, or none of the tables has it for a CA in the tree.
  pub cert_status-IsTrue :
      (now at : ℕ) (device : Device) (sent : Fields) (ca_rows : List CaCertificate) (r : Registry)
      (s : Store) (rows : List Held) (st : Status)
      → cert_status lib casefold now at device sent ca_rows r s rows ≡ ok st
      → All (IsTrue now (tree_of device.ca_id r) (tables_of ca_rows r rows)) st.answers
  unfolding cert_status
  cert_status-IsTrue now at device sent ca_rows r s rows =
      status_of-IsTrue now at device sent ca_rows r s rows (get_or (codes "serials") null sent)
