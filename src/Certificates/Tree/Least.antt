-- ===== src/Certificates/Tree/Least.antt =====
-- `ca_tree_ids` of app/db.py gives a CA and all below it, and no other.
use cert_generator.Prelude.{
  ℕ, zero, suc, ◌+◌, ◌≤◌, ◌≡◌, refl, Bool, true, false, not, ◌||◌, none, some, List, [], ◌∷◌, ◌++◌,
  any, all, sym, subst, ==_iff, Option-cases, select, length, count_where, is_empty, ◌==◌, All,
  All-append, arith, ==_refl, Bool-cases, inl, inr,
}
use cert_generator.Certificates.{Ca, Registry, has_ca}
use cert_generator.Certificates.Tree.{has_member, is_under, is_new, ids_of, tree_from, ca_tree_ids}

-- the children of the set are in it
abbrev pub IsClosed : List ℕ → List Ca → Type 0
IsClosed ids cas = All (λ ca. is_under ids ca ≡ true → has_member ca.id ids ≡ true) cas

abbrev is_out : List ℕ → Ca → Bool
is_out ids ca = not (has_member ca.id ids)

none_out-IsClosed :
    (ids : List ℕ) (cas : List Ca)
    → count_where (is_out ids) cas ≡ 0
    → All (λ ca. is_under ids ca ≡ true → has_member ca.id ids ≡ true) cas
none_out-IsClosed ids [] h = tt
none_out-IsClosed ids (ca ∷ cas) h =
    (λ e. ground (arith, h), none_out-IsClosed ids cas (ground (arith, h)))

none_new-IsClosed :
    (ids : List ℕ) (cas : List Ca)
    → is_empty (select (is_new ids) cas) ≡ true
    → All (λ ca. is_under ids ca ≡ true → has_member ca.id ids ≡ true) cas
none_new-IsClosed ids [] h = tt
none_new-IsClosed ids (ca ∷ cas) h =
    (λ e. ground (arith, h, e), none_new-IsClosed ids cas (ground (arith, h)))

has_member-append :
    (id : ℕ) (xs ys : List ℕ) → has_member id (xs ++ ys) ≡ (has_member id xs || has_member id ys)
has_member-append id [] ys = refl
has_member-append id (x ∷ xs) ys = ground (arith, has_member-append id xs ys)

-- the rows of a query have their ids among those of its result
ids_of-select :
    (p : Ca → Bool) (all_cas cas : List Ca)
    → ((ca : Ca)
        → has_member ca.id (ids_of (select p cas)) ≡ true
        → has_member ca.id (ids_of (select p all_cas)) ≡ true)
    → All (λ ca. p ca ≡ true → has_member ca.id (ids_of (select p all_cas)) ≡ true) cas
ids_of-select p all_cas [] h = tt
ids_of-select p all_cas (ca ∷ cas) h = (
  λ e. h ca (ground (arith, ==_refl ca.id, e)),
  ids_of-select p all_cas cas (λ c e. h c (ground (arith, e))),
)

count-is_out-le :
    (ids more : List ℕ) (cas : List Ca)
    → All (λ ca. is_new ids ca ≡ true → has_member ca.id more ≡ true) cas
    → count_where (is_out (ids ++ more)) cas + count_where (is_new ids) cas
      ≤ count_where (is_out ids) cas
count-is_out-le ids more [] h = omega arith
count-is_out-le ids more (ca ∷ cas) h =
    ground (arith, count-is_out-le ids more cas h.1, has_member-append ca.id ids more, h.0)

count-select :
    (p : Ca → Bool) (cas : List Ca) → is_empty (select p cas) ≡ false → 1 ≤ count_where p cas
count-select p [] h = ground (arith, h)
count-select p (ca ∷ cas) h = ground (arith, h, count-select p cas)

count-le : (p : Ca → Bool) (cas : List Ca) → count_where p cas ≤ length cas
count-le p [] = omega arith
count-le p (ca ∷ cas) = ground (arith, count-le p cas)

-- Rounds for all CAs that are not in the set yet are enough.
tree_from-IsClosed :
    (rounds : ℕ) (ids : List ℕ) (cas : List Ca)
    → count_where (is_out ids) cas ≤ rounds
    → IsClosed (tree_from rounds ids cas) cas
unfolding tree_from
tree_from-IsClosed zero ids cas h = none_out-IsClosed ids cas (omega (arith, h))
tree_from-IsClosed (suc rounds) ids cas h = elim (Bool-cases (is_empty (select (is_new ids) cas))) [
  | inl e ↦ rw e (none_new-IsClosed ids cas e)
  | inr e ↦
      let more = ids_of (select (is_new ids) cas) in
      let fewer = count-is_out-le ids more cas (ids_of-select (is_new ids) cas cas (λ ca k. k)) in
      rw e (
        tree_from-IsClosed rounds (ids ++ more) cas
          (omega (arith, fewer, count-select (is_new ids) cas e, h)))
]

-- a set that no CA leaves: with a CA, its children are in the set
abbrev pub is_closed : (ℕ → Bool) → List Ca → Bool
is_closed inside cas =
    all
      (λ (ca : Ca).
        (elim ca.parent_ca_id [ none ↦ true | some parent ↦ not (inside parent) ]) || inside ca.id)
      cas

IsClosed-is_closed :
    (ids : List ℕ) (cas : List Ca)
    → All (λ ca. is_under ids ca ≡ true → has_member ca.id ids ≡ true) cas
    → is_closed (λ id. has_member id ids) cas ≡ true
IsClosed-is_closed ids [] h = refl
IsClosed-is_closed ids (ca ∷ cas) h = ground (arith, h.0, IsClosed-is_closed ids cas h.1)

module _ (inside : ℕ → Bool) where
  has_member-inside :
      (id : ℕ) (ids : List ℕ)
      → All (λ i. inside i ≡ true) ids
      → has_member id ids ≡ true
      → inside id ≡ true
  has_member-inside id [] h e = ground (arith, e)
  has_member-inside id (i ∷ ids) h e = elim (Bool-cases (i == id)) [
    | inl same ↦ subst (λ j. inside j ≡ true) ((==_iff i id).0 same) h.0
    | inr other ↦ has_member-inside id ids h.1 (ground (arith, e, other))
  ]

  new-inside :
      (ids : List ℕ) (cas : List Ca)
      → All (λ i. inside i ≡ true) ids
      → is_closed inside cas ≡ true
      → All (λ i. inside i ≡ true) (ids_of (select (is_new ids) cas))
  new-inside ids [] h k = tt
  new-inside ids (ca ∷ cas) h k = elim (Bool-cases (is_new ids ca)) [
    | inr e ↦ rw e (new-inside ids cas h (ground (arith, k)))
    | inl e ↦ elim (Option-cases ca.parent_ca_id) [
      | inl n ↦ ground (arith, e, n)
      | inr (parent, p) ↦ rw e (
        ground (arith, k, p, has_member-inside parent ids h (ground (arith, e, p))),
        new-inside ids cas h (ground (arith, k)),
      )
    ]
  ]

  tree_from-inside :
      (rounds : ℕ) (ids : List ℕ) (cas : List Ca)
      → All (λ i. inside i ≡ true) ids
      → is_closed inside cas ≡ true
      → All (λ i. inside i ≡ true) (tree_from rounds ids cas)
  unfolding tree_from
  tree_from-inside zero ids cas h k = h
  tree_from-inside (suc rounds) ids cas h k =
      elim (Bool-cases (is_empty (select (is_new ids) cas))) [
        | inl e ↦ rw e h
        | inr e ↦
            let more = ids_of (select (is_new ids) cas) in
            rw e (
              tree_from-inside rounds (ids ++ more) cas
                (All-append (λ i. inside i ≡ true) ids more h (new-inside ids cas h k)) k)
      ]

  root-inside :
      (root : ℕ) (cas : List Ca)
      → inside root ≡ true
      → All (λ i. inside i ≡ true) (ids_of (select (has_ca root) cas))
  root-inside root [] h = tt
  root-inside root (ca ∷ cas) h = elim (Bool-cases (has_ca root ca)) [
    | inl e ↦
        rw e
          (subst (λ j. inside j ≡ true) (sym ((==_iff ca.id root).0 e)) h, root-inside root cas h)
    | inr e ↦ rw e (root-inside root cas h)
  ]

has_member-tree_from :
    (id rounds : ℕ) (ids : List ℕ) (cas : List Ca)
    → has_member id ids ≡ true
    → has_member id (tree_from rounds ids cas) ≡ true
unfolding tree_from
has_member-tree_from id zero ids cas h = h
has_member-tree_from id (suc rounds) ids cas h =
    elim (Bool-cases (is_empty (select (is_new ids) cas))) [
      | inl e ↦ rw e h
      | inr e ↦
          let more = ids_of (select (is_new ids) cas) in
          rw e (
            has_member-tree_from id rounds (ids ++ more) cas
              (ground (arith, h, has_member-append id ids more)))
    ]

has_member-root :
    (root : ℕ) (cas : List Ca)
    → any (has_ca root) cas ≡ true
    → has_member root (ids_of (select (has_ca root) cas)) ≡ true
has_member-root root [] h = ground (arith, h)
has_member-root root (ca ∷ cas) h = ground (arith, h, has_member-root root cas)

-- The ids that `ca_tree_ids` gives for a CA there is are the least closed set with it: the CA is
-- among them, and with a CA each CA that has it as its parent, however many CAs there are and even
-- if the parents go round in a circle; and all of them are in each set `inside` that is closed so
-- and has the CA.
pub ca_tree_ids_least :
    (root : ℕ) (r : Registry) (inside : ℕ → Bool)
    → any (has_ca root) r.cas ≡ true
    → inside root ≡ true
    → is_closed inside r.cas ≡ true
    → (has_member root (ca_tree_ids root r) ≡ true)
      × (is_closed (λ id. has_member id (ca_tree_ids root r)) r.cas ≡ true)
      × All (λ id. inside id ≡ true) (ca_tree_ids root r)
unfolding ca_tree_ids
ca_tree_ids_least root r inside known h k =
    let start = ids_of (select (has_ca root) r.cas) in
    let rounds = length r.cas in
    (
      has_member-tree_from root rounds start r.cas (has_member-root root r.cas known),
      IsClosed-is_closed (tree_from rounds start r.cas) r.cas
          (tree_from-IsClosed rounds start r.cas (count-le (is_out start) r.cas)),
      tree_from-inside inside rounds start r.cas (root-inside inside root r.cas h) k,
    )
