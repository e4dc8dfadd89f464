-- ===== src/Certificates/Roots.antt =====
-- The walk up to the root of a CA: `root_ca_id` of app/db.py. A non-returning round adds a new id to
-- `seen`, but when a CA is its own parent, and then the next round returns: so `len(seen) < max_depth`
-- counts the rounds.
use cert_generator.Prelude.{
  ℕ, zero, suc, ◌≡◌, ◌∙◌, refl, false, Option, none, some, List, [], ◌∷◌, any, find, ◌==◌,
  if◌then◌else◌, arith, find-holds, inl, inr, sym, ap, Option-cases,
}
use cert_generator.Certificates.{Ca, Registry, has_ca, chain_from, max_depth}

unfoldable pub root_from : ℕ → List ℕ → ℕ → List Ca → Option ℕ
root_from zero seen current cas = some current
root_from (suc depth) seen current cas = elim (find (has_ca current) cas) [
  | none ↦ none
  | some ca ↦ elim ca.parent_ca_id [
    | none ↦ some current
    | some parent ↦
        if any (λ s. s == parent) seen
        then some current
        else root_from depth (current ∷ seen) parent cas
  ]
]

unfoldable pub root_ca_id : ℕ → Registry → Option ℕ
root_ca_id id r = root_from max_depth [] id r.cas

-- the CA at the end of a chain
abbrev pub last_ca : List Ca → Option Ca
last_ca [] = none
last_ca (ca ∷ cas) = elim (last_ca cas) [ none ↦ some ca | some top ↦ some top ]

last_ca-chain_from-unseen :
    (depth : ℕ) (seen : List ℕ) (id : ℕ) (cas : List Ca) (top : Ca)
    → last_ca (chain_from depth seen (some id) cas) ≡ some top
    → any (λ s. s == id) seen ≡ false
unfolding chain_from
last_ca-chain_from-unseen zero seen id cas top e = ground (arith, e)
last_ca-chain_from-unseen (suc depth) seen id cas top e = ground (arith, e)

last_ca-here :
    (ca top : Ca) (rest : List Ca)
    → last_ca (ca ∷ rest) ≡ some top
    → last_ca rest ≡ none
    → some ca ≡ some top
last_ca-here ca top rest e ends = cc

last_ca-above :
    (ca top above : Ca) (rest : List Ca)
    → last_ca (ca ∷ rest) ≡ some top
    → last_ca rest ≡ some above
    → last_ca rest ≡ some top
last_ca-above ca top above rest e more = cc

chain_from-none : (depth : ℕ) (seen : List ℕ) (cas : List Ca) → chain_from depth seen none cas ≡ []
unfolding chain_from
chain_from-none zero seen cas = refl
chain_from-none (suc depth) seen cas = refl

chain_from-suc :
    (depth : ℕ) (seen : List ℕ) (id : ℕ) (cas : List Ca) (ca : Ca)
    → any (λ s. s == id) seen ≡ false
    → find (has_ca id) cas ≡ some ca
    → chain_from (suc depth) seen (some id) cas
      ≡ ca ∷ chain_from depth (id ∷ seen) ca.parent_ca_id cas
unfolding chain_from
chain_from-suc depth seen id cas ca unseen found = rw (unseen, found) refl

root_from-last_ca :
    (depth : ℕ) (seen : List ℕ) (id : ℕ) (cas : List Ca) (top : Ca)
    → last_ca (chain_from depth seen (some id) cas) ≡ some top
    → top.parent_ca_id ≡ none
    → root_from depth seen id cas ≡ some top.id
unfolding chain_from root_from
root_from-last_ca zero seen id cas top e root = ground (arith, e)
root_from-last_ca (suc depth) seen id cas top e root = elim (Option-cases (find (has_ca id) cas)) [
  | inl missing ↦ ground (arith, e, missing)
  | inr (ca, found) ↦
      let unseen = last_ca-chain_from-unseen (suc depth) seen id cas top e in
      let chain = sym (ap last_ca (chain_from-suc depth seen id cas ca unseen found)) ∙ e in
      let own = find-holds (has_ca id) ca cas found in
      elim (Option-cases ca.parent_ca_id) [
        | inl is_root ↦
            let rest = λ (p : Option ℕ). chain_from depth (id ∷ seen) p cas in
            let last_of = λ (p : Option ℕ). last_ca (rest p) in
            let ends = ap last_of is_root ∙ ap last_ca (chain_from-none depth (id ∷ seen) cas) in
            let is_top = last_ca-here ca top (rest ca.parent_ca_id) chain ends in
            rw (root_from, found, is_root) (ground (arith, is_top, own))
        | inr (parent, has_parent) ↦
            let rest = λ (p : Option ℕ). chain_from depth (id ∷ seen) p cas in
            let last_of = λ (p : Option ℕ). last_ca (rest p) in
            elim (Option-cases (last_of (some parent))) [
              | inl ends ↦
                  let is_top =
                    last_ca-here ca top (rest ca.parent_ca_id) chain
                      (ap last_of has_parent ∙ ends) in
                  ground (arith, is_top, has_parent, root)
              | inr (above, more) ↦
                  let goes_on =
                    last_ca-above ca top above (rest ca.parent_ca_id) chain
                      (ap last_of has_parent ∙ more) in
                  let e' = sym (ap last_of has_parent) ∙ goes_on in
                  let new = last_ca-chain_from-unseen depth (id ∷ seen) parent cas top e' in
                  let above_root = root_from-last_ca depth (id ∷ seen) parent cas top e' root in
                  rw (root_from, found, has_parent) (ground (arith, new, above_root))
            ]
      ]
]

-- Where the walk of get_ca_named_chain from a CA ends at a CA without a parent, root_ca_id returns
-- the id of that CA.
pub root_ca_id-last_ca :
    (id : ℕ) (r : Registry) (top : Ca)
    → last_ca (chain_from max_depth [] (some id) r.cas) ≡ some top
    → top.parent_ca_id ≡ none
    → root_ca_id id r ≡ some top.id
unfolding root_ca_id
root_ca_id-last_ca id r top = root_from-last_ca max_depth [] id r.cas top
