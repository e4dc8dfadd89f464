-- ===== src/Certificates/Tree.antt =====
-- The CAs below a CA: `ca_tree_ids` of app/db.py, as a set of ids. SQLite stops when a round of the
-- recursive query finds no new id; here the number of CAs bounds the rounds.
pub mod Least
use cert_generator.Prelude.{
  ℕ, zero, suc, Bool, false, not, ◌&&◌, none, some, List, [], ◌∷◌, ◌++◌, map, any, select, length,
  is_empty, ◌==◌, if◌then◌else◌,
}
use cert_generator.Certificates.{Ca, Registry, has_ca}

abbrev pub has_member : ℕ → List ℕ → Bool
has_member id ids = any (λ i. i == id) ids

abbrev pub is_under : List ℕ → Ca → Bool
is_under ids ca = elim ca.parent_ca_id [ none ↦ false | some parent ↦ has_member parent ids ]

-- a row that the next round adds
abbrev pub is_new : List ℕ → Ca → Bool
is_new ids ca = is_under ids ca && not (has_member ca.id ids)

abbrev pub ids_of : List Ca → List ℕ
ids_of cas = map (λ (ca : Ca). ca.id) cas

unfoldable pub tree_from : ℕ → List ℕ → List Ca → List ℕ
tree_from zero ids cas = ids
tree_from (suc rounds) ids cas =
    let rest = tree_from rounds (ids ++ ids_of (select (is_new ids) cas)) cas in
    if is_empty (select (is_new ids) cas) then ids else rest

unfoldable pub ca_tree_ids : ℕ → Registry → List ℕ
unfolding tree_from
ca_tree_ids root r = tree_from (length r.cas) (ids_of (select (has_ca root) r.cas)) r.cas
