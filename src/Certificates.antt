-- ===== src/Certificates.antt =====
-- The certificates of app/db.py and what revokes them. `created_at` and `_utc_now()` are the
-- argument `now`, in seconds; `none` is an `IntegrityError`, after which nothing is changed.
pub mod Calls
pub mod Trace
pub mod Revoked
pub mod Listed
pub mod Roots
pub mod Tree
use cert_generator.Prelude.{
  ℕ, zero, suc, ◌+◌, Bool, true, false, not, ◌&&◌, ◌||◌, Option, none, some, List, [], ◌∷◌, ◌++◌,
  map, any, find, select, update_where, delete_where, count_where, ltb, ◌==◌, if◌then◌else◌, Text,
  text_eq,
}

pub record Ca : Type 0 where
  pub id : ℕ
  pub name : Text
  pub cert_pem : Text
  pub parent_ca_id : Option ℕ

-- the columns that these functions read
pub record Certificate : Type 0 where
  pub id : ℕ
  pub ca_id : ℕ
  pub common_name : Text
  pub not_after : ℕ
  pub serial : Text
  pub cert_pem : Text
  pub revoked : Bool
  pub revoked_at : Option ℕ
  pub created_at : ℕ

pub record DeletedRevocation : Type 0 where
  pub ca_id : ℕ
  pub serial : Text
  pub revoked_at : ℕ
  pub not_after : ℕ

pub record Registry : Type 0 where
  pub cas : List Ca
  pub certificates : List Certificate
  pub cert_seq : ℕ  -- AUTOINCREMENT: the next id
  pub deleted_revocations : List DeletedRevocation

abbrev pub has_ca : ℕ → Ca → Bool
has_ca id ca = ca.id == id

abbrev pub has_serial : Text → Certificate → Bool
has_serial serial c = text_eq c.serial serial

abbrev pub has_cert_id : ℕ → Certificate → Bool
has_cert_id id c = c.id == id

-- the arguments of `save_cert` that these functions read
pub record NewCertificate : Type 0 where
  pub ca_id : ℕ
  pub common_name : Text
  pub not_after : ℕ
  pub serial : Text
  pub cert_pem : Text

abbrev pub certificate_row : ℕ → ℕ → NewCertificate → Certificate
certificate_row now id c = record {
  id = id;
  ca_id = c.ca_id;
  common_name = c.common_name;
  not_after = c.not_after;
  serial = c.serial;
  cert_pem = c.cert_pem;
  revoked = false;
  revoked_at = none;
  created_at = now;
}

unfoldable pub save_cert : ℕ → NewCertificate → Registry → Option (Registry × ℕ)
save_cert now c r =
    if any (has_serial c.serial) r.certificates || not (any (has_ca c.ca_id) r.cas)
    then none
    else (some (
      record r {
        certificates = r.certificates ++ certificate_row now r.cert_seq c ∷ [];
        cert_seq = suc r.cert_seq;
      },
      r.cert_seq,
    ))

abbrev pub is_revocable : ℕ → Certificate → Bool
is_revocable id c = has_cert_id id c && not c.revoked

unfoldable pub revoke_cert : ℕ → ℕ → Registry → Registry × Bool
revoke_cert now id r = (
  record r {
    certificates =
        update_where (is_revocable id)
          (λ (c : Certificate). record c { revoked = true; revoked_at = some now }) r.certificates;
  },
  ltb 0 (count_where (is_revocable id) r.certificates),
)

-- COALESCE(revoked_at, created_at)
abbrev pub revocation_time : Certificate → ℕ
revocation_time c = elim c.revoked_at [ none ↦ c.created_at | some t ↦ t ]

abbrev pub is_revoked : ℕ → Certificate → Bool
is_revoked ca c = c.ca_id == ca && c.revoked

abbrev pub is_deleted : ℕ → ℕ → DeletedRevocation → Bool
is_deleted now ca d = d.ca_id == ca && ltb now d.not_after

unfoldable pub list_revoked_serials : ℕ → ℕ → Registry → List (Text × ℕ)
list_revoked_serials now ca r =
    map (λ (c : Certificate). (c.serial, revocation_time c)) (select (is_revoked ca) r.certificates)
    ++ map (λ (d : DeletedRevocation). (d.serial, d.revoked_at))
        (select (is_deleted now ca) r.deleted_revocations)

unfoldable pub list_deleted_revocations : ℕ → ℕ → Registry → List Text
list_deleted_revocations now ca r =
    map (λ (d : DeletedRevocation). d.serial) (select (is_deleted now ca) r.deleted_revocations)

abbrev pub is_key : ℕ → Text → DeletedRevocation → Bool
is_key ca serial d = d.ca_id == ca && text_eq d.serial serial

-- INSERT OR IGNORE
abbrev pub insert_or_ignore : Certificate → List DeletedRevocation → List DeletedRevocation
insert_or_ignore c rows =
    if any (is_key c.ca_id c.serial) rows
    then rows
    else (rows
        ++ record {
          ca_id = c.ca_id;
          serial = c.serial;
          revoked_at = revocation_time c;
          not_after = c.not_after;
        }
          ∷ [])

abbrev pub keep_revocation : Option Certificate → List DeletedRevocation → List DeletedRevocation
keep_revocation none rows = rows
keep_revocation (some c) rows = if c.revoked then insert_or_ignore c rows else rows

unfoldable pub delete_cert : ℕ → Registry → Registry × Bool
delete_cert id r = (
  record r {
    certificates = delete_where (has_cert_id id) r.certificates;
    deleted_revocations =
        keep_revocation (find (has_cert_id id) r.certificates) r.deleted_revocations;
  },
  ltb 0 (count_where (has_cert_id id) r.certificates),
)

-- Chains of CAs ---------------------------------------------------------------------------------

-- the loop of `get_ca_named_chain`, with the steps that `max_depth` leaves
unfoldable pub chain_from : ℕ → List ℕ → Option ℕ → List Ca → List Ca
chain_from zero seen current cas = []
chain_from (suc depth) seen none cas = []
chain_from (suc depth) seen (some id) cas =
    if any (λ s. s == id) seen then [] else elim (find (has_ca id) cas) [
      | none ↦ []
      | some ca ↦ ca ∷ chain_from depth (id ∷ seen) ca.parent_ca_id cas
    ]

abbrev pub max_depth : ℕ
max_depth = 16

unfoldable pub get_ca_named_chain : ℕ → Registry → List (Text × Text)
unfolding chain_from
get_ca_named_chain id r =
    map (λ (ca : Ca). (ca.name, ca.cert_pem)) (chain_from max_depth [] (some id) r.cas)

unfoldable pub get_ca_cert_chain : ℕ → Registry → List Text
unfolding chain_from
get_ca_cert_chain id r = map (λ (ca : Ca). ca.cert_pem) (chain_from max_depth [] (some id) r.cas)
