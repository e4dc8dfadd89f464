-- ===== src/Pal/Status.antt =====
-- `find_serials` of app/db.py and `cert_status` of app/routes/pal.py: a PC reports the certificates
-- that it found in its stores, and asks for their status.
pub mod Answered
use cert_generator.Prelude.{
  ℕ, Bool, true, false, not, ◌&&◌, ◌||◌, Option, none, some, List, [], ◌∷◌, ◌++◌, map, any, select,
  take, reverse, length, leb, ltb, if◌then◌else◌, is_empty, Text, codes, text_eq, Result, ok,
  refuse, refuse_if, ◌>>=◌, ◌>>◌,
}
use cert_generator.Pal.Json.{
  Json, null, text, array, object, items, Items, no_fields, Fields, field, get_or,
}
use cert_generator.Pal.Tables.{Device}
use cert_generator.Pal.Store.{Store}
use cert_generator.Pal.Names.{member}
use cert_generator.Pal.Reported.{Library, normalize_serial, key_storage, windows_user}
use cert_generator.Pal.Held.{Held}
use cert_generator.Pal.Binds.{tree_of}
use cert_generator.Pal.Presence.{Audit, mark_pal_presence, set_pal_key_storage, set_pal_cert_binds}
use cert_generator.Certificates.{Registry, DeletedRevocation}
use cert_generator.Certificates.Tree.{has_member}

-- the columns of `certificate_authorities` that `find_serials` reads
pub record CaCertificate : Type 0 where
  pub id : ℕ
  pub serial : Text
  pub not_after : ℕ

pub record Entry : Type 0 where
  pub not_after : ℕ
  pub revoked : Bool

-- the rows that the three queries look in
pub record Tables : Type 0 where
  pub rows : List Held
  pub deleted : List DeletedRevocation
  pub cas : List CaCertificate

abbrev pub tables_of : List CaCertificate → Registry → List Held → Tables
tables_of ca_rows r rows = record { rows = rows; deleted = r.deleted_revocations; cas = ca_rows }

abbrev pub is_sought : List ℕ → List Text → ℕ → Text → Bool
is_sought ca_ids serials ca serial = has_member ca ca_ids && member serial serials

-- the assignments to `found`, in their order
unfoldable pub find_serials : List ℕ → List Text → Tables → List (Text × Entry)
find_serials ca_ids serials t =
    if is_empty ca_ids || is_empty serials
    then []
    else (map (λ (c : Held). (c.serial, record { not_after = c.not_after; revoked = c.revoked }))
          (select (λ (c : Held). is_sought ca_ids serials c.ca_id c.serial) t.rows)
        ++ map
            (λ (d : DeletedRevocation).
              (d.serial, record { not_after = d.not_after; revoked = true }))
            (select (λ (d : DeletedRevocation). is_sought ca_ids serials d.ca_id d.serial)
              t.deleted)
        ++ map
            (λ (ca : CaCertificate).
              (ca.serial, record { not_after = ca.not_after; revoked = false }))
            (select (λ (ca : CaCertificate). is_sought ca_ids serials ca.id ca.serial) t.cas))

-- `found.get(serial)`: the last assignment counts
unfoldable pub last_entry : Text → List (Text × Entry) → Option Entry
last_entry serial [] = none
last_entry serial ((key, e) ∷ found) = elim (last_entry serial found) [
  | some later ↦ some later
  | none ↦ if text_eq key serial then some e else none
]

pub data Answer : Type 0 where
  unknown revoked expired valid : Answer

abbrev pub answer_of : ℕ → Option Entry → Answer
answer_of now none = unknown
answer_of now (some e) =
    if e.revoked then revoked else if leb e.not_after now then expired else valid

abbrev pub entry_of : List (Text × Entry) → Option Text → Option Entry
entry_of found none = none
entry_of found (some serial) = last_entry serial found

abbrev pub max_serials : ℕ
max_serials = 500

abbrev pub texts_of : List Json → List Text
texts_of [] = []
texts_of (text t ∷ js) = t ∷ texts_of js
texts_of (j ∷ js) = texts_of js

abbrev pairs : Fields → List (Text × Json)
pairs no_fields = []
pairs (field key j fs) = (key, j) ∷ pairs fs

abbrev pairs_in : Json → List (Text × Json)
pairs_in (object fs) = take max_serials (pairs fs)
pairs_in _ = []

abbrev somes : List (Option Text) → List Text
somes [] = []
somes (none ∷ os) = somes os
somes (some t ∷ os) = t ∷ somes os

-- `[u[:80] for u in labels if isinstance(u, str)][:20]`
abbrev labels_of : List Json → List Text
labels_of js = take 20 (map (take 80) (texts_of js))

pub data StatusRefusal : Type 0 where
  bad_serials : StatusRefusal

pub record Status : Type 0 where
  pub store : Store
  pub rows : List Held
  pub answers : List (Text × Answer)

-- `casefold` is `str.casefold`
module _ (lib : Library) (casefold : Text → Text) where
  abbrev pub normalized : Text → Option Text
  normalized raw = normalize_serial lib (text raw)

  abbrev storages : List (Text × Json) → List (Text × Text)
  storages [] = []
  storages ((raw, j) ∷ keys) = elim (normalized raw) [
    | none ↦ storages keys
    | some serial ↦ elim (key_storage j) [
      | none ↦ storages keys
      | some storage ↦ (serial, storage) ∷ storages keys
    ]
  ]

  abbrev binds_at : Text → Json → List (Text × List Text) → List (Text × List Text)
  binds_at raw (array js) rest = elim (normalized raw) [
    | none ↦ rest
    | some serial ↦ (serial, labels_of (items js)) ∷ rest
  ]
  binds_at raw _ rest = rest

  abbrev binds : List (Text × Json) → List (Text × List Text)
  binds [] = []
  binds ((raw, j) ∷ uses) = binds_at raw j (binds uses)

  -- `if isinstance(uses, dict)`: of equal serials the last counts
  abbrev record_binds : Text → Json → List Held → List Held
  record_binds device (object fs) rows =
      set_pal_cert_binds device (reverse (binds (pairs_in (object fs)))) rows
  record_binds device _ rows = rows

  abbrev pub answers_of : ℕ → List ℕ → List Text → Tables → List (Text × Answer)
  answers_of now tree raws t =
      map
        (λ raw. (
          raw,
          answer_of now
              (entry_of (find_serials tree (somes (map normalized raws)) t) (normalized raw)),
        ))
        raws

  abbrev pub recorded :
      ℕ
      → ℕ
      → Device
      → Fields
      → List ℕ
      → List Text
      → List CaCertificate
      → Registry
      → Store
      → List Held
      → Status
  recorded now at device sent tree raws ca_rows r s rows =
      let audit : Audit = record {
        at = at;
        serials = somes (map normalized raws);
        account = windows_user (get_or (codes "windows_user") null sent);
      } in
      let marked = (mark_pal_presence casefold device.id audit rows).0 in
      let kept =
        set_pal_key_storage device.id (key_storage (get_or (codes "device_key_storage") null sent))
          (storages (pairs_in (get_or (codes "keys") null sent))) s marked in
      record {
        store = kept.0;
        rows = record_binds device.id (get_or (codes "binds") null sent) kept.1;
        answers = answers_of now tree raws (tables_of ca_rows r rows);
      }

  -- below the check of `serials`
  unfoldable pub status_of :
      ℕ
      → ℕ
      → Device
      → Fields
      → List CaCertificate
      → Registry
      → Store
      → List Held
      → Json
      → Result StatusRefusal Status
  unfolding find_serials last_entry
  status_of now at device sent ca_rows r s rows (array js) =
      refuse_if (ltb max_serials (length (items js))) bad_serials
      >> ok (
          recorded now at device sent (tree_of device.ca_id r) (texts_of (items js)) ca_rows r s
            rows)
  status_of now at device sent ca_rows r s rows _ = refuse bad_serials

  -- `now` is the clock in the unit of the certificates' times, `at` in that of the tables
  unfoldable pub cert_status :
      ℕ
      → ℕ
      → Device
      → Fields
      → List CaCertificate
      → Registry
      → Store
      → List Held
      → Result StatusRefusal Status
  cert_status now at device sent ca_rows r s rows =
      status_of now at device sent ca_rows r s rows (get_or (codes "serials") null sent)
