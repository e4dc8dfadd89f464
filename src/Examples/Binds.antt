-- ===== src/Examples/Binds.antt =====
-- Runs on the tree of a CA, and of a PC's ask to bind a certificate.
use cert_generator.Prelude.{
  find, text_eq, ◌&&◌, false, ◌<◌, ◌≡◌, ◌⊎◌, refl, true, none, some, [], ◌∷◌, ◌+◌, Text, codes, ok,
  All, leb, strip,
}
use cert_generator.Pal.Json.{
  text, array, item, no_items, object, field, no_fields, Fields, null, get_or,
}
use cert_generator.Pal.Tables.{Status, Bind}
use cert_generator.Pal.Store.{Store}
use cert_generator.Pal.Store.Binds.{bind_row, insert_bind, create_pal_bind}
use cert_generator.Pal.Patterns.{is_hex}
use cert_generator.Pal.Reported.{
  Library, parse_binds, parse_bind, one_line, words, request_note, normalize_serial, hex_of,
  windows_user,
}
use cert_generator.Pal.Held.{Held}
use cert_generator.Pal.Binds.{
  bind_mode, get_pal_cert_by_serial, tree_of, refused, store_binds, usable, create_binds,
}
use cert_generator.Pal.Binds.Allowed.{IsAsked, create_binds-IsAsked}
use cert_generator.Pal.Status.{
  Status as StatusAnswer, valid, unknown, tables_of, status_of, cert_status, find_serials,
  last_entry,
}
use cert_generator.Pal.Reported.{key_storage}
use cert_generator.Pal.Status.Answered.{IsTrue, cert_status-IsTrue}
use cert_generator.Pal.Presence.{mark_pal_presence, mark_row, set_pal_key_storage, set_storages}
use cert_generator.Certificates.{Registry}
use cert_generator.Certificates.Roots.{root_ca_id, root_from}
use cert_generator.Certificates.Tree.{has_member, ca_tree_ids, tree_from}
use cert_generator.Certificates.Tree.Least.{is_closed, ca_tree_ids_least}
use cert_generator.Examples.Names.{policy}
use cert_generator.Examples.Requests.{pc, known, certificate}

abbrev registry : Registry
registry = record {
  cas =
      record { id = 1; name = []; cert_pem = []; parent_ca_id = none }
      ∷ record { id = 2; name = []; cert_pem = []; parent_ca_id = some 1 }
      ∷ record { id = 3; name = []; cert_pem = []; parent_ca_id = some 2 }
      ∷ record { id = 4; name = []; cert_pem = []; parent_ca_id = none }
      ∷ [];
  certificates = [];
  cert_seq = 1;
  deleted_revocations = [];
}

tree_of_root : ca_tree_ids 1 registry ≡ 1 ∷ 2 ∷ 3 ∷ []
unfolding ca_tree_ids tree_from
tree_of_root = refl

ca_tree_ids_least_example :
    (has_member 1 (ca_tree_ids 1 registry) ≡ true)
    × (is_closed (λ id. has_member id (ca_tree_ids 1 registry)) registry.cas ≡ true)
    × All (λ id. leb id 3 ≡ true) (ca_tree_ids 1 registry)
ca_tree_ids_least_example = ca_tree_ids_least 1 registry (λ id. leb id 3) refl refl refl

abbrev lib : Library
lib = record { lower = λ s. s; is_printable = λ c. true }

abbrev sent : Fields
sent = field (codes "serial") (text (codes "01")) (
    field (codes "binds")
      (array (item (object (field (codes "target") (text (codes "rdp")) no_fields)) no_items))
      no_fields)

abbrev bound : Store
bound = record known {
  binds =
      bind_row 7 known.bind_seq (record {
        device_id = codes "d1";
        serial = codes "0x1";
        cert_name = codes "pc01.lan";
        target = codes "rdp";
        detail = [];
        status = Status.approved;
        windows_user = none;
        note = none;
      })
      ∷ [];
  bind_seq = known.bind_seq + 1;
}

binds_are_stored :
    create_binds lib 5 7 policy pc sent registry (certificate 1 ∷ []) known
    ≡ ok (bound, known.bind_seq ∷ [])
unfolding create_binds parse_binds parse_bind one_line words request_note normalize_serial hex_of
    is_hex windows_user usable refused bind_mode tree_of root_ca_id root_from ca_tree_ids tree_from
    get_pal_cert_by_serial store_binds create_pal_bind insert_bind bind_row strip
binds_are_stored = refl

create_binds-IsAsked_example :
    (cert : Held) × (serial : Text) × (normalize_serial lib (get_or (codes "serial") null sent)
      ≡ some serial)
    × (find
          (λ (c : Held). has_member c.ca_id (tree_of pc.ca_id registry) && text_eq c.serial serial)
          (certificate 1 ∷ [])
        ≡ some cert)
    × (cert.revoked ≡ false)
    × (5 < cert.not_after)
    × ((cert.template ≡ codes "web-server") ⊎ (cert.template ≡ codes "computer"))
    × All (λ (b : Bind). Unit {0} ⊎ IsAsked policy pc serial cert b) bound.binds
create_binds-IsAsked_example =
    create_binds-IsAsked lib (λ b. Unit {0}) 5 7 policy pc sent registry (certificate 1 ∷ []) known
      bound (known.bind_seq ∷ []) tt binds_are_stored

abbrev reported : Fields
reported =
    field (codes "serials") (array (item (text (codes "01")) (item (text (codes "x")) no_items)))
      no_fields

abbrev audited : StatusAnswer
audited = record {
  store = known;
  rows = record (certificate 1) { pal_checked_at = some 7 } ∷ [];
  answers = (codes "01", valid) ∷ (codes "x", unknown) ∷ [];
}

reported_is_answered :
    cert_status lib (λ s. s) 5 7 pc reported [] registry known (certificate 1 ∷ []) ≡ ok audited
unfolding cert_status status_of find_serials last_entry normalize_serial hex_of is_hex tree_of
    root_ca_id root_from ca_tree_ids tree_from mark_pal_presence mark_row set_pal_key_storage
    set_storages windows_user key_storage strip
reported_is_answered = refl

cert_status-IsTrue_example :
    All
      (IsTrue lib
        (λ s. s)
        5
        (tree_of pc.ca_id registry)
        (tables_of [] registry (certificate 1 ∷ [])))
      audited.answers
cert_status-IsTrue_example =
    cert_status-IsTrue lib (λ s. s) 5 7 pc reported [] registry known (certificate 1 ∷ []) audited
      reported_is_answered
