-- ===== src/Pal/Presence.antt =====
-- What a PC's store audit tells of its certificates: `mark_pal_presence`, `set_pal_key_storage` and
-- `set_pal_cert_binds` of app/db.py. Each is one transaction; its loop over the rows, which updates
-- each by its id, is one pass over the table.
pub mod Accounts
use cert_generator.Prelude.{
  ℕ, Bool, true, false, not, ◌&&◌, ◌||◌, Option, none, some, List, [], ◌∷◌, map, any, find, select,
  update_where, if◌then◌else◌, is_empty, is_none, Text, codes, text_eq,
}
use cert_generator.Pal.Tables.{Device}
use cert_generator.Pal.Store.{Store, has_device_id}
use cert_generator.Pal.Held.{Held, is_of}

-- what a text that may be missing is to Python's `if`
abbrev pub is_truthy : Option Text → Bool
is_truthy none = false
is_truthy (some t) = not (is_empty t)

-- `USER_TEMPLATES`
abbrev pub is_user_template : Held → Bool
is_user_template c = text_eq c.template (codes "user") || text_eq c.template (codes "code-signing")

-- an audit: when, the serials it found, and the Windows account that it ran as
pub record Audit : Type 0 where
  pub at : ℕ
  pub serials : List Text
  pub account : Option Text

abbrev pub is_found : Audit → Held → Bool
is_found audit c = any (text_eq c.serial) audit.serials

-- the UPDATE of `pal_present` and `pal_checked_at`
abbrev pub seen : Audit → Held → Held
seen audit c = record c { pal_present = some (is_found audit c); pal_checked_at = some audit.at }

-- `row["pal_present"] == 1`
abbrev was_present : Held → Bool
was_present c = elim c.pal_present [ none ↦ false | some b ↦ b ]

-- the UPDATE of `pal_user`
abbrev pub claimed : Audit → Held → Held
claimed audit c =
    if is_found audit c && not (is_truthy c.pal_user) && is_truthy audit.account
    then record c { pal_user = audit.account }
    else c

-- `casefold` is `str.casefold`
module _ (casefold : Text → Text) where
  abbrev pub same_account : Option Text → Option Text → Bool
  same_account (some owner) (some account) =
      is_truthy (some owner)
      && is_truthy (some account)
      && text_eq (casefold owner) (casefold account)
  same_account _ _ = false

  -- the `continue` of the loop
  abbrev pub is_elsewhere : Audit → Held → Bool
  is_elsewhere audit c =
      is_user_template c && not (is_found audit c) && not (same_account c.pal_user audit.account)

  -- the body of the loop
  unfoldable pub mark_row : Audit → Held → Held
  mark_row audit c =
      if is_user_template c
      then (if is_elsewhere audit c then c else seen audit (claimed audit c))
      else seen audit c

  -- a row of the loop that goes to `gone`
  abbrev pub is_missed : Audit → Held → Bool
  is_missed audit c =
      not (is_elsewhere audit c) && was_present c && not (is_found audit c) && not c.revoked

  unfoldable pub mark_pal_presence : Text → Audit → List Held → List Held × List Held
  mark_pal_presence device audit rows = (
    map (λ c. if is_of device c then mark_row audit c else c) rows,
    select (is_missed audit) (select (is_of device) rows),
  )

-- The other columns ------------------------------------------------------------------------------

abbrev has_own_serial : Text → Text → Held → Bool
has_own_serial device serial c = is_of device c && text_eq c.serial serial

-- the loop over `by_serial`
unfoldable pub set_storages : Text → List (Text × Text) → List Held → List Held
set_storages device [] rows = rows
set_storages device ((serial, storage) ∷ by_serial) rows = set_storages device by_serial (
    update_where (has_own_serial device serial)
      (λ (c : Held). record c { pal_key_storage = some storage }) rows)

unfoldable pub set_pal_key_storage :
    Text → Option Text → List (Text × Text) → Store → List Held → Store × List Held
unfolding set_storages
set_pal_key_storage device device_key by_serial s rows = (
  if is_truthy device_key
      then record s {
        devices =
            update_where (has_device_id device)
              (λ (d : Device). record d { key_storage = device_key }) s.devices;
      }
      else s,
  set_storages device by_serial rows,
)

-- `json.dumps(uses) if uses else None`
abbrev uses_of : Option (Text × List Text) → Option (List Text)
uses_of none = none
uses_of (some (serial, [])) = none
uses_of (some (serial, label ∷ uses)) = some (label ∷ uses)

unfoldable pub set_pal_cert_binds : Text → List (Text × List Text) → List Held → List Held
set_pal_cert_binds device by_serial rows =
    map
      (λ (c : Held).
        if is_of device c
        then record c {
          pal_binds =
              uses_of (find (λ (item : Text × List Text). text_eq item.0 c.serial) by_serial);
        }
        else c)
      rows
