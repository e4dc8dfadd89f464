-- ===== src/Pal/Store/Binds.antt =====
-- The functions of app/db.py on binds: the roles a PC asks to put a certificate to.
use cert_generator.Prelude.{
  ℕ, suc, Bool, not, ◌&&◌, Option, none, some, [], ◌∷◌, ◌++◌, any, find, update_where, delete_where,
  count_where, ltb, ◌==◌, if◌then◌else◌, Text, text_eq,
}
use cert_generator.Pal.Tables.{Status, is_pending, Bind}
use cert_generator.Pal.Store.{Store, has_device_id}

-- the arguments of `create_pal_bind`
pub record NewBind : Type 0 where
  pub device_id : Text
  pub serial : Text
  pub cert_name : Text
  pub target : Text
  pub detail : Text
  pub status : Status
  pub windows_user : Option Text
  pub note : Option Text

-- the same certificate and role on the same PC
abbrev pub is_role : Text → Text → Text → Bind → Bool
is_role device serial target b =
    text_eq b.device_id device && text_eq b.serial serial && text_eq b.target target

abbrev pub is_waiting : Text → Text → Text → Bind → Bool
is_waiting device serial target b = is_role device serial target b && is_pending b.status

abbrev pub is_decided : Text → Text → Text → Bind → Bool
is_decided device serial target b = is_role device serial target b && not (is_pending b.status)

unfoldable pub bind_row : ℕ → ℕ → NewBind → Bind
bind_row now id b = record {
  id = id;
  device_id = b.device_id;
  serial = b.serial;
  cert_name = b.cert_name;
  target = b.target;
  detail = b.detail;
  status = b.status;
  windows_user = b.windows_user;
  note = b.note;
  reason = [];
  decided_at = if is_pending b.status then none else some now;
}

unfoldable pub insert_bind : ℕ → NewBind → Store → Option (Store × ℕ)
unfolding bind_row
insert_bind now b s =
    if any (has_device_id b.device_id) s.devices
    then (some (
      record s {
        binds =
            delete_where (is_decided b.device_id b.serial b.target) s.binds
            ++ bind_row now s.bind_seq b ∷ [];
        bind_seq = suc s.bind_seq;
      },
      s.bind_seq,
    ))
    else none

-- Without another call between its look-up and its transaction: two calls at once can both find no
-- row that waits, and each insert one.
unfoldable pub create_pal_bind : ℕ → NewBind → Store → Option (Store × ℕ)
create_pal_bind now b s =
    if is_pending b.status
    then (elim (find (is_waiting b.device_id b.serial b.target) s.binds) [
      | some row ↦ some (s, row.id)
      | none ↦ insert_bind now b s
    ])
    else insert_bind now b s

unfoldable pub get_pal_bind : ℕ → Store → Option Bind
get_pal_bind id s = find (λ b. b.id == id) s.binds

abbrev pub waits : ℕ → Bind → Bool
waits id b = b.id == id && is_pending b.status

unfoldable pub decide_pal_bind : ℕ → ℕ → Status → Text → Store → Store × Bool
decide_pal_bind now id status reason s = (
  record s {
    binds =
        update_where (waits id)
          (λ b. record b { status = status; reason = reason; decided_at = some now }) s.binds;
  },
  ltb 0 (count_where (waits id) s.binds),
)
