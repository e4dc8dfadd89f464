-- ===== src/Pal/Store.antt =====
-- The pal_* tables of app/db.py and the functions that read and write them. Each function is one
-- transaction; `_utc_now()` is the argument `now`. `none` is an `IntegrityError` of SQLite (a
-- primary or foreign key), after which the transaction is rolled back.
pub mod Rows
pub mod Binds
pub mod Ends
pub mod Calls
pub mod Pairing
use cert_generator.Prelude.{
  ℕ, suc, ◌+◌, Bool, true, false, not, ◌&&◌, ◌||◌, Option, none, some, List, [], ◌∷◌, ◌++◌, map,
  any, is_empty, find, select, update_where, delete_where, count_where, ltb, ◌==◌, if◌then◌else◌,
  is_some, is_none, Text, text_eq, codes, split_on,
}
use cert_generator.Pal.Tables.{Status, is_pending, same_status, Code, Device, Request, Bind, Nonce}

pub record Store : Type 0 where
  pub cas : List ℕ  -- the ids of certificate_authorities, which foreign keys name
  pub code_rows : List Code
  pub devices : List Device
  pub requests : List Request
  pub request_seq : ℕ  -- AUTOINCREMENT: the next id, which was never used before
  pub binds : List Bind
  pub bind_seq : ℕ
  pub nonces : List Nonce

abbrev pub empty : Store
empty = record {
  cas = [];
  code_rows = [];
  devices = [];
  requests = [];
  request_seq = 1;
  binds = [];
  bind_seq = 1;
  nonces = [];
}

abbrev pub or_else {ℓ} : {A : Type ℓ} → Option A → Option A → Option A
or_else none b = b
or_else (some a) b = some a

-- Pairing codes ---------------------------------------------------------------------------------

abbrev pub has_id : Text → Code → Bool
has_id id c = text_eq c.id id

abbrev pub is_unused : Code → Bool
is_unused c = is_none c.used_at && is_none c.revoked_at

unfoldable pub code_row : Text → Text → ℕ → Text → Text → Text → ℕ → Code
code_row id label ca_id policy key server_url expires_at = record {
  id = id;
  label = label;
  ca_id = ca_id;
  policy = policy;
  key = key;
  server_url = server_url;
  expires_at = expires_at;
  used_at = none;
  device_id = none;
  revoked_at = none;
}

-- `sealed` is what `_maybe_encrypt(key)` returned
unfoldable pub create_pal_code : Text → Text → ℕ → Text → Text → Text → ℕ → Store → Option Store
unfolding code_row
create_pal_code id label ca_id policy sealed server_url expires_at s =
    if any (has_id id) s.code_rows || not (any (λ ca. ca == ca_id) s.cas)
    then none
    else (some (record s {
      code_rows = s.code_rows ++ code_row id label ca_id policy sealed server_url expires_at ∷ [];
    }))

unfoldable pub get_pal_code : Text → Store → Option Code
get_pal_code id s = find (has_id id) s.code_rows

unfoldable pub revoke_pal_code : ℕ → Text → Store → Store × Bool
revoke_pal_code now id s =
    let chosen = λ (c : Code). has_id id c && is_unused c in
    (
      record s {
        code_rows = update_where chosen (λ c. record c { revoked_at = some now }) s.code_rows;
      },
      ltb 0 (count_where chosen s.code_rows),
    )

-- the `device` dict that `enroll` passes
pub record NewDevice : Type 0 where
  pub id : Text
  pub hostname : Text
  pub fqdn : Text
  pub os : Text
  pub public_key : Text
  pub remote_allowed : Bool
  pub key_storage : Option Text

unfoldable pub first_label : Text → Text
first_label fqdn = elim (split_on b'.' fqdn) [ [] ↦ [] | part ∷ parts ↦ part ]

unfoldable pub new_row : ℕ → NewDevice → Code → Device
unfolding first_label
new_row now d c = record {
  id = d.id;
  label = if is_empty d.hostname then first_label d.fqdn else d.hostname;
  hostname = d.hostname;
  fqdn = d.fqdn;
  os = d.os;
  public_key = d.public_key;
  ca_id = c.ca_id;
  policy = c.policy;
  code_id = c.id;
  last_seen = some now;
  revoked_at = none;
  pal_version = none;
  remote_allowed = d.remote_allowed;
  last_via = none;
  key_storage = d.key_storage;
}

abbrev pub has_device_id : Text → Device → Bool
has_device_id id d = text_eq d.id id

-- the WHERE of the UPDATE: the code is not used, not revoked and not expired
abbrev pub is_usable : ℕ → Text → Code → Bool
is_usable now id c = has_id id c && is_unused c && ltb now c.expires_at

abbrev pub use_code : ℕ → Text → Code → Code
use_code now device c = record c { used_at = some now; device_id = some device }

unfoldable pub enroll_pal_device : ℕ → Text → NewDevice → Store → Option (Store × Bool)
unfolding new_row
enroll_pal_device now code_id d s =
    let used = update_where (is_usable now code_id) (use_code now d.id) s.code_rows in
    if not (count_where (is_usable now code_id) s.code_rows == 1)
    then some (s, false)
    else if any (has_device_id d.id) s.devices
    then none
    else (some (
      record s {
        code_rows = used;
        devices = s.devices ++ map (new_row now d) (select (has_id code_id) used);
      },
      true,
    ))

-- Devices ---------------------------------------------------------------------------------------

unfoldable pub get_pal_device : Text → Store → Option Device
get_pal_device id s = find (has_device_id id) s.devices

-- connected: known and not disconnected
abbrev pub is_connected : Text → Device → Bool
is_connected id d = has_device_id id d && is_none d.revoked_at

unfoldable pub touch_pal_device : ℕ → Text → Option Text → Text → Store → Store
touch_pal_device now id version via s = record s {
  devices =
      update_where (has_device_id id)
        (λ d. record d {
          last_seen = some now;
          pal_version = or_else version d.pal_version;
          last_via = some via;
        })
        s.devices;
}

unfoldable pub set_pal_remote_allowed : Text → Bool → Store → Store × Bool
set_pal_remote_allowed id allowed s = (
  record s {
    devices = update_where (is_connected id) (λ d. record d { remote_allowed = allowed }) s.devices;
  },
  count_where (is_connected id) s.devices == 1,
)

-- in the order of the rows; the ORDER BY id of the source does not change which keys are listed
unfoldable pub list_pal_remote_keys : Store → List (Text × Text)
list_pal_remote_keys s =
    map (λ d. (d.id, d.public_key))
      (select (λ d. d.remote_allowed && is_none d.revoked_at) s.devices)

unfoldable pub set_pal_device_policy : Text → Text → Store → Store × Bool
set_pal_device_policy id policy s = (
  record s {
    devices = update_where (is_connected id) (λ d. record d { policy = policy }) s.devices;
  },
  ltb 0 (count_where (is_connected id) s.devices),
)
