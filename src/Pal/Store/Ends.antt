-- ===== src/Pal/Store/Ends.antt =====
-- `revoke_pal_device` and `delete_pal_device` of app/db.py: a PC is disconnected and forgotten.
use cert_generator.Prelude.{
  ℕ, Bool, true, false, ◌&&◌, none, some, find, update_where, delete_where, count_where, ◌==◌,
  if◌then◌else◌, is_some, Text, text_eq, codes,
}
use cert_generator.Pal.Tables.{Status, is_pending, Device, Request, Bind, Nonce}
use cert_generator.Pal.Store.{Store, has_id, has_device_id, is_connected}

abbrev pub asked_by : Text → Request → Bool
asked_by device r = text_eq r.device_id device && is_pending r.status

abbrev pub bind_asked_by : Text → Bind → Bool
bind_asked_by device b = text_eq b.device_id device && is_pending b.status

abbrev pub deny_request : ℕ → Request → Request
deny_request now r = record r {
  status = Status.denied;
  reason = codes "Device revoked";
  decided_at = some now;
}

abbrev pub deny_bind : ℕ → Bind → Bind
deny_bind now b = record b {
  status = Status.denied;
  reason = codes "Device revoked";
  decided_at = some now;
}

unfoldable pub revoke_pal_device : ℕ → Text → Store → Store × Bool
revoke_pal_device now id s =
    if count_where (is_connected id) s.devices == 1
    then (
      record s {
        devices =
            update_where (is_connected id) (λ d. record d { revoked_at = some now }) s.devices;
        requests = update_where (asked_by id) (deny_request now) s.requests;
        binds = update_where (bind_asked_by id) (deny_bind now) s.binds;
      },
      true,
    )
    else (s, false)

unfoldable pub forget_device : Text → Store → Device → Store
forget_device id s d = record s {
  requests = delete_where (λ (r : Request). text_eq r.device_id id) s.requests;
  binds = delete_where (λ (b : Bind). text_eq b.device_id id) s.binds;
  nonces = delete_where (λ (n : Nonce). text_eq n.device_id id) s.nonces;
  devices = delete_where (has_device_id id) s.devices;
  code_rows = delete_where (has_id d.code_id) s.code_rows;
}

abbrev pub is_disconnected : Text → Device → Bool
is_disconnected id d = has_device_id id d && is_some d.revoked_at

unfoldable pub delete_pal_device : Text → Store → Store × Bool
unfolding forget_device
delete_pal_device id s = elim (find (is_disconnected id) s.devices) [
  | none ↦ (s, false)
  | some d ↦ (forget_device id s d, true)
]
