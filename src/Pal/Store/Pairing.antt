-- ===== src/Pal/Store/Pairing.antt =====
-- What it is that a pairing code connected at most one PC: `pal_codes` and `pal_devices` of app/db.py.
pub mod Codes
pub mod Enroll
pub mod Calls
use cert_generator.Prelude.{
  ℕ, ◌+◌, ◌≤◌, ◌≡◌, refl, Bool, true, false, not, ◌&&◌, ◌||◌, Option, none, some, List, [], ◌∷◌,
  ◌++◌, map, arith, any, find, select, update_where, delete_where, count_where, ltb, ◌==◌,
  if◌then◌else◌, is_some, is_none, Text, text_eq, text_eq_iff, count-update, count-cong, count_mono,
  count-delete, count-split, count-append, count-none, count-any-false, find-holds, count-find_pos,
  Bool-cases, inl, inr, Option-cases, Holds, ==_iff,
}
use cert_generator.Pal.Tables.{Status, is_pending, Code, Device}
use cert_generator.Pal.Store.{
  Store, empty, has_id, is_unused, is_usable, use_code, code_row, create_pal_code, revoke_pal_code,
  NewDevice, new_row, has_device_id, is_connected, enroll_pal_device, touch_pal_device,
  set_pal_remote_allowed, set_pal_device_policy, or_else,
}
use cert_generator.Pal.Store.Calls.{
  Call, create_code, revoke_code, enroll_device, touch_device, set_remote, set_policy, use_nonce,
  create_request, transition_request, create_bind, decide_bind, revoke_device, delete_device,
  committed, committed_first, apply, run, run_induction,
}
use cert_generator.Pal.Store.Rows.{
  NewRequest, use_pal_nonce, create_pal_request, transition_pal_request,
}
use cert_generator.Pal.Store.Binds.{
  NewBind, insert_bind, create_pal_bind, is_waiting, decide_pal_bind,
}
use cert_generator.Pal.Store.Ends.{
  is_disconnected, forget_device, revoke_pal_device, delete_pal_device,
}

abbrev pub came_by : Text → Device → Bool
came_by k d = text_eq d.code_id k

abbrev pub is_used : Text → Code → Bool
is_used k c = has_id k c && is_some c.used_at

-- of one pairing code: it stands once, and no more devices came by it than uses are recorded
pub record IsPaired (k : Text) (s : Store) : Type 0 where
  pub once : count_where (has_id k) s.code_rows ≤ 1
  pub used : count_where (came_by k) s.devices ≤ count_where (is_used k) s.code_rows

pub IsPaired-devices-le :
    (k : Text) {s : Store} → IsPaired k s → count_where (came_by k) s.devices ≤ 1
IsPaired-devices-le k {s} p =
    omega
      (arith, p.once, p.used, count_mono (is_used k) (has_id k) (λ c h. ground arith) s.code_rows)

-- What a call that may raise keeps, its committed store keeps.
pub committed_first-Holds :
    (P : Store → Type 0) {A : Type 0} (s : Store) (o : Option (Store × A))
    → P s
    → Holds (λ r. P r.0) o
    → P (committed_first s o)
committed_first-Holds P s none h k = h
committed_first-Holds P s (some (t, a)) h k = k

pub committed-Holds :
    (P : Store → Type 0) (s : Store) (o : Option Store) → P s → Holds P o → P (committed s o)
committed-Holds P s none h k = h
committed-Holds P s (some t) h k = k

-- a call that touches neither the codes nor the devices
pub same_rows-IsPaired :
    (k : Text) {s t : Store}
    → IsPaired k s
    → t.code_rows ≡ s.code_rows
    → t.devices ≡ s.devices
    → IsPaired k t
same_rows-IsPaired k p codes devices = record {
  once = rw codes p.once;
  used = rw (codes, devices) p.used;
}
