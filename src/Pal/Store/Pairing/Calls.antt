-- ===== src/Pal/Store/Pairing/Calls.antt =====
-- A pairing code connects at most one PC, whatever calls are made on the tables of app/db.py.
use cert_generator.Prelude.{
  ℕ, ◌≤◌, refl, some, List, arith, any, count_where, ◌==◌, Text, Bool-cases, inl, inr, Holds,
}
use cert_generator.Pal.Store.{
  Store, empty, has_device_id, is_connected, touch_pal_device, set_pal_remote_allowed,
  set_pal_device_policy, or_else,
}
use cert_generator.Pal.Store.Calls.{
  Call, create_code, revoke_code, enroll_device, touch_device, set_remote, set_policy, use_nonce,
  create_request, transition_request, create_bind, decide_bind, revoke_device, delete_device, apply,
  run, run_induction,
}
use cert_generator.Pal.Store.Rows.{
  NewRequest, use_pal_nonce, create_pal_request, transition_pal_request,
}
use cert_generator.Pal.Store.Binds.{NewBind, insert_bind, decide_pal_bind}
use cert_generator.Pal.Store.Ends.{revoke_pal_device}
use cert_generator.Pal.Store.Pairing.{
  came_by, IsPaired, IsPaired-devices-le, committed_first-Holds, committed-Holds,
  same_rows-IsPaired,
}
use cert_generator.Pal.Store.Pairing.Codes.{
  create_pal_code-IsPaired, revoke_pal_code-IsPaired, devices-IsPaired, delete_pal_device-IsPaired,
}
use cert_generator.Pal.Store.Pairing.Enroll.{enroll_pal_device-IsPaired}

module _ (k : Text) {s : Store} (p : IsPaired k s) where
  create_pal_request-IsPaired :
      (r : NewRequest) → Holds (λ t. IsPaired k t.0) (create_pal_request r s)
  unfolding create_pal_request
  create_pal_request-IsPaired r = elim (Bool-cases (any (has_device_id r.device_id) s.devices)) [
    | inl known ↦ rw known (same_rows-IsPaired k p refl refl)
    | inr unknown ↦ rw unknown tt
  ]

  insert_bind-IsPaired : (now : ℕ) (b : NewBind) → Holds (λ t. IsPaired k t.0) (insert_bind now b s)
  unfolding insert_bind
  insert_bind-IsPaired now b = elim (Bool-cases (any (has_device_id b.device_id) s.devices)) [
    | inl known ↦ rw known (same_rows-IsPaired k p refl refl)
    | inr unknown ↦ rw unknown tt
  ]

  revoke_pal_device-IsPaired : (now : ℕ) (id : Text) → IsPaired k (revoke_pal_device now id s).0
  unfolding revoke_pal_device
  revoke_pal_device-IsPaired now id =
      elim (Bool-cases (count_where (is_connected id) s.devices == 1)) [
        | inr unknown ↦ rw unknown p
        | inl one ↦ rw one (
            same_rows-IsPaired k
              (devices-IsPaired k p (is_connected id) (λ d. record d { revoked_at = some now })
                (λ d. refl))
              refl refl)
      ]

apply-IsPaired : (k : Text) (call : Call) (s : Store) → IsPaired k s → IsPaired k (apply call s)
unfolding apply touch_pal_device set_pal_remote_allowed set_pal_device_policy use_pal_nonce
    transition_pal_request decide_pal_bind
apply-IsPaired k (create_code i l c p j u e) s h =
    committed-Holds (IsPaired k) s _ h (create_pal_code-IsPaired k h i l c p j u e)
apply-IsPaired k (revoke_code now i) s h = revoke_pal_code-IsPaired k h now i
apply-IsPaired k (enroll_device now i d) s h =
    committed_first-Holds (IsPaired k) s _ h (enroll_pal_device-IsPaired k h now i d)
apply-IsPaired k (touch_device now i v via) s h =
    devices-IsPaired k h (has_device_id i)
      (λ d. record d {
        last_seen = some now;
        pal_version = or_else v d.pal_version;
        last_via = some via;
      })
      (λ d. refl)
apply-IsPaired k (set_remote i a) s h =
    devices-IsPaired k h (is_connected i) (λ d. record d { remote_allowed = a }) (λ d. refl)
apply-IsPaired k (set_policy i p) s h =
    devices-IsPaired k h (is_connected i) (λ d. record d { policy = p }) (λ d. refl)
apply-IsPaired k (use_nonce now ttl d n) s h = same_rows-IsPaired k h refl refl
apply-IsPaired k (create_request r) s h =
    committed_first-Holds (IsPaired k) s _ h (create_pal_request-IsPaired k h r)
apply-IsPaired k (transition_request now i from to cert reason) s h =
    same_rows-IsPaired k h refl refl
apply-IsPaired k (create_bind now b) s h =
    committed_first-Holds (IsPaired k) s _ h (insert_bind-IsPaired k h now b)
apply-IsPaired k (decide_bind now i status reason) s h = same_rows-IsPaired k h refl refl
apply-IsPaired k (revoke_device now i) s h = revoke_pal_device-IsPaired k h now i
apply-IsPaired k (delete_device i) s h = delete_pal_device-IsPaired k h i

-- However the calls on the tables come, from empty tables: no two devices came by one code.
pub devices_per_code-le :
    (cas : List ℕ) (calls : List Call) (k : Text)
    → count_where (came_by k) (run calls (record empty { cas = cas })).devices ≤ 1
devices_per_code-le cas calls k = IsPaired-devices-le k (
    run_induction (IsPaired k) (apply-IsPaired k) calls (record empty { cas = cas })
      (record { once = omega arith; used = omega arith }))
