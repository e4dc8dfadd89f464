-- ===== src/Pal/Issue/Once/Quiet.antt =====
-- What the calls of app/db.py that other handlers make do to the right to sign a request.
use cert_generator.Prelude.{
  ℕ, ◌+◌, ◌≤◌, ◌≡◌, refl, Bool, not, ◌&&◌, Option, [], ◌∷◌, arith, delete_where, count_where, Text,
  text_eq, count-update, count_mono, count-delete, count-append,
}
use cert_generator.Pal.Tables.{Status, Request}
use cert_generator.Pal.Store.{
  Store, create_pal_code, revoke_pal_code, enroll_pal_device, touch_pal_device,
  set_pal_remote_allowed, set_pal_device_policy,
}
use cert_generator.Pal.Store.Rows.{
  in_status, transition_pal_request, NewRequest, request_row, create_pal_request, use_pal_nonce,
}
use cert_generator.Pal.Store.Binds.{insert_bind, decide_pal_bind}
use cert_generator.Pal.Store.Ends.{deny_request, asked_by, revoke_pal_device, delete_pal_device}
use cert_generator.Pal.Store.Calls.{
  Call, create_code, revoke_code, enroll_device, touch_device, set_remote, set_policy, use_nonce,
  create_request, transition_request, create_bind, decide_bind, revoke_device, delete_device, apply,
}
use cert_generator.Pal.Issue.{IsOther}
use cert_generator.Pal.Issue.Once.{pending, issuing, unborn, count-transition}

-- What another call does to one request id: no right to sign it appears.
pub record IsQuiet (id : ℕ) (s t : Store) : Type 0 where
  pub right : pending id t + unborn id t ≤ pending id s + unborn id s
  pub held : issuing id t ≤ issuing id s

module _ (j : ℕ) (s : Store) where
  same_requests-IsQuiet :
      (t : Store) → t.requests ≡ s.requests → t.request_seq ≡ s.request_seq → IsQuiet j s t
  same_requests-IsQuiet t rows seq = record {
    right = rw (rows, seq) (omega arith);
    held = rw rows (omega arith);
  }

  create_pal_request-IsQuiet : (r : NewRequest) → IsQuiet j s (apply (create_request r) s)
  unfolding apply create_pal_request
  create_pal_request-IsQuiet r = record {
    right = ground (
      arith,
      count-append (in_status j Status.pending) s.requests (request_row s.request_seq r ∷ []),
    );
    held = ground (
      arith,
      count-append (in_status j Status.issuing) s.requests (request_row s.request_seq r ∷ []),
    );
  }

  revoke_pal_device-IsQuiet : (now : ℕ) (d : Text) → IsQuiet j s (apply (revoke_device now d) s)
  unfolding apply revoke_pal_device
  revoke_pal_device-IsQuiet now d =
      let left = λ (r : Request). in_status j Status.pending r && not (asked_by d r) in
      record {
        right = ground (
          arith,
          count-update (in_status j Status.pending) (asked_by d) left (deny_request now)
              (λ r. ground arith) s.requests,
          count_mono left (in_status j Status.pending) (λ r h. ground arith) s.requests,
        );
        held = ground (
          arith,
          count-update (in_status j Status.issuing) (asked_by d) (in_status j Status.issuing)
              (deny_request now) (λ r. ground arith) s.requests,
        );
      }

  delete_pal_device-IsQuiet : (d : Text) → IsQuiet j s (apply (delete_device d) s)
  unfolding apply delete_pal_device
  delete_pal_device-IsQuiet d =
      let own = λ (r : Request). text_eq r.device_id d in
      let shrinks : (p : Request → Bool)
          → count_where p (delete_where own s.requests) ≤ count_where p s.requests =
        λ p.
          rw (count-delete p own s.requests)
            (count_mono (λ (r : Request). p r && not (own r)) p (λ r h. ground arith) s.requests) in
      record {
        right = ground (arith, shrinks (in_status j Status.pending));
        held = ground (arith, shrinks (in_status j Status.issuing));
      }

  deny-IsQuiet :
      (now id : ℕ) (cert : Option ℕ) (reason : Text)
      → IsQuiet j s (transition_pal_request now id Status.pending Status.denied cert reason s).0
  unfolding transition_pal_request
  deny-IsQuiet now id cert reason =
      let left =
        λ (r : Request). in_status j Status.pending r && not (in_status id Status.pending r) in
      record {
        right = omega (
          arith,
          count-transition now id Status.pending Status.denied cert reason s j left Status.pending
              (λ r. ground arith),
          count_mono left (in_status j Status.pending) (λ r h. ground arith) s.requests,
        );
        held = omega (
          arith,
          count-transition now id Status.pending Status.denied cert reason s j
              (in_status j Status.issuing) Status.issuing (λ r. ground arith),
        );
      }

pub apply-IsQuiet : (j : ℕ) (s : Store) (call : Call) → IsOther call → IsQuiet j s (apply call s)
unfolding apply create_pal_code revoke_pal_code enroll_pal_device touch_pal_device
    set_pal_remote_allowed set_pal_device_policy use_pal_nonce insert_bind decide_pal_bind
apply-IsQuiet j s (create_request r) o = create_pal_request-IsQuiet j s r
apply-IsQuiet j s (transition_request now id from to cert reason) o =
    rw (o.0, o.1) (deny-IsQuiet j s now id cert reason)
apply-IsQuiet j s (revoke_device now d) o = revoke_pal_device-IsQuiet j s now d
apply-IsQuiet j s (delete_device d) o = delete_pal_device-IsQuiet j s d
apply-IsQuiet j s (create_code i l c p k u e) o =
    same_requests-IsQuiet j s _ (ground arith) (ground arith)
apply-IsQuiet j s (revoke_code now i) o = same_requests-IsQuiet j s _ refl refl
apply-IsQuiet j s (enroll_device now i d) o =
    same_requests-IsQuiet j s _ (ground arith) (ground arith)
apply-IsQuiet j s (touch_device now i v via) o = same_requests-IsQuiet j s _ refl refl
apply-IsQuiet j s (set_remote i a) o = same_requests-IsQuiet j s _ refl refl
apply-IsQuiet j s (set_policy i p) o = same_requests-IsQuiet j s _ refl refl
apply-IsQuiet j s (use_nonce now ttl d n) o = same_requests-IsQuiet j s _ refl refl
apply-IsQuiet j s (create_bind now b) o = same_requests-IsQuiet j s _ (ground arith) (ground arith)
apply-IsQuiet j s (decide_bind now i status reason) o = same_requests-IsQuiet j s _ refl refl
