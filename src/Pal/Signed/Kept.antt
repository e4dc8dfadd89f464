-- ===== src/Pal/Signed/Kept.antt =====
-- A nonce of `use_pal_nonce` (app/db.py) stays recorded until its time, through any other calls.
use cert_generator.Prelude.{
  ℕ, ◌+◌, ◌≤◌, ◌≡◌, true, false, ◌&&◌, List, [], ◌∷◌, ◌++◌, arith, any, delete_where, ltb, leb,
  Text, text_eq, text_eq_iff, text_eq_refl,
}
use cert_generator.Pal.Tables.{Nonce}
use cert_generator.Pal.Store.{
  Store, create_pal_code, revoke_pal_code, enroll_pal_device, touch_pal_device,
  set_pal_remote_allowed, set_pal_device_policy,
}
use cert_generator.Pal.Store.Rows.{
  is_nonce, use_pal_nonce, create_pal_request, transition_pal_request,
}
use cert_generator.Pal.Store.Binds.{insert_bind, decide_pal_bind}
use cert_generator.Pal.Store.Ends.{revoke_pal_device, delete_pal_device}
use cert_generator.Pal.Store.Calls.{Call, create_code, use_nonce, delete_device, apply, run}

-- The nonce of the device is recorded until `e` at least.
abbrev pub IsKept : Text → Text → ℕ → List Nonce → Type 0
IsKept device nonce e rows =
    any (λ (n : Nonce). is_nonce device nonce n && leb e n.expires_at) rows ≡ true

module _ (device nonce : Text) (e : ℕ) where
  any-append_left :
      (rows : List Nonce) (row : Nonce)
      → IsKept device nonce e rows
      → IsKept device nonce e (rows ++ row ∷ [])
  any-append_left [] row h = cc
  any-append_left (n ∷ rows) row h = ground (arith, any-append_left rows row)

  pub IsKept-purge :
      (now : ℕ) (rows : List Nonce)
      → now ≤ e
      → IsKept device nonce e rows
      → IsKept device nonce e (delete_where (λ (n : Nonce). ltb n.expires_at now) rows)
  IsKept-purge now [] le h = h
  IsKept-purge now (n ∷ rows) le h = ground (arith, IsKept-purge now rows le)

  pub IsKept-found :
      (rows : List Nonce) → IsKept device nonce e rows → any (is_nonce device nonce) rows ≡ true
  IsKept-found [] h = h
  IsKept-found (n ∷ rows) h = ground (arith, IsKept-found rows)

  pub IsKept-new :
      (rows : List Nonce)
      → IsKept device nonce e
          (rows ++ record { device_id = device; nonce = nonce; expires_at = e } ∷ [])
  IsKept-new [] = ground (arith, text_eq_refl device, text_eq_refl nonce)
  IsKept-new (n ∷ rows) = ground (arith, IsKept-new rows)

  IsKept-forget :
      (id : Text) (rows : List Nonce)
      → text_eq device id ≡ false
      → IsKept device nonce e rows
      → IsKept device nonce e (delete_where (λ (n : Nonce). text_eq n.device_id id) rows)
  IsKept-forget id [] other h = h
  IsKept-forget id (n ∷ rows) other h = ground (
    arith,
    IsKept-forget id rows other,
    text_eq_iff n.device_id device,
    text_eq_iff n.device_id id,
    text_eq_iff device id,
  )

-- A call of the time between: nonces are used no later than `t`, and the device is not deleted.
abbrev pub IsBefore : Text → ℕ → Call → Type 0
IsBefore device t (use_nonce now ttl d n) = now ≤ t
IsBefore device t (delete_device id) = text_eq device id ≡ false
IsBefore device t _ = Unit

abbrev pub AllBefore : Text → ℕ → List Call → Type 0
AllBefore device t [] = Unit
AllBefore device t (call ∷ calls) = IsBefore device t call × AllBefore device t calls

module _ (device nonce : Text) (e : ℕ) where
  use_pal_nonce-IsKept :
      (now ttl : ℕ) (d n : Text) (s : Store)
      → now ≤ e
      → IsKept device nonce e s.nonces
      → IsKept device nonce e (use_pal_nonce now ttl d n s).0.nonces
  unfolding use_pal_nonce
  use_pal_nonce-IsKept now ttl d n s le h =
      let kept = delete_where (λ (r : Nonce). ltb r.expires_at now) s.nonces in
      ground (
        arith,
        IsKept-purge device nonce e now s.nonces le h,
        any-append_left device nonce e kept
            (record { device_id = d; nonce = n; expires_at = now + ttl }),
      )

  apply-IsKept :
      (call : Call) (s : Store)
      → IsBefore device e call
      → IsKept device nonce e s.nonces
      → IsKept device nonce e (apply call s).nonces
  unfolding apply create_pal_code revoke_pal_code enroll_pal_device touch_pal_device
      set_pal_remote_allowed set_pal_device_policy create_pal_request transition_pal_request
      insert_bind decide_pal_bind revoke_pal_device delete_pal_device
  apply-IsKept (create_code i l c p k u x) s b h = ground arith
  apply-IsKept (use_nonce now ttl d n) s b h = use_pal_nonce-IsKept now ttl d n s b h
  apply-IsKept (delete_device i) s b h = ground (arith, IsKept-forget device nonce e i s.nonces b h)
  apply-IsKept _ s b h = ground arith

  pub run-IsKept :
      (calls : List Call) (s : Store)
      → AllBefore device e calls
      → IsKept device nonce e s.nonces
      → IsKept device nonce e (run calls s).nonces
  unfolding run
  run-IsKept [] s b h = h
  run-IsKept (call ∷ calls) s b h = run-IsKept calls (apply call s) b.1 (apply-IsKept call s b.0 h)

pub AllBefore-mono :
    (device : Text) (t u : ℕ) (calls : List Call)
    → t ≤ u
    → AllBefore device t calls
    → AllBefore device u calls
AllBefore-mono device t u [] le b = tt
AllBefore-mono device t u (use_nonce now ttl d n ∷ calls) le b =
    (omega arith, AllBefore-mono device t u calls le b.1)
AllBefore-mono device t u (_ ∷ calls) le b = (b.0, AllBefore-mono device t u calls le b.1)
