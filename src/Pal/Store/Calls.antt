-- ===== src/Pal/Store/Calls.antt =====
-- Any calls of the functions on the pal_* tables, one after the other, as threads and processes
-- make them: each is one transaction. A call that raises leaves the tables as they were. Of
-- `create_pal_bind`, the look-up of a row that waits comes before the transaction and writes
-- nothing: here a call of it is its transaction, `insert_bind`, which other calls can have parted from
-- the look-up.
use cert_generator.Prelude.{ℕ, Bool, Option, none, some, List, [], ◌∷◌, Text}
use cert_generator.Pal.Tables.{Status}
use cert_generator.Pal.Store.{
  Store, create_pal_code, revoke_pal_code, NewDevice, enroll_pal_device, touch_pal_device,
  set_pal_remote_allowed, set_pal_device_policy,
}
use cert_generator.Pal.Store.Rows.{
  NewRequest, use_pal_nonce, create_pal_request, transition_pal_request,
}
use cert_generator.Pal.Store.Binds.{NewBind, insert_bind, decide_pal_bind}
use cert_generator.Pal.Store.Ends.{revoke_pal_device, delete_pal_device}

pub data Call : Type 0 where
  create_code : Text → Text → ℕ → Text → Text → Text → ℕ → Call
  revoke_code : ℕ → Text → Call
  enroll_device : ℕ → Text → NewDevice → Call
  touch_device : ℕ → Text → Option Text → Text → Call
  set_remote : Text → Bool → Call
  set_policy : Text → Text → Call
  use_nonce : ℕ → ℕ → Text → Text → Call
  create_request : NewRequest → Call
  transition_request : ℕ → ℕ → Status → Status → Option ℕ → Text → Call
  create_bind : ℕ → NewBind → Call
  decide_bind : ℕ → ℕ → Status → Text → Call
  revoke_device : ℕ → Text → Call
  delete_device : Text → Call

abbrev pub committed : Store → Option Store → Store
committed s none = s
committed s (some t) = t

abbrev pub committed_first : {A : Type 0} → Store → Option (Store × A) → Store
committed_first s none = s
committed_first s (some (t, a)) = t

unfoldable pub apply : Call → Store → Store
apply (create_code i l c p k u e) s = committed s (create_pal_code i l c p k u e s)
apply (revoke_code now i) s = (revoke_pal_code now i s).0
apply (enroll_device now i d) s = committed_first s (enroll_pal_device now i d s)
apply (touch_device now i v via) s = touch_pal_device now i v via s
apply (set_remote i a) s = (set_pal_remote_allowed i a s).0
apply (set_policy i p) s = (set_pal_device_policy i p s).0
apply (use_nonce now ttl d n) s = (use_pal_nonce now ttl d n s).0
apply (create_request r) s = committed_first s (create_pal_request r s)
apply (transition_request now i from to cert reason) s =
    (transition_pal_request now i from to cert reason s).0
apply (create_bind now b) s = committed_first s (insert_bind now b s)
apply (decide_bind now i status reason) s = (decide_pal_bind now i status reason s).0
apply (revoke_device now i) s = (revoke_pal_device now i s).0
apply (delete_device i) s = (delete_pal_device i s).0

unfoldable pub run : List Call → Store → Store
run [] s = s
run (call ∷ calls) s = run calls (apply call s)

-- What every call keeps, any calls keep.
pub run_induction :
    (P : Store → Type 0)
    → ((call : Call) (s : Store) → P s → P (apply call s))
    → (calls : List Call) (s : Store) → P s
    → P (run calls s)
unfolding run
run_induction P keep [] s h = h
run_induction P keep (call ∷ calls) s h = run_induction P keep calls (apply call s) (keep call s h)
