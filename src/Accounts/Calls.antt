-- ===== src/Accounts/Calls.antt =====
-- Any calls of the functions on users and trusted devices (app/db.py), the restore of a backup's
-- users included, one after the other, as threads and processes make them. A call that raises leaves the tables as they were.
use cert_generator.Prelude.{ℕ, Bool, Option, none, some, List, [], ◌∷◌, Text, All}
use cert_generator.Accounts.{
  Library, Accounts, create_user, create_first_user, reset_user_password, update_user_totp,
  claim_totp_step, bump_session_version, update_user_require_password, create_trusted_device,
  delete_trusted_device, delete_trusted_device_by_token, delete_trusted_devices,
  cleanup_expired_devices, Restored, restore_users,
}

pub data Call : Type 0 where
  add_user : ℕ → Text → Text → Call
  add_first : ℕ → Text → Text → Call
  reset_password : ℕ → Text → Text → Call
  set_totp : ℕ → Option Text → Bool → ℕ → Call
  claim : ℕ → ℕ → Call
  bump_sessions : ℕ → Call
  set_required : ℕ → Bool → Call
  trust : ℕ → Text → ℕ → Text → Call
  forget : ℕ → ℕ → Call
  forget_token : Text → Call
  forget_all : ℕ → Call
  cleanup : ℕ → Call
  restore : List Restored → Call

abbrev pub committed : {A : Type 0} → Accounts → Option (Accounts × A) → Accounts
committed a none = a
committed a (some (b, x)) = b

module _ (lib : Library) where
  unfoldable pub apply : Call → Accounts → Accounts
  apply (add_user salt n p) a = committed a (create_user lib salt n p a)
  apply (add_first salt n p) a = (create_first_user lib salt n p a).0
  apply (reset_password salt n p) a = (reset_user_password lib salt n p a).0
  apply (set_totp id s e l) a = update_user_totp id s e l a
  apply (claim id step) a = (claim_totp_step id step a).0
  apply (bump_sessions id) a = (bump_session_version id a).0
  apply (set_required id r) a = update_user_require_password id r a
  apply (trust id t e l) a = committed a (create_trusted_device id t e l a)
  apply (forget id u) a = (delete_trusted_device id u a).0
  apply (forget_token t) a = (delete_trusted_device_by_token t a).0
  apply (forget_all u) a = (delete_trusted_devices u a).0
  apply (cleanup now) a = (cleanup_expired_devices now a).0
  apply (restore rows) a = restore_users rows a

  unfoldable pub run : List Call → Accounts → Accounts
  run [] a = a
  run (call ∷ calls) a = run calls (apply call a)

  -- What every call of some kind keeps, any calls of that kind keep.
  pub run_induction :
      (P : Accounts → Type 0) (Q : Call → Type 0)
      → ((call : Call) (a : Accounts) → Q call → P a → P (apply call a))
      → (calls : List Call) (a : Accounts) → All Q calls
      → P a
      → P (run calls a)
  unfolding run
  run_induction P Q keep [] a q h = h
  run_induction P Q keep (call ∷ calls) a q h =
      run_induction P Q keep calls (apply call a) q.1 (keep call a q.0 h)

-- every call is a call of any kind
pub All-Unit : (calls : List Call) → All (λ (c : Call). Unit {0}) calls
All-Unit [] = tt
All-Unit (call ∷ calls) = (tt, All-Unit calls)
