-- ===== src/Pal/Issue.antt =====
-- `_issue` of app/routes/pal.py in its three steps, and everything else that may run between them.
-- Several approvals, renewals and automatic issues of one request run at the same time, in threads
-- of one server: a run is a sequence of their steps and of other calls on the tables.
pub mod Once
use cert_generator.Prelude.{
  ℕ, suc, ◌≤◌, ◌≡◌, Bool, true, false, Option, none, some, List, [], ◌∷◌, count_where, ◌==◌,
  if◌then◌else◌, Text,
}
use cert_generator.Pal.Tables.{Status}
use cert_generator.Pal.Store.{Store, empty}
use cert_generator.Pal.Store.Rows.{transition_pal_request}
use cert_generator.Pal.Store.Calls.{
  Call, create_code, revoke_code, enroll_device, touch_device, set_remote, set_policy, use_nonce,
  create_request, transition_request, create_bind, decide_bind, revoke_device, delete_device, apply,
}

-- `if not db.transition_pal_request(request_id, "pending", "issuing")`
unfoldable pub begin_issue : ℕ → ℕ → Store → Store × Bool
begin_issue now id s = transition_pal_request now id Status.pending Status.issuing none [] s

-- the handler `except BaseException`
unfoldable pub fail_issue : ℕ → ℕ → Store → Store
fail_issue now id s = (transition_pal_request now id Status.issuing Status.pending none [] s).0

-- after the certificate was saved
unfoldable pub finish_issue : ℕ → ℕ → ℕ → Store → Store
finish_issue now id cert s =
    (transition_pal_request now id Status.issuing Status.issued (some cert) [] s).0

-- The tables, with the requests that some thread has begun to issue and not yet signed, and those
-- that a certificate was signed and saved for, each as often as it happened.
pub record System : Type 0 where
  pub store : Store
  pub begun : List ℕ
  pub signed : List ℕ

abbrev pub start : List ℕ → System
start cas = record { store = record empty { cas = cas }; begun = []; signed = [] }

abbrev pub times : ℕ → List ℕ → ℕ
times id ids = count_where (λ i. i == id) ids

abbrev pub remove_first : ℕ → List ℕ → List ℕ
remove_first id [] = []
remove_first id (i ∷ ids) = if i == id then ids else i ∷ remove_first id ids

-- The calls that other handlers make: of the transitions only the denial of a pending request.
abbrev pub IsOther : Call → Type 0
IsOther (transition_request now id from to cert reason) =
    (from ≡ Status.pending) × (to ≡ Status.denied)
IsOther _ = Unit

pub data Step : System → System → Type 0 where
  begin :
      (sys : System) (now id : ℕ)
      → (begin_issue now id sys.store).1 ≡ true
      → Step sys (record sys { store = (begin_issue now id sys.store).0; begun = id ∷ sys.begun })
  sign :
      (sys : System) (id : ℕ)
      → 1 ≤ times id sys.begun
      → Step sys (record sys { begun = remove_first id sys.begun; signed = id ∷ sys.signed })
  fail :
      (sys : System) (now id : ℕ)
      → 1 ≤ times id sys.begun
      → Step sys
          (record sys { store = fail_issue now id sys.store; begun = remove_first id sys.begun })
  finish :
      (sys : System) (now id cert : ℕ)
      → 1 ≤ times id sys.signed
      → Step sys (record sys { store = finish_issue now id cert sys.store })
  other :
      (sys : System) (call : Call)
      → IsOther call
      → Step sys (record sys { store = apply call sys.store })

pub data Reach (from : System) : System → Type 0 where
  here : Reach from from
  next : {mid to : System} → Reach from mid → Step mid to → Reach from to
