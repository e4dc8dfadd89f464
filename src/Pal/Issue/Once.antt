-- ===== src/Pal/Issue/Once.antt =====
-- What it is that `_issue` of app/routes/pal.py signs a request at most once.
pub mod Quiet
pub mod Steps
use cert_generator.Prelude.{
  ℕ, suc, ◌+◌, ◌-◌, ◌≤◌, ◌≡◌, refl, Bool, true, false, not, ◌&&◌, ◌||◌, Option, none, some, List,
  [], ◌∷◌, ◌++◌, arith, any, find, update_where, delete_where, count_where, ltb, leb, ◌==◌,
  if◌then◌else◌, Text, text_eq, count-update, count_mono, count-delete, count-append, count-none,
  count-or-le, Bool-cases, inl, inr, ==_iff, ◌∙◌,
}
use cert_generator.Pal.Tables.{Status, same_status, is_pending, Request}
use cert_generator.Pal.Store.{
  Store, empty, create_pal_code, revoke_pal_code, enroll_pal_device, touch_pal_device,
  set_pal_remote_allowed, set_pal_device_policy, has_device_id,
}
use cert_generator.Pal.Store.Rows.{
  in_status, move_request, transition_pal_request, NewRequest, request_row, create_pal_request,
  use_pal_nonce,
}
use cert_generator.Pal.Store.Binds.{create_pal_bind, insert_bind, decide_pal_bind}
use cert_generator.Pal.Store.Ends.{deny_request, asked_by, revoke_pal_device, delete_pal_device}
use cert_generator.Pal.Store.Calls.{
  Call, create_code, revoke_code, enroll_device, touch_device, set_remote, set_policy, use_nonce,
  create_request, transition_request, create_bind, decide_bind, revoke_device, delete_device, apply,
}
use cert_generator.Pal.Issue.{
  System, start, begin_issue, fail_issue, finish_issue, times, remove_first, IsOther, Step, begin,
  sign, fail, finish, other, Reach, here, next,
}

abbrev pub pending : ℕ → Store → ℕ
pending id s = count_where (in_status id Status.pending) s.requests

abbrev pub issuing : ℕ → Store → ℕ
issuing id s = count_where (in_status id Status.issuing) s.requests

-- 1 if the id was not given to a request yet
abbrev pub unborn : ℕ → Store → ℕ
unborn id s = if leb s.request_seq id then 1 else 0

-- of one request id: the right to sign it exists once, and who is issuing has begun or signed
pub record IsOnce (id : ℕ) (sys : System) : Type 0 where
  pub right :
      pending id sys.store + times id sys.begun + times id sys.signed + unborn id sys.store ≤ 1
  pub held : issuing id sys.store ≤ times id sys.begun + times id sys.signed

pub times-remove_first :
    (id j : ℕ) (ids : List ℕ)
    → times j (remove_first id ids) ≡ times j ids - (if id == j then 1 else 0)
times-remove_first id j [] = ground arith
times-remove_first id j (i ∷ ids) = ground (arith, times-remove_first id j ids)

module _ (now id : ℕ) (from to : Status) (cert : Option ℕ) (reason : Text) (s : Store) where
  pub count-transition :
      (j : ℕ) (p' : Request → Bool) (status : Status)
      → ((r : Request)
          → (if in_status id from r
              then in_status j status (move_request now to cert reason r)
              else in_status j status r)
            ≡ p' r)
      → count_where
          (in_status j status)
          (transition_pal_request now id from to cert reason s).0.requests
        ≡ count_where p' s.requests
  unfolding transition_pal_request
  count-transition j p' status h =
      count-update (in_status j status) (in_status id from) p' (move_request now to cert reason) h
        s.requests
