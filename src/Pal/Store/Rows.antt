-- ===== src/Pal/Store/Rows.antt =====
-- The functions of app/db.py on nonces and requests.
use cert_generator.Prelude.{
  ℕ, suc, ◌+◌, Bool, true, false, ◌&&◌, Option, none, some, List, [], ◌∷◌, ◌++◌, any, find,
  update_where, delete_where, count_where, ltb, ◌==◌, if◌then◌else◌, Text, text_eq,
}
use cert_generator.Pal.Tables.{Status, same_status, Request, Nonce}
use cert_generator.Pal.Store.{Store, has_device_id, or_else}

-- Nonces ----------------------------------------------------------------------------------------

abbrev pub is_nonce : Text → Text → Nonce → Bool
is_nonce device nonce n = text_eq n.device_id device && text_eq n.nonce nonce

-- `now` and `ttl` in ticks of the clock
unfoldable pub use_nonce : ℕ → ℕ → Text → Text → List Nonce → List Nonce × Bool
use_nonce now ttl device nonce rows =
    let kept = delete_where (λ (n : Nonce). ltb n.expires_at now) rows in
    if any (is_nonce device nonce) kept
    then (kept, false)
    else (kept ++ record { device_id = device; nonce = nonce; expires_at = now + ttl } ∷ [], true)

unfoldable pub use_pal_nonce : ℕ → ℕ → Text → Text → Store → Store × Bool
unfolding use_nonce
use_pal_nonce now ttl device nonce s =
    let (rows, fresh) = use_nonce now ttl device nonce s.nonces in
    (record s { nonces = rows }, fresh)

-- Requests --------------------------------------------------------------------------------------

-- the arguments of `create_pal_request`
pub record NewRequest : Type 0 where
  pub device_id : Text
  pub use_case : Text
  pub names : Text
  pub csr_pem : Text
  pub lifetime_days : ℕ
  pub renew_of : Option ℕ
  pub crl_dp : Option Text
  pub key_storage : Option Text
  pub windows_user : Option Text
  pub note : Option Text

unfoldable pub request_row : ℕ → NewRequest → Request
request_row id r = record {
  id = id;
  device_id = r.device_id;
  use_case = r.use_case;
  names = r.names;
  csr_pem = r.csr_pem;
  lifetime_days = r.lifetime_days;
  status = Status.pending;
  cert_id = none;
  renew_of = r.renew_of;
  reason = [];
  decided_at = none;
  crl_dp = r.crl_dp;
  key_storage = r.key_storage;
  windows_user = r.windows_user;
  note = r.note;
}

unfoldable pub create_pal_request : NewRequest → Store → Option (Store × ℕ)
unfolding request_row
create_pal_request r s =
    if any (has_device_id r.device_id) s.devices
    then (some (
      record s {
        requests = s.requests ++ request_row s.request_seq r ∷ [];
        request_seq = suc s.request_seq;
      },
      s.request_seq,
    ))
    else none

unfoldable pub get_pal_request : ℕ → Store → Option Request
get_pal_request id s = find (λ r. r.id == id) s.requests

abbrev pub in_status : ℕ → Status → Request → Bool
in_status id from r = r.id == id && same_status r.status from

abbrev pub move_request : ℕ → Status → Option ℕ → Text → Request → Request
move_request now to cert reason r = record r {
  status = to;
  cert_id = or_else cert r.cert_id;
  reason = reason;
  decided_at = some now;
}

unfoldable pub transition_pal_request :
    ℕ → ℕ → Status → Status → Option ℕ → Text → Store → Store × Bool
transition_pal_request now id from to cert reason s = (
  record s {
    requests = update_where (in_status id from) (move_request now to cert reason) s.requests;
  },
  ltb 0 (count_where (in_status id from) s.requests),
)
