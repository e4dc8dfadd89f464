-- ===== src/Pal/Tables.antt =====
-- The rows of the pal_* tables of app/db.py, and the enumerations that their columns hold. A time
-- is a number of seconds: the ISO texts of the columns are in one fixed form and order as times.
use cert_generator.Prelude.{ℕ, Bool, Option, Text}

-- the `status` of a request and of a bind
pub data Status : Type 0 where
  pending issuing issued denied approved : Status

abbrev pub is_pending : Status → Bool
is_pending Status.pending = Bool.true
is_pending _ = Bool.false

abbrev pub same_status : Status → Status → Bool
same_status Status.pending Status.pending = Bool.true
same_status Status.issuing Status.issuing = Bool.true
same_status Status.issued Status.issued = Bool.true
same_status Status.denied Status.denied = Bool.true
same_status Status.approved Status.approved = Bool.true
same_status _ _ = Bool.false

-- `policy` is the JSON text of a policy, opaque here
pub record Code : Type 0 where
  pub id : Text
  pub label : Text
  pub ca_id : ℕ
  pub policy : Text
  pub key : Text
  pub server_url : Text
  pub expires_at : ℕ
  pub used_at : Option ℕ
  pub device_id : Option Text
  pub revoked_at : Option ℕ

pub record Device : Type 0 where
  pub id : Text
  pub label : Text
  pub hostname : Text
  pub fqdn : Text
  pub os : Text
  pub public_key : Text
  pub ca_id : ℕ
  pub policy : Text
  pub code_id : Text
  pub last_seen : Option ℕ
  pub revoked_at : Option ℕ
  pub pal_version : Option Text
  pub remote_allowed : Bool
  pub last_via : Option Text
  pub key_storage : Option Text

-- `names` is the JSON text of the request's names, opaque here
pub record Request : Type 0 where
  pub id : ℕ
  pub device_id : Text
  pub use_case : Text
  pub names : Text
  pub csr_pem : Text
  pub lifetime_days : ℕ
  pub status : Status
  pub cert_id : Option ℕ
  pub renew_of : Option ℕ
  pub reason : Text
  pub decided_at : Option ℕ
  pub crl_dp : Option Text
  pub key_storage : Option Text
  pub windows_user : Option Text
  pub note : Option Text

pub record Bind : Type 0 where
  pub id : ℕ
  pub device_id : Text
  pub serial : Text
  pub cert_name : Text
  pub target : Text
  pub detail : Text
  pub status : Status
  pub windows_user : Option Text
  pub note : Option Text
  pub reason : Text
  pub decided_at : Option ℕ

pub record Nonce : Type 0 where
  pub device_id : Text
  pub nonce : Text
  pub expires_at : ℕ
