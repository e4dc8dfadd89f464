-- ===== src/Certificates/Calls.antt =====
-- Any calls of the functions of app/db.py on certificates, one after the other.
use cert_generator.Prelude.{ℕ, Option, none, some, List, [], ◌∷◌}
use cert_generator.Certificates.{NewCertificate, Registry, save_cert, revoke_cert, delete_cert}

pub data Call : Type 0 where
  save : ℕ → NewCertificate → Call
  revoke : ℕ → ℕ → Call
  delete : ℕ → Call

abbrev pub committed : {A : Type 0} → Registry → Option (Registry × A) → Registry
committed r none = r
committed r (some (t, a)) = t

unfoldable pub apply : Call → Registry → Registry
apply (save now c) r = committed r (save_cert now c r)
apply (revoke now id) r = (revoke_cert now id r).0
apply (delete id) r = (delete_cert id r).0

unfoldable pub run : List Call → Registry → Registry
run [] r = r
run (call ∷ calls) r = run calls (apply call r)
