-- ===== src/Pal/Signed/Sound.antt =====
-- Whom `_signed_device` lets through, and that a disconnected PC is never let through.
use cert_generator.Prelude.{ℕ, ◌*◌, ◌≤◌, ◌≡◌, none, some, arith, text_eq_iff, find-holds, true}
use cert_generator.Pal.Tables.{Device}
use cert_generator.Pal.Patterns.{valid_nonce}
use cert_generator.Pal.Store.{Store, has_device_id, get_pal_device}
use cert_generator.Pal.Signed.{
  Library, Signature, signed_by, Clock, distance, skew_seconds, request_signing_string,
  verify_device_signature, signed_device,
}

-- A request is let through as a PC's only if that PC is in the table under the id that the
-- request names and is not disconnected, the signature of this very method, path, timestamp,
-- nonce and body verifies under its key, the nonce is well formed, and the timestamp is within
-- the skew of the clock.
pub signed_device_sound :
    (lib : Library) (clock : Clock) (r : Signature) (s : Store) (d : Device)
    → (signed_device lib clock r s).1 ≡ signed_by d
    → (get_pal_device r.device s ≡ some d)
      × (d.id ≡ r.device)
      × (d.revoked_at ≡ none)
      × (verify_device_signature lib d.public_key
            (request_signing_string lib r.method r.path r.timestamp r.nonce r.body)
            r.signature
          ≡ true)
      × (valid_nonce r.nonce ≡ true)
      × ((t : ℕ) × (lib.int_of r.timestamp ≡ some t)
          × (distance clock.at_check (t * clock.tick) ≤ skew_seconds * clock.tick))
unfolding signed_device get_pal_device
signed_device_sound lib clock r s d h =
    ground (arith, find-holds (has_device_id r.device) d s.devices, text_eq_iff d.id r.device)
