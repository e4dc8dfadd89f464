-- ===== src/Relay/Reply.antt =====
-- app/relay.py: the reply that the server seals, and the PC opens.
use cert_generator.Prelude.{
  ◌≡◌, refl, some, Text, text_eq, text_eq_iff, codes, ok, refuse, if◌then◌else◌, Bool-cases, inl,
  inr, arith,
}
use cert_generator.Pal.Json.{Fields, object, text}
use cert_generator.Relay.{Library}
use cert_generator.Relay.Envelope.{
  reply_aad, reply_parts, reply_json, seal_reply, open_reply, b64url,
}
use cert_generator.Relay.Encoded.{IsBase64, b64url_decode-b64url}
use cert_generator.Relay.Sealed.{Reads}

module _ (lib : Library) (k_rep device_id nonce iv aad : Text) (inner : Fields) where
  abbrev sealed : Text
  sealed = lib.encrypt k_rep iv (lib.dumps (object inner)) aad

  -- what the libraries are documented to do, at these values
  pub record Documented : Type 0 where
    pub encoded : lib.encode (reply_aad lib device_id nonce) ≡ some aad
    pub deciphers : (k n p a : Text) → lib.decrypt k n (lib.encrypt k n p a) a ≡ some p
    pub reads_inner : Reads lib (object inner)
    pub reads_reply : Reads lib (reply_json lib nonce iv sealed)
    pub base64_iv : IsBase64 lib iv
    pub base64_sealed : IsBase64 lib sealed

  reply_parts-reply_json :
      (asked : Text)
      → reply_parts asked (reply_json lib nonce iv sealed) ≡ (
          if text_eq nonce asked
          then ok (text (b64url lib iv), text (b64url lib sealed))
          else refuse (codes "Not the reply to this request"))
  unfolding reply_parts
  reply_parts-reply_json asked = ground arith

  -- What `seal_reply` of the server makes, `open_reply` opens with the same reply key for the
  -- request of the same nonce, and it is refused as the reply to a request of another nonce. (The
  -- libraries do what they are documented to do.)
  pub open_reply-seal_reply :
      Documented
      → (asked : Text)
      → (bytes : Text) × (seal_reply lib k_rep device_id nonce inner iv ≡ ok bytes)
        × (open_reply lib k_rep device_id asked bytes ≡ (
            if text_eq nonce asked
            then ok inner
            else refuse (codes "The reply did not come from this PC's server")))
  unfolding seal_reply open_reply
  open_reply-seal_reply h asked =
      let parts = reply_parts-reply_json asked in
      (
        lib.dumps (reply_json lib nonce iv sealed),
        rw (h.encoded) refl,
        elim (Bool-cases (text_eq nonce asked)) [
          | inl same ↦
              rw
                (
                  h.reads_reply,
                  parts,
                  same,
                  b64url_decode-b64url lib iv h.base64_iv,
                  b64url_decode-b64url lib sealed h.base64_sealed,
                  ← (text_eq_iff nonce asked).0 same,
                  h.encoded,
                  h.deciphers k_rep iv (lib.dumps (object inner)) aad,
                  h.reads_inner,
                )
                refl
          | inr other ↦ rw (h.reads_reply, parts, other) refl
        ],
      )
