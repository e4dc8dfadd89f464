-- ===== src/Relay/Encoded.antt =====
-- The encodings of app/relay.py, from what the libraries are documented to do: `b64url` drops the
-- padding of base64 and `b64url_decode` puts it back, and `_load_point` takes the points of keys.
use cert_generator.Prelude.{
  ℕ, zero, suc, ◌+◌, ◌*◌, ◌%◌, ◌≤◌, ◌≡◌, refl, ap, sym, ◌∙◌, Bool, true, false, not, some, [], ◌∷◌,
  ◌++◌, reverse, length, take, all, ◌==◌, ltb, Text, ok, arith, drop_while, drop_while_end,
}
use mathlib.Core.List.{reverse-append, reverse-reverse}
use cert_generator.Pal.Json.{text}
use cert_generator.Relay.{Library}
use cert_generator.Relay.Envelope.{max_envelope, pad, b64url, b64url_decode, load_point}

-- that many `=`
abbrev pub equals : ℕ → Text
equals zero = []
equals (suc n) = b'=' ∷ equals n

abbrev is_equals : ℕ → Bool
is_equals c = c == b'='

abbrev is_clean : Text → Bool
is_clean s = all (λ c. not (is_equals c)) s

is_clean-append : (s t : Text) → is_clean s ≡ true → is_clean t ≡ true → is_clean (s ++ t) ≡ true
is_clean-append [] t h k = k
is_clean-append (c ∷ s) t h k = ground (arith, h, k, is_clean-append s t)

is_clean-reverse : (s : Text) → is_clean s ≡ true → is_clean (reverse s) ≡ true
is_clean-reverse [] h = refl
is_clean-reverse (c ∷ s) h = rw (reverse-append (c ∷ []) s) (
    is_clean-append (reverse s) (c ∷ []) (is_clean-reverse s (ground (arith, h)))
      (ground (arith, h)))

drop_while-clean : (s : Text) → is_clean s ≡ true → drop_while is_equals s ≡ s
drop_while-clean [] h = refl
drop_while-clean (c ∷ s) h = ground (arith, h)

drop_while-equals :
    (n : ℕ) (s : Text) → drop_while is_equals (equals n ++ s) ≡ drop_while is_equals s
drop_while-equals zero s = refl
drop_while-equals (suc n) s = drop_while-equals n s

reverse-equals : (n : ℕ) → n ≤ 2 → reverse (equals n) ≡ equals n
reverse-equals zero h = refl
reverse-equals (suc zero) h = refl
reverse-equals (suc (suc zero)) h = refl
reverse-equals (suc (suc (suc n))) h = absurd (omega (arith, h))

-- The padding is what `rstrip` takes off.
drop_while_end-equals :
    (n : ℕ) (s : Text) → n ≤ 2 → is_clean s ≡ true → drop_while_end is_equals (s ++ equals n) ≡ s
drop_while_end-equals n s little clean =
    rw
      (
        reverse-append s (equals n),
        reverse-equals n little,
        drop_while-equals n (reverse s),
        drop_while-clean (reverse s) (is_clean-reverse s clean),
      )
      (reverse-reverse s)

pad-equals : (n m : ℕ) → n ≤ 2 → (m + n) % 4 ≡ 0 → pad m ≡ equals n
pad-equals zero m h e = ground (arith, e)
pad-equals (suc zero) m h e = let r : m % 4 ≡ 3 = omega (arith, e) in rw r refl
pad-equals (suc (suc zero)) m h e = let r : m % 4 ≡ 2 = omega (arith, e) in rw r refl
pad-equals (suc (suc (suc n))) m h e = absurd (omega (arith, h))

module _ (lib : Library) where
  -- What base64 is documented to do, for bytes that are few enough for an envelope: characters other
  -- than `=`, filled up by at most two `=` to a multiple of four, and decoded to the bytes.
  pub record IsBase64 (bytes : Text) : Type 0 where
    pub body : Text
    pub padding : ℕ
    pub shape : lib.b64encode bytes ≡ body ++ equals padding
    pub filled : (length body + padding) % 4 ≡ 0
    pub little : padding ≤ 2
    pub clean : all (λ c. not (is_equals c)) body ≡ true
    pub short : length body ≤ 2 * max_envelope
    pub decodes : lib.b64decode (lib.b64encode bytes) ≡ some bytes

  -- What `b64url` writes, `b64url_decode` reads.
  pub b64url_decode-b64url :
      (bytes : Text) → IsBase64 bytes → b64url_decode lib (text (b64url lib bytes)) ≡ ok bytes
  unfolding b64url b64url_decode
  b64url_decode-b64url bytes h =
      let stripped : drop_while_end is_equals (lib.b64encode bytes) ≡ h.body =
        ap (drop_while_end is_equals) h.shape
        ∙ drop_while_end-equals h.padding h.body h.little h.clean in
      let small : ltb (2 * max_envelope) (length h.body) ≡ false = ground (arith, h.short) in
      let padded : h.body ++ pad (length h.body) ≡ lib.b64encode bytes =
        ap (λ t. h.body ++ t) (pad-equals h.padding (length h.body) h.little h.filled)
        ∙ sym h.shape in
      rw (stripped, small, padded, h.decodes) refl

  -- an uncompressed point, which `from_encoded_point` takes
  pub record IsPoint (raw : Text) : Type 0 where
    pub size : length raw ≡ 65
    pub first : take 1 raw ≡ 4 ∷ []
    pub on_curve : lib.is_point raw ≡ true

  pub load_point-IsPoint : (raw : Text) → IsPoint raw → load_point lib raw ≡ ok raw
  unfolding load_point
  load_point-IsPoint raw h = rw (h.size, h.first, h.on_curve) refl
