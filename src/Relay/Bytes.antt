-- ===== src/Relay/Bytes.antt =====
-- `int.from_bytes` and `int.to_bytes`, big end first, and the two forms of a signature in app/relay.py.
use cert_generator.Prelude.{
  ℕ, zero, suc, ◌+◌, ◌*◌, ◌/◌, ◌%◌, ◌^◌, ◌<◌, ◌≡◌, refl, ◌∙◌, ap, [], ◌∷◌, ◌++◌, length,
  length-append, take, drop, ◌==◌, if◌then◌else◌, not, Text, codes, Result, ok, refuse, arith,
}

-- `int.from_bytes(s, "big")`, from the value of the bytes before
unfoldable pub bytes_value : ℕ → Text → ℕ
bytes_value before [] = before
bytes_value before (b ∷ s) = bytes_value (before * 256 + b) s

-- `n.to_bytes(size, "big")`, of a number that fits
unfoldable pub to_bytes : ℕ → ℕ → Text
to_bytes zero n = []
to_bytes (suc size) n = to_bytes size (n / 256) ++ (n % 256) ∷ []

unfoldable pub p1363_to_der : Text → Result Text (ℕ × ℕ)
p1363_to_der signature =
    if not (length signature == 64)
    then refuse (codes "Bad envelope signature")
    else ok (bytes_value 0 (take 32 signature), bytes_value 0 (drop 32 signature))

unfoldable pub der_to_p1363 : ℕ × ℕ → Text
der_to_p1363 rs = to_bytes 32 rs.0 ++ to_bytes 32 rs.1

pub length-to_bytes : (size n : ℕ) → length (to_bytes size n) ≡ size
unfolding to_bytes
length-to_bytes zero n = refl
length-to_bytes (suc size) n =
    length-append (to_bytes size (n / 256)) ((n % 256) ∷ [])
    ∙ omega (arith, length-to_bytes size (n / 256))

bytes_value-append :
    (before : ℕ) (s t : Text) → bytes_value before (s ++ t) ≡ bytes_value (bytes_value before s) t
unfolding bytes_value
bytes_value-append before [] t = refl
bytes_value-append before (b ∷ s) t = bytes_value-append (before * 256 + b) s t

bytes_value-to_bytes : (size n : ℕ) → n < 256 ^ size → bytes_value 0 (to_bytes size n) ≡ n
unfolding bytes_value to_bytes
bytes_value-to_bytes zero n h = omega arith
bytes_value-to_bytes (suc size) n h =
    let ih = bytes_value-to_bytes size (n / 256) (omega arith) in
    bytes_value-append 0 (to_bytes size (n / 256)) ((n % 256) ∷ []) ∙ omega (arith, ih)

take-append_length : (n : ℕ) (s t : Text) → length s ≡ n → take n (s ++ t) ≡ s
take-append_length zero [] t e = refl
take-append_length zero (b ∷ s) t e = ground (arith, e)
take-append_length (suc n) [] t e = ground (arith, e)
take-append_length (suc n) (b ∷ s) t e =
    ap (λ (r : Text). b ∷ r) (take-append_length n s t (omega arith))

drop-append_length : (n : ℕ) (s t : Text) → length s ≡ n → drop n (s ++ t) ≡ t
drop-append_length zero [] t e = refl
drop-append_length zero (b ∷ s) t e = ground (arith, e)
drop-append_length (suc n) [] t e = ground (arith, e)
drop-append_length (suc n) (b ∷ s) t e = drop-append_length n s t (omega arith)

pub p1363_to_der-der_to_p1363 :
    (r s : ℕ) → r < 256 ^ 32 → s < 256 ^ 32 → p1363_to_der (der_to_p1363 (r, s)) ≡ ok (r, s)
unfolding p1363_to_der der_to_p1363
p1363_to_der-der_to_p1363 r s hr hs =
    let left = to_bytes 32 r in
    let right = to_bytes 32 s in
    let l = length-to_bytes 32 r in
    let whole : length (left ++ right) ≡ 64 =
      omega (arith, length-append left right, l, length-to_bytes 32 s) in
    rw
      (
        whole,
        take-append_length 32 left right l,
        drop-append_length 32 left right l,
        bytes_value-to_bytes 32 r hr,
        bytes_value-to_bytes 32 s hs,
      )
      refl
