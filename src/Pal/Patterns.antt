-- ===== src/Pal/Patterns.antt =====
-- The regular expressions of app/pal.py, as they match: `re.match` anchors at the start, and `$`
-- matches at the end of the text and also before one newline that ends it.
use cert_generator.Prelude.{
  ℕ, Bool, not, ◌&&◌, ◌||◌, [], ◌∷◌, reverse, length, all, leb, ◌==◌, Text, starts_with, ends_with,
  split_on,
}

abbrev pub newline : ℕ
newline = 10

abbrev tail : Text → Text
tail [] = []
tail (c ∷ s) = s

-- `^X$`, where `matches` says that X matches the whole of a text
abbrev pub dollar : (Text → Bool) → Text → Bool
dollar matches s = matches s || (ends_with s (newline ∷ []) && matches (reverse (tail (reverse s))))

abbrev pub is_lower : ℕ → Bool
is_lower c = leb b'a' c && leb c b'z'

abbrev pub is_upper : ℕ → Bool
is_upper c = leb b'A' c && leb c b'Z'

abbrev pub is_ascii_digit : ℕ → Bool
is_ascii_digit c = leb b'0' c && leb c b'9'

abbrev pub is_label_char : ℕ → Bool
is_label_char c = is_lower c || is_ascii_digit c || c == b'-'

-- `(?!-)[a-z0-9-]{1,63}(?<!-)`
unfoldable pub is_label_body : Text → Bool
is_label_body s =
    all is_label_char s
    && leb 1 (length s)
    && leb (length s) 63
    && not (starts_with s (b'-' ∷ []))
    && not (ends_with s (b'-' ∷ []))

-- `_LABEL_RE.match`
unfoldable pub is_label : Text → Bool
unfolding is_label_body
is_label s = dollar is_label_body s

abbrev is_b64url_char : ℕ → Bool
is_b64url_char c = is_upper c || is_lower c || is_ascii_digit c || c == b'_' || c == b'-'

-- `_B64URL_RE.match`
unfoldable pub is_b64url : Text → Bool
is_b64url s = dollar (λ t. leb 1 (length t) && all is_b64url_char t) s

-- `_HEX_RE.match`
unfoldable pub is_hex : Text → Bool
is_hex s =
    dollar (λ t. leb 1 (length t) && all (λ c. is_ascii_digit c || (leb b'a' c && leb c b'f')) t) s

-- `_is_dns_name`
unfoldable pub is_dns_name : Text → Bool
is_dns_name name =
    let labels = split_on b'.' name in
    leb 1 (length name) && leb (length name) 253 && leb 1 (length labels) && all is_label labels

-- `valid_nonce`
unfoldable pub valid_nonce : Text → Bool
valid_nonce nonce = leb 16 (length nonce) && leb (length nonce) 64 && is_b64url nonce
