-- ===== src/Pal/Reported.antt =====
-- What a PC reports in its calls, as app/pal.py reads it: the functions from `key_storage` to
-- `parse_binds`, and `normalize_serial`.
use cert_generator.Prelude.{
  ℕ, Bool, not, ◌&&◌, ◌||◌, Option, none, some, List, [], ◌∷◌, ◌++◌, map, all, select, length, leb,
  ltb, ◌==◌, if◌then◌else◌, is_empty, Text, codes, text_eq, strip, is_space, split_on, starts_with,
  drop, drop_while, Result, ok, refuse, refuse_if, ◌>>=◌, ◌>>◌, for_each,
}
use cert_generator.Pal.Json.{Json, null, text, array, object, items, get_or}
use cert_generator.Pal.Patterns.{dollar, is_ascii_digit, is_hex}

-- what the Python library does for these functions
pub record Library : Type 0 where
  pub lower : Text → Text  -- `str.lower`
  pub is_printable : ℕ → Bool  -- `str.isprintable`

pub data ReportError : Type 0 where
  not_text too_long : Text → ReportError
  bad_binds bad_target : ReportError
  unhashable : ReportError  -- the `TypeError` of a list or an object that is looked up in a dict

-- `KEY_STORAGES`
unfoldable pub key_storage : Json → Option Text
key_storage (text t) =
    if text_eq t (codes "tpm") || text_eq t (codes "software") then some t else none
key_storage _ = none

-- `[^\x00-\x1f\x7f]{1,104}`
abbrev pub is_account : Text → Bool
is_account s = all (λ c. leb 0x20 c && not (c == 0x7f)) s && leb 1 (length s) && leb (length s) 104

abbrev pub stripped : Json → Text
stripped (text t) = strip t
stripped _ = []

unfoldable pub windows_user : Json → Option Text
windows_user raw = let name = stripped raw in if dollar is_account name then some name else none

-- `s.split()`
unfoldable pub words : Text → List Text
words s =
    select (λ w. not (is_empty w)) (split_on b' ' (map (λ c. if is_space c then b' ' else c) s))

-- `" ".join(parts)`
abbrev pub joined : List Text → Text
joined [] = []
joined (w ∷ []) = w
joined (w ∷ ws) = w ++ b' ' ∷ joined ws

-- `s or None`
abbrev pub or_none : Text → Option Text
or_none [] = none
or_none s = some s

abbrev pub max_note_len : ℕ
max_note_len = 200

abbrev pub max_bind_detail_len : ℕ
max_bind_detail_len = 300

abbrev pub max_binds_per_call : ℕ
max_binds_per_call = 8

-- `BIND_TARGETS`
abbrev pub is_target : Text → Bool
is_target t =
    text_eq t (codes "rdp")
    || text_eq t (codes "winrm")
    || text_eq t (codes "iis")
    || text_eq t (codes "rd-gateway")
    || text_eq t (codes "rd-broker")

-- `[0-9a-f]`
abbrev pub is_hex_digit : ℕ → Bool
is_hex_digit c = is_ascii_digit c || (leb b'a' c && leb c b'f')

abbrev pub zero_or : Text → Text
zero_or [] = codes "0"
zero_or s = s

-- `hex(int(s, 16))`: `int` passes over the newline that `$` lets through
unfoldable pub hex_of : Text → Text
hex_of s = codes "0x" ++ zero_or (drop_while (λ c. c == b'0') (select is_hex_digit s))

-- `s[2:]` of a text that starts with `0x`
abbrev pub without_prefix : Text → Text
without_prefix s = if starts_with s (codes "0x") then drop 2 s else s

abbrev pub max_serial_len : ℕ
max_serial_len = 64

module _ (lib : Library) where
  abbrev pub on_one_line : Text → Text
  on_one_line raw = joined (words (map (λ c. if lib.is_printable c then c else b' ') raw))

  unfoldable pub one_line : Json → Text → ℕ → Result ReportError (Option Text)
  one_line null what limit = ok none
  one_line (text raw) what limit =
      if ltb limit (length (on_one_line raw))
      then refuse (too_long what)
      else ok (or_none (on_one_line raw))
  one_line _ what limit = refuse (not_text what)

  unfoldable pub request_note : Json → Result ReportError (Option Text)
  request_note raw = one_line raw (codes "note") max_note_len

  abbrev pub or_empty : Option Text → Text
  or_empty none = []
  or_empty (some t) = t

  abbrev pub bind_at : Json → Text → Result ReportError (Text × Text)
  bind_at detail target =
      if is_target target
      then (one_line detail (codes "detail") max_bind_detail_len >>= λ d. ok (target, or_empty d))
      else refuse bad_target

  -- the body of the loop of `parse_binds`
  unfoldable pub parse_bind : Json → Result ReportError (Text × Text)
  parse_bind (object entry) = elim (get_or (codes "target") null entry) [
    | text target ↦ bind_at (get_or (codes "detail") null entry) target
    | array js ↦ refuse unhashable
    | object fs ↦ refuse unhashable
    | _ ↦ refuse bad_target
  ]
  parse_bind _ = refuse bad_target

  unfoldable pub parse_binds : Json → Result ReportError (List (Text × Text))
  parse_binds (array js) = do
    refuse_if (not (leb 1 (length (items js)) && leb (length (items js)) max_binds_per_call))
        bad_binds
    for_each parse_bind (items js)
  parse_binds _ = refuse bad_binds

  unfoldable pub normalize_serial : Json → Option Text
  normalize_serial (text raw) =
      let s =
        without_prefix (select (λ c. not (c == b':') && not (c == b' ')) (lib.lower (strip raw))) in
      if is_empty s || ltb max_serial_len (length s) || not (is_hex s)
      then none
      else some (hex_of s)
  normalize_serial _ = none
