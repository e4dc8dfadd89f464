-- ===== src/Prelude/Texts.antt =====
-- Python's `str` where the program looks inside one: the code points, as numbers.
use Prim.Native.Nat.{ℕ}
use Prim.Native.Char.{code}
use Prim.Native.String.{String}
use mathlib.Core.Path.{◌≡◌, refl}
use mathlib.Core.Logic.{◌↔◌}
use mathlib.Core.Bool.{Bool, true, false, ◌&&◌, ◌||◌}
use mathlib.Core.List.{List, [], ◌∷◌, ◌++◌, reverse, reverse-append, reverse-reverse}
use native.Mathlib.Omega.{arith}
use cert_generator.Prelude.Tests.{leb, ◌==◌, if◌then◌else◌}

abbrev pub Text : Type 0
Text = List ℕ

-- a text literal
abbrev pub codes : String → Text
codes String.[] = []
codes (String.◌∷◌ c s) = code c ∷ codes s

abbrev pub text_eq : Text → Text → Bool
text_eq [] [] = true
text_eq (a ∷ s) (b ∷ t) = a == b && text_eq s t
text_eq _ _ = false

pub text_eq_iff : (s t : Text) → (text_eq s t ≡ true) ↔ (s ≡ t)
text_eq_iff [] [] = ground arith
text_eq_iff [] (b ∷ t) = ground arith
text_eq_iff (a ∷ s) [] = ground arith
text_eq_iff (a ∷ s) (b ∷ t) = ground (arith, text_eq_iff s t)

pub text_eq_refl : (s : Text) → text_eq s s ≡ true
text_eq_refl s = (text_eq_iff s s).1 refl

-- `c in s`
abbrev pub contains : ℕ → Text → Bool
contains c [] = false
contains c (a ∷ s) = a == c || contains c s

-- `s.startswith(p)`
abbrev pub starts_with : Text → Text → Bool
starts_with s [] = true
starts_with [] (b ∷ p) = false
starts_with (a ∷ s) (b ∷ p) = a == b && starts_with s p

-- `sub in s`
abbrev pub contains_text : Text → Text → Bool
contains_text [] [] = true
contains_text (b ∷ sub) [] = false
contains_text sub (c ∷ s) = starts_with (c ∷ s) sub || contains_text sub s

-- `s.endswith(p)`
abbrev pub ends_with : Text → Text → Bool
ends_with s p = starts_with (reverse s) (reverse p)

abbrev pub drop_while : (ℕ → Bool) → Text → Text
drop_while p [] = []
drop_while p (a ∷ s) = if p a then drop_while p s else a ∷ s

abbrev pub drop_while_end : (ℕ → Bool) → Text → Text
drop_while_end p s = reverse (drop_while p (reverse s))

-- what `str.strip` takes off: the white space of Unicode
abbrev pub is_space : ℕ → Bool
is_space c =
    (leb 9 c && leb c 13)
    || (leb 28 c && leb c 32)
    || c == 0x85
    || c == 0xa0
    || c == 0x1680
    || (leb 0x2000 c && leb c 0x200a)
    || c == 0x2028
    || c == 0x2029
    || c == 0x202f
    || c == 0x205f
    || c == 0x3000

-- `s.strip()`
unfoldable pub strip : Text → Text
strip s = drop_while_end is_space (drop_while is_space s)

-- `s.rstrip(".")`
unfoldable pub rstrip_dots : Text → Text
rstrip_dots s = drop_while_end (λ c. c == b'.') s

abbrev cons_first : ℕ → List Text → List Text
cons_first c [] = (c ∷ []) ∷ []
cons_first c (part ∷ parts) = (c ∷ part) ∷ parts

-- `s.split(sep)` for a separator of one character
unfoldable pub split_on : ℕ → Text → List Text
split_on sep [] = [] ∷ []
split_on sep (c ∷ s) =
    let parts = split_on sep s in if c == sep then [] ∷ parts else cons_first c parts

pub starts_with_iff : (s p : Text) → (starts_with s p ≡ true) ↔ ((t : Text) × (s ≡ p ++ t))
starts_with_iff s [] = (λ h. (s, refl), λ h. refl)
starts_with_iff [] (b ∷ p) = (λ h. ground arith, λ h. ground (arith, h.1))
starts_with_iff (a ∷ s) (b ∷ p) = (
  λ h. let (t, e) = (starts_with_iff s p).0 (ground arith) in (t, ground (arith, e)),
  λ h. ground (arith, h.1, (starts_with_iff s p).1 (h.0, ground (arith, h.1))),
)

pub ends_with_iff : (s p : Text) → (ends_with s p ≡ true) ↔ ((t : Text) × (s ≡ t ++ p))
ends_with_iff s p = (
  λ h.
      let (t, e) = (starts_with_iff (reverse s) (reverse p)).0 h in
      (
        reverse t,
        rw (← reverse-reverse s, e, reverse-append (reverse p) t, reverse-reverse p) refl,
      ),
  λ h.
      (starts_with_iff (reverse s) (reverse p)).1
        (reverse h.0, rw (h.1, reverse-append h.0 p) refl),
)
