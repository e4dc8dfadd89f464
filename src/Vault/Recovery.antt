-- ===== src/Vault/Recovery.antt =====
-- A recovery key as it is shown, by `generate_recovery_key` of app/crypto_engine.py, is read back
-- by `normalize_recovery_key`.
use cert_generator.Prelude.{
  ℕ, zero, suc, ◌+◌, ◌*◌, ◌≡◌, refl, ap, ◌∙◌, Bool, true, false, not, some, [], ◌∷◌, ◌++◌, map, all,
  length, take, drop, contains, ◌==◌, Text, is_space, arith, Bool-cases, inl, inr, subst, ==_iff,
}
use cert_generator.Vault.{Crypto}
use cert_generator.Vault.Keys.{
  recovery_alphabet, recovery_len, without, alias_of, join_groups, drawn_chars,
  generate_recovery_key, normalize_recovery_key,
}

-- What holds of every letter holds of each.
all-contains : (q : ℕ → Bool) (s : Text) (c : ℕ) → all q s ≡ true → contains c s ≡ true → q c ≡ true
all-contains q [] c h m = ground arith
all-contains q (a ∷ s) c h m = elim (Bool-cases (a == c)) [
  | inl e ↦ subst (λ x. q x ≡ true) ((==_iff a c).0 e) (ground (arith, h))
  | inr e ↦ all-contains q s c (ground (arith, h)) (ground (arith, m, e))
]

abbrev is_letter : ℕ → Bool
is_letter c = contains c recovery_alphabet

not-true : (b : Bool) → not b ≡ true → b ≡ false
not-true true h = ground arith
not-true false h = refl

without-append : (p : ℕ → Bool) (s t : Text) → without p (s ++ t) ≡ without p s ++ without p t
without-append p [] t = refl
without-append p (c ∷ s) t = elim (Bool-cases (p c)) [
  | inl e ↦ rw e (without-append p s t)
  | inr e ↦ rw e (ap (λ r. c ∷ r) (without-append p s t))
]

-- A function that leaves each character of a kind leaves a text of them.
module _ (q : ℕ → Bool) where
  without-none :
      (p : ℕ → Bool)
      → ((c : ℕ) → q c ≡ true → p c ≡ false)
      → (s : Text) → all q s ≡ true
      → without p s ≡ s
  without-none p never [] h = refl
  without-none p never (c ∷ s) h =
      rw (never c (ground (arith, h)))
        (ap (λ r. c ∷ r) (without-none p never s (ground (arith, h))))

  map-fixed :
      (f : ℕ → ℕ) → ((c : ℕ) → q c ≡ true → f c ≡ c) → (s : Text) → all q s ≡ true → map f s ≡ s
  map-fixed f fixed [] h = refl
  map-fixed f fixed (c ∷ s) h =
      rw (fixed c (ground (arith, h)), map-fixed f fixed s (ground (arith, h))) refl

take-drop : (n : ℕ) (s : Text) → take n s ++ drop n s ≡ s
take-drop zero s = refl
take-drop (suc n) [] = refl
take-drop (suc n) (c ∷ s) = ap (λ r. c ∷ r) (take-drop n s)

take-all : (n : ℕ) (s : Text) → length s ≡ n → take n s ≡ s
take-all zero [] h = refl
take-all zero (c ∷ s) h = absurd (omega (arith, h))
take-all (suc n) [] h = refl
take-all (suc n) (c ∷ s) h = ap (λ r. c ∷ r) (take-all n s (omega (arith, h)))

all-take-drop :
    (p : ℕ → Bool) (n : ℕ) (s : Text)
    → all p s ≡ true
    → (all p (take n s) ≡ true) × (all p (drop n s) ≡ true)
all-take-drop p zero s h = (refl, h)
all-take-drop p (suc n) [] h = (refl, refl)
all-take-drop p (suc n) (c ∷ s) h = ground (arith, all-take-drop p n s)

length-drop : (n : ℕ) (s : Text) (m : ℕ) → length s ≡ n + m → length (drop n s) ≡ m
length-drop zero s m h = omega (arith, h)
length-drop (suc n) [] m h = ground arith
length-drop (suc n) (c ∷ s) m h = length-drop n s m (omega (arith, h))

-- a text whose characters are neither space nor dash
module _ (q : ℕ → Bool) (no_space : (c : ℕ) → q c ≡ true → is_space c ≡ false)
    (no_dash : (c : ℕ) → q c ≡ true → (c == b'-') ≡ false) where
  abbrev plain : Text → Text
  plain s = without (λ c. c == b'-') (without is_space s)

  plain-fixed : (s : Text) → all q s ≡ true → plain s ≡ s
  plain-fixed s h =
      rw (without-none q is_space no_space s h) (without-none q (λ c. c == b'-') no_dash s h)

  plain-dash : (s t : Text) → plain (s ++ b'-' ∷ t) ≡ plain s ++ plain t
  plain-dash s t =
      ap (without (λ c. c == b'-')) (without-append is_space s (b'-' ∷ t))
      ∙ without-append (λ c. c == b'-') (without is_space s) (b'-' ∷ without is_space t)

  -- Without the dashes the groups are the text again.
  plain-join_groups :
      (n : ℕ) (s : Text) → length s ≡ 5 * n → all q s ≡ true → plain (join_groups n s) ≡ s
  unfolding join_groups
  plain-join_groups zero [] len h = refl
  plain-join_groups zero (c ∷ s) len h = absurd (omega (arith, len))
  plain-join_groups (suc zero) s len h = rw (take-all 5 s (omega (arith, len))) (plain-fixed s h)
  plain-join_groups (suc (suc n)) s len h =
      let (first, others) = all-take-drop q 5 s h in
      plain-dash (take 5 s) (join_groups (suc n) (drop 5 s))
      ∙ rw
          (
            plain-fixed (take 5 s) first,
            plain-join_groups (suc n) (drop 5 s) (length-drop 5 s (5 * suc n) (omega (arith, len)))
                others,
          )
          (take-drop 5 s)

letter_no_space : (c : ℕ) → is_letter c ≡ true → is_space c ≡ false
letter_no_space c h =
    let e = all-contains (λ x. not (is_space x)) recovery_alphabet c refl h in
    not-true (is_space c) e

letter_no_dash : (c : ℕ) → is_letter c ≡ true → (c == b'-') ≡ false
letter_no_dash c h =
    not-true (c == b'-') (all-contains (λ x. not (x == b'-')) recovery_alphabet c refl h)

letter_fixed : (c : ℕ) → is_letter c ≡ true → alias_of c ≡ c
letter_fixed c h =
    (==_iff (alias_of c) c).0 (all-contains (λ x. alias_of x == x) recovery_alphabet c refl h)

-- what `secrets.choice` and `str.upper` are documented to do with the letters of recovery keys
pub record IsChoice (lib : Crypto) : Type 0 where
  pub choice-letter : (i : ℕ) → contains (lib.choice recovery_alphabet i) recovery_alphabet ≡ true
  pub upper-letters :
      (s : Text) → all (λ c. contains c recovery_alphabet) s ≡ true → lib.upper s ≡ s

module _ (lib : Crypto) (h : IsChoice lib) where
  length-drawn_chars : (i n : ℕ) → length (drawn_chars lib i n) ≡ n
  unfolding drawn_chars
  length-drawn_chars i zero = refl
  length-drawn_chars i (suc n) = ap suc (length-drawn_chars (suc i) n)

  all-drawn_chars : (i n : ℕ) → all is_letter (drawn_chars lib i n) ≡ true
  unfolding drawn_chars
  all-drawn_chars i zero = refl
  all-drawn_chars i (suc n) = rw (h.choice-letter i) (all-drawn_chars (suc i) n)

  -- A recovery key as it is generated and shown, whatever characters are drawn, is read as those 25
  -- characters.
  pub normalize_recovery_key-generate_recovery_key :
      (drawing : ℕ)
      → normalize_recovery_key lib (generate_recovery_key lib drawing)
        ≡ some (drawn_chars lib drawing recovery_len)
  unfolding normalize_recovery_key generate_recovery_key
  normalize_recovery_key-generate_recovery_key drawing =
      let s = drawn_chars lib drawing recovery_len in
      let letters = all-drawn_chars drawing recovery_len in
      let len = length-drawn_chars drawing recovery_len in
      rw
        (
          plain-join_groups is_letter letter_no_space letter_no_dash 5 s len letters,
          h.upper-letters s letters,
          map-fixed is_letter alias_of letter_fixed s letters,
          len,
          letters,
        )
        refl
