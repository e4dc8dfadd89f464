-- ===== src/Prelude/Counts.antt =====
-- How the statements of SQL change the number of rows that meet a condition.
use Prim.Native.Nat.{◌+◌, ◌≤◌}
use mathlib.Core.Path.{◌≡◌, refl}
use mathlib.Core.Bool.{Bool, true, false, not, ◌&&◌, ◌||◌}
use mathlib.Core.Option.{none, some}
use mathlib.Core.List.{List, [], ◌∷◌, ◌++◌}
use native.Mathlib.Omega.{arith}
use cert_generator.Prelude.Tests.{if◌then◌else◌}
use cert_generator.Prelude.Lists.{any}
use cert_generator.Prelude.Tables.{find, update_where, delete_where, count_where}

module _ {ℓ} {A : Type ℓ} where
  pub count-update :
      (p q p' : A → Bool) (f : A → A)
      → ((x : A) → (if q x then p (f x) else p x) ≡ p' x)
      → (xs : List A) → count_where p (update_where q f xs) ≡ count_where p' xs
  count-update p q p' f h [] = refl
  count-update p q p' f h (x ∷ xs) = ground (arith, h x, count-update p q p' f h xs)

  pub count-cong :
      (p q : A → Bool) → ((x : A) → p x ≡ q x) → (xs : List A) → count_where p xs ≡ count_where q xs
  count-cong p q h [] = refl
  count-cong p q h (x ∷ xs) = ground (arith, h x, count-cong p q h xs)

  pub count_mono :
      (p q : A → Bool)
      → ((x : A) → p x ≡ true → q x ≡ true)
      → (xs : List A) → count_where p xs ≤ count_where q xs
  count_mono p q h [] = omega arith
  count_mono p q h (x ∷ xs) = ground (arith, h x, count_mono p q h xs)

  pub count-delete :
      (p q : A → Bool) (xs : List A)
      → count_where p (delete_where q xs) ≡ count_where (λ x. p x && not (q x)) xs
  count-delete p q [] = refl
  count-delete p q (x ∷ xs) = ground (arith, count-delete p q xs)

  pub count-split :
      (p q : A → Bool) (xs : List A)
      → count_where p xs ≡ count_where (λ x. p x && q x) xs + count_where (λ x. p x && not (q x)) xs
  count-split p q [] = omega arith
  count-split p q (x ∷ xs) = ground (arith, count-split p q xs)

  pub count-append :
      (p : A → Bool) (xs ys : List A)
      → count_where p (xs ++ ys) ≡ count_where p xs + count_where p ys
  count-append p [] ys = omega arith
  count-append p (x ∷ xs) ys = ground (arith, count-append p xs ys)

  pub count-none : (p : A → Bool) → ((x : A) → p x ≡ false) → (xs : List A) → count_where p xs ≡ 0
  count-none p h [] = refl
  count-none p h (x ∷ xs) = ground (arith, h x, count-none p h xs)

  pub count-any-false : (p : A → Bool) (xs : List A) → any p xs ≡ false → count_where p xs ≡ 0
  count-any-false p [] h = refl
  count-any-false p (x ∷ xs) h = ground (arith, count-any-false p xs)

  pub count-find : (p : A → Bool) (xs : List A) → find p xs ≡ none → count_where p xs ≡ 0
  count-find p [] h = refl
  count-find p (x ∷ xs) h = ground (arith, count-find p xs)

  -- a row that `find` returned meets the condition, and is counted by any other that it meets
  pub find-holds : (p : A → Bool) (x : A) (xs : List A) → find p xs ≡ some x → p x ≡ true
  find-holds p x [] h = cc
  find-holds p x (y ∷ ys) h = ground (arith, find-holds p x ys)

  pub count-find_pos :
      (p q : A → Bool) (x : A) (xs : List A)
      → find p xs ≡ some x
      → q x ≡ true
      → 1 ≤ count_where q xs
  count-find_pos p q x [] h e = cc
  count-find_pos p q x (y ∷ ys) h e = ground (arith, count-find_pos p q x ys)

  pub count-or-le :
      (p q : A → Bool) (xs : List A)
      → count_where (λ x. p x || q x) xs ≤ count_where p xs + count_where q xs
  count-or-le p q [] = omega arith
  count-or-le p q (x ∷ xs) = ground (arith, count-or-le p q xs)
