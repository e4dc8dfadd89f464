-- ===== src/Prelude/Keys.antt =====
-- The keys of a dict, and the invariant of a Python dict that no key stands in it twice.
use Prim.Native.Nat.{ℕ, suc, ◌+◌, ◌-◌, ◌≤◌, max}
use Prim.Native.String.{String}
use mathlib.Core.Path.{◌≡◌}
use mathlib.Core.Bool.{Bool, true}
use mathlib.Core.Option.{Option, none, some}
use mathlib.Core.List.{List, [], ◌∷◌, map}
use native.Mathlib.Omega.{arith}
use text.Mathlib.Text.{◌==◌ as str_eq}
use text.Mathlib.TextEquality.{eq_iff}
use cert_generator.Prelude.Tests.{if◌then◌else◌, is_some}
use cert_generator.Prelude.Lists.{length}
use cert_generator.Prelude.Tables.{select}
use cert_generator.Prelude.Dicts.{Dict, lookup, insert, erase}

-- how often a key stands in a list of keys
abbrev pub occurs : String → List String → ℕ
occurs k [] = 0
occurs k (j ∷ keys) = if str_eq j k then suc (occurs k keys) else occurs k keys

module _ {ℓ} {V : Type ℓ} where
  abbrev pub keys_of : Dict V → List String
  keys_of = map (λ item. item.0)

module _ {ℓ} {V : Type ℓ} where
  pub occurs-erase :
      (k j : String) (d : Dict V)
      → occurs j (keys_of (erase k d)) ≡ occurs j (keys_of d) - (if str_eq k j then 1 else 0)
  occurs-erase k j [] = ground arith
  occurs-erase k j ((i, v) ∷ d) =
      ground (arith, eq_iff i k, eq_iff i j, eq_iff k j, occurs-erase k j d)

  pub occurs-insert :
      (k j : String) (v : V) (d : Dict V)
      → occurs j (keys_of (insert k v d))
        ≡ (if str_eq k j then max 1 (occurs j (keys_of d)) else occurs j (keys_of d))
  occurs-insert k j v [] = ground arith
  occurs-insert k j v ((i, w) ∷ d) =
      ground (arith, eq_iff i k, eq_iff i j, eq_iff k j, occurs-insert k j v d)

  pub length-erase :
      (k : String) (d : Dict V) → 1 ≤ occurs k (keys_of d) → length (erase k d) + 1 ≡ length d
  length-erase k [] h = absurd (omega arith)
  length-erase k ((i, v) ∷ d) h = ground (arith, length-erase k d)

  pub length-insert-le : (k : String) (v : V) (d : Dict V) → length (insert k v d) ≤ length d + 1
  length-insert-le k v [] = omega arith
  length-insert-le k v ((j, w) ∷ d) = ground (arith, length-insert-le k v d)

  pub length-insert_old :
      (k : String) (v : V) (d : Dict V)
      → is_some (lookup k d) ≡ true
      → length (insert k v d) ≡ length d
  length-insert_old k v [] h = cc
  length-insert_old k v ((j, w) ∷ d) h = ground (arith, length-insert_old k v d)

  pub lookup-eq-none : (k : String) (d : Dict V) → occurs k (keys_of d) ≡ 0 → lookup k d ≡ none
  lookup-eq-none k [] h = ground arith
  lookup-eq-none k ((j, v) ∷ d) h = ground (arith, lookup-eq-none k d)

  pub lookup-erase :
      (k j : String) (d : Dict V)
      → occurs k (keys_of d) ≤ 1
      → lookup j (erase k d) ≡ (if str_eq k j then none else lookup j d)
  lookup-erase k j [] h = ground arith
  lookup-erase k j ((i, v) ∷ d) h =
      ground (arith, eq_iff i k, eq_iff i j, eq_iff k j, lookup-erase k j d, lookup-eq-none k d)

  pub occurs-select-le :
      (p : String × V → Bool) (k : String) (d : Dict V)
      → occurs k (keys_of (select p d)) ≤ occurs k (keys_of d)
  occurs-select-le p k [] = omega arith
  occurs-select-le p k ((i, v) ∷ d) = ground (arith, occurs-select-le p k d)

  pub length-select-le : (p : String × V → Bool) (d : Dict V) → length (select p d) ≤ length d
  length-select-le p [] = omega arith
  length-select-le p (x ∷ d) = ground (arith, length-select-le p d)

  abbrev pub keep_if : (V → Bool) → Option V → Option V
  keep_if p none = none
  keep_if p (some v) = if p v then some v else none

module _ {ℓ} {V : Type ℓ} where
  -- `{k: v for k, v in d.items() if p(v)}`
  pub lookup-select :
      (p : V → Bool) (k : String) (d : Dict V)
      → occurs k (keys_of d) ≤ 1
      → lookup k (select (λ item. p item.1) d) ≡ keep_if p (lookup k d)
  lookup-select p k [] h = ground arith
  lookup-select p k ((i, v) ∷ d) h = ground (
    arith,
    lookup-select p k d,
    lookup-eq-none k d,
    lookup-eq-none k (select (λ (item : String × V). p item.1) d),
    occurs-select-le (λ (item : String × V). p item.1) k d,
  )

-- no key twice
pub record IsUnique {ℓ} {V : Type ℓ} (d : Dict V) : Type 0 where
  pub once : (k : String) → occurs k (keys_of d) ≤ 1
