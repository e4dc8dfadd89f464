-- ===== src/Prelude/Results.antt =====
-- Results of functions that may raise, and what a chain of them ensures.
use Prim.Native.Nat.{suc}
use mathlib.Core.Path.{◌≡◌, refl, ap}
use mathlib.Core.Bool.{Bool, true, false}
use mathlib.Core.Option.{Option, none, some}
use mathlib.Core.List.{List, [], ◌∷◌}
use native.Mathlib.Omega.{arith}
use cert_generator.Prelude.Lists.{length, All}

-- The value, or the exception, with what its message tells of.
pub data Result {ℓ κ} (E : Type κ) (A : Type ℓ) : Type (ℓ ⊔ κ) where
  ok : A → Result E A
  refuse : E → Result E A

infixl 10 ◌>>=◌
abbrev pub ◌>>=◌ {ℓ κ μ} :
    {E : Type μ} {A : Type ℓ} {B : Type κ} → Result E A → (A → Result E B) → Result E B
ok a >>= f = f a
refuse e >>= f = refuse e

infixl 10 ◌>>◌
abbrev pub ◌>>◌ {ℓ μ} : {E : Type μ} {A : Type ℓ} → Result E (Unit {0}) → Result E A → Result E A
m >> k = m >>= λ _. k

-- `if test: raise`
abbrev pub refuse_if {μ} : {E : Type μ} → Bool → E → Result E (Unit {0})
refuse_if true e = refuse e
refuse_if false e = ok tt

-- the value, or the exception that its absence stands for
abbrev pub or_raise {ℓ μ} : {E : Type μ} {A : Type ℓ} → E → Option A → Result E A
or_raise e none = refuse e
or_raise e (some a) = ok a

-- `try: … except: raise e`
abbrev pub or_else_raise {ℓ μ ν} :
    {E : Type μ} {D : Type ν} {A : Type ℓ} → E → Result D A → Result E A
or_else_raise e (ok a) = ok a
or_else_raise e (refuse d) = refuse e

-- `[f(x) for x in xs]`, where `f` may raise
abbrev pub for_each {ℓ κ μ} :
    {E : Type μ} {A : Type ℓ} {B : Type κ} → (A → Result E B) → List A → Result E (List B)
for_each f [] = ok []
for_each f (a ∷ xs) = f a >>= λ b. for_each f xs >>= λ bs. ok (b ∷ bs)

-- A chain gives a value only if its first step does, and the rest from that.
pub bind-ok {ℓ κ μ} :
    {E : Type μ} {A : Type ℓ} {B : Type κ} (m : Result E A) (f : A → Result E B) (b : B)
    → m >>= f ≡ ok b
    → (a : A) × (m ≡ ok a) × (f a ≡ ok b)
bind-ok (ok a) f b e = (a, refl, e)
bind-ok (refuse x) f b e = ground arith

pub ok-injective {ℓ μ} :
    {E : Type μ} {A : Type ℓ} (r : Result E A) {a b : A} → r ≡ ok a → r ≡ ok b → a ≡ b
ok-injective r h k = ground (arith, h, k)

pub refuse_if-ok {μ} :
    {E : Type μ} (b : Bool) (e : E) (u : Unit {0}) → refuse_if b e ≡ ok u → b ≡ false
refuse_if-ok true e u h = ground arith
refuse_if-ok false e u h = refl

-- What `f` ensures of each result.
pub for_each-All {ℓ κ μ ν} :
    {E : Type μ} {A : Type ℓ} {B : Type κ} (P : B → Type ν) (f : A → Result E B)
    → ((a : A) (b : B) → f a ≡ ok b → P b)
    → (xs : List A) (ys : List B) → for_each f xs ≡ ok ys
    → All P ys × (length ys ≡ length xs)
for_each-All P f h [] [] e = (tt, refl)
for_each-All P f h [] (y ∷ ys) e = ground arith
for_each-All P f h (a ∷ xs) ys e =
    let (b, fa, rest) = bind-ok (f a) (λ b. for_each f xs >>= λ bs. ok (b ∷ bs)) ys e in
    let (bs, fxs, last) = bind-ok (for_each f xs) (λ bs. ok (b ∷ bs)) ys rest in
    let (others, same) = for_each-All P f h xs bs fxs in
    let eq : b ∷ bs ≡ ys = ground (arith, last) in rw (← eq) ((h a b fa, others), ap suc same)
