-- ===== src/Security/AttemptLimiter/Bounds.antt =====
-- `failure` keeps the table of `AttemptLimiter` within its bound, whatever the keys and the clock.
use cert_generator.Prelude.{
  ℕ, zero, suc, ◌+◌, ◌-◌, ◌≤◌, String, ◌≡◌, refl, List, [], ◌∷◌, arith, length, take, lookup,
  insert, erase, eq_iff, occurs, keys_of, occurs-erase, length-erase,
}
use cert_generator.Security.AttemptLimiter.{
  Config, Entry, Limiter, erase_all, insert_by_last, sort_by_last, drop_overflow, prune, next_entry,
  failure,
}

-- Deleting keys that the table holds as often shortens it by as many.
length-erase_all :
    (keys : List String) (st : Limiter)
    → ((k : String) → occurs k keys ≤ occurs k (keys_of st))
    → length (erase_all keys st) + length keys ≡ length st
unfolding erase_all
length-erase_all [] st h = omega arith
length-erase_all (k ∷ keys) st h =
    let self : 1 ≤ occurs k (keys_of st) = ground (arith, h k, eq_iff k k) in
    let rest : (j : String) → occurs j keys ≤ occurs j (keys_of (erase k st)) =
      λ j. ground (arith, h j, occurs-erase k j st, eq_iff k j) in
    omega (arith, length-erase_all keys (erase k st) rest, length-erase k st self)

occurs-insert_by_last :
    (k : String) (x : String × Entry) (st : Limiter)
    → occurs k (keys_of (insert_by_last x st)) ≡ occurs k (keys_of (x ∷ st))
unfolding insert_by_last
occurs-insert_by_last k x [] = refl
occurs-insert_by_last k x (y ∷ st) = ground (arith, occurs-insert_by_last k x st)

occurs-sort_by_last :
    (k : String) (st : Limiter) → occurs k (keys_of (sort_by_last st)) ≡ occurs k (keys_of st)
unfolding sort_by_last
occurs-sort_by_last k [] = refl
occurs-sort_by_last k (x ∷ st) =
    ground (arith, occurs-insert_by_last k x (sort_by_last st), occurs-sort_by_last k st)

length-insert_by_last :
    (x : String × Entry) (st : Limiter)
    → length (keys_of (insert_by_last x st)) ≡ suc (length (keys_of st))
unfolding insert_by_last
length-insert_by_last x [] = refl
length-insert_by_last x (y ∷ st) = ground (arith, length-insert_by_last x st)

length-sort_by_last : (st : Limiter) → length (keys_of (sort_by_last st)) ≡ length st
unfolding sort_by_last
length-sort_by_last [] = refl
length-sort_by_last (x ∷ st) =
    omega (arith, length-insert_by_last x (sort_by_last st), length-sort_by_last st)

occurs-take : (k : String) (n : ℕ) (keys : List String) → occurs k (take n keys) ≤ occurs k keys
occurs-take k zero keys = omega arith
occurs-take k (suc n) [] = omega arith
occurs-take k (suc n) (j ∷ keys) = ground (arith, occurs-take k n keys)

length-take-le : (n : ℕ) (keys : List String) → n ≤ length keys → length (take n keys) ≡ n
length-take-le zero keys h = refl
length-take-le (suc n) [] h = absurd (omega arith)
length-take-le (suc n) (j ∷ keys) h = omega (arith, length-take-le n keys)

length-erase_oldest :
    (n : ℕ) (st : Limiter)
    → n ≤ length st
    → length (erase_all (take n (keys_of (sort_by_last st))) st) + n ≡ length st
length-erase_oldest n st h =
    let keys = keys_of (sort_by_last st) in
    omega (
      arith,
      length-erase_all (take n keys) st
          (λ k. omega (arith, occurs-take k n keys, occurs-sort_by_last k st)),
      length-take-le n keys (omega (arith, length-sort_by_last st)),
    )

pub length-drop_overflow-le : (c : Config) (st : Limiter) → length (drop_overflow c st) ≤ c.max_keys
unfolding drop_overflow
length-drop_overflow-le c st = ground (arith, length-erase_oldest (length st - c.max_keys) st)

length-prune-le : (c : Config) (now : ℕ) (st : Limiter) → length (prune c now st) ≤ c.max_keys
unfolding prune
length-prune-le c now st = length-drop_overflow-le c _

-- After any failure, at any time and for any key, the table holds at most `max_keys` keys.
pub length-failure-le :
    (c : Config) (now : ℕ) (key : String) (st : Limiter)
    → length (failure c now key st) ≤ c.max_keys
unfolding failure
length-failure-le c now key st =
    let st' = insert key (next_entry c now (lookup key st)) st in
    ground (arith, length-prune-le c now st')
