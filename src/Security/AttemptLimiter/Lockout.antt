-- ===== src/Security/AttemptLimiter/Lockout.antt =====
-- What `AttemptLimiter` does to a key that keeps failing, and to one that succeeds.
use cert_generator.Prelude.{
  ℕ, suc, ◌+◌, ◌-◌, ◌*◌, ◌^◌, ◌≤◌, ◌<◌, min, String, ◌≡◌, none, some, List, [], ◌∷◌, arith, length,
  leb, if◌then◌else◌, lookup, insert, lookup-insert, eq_refl, ap, ◌∙◌, length-insert-le,
  length-insert_old,
}
use native.Mathlib.Nat.{add-zero, add_comm}
use native.Mathlib.Numerals.{add-one}
use cert_generator.Security.AttemptLimiter.{
  Config, Entry, Limiter, retry_after, lock_time, next_entry, failure,
}

-- failures of one key at these times
unfoldable pub fail_all : Config → String → List ℕ → Limiter → Limiter
fail_all c key [] st = st
fail_all c key (t ∷ ts) st = fail_all c key ts (failure c t key st)

-- Each failure comes after the one before it, and no later than the window allows.
abbrev pub IsSpaced : ℕ → ℕ → List ℕ → Type 0
IsSpaced window t [] = Unit
IsSpaced window t (u ∷ ts) = (t ≤ u) × (u - t ≤ window) × IsSpaced window u ts

abbrev pub last_of : ℕ → List ℕ → ℕ
last_of t [] = t
last_of t (u ∷ ts) = last_of u ts

-- With room in the table a failure only writes its own entry.
failure-room :
    (c : Config) (now : ℕ) (key : String) (st : Limiter)
    → length (insert key (next_entry c now (lookup key st)) st) ≤ c.max_keys
    → failure c now key st ≡ insert key (next_entry c now (lookup key st)) st
unfolding failure
failure-room c now key st h = ground arith

abbrev entry_at : Config → ℕ → ℕ → Entry
entry_at c t n = record { count = n; last = t; locked_until = lock_time c t n }

next_entry-none : (c : Config) (t : ℕ) → next_entry c t none ≡ entry_at c t 1
unfolding next_entry
next_entry-none c t = ground arith

next_entry-some :
    (c : Config) (t u n : ℕ)
    → u - t ≤ c.window
    → next_entry c u (some (entry_at c t n)) ≡ entry_at c u (n + 1)
unfolding next_entry
next_entry-some c t u n h = ground arith

lookup-failure :
    (c : Config) (u : ℕ) (key : String) (st : Limiter) (e : Entry)
    → next_entry c u (lookup key st) ≡ e
    → length (insert key e st) ≤ c.max_keys
    → lookup key (failure c u key st) ≡ some e
lookup-failure c u key st e h room =
    rw (failure-room c u key st (rw h room), h) (simp (lookup-insert, eq_refl))

length-failure_room :
    (c : Config) (u : ℕ) (key : String) (st : Limiter) (e : Entry)
    → next_entry c u (lookup key st) ≡ e
    → length (insert key e st) ≤ c.max_keys
    → length (failure c u key st) ≤ c.max_keys
length-failure_room c u key st e h room = rw (failure-room c u key st (rw h room), h) room

lookup-fail_all :
    (c : Config) (key : String) (t n : ℕ) (ts : List ℕ) (st : Limiter)
    → lookup key st ≡ some (entry_at c t n)
    → length st ≤ c.max_keys
    → IsSpaced c.window t ts
    → lookup key (fail_all c key ts st) ≡ some (entry_at c (last_of t ts) (n + length ts))
unfolding fail_all
lookup-fail_all c key t n [] st h room spaced = rw (h, add-zero)
lookup-fail_all c key t n (u ∷ ts) st h room spaced =
    let next : next_entry c u (lookup key st) ≡ entry_at c u (n + 1) =
      rw h (next_entry-some c t u n (omega arith)) in
    let fits : length (insert key (entry_at c u (n + 1)) st) ≤ c.max_keys =
      omega (arith, length-insert_old key (entry_at c u (n + 1)) st (rw h)) in
    lookup-fail_all c key u (n + 1) ts (failure c u key st) (lookup-failure c u key st _ next fits)
      (length-failure_room c u key st _ next fits) spaced.2
    ∙ ap (λ k. some (entry_at c (last_of u ts) k)) (omega arith)

-- From a table where the key is free and there is room, n failures in a row, each within the
-- window of the one before it, leave a wait of `base * 2 ^ (n - max)` (at most `max_lockout`)
-- counted from the last one if n reaches `max_failures`, and no wait before that.
pub retry_after-fail_all :
    (c : Config) (key : String) (t now : ℕ) (ts : List ℕ) (st : Limiter)
    → lookup key st ≡ none
    → length st < c.max_keys
    → IsSpaced c.window t ts
    → let n = suc (length ts) in
      retry_after now key (fail_all c key (t ∷ ts) st) ≡ (
        if leb c.max_failures n
        then last_of t ts + min (c.base_lockout * 2 ^ (n - c.max_failures)) c.max_lockout - now
        else 0)
unfolding retry_after fail_all lock_time
retry_after-fail_all c key t now ts st free room spaced =
    let next : next_entry c t (lookup key st) ≡ entry_at c t 1 = rw free (next_entry-none c t) in
    let fits : length (insert key (entry_at c t 1) st) ≤ c.max_keys =
      omega (arith, length-insert-le key (entry_at c t 1) st) in
    rw
      (
        lookup-fail_all c key t 1 ts (failure c t key st) (lookup-failure c t key st _ next fits)
            (length-failure_room c t key st _ next fits) spaced,
        add_comm 1 (length ts),
        add-one (length ts),
      )
      (ground arith)
