-- ===== src/Security/AttemptLimiter.antt =====
-- `AttemptLimiter` of app/security.py: a lockout after repeated failures, per key. A call of
-- `time.monotonic` is the argument `now`, in whole ticks; the lock makes each method one step.
pub mod Bounds
pub mod Lockout
pub mod Unlock
use cert_generator.Prelude.{
  ℕ, ◌+◌, ◌-◌, ◌*◌, ◌^◌, min, String, Bool, ◌&&◌, Option, none, some, List, [], ◌∷◌, length, take,
  select, ltb, leb, if◌then◌else◌, Dict, lookup, insert, erase, keys_of,
}

-- the constructor's arguments
pub record Config : Type 0 where
  pub max_failures : ℕ
  pub base_lockout : ℕ
  pub max_lockout : ℕ
  pub window : ℕ
  pub max_keys : ℕ

pub record Entry : Type 0 where
  pub count : ℕ
  pub last : ℕ
  pub locked_until : ℕ

-- `_state`
abbrev pub Limiter : Type 0
Limiter = Dict Entry

retry_entry : ℕ → Option Entry → ℕ
retry_entry now none = 0
retry_entry now (some e) = e.locked_until - now

unfoldable pub retry_after : ℕ → String → Limiter → ℕ
unfolding retry_entry
retry_after now key st = retry_entry now (lookup key st)

-- `self._state.get(key, (0, now, 0.0))`
abbrev entry_or_new : ℕ → Option Entry → Entry
entry_or_new now none = record { count = 0; last = now; locked_until = 0 }
entry_or_new now (some e) = e

unfoldable pub lock_time : Config → ℕ → ℕ → ℕ
lock_time c now count =
    if leb c.max_failures count
    then now + min (c.base_lockout * 2 ^ (count - c.max_failures)) c.max_lockout
    else 0

-- the entry that `failure` writes
unfoldable pub next_entry : Config → ℕ → Option Entry → Entry
unfolding lock_time
next_entry c now old =
    let e = entry_or_new now old in
    let count = (if ltb c.window (now - e.last) then 0 else e.count) + 1 in
    record { count = count; last = now; locked_until = lock_time c now count }

-- `for k in keys: del self._state[k]`
unfoldable pub erase_all : List String → Limiter → Limiter
erase_all [] st = st
erase_all (k ∷ keys) st = erase_all keys (erase k st)

abbrev is_stale : Config → ℕ → String × Entry → Bool
is_stale c now (k, e) = leb e.locked_until now && ltb c.window (now - e.last)

-- `sorted(self._state, key=lambda k: self._state[k][1])`: stable, oldest failure first
unfoldable pub insert_by_last : String × Entry → Limiter → Limiter
insert_by_last x [] = x ∷ []
insert_by_last x (y ∷ ys) =
    if leb (x.1).last (y.1).last then x ∷ y ∷ ys else y ∷ insert_by_last x ys

unfoldable pub sort_by_last : Limiter → Limiter
unfolding insert_by_last
sort_by_last [] = []
sort_by_last (x ∷ xs) = insert_by_last x (sort_by_last xs)

unfoldable pub drop_overflow : Config → Limiter → Limiter
unfolding erase_all sort_by_last
drop_overflow c st =
    let overflow = length st - c.max_keys in
    if ltb 0 overflow then erase_all (take overflow (keys_of (sort_by_last st))) st else st

unfoldable pub prune : Config → ℕ → Limiter → Limiter
unfolding drop_overflow erase_all
prune c now st = drop_overflow c (erase_all (keys_of (select (is_stale c now) st)) st)

unfoldable pub failure : Config → ℕ → String → Limiter → Limiter
unfolding next_entry prune
failure c now key st =
    let st' = insert key (next_entry c now (lookup key st)) st in
    if ltb c.max_keys (length st') then prune c now st' else st'

unfoldable pub success : String → Limiter → Limiter
success key st = erase key st

unfoldable pub reset : Limiter → Limiter
reset st = []
