-- ===== src/Security/RateLimiter.antt =====
-- `RateLimiter` of app/security.py: at most `limit` hits in a fixed window, per key. A call of
-- `time.monotonic` is the argument `now`, in whole ticks; the lock makes each method one step.
pub mod Bounds
pub mod Quota
use cert_generator.Prelude.{
  ℕ, ◌+◌, ◌-◌, String, Bool, true, false, not, ◌&&◌, Option, none, some, List, [], ◌∷◌, length,
  select, ltb, leb, is_some, if◌then◌else◌, Dict, lookup, insert,
}

-- the constructor's arguments
pub record Config : Type 0 where
  pub limit : ℕ
  pub window : ℕ
  pub max_keys : ℕ

pub record Hits : Type 0 where
  pub start : ℕ
  pub count : ℕ

-- `_hits`
abbrev pub Table : Type 0
Table = Dict Hits

-- the key's window at `now`: a new one when it has none or the old one is over
unfoldable pub current_window : Config → ℕ → Option Hits → Hits
current_window c now none = record { start = now; count = 0 }
current_window c now (some h) =
    if leb c.window (now - h.start) then record { start = now; count = 0 } else h

abbrev is_open : Config → ℕ → String × Hits → Bool
is_open c now (k, h) = ltb (now - h.start) c.window

abbrev add_hit : String → Hits → Table → Table
add_hit key h hits = insert key (record h { count = h.count + 1 }) hits

-- the part of `allow` below the test of the limit: room is made for a new key, or it is refused
unfoldable pub make_room : Config → ℕ → String → Hits → Table → Table × Bool
make_room c now key h hits =
    if not (is_some (lookup key hits)) && leb c.max_keys (length hits)
    then (let kept = select (is_open c now) hits in
        if leb c.max_keys (length kept) then (kept, false) else (add_hit key h kept, true))
    else (add_hit key h hits, true)

unfoldable pub allow : Config → ℕ → String → Table → Table × Bool
unfolding current_window make_room
allow c now key hits =
    let h = current_window c now (lookup key hits) in
    if leb c.limit h.count then (hits, false) else make_room c now key h hits

unfoldable pub reset : Table → Table
reset hits = []
