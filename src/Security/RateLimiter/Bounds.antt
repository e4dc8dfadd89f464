-- ===== src/Security/RateLimiter/Bounds.antt =====
-- However many keys ask, the table of `RateLimiter` keeps within its bound.
use cert_generator.Prelude.{
  ℕ, ◌+◌, ◌≤◌, String, arith, length, select, lookup, length-insert-le, length-insert_old,
  length-select-le,
}
use cert_generator.Security.RateLimiter.{
  Config, Hits, Table, current_window, is_open, make_room, allow,
}

length-make_room-le :
    (c : Config) (now : ℕ) (key : String) (h : Hits) (t : Table)
    → length t ≤ c.max_keys
    → length (make_room c now key h t).0 ≤ c.max_keys
unfolding make_room
length-make_room-le c now key h t room =
    let h' : Hits = record h { count = h.count + 1 } in
    ground (
      arith,
      length-insert-le key h' t,
      length-insert_old key h' t,
      length-insert-le key h' (select (is_open c now) t),
      length-select-le (is_open c now) t,
    )

-- From a table of at most `max_keys` keys, any call leaves one of at most `max_keys`.
pub length-allow-le :
    (c : Config) (now : ℕ) (key : String) (t : Table)
    → length t ≤ c.max_keys
    → length (allow c now key t).0 ≤ c.max_keys
unfolding allow
length-allow-le c now key t h =
    ground (arith, length-make_room-le c now key (current_window c now (lookup key t)) t)
