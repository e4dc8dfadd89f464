-- ===== src/Security/RateLimiter/Quota.antt =====
-- How many hits a key gets from `RateLimiter` while one window lasts.
use cert_generator.Prelude.{
  ℕ, suc, ◌+◌, ◌-◌, ◌≤◌, ◌<◌, String, ◌≡◌, Bool, true, false, ◌&&◌, Option, none, some, List, [],
  ◌∷◌, arith, select, ltb, leb, if◌then◌else◌, lookup, lookup-insert, str_eq, eq_iff, ◌⊎◌,
  occurs-insert, occurs-select-le, lookup-select, keep_if, IsUnique, Bool-cases, inl, inr, not,
  is_some, length, sym, subst,
}
use cert_generator.Security.RateLimiter.{
  Config, Hits, Table, current_window, is_open, add_hit, make_room, allow,
}

-- a call: its time and its key
abbrev pub Ask : Type 0
Ask = ℕ × String

-- the table after these calls, and how many of them were allowed for the key
unfoldable pub hits : Config → String → List Ask → Table → ℕ
hits c k [] t = 0
hits c k ((now, j) ∷ asks) t =
    let (t', ok) = allow c now j t in
    let rest = hits c k asks t' in if ok && str_eq j k then suc rest else rest

-- Every call is made in the window that begins at `t0`.
abbrev pub IsWithin : Config → ℕ → List Ask → Type 0
IsWithin c t0 [] = Unit
IsWithin c t0 ((now, j) ∷ asks) = (t0 ≤ now) × (now < t0 + c.window) × IsWithin c t0 asks

-- No window of the key that began before `t0` is open at `t0`.
abbrev pub IsSettled : Config → ℕ → Option Hits → Type 0
IsSettled c t0 none = Unit
IsSettled c t0 (some h) = (t0 ≤ h.start) ⊎ (h.start + c.window ≤ t0)

-- the hits that count against the window that begins at `t0` or later
abbrev pub spent : ℕ → Option Hits → ℕ
spent t0 none = 0
spent t0 (some h) = if leb t0 h.start then h.count else 0

allow-IsUnique :
    (c : Config) (now : ℕ) (key : String) (t : Table) → IsUnique t → IsUnique (allow c now key t).0
unfolding allow make_room
allow-IsUnique c now key t u = record {
  once = λ k.
      let h = current_window c now (lookup key t) in
      let h' : Hits = record h { count = h.count + 1 } in
      ground (
        arith,
        u.once k,
        occurs-select-le (is_open c now) k t,
        occurs-insert key k h' t,
        occurs-insert key k h' (select (is_open c now) t),
      );
}

module _ (c : Config) (t0 now : ℕ) (from : t0 ≤ now) (until : now < t0 + c.window) where
  -- what one call does to the key's entry; `hit` says that it was allowed for this key
  record IsStep (hit : Bool) (old new : Option Hits) : Type 0 where
    settled : IsSettled c t0 new
    counted : spent t0 new ≡ spent t0 old + (if hit then 1 else 0)
    bounded : spent t0 old ≤ c.limit → spent t0 new ≤ c.limit

  kept-IsStep : (o : Option Hits) → IsSettled c t0 o → IsStep false o o
  kept-IsStep o s = record { settled = s; counted = omega arith; bounded = λ h. h }

  closed-IsStep :
      (o : Option Hits)
      → IsSettled c t0 o
      → IsStep false o (keep_if (λ h. ltb (now - h.start) c.window) o)
  closed-IsStep none s = kept-IsStep none s
  closed-IsStep (some h) s = record {
    settled = ground arith;
    counted = ground arith;
    bounded = ground arith;
  }

  hit-IsStep :
      (o : Option Hits)
      → IsSettled c t0 o
      → leb c.limit (current_window c now o).count ≡ false
      → let h = current_window c now o in IsStep true o (some (record h { count = h.count + 1 }))
  unfolding current_window
  hit-IsStep none s below = record {
    settled = ground arith;
    counted = ground arith;
    bounded = ground arith;
  }
  hit-IsStep (some h) s below = record {
    settled = ground arith;
    counted = ground arith;
    bounded = ground arith;
  }

  module _ (k j : String) (t : Table) (u : IsUnique t) (s : IsSettled c t0 (lookup k t)) where
    add_hit-IsStep :
        (t' : Table)
        → IsStep false (lookup k t) (lookup k t')
        → leb c.limit (current_window c now (lookup j t)).count ≡ false
        → IsStep
            (str_eq j k)
            (lookup k t)
            (lookup k (add_hit j (current_window c now (lookup j t)) t'))
    add_hit-IsStep t' o below = rw lookup-insert (elim (Bool-cases (str_eq j k)) [
      | inl same ↦ rw same (
          rw (← (eq_iff j k).0 same) (
            hit-IsStep (lookup j t)
              (subst (λ i. IsSettled c t0 (lookup i t)) (sym ((eq_iff j k).0 same)) s) below))
      | inr differ ↦ rw differ o
    ])

    swept-IsStep : IsStep false (lookup k t) (lookup k (select (is_open c now) t))
    swept-IsStep =
        rw (lookup-select (λ h. ltb (now - h.start) c.window) k t (u.once k))
          (closed-IsStep (lookup k t) s)

    make_room-IsStep :
        leb c.limit (current_window c now (lookup j t)).count ≡ false
        → let (t', ok) = make_room c now j (current_window c now (lookup j t)) t in
          IsStep (ok && str_eq j k) (lookup k t) (lookup k t')
    unfolding make_room
    make_room-IsStep below =
        elim (Bool-cases (not (is_some (lookup j t)) && leb c.max_keys (length t))) [
          | inr room ↦ rw room (add_hit-IsStep t (kept-IsStep (lookup k t) s) below)
          | inl tight ↦
              rw tight (elim (Bool-cases (leb c.max_keys (length (select (is_open c now) t)))) [
                | inl full ↦ rw full swept-IsStep
                | inr free ↦ rw free (add_hit-IsStep (select (is_open c now) t) swept-IsStep below)
              ])
        ]

    allow-IsStep :
        let (t', ok) = allow c now j t in IsStep (ok && str_eq j k) (lookup k t) (lookup k t')
    unfolding allow
    allow-IsStep = elim (Bool-cases (leb c.limit (current_window c now (lookup j t)).count)) [
      | inl full ↦ rw full (kept-IsStep (lookup k t) s)
      | inr below ↦ rw below (make_room-IsStep below)
    ]

hits_and_spent :
    (c : Config) (t0 : ℕ) (k : String) (asks : List Ask) (t : Table)
    → IsUnique t
    → IsSettled c t0 (lookup k t)
    → IsWithin c t0 asks
    → spent t0 (lookup k t) ≤ c.limit
    → hits c k asks t + spent t0 (lookup k t) ≤ c.limit
unfolding hits
hits_and_spent c t0 k [] t u s w h = omega arith
hits_and_spent c t0 k ((now, j) ∷ asks) t u s w h =
    let step = allow-IsStep c t0 now w.0 w.1 k j t u s in
    let rest =
      hits_and_spent c t0 k asks (allow c now j t).0 (allow-IsUnique c now j t u) step.settled w.2
        (step.bounded h) in
    ground (arith, step.counted, rest)

-- In any window of the configured length, whatever the other keys ask, a key whose earlier
-- window is over at its beginning is allowed at most `limit` times.
pub hits-le-limit :
    (c : Config) (t0 : ℕ) (k : String) (asks : List Ask) (t : Table)
    → IsUnique t
    → IsSettled c t0 (lookup k t)
    → spent t0 (lookup k t) ≤ c.limit
    → IsWithin c t0 asks
    → hits c k asks t ≤ c.limit
hits-le-limit c t0 k asks t u s below w = omega (arith, hits_and_spent c t0 k asks t u s w below)
