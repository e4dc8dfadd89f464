-- ===== src/Pal/Signed/Replay.antt =====
-- `_signed_device` of app/routes/pal.py lets no request through twice.
use cert_generator.Prelude.{
  ℕ, ◌+◌, ◌*◌, ◌≤◌, ◌≡◌, ◌≢◌, true, false, none, some, List, arith, delete_where, ltb, Text,
  Option-cases, inl, inr, sym, subst,
}
use cert_generator.Pal.Tables.{Nonce}
use cert_generator.Pal.Store.{Store, touch_pal_device}
use cert_generator.Pal.Store.Rows.{use_pal_nonce}
use cert_generator.Pal.Store.Calls.{Call, run}
use cert_generator.Pal.Signed.{
  Library, Signature, Signed, signed_by, Clock, distance, skew_seconds, nonce_ttl_seconds,
  signed_device,
}
use cert_generator.Pal.Signed.Kept.{
  IsKept, IsKept-purge, IsKept-found, IsKept-new, AllBefore, AllBefore-mono, run-IsKept,
}

-- What an accepted request shows: its time was good, and its nonce was new.
abbrev pub IsAccepted : Signed → Type 0
IsAccepted (signed_by d) = Unit
IsAccepted _ = ⊥

module _ (lib : Library) (clock : Clock) (r : Signature) (s : Store) where
  record Accepted (time : ℕ) : Type 0 where
    near : distance clock.at_check (time * clock.tick) ≤ skew_seconds * clock.tick
    fresh :
        (use_pal_nonce clock.at_nonce (nonce_ttl_seconds * clock.tick) r.device r.nonce s).1 ≡ true
    stored :
        (signed_device lib clock r s).0.nonces
        ≡ (use_pal_nonce clock.at_nonce
            (nonce_ttl_seconds * clock.tick)
            r.device
            r.nonce
            s).0.nonces

  signed_device-Accepted :
      (t : ℕ)
      → lib.int_of r.timestamp ≡ some t
      → IsAccepted (signed_device lib clock r s).1
      → Accepted t
  unfolding signed_device touch_pal_device
  signed_device-Accepted t read h = record {
    near = ground arith;
    fresh = ground arith;
    stored = ground arith;
  }

  accepted-reads : IsAccepted (signed_device lib clock r s).1 → lib.int_of r.timestamp ≢ none
  unfolding signed_device
  accepted-reads h unread = ground arith

module _ (device nonce : Text) (now ttl : ℕ) (s : Store) where
  fresh-IsKept :
      (use_pal_nonce now ttl device nonce s).1 ≡ true
      → IsKept device nonce (now + ttl) (use_pal_nonce now ttl device nonce s).0.nonces
  unfolding use_pal_nonce
  fresh-IsKept fresh = ground (
    arith,
    IsKept-new device nonce (now + ttl)
        (delete_where (λ (n : Nonce). ltb n.expires_at now) s.nonces),
  )

  kept-refuses :
      (e : ℕ)
      → now ≤ e
      → IsKept device nonce e s.nonces
      → (use_pal_nonce now ttl device nonce s).1 ≡ false
  unfolding use_pal_nonce
  kept-refuses e le h = ground (
    arith,
    IsKept-found device nonce e (delete_where (λ (n : Nonce). ltb n.expires_at now) s.nonces)
        (IsKept-purge device nonce e now s.nonces le h),
  )

-- the times of two readings, both near one timestamp, are at most twice the skew apart
near_both : (a b t w : ℕ) → distance a t ≤ w → distance b t ≤ w → b ≤ a + 2 * w
near_both a b t w ha hb = omega arith

-- A request that was accepted is not accepted again: after any calls on the tables in the
-- meantime that use nonces no later than the second check of the nonce and do not delete the
-- PC, on a clock that ticks at one rate and reads the second pair of times no further apart
-- than the first, the same device, timestamp and nonce are refused, whatever else the request says.
pub signed_device_no_replay :
    (lib : Library) (first second : Clock) (r r' : Signature) (s : Store) (calls : List Call)
    → first.tick ≡ second.tick
    → second.at_nonce + first.at_check ≤ second.at_check + first.at_nonce
    → r'.device ≡ r.device
    → r'.timestamp ≡ r.timestamp
    → r'.nonce ≡ r.nonce
    → AllBefore r.device second.at_nonce calls
    → IsAccepted (signed_device lib first r s).1
    → ¬ IsAccepted (signed_device lib second r' (run calls (signed_device lib first r s).0)).1
signed_device_no_replay lib first second r r' s calls ticks gap device time nonce before ok again =
    elim (Option-cases (lib.int_of r.timestamp)) [
      | inl unread ↦ absurd (accepted-reads lib first r s ok unread)
      | inr (t, read) ↦
          let s' = run calls (signed_device lib first r s).0 in
          let ttl = nonce_ttl_seconds * first.tick in
          let e = first.at_nonce + ttl in
          let one = signed_device-Accepted lib first r s t read ok in
          let two = signed_device-Accepted lib second r' s' t (rw time read) again in
          let near : distance second.at_check (t * first.tick) ≤ skew_seconds * first.tick =
            subst (λ k. distance second.at_check (t * k) ≤ skew_seconds * k) (sym ticks) two.near in
          let within : second.at_nonce ≤ e = omega (
            arith,
            gap,
            near_both first.at_check second.at_check (t * first.tick) (skew_seconds * first.tick)
                one.near near,
          ) in
          let recorded : IsKept r.device r.nonce e (signed_device lib first r s).0.nonces =
            rw one.stored (fresh-IsKept r.device r.nonce first.at_nonce ttl s one.fresh) in
          let kept : IsKept r'.device r'.nonce e s'.nonces =
            rw (device, nonce)
              (run-IsKept r.device r.nonce e calls (signed_device lib first r s).0
                (AllBefore-mono r.device second.at_nonce e calls within before) recorded) in
          cc (
            two.fresh,
            kept-refuses r'.device r'.nonce second.at_nonce (nonce_ttl_seconds * second.tick) s' e
                within kept,
          )
    ]
