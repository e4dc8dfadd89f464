-- ===== src/Pal/Requests/Renewals.antt =====
-- When `renew_opens` of app/pal.py lets a certificate be renewed.
use cert_generator.Prelude.{ℕ, ◌+◌, ◌-◌, ◌*◌, ◌≤◌, ◌≡◌, ◌<◌, ◌⊎◌, arith}
use cert_generator.Pal.Requests.{day, renew_window_days, renew_opens}

-- A certificate that does not end before it begins may be renewed in its last 30 days, if it lives
-- for 90 days or more, and otherwise in its last third, to the nearest microsecond. The time from
-- which on it may lies within its life.
pub renew_opens_window :
    (not_before not_after : ℕ)
    → not_before ≤ not_after
    → (((90 * day ≤ not_after - not_before)
          × (renew_opens not_before not_after + renew_window_days * day ≡ not_after))
        ⊎ ((not_after - not_before < 90 * day)
            × (3 * (not_after - renew_opens not_before not_after) ≤ not_after - not_before + 1)
            × (not_after - not_before ≤ 3 * (not_after - renew_opens not_before not_after) + 1)))
      × (not_before ≤ renew_opens not_before not_after)
      × (renew_opens not_before not_after ≤ not_after)
unfolding renew_opens
renew_opens_window not_before not_after le = ground arith
