-- ===== src/Security/Totp.antt =====
-- `verify_totp` of app/security.py. `pyotp.TOTP(secret)` is the parameter `otp`, the code of each
-- time step; the time step of the clock is the argument `current`.
use cert_generator.Prelude.{
  ℕ, ◌+◌, ◌-◌, ◌≤◌, ◌<◌, ◌≡◌, Bool, true, false, not, ◌&&◌, ◌||◌, Option, none, some, List, [], ◌∷◌,
  arith, length, all, leb, ltb, ◌==◌, if◌then◌else◌, Text, text_eq, text_eq_iff, ap, ◌∙◌,
}

-- A call returns, or raises the `TypeError` of `hmac.compare_digest`.
pub data Outcome (A : Type 0) : Type 0 where
  returns : A → Outcome A
  type_error : Outcome A

abbrev pub is_ascii : Text → Bool
is_ascii s = all (λ c. ltb c 128) s

-- `hmac.compare_digest` of two `str`: it takes ASCII only
unfoldable pub compare_digest : Text → Text → Outcome Bool
compare_digest a b = if is_ascii a && is_ascii b then returns (text_eq a b) else type_error

abbrev pub is_accepted : Outcome (Option ℕ) → Bool
is_accepted (returns (some step)) = true
is_accepted _ = false

-- `str.isdigit` of one code point is the parameter `is_digit`: a table of Unicode, in which
-- superscripts and the digits of other scripts are digits too.
module _ (is_digit : ℕ → Bool) (otp : ℕ → Text) where
  -- the loop over the steps
  unfoldable pub try_steps : Text → ℕ → List ℕ → Outcome (Option ℕ)
  unfolding compare_digest
  try_steps code last [] = returns none
  try_steps code last (step ∷ steps) =
      let rest = try_steps code last steps in
      if leb step last then rest else elim (compare_digest (otp step) code) [
        | type_error ↦ type_error
        | returns same ↦ if same then returns (some step) else rest
      ]

  unfoldable pub verify_totp : Text → ℕ → ℕ → Outcome (Option ℕ)
  unfolding try_steps
  verify_totp code last_step current =
      if not (length code == 6) || not (all is_digit code)
      then returns none
      else try_steps code last_step ((current - 1) ∷ current ∷ (current + 1) ∷ [])

  -- A step that is returned is later than the last one used, within one step of the clock, and
  -- its code is the one that was typed.
  pub verify_totp_sound :
      (code : Text) (last_step current : ℕ) {step : ℕ}
      → verify_totp code last_step current ≡ returns (some step)
      → (last_step < step)
        × (step ≤ current + 1)
        × (current ≤ step + 1)
        × (otp step ≡ code)
        × (length code ≡ 6)
  unfolding verify_totp
  verify_totp_sound code last_step current {step} h = ground (
    arith,
    text_eq_iff (otp (current - 1)) code,
    text_eq_iff (otp current) code,
    text_eq_iff (otp (current + 1)) code,
  )

  -- A typed code of six ASCII digits that belongs to a step within one of the clock, later than
  -- the last one used, is accepted.
  pub verify_totp_complete :
      (code : Text) (last_step current step : ℕ)
      → length code ≡ 6
      → all is_digit code ≡ true
      → is_ascii code ≡ true
      → ((s : ℕ) → is_ascii (otp s) ≡ true)
      → otp step ≡ code
      → last_step < step
      → step ≤ current + 1
      → current ≤ step + 1
      → is_accepted (verify_totp code last_step current) ≡ true
  unfolding verify_totp
  verify_totp_complete code last_step current step len digits ascii otps e new upper lower =
      ground (
        arith,
        otps (current - 1),
        otps current,
        otps (current + 1),
        matches (current - 1),
        matches current,
        matches (current + 1),
      )
    where
      matches : (s : ℕ) → s ≡ step → text_eq (otp s) code ≡ true
      matches s same = (text_eq_iff (otp s) code).1 (ap otp same ∙ e)

  -- Six digits that are not all ASCII are not answered `None`: the comparison raises a
  -- `TypeError`, whenever some step within one of the clock is later than the last one used.
  pub verify_totp_raises :
      (code : Text) (last_step current : ℕ)
      → length code ≡ 6
      → all is_digit code ≡ true
      → is_ascii code ≡ false
      → last_step < current + 1
      → verify_totp code last_step current ≡ type_error
  unfolding verify_totp
  verify_totp_raises code last_step current len digits ascii new = ground arith
