-- ===== src/Fallback/Errors.antt =====
-- What errors and failed probes in a row make of one upstream in phase 2.
use rcvd.Prelude.{ℕ, zero, suc, ◌+◌, ◌<◌, ◌≡◌, refl, none, arith, leb, ◌==◌, if◌then◌else◌}
use rcvd.Text.{Text}
use rcvd.Fallback.{
  up, slow, down, failed, UpstreamState, phase2, record_success, state_after_error, record_error,
  probe,
}

-- `n` errors in a row in phase 2.
pub errors_in_row : ℕ → ℕ → UpstreamState → UpstreamState
errors_in_row threshold zero u = u
errors_in_row threshold (suc n) u = record_error threshold phase2 none (errors_in_row threshold n u)

count-errors_in_row :
    (threshold n : ℕ) (u : UpstreamState)
    → (errors_in_row threshold n u).consecutive_errors ≡ u.consecutive_errors + n
unfolding errors_in_row record_error
count-errors_in_row threshold zero u = omega arith
count-errors_in_row threshold (suc n) u = omega (arith, count-errors_in_row threshold n u)

-- In phase 2, after a success, an upstream is UP, and n errors in a row make it SLOW while n is
-- below the threshold and DOWN from the threshold on.
pub state_after_errors :
    (threshold n : ℕ) (u : UpstreamState)
    → (errors_in_row threshold n (record_success u)).state
      ≡ (if n == 0 then up else if leb threshold n then down else slow)
unfolding errors_in_row record_error state_after_error
state_after_errors threshold zero u = unfold record_success in refl
state_after_errors threshold (suc n) u =
    ground (arith, count-errors_in_row threshold n (record_success u), zeroed u)
  where
    zeroed : (u : UpstreamState) → (record_success u).consecutive_errors ≡ 0
    zeroed u = unfold record_success in refl

-- A health check that fails in phase 2 takes an upstream out of DOWN if its errors are still below
-- the threshold: it becomes SLOW, and Resolve asks it again.
pub failed_probe_revives :
    (threshold : ℕ) (u : UpstreamState) (e : Text)
    → u.state ≡ down
    → u.consecutive_errors + 1 < threshold
    → (probe threshold phase2 (failed e) u).state ≡ slow
unfolding probe record_error state_after_error
failed_probe_revives threshold u e d h = ground arith
