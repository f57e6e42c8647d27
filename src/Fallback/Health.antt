-- ===== src/Fallback/Health.antt =====
-- The health states: what errors, successes and probes make of them, in both phases.
use rcvd.Prelude.{
  ℕ, ◌+◌, ◌≤◌, ◌<◌, ◌≡◌, refl, inl, inr, Bool, true, false, ◌&&◌, Option, none, some, List, [], ◌∷◌,
  arith, ltb, ◌==◌, length, All, Bool-cases,
}
use rcvd.Text.{Text}
use rcvd.Dns.{Msg, DnsLib}
use rcvd.Fallback.{
  response_matches_query, up, down, is_down, Attempt, answered, failed, no_reply, UpstreamState,
  FallbackResolver, Phase, phase1, phase2, get_current_phase, new, record_success,
  state_after_error, record_error, Pass, keep, tried, try_from, resolve, probe, check_from,
  perform_health_checks, on_attempt,
}

-- What the state says of the count of consecutive errors, in every phase.
pub record IsConsistent (threshold : ℕ) (u : UpstreamState) : Type 0 where
  -- UP means no error since the last success, and conversely
  pub up_clean : u.state ≡ up → u.consecutive_errors ≡ 0
  pub clean_up : u.consecutive_errors ≡ 0 → u.state ≡ up
  -- from the threshold on, the upstream is DOWN
  pub at_threshold : 0 < u.consecutive_errors → threshold ≤ u.consecutive_errors → u.state ≡ down

record_success-IsConsistent :
    (threshold : ℕ) (u : UpstreamState) → IsConsistent threshold (record_success u)
unfolding record_success
record_success-IsConsistent threshold u = record {
  up_clean = λ e. refl;
  clean_up = λ e. refl;
  at_threshold = λ pos le. absurd (omega arith);
}

record_error-IsConsistent :
    (threshold : ℕ) (phase : Phase) (error : Option Text) (u : UpstreamState)
    → IsConsistent threshold (record_error threshold phase error u)
unfolding record_error state_after_error
record_error-IsConsistent threshold phase1 error u = record {
  up_clean = λ e. absurd (cc e);
  clean_up = λ e. absurd (omega arith);
  at_threshold = λ pos le. refl;
}
record_error-IsConsistent threshold phase2 error u = record {
  up_clean = λ e. absurd (ground arith);
  clean_up = λ e. absurd (omega arith);
  at_threshold = λ pos le. ground arith;
}

abbrev pub AllConsistent : ℕ → List UpstreamState → Type 0
AllConsistent threshold = All (IsConsistent threshold)

-- Whatever a success and every error establish, and the chain has, the chain has after the loop.
module _ (P : UpstreamState → Type 0) (lib : DnsLib) (many : Bool) (threshold : ℕ) (phase : Phase)
    (success : (u : UpstreamState) → P (record_success u))
    (error : (e : Option Text) (u : UpstreamState) → P (record_error threshold phase e u))
    (ask : ℕ → Attempt) (msg : Msg) where
  All-on_attempt :
      (a : Attempt) (i : ℕ) (t : Bool) (u : UpstreamState) (us : List UpstreamState) (rest : Pass)
      → All P us
      → All P rest.after
      → All P (on_attempt lib threshold phase msg i t u us rest a).after
  unfolding on_attempt tried
  All-on_attempt (answered resp) i t u us rest h r =
      elim (Bool-cases (response_matches_query lib msg resp)) [
        | inl y ↦ rw y (success u, h)
        | inr n ↦ rw n (error _ u, r)
      ]
  All-on_attempt (failed e) i t u us rest h r = (error _ u, r)
  All-on_attempt no_reply i t u us rest h r = (error _ u, r)

  All-try_from :
      (us : List UpstreamState) (i : ℕ) (t : Bool)
      → All P us
      → All P (try_from lib many threshold phase ask msg i t us).after
  unfolding try_from keep
  All-try_from [] i t h = tt
  All-try_from (u ∷ us) i t h = elim (Bool-cases (is_down u.state && many)) [
    | inl y ↦ rw y (h.0, All-try_from us (i + 1) t h.1)
    | inr n ↦ rw n (All-on_attempt (ask i) i t u us _ h.1 (All-try_from us (i + 1) true h.1))
  ]

resolve-AllConsistent :
    (lib : DnsLib) (f : FallbackResolver) (now : ℕ) (ask : ℕ → Attempt) (msg : Msg)
    → AllConsistent f.phase2_failure_threshold f.upstreams
    → AllConsistent f.phase2_failure_threshold (resolve lib f now ask msg).0.upstreams
resolve-AllConsistent lib f now ask msg h = go (length msg.question == 1) refl
  where
    after :
        AllConsistent f.phase2_failure_threshold
          (try_from lib
            (ltb 1 (length f.upstreams))
            f.phase2_failure_threshold
            (get_current_phase f now)
            ask
            msg
            0
            false
            f.upstreams).after
    after =
        All-try_from (IsConsistent f.phase2_failure_threshold) lib _ f.phase2_failure_threshold
          (get_current_phase f now) (record_success-IsConsistent f.phase2_failure_threshold)
          (record_error-IsConsistent f.phase2_failure_threshold (get_current_phase f now)) ask msg
          f.upstreams 0 false h

    picked :
        (r : Option (Msg × Bool))
        → (try_from lib
            (ltb 1 (length f.upstreams))
            f.phase2_failure_threshold
            (get_current_phase f now)
            ask
            msg
            0
            false
            f.upstreams).result
          ≡ r
        → (length msg.question == 1) ≡ true
        → AllConsistent f.phase2_failure_threshold (resolve lib f now ask msg).0.upstreams
    picked none e y = unfold resolve in rw (y, e) after
    picked (some (resp, b)) e y = unfold resolve in rw (y, e) after

    go :
        (b : Bool)
        → (length msg.question == 1) ≡ b
        → AllConsistent f.phase2_failure_threshold (resolve lib f now ask msg).0.upstreams
    go false e = unfold resolve in rw e h
    go true e = picked _ refl e

probe-IsConsistent :
    (threshold : ℕ) (phase : Phase) (a : Attempt) (u : UpstreamState)
    → IsConsistent threshold (probe threshold phase a u)
unfolding probe
probe-IsConsistent threshold phase (answered resp) u = record_success-IsConsistent threshold u
probe-IsConsistent threshold phase (failed e) u = record_error-IsConsistent threshold phase _ u
probe-IsConsistent threshold phase no_reply u = record_error-IsConsistent threshold phase _ u

check_from-AllConsistent :
    (f : FallbackResolver) (at : ℕ → ℕ) (ask : ℕ → Attempt) (us : List UpstreamState) (i : ℕ)
    → AllConsistent f.phase2_failure_threshold us
    → AllConsistent f.phase2_failure_threshold (check_from f at ask i us)
unfolding check_from
check_from-AllConsistent f at ask [] i h = tt
check_from-AllConsistent f at ask (u ∷ us) i h = (
  elim (Bool-cases (is_down u.state)) [
    | inl y ↦ rw y (probe-IsConsistent f.phase2_failure_threshold _ (ask i) u)
    | inr n ↦ rw n h.0
  ],
  check_from-AllConsistent f at ask us (i + 1) h.1,
)

-- The two things that change the chain: a query at some time, and a round of health checks. The
-- resolvers may answer anything at each of them.
pub data Step (lib : DnsLib) : FallbackResolver → FallbackResolver → Type 0 where
  query :
      (f : FallbackResolver) (now : ℕ) (ask : ℕ → Attempt) (msg : Msg)
      → Step lib f (resolve lib f now ask msg).0
  check :
      (f : FallbackResolver) (at : ℕ → ℕ) (ask : ℕ → Attempt)
      → Step lib f (perform_health_checks f at ask)

pub data Reach (lib : DnsLib) (f : FallbackResolver) : FallbackResolver → Type 0 where
  here : Reach lib f f
  next : {g h : FallbackResolver} → Reach lib f g → Step lib g h → Reach lib f h

threshold-resolve :
    (lib : DnsLib) (f : FallbackResolver) (now : ℕ) (ask : ℕ → Attempt) (msg : Msg)
    → (resolve lib f now ask msg).0.phase2_failure_threshold ≡ f.phase2_failure_threshold
unfolding resolve
threshold-resolve lib f now ask msg = ground arith

abbrev IsHealthy : FallbackResolver → Type 0
IsHealthy f = AllConsistent f.phase2_failure_threshold f.upstreams

Step-IsHealthy : {lib : DnsLib} {f g : FallbackResolver} → Step lib f g → IsHealthy f → IsHealthy g
Step-IsHealthy (query f now ask msg) h =
    rw threshold-resolve (resolve-AllConsistent _ f now ask msg h)
Step-IsHealthy (check f at ask) h =
    unfold perform_health_checks in check_from-AllConsistent f at ask f.upstreams 0 h

-- An upstream as main builds it: the zero state is UP, with no error.
abbrev pub Fresh : UpstreamState → Type 0
Fresh u = (u.state ≡ up) × (u.consecutive_errors ≡ 0)

consistent_at_start :
    (threshold : ℕ) (us : List UpstreamState) → All Fresh us → AllConsistent threshold us
consistent_at_start threshold [] h = tt
consistent_at_start threshold (u ∷ us) h = (
  record {
    up_clean = λ e. h.0.1;
    clean_up = λ e. h.0.0;
    at_threshold = λ pos le. absurd (omega (arith, h.0.1));
  },
  consistent_at_start threshold us h.1,
)

Reach-IsHealthy :
    {lib : DnsLib} {f g : FallbackResolver} → IsHealthy f → Reach lib f g → IsHealthy g
Reach-IsHealthy h here = h
Reach-IsHealthy h (next r s) = Step-IsHealthy s (Reach-IsHealthy h r)

new-IsHealthy :
    (us : List UpstreamState) (now phase1_duration_s threshold : ℕ)
    → All Fresh us
    → IsHealthy (new us now phase1_duration_s threshold)
unfolding new
new-IsHealthy us now d threshold fresh = consistent_at_start threshold us fresh

-- From a chain of fresh upstreams, after any queries and health checks at any times, an upstream is
-- UP exactly when it has had no error since its last success, and it is DOWN as soon as the count
-- of its consecutive errors is positive and reaches the threshold.
pub Reach-AllConsistent :
    (lib : DnsLib) (us : List UpstreamState) (now phase1_duration_s threshold : ℕ)
    (g : FallbackResolver)
    → All Fresh us
    → Reach lib (new us now phase1_duration_s threshold) g
    → AllConsistent g.phase2_failure_threshold g.upstreams
Reach-AllConsistent lib us now d threshold g fresh r =
    Reach-IsHealthy (new-IsHealthy us now d threshold fresh) r
