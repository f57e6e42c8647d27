-- ===== src/Fallback.antt =====
-- internal/resolver/fallback.go: the chain of upstreams with its health states. What an upstream's
-- own resolver returns for a query in this call is the argument `ask`, by the upstream's position;
-- one call of Resolve asks each of them at most once. Negative settings act like 0.
pub mod Health
pub mod Errors
pub mod Chain
use rcvd.Prelude.{
  ℕ, zero, suc, ◌+◌, ◌-◌, ◌*◌, Bool, true, false, not, ◌&&◌, ◌||◌, Option, none, some, List, [],
  ◌∷◌, map, leb, ltb, ◌==◌, length, is_empty, any, if◌then◌else◌,
}
use rcvd.Prelude.Result.{Result, ok, err}
use rcvd.Text.{Text, codes, text_eq}
use rcvd.Table.{Table, insert}
use rcvd.Dns.{Question, Msg, DnsLib, empty_msg}
use rcvd.Dns.RrType

-- The questions of two messages name the same type, class and, up to case, name.
unfoldable pub same_question : DnsLib → Question → Question → Bool
same_question lib q r =
    q.qtype == r.qtype
    && q.qclass == r.qclass
    && text_eq (lib.canonical_name q.name) (lib.canonical_name r.name)

unfoldable pub questions_match : DnsLib → List Question → List Question → Bool
questions_match lib (q ∷ []) (r ∷ []) = same_question lib q r
questions_match lib _ _ = false

-- responseMatchesQuery
unfoldable pub response_matches_query : DnsLib → Msg → Msg → Bool
response_matches_query lib query resp = questions_match lib query.question resp.question

-- State
pub data State : Type 0 where
  up slow down : State

unfoldable pub is_down : State → Bool
is_down down = true
is_down _ = false

unfoldable pub is_up : State → Bool
is_up up = true
is_up _ = false

-- What a resolver returns: (resp, nil), (_, err) or (nil, nil).
pub data Attempt : Type 0 where
  answered : Msg → Attempt
  failed : Text → Attempt
  no_reply : Attempt

pub record UpstreamState : Type 0 where
  pub name : Text
  pub state : State
  pub last_error : Text
  pub consecutive_errors : ℕ
  pub last_health_check : ℕ

pub record FallbackResolver : Type 0 where
  pub upstreams : List UpstreamState
  pub start_time : ℕ
  pub phase1_duration_s : ℕ
  pub phase2_failure_threshold : ℕ
  -- stats.UpstreamFallbacks
  pub upstream_fallbacks : ℕ

pub data ResolveError : Type 0 where
  response_mismatch : ResolveError
  all_upstreams_failed : ResolveError

-- NewFallbackResolver; `now` is the start time.
unfoldable pub new : List UpstreamState → ℕ → ℕ → ℕ → FallbackResolver
new upstreams now phase1_duration_s threshold = record {
  upstreams = upstreams;
  start_time = now;
  phase1_duration_s = phase1_duration_s;
  phase2_failure_threshold = threshold;
  upstream_fallbacks = 0;
}

pub data Phase : Type 0 where
  phase1 phase2 : Phase

-- getCurrentPhase
unfoldable pub get_current_phase : FallbackResolver → ℕ → Phase
get_current_phase f now =
    if ltb (now - f.start_time) (f.phase1_duration_s * 1_000_000_000) then phase1 else phase2

-- recordSuccess
unfoldable pub record_success : UpstreamState → UpstreamState
record_success u = record u { state = up; consecutive_errors = 0; last_error = [] }

-- The state after an error: phase 1 marks DOWN at once, phase 2 from the threshold on, and SLOW
-- below it.
unfoldable pub state_after_error : ℕ → Phase → ℕ → State
state_after_error threshold phase1 errors = down
state_after_error threshold phase2 errors = if leb threshold errors then down else slow

-- recordError; `err` is the error's text, if there is one.
unfoldable pub record_error : ℕ → Phase → Option Text → UpstreamState → UpstreamState
record_error threshold phase error u = record u {
  consecutive_errors = u.consecutive_errors + 1;
  last_error = elim error [ none ↦ u.last_error | some e ↦ e ];
  state = state_after_error threshold phase (u.consecutive_errors + 1);
}

abbrev pub mismatch_text : Text
mismatch_text = codes "upstream response question does not match query"

-- What one pass over the rest of the chain leaves: the upstreams, the positions that were asked,
-- and the answer with the mark whether it counts as a fallback.
pub record Pass : Type 0 where
  pub after : List UpstreamState
  pub asked : List ℕ
  pub result : Option (Msg × Bool)

-- An upstream stays as it is and is not asked.
unfoldable pub keep : UpstreamState → Pass → Pass
keep u p = record p { after = u ∷ p.after }

-- An upstream was asked, and the loop went on.
unfoldable pub tried : ℕ → UpstreamState → Pass → Pass
tried i u p = record p { after = u ∷ p.after; asked = i ∷ p.asked }

-- The rest of the loop body behind the call of the upstream's resolver: it returns on a good answer,
-- and records an error and goes on, to `rest`, otherwise.
unfoldable pub on_attempt :
    DnsLib → ℕ → Phase → Msg → ℕ → Bool → UpstreamState → List UpstreamState → Pass → Attempt → Pass
on_attempt lib threshold phase msg i tried_primary u us rest (answered resp) =
    if response_matches_query lib msg resp
    then record {
      after = record_success u ∷ us;
      asked = i ∷ [];
      result = some (resp, tried_primary || ltb 0 i);
    }
    else tried i (record_error threshold phase (some mismatch_text) u) rest
on_attempt lib threshold phase msg i tried_primary u us rest (failed e) =
    tried i (record_error threshold phase (some e) u) rest
on_attempt lib threshold phase msg i tried_primary u us rest no_reply =
    tried i (record_error threshold phase none u) rest

-- The loop of Resolve from position `i` on; `many` is len(upstreams) > 1.
unfoldable pub try_from :
    DnsLib → Bool → ℕ → Phase → (ℕ → Attempt) → Msg → ℕ → Bool → List UpstreamState → Pass
try_from lib many threshold phase ask msg i tried_primary [] = record {
  after = [];
  asked = [];
  result = none;
}
try_from lib many threshold phase ask msg i tried_primary (u ∷ us) =
    let skip = keep u (try_from lib many threshold phase ask msg (i + 1) tried_primary us) in
    let next =
      on_attempt lib threshold phase msg i tried_primary u us
        (try_from lib many threshold phase ask msg (i + 1) true us) (ask i) in
    if is_down u.state && many then skip else next

-- Resolve
unfoldable pub resolve :
    DnsLib → FallbackResolver → ℕ → (ℕ → Attempt) → Msg → FallbackResolver × Result ResolveError Msg
resolve lib f now ask msg =
    if not (length msg.question == 1)
    then (f, err response_mismatch)
    else (let pass =
          try_from lib (ltb 1 (length f.upstreams)) f.phase2_failure_threshold
            (get_current_phase f now) ask msg 0 false f.upstreams in
        elim pass.result [
          | none ↦ (record f { upstreams = pass.after }, err all_upstreams_failed)
          | some (resp, fallback) ↦ (
            record f {
              upstreams = pass.after;
              upstream_fallbacks =
                  if fallback then f.upstream_fallbacks + 1 else f.upstream_fallbacks;
            },
            ok resp,
          )
        ])

-- The probe of one upstream in performHealthChecks. Any response counts as a recovery.
unfoldable pub probe : ℕ → Phase → Attempt → UpstreamState → UpstreamState
probe threshold phase (answered resp) u = record_success u
probe threshold phase (failed e) u = record_error threshold phase (some e) u
probe threshold phase no_reply u = record_error threshold phase none u

-- performHealthChecks, the upstream at position `i` probed at the time `at i`.
unfoldable pub check_from :
    FallbackResolver → (ℕ → ℕ) → (ℕ → Attempt) → ℕ → List UpstreamState → List UpstreamState
check_from f at ask i [] = []
check_from f at ask i (u ∷ us) =
    (if is_down u.state
      then probe f.phase2_failure_threshold (get_current_phase f (at i)) (ask i) u
      else u)
    ∷ check_from f at ask (i + 1) us

unfoldable pub perform_health_checks : FallbackResolver → (ℕ → ℕ) → (ℕ → Attempt) → FallbackResolver
perform_health_checks f at ask = record f { upstreams = check_from f at ask 0 f.upstreams }

-- UpstreamNames
unfoldable pub upstream_names : FallbackResolver → List Text
upstream_names f = map (λ u. u.name) f.upstreams

pub record Status : Type 0 where
  pub state_text : Text
  pub consecutive_errors : ℕ
  pub last_error : Text
  pub last_health_check : ℕ

unfoldable pub state_text_of : State → Text
state_text_of slow = codes "SLOW"
state_text_of down = codes "DOWN"
state_text_of up = codes "UP"

status_from : Table Status → List UpstreamState → Table Status
status_from m [] = m
status_from m (u ∷ us) =
    status_from
      (insert u.name
        (record {
          state_text = state_text_of u.state;
          consecutive_errors = u.consecutive_errors;
          last_error = u.last_error;
          last_health_check = u.last_health_check;
        })
        m)
      us

-- GetStatus
unfoldable pub get_status : FallbackResolver → Table Status
unfolding status_from
get_status f = status_from [] f.upstreams
