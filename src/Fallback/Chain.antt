-- ===== src/Fallback/Chain.antt =====
-- Which upstream answers a query, and which upstreams a query leaves alone.
use rcvd.Prelude.{
  ℕ, zero, suc, ◌+◌, ◌<◌, ◌≡◌, ◌≢◌, refl, ap, inl, inr, Bool, true, false, ◌&&◌, Option, none, some,
  List, [], ◌∷◌, arith, ltb, ◌==◌, length, All, Bool-cases, is_some, get_elem?, mem, sym, ◌∙◌,
  if◌then◌else◌,
}
use native.Mathlib.Nat.{zero-add}
use rcvd.Prelude.Result.{Result, ok, err}
use rcvd.Dns.{Msg, DnsLib}
use rcvd.Fallback.{
  on_attempt, response_matches_query, is_down, Attempt, answered, failed, no_reply, UpstreamState,
  FallbackResolver, ResolveError, response_mismatch, all_upstreams_failed, Phase, get_current_phase,
  keep, tried, try_from, resolve,
}

-- The answer of a resolver that counts: a response to the very question that was asked.
abbrev pub good_answer : DnsLib → Msg → Attempt → Option Msg
good_answer lib msg (answered resp) =
    if response_matches_query lib msg resp then some resp else none
good_answer lib msg (failed e) = none
good_answer lib msg no_reply = none

-- The first upstream of the chain, from position `i` on, that is not skipped as DOWN and has a good
-- answer: the answer and the upstream's position.
pub first_good : DnsLib → Bool → (ℕ → Attempt) → Msg → ℕ → List UpstreamState → Option (Msg × ℕ)
first_good lib many ask msg i [] = none
first_good lib many ask msg i (u ∷ us) =
    let rest = first_good lib many ask msg (i + 1) us in
    if is_down u.state && many
    then rest
    else elim (good_answer lib msg (ask i)) [ some resp ↦ some (resp, i) | none ↦ rest ]

abbrev mark_fallback : Option (Msg × ℕ) → Option (Msg × Bool)
mark_fallback none = none
mark_fallback (some (resp, j)) = some (resp, ltb 0 j)

module _ (lib : DnsLib) (many : Bool) (threshold : ℕ) (phase : Phase) (ask : ℕ → Attempt)
    (msg : Msg) where
  -- The loop's `triedPrimary` is set only behind the first position.
  try_from-first_good :
      (us : List UpstreamState) (i : ℕ) (tried_primary : Bool)
      → (tried_primary ≡ true → 0 < i)
      → (try_from lib many threshold phase ask msg i tried_primary us).result
        ≡ mark_fallback (first_good lib many ask msg i us)
  unfolding try_from on_attempt first_good keep tried
  try_from-first_good [] i t h = refl
  try_from-first_good (u ∷ us) i t h = ground (
    arith,
    try_from-first_good us (i + 1) t (λ _. omega arith),
    try_from-first_good us (i + 1) true (λ _. omega arith),
  )

  asked_from :
      (us : List UpstreamState) (i : ℕ) (t : Bool) (j : ℕ)
      → j < i
      → mem j (try_from lib many threshold phase ask msg i t us).asked ≡ false
  unfolding try_from on_attempt keep tried
  asked_from [] i t j h = refl
  asked_from (u ∷ us) i t j h =
      ground
        (arith, asked_from us (i + 1) t j (omega arith), asked_from us (i + 1) true j (omega arith))

  -- Where DOWN upstreams are skipped, the loop neither asks one nor changes it.
  down_kept :
      (us : List UpstreamState) (i : ℕ) (t : Bool) (k : ℕ) (v : UpstreamState)
      → many ≡ true
      → get_elem? us k ≡ some v
      → is_down v.state ≡ true
      → (mem (i + k) (try_from lib many threshold phase ask msg i t us).asked ≡ false)
        × (get_elem? (try_from lib many threshold phase ask msg i t us).after k ≡ some v)
  unfolding try_from on_attempt keep tried
  down_kept [] i t k v m e d = absurd (cc e)
  down_kept (u ∷ us) i t zero v m e d =
      (ground (arith, asked_from us (i + 1) t (i + 0) (omega arith)), ground arith)
  down_kept (u ∷ us) i t (suc k) v m e d = (
    ground (arith, down_kept us (i + 1) t k v m e d, down_kept us (i + 1) true k v m e d),
    ground (arith, down_kept us (i + 1) t k v m e d, down_kept us (i + 1) true k v m e d),
  )

  -- A good answer anywhere in the chain that is not skipped is enough.
  first_good_of :
      (us : List UpstreamState) (i k : ℕ) (v : UpstreamState) (resp : Msg)
      → get_elem? us k ≡ some v
      → (is_down v.state && many) ≡ false
      → good_answer lib msg (ask (i + k)) ≡ some resp
      → is_some (first_good lib many ask msg i us) ≡ true
  unfolding first_good
  first_good_of [] i k v resp e d g = absurd (cc e)
  first_good_of (u ∷ us) i zero v resp e d g = ground arith
  first_good_of (u ∷ us) i (suc k) v resp e d g =
      let shift : i + 1 + k ≡ i + suc k = omega arith in
      ground (arith, first_good_of us (i + 1) k v resp e d (rw shift g))

  first_good_matches :
      (us : List UpstreamState) (i j : ℕ) (resp : Msg)
      → first_good lib many ask msg i us ≡ some (resp, j)
      → response_matches_query lib msg resp ≡ true
  unfolding first_good
  first_good_matches [] i j resp h = absurd (cc h)
  first_good_matches (u ∷ us) i j resp h = ground (arith, first_good_matches us (i + 1) j resp)

-- What Resolve returns of the first good answer, and the counter of fallbacks.
abbrev pub outcome_of : Option (Msg × ℕ) → Result ResolveError Msg
outcome_of none = err all_upstreams_failed
outcome_of (some (resp, j)) = ok resp

abbrev pub fallbacks_of : Option (Msg × ℕ) → ℕ
fallbacks_of none = 0
fallbacks_of (some (resp, j)) = if ltb 0 j then 1 else 0

module _ (lib : DnsLib) (f : FallbackResolver) (now : ℕ) (ask : ℕ → Attempt) (msg : Msg) where
  abbrev pub chosen : Option (Msg × ℕ)
  chosen = first_good lib (ltb 1 (length f.upstreams)) ask msg 0 f.upstreams

  -- For a query with one question Resolve returns the first good answer in the order of the chain,
  -- DOWN upstreams left out if there are two upstreams or more, and otherwise the error that all
  -- upstreams failed. So where two or more upstreams are all DOWN, none is asked and the query fails,
  -- although a comment of the code has the last one left to try asked all the same. It counts a
  -- fallback exactly when the answer is not the first upstream's.
  pub resolve-first_good :
      (length msg.question ≡ 1)
      → ((resolve lib f now ask msg).1 ≡ outcome_of chosen)
        × ((resolve lib f now ask msg).0.upstream_fallbacks
            ≡ f.upstream_fallbacks + fallbacks_of chosen)
  unfolding resolve
  resolve-first_good one = ground (
    arith,
    try_from-first_good lib (ltb 1 (length f.upstreams)) f.phase2_failure_threshold
        (get_current_phase f now) ask msg f.upstreams 0 false (λ h. cc h),
  )

  -- A query that does not carry exactly one question is refused and leaves the chain as it is: no
  -- upstream is asked, and none is blamed.
  pub resolve_bad_count :
      (length msg.question ≢ 1) → resolve lib f now ask msg ≡ (f, err response_mismatch)
  unfolding resolve
  resolve_bad_count h = ground arith

  -- Whatever Resolve returns answers the question that was asked: one question on either side, of
  -- the same type and class and, up to case, the same name.
  pub resolve_matches :
      (resp : Msg)
      → (resolve lib f now ask msg).1 ≡ ok resp
      → response_matches_query lib msg resp ≡ true
  resolve_matches resp h = elim (Bool-cases (length msg.question == 1)) [
    | inr n ↦ absurd (bad (ground arith))
    | inl y ↦ from chosen refl (ground arith)
  ]
    where
      bad : length msg.question ≢ 1 → ⊥
      bad n =
          let e =
            ap (λ (x : FallbackResolver × Result ResolveError Msg). x.1) (resolve_bad_count n) in
          ground arith

      from :
          (c : Option (Msg × ℕ))
          → chosen ≡ c
          → length msg.question ≡ 1
          → response_matches_query lib msg resp ≡ true
      from none e one =
          let r = (resolve-first_good one).0 in absurd (unfold first_good in ground arith)
      from (some (r', j)) e one =
          let r : ok r' ≡ ok resp = rw e at (sym (resolve-first_good one).0 ∙ h) in
          first_good_matches lib (ltb 1 (length f.upstreams)) f.phase2_failure_threshold
            (get_current_phase f now) ask msg f.upstreams 0 j resp (ground arith)

  -- If some upstream that is not skipped has a good answer, Resolve succeeds, whatever the upstreams
  -- before it do.
  pub resolve_live :
      (k : ℕ) (v : UpstreamState) (resp : Msg)
      → length msg.question ≡ 1
      → get_elem? f.upstreams k ≡ some v
      → (is_down v.state && ltb 1 (length f.upstreams)) ≡ false
      → good_answer lib msg (ask k) ≡ some resp
      → (r : Msg) × ((resolve lib f now ask msg).1 ≡ ok r)
  resolve_live k v resp one e d g = from chosen refl (
      first_good_of lib _ f.phase2_failure_threshold (get_current_phase f now) ask msg f.upstreams 0
        k v resp e d (rw (zero-add k) g))
    where
      from :
          (c : Option (Msg × ℕ))
          → chosen ≡ c
          → is_some chosen ≡ true
          → (r : Msg) × ((resolve lib f now ask msg).1 ≡ ok r)
      from none e s = absurd (cc (rw e at s))
      from (some (r, j)) e s = (r, (resolve-first_good one).0 ∙ rw e)

  -- With two upstreams or more, Resolve leaves each DOWN upstream exactly as it is.
  pub resolve_skips_down :
      (k : ℕ) (v : UpstreamState)
      → 1 < length f.upstreams
      → get_elem? f.upstreams k ≡ some v
      → is_down v.state ≡ true
      → get_elem? (resolve lib f now ask msg).0.upstreams k ≡ some v
  unfolding resolve
  resolve_skips_down k v two e d = ground (
    arith,
    down_kept lib (ltb 1 (length f.upstreams)) f.phase2_failure_threshold (get_current_phase f now)
        ask msg f.upstreams 0 false k v (ground arith) e d,
  )

try_from-none_up :
    (lib : DnsLib) (threshold : ℕ) (phase : Phase) (ask : ℕ → Attempt) (msg : Msg)
    (us : List UpstreamState) (i : ℕ) (t : Bool)
    → All (λ u. is_down u.state ≡ true) us
    → try_from lib true threshold phase ask msg i t us
      ≡ record { after = us; asked = []; result = none }
unfolding try_from on_attempt keep tried
try_from-none_up lib threshold phase ask msg [] i t h = refl
try_from-none_up lib threshold phase ask msg (u ∷ us) i t h =
    ground (arith, h.0, try_from-none_up lib threshold phase ask msg us (i + 1) t h.1)

-- If two or more upstreams are configured and all of them are DOWN, a query fails at once: none is
-- tried as a last resort, whatever they would answer, and the chain stays as it is.
pub resolve_none_up :
    (lib : DnsLib) (f : FallbackResolver) (now : ℕ) (ask : ℕ → Attempt) (msg : Msg)
    → 1 < length f.upstreams
    → length msg.question ≡ 1
    → All (λ u. is_down u.state ≡ true) f.upstreams
    → resolve lib f now ask msg ≡ (f, err all_upstreams_failed)
unfolding resolve
resolve_none_up lib f now ask msg two one h =
    let many : ltb 1 (length f.upstreams) ≡ true = ground arith in
    ground (
      arith,
      try_from-none_up lib f.phase2_failure_threshold (get_current_phase f now) ask msg f.upstreams
          0 false h,
    )
