-- ===== src/Statistics/Buckets.antt =====
-- What the response buckets and the latency quadruple hold after any number of calls.
use rcvd.Prelude.{
  ℕ, ◌+◌, ◌≤◌, ◌≡◌, refl, arith, List, [], ◌∷◌, length, Elem, inl, inr, Bool-cases, leb, leb→le,
  ◌∙◌, All, ◌⊎◌, ◌<◌,
}
use rcvd.Statistics.{Latency, Stats, record_latency_into, record_response}

-- The number of responses accounted for.
abbrev pub responses : Stats → ℕ
responses s = s.success_responses + s.servfail_responses + s.nxdomain_responses + s.other_responses

abbrev pub record_all : List ℕ → Stats → Stats
record_all [] s = s
record_all (rcode ∷ rcodes) s = record_all rcodes (record_response rcode s)

-- Each response is counted in exactly one bucket: after recording any response codes, the four
-- buckets together have grown by the number of responses, and no query counter has changed.
pub record_all-responses :
    (rcodes : List ℕ) (s : Stats)
    → (responses (record_all rcodes s) ≡ responses s + length rcodes)
      × ((record_all rcodes s).total_queries ≡ s.total_queries)
unfolding record_response
record_all-responses [] s = (omega arith, refl)
record_all-responses (rcode ∷ rcodes) s =
    let h = record_all-responses rcodes (record_response rcode s) in ground (arith, h.0, h.1)

abbrev pub fresh_latency : Latency
fresh_latency = record { min_us = 0; max_us = 0; total_us = 0; count = 0 }

abbrev pub sample_all : List ℕ → Latency → Latency
sample_all [] l = l
sample_all (us ∷ samples) l = sample_all samples (record_latency_into l us)

-- Folding more samples into a quadruple whose minimum is set.
sample_all-min :
    (samples : List ℕ) (l : Latency)
    → 0 < l.min_us
    → All (λ us. 0 < us) samples
    → (0 < (sample_all samples l).min_us)
      × ((sample_all samples l).min_us ≤ l.min_us)
      × All (λ us. (sample_all samples l).min_us ≤ us) samples
      × (((sample_all samples l).min_us ≡ l.min_us) ⊎ Elem (sample_all samples l).min_us samples)
unfolding record_latency_into
sample_all-min [] l pos h = (pos, omega arith, tt, inl refl)
sample_all-min (us ∷ samples) l pos h = elim (Bool-cases (leb l.min_us us)) [
  | inl y ↦
      let step : (record_latency_into l us).min_us ≡ l.min_us = ground arith in
      let (p, le, all, at) =
        sample_all-min samples (record_latency_into l us) (ground (arith, step)) h.1 in
      (
        p,
        omega (arith, step),
        (ground (arith, step, leb→le l.min_us us y), all),
        elim at [ inl e ↦ inl (e ∙ step) | inr e ↦ inr (inr e) ],
      )
  | inr n ↦
      let step : (record_latency_into l us).min_us ≡ us = ground arith in
      let (p, le, all, at) =
        sample_all-min samples (record_latency_into l us) (ground (arith, step, h.0)) h.1 in
      (
        p,
        ground (arith, step),
        (omega (arith, step), all),
        elim at [ inl e ↦ inr (inl (e ∙ step)) | inr e ↦ inr (inr e) ],
      )
]

-- After a first positive sample and any positive samples, the minimum kept is a sample and no
-- sample lies below it.
pub sample_all-least :
    (us : ℕ) (samples : List ℕ)
    → All (λ n. 0 < n) (us ∷ samples)
    → Elem (sample_all (us ∷ samples) fresh_latency).min_us (us ∷ samples)
      × All (λ n. (sample_all (us ∷ samples) fresh_latency).min_us ≤ n) (us ∷ samples)
unfolding record_latency_into
sample_all-least us samples h =
    let first = record_latency_into fresh_latency us in
    let set : first.min_us ≡ us = ground arith in
    let (pos, le, all, at) = sample_all-min samples first (ground (arith, set, h.0)) h.1 in
    (elim at [ inl e ↦ inl (e ∙ set) | inr e ↦ inr e ], (ground (arith, set, le), all))

-- A first sample of 0 microseconds is forgotten by the minimum as soon as another sample comes: the
-- value 0 also stands for "unset".
pub sample_all-zero : (us : ℕ) → (sample_all (0 ∷ us ∷ []) fresh_latency).min_us ≡ us
unfolding record_latency_into
sample_all-zero us = ground arith
