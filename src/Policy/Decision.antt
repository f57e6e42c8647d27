-- ===== src/Policy/Decision.antt =====
-- Which queries Response of internal/policy/policy.go answers locally, and what it counts.
use rcvd.Prelude.{
  ℕ, ◌≡◌, refl, ◌↔◌, inl, inr, true, false, Option, none, some, List, [], ◌∷◌, arith, Bool-cases,
  Option-cases, List-cases, mem, is_empty,
}
use rcvd.Text.{Text}
use rcvd.Allowlist as Allowlist
use rcvd.Blocklist as Blocklist
use rcvd.Allowlist.Lookup.{Allows, allowed-Allows}
use rcvd.Blocklist.Lookup.{Blocks, is_blocked-Blocks}
use rcvd.Dns.{Question, Msg, DnsLib, EdnsLaws}
use rcvd.Statistics.{Stats, on_stats}
use rcvd.Policy.{
  Policy, qtype_ok, deny_reply, count_denied, count_blocked, question_verdict, blocks,
  blocked_reply, response,
}
use rcvd.Policy.Denial.{IsDenial, deny_reply-IsDenial}

-- The question passes the allowlist and the type set, which is in force only beside an allowlist.
abbrev pub PassesAllow : Policy → Question → Type 0
PassesAllow p q =
    (a : Allowlist.Allowlist)
    → p.allow ≡ some a
    → (is_empty q.name ≡ false)
      × Allows a (Allowlist.normalize q.name)
      × ((types : List ℕ) → p.qtypes ≡ some types → mem q.qtype types ≡ true)

-- The question passes the blocklist.
abbrev pub PassesBlock : Policy → Question → Type 0
PassesBlock p q =
    (b : Blocklist.Blocklist)
    → p.block ≡ some b
    → b.enabled ≡ true
    → ¬ Blocks b.sets (Blocklist.normalize q.name)

question_verdict_sound : (p : Policy) (q : Question) → question_verdict p q ≡ none → PassesAllow p q
unfolding question_verdict qtype_ok
question_verdict_sound p q h a e =
    let named = (allowed-Allows a q.name).0 (ground (arith, e)) in
    (named.0, named.1, λ types t. ground (arith, e, t))

question_verdict_complete :
    (p : Policy) (q : Question) → PassesAllow p q → question_verdict p q ≡ none
unfolding question_verdict qtype_ok
question_verdict_complete p q h = elim (Option-cases p.allow) [
  | inl e ↦ rw (e, question_verdict) refl
  | inr (a, e) ↦
      let (nonempty, allows, types) = h a e in
      let named : Allowlist.allowed a q.name ≡ true =
        (allowed-Allows a q.name).1 (nonempty, allows) in
      elim (Option-cases p.qtypes) [
        | inl t ↦ ground (arith, e, t, named)
        | inr (ts, t) ↦ ground (arith, e, t, named, types ts t)
      ]
]

blocks_sound : (p : Policy) (q : Question) → blocks p q.name ≡ false → PassesBlock p q
unfolding blocks
blocks_sound p q h b e on listed = ground (arith, e, (is_blocked-Blocks b q.name).1 (on, listed))

blocks_complete : (p : Policy) (q : Question) → PassesBlock p q → blocks p q.name ≡ false
unfolding blocks
blocks_complete p q h = elim (Option-cases p.block) [
  | inl e ↦ rw (e, blocks) refl
  | inr (b, e) ↦ elim (Bool-cases (Blocklist.is_blocked b q.name)) [
    | inl y ↦ let (on, listed) = (is_blocked-Blocks b q.name).0 y in absurd (h b e on listed)
    | inr n ↦ rw (e, blocks) n
  ]
]

-- A policy lets a query through, counting nothing, exactly when its first question passes the
-- allowlist, the type set and the blocklist.
pub response-Passes :
    (lib : DnsLib) (p : Policy) (s : Option Stats) (query : Msg) (q : Question) (qs : List Question)
    → query.question ≡ q ∷ qs
    → (response lib (some p) s query ≡ (s, none)) ↔ (PassesAllow p q × PassesBlock p q)
unfolding response
response-Passes lib p s query q qs e = (
  λ h. elim (Option-cases (question_verdict p q)) [
    | inl v ↦ elim (Bool-cases (blocks p q.name)) [
      | inl y ↦ ground (arith, e, v, y)
      | inr n ↦ (question_verdict_sound p q v, blocks_sound p q n)
    ]
    | inr (reason, v) ↦ ground (arith, e, v)
  ],
  λ h. rw (response, e, question_verdict_complete p q h.0, blocks_complete p q h.1) refl,
)

pub response_denied :
    (lib : DnsLib) (p : Policy) (s : Option Stats) (query : Msg) (q : Question) (qs : List Question)
    (reason : Text)
    → query.question ≡ q ∷ qs
    → question_verdict p q ≡ some reason
    → response lib (some p) s query ≡ (on_stats count_denied s, some (deny_reply lib query reason))
unfolding response
response_denied lib p s query q qs reason e v = ground (arith, e, v)

pub response_blocked :
    (lib : DnsLib) (p : Policy) (s : Option Stats) (query : Msg) (q : Question) (qs : List Question)
    → query.question ≡ q ∷ qs
    → question_verdict p q ≡ none
    → blocks p q.name ≡ true
    → response lib (some p) s query ≡ (on_stats count_blocked s, some (blocked_reply query))
unfolding response
response_blocked lib p s query q qs e v y = ground (arith, e, v, y)

-- A query whose question fails the allowlist or the type set is counted as denied and gets a
-- denial, whatever the blocklist says. One that passes them and fails the blocklist is counted as
-- blocked and gets the NXDOMAIN reply.
pub response_local :
    (lib : DnsLib) (p : Policy) (s : Option Stats) (query : Msg) (q : Question) (qs : List Question)
    → EdnsLaws lib
    → query.question ≡ q ∷ qs
    → (¬ PassesAllow p q
        → ((response lib (some p) s query).0 ≡ on_stats count_denied s)
          × ((m : Msg) × ((response lib (some p) s query).1 ≡ some m) × IsDenial query m))
      × (PassesAllow p q
          → ¬ PassesBlock p q
          → response lib (some p) s query ≡ (on_stats count_blocked s, some (blocked_reply query)))
response_local lib p s query q qs laws e = (
  λ bad. elim (Option-cases (question_verdict p q)) [
    | inl v ↦ absurd (bad (question_verdict_sound p q v))
    | inr (reason, v) ↦
        rw (response_denied lib p s query q qs reason e v)
          (refl, (deny_reply lib query reason, refl, deny_reply-IsDenial lib query reason laws))
  ],
  λ good bad. elim (Bool-cases (blocks p q.name)) [
    | inl y ↦ response_blocked lib p s query q qs e (question_verdict_complete p q good) y
    | inr n ↦ absurd (bad (blocks_sound p q n))
  ],
)

-- A reply that the policy makes itself carries no answer record.
pub response-no_answer :
    (lib : DnsLib) (p : Option Policy) (s : Option Stats) (query reply : Msg)
    → EdnsLaws lib
    → (response lib p s query).1 ≡ some reply
    → reply.answer ≡ []
unfolding response blocked_reply
response-no_answer lib none s query reply laws h = cc h
response-no_answer lib (some p) s query reply laws h = elim (List-cases query.question) [
  | inl e ↦ ground (arith, e)
  | inr (q, qs, e) ↦ elim (Option-cases (question_verdict p q)) [
    | inl v ↦ ground (arith, e, v)
    | inr (reason, v) ↦ ground (arith, e, v, (deny_reply-IsDenial lib query reason laws).no_answer)
  ]
]
