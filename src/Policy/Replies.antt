-- ===== src/Policy/Replies.antt =====
-- Answer of internal/policy/policy.go: which replies it lets through, and what it sends instead.
use rcvd.Prelude.{
  ℕ, ◌≡◌, refl, ◌⊎◌, inl, inr, true, Option, none, some, List, [], ◌∷◌, arith, ◌==◌, Bool-cases,
  Option-cases, All, mem,
}
use rcvd.Text.{Text}
use rcvd.Allowlist.{Allowlist, allowed}
use rcvd.Dns.{
  Body, cname, dname, soa, opt, rrsig, dnskey, ds, nsec, nsec3, other, Rr, Msg, DnsLib, EdnsLaws,
}
use rcvd.Dns.RrType
use rcvd.Statistics.{Stats, on_stats}
use rcvd.Policy.{
  Policy, qtype_ok, deny_reply, count_denied, target_ok, record_verdict, answer_verdict, answer,
}
use rcvd.Policy.Denial.{IsDenial, deny_reply-IsDenial}

-- What an answer record must satisfy under an allowlist, signatures aside: its type is in the type
-- set, and its owner and its CNAME or DNAME target are allowed.
pub record IsVouched (p : Policy) (a : Allowlist) (rr : Rr) : Type 0 where
  pub type_ok : (types : List ℕ) → p.qtypes ≡ some types → mem rr.rrtype types ≡ true
  pub owner_ok : allowed a rr.name ≡ true
  pub cname_ok : (t : Text) → rr.body ≡ cname t → allowed a t ≡ true
  pub dname_ok : (t : Text) → rr.body ≡ dname t → allowed a t ≡ true

abbrev pub Vouched : Policy → Allowlist → Rr → Type 0
Vouched p a rr = (rr.rrtype ≡ RrType.rrsig) ⊎ IsVouched p a rr

record_verdict-Vouched :
    (p : Policy) (a : Allowlist) (rr : Rr) → record_verdict p a rr ≡ none → Vouched p a rr
unfolding record_verdict qtype_ok target_ok
record_verdict-Vouched p a rr h = elim (Bool-cases (rr.rrtype == RrType.rrsig)) [
  | inl y ↦ inl (ground arith)
  | inr n ↦ inr (record {
    type_ok = λ types e. ground arith;
    owner_ok = ground arith;
    cname_ok = λ t e. ground arith;
    dname_ok = λ t e. ground arith;
  })
]

target_ok_complete :
    (a : Allowlist) (b : Body)
    → ((t : Text) → b ≡ cname t → allowed a t ≡ true)
    → ((t : Text) → b ≡ dname t → allowed a t ≡ true)
    → target_ok a b ≡ true
unfolding target_ok
target_ok_complete a (cname t) c d = c t refl
target_ok_complete a (dname t) c d = d t refl
target_ok_complete a soa c d = refl
target_ok_complete a (opt o) c d = refl
target_ok_complete a (rrsig r) c d = refl
target_ok_complete a (dnskey k) c d = refl
target_ok_complete a (ds d') c d = refl
target_ok_complete a (nsec ts) c d = refl
target_ok_complete a (nsec3 n) c d = refl
target_ok_complete a (other t) c d = refl

qtype_ok_complete :
    (p : Policy) (t : ℕ)
    → ((types : List ℕ) → p.qtypes ≡ some types → mem t types ≡ true)
    → qtype_ok p t ≡ true
unfolding qtype_ok
qtype_ok_complete p t h = elim (Option-cases p.qtypes) [
  | inl e ↦ rw (qtype_ok, e) refl
  | inr (types, e) ↦ rw (qtype_ok, e) (h types e)
]

record_verdict_complete :
    (p : Policy) (a : Allowlist) (rr : Rr) → Vouched p a rr → record_verdict p a rr ≡ none
unfolding record_verdict
record_verdict_complete p a rr (inl e) = ground (arith, e)
record_verdict_complete p a rr (inr v) = ground (
  arith,
  v.owner_ok,
  qtype_ok_complete p rr.rrtype v.type_ok,
  target_ok_complete a rr.body v.cname_ok v.dname_ok,
)

answer_verdict_sound :
    (p : Policy) (a : Allowlist) (rrs : List Rr)
    → answer_verdict p a rrs ≡ none
    → All (Vouched p a) rrs
unfolding answer_verdict
answer_verdict_sound p a [] h = tt
answer_verdict_sound p a (rr ∷ rrs) h = elim (Option-cases (record_verdict p a rr)) [
  | inl e ↦ (record_verdict-Vouched p a rr e, answer_verdict_sound p a rrs (ground (arith, e)))
  | inr (r, e) ↦ ground (arith, e)
]

answer_verdict_complete :
    (p : Policy) (a : Allowlist) (rrs : List Rr)
    → All (Vouched p a) rrs
    → answer_verdict p a rrs ≡ none
unfolding answer_verdict
answer_verdict_complete p a [] h = refl
answer_verdict_complete p a (rr ∷ rrs) h =
    rw (answer_verdict, record_verdict_complete p a rr h.0) (answer_verdict_complete p a rrs h.1)

answer_passed :
    (lib : DnsLib) (p : Policy) (a : Allowlist) (s : Option Stats) (query resp : Msg)
    → p.allow ≡ some a
    → answer_verdict p a resp.answer ≡ none
    → answer lib (some p) s query resp ≡ (s, resp)
unfolding answer
answer_passed lib p a s query resp e v = ground (arith, e, v)

answer_refused :
    (lib : DnsLib) (p : Policy) (a : Allowlist) (s : Option Stats) (query resp : Msg)
    (reason : Text)
    → p.allow ≡ some a
    → answer_verdict p a resp.answer ≡ some reason
    → answer lib (some p) s query resp ≡ (on_stats count_denied s, deny_reply lib query reason)
unfolding answer
answer_refused lib p a s query resp reason e v = ground (arith, e, v)

-- With an allowlist, and whatever the upstream or the cache returned, every answer record of the
-- reply that is sent is a signature or has an allowed type, owner and CNAME or DNAME target.
pub answer-Vouched :
    (lib : DnsLib) (p : Policy) (a : Allowlist) (s : Option Stats) (query resp : Msg)
    → EdnsLaws lib
    → p.allow ≡ some a
    → All (Vouched p a) (answer lib (some p) s query resp).1.answer
answer-Vouched lib p a s query resp laws e = elim (Option-cases (answer_verdict p a resp.answer)) [
  | inl v ↦ rw (answer_passed lib p a s query resp e v) (answer_verdict_sound p a resp.answer v)
  | inr (reason, v) ↦
      rw (answer_refused lib p a s query resp reason e v)
        (rw (deny_reply-IsDenial lib query reason laws).no_answer tt)
]

-- With an allowlist, a reply whose answer records all pass is sent unchanged and counts nothing.
-- Otherwise one denied query is counted and the reply is a denial of the query.
pub answer_decision :
    (lib : DnsLib) (p : Policy) (a : Allowlist) (s : Option Stats) (query resp : Msg)
    → EdnsLaws lib
    → p.allow ≡ some a
    → (All (Vouched p a) resp.answer → answer lib (some p) s query resp ≡ (s, resp))
      × (¬ All (Vouched p a) resp.answer
          → ((answer lib (some p) s query resp).0 ≡ on_stats count_denied s)
            × IsDenial query (answer lib (some p) s query resp).1)
answer_decision lib p a s query resp laws e = (
  λ all. answer_passed lib p a s query resp e (answer_verdict_complete p a resp.answer all),
  λ some_bad. elim (Option-cases (answer_verdict p a resp.answer)) [
    | inl v ↦ absurd (some_bad (answer_verdict_sound p a resp.answer v))
    | inr (reason, v) ↦
        rw (answer_refused lib p a s query resp reason e v)
          (refl, deny_reply-IsDenial lib query reason laws)
  ],
)
