-- ===== src/Policy.antt =====
-- internal/policy/policy.go: the decision whether a query is answered locally, and the check of
-- what comes back. The program shares one statistics object between the policy and the listeners:
-- it is the state that `response` and `answer` take and return, and `none` where the pointer is
-- nil. A nil *Policy is `none` too.
pub mod Denial
pub mod Replies
pub mod Decision
use rcvd.Prelude.{
  ℕ, ◌+◌, ◌-◌, Bool, true, false, not, Option, none, some, List, [], ◌∷◌, ◌++◌, mem, is_empty, ◌==◌,
  if◌then◌else◌,
}
use rcvd.Text.{Text, codes}
use rcvd.Text.Affix.{trim_prefix, has_prefix}
use rcvd.Allowlist.{Allowlist, allowed, entries}
use rcvd.Blocklist.{Blocklist, is_blocked}
use rcvd.Dns.{Question, Body, cname, dname, Rr, Msg, Opt, empty_msg, DnsLib}
use rcvd.Dns.Rcode
use rcvd.Dns.RrType
use rcvd.Statistics.{Stats, on_stats}

pub record Policy : Type 0 where
  pub allow : Option Allowlist
  pub block : Option Blocklist
  -- The allowed types; nil is any.
  pub qtypes : Option (List ℕ)

-- New
abbrev pub new : Option Allowlist → Option Blocklist → Policy
new allow block = record { allow = allow; block = block; qtypes = none }

-- SetQTypes
unfoldable pub set_qtypes : Policy → List ℕ → Policy
set_qtypes p types = record p { qtypes = if is_empty types then none else some types }

-- p.qtypes == nil || p.qtypes[t]
unfoldable pub qtype_ok : Policy → ℕ → Bool
qtype_ok p t = elim p.qtypes [ none ↦ true | some types ↦ mem t types ]

abbrev pub edns_udp_buf_size : ℕ
edns_udp_buf_size = 1232

-- dns.ExtendedErrorCodeProhibited
abbrev pub prohibited : ℕ
prohibited = 18

-- opt.Option = append(opt.Option, ...), if the message has an OPT.
unfoldable pub attach_ede : DnsLib → Msg → Text → Msg
attach_ede lib m reason = elim (lib.is_edns0 m) [
  | none ↦ m
  | some o ↦ lib.update_edns0 m (record o { ede = o.ede ++ (prohibited, reason) ∷ [] })
]

-- The REFUSED reply of deny before its OPT.
unfoldable pub refused_reply : Msg → Msg
refused_reply query = record empty_msg {
  id = query.id;
  response = true;
  rcode = Rcode.refused;
  recursion_available = true;
  question = query.question;
}

-- The reply of deny.
unfoldable pub deny_reply : DnsLib → Msg → Text → Msg
deny_reply lib query reason = elim (lib.is_edns0 query) [
  | none ↦ refused_reply query
  | some _ ↦ attach_ede lib (lib.set_edns0 (refused_reply query) edns_udp_buf_size false) reason
]

unfoldable pub count_denied : Stats → Stats
count_denied s = record s { denied_queries = s.denied_queries + 1 }

unfoldable pub count_blocked : Stats → Stats
count_blocked s = record s { blocked_queries = s.blocked_queries + 1 }

-- The guards of Response under `p.allow != nil`: the reason to deny the question.
unfoldable pub question_verdict : Policy → Question → Option Text
question_verdict p q = elim p.allow [
  | none ↦ none
  | some a ↦
      if not (allowed a q.name)
      then some (codes "default-deny allowlist")
      else if not (qtype_ok p q.qtype)
      then some (codes "qtype not allowed")
      else none
]

-- p.block != nil && p.block.IsBlocked(name)
unfoldable pub blocks : Policy → Text → Bool
blocks p name = elim p.block [ none ↦ false | some b ↦ is_blocked b name ]

-- The NXDOMAIN reply of Response.
unfoldable pub blocked_reply : Msg → Msg
blocked_reply query = record empty_msg {
  id = query.id;
  response = true;
  rcode = Rcode.name_error;
  question = query.question;
}

-- Response
unfoldable pub response : DnsLib → Option Policy → Option Stats → Msg → Option Stats × Option Msg
response lib none s query = (s, none)
response lib (some p) s query = elim query.question [
  | [] ↦ (s, none)
  | q ∷ qs ↦ elim (question_verdict p q) [
    | some reason ↦ (on_stats count_denied s, some (deny_reply lib query reason))
    | none ↦
        if blocks p q.name
        then (on_stats count_blocked s, some (blocked_reply query))
        else (s, none)
  ]
]

abbrev pub outside : Text
outside = codes "answer outside allowlist"

-- The type switch of Answer: a CNAME's or DNAME's target must be allowed.
unfoldable pub target_ok : Allowlist → Body → Bool
target_ok a (cname target) = allowed a target
target_ok a (dname target) = allowed a target
target_ok a _ = true

-- One turn of the loop of Answer: the reason to refuse the record.
unfoldable pub record_verdict : Policy → Allowlist → Rr → Option Text
record_verdict p a rr =
    if rr.rrtype == RrType.rrsig
    then none
    else if not (qtype_ok p rr.rrtype)
    then some (codes "answer type not allowed")
    else if not (allowed a rr.name)
    then some outside
    else if not (target_ok a rr.body)
    then some outside
    else none

-- The loop of Answer, which stops at the first refusal.
unfoldable pub answer_verdict : Policy → Allowlist → List Rr → Option Text
answer_verdict p a [] = none
answer_verdict p a (rr ∷ rrs) = elim (record_verdict p a rr) [
  | some reason ↦ some reason
  | none ↦ answer_verdict p a rrs
]

-- Answer, for a reply that is there.
unfoldable pub answer : DnsLib → Option Policy → Option Stats → Msg → Msg → Option Stats × Msg
answer lib none s query resp = (s, resp)
answer lib (some p) s query resp = elim p.allow [
  | none ↦ (s, resp)
  | some a ↦ elim (answer_verdict p a resp.answer) [
    | none ↦ (s, resp)
    | some reason ↦ (on_stats count_denied s, deny_reply lib query reason)
  ]
]

-- e[1:], for a text that is not empty.
unfoldable pub drop_one : Text → Text
drop_one [] = []
drop_one (c ∷ e) = e

-- The name that Shadowed probes for an entry.
unfoldable pub shadow_probe : Text → Text
shadow_probe e = if has_prefix e (codes "*.") then b'#' ∷ drop_one e else trim_prefix e (codes "=")

-- The loop of Shadowed.
unfoldable pub shadowed_among : Blocklist → List Text → List Text
shadowed_among b [] = []
shadowed_among b (e ∷ es) =
    let rest = shadowed_among b es in if is_blocked b (shadow_probe e) then e ∷ rest else rest

-- Shadowed
unfoldable pub shadowed : Option Allowlist → Option Blocklist → List Text
shadowed none block = []
shadowed (some a) none = []
shadowed (some a) (some b) = shadowed_among b (entries a)
