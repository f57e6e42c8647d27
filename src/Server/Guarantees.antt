-- ===== src/Server/Guarantees.antt =====
-- What the handlers of internal/server/server.go guarantee: the allowlist holds on every reply, a
-- query that the policy answers stays local, and a bogus response is neither served nor cached
-- unless a stale entry takes its place.
use rcvd.Prelude.{
  ◌≡◌, refl, ◌∙◌, ◌⊎◌, inl, inr, true, false, Option, none, some, [], arith, Bool-cases,
  Option-cases, All, is_empty, length, ◌==◌,
}
use rcvd.Allowlist.{Allowlist}
use rcvd.Cache as Cache
use rcvd.Policy as Policy
use rcvd.Policy.Decision.{response-no_answer}
use rcvd.Policy.Replies.{Vouched, answer-Vouched}
use rcvd.Dns.{Msg, DnsLib, EdnsLaws}
use rcvd.Dns.Rcode
use rcvd.Statistics.{Stats}
use rcvd.Server.{
  Server, World, Verdict, bogus, count, own_reply, form_err_response, stale_entry,
  upstream_failure_response, apply_dnssec, cacheable_response, put_cacheable, resolve_upstream,
  check_answer, cache_lookup, serve_cached, policy_response, query_with_do,
}
use rcvd.Server.Handlers.{decide_udp}

-- Neither a cache lookup nor the upstream block changes the policy.
policy-upstream_failure_response :
    (lib : DnsLib) (srv : Server) (w : World) (query : Msg)
    → (upstream_failure_response lib srv w query).0.policy ≡ srv.policy
unfolding upstream_failure_response count
policy-upstream_failure_response lib srv w query = ground arith

policy-apply_dnssec :
    (lib : DnsLib) (srv : Server) (w : World) (response query : Msg)
    → (apply_dnssec lib srv w response query).0.policy ≡ srv.policy
unfolding apply_dnssec upstream_failure_response count
policy-apply_dnssec lib srv w response query = ground arith

policy-put_cacheable :
    (lib : DnsLib) (srv : Server) (w : World) (query response : Msg)
    → (put_cacheable lib srv w query response).policy ≡ srv.policy
unfolding put_cacheable
policy-put_cacheable lib srv w query response = ground arith

policy-resolve_upstream :
    (lib : DnsLib) (srv : Server) (w : World) (query : Msg)
    → (resolve_upstream lib srv w query).0.policy ≡ srv.policy
unfolding resolve_upstream count
policy-resolve_upstream lib srv w query =
    elim (Option-cases (w.upstream (query_with_do lib query))) [
      | inl e ↦ rw (resolve_upstream, e) (policy-upstream_failure_response lib _ w query)
      | inr (r, e) ↦
          rw (resolve_upstream, e)
            (policy-put_cacheable lib _ w query _ ∙ policy-apply_dnssec lib _ w r query)
    ]

policy-cache_lookup :
    (lib : DnsLib) (srv : Server) (w : World) (query : Msg)
    → (cache_lookup lib srv w query).0.policy ≡ srv.policy
unfolding cache_lookup
policy-cache_lookup lib srv w query = ground arith

pub check_answer-Vouched :
    (lib : DnsLib) (p : Policy.Policy) (a : Allowlist) (query : Msg) (r : Server × Msg)
    → EdnsLaws lib
    → r.0.policy ≡ some p
    → p.allow ≡ some a
    → All (Vouched p a) (check_answer lib query r).1.answer
unfolding check_answer
check_answer-Vouched lib p a query (srv, response) laws e allow =
    rw (check_answer, e) (answer-Vouched lib p a srv.stats query response laws allow)

serve_cached-Vouched :
    (lib : DnsLib) (p : Policy.Policy) (a : Allowlist) (srv : Server) (query cached : Msg)
    → EdnsLaws lib
    → srv.policy ≡ some p
    → p.allow ≡ some a
    → All (Vouched p a) (serve_cached lib srv query cached).1.answer
unfolding serve_cached count
serve_cached-Vouched lib p a srv query cached laws e allow =
    check_answer-Vouched lib p a query _ laws e allow

-- The answer of a reply that the policy made.
pub local_answer :
    (lib : DnsLib) (srv : Server) (query reply : Msg)
    → EdnsLaws lib
    → (policy_response lib srv query).1 ≡ some reply
    → reply.answer ≡ []
unfolding policy_response
local_answer lib srv query reply laws h =
    response-no_answer lib srv.policy srv.stats query reply laws h

pub policy-policy_response :
    (lib : DnsLib) (srv : Server) (query : Msg)
    → (policy_response lib srv query).0.policy ≡ srv.policy
unfolding policy_response
policy-policy_response lib srv query = refl

-- A malformed query's reply.
decide_form_err :
    (lib : DnsLib) (srv : Server) (w : World) (query : Msg)
    → (length query.question == 1) ≡ false
    → decide_udp lib srv w query ≡ (srv, form_err_response query)
unfolding decide_udp
decide_form_err lib srv w query h = ground (arith, h)

-- A query that the policy answers gets that answer, and nothing but the statistics changes: not the
-- cache, whatever it holds, and no upstream is asked, whatever it would answer.
pub decide_local :
    (lib : DnsLib) (srv : Server) (w : World) (query reply : Msg) (s : Option Stats)
    → length query.question ≡ 1
    → Policy.response lib srv.policy srv.stats query ≡ (s, some reply)
    → decide_udp lib srv w query ≡ (record srv { stats = s }, reply)
unfolding decide_udp policy_response
decide_local lib srv w query reply s one h = ground (arith, one, h)

-- Whatever the upstream answers and whatever the cache holds, every answer record of the reply to
-- a query is a signature or is vouched for by the allowlist, on every path of the handler: local
-- replies, cache hits, upstream replies and stale entries.
pub decide_udp-Vouched :
    (lib : DnsLib) (p : Policy.Policy) (a : Allowlist) (srv : Server) (w : World) (query : Msg)
    → EdnsLaws lib
    → srv.policy ≡ some p
    → p.allow ≡ some a
    → All (Vouched p a) (decide_udp lib srv w query).1.answer
unfolding decide_udp form_err_response
decide_udp-Vouched lib p a srv w query laws e allow =
    elim (Bool-cases (length query.question == 1)) [
      | inl one ↦ elim (Option-cases (policy_response lib srv query).1) [
        | inl pass ↦
            let kept =
              policy-cache_lookup lib (policy_response lib srv query).0 w query
              ∙ policy-policy_response lib srv query
              ∙ e in
            elim (Option-cases (cache_lookup lib (policy_response lib srv query).0 w query).1) [
              | inl miss ↦
                  rw (decide_udp, one, pass, miss)
                    (check_answer-Vouched lib p a query _ laws
                      (policy-resolve_upstream lib _ w query ∙ kept) allow)
              | inr (cached, hit) ↦
                  rw (decide_udp, one, pass, hit)
                    (serve_cached-Vouched lib p a _ query cached laws kept allow)
            ]
        | inr (reply, h) ↦ rw (decide_udp, one, h) (rw (local_answer lib srv query reply laws h) tt)
      ]
      | inr several ↦ rw (decide_form_err lib srv w query several) tt
    ]

bogus-fails_closed :
    (lib : DnsLib) (srv : Server) (w : World) (query response : Msg) (validate : Msg → Verdict)
    → w.upstream (query_with_do lib query) ≡ some response
    → srv.validator ≡ some validate
    → validate response ≡ bogus
    → stale_entry lib srv w query ≡ none
    → ((resolve_upstream lib srv w query).1 ≡ own_reply query Rcode.server_failure)
      × ((resolve_upstream lib srv w query).0.cache ≡ srv.cache)
unfolding resolve_upstream apply_dnssec upstream_failure_response stale_entry put_cacheable
    cacheable_response count
bogus-fails_closed lib srv w query response validate up val bad stale =
    ground (arith, up, val, bad, stale)

-- With a validator that finds the upstream's response bogus and a stale entry that counts as
-- cacheable, the entry is served and also put into the cache again as if it were fresh.
pub bogus-renews_stale :
    (lib : DnsLib) (srv : Server) (w : World) (query response stale : Msg)
    (validate : Msg → Verdict) (c : Cache.Cache)
    → is_empty query.question ≡ false
    → srv.cache ≡ some c
    → w.upstream (query_with_do lib query) ≡ some response
    → srv.validator ≡ some validate
    → validate response ≡ bogus
    → Cache.get_stale lib c w.at_stale query ≡ some stale
    → cacheable_response srv (record stale { id = query.id }) ≡ true
    → ((resolve_upstream lib srv w query).1 ≡ record stale { id = query.id })
      × ((resolve_upstream lib srv w query).0.cache
          ≡ some (Cache.put lib c w.at_put query (record stale { id = query.id })))
unfolding resolve_upstream apply_dnssec upstream_failure_response stale_entry put_cacheable
    cacheable_response count
bogus-renews_stale lib srv w query response stale validate c asked cached up val bad old ok =
    ground (arith, asked, cached, up, val, bad, old, ok)

failure-fails_closed :
    (lib : DnsLib) (srv : Server) (w : World) (query : Msg)
    → w.upstream (query_with_do lib query) ≡ none
    → stale_entry lib srv w query ≡ none
    → ((resolve_upstream lib srv w query).1 ≡ own_reply query Rcode.server_failure)
      × ((resolve_upstream lib srv w query).0.cache ≡ srv.cache)
unfolding resolve_upstream upstream_failure_response stale_entry count
failure-fails_closed lib srv w query up stale = ground (arith, up, stale)

-- What goes wrong beyond the cache: the upstream chain fails, or the validator finds its response
-- bogus.
abbrev pub Fails : DnsLib → Server → World → Msg → Type 0
Fails lib srv w query =
    (w.upstream (query_with_do lib query) ≡ none)
    ⊎ ((response : Msg) × (validate : Msg → Verdict) × (w.upstream (query_with_do lib query)
          ≡ some response)
        × (srv.validator ≡ some validate)
        × (validate response ≡ bogus))

-- If the upstream chain fails, or the validator finds its response bogus, and there is no stale entry
-- to serve, the reply is SERVFAIL with the query's ID and without an answer, and the cache is left as
-- it was, also where negative answers are cached.
pub resolve_upstream-Fails :
    (lib : DnsLib) (srv : Server) (w : World) (query : Msg)
    → Fails lib srv w query
    → stale_entry lib srv w query ≡ none
    → ((resolve_upstream lib srv w query).1 ≡ own_reply query Rcode.server_failure)
      × ((resolve_upstream lib srv w query).0.cache ≡ srv.cache)
resolve_upstream-Fails lib srv w query (inl down) stale =
    failure-fails_closed lib srv w query down stale
resolve_upstream-Fails lib srv w query (inr (response, validate, up, val, bad)) stale =
    bogus-fails_closed lib srv w query response validate up val bad stale
