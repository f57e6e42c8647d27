-- ===== src/UpstreamService/Guarantees.antt =====
-- What the handlers of internal/upstream guarantee: the allowlist holds on every reply outside the
-- zone, and a failure of the upstream or of the validation ends in SERVFAIL.
use rcvd.Prelude.{
  ◌≡◌, refl, ◌∙◌, inl, inr, none, some, arith, Bool-cases, Option-cases, All, length, ◌==◌,
}
use rcvd.Allowlist.{Allowlist}
use rcvd.Cache as Cache
use rcvd.Policy as Policy
use rcvd.Policy.Replies.{Vouched}
use rcvd.Dns.{Msg, DnsLib, EdnsLaws}
use rcvd.Dns.Rcode
use rcvd.Server.{Server, World, count, own_reply, form_err_response, check_answer, policy_response}
use rcvd.Server.Guarantees.{Fails, check_answer-Vouched, local_answer, policy-policy_response}
use rcvd.UpstreamService.Lockstep.{stream_cache_replied, decide_doh-stream}
use rcvd.Server.Edns.{All-ensure_response_edns}
use rcvd.UpstreamService.{
  Zone, zone_answer, apply_validation, put_success, fetch, resolve_service, stream_local,
  stream_cache, stream_upstream, decide_stream, decide_doh,
}

policy-fetch :
    (lib : DnsLib) (srv : Server) (w : World) (query : Msg)
    → (fetch lib srv w query).0.policy ≡ srv.policy
unfolding fetch apply_validation count
policy-fetch lib srv w query = ground arith

policy-put_success :
    (lib : DnsLib) (srv : Server) (w : World) (query response : Msg)
    → (put_success lib srv w query response).policy ≡ srv.policy
unfolding put_success
policy-put_success lib srv w query response = ground arith

resolve_service-Vouched :
    (lib : DnsLib) (p : Policy.Policy) (a : Allowlist) (srv : Server) (w : World) (query : Msg)
    → EdnsLaws lib
    → srv.policy ≡ some p
    → p.allow ≡ some a
    → All (Vouched p a) (resolve_service lib srv w query).1.answer
unfolding resolve_service
resolve_service-Vouched lib p a srv w query laws e allow =
    check_answer-Vouched lib p a query _ laws
      (policy-put_success lib _ w query _ ∙ policy-fetch lib srv w query ∙ e) allow

-- A miss of the cache block keeps the policy, and a hit is vouched for.
policy-stream_cache :
    (lib : DnsLib) (srv : Server) (w : World) (query : Msg)
    → (stream_cache lib w query (srv, none)).1 ≡ none
    → (stream_cache lib w query (srv, none)).0.policy ≡ srv.policy
unfolding stream_cache count
policy-stream_cache lib srv w query miss = ground (arith, miss)

stream_cache-Vouched :
    (lib : DnsLib) (p : Policy.Policy) (a : Allowlist) (srv : Server) (w : World)
    (query reply : Msg)
    → EdnsLaws lib
    → srv.policy ≡ some p
    → p.allow ≡ some a
    → (stream_cache lib w query (srv, none)).1 ≡ some reply
    → All (Vouched p a) reply.answer
unfolding stream_cache
stream_cache-Vouched lib p a srv w query reply laws e allow hit = elim (Option-cases srv.cache) [
  | inl none_there ↦ ground (arith, none_there, hit)
  | inr (c, there) ↦ elim (Option-cases (Cache.get lib c w.at_get query).1) [
    | inl miss ↦ ground (arith, there, miss, hit)
    | inr (cached, found) ↦
        let before : Server = record srv { cache = some (Cache.get lib c w.at_get query).0 } in
        let m : Msg = record cached { id = query.id } in
        let made : (check_answer lib query (before, m)).1 ≡ reply =
          ground (arith, there, found, hit) in
        rw⁻¹ made (check_answer-Vouched lib p a query (before, m) laws e allow)
  ]
]

-- Over TLS and QUIC.
decide_stream-Vouched :
    (lib : DnsLib) (p : Policy.Policy) (a : Allowlist) (z : Zone) (srv : Server) (w : World)
    (query : Msg)
    → EdnsLaws lib
    → srv.policy ≡ some p
    → p.allow ≡ some a
    → zone_answer lib z query ≡ none
    → All (Vouched p a) (decide_stream lib z srv w query).1.answer
unfolding decide_stream stream_local stream_upstream form_err_response
decide_stream-Vouched lib p a z srv w query laws e allow outside =
    elim (Bool-cases (length query.question == 1)) [
      | inr several ↦ rw (decide_stream, stream_local, several, stream_cache_replied) tt
      | inl one ↦ elim (Option-cases (policy_response lib srv query).1) [
        | inr (reply, h) ↦
            rw (decide_stream, stream_local, one, outside, h, stream_cache_replied)
              (rw (local_answer lib srv query reply laws h) tt)
        | inl pass ↦
            let srv' = (policy_response lib srv query).0 in
            let kept = policy-policy_response lib srv query ∙ e in
            elim (Option-cases (stream_cache lib w query (srv', none)).1) [
              | inl miss ↦
                  rw (decide_stream, stream_local, one, outside, pass, miss)
                    (resolve_service-Vouched lib p a _ w query laws
                      (policy-stream_cache lib srv' w query miss ∙ kept) allow)
              | inr (reply, hit) ↦
                  rw (decide_stream, stream_local, one, outside, pass, hit)
                    (stream_cache-Vouched lib p a srv' w query reply laws kept allow hit)
            ]
      ]
    ]

-- With an allowlist, whatever the upstream answers and whatever the cache holds: every answer record
-- of a reply to a query that the zone resolver.arpa does not answer, over TLS and QUIC and over HTTPS,
-- is a signature or is vouched for by the allowlist.
pub all_transports-Vouched :
    (lib : DnsLib) (p : Policy.Policy) (a : Allowlist) (z : Zone) (srv : Server) (w : World)
    (query : Msg)
    → EdnsLaws lib
    → srv.policy ≡ some p
    → p.allow ≡ some a
    → zone_answer lib z query ≡ none
    → All (Vouched p a) (decide_stream lib z srv w query).1.answer
      × All (Vouched p a) (decide_doh lib z srv w query).1.answer
all_transports-Vouched lib p a z srv w query laws e allow outside =
    let streamed = decide_stream-Vouched lib p a z srv w query laws e allow outside in
    (
      streamed,
      rw (decide_doh-stream lib z srv w query outside) (
          All-ensure_response_edns lib (Vouched p a) (decide_stream lib z srv w query).1 query laws
            streamed),
    )

fetch-Fails :
    (lib : DnsLib) (srv : Server) (w : World) (query : Msg)
    → Fails lib srv w query
    → ((fetch lib srv w query).1 ≡ own_reply query Rcode.server_failure)
      × ((fetch lib srv w query).0.cache ≡ srv.cache)
unfolding fetch apply_validation count
fetch-Fails lib srv w query (inl down) = ground (arith, down)
fetch-Fails lib srv w query (inr (response, validate, up, val, bad)) = ground (arith, up, val, bad)

-- A reply without an answer is neither cached, unless it is NOERROR, nor checked.
put_success_failed :
    (lib : DnsLib) (srv : Server) (w : World) (query : Msg)
    → put_success lib srv w query (own_reply query Rcode.server_failure) ≡ srv
unfolding put_success
put_success_failed lib srv w query = ground arith

check_answer_failed :
    (lib : DnsLib) (srv : Server) (query : Msg)
    → check_answer lib query (srv, own_reply query Rcode.server_failure)
      ≡ (srv, own_reply query Rcode.server_failure)
unfolding check_answer Policy.answer Policy.answer_verdict
check_answer_failed lib srv query = ground arith

-- If the upstream chain fails, or the validator finds its response bogus, the reply is SERVFAIL with
-- the query's ID and without an answer, and the cache is left as it was: no stale entry is served.
pub resolve_service-Fails :
    (lib : DnsLib) (srv : Server) (w : World) (query : Msg)
    → Fails lib srv w query
    → ((resolve_service lib srv w query).1 ≡ own_reply query Rcode.server_failure)
      × ((resolve_service lib srv w query).0.cache ≡ srv.cache)
unfolding resolve_service
resolve_service-Fails lib srv w query f =
    let (reply, kept) = fetch-Fails lib srv w query f in
    rw (resolve_service, reply, put_success_failed, check_answer_failed) (refl, kept)
