-- ===== src/UpstreamService/Lockstep.antt =====
-- The handlers of internal/upstream make the same decisions on every transport.
use rcvd.Prelude.{
  ◌≡◌, refl, none, some, arith, Option-cases, inl, inr, Bool-cases, length, ◌==◌, is_empty, true,
  false,
}
use rcvd.Dns.{Msg, DnsLib}
use rcvd.Policy as Policy
use rcvd.Cache as Cache
use rcvd.Server.{Server, World, ensure_response_edns, count, check_answer, policy_response}
use rcvd.UpstreamService.{
  Zone, zone_answer, stream_local, stream_cache, stream_upstream, decide_stream, doh_cache,
  decide_doh, count_hit,
}

-- The answer check and the count of a hit commute.
check_answer-count_hit :
    (lib : DnsLib) (query : Msg) (srv : Server) (m : Msg)
    → check_answer lib query (count_hit srv, m)
      ≡ (count_hit (check_answer lib query (srv, m)).0, (check_answer lib query (srv, m)).1)
unfolding check_answer count Policy.answer Policy.count_denied
check_answer-count_hit lib query srv m = ground arith

doh_cache-stream_cache :
    (lib : DnsLib) (srv : Server) (w : World) (query : Msg)
    → is_empty query.question ≡ false
    → doh_cache lib srv w query ≡ stream_cache lib w query (srv, none)
unfolding doh_cache stream_cache
doh_cache-stream_cache lib srv w query asked = elim (Option-cases srv.cache) [
  | inl e ↦ rw (doh_cache, stream_cache, e) refl
  | inr (c, e) ↦ elim (Option-cases (Cache.get lib c w.at_get query).1) [
    | inl miss ↦ rw (doh_cache, stream_cache, e, asked, miss) refl
    | inr (cached, hit) ↦ rw (doh_cache, stream_cache, e, asked, hit, check_answer-count_hit) refl
  ]
]

-- A reply made before the cache skips the cache block.
pub stream_cache_replied :
    (lib : DnsLib) (w : World) (query reply : Msg) (srv : Server)
    → stream_cache lib w query (srv, some reply) ≡ (srv, some reply)
unfolding stream_cache
stream_cache_replied lib w query reply srv = refl

one_asked : (query : Msg) → (length query.question == 1) ≡ true → is_empty query.question ≡ false
one_asked query one = ground (arith, one)

-- For every query that the zone resolver.arpa does not answer, and every state and outside world,
-- DoH reaches the state that DoT and DoQ reach, and gives the writer their reply with its EDNS
-- record set.
pub decide_doh-stream :
    (lib : DnsLib) (z : Zone) (srv : Server) (w : World) (query : Msg)
    → zone_answer lib z query ≡ none
    → decide_doh lib z srv w query ≡ (
      (decide_stream lib z srv w query).0,
      ensure_response_edns lib (decide_stream lib z srv w query).1 query,
    )
unfolding decide_doh decide_stream stream_local stream_upstream
decide_doh-stream lib z srv w query outside = elim (Bool-cases (length query.question == 1)) [
  | inr several ↦ rw (decide_doh, decide_stream, stream_local, several, stream_cache_replied) refl
  | inl one ↦
      let local = policy_response lib srv query in
      elim (Option-cases local.1) [
        | inr (reply, h) ↦
            rw (decide_doh, decide_stream, stream_local, one, outside, h, stream_cache_replied) refl
        | inl pass ↦
            let same = doh_cache-stream_cache lib local.0 w query (one_asked query one) in
            elim (Option-cases (stream_cache lib w query (local.0, none)).1) [
              | inl miss ↦
                  rw (decide_doh, decide_stream, stream_local, one, outside, pass, same, miss, same)
                    refl
              | inr (reply, hit) ↦
                  rw (decide_doh, decide_stream, stream_local, one, outside, pass, same, hit, same)
                    refl
            ]
      ]
]
