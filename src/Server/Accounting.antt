-- ===== src/Server/Accounting.antt =====
-- What the handlers of internal/server/server.go count: queries and responses.
use rcvd.Prelude.{
  ℕ, ◌+◌, ◌≡◌, refl, ◌∙◌, inl, inr, Bool, true, none, some, arith, Option-cases, is_some,
  if◌then◌else◌, ltb, length, ◌==◌, Bool-cases,
}
use rcvd.Text.{Text}
use rcvd.Policy as Policy
use rcvd.Dns.{Msg, DnsLib}
use rcvd.Dns.Rcode
use rcvd.Statistics.{record_response, record_latency}
use rcvd.Statistics.Buckets.{responses}
use rcvd.Server.{
  Server, World, count, count_query, own_reply, upstream_failure_response, apply_dnssec,
  put_cacheable, resolve_upstream, check_answer, cache_lookup, serve_cached, policy_response,
  query_with_do, ensure_response_edns, max_msg_size,
}
use rcvd.Server.Handlers.{
  Wire, decide_udp, decide_tcp, send_udp, handle_udp, pack_stream, send_tcp, handle_tcp,
}
use rcvd.Server.Transports.{decide_tcp-udp}

-- The two totals that accounting compares; with a nil statistics object both stay at 0.
abbrev pub queries : Server → ℕ
queries srv = elim srv.stats [ none ↦ 0 | some s ↦ s.total_queries ]

abbrev pub replies : Server → ℕ
replies srv = elim srv.stats [ none ↦ 0 | some s ↦ responses s ]

-- Both totals, and whether anything is counted at all.
abbrev pub totals : Server → ℕ × ℕ × Bool
totals srv = (queries srv, replies srv, is_some srv.stats)

totals-upstream_failure_response :
    (lib : DnsLib) (srv : Server) (w : World) (query : Msg)
    → totals (upstream_failure_response lib srv w query).0 ≡ totals srv
unfolding upstream_failure_response count
totals-upstream_failure_response lib srv w query = ground arith

totals-apply_dnssec :
    (lib : DnsLib) (srv : Server) (w : World) (response query : Msg)
    → totals (apply_dnssec lib srv w response query).0 ≡ totals srv
unfolding apply_dnssec upstream_failure_response count
totals-apply_dnssec lib srv w response query = ground arith

totals-put_cacheable :
    (lib : DnsLib) (srv : Server) (w : World) (query response : Msg)
    → totals (put_cacheable lib srv w query response) ≡ totals srv
unfolding put_cacheable
totals-put_cacheable lib srv w query response = ground arith

totals-check_answer :
    (lib : DnsLib) (query : Msg) (r : Server × Msg)
    → totals (check_answer lib query r).0 ≡ totals r.0
unfolding check_answer Policy.answer Policy.count_denied
totals-check_answer lib query (srv, response) = ground arith

totals-cache_lookup :
    (lib : DnsLib) (srv : Server) (w : World) (query : Msg)
    → totals (cache_lookup lib srv w query).0 ≡ totals srv
unfolding cache_lookup
totals-cache_lookup lib srv w query = ground arith

totals-policy_response :
    (lib : DnsLib) (srv : Server) (query : Msg)
    → totals (policy_response lib srv query).0 ≡ totals srv
unfolding policy_response Policy.response Policy.count_denied Policy.count_blocked
totals-policy_response lib srv query = ground arith

totals-count_hit :
    (srv : Server)
    → totals (count (λ s. record s { cache_hits = s.cache_hits + 1 }) srv) ≡ totals srv
unfolding count
totals-count_hit srv = ground arith

totals-resolve_upstream :
    (lib : DnsLib) (srv : Server) (w : World) (query : Msg)
    → totals (resolve_upstream lib srv w query).0 ≡ totals srv
unfolding resolve_upstream record_latency
totals-resolve_upstream lib srv w query =
    let missed =
      count
        (λ s. record s {
          cache_misses = s.cache_misses + 1;
          upstream_queries = s.upstream_queries + 1;
        })
        srv in
    let same : totals missed ≡ totals srv = unfold count in ground arith in
    elim (Option-cases (w.upstream (query_with_do lib query))) [
      | inl e ↦
          let failed : totals
                (count (λ s. record s { upstream_errors = s.upstream_errors + 1 }) missed)
              ≡ totals missed =
            unfold count in ground arith in
          rw (resolve_upstream, e) (totals-upstream_failure_response lib _ w query ∙ failed ∙ same)
      | inr (r, e) ↦
          let timed : totals (count (record_latency w.elapsed_us) missed) ≡ totals missed =
            unfold count in ground arith in
          rw (resolve_upstream, e)
            (totals-put_cacheable lib _ w query _
              ∙ totals-apply_dnssec lib _ w r query
              ∙ timed
              ∙ same)
    ]

totals-serve_cached :
    (lib : DnsLib) (srv : Server) (query cached : Msg)
    → totals (serve_cached lib srv query cached).0 ≡ totals srv
unfolding serve_cached
totals-serve_cached lib srv query cached = totals-check_answer lib query _ ∙ totals-count_hit srv

-- No path of the handler up to its reply touches the two totals.
totals-decide_udp :
    (lib : DnsLib) (srv : Server) (w : World) (query : Msg)
    → totals (decide_udp lib srv w query).0 ≡ totals srv
unfolding decide_udp
totals-decide_udp lib srv w query = elim (Bool-cases (length query.question == 1)) [
  | inl one ↦
      let local = totals-policy_response lib srv query in
      elim (Option-cases (policy_response lib srv query).1) [
        | inl pass ↦
            let looked =
              totals-cache_lookup lib (policy_response lib srv query).0 w query ∙ local in
            elim (Option-cases (cache_lookup lib (policy_response lib srv query).0 w query).1) [
              | inl miss ↦
                  rw (decide_udp, one, pass, miss)
                    (totals-check_answer lib query _
                      ∙ totals-resolve_upstream lib _ w query
                      ∙ looked)
              | inr (cached, hit) ↦
                  rw (decide_udp, one, pass, hit) (totals-serve_cached lib _ query cached ∙ looked)
            ]
        | inr (reply, h) ↦ rw (decide_udp, one, h) local
      ]
  | inr several ↦ rw (decide_udp, several) refl
]

counted_query :
    (srv : Server)
    → is_some srv.stats ≡ true
    → totals (count_query srv) ≡ (queries srv + 1, replies srv, true)
unfolding count
counted_query srv e = ground (arith, e)

totals-send_udp :
    (lib : DnsLib) (wire : Wire) (query : Msg) (d : Server × Msg)
    → is_some d.0.stats ≡ true
    → totals (send_udp lib wire query d).0
      ≡ (queries d.0, replies d.0 + (if is_some (send_udp lib wire query d).1 then 1 else 0), true)
unfolding send_udp count record_response
totals-send_udp lib wire query (srv, response) e = ground (arith, e)

totals-send_tcp :
    (lib : DnsLib) (wire : Wire) (query : Msg) (d : Server × Msg)
    → is_some d.0.stats ≡ true
    → totals (send_tcp lib wire query d).0
      ≡ (queries d.0, replies d.0 + (if is_some (send_tcp lib wire query d).1 then 1 else 0), true)
unfolding send_tcp count record_response
totals-send_tcp lib wire query (srv, response) e = ground (arith, e)

totals-decide_counted :
    (lib : DnsLib) (srv : Server) (w : World) (query : Msg)
    → is_some srv.stats ≡ true
    → totals (decide_udp lib (count_query srv) w query).0 ≡ (queries srv + 1, replies srv, true)
totals-decide_counted lib srv w query e =
    totals-decide_udp lib (count_query srv) w query ∙ counted_query srv e

-- Handling a query counts exactly one query, and exactly one response if a reply is sent and none
-- if it is dropped because it does not pack, on both transports and on every path.
pub handle-totals :
    (lib : DnsLib) (wire : Wire) (srv : Server) (w : World) (query : Msg)
    → is_some srv.stats ≡ true
    → (totals (handle_udp lib wire srv w query).0 ≡ (
      queries srv + 1,
      replies srv + (if is_some (handle_udp lib wire srv w query).1 then 1 else 0),
      true,
    ))
      × (totals (handle_tcp lib wire srv w query).0 ≡ (
        queries srv + 1,
        replies srv + (if is_some (handle_tcp lib wire srv w query).1 then 1 else 0),
        true,
      ))
unfolding handle_udp handle_tcp
handle-totals lib wire srv w query e =
    let d = totals-decide_counted lib srv w query e in
    let same = decide_tcp-udp lib (count_query srv) w query in
    let udp = totals-send_udp lib wire query (decide_udp lib (count_query srv) w query) (cc d) in
    let tcp =
      totals-send_tcp lib wire query (decide_tcp lib (count_query srv) w query) (cc (d, same)) in
    (ground (arith, d, udp), ground (arith, d, same, tcp))

-- A reply of more than 65,535 bytes goes out over TCP as SERVFAIL, and is counted under the response
-- code of the reply that was not sent.
pub oversized_counted_as_original :
    (lib : DnsLib) (wire : Wire) (query response : Msg) (srv : Server) (big buf : Text)
    → wire.pack (ensure_response_edns lib response query) ≡ some big
    → ltb max_msg_size (length big) ≡ true
    → wire.pack (ensure_response_edns lib (own_reply query Rcode.server_failure) query) ≡ some buf
    → send_tcp lib wire query (srv, response)
      ≡ (count (record_response (ensure_response_edns lib response query).rcode) srv, some buf)
unfolding send_tcp pack_stream
oversized_counted_as_original lib wire query response srv big buf packed over failed =
    ground (arith, packed, over, failed)
