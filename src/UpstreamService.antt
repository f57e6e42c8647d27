-- ===== src/UpstreamService.antt =====
-- internal/upstream, the Mode 2 service: the zone resolver.arpa of ddr.go, the validation callback of
-- upstream.go, and the handlers of DoH, DoT and DoQ for one query that parsed. upstream.go has
-- copies of the EDNS helpers and of packStream of internal/server/server.go: both are modelled by
-- those of Server. The fields of a listener are those of the record Server and a zone. TLS, the
-- sockets, the HTTP methods and the counters per protocol are left out.
pub mod Lockstep
pub mod Guarantees
pub mod Connection
pub mod Ddr
pub mod Ingress
use rcvd.Prelude.{
  ℕ, ◌+◌, Bool, true, false, not, ◌&&◌, ◌||◌, Option, none, some, List, [], ◌∷◌, length, is_empty,
  ◌==◌, if◌then◌else◌,
}
use rcvd.Text.{Text}
use rcvd.Dns.{Rr, Msg, DnsLib}
use rcvd.Dns.Rcode
use rcvd.Statistics.{record_response, record_mode2_latency}
use rcvd.Cache as Cache
use rcvd.Server.{
  Server, World, secure, insecure, bogus, count, own_reply, form_err_response, policy_response,
  check_answer, query_with_do, ensure_response_edns,
}
use rcvd.Server.Handlers.{Wire, pack_stream}

-- dns.TypeSVCB
abbrev pub type_svcb : ℕ
type_svcb = 64

-- ddrZone: the two tests on names that ddrOwnsName and answer make with the library, the records
-- that svcbResponse builds from the designations, and that of ddrSOA.
pub record Zone : Type 0 where
  pub owns : Text → Bool
  pub is_query_name : Text → Bool
  pub designations : List Rr
  pub soa : Rr

-- svcbResponse
unfoldable pub svcb_response : DnsLib → Zone → Msg → Msg
svcb_response lib z query =
    ensure_response_edns lib (record (own_reply query Rcode.success) { answer = z.designations })
      query

-- nodataResponse
unfoldable pub nodata_response : DnsLib → Zone → Msg → Msg
nodata_response lib z query =
    ensure_response_edns lib (record (own_reply query Rcode.success) { ns = z.soa ∷ [] }) query

-- ddrZone.answer
unfoldable pub zone_answer : DnsLib → Zone → Msg → Option Msg
zone_answer lib z query = elim query.question [
  | [] ↦ none
  | q ∷ qs ↦
      if not (is_empty qs) || not (z.owns q.name)
      then none
      else if q.qtype == type_svcb && z.is_query_name q.name && not (is_empty z.designations)
      then some (svcb_response lib z query)
      else some (nodata_response lib z query)
]

-- The callback that Service.Start builds, and what a listener does with its error.
unfoldable pub apply_validation : Server → Msg → Msg → Server × Msg
apply_validation srv response query = elim srv.validator [
  | none ↦ (srv, response)
  | some validate ↦ elim (validate response) [
    | secure ↦ (
      count (λ s. record s { dnssec_validated = s.dnssec_validated + 1 }) srv,
      record response { authenticated_data = true },
    )
    | insecure ↦ (
      count (λ s. record s { dnssec_unsigned = s.dnssec_unsigned + 1 }) srv,
      record response { authenticated_data = false },
    )
    | bogus ↦ (
      count (λ s. record s { dnssec_failed = s.dnssec_failed + 1 }) srv,
      own_reply query Rcode.server_failure,
    )
  ]
]

-- The write to the shared cache, under its guard.
unfoldable pub put_success : DnsLib → Server → World → Msg → Msg → Server
put_success lib srv w query response = elim srv.cache [
  | none ↦ srv
  | some c ↦
      if not (is_empty query.question) && response.rcode == Rcode.success
      then record srv { cache = some (Cache.put lib c w.at_put query response) }
      else srv
]

-- d.resolv.Resolve, and the reply without the answer check.
unfoldable pub fetch : DnsLib → Server → World → Msg → Server × Msg
fetch lib srv w query =
    let asked = count (λ s. record s { upstream_queries = s.upstream_queries + 1 }) srv in
    elim (w.upstream (query_with_do lib query)) [
      | none ↦ (
        count (λ s. record s { upstream_errors = s.upstream_errors + 1 }) asked,
        own_reply query Rcode.server_failure,
      )
      | some response ↦ apply_validation asked response query
    ]

-- The upstream block of the three handlers: the cache is written before the answer check.
unfoldable pub resolve_service : DnsLib → Server → World → Msg → Server × Msg
resolve_service lib srv w query =
    let (srv', response) = fetch lib srv w query in
    check_answer lib query (put_success lib srv' w query response, response)

abbrev pub count_hit : Server → Server
count_hit srv = count (λ s. record s { cache_hits = s.cache_hits + 1 }) srv

abbrev pub count_miss : Server → Server
count_miss srv = count (λ s. record s { cache_misses = s.cache_misses + 1 }) srv

-- The chain of DoT and DoQ before the cache: FORMERR, the zone, the policy.
unfoldable pub stream_local : DnsLib → Zone → Server → Msg → Server × Option Msg
stream_local lib z srv query =
    if not (length query.question == 1)
    then (srv, some (form_err_response query))
    else elim (zone_answer lib z query) [
      | some reply ↦ (srv, some reply)
      | none ↦ policy_response lib srv query
    ]

-- The cache block of DoT and DoQ: a hit is counted after the answer check.
unfoldable pub stream_cache : DnsLib → World → Msg → Server × Option Msg → Server × Option Msg
stream_cache lib w query (srv, some response) = (srv, some response)
stream_cache lib w query (srv, none) = elim srv.cache [
  | none ↦ (srv, none)
  | some c ↦
      let (c', found) = Cache.get lib c w.at_get query in
      let srv' : Server = record srv { cache = some c' } in
      elim found [
        | none ↦ (count_miss srv', none)
        | some cached ↦
            let (srv'', reply) = check_answer lib query (srv', record cached { id = query.id }) in
            (count_hit srv'', some reply)
      ]
]

unfoldable pub stream_upstream : DnsLib → World → Msg → Server × Option Msg → Server × Msg
stream_upstream lib w query (srv, some response) = (srv, response)
stream_upstream lib w query (srv, none) = resolve_service lib srv w query

-- DOTListener.handleConnection and DOQListener.handleStream, for one query, up to the reply before
-- its EDNS record is set.
unfoldable pub decide_stream : DnsLib → Zone → Server → World → Msg → Server × Msg
decide_stream lib z srv w query =
    stream_upstream lib w query (stream_cache lib w query (stream_local lib z srv query))

-- Their tail, where the writes succeed; `served_us` is the time since the query was parsed.
unfoldable pub send_stream : DnsLib → Wire → ℕ → Msg → Server × Msg → Server × Option Text
send_stream lib wire served_us query (srv, response) =
    let out = ensure_response_edns lib response query in
    elim (pack_stream lib wire out query) [
      | none ↦ (srv, none)
      | some (buf, replaced) ↦
          (count (λ s. record_mode2_latency served_us (record_response out.rcode s)) srv, some buf)
    ]

-- The cache block of DoH: a hit is counted before the answer check.
unfoldable pub doh_cache : DnsLib → Server → World → Msg → Server × Option Msg
doh_cache lib srv w query = elim srv.cache [
  | none ↦ (srv, none)
  | some c ↦
      if is_empty query.question
      then (srv, none)
      else (let (c', found) = Cache.get lib c w.at_get query in
          let srv' : Server = record srv { cache = some c' } in
          elim found [
            | none ↦ (count_miss srv', none)
            | some cached ↦
                let (srv'', reply) =
                  check_answer lib query (count_hit srv', record cached { id = query.id }) in
                (srv'', some reply)
          ])
]

-- DOHListener.handleDNSQuery, up to the message that it gives to writeResponse.
unfoldable pub decide_doh : DnsLib → Zone → Server → World → Msg → Server × Msg
decide_doh lib z srv w query =
    if not (length query.question == 1)
    then (srv, ensure_response_edns lib (form_err_response query) query)
    else elim (zone_answer lib z query) [
      | some reply ↦ (srv, reply)
      | none ↦
          let (srv', local) = policy_response lib srv query in
          elim local [
            | some reply ↦ (srv', ensure_response_edns lib reply query)
            | none ↦
                let (srv'', found) = doh_cache lib srv' w query in
                elim found [
                  | some reply ↦ (srv'', ensure_response_edns lib reply query)
                  | none ↦
                      let (end, reply) = resolve_service lib srv'' w query in
                      (end, ensure_response_edns lib reply query)
                ]
          ]
    ]

-- writeResponse, which counts a reply that packs whether or not the write succeeds.
unfoldable pub write_response : Wire → ℕ → Server × Msg → Server × Option Text
write_response wire served_us (srv, msg) = elim (wire.pack msg) [
  | none ↦ (srv, none)
  | some buf ↦
      (count (λ s. record_mode2_latency served_us (record_response msg.rcode s)) srv, some buf)
]
