-- ===== src/Server.antt =====
-- internal/server/server.go, the Mode 1 forwarder: the edits of a message before it is sent, and
-- the two handlers. Parsing, packing, truncation, the upstream chain and the DNSSEC validator are
-- arguments; the sockets, the goroutines and the log are left out. A handler runs as one step.
pub mod Handlers
pub mod Transports
pub mod Edns
pub mod Validation
pub mod Accounting
pub mod Guarantees
pub mod Connection
pub mod Pipelining
use rcvd.Prelude.{
  ℕ, ◌+◌, Bool, true, false, not, ◌&&◌, ◌||◌, Option, none, some, List, [], ◌∷◌, length, is_empty,
  keep_if, ltb, leb, ◌==◌, if◌then◌else◌,
}
use rcvd.Text.{Text}
use rcvd.Dns.{Question, Opt, Rr, Msg, empty_msg, DnsLib, is_opt}
use rcvd.Dns.Rcode
use rcvd.Dns.RrType
use rcvd.Statistics.{Stats, on_stats, record_response, record_latency}
use rcvd.Cache as Cache
use rcvd.Policy as Policy

abbrev pub dns_udp_buf_size : ℕ
dns_udp_buf_size = 1232

-- dns.MinMsgSize and dns.MaxMsgSize
abbrev pub min_msg_size : ℕ
min_msg_size = 512

abbrev pub max_msg_size : ℕ
max_msg_size = 65535

-- udpResponseLimit
unfoldable pub udp_response_limit : DnsLib → Msg → ℕ
udp_response_limit lib query = elim (lib.is_edns0 query) [
  | none ↦ min_msg_size
  | some o ↦
      let size = if ltb o.udp_size min_msg_size then min_msg_size else o.udp_size in
      if ltb dns_udp_buf_size size then dns_udp_buf_size else size
]

-- clientDNSSECOK
unfoldable pub client_dnssec_ok : DnsLib → Msg → Bool
client_dnssec_ok lib query = elim (lib.is_edns0 query) [ none ↦ false | some o ↦ o.dnssec_ok ]

-- stripOPT
unfoldable pub strip_opt : Msg → Msg
strip_opt msg = record msg { extra = keep_if (λ rr. not (is_opt rr)) msg.extra }

-- queryWithDO
unfoldable pub query_with_do : DnsLib → Msg → Msg
query_with_do lib query = lib.set_edns0 (strip_opt query) dns_udp_buf_size true

-- The types that filterDNSSEC drops.
unfoldable pub is_dnssec_type : ℕ → Bool
is_dnssec_type t =
    t == RrType.rrsig
    || t == RrType.nsec
    || t == RrType.nsec3
    || t == RrType.dnskey
    || t == RrType.ds

-- filterDNSSEC
unfoldable pub filter_dnssec : List Rr → List Rr
filter_dnssec rrs = keep_if (λ rr. not (is_dnssec_type rr.rrtype)) rrs

-- stripDNSSECRecords
unfoldable pub strip_dnssec_records : Msg → Msg
strip_dnssec_records msg = record msg {
  answer = filter_dnssec msg.answer;
  ns = filter_dnssec msg.ns;
  extra = filter_dnssec msg.extra;
}

-- The tail of ensureResponseEDNS for a client with an OPT.
unfoldable pub normalize_opt : DnsLib → Msg → Bool → Msg
normalize_opt lib response client_do = elim (lib.is_edns0 response) [
  | none ↦ lib.set_edns0 response dns_udp_buf_size client_do
  | some o ↦
      lib.update_edns0 response (record o { dnssec_ok = client_do; udp_size = dns_udp_buf_size })
]

-- ensureResponseEDNS
unfoldable pub ensure_response_edns : DnsLib → Msg → Msg → Msg
ensure_response_edns lib response query =
    let client_do = client_dnssec_ok lib query in
    let stripped = if client_do then response else strip_dnssec_records response in
    elim (lib.is_edns0 query) [
      | none ↦ strip_opt stripped
      | some _ ↦ normalize_opt lib stripped client_do
    ]

-- What the validator says of a response: nil, an insecure signal, or another error.
pub data Verdict : Type 0 where
  secure : Verdict
  insecure : Verdict
  bogus : Verdict

-- What happens outside the handler during one query: the times at which the cache reads the clock,
-- the upstream chain's result, and the time it took in microseconds.
pub record World : Type 0 where
  pub at_get : ℕ
  pub at_put : ℕ
  pub at_stale : ℕ
  pub upstream : Msg → Option Msg
  pub elapsed_us : ℕ

pub record Server : Type 0 where
  pub cache : Option Cache.Cache
  pub policy : Option Policy.Policy
  pub validator : Option (Msg → Verdict)
  pub stats : Option Stats

unfoldable pub count : (Stats → Stats) → Server → Server
count f srv = record srv { stats = on_stats f srv.stats }

-- A reply of the server's own: header, ID and question.
abbrev pub own_reply : Msg → ℕ → Msg
own_reply query rcode = record empty_msg {
  id = query.id;
  response = true;
  rcode = rcode;
  question = query.question;
}

-- formErrResponse
unfoldable pub form_err_response : Msg → Msg
form_err_response query = own_reply query Rcode.format_error

-- The stale entry that upstreamFailureResponse finds.
unfoldable pub stale_entry : DnsLib → Server → World → Msg → Option Msg
stale_entry lib srv w query = elim srv.cache [
  | none ↦ none
  | some c ↦ Cache.get_stale lib c w.at_stale query
]

-- upstreamFailureResponse
unfoldable pub upstream_failure_response : DnsLib → Server → World → Msg → Server × Msg
upstream_failure_response lib srv w query = elim (stale_entry lib srv w query) [
  | none ↦ (srv, own_reply query Rcode.server_failure)
  | some stale ↦ (
    count (λ s. record s { stale_served = s.stale_served + 1 }) srv,
    record stale { id = query.id },
  )
]

-- applyDNSSEC, under the caller's `s.validator != nil`.
unfoldable pub apply_dnssec : DnsLib → Server → World → Msg → Msg → Server × Msg
apply_dnssec lib srv w response query = elim srv.validator [
  | none ↦ (srv, response)
  | some validate ↦ elim (validate response) [
    | secure ↦ (
      count (λ s. record s { dnssec_validated = s.dnssec_validated + 1 }) srv,
      record response { authenticated_data = true },
    )
    | insecure ↦ (
      count (λ s. record s { dnssec_unsigned = s.dnssec_unsigned + 1 }) srv,
      record response { authenticated_data = false },
    )
    | bogus ↦
        upstream_failure_response lib
          (count (λ s. record s { dnssec_failed = s.dnssec_failed + 1 }) srv) w query
  ]
]

-- cacheableResponse, for a response that is there.
unfoldable pub cacheable_response : Server → Msg → Bool
cacheable_response srv resp =
    if resp.rcode == Rcode.success && not (is_empty resp.answer) then true else elim srv.cache [
      | none ↦ false
      | some c ↦
          Cache.negative_caching_enabled c
          && (resp.rcode == Rcode.name_error || resp.rcode == Rcode.success && is_empty resp.answer)
    ]

-- s.cache.Put(query, response), under its guard.
unfoldable pub put_cacheable : DnsLib → Server → World → Msg → Msg → Server
put_cacheable lib srv w query response = elim srv.cache [
  | none ↦ srv
  | some c ↦
      if not (is_empty query.question) && cacheable_response srv response
      then record srv { cache = some (Cache.put lib c w.at_put query response) }
      else srv
]

-- The block under a cache miss, up to the answer check.
unfoldable pub resolve_upstream : DnsLib → Server → World → Msg → Server × Msg
resolve_upstream lib srv w query =
    let missed =
      count
        (λ s. record s {
          cache_misses = s.cache_misses + 1;
          upstream_queries = s.upstream_queries + 1;
        })
        srv in
    elim (w.upstream (query_with_do lib query)) [
      | none ↦
          upstream_failure_response lib
            (count (λ s. record s { upstream_errors = s.upstream_errors + 1 }) missed) w query
      | some response ↦
          let (srv', response') =
            apply_dnssec lib (count (record_latency w.elapsed_us) missed) w response query in
          (put_cacheable lib srv' w query response', response')
    ]

-- s.policy.Answer(query, response)
unfoldable pub check_answer : DnsLib → Msg → Server × Msg → Server × Msg
check_answer lib query (srv, response) =
    let (stats, response') = Policy.answer lib srv.policy srv.stats query response in
    (record srv { stats = stats }, response')

-- s.cache.Get(query), under its guards.
unfoldable pub cache_lookup : DnsLib → Server → World → Msg → Server × Option Msg
cache_lookup lib srv w query = elim srv.cache [
  | none ↦ (srv, none)
  | some c ↦
      if is_empty query.question
      then (srv, none)
      else (let (c', found) = Cache.get lib c w.at_get query in
          (record srv { cache = some c' }, found))
]

-- The cached reply with the query's ID, and the hit counted.
unfoldable pub serve_cached : DnsLib → Server → Msg → Msg → Server × Msg
serve_cached lib srv query cached =
    check_answer lib query
      (count (λ s. record s { cache_hits = s.cache_hits + 1 }) srv, record cached { id = query.id })

-- s.policyResponse(query)
unfoldable pub policy_response : DnsLib → Server → Msg → Server × Option Msg
policy_response lib srv query =
    let (stats, reply) = Policy.response lib srv.policy srv.stats query in
    (record srv { stats = stats }, reply)

abbrev pub count_query : Server → Server
count_query srv = count (λ s. record s { total_queries = s.total_queries + 1 }) srv
