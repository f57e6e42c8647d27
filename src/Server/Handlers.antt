-- ===== src/Server/Handlers.antt =====
-- handleDNSQuery and handleTCPConnection of internal/server/server.go, for one query that parsed:
-- the state changes and the reply before it is sent, then the sending.
use rcvd.Prelude.{ℕ, Bool, true, false, not, Option, none, some, ltb, length, ◌==◌, if◌then◌else◌}
use rcvd.Text.{Text}
use rcvd.Dns.{Msg, DnsLib}
use rcvd.Dns.Rcode
use rcvd.Statistics.{record_response}
use rcvd.Server.{
  Server, World, count, count_query, own_reply, form_err_response, policy_response, cache_lookup,
  serve_cached, resolve_upstream, check_answer, ensure_response_edns, udp_response_limit,
  max_msg_size,
}

-- msg.Truncate and msg.Pack of package dns.
pub record Wire : Type 0 where
  pub truncate : Msg → ℕ → Msg
  pub pack : Msg → Option Text

-- handleDNSQuery up to the reply that it sends: the early returns of its branches share the tail.
unfoldable pub decide_udp : DnsLib → Server → World → Msg → Server × Msg
decide_udp lib srv w query =
    if not (length query.question == 1)
    then (srv, form_err_response query)
    else (let (srv', local) = policy_response lib srv query in
        elim local [
          | some reply ↦ (srv', reply)
          | none ↦
              let (srv'', found) = cache_lookup lib srv' w query in
              elim found [
                | some cached ↦ serve_cached lib srv'' query cached
                | none ↦ check_answer lib query (resolve_upstream lib srv'' w query)
              ]
        ])

-- packUDP, the write and RecordResponse; a reply that does not pack is dropped uncounted.
unfoldable pub send_udp : DnsLib → Wire → Msg → Server × Msg → Server × Option Text
send_udp lib wire query (srv, response) =
    let out =
      wire.truncate (ensure_response_edns lib response query) (udp_response_limit lib query) in
    elim (wire.pack out) [
      | none ↦ (srv, none)
      | some buf ↦ (count (record_response out.rcode) srv, some buf)
    ]

-- handleDNSQuery
unfoldable pub handle_udp : DnsLib → Wire → Server → World → Msg → Server × Option Text
handle_udp lib wire srv w query = send_udp lib wire query (decide_udp lib (count_query srv) w query)

-- `if len(query.Question) != 1 { response = formErrResponse(query) }`
unfoldable pub tcp_form_err : Server → Msg → Server × Option Msg
tcp_form_err srv query =
    (srv, if not (length query.question == 1) then some (form_err_response query) else none)

-- `if response == nil { response = s.policyResponse(query) }`
unfoldable pub tcp_policy : DnsLib → Msg → Server × Option Msg → Server × Option Msg
tcp_policy lib query (srv, some response) = (srv, some response)
tcp_policy lib query (srv, none) = policy_response lib srv query

-- The cache block, whose condition repeats `response == nil`.
unfoldable pub tcp_cache : DnsLib → World → Msg → Server × Option Msg → Server × Option Msg
tcp_cache lib w query (srv, some response) = (srv, some response)
tcp_cache lib w query (srv, none) =
    let (srv', found) = cache_lookup lib srv w query in
    elim found [
      | none ↦ (srv', none)
      | some cached ↦
          let (srv'', response) = serve_cached lib srv' query cached in (srv'', some response)
    ]

-- The upstream block.
unfoldable pub tcp_upstream : DnsLib → World → Msg → Server × Option Msg → Server × Msg
tcp_upstream lib w query (srv, some response) = (srv, response)
tcp_upstream lib w query (srv, none) = check_answer lib query (resolve_upstream lib srv w query)

-- One turn of the loop of handleTCPConnection up to the reply that it sends.
unfoldable pub decide_tcp : DnsLib → Server → World → Msg → Server × Msg
decide_tcp lib srv w query =
    tcp_upstream lib w query (tcp_cache lib w query (tcp_policy lib query (tcp_form_err srv query)))

-- packStream: the bytes, and whether SERVFAIL replaced the reply.
unfoldable pub pack_stream : DnsLib → Wire → Msg → Msg → Option (Text × Bool)
pack_stream lib wire response query = elim (wire.pack response) [
  | none ↦ none
  | some buf ↦
      if not (ltb max_msg_size (length buf))
      then some (buf, false)
      else elim (wire.pack
          (ensure_response_edns lib (own_reply query Rcode.server_failure) query)) [
            | none ↦ none
            | some buf' ↦ some (buf', true)
          ]
]

-- The tail of the TCP loop, where both writes succeed: the prefix of two bytes and the message.
unfoldable pub send_tcp : DnsLib → Wire → Msg → Server × Msg → Server × Option Text
send_tcp lib wire query (srv, response) =
    let out = ensure_response_edns lib response query in
    elim (pack_stream lib wire out query) [
      | none ↦ (srv, none)
      | some (buf, replaced) ↦ (count (record_response out.rcode) srv, some buf)
    ]

-- One turn of the loop of handleTCPConnection.
unfoldable pub handle_tcp : DnsLib → Wire → Server → World → Msg → Server × Option Text
handle_tcp lib wire srv w query = send_tcp lib wire query (decide_tcp lib (count_query srv) w query)
