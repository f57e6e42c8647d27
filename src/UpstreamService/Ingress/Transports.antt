-- ===== src/UpstreamService/Ingress/Transports.antt =====
-- The same message over HTTPS and over QUIC.
use rcvd.Prelude.{
  ℕ, zero, suc, ◌≤◌, ◌≡◌, refl, ap, ◌∙◌, false, none, some, [], ◌∷◌, ◌++◌, arith, ltb, length,
  is_empty,
}
use rcvd.Text.{Text}
use rcvd.Dns.{Msg}
use rcvd.Framing.{frame}
use rcvd.Framing.RoundTrip.{Fits, read_frame-frame}
use rcvd.Transport.Doh.{limit}
use rcvd.Statistics.{record_response, record_mode2_latency}
use rcvd.Server.{Server, World, count, count_query, ensure_response_edns}
use rcvd.Server.Handlers.{pack_stream}
use rcvd.UpstreamService.{decide_doh, decide_stream, write_response, send_stream, zone_answer}
use rcvd.UpstreamService.Lockstep.{decide_doh-stream}
use rcvd.UpstreamService.Connection.{Served, count_served, one_doh, one_doq, handle_stream}
use rcvd.UpstreamService.Ingress.{
  post, get, Reply, dns_message, Listener, message_of, answer_request, handle_dns_query,
  handle_quic_stream,
}

limit_short : (n : ℕ) (s : Text) → length s ≤ n → limit n s ≡ s
unfolding limit
limit_short zero [] h = refl
limit_short zero (c ∷ s) h = absurd (omega arith)
limit_short (suc n) [] h = refl
limit_short (suc n) (c ∷ s) h = rw (limit, limit_short n s (omega arith)) refl

-- A query over HTTPS, with its counter.
abbrev over_https : Served → Server → Server × Reply → (Served × Server) × Reply
over_https v srv (srv', reply) = ((count_served srv one_doh v, srv'), reply)

-- A message that fits is taken from a POST as it is.
posted :
    (l : Listener) (served_us : ℕ) (v : Served) (srv : Server) (w : World) (body : Text)
    (query : Msg)
    → Fits body
    → l.unpack body ≡ some query
    → handle_dns_query l served_us (v, srv) w (post (some body))
      ≡ over_https v srv (answer_request l served_us srv w query)
unfolding handle_dns_query message_of
posted l served_us v srv w body query fits parsed =
    let whole : limit 65536 body ≡ body = limit_short 65536 body (ground (arith, fits)) in
    ground (arith, whole, fits, parsed)

-- The same message as the parameter of a GET.
got :
    (l : Listener) (served_us : ℕ) (v : Served) (srv : Server) (w : World) (body param : Text)
    (query : Msg)
    → Fits body
    → l.decode param ≡ some body
    → is_empty param ≡ false
    → l.unpack body ≡ some query
    → handle_dns_query l served_us (v, srv) w (get param)
      ≡ over_https v srv (answer_request l served_us srv w query)
unfolding handle_dns_query message_of
got l served_us v srv w body param query fits decoded given parsed =
    ground (arith, decoded, given, fits, parsed)

-- The state behind a reply.
abbrev settled : Listener → ℕ → Server → World → Msg → Server
settled l served_us srv w query =
    let r = decide_stream l.lib l.zone (count_query srv) w query in
    count
      (λ s.
        record_mode2_latency served_us
          (record_response (ensure_response_edns l.lib r.1 query).rcode s))
      r.0

written :
    (l : Listener) (served_us : ℕ) (srv : Server) (msg : Msg) (buf : Text)
    → l.wire.pack msg ≡ some buf
    → write_response l.wire served_us (srv, msg)
      ≡ (count (λ s. record_mode2_latency served_us (record_response msg.rcode s)) srv, some buf)
unfolding write_response
written l served_us srv msg buf packed = rw (write_response, packed) refl

answered :
    (l : Listener) (served_us : ℕ) (srv : Server) (w : World) (query : Msg) (buf : Text)
    → zone_answer l.lib l.zone query ≡ none
    → l.wire.pack
        (ensure_response_edns l.lib (decide_stream l.lib l.zone (count_query srv) w query).1 query)
      ≡ some buf
    → answer_request l served_us srv w query ≡ (settled l served_us srv w query, dns_message buf)
unfolding answer_request
answered l served_us srv w query buf outside packed =
    let r = decide_stream l.lib l.zone (count_query srv) w query in
    let done : write_response l.wire served_us (decide_doh l.lib l.zone (count_query srv) w query)
        ≡ (settled l served_us srv w query, some buf) =
      ap (λ (d : Server × Msg). write_response l.wire served_us d)
        (decide_doh-stream l.lib l.zone (count_query srv) w query outside)
      ∙ written l served_us r.0 (ensure_response_edns l.lib r.1 query) buf packed in
    rw (answer_request, done) refl

streamed :
    (l : Listener) (served_us : ℕ) (srv : Server) (w : World) (query : Msg) (buf : Text)
    → l.wire.pack
        (ensure_response_edns l.lib (decide_stream l.lib l.zone (count_query srv) w query).1 query)
      ≡ some buf
    → length buf ≤ 65535
    → handle_stream l.lib l.zone l.wire served_us srv w query
      ≡ (settled l served_us srv w query, some buf)
unfolding handle_stream send_stream pack_stream
streamed l served_us srv w query buf packed short =
    let fine : ltb 65535 (length buf) ≡ false = ground (arith, short) in
    rw (handle_stream, send_stream, pack_stream, packed, fine) refl

-- A message that the service takes over HTTPS, as a POST or as a GET, and over QUIC gets the same
-- reply, and the server is left in the same state; only the counters of queries by protocol differ,
-- where each counts its own. The conditions are that the message has 1 to 65535 bytes and parses,
-- that the parameter of the GET is not empty and decodes to it, that the reply is not one for the
-- zone resolver.arpa, and that it packs to no more than 65535 bytes.
pub handle_dns_query-handle_quic_stream :
    (l : Listener) (served_us : ℕ) (v : Served) (srv : Server) (w : World) (body param later : Text)
    (query : Msg) (buf : Text)
    → Fits body
    → l.decode param ≡ some body
    → is_empty param ≡ false
    → l.unpack body ≡ some query
    → zone_answer l.lib l.zone query ≡ none
    → l.wire.pack
        (ensure_response_edns l.lib (decide_stream l.lib l.zone (count_query srv) w query).1 query)
      ≡ some buf
    → length buf ≤ 65535
    → (end : Server) × (handle_dns_query l served_us (v, srv) w (post (some body))
        ≡ ((count_served srv one_doh v, end), dns_message buf))
      × (handle_dns_query l served_us (v, srv) w (get param)
          ≡ ((count_served srv one_doh v, end), dns_message buf))
      × (handle_quic_stream l served_us (v, srv) w (frame body ++ later)
          ≡ ((count_served srv one_doq v, end), frame buf))
unfolding handle_quic_stream
handle_dns_query-handle_quic_stream l served_us v srv w body param later query buf fits decoded
      given parsed outside packed short =
    let read = read_frame-frame body later fits in
    let https =
      ap (λ (r : Server × Reply). over_https v srv r)
        (answered l served_us srv w query buf outside packed) in
    (
      settled l served_us srv w query,
      posted l served_us v srv w body query fits parsed ∙ https,
      got l served_us v srv w body param query fits decoded given parsed ∙ https,
      rw (handle_quic_stream, read, parsed, streamed l served_us srv w query buf packed short) refl,
    )
