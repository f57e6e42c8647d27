-- ===== src/UpstreamService/Ingress.antt =====
-- Where a query enters the encrypted service: handleDNSQuery of internal/upstream/doh.go from the
-- request on, and handleStream of doq.go from the bytes of the stream on. net/http is an argument:
-- a request is its method and what reading it gives. The counters of queries by protocol stand
-- beside the server.
pub mod Errors
pub mod Transports
use rcvd.Prelude.{
  ℕ, Bool, ◌||◌, Option, none, some, List, [], ltb, ◌==◌, length, is_empty, if◌then◌else◌,
}
use rcvd.Prelude.Result.{Result, ok, err}
use rcvd.Text.{Text}
use rcvd.Dns.{Msg, DnsLib}
use rcvd.Framing.{frame, read_frame}
use rcvd.Transport.Doh.{limit}
use rcvd.Server.{Server, World, count_query, max_msg_size}
use rcvd.Server.Handlers.{Wire}
use rcvd.UpstreamService.{Zone, decide_doh, write_response}
use rcvd.UpstreamService.Connection.{Served, count_served, one_doh, one_doq, handle_stream}

pub data Request : Type 0 where
  -- the body, or nothing where reading it fails
  post : Option Text → Request
  -- the parameter ?dns=, empty where it is missing
  get : Text → Request
  other_method : Request

pub data Reply : Type 0 where
  http_error : ℕ → Reply
  dns_message : Text → Reply

-- What a listener works with: the library, the packer, msg.Unpack, and RawURLEncoding.DecodeString.
pub record Listener : Type 0 where
  pub lib : DnsLib
  pub zone : Zone
  pub wire : Wire
  pub unpack : Text → Option Msg
  pub decode : Text → Option Text

-- The switch on the method: the message, or a status.
unfoldable pub message_of : Listener → Request → Result ℕ Text
message_of l (post none) = err 400
message_of l (post (some body)) = ok (limit 65536 body)
message_of l (get param) =
    if is_empty param
    then err 400
    else elim (l.decode param) [ none ↦ err 400 | some body ↦ ok body ]
message_of l other_method = err 405

-- The part of handleDNSQuery behind the parser and the counter of the protocol.
unfoldable pub answer_request : Listener → ℕ → Server → World → Msg → Server × Reply
answer_request l served_us srv w query =
    let (srv', out) =
      write_response l.wire served_us (decide_doh l.lib l.zone (count_query srv) w query) in
    (srv', elim out [ none ↦ http_error 500 | some buf ↦ dns_message buf ])

-- handleDNSQuery
unfoldable pub handle_dns_query :
    Listener → ℕ → Served × Server → World → Request → (Served × Server) × Reply
handle_dns_query l served_us (v, srv) w req = elim (message_of l req) [
  | err status ↦ ((v, srv), http_error status)
  | ok body ↦
      if length body == 0 || ltb max_msg_size (length body)
      then ((v, srv), http_error 400)
      else elim (l.unpack body) [
        | none ↦ ((v, srv), http_error 400)
        | some query ↦
            let (srv', reply) = answer_request l served_us srv w query in
            ((count_served srv one_doh v, srv'), reply)
      ]
]

-- handleStream: what is written to the stream, where the writes succeed.
unfoldable pub handle_quic_stream :
    Listener → ℕ → Served × Server → World → Text → (Served × Server) × Text
handle_quic_stream l served_us (v, srv) w sent = elim (read_frame sent) [
  | none ↦ ((v, srv), [])
  | some (msg, rest) ↦ elim (l.unpack msg) [
    | none ↦ ((v, srv), [])
    | some query ↦
        let (srv', out) = handle_stream l.lib l.zone l.wire served_us srv w query in
        ((count_served srv one_doq v, srv'), elim out [ none ↦ [] | some buf ↦ frame buf ])
  ]
]
