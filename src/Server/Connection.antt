-- ===== src/Server/Connection.antt =====
-- handleTCPConnection of internal/server/server.go as a whole.
use rcvd.Prelude.{ℕ, Option}
use rcvd.Text.{Text}
use rcvd.Dns.{Msg, DnsLib}
use rcvd.Framing.Loop.{Handler, serve_all}
use rcvd.Framing.Timed.{Timed, at_first, in_time}
use rcvd.Server.{Server, World}
use rcvd.Server.Handlers.{Wire, handle_tcp}

-- What stays the same for a connection: the library, msg.Unpack, and what happens outside during the
-- n-th query.
pub record Session : Type 0 where
  pub lib : DnsLib
  pub wire : Wire
  pub unpack : Text → Option Msg
  pub world : ℕ → World

abbrev pub tcp_handler : Session → Handler Server
tcp_handler ses = record {
  unpack = ses.unpack;
  turn = λ n srv query. handle_tcp ses.lib ses.wire srv (ses.world n) query;
}

-- The milliseconds of SetReadDeadline.
abbrev read_deadline : ℕ
read_deadline = 5000

-- handleTCPConnection
unfoldable pub handle_tcp_connection : Session → Server → Timed → Server × Text
handle_tcp_connection ses srv sent =
    serve_all (tcp_handler ses) srv (in_time read_deadline read_deadline at_first sent)
