-- ===== src/Server/Transports.antt =====
-- The two transports of internal/server/server.go make the same decisions.
use rcvd.Prelude.{◌≡◌, arith}
use rcvd.Dns.{Msg, DnsLib}
use rcvd.Server.{Server, World}
use rcvd.Server.Handlers.{decide_udp, decide_tcp, tcp_form_err, tcp_policy, tcp_cache, tcp_upstream}

-- For every query, state and outside world, the UDP handler and the TCP handler reach the same
-- state and the same reply before it is packed.
pub decide_tcp-udp :
    (lib : DnsLib) (srv : Server) (w : World) (query : Msg)
    → decide_tcp lib srv w query ≡ decide_udp lib srv w query
unfolding decide_tcp decide_udp tcp_form_err tcp_policy tcp_cache tcp_upstream
decide_tcp-udp lib srv w query = ground arith
