-- ===== src/Tests/Requests.antt =====
-- A query over HTTPS and over QUIC.
use rcvd.Prelude.{◌≡◌, refl, some, ◌++◌, arith}
use rcvd.Text.{codes, text_eq}
use rcvd.Framing.{frame}
use rcvd.Dns.{Msg}
use rcvd.Server.{Server}
use rcvd.UpstreamService.{zone_answer}
use rcvd.UpstreamService.Connection.{Served, count_served, one_doh, one_doq}
use rcvd.UpstreamService.Ingress.{
  post, get, http_error, dns_message, Listener, handle_dns_query, handle_quic_stream,
}
use rcvd.UpstreamService.Ingress.Errors.{Asks, IsServed, handle_dns_query_total}
use rcvd.UpstreamService.Ingress.Transports.{handle_dns_query-handle_quic_stream}
use rcvd.Tests.Library.{lib}
use rcvd.Tests.Policies.{query}
use rcvd.Tests.Serving.{stale_server, world, wire}
use rcvd.Tests.Service.{zone}

abbrev listener : Listener
listener = record {
  lib = lib;
  zone = zone;
  wire = wire;
  unpack = λ s. some query;
  decode = λ s. some (codes "q1");
}

abbrev none_served : Served
none_served = record { dot = 0; doh = 0; doq = 0 }

handle_dns_query_total_example :
    ((q : Msg)
      → Asks listener (post (some (codes "q1"))) q
      → IsServed listener 5
          (none_served, stale_server)
          world
          q
          (handle_dns_query listener 5
            (none_served, stale_server)
            world
            (post (some (codes "q1")))))
    × (((q : Msg) → Asks listener (post (some (codes "q1"))) q → ⊥)
        → handle_dns_query listener 5 (none_served, stale_server) world (post (some (codes "q1")))
          ≡ ((none_served, stale_server), http_error 400))
handle_dns_query_total_example =
    handle_dns_query_total listener 5 (none_served, stale_server) world (post (some (codes "q1")))

handle_dns_query-handle_quic_stream_example :
    (end : Server) × (handle_dns_query listener 5
        (none_served, stale_server)
        world
        (post (some (codes "q1")))
      ≡ ((count_served stale_server one_doh none_served, end), dns_message (codes "x")))
    × (handle_dns_query listener 5 (none_served, stale_server) world (get (codes "cTE"))
        ≡ ((count_served stale_server one_doh none_served, end), dns_message (codes "x")))
    × (handle_quic_stream listener 5
          (none_served, stale_server)
          world
          (frame (codes "q1") ++ codes "!")
        ≡ ((count_served stale_server one_doq none_served, end), frame (codes "x")))
unfolding zone_answer text_eq
handle_dns_query-handle_quic_stream_example =
    handle_dns_query-handle_quic_stream listener 5 none_served stale_server world (codes "q1")
      (codes "cTE") (codes "!") query (codes "x") (omega arith, omega arith) refl refl refl refl
      refl (omega arith)
