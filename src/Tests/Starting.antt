-- ===== src/Tests/Starting.antt =====
-- What the command builds and advertises, on a concrete configuration.
use rcvd.Prelude.{refl, true, some, none, [], ◌∷◌}
use rcvd.Prelude.Int.{pos}
use rcvd.Text.{codes}
use rcvd.Startup as Startup
use rcvd.Startup.{ChainEntry, dot_entry, build_from, build_upstream_chain}
use rcvd.Startup.Chain.{Serves, wanted, build_upstream_chain-Serves}
use rcvd.UpstreamService.Ddr.{Net, Listens, new_ddr_zone}
use rcvd.UpstreamService.Ddr.Advertised.{IsHonest, new_ddr_zone-IsHonest}
use rcvd.Tests.Settings.{running}

abbrev dot_only : ChainEntry
dot_only = record {
  name = codes "q (DoT)";
  dialer =
      Startup.tls_resolver (record {
        host = codes "dns.q.net";
        dial_host = codes "9.9.9.9";
        port = pos 853;
        pin = [];
      });
}

build_upstream_chain-Serves_example : Serves (wanted running.upstreams) (dot_only ∷ [])
unfolding build_upstream_chain build_from Startup.dial_host
build_upstream_chain-Serves_example =
    build_upstream_chain-Serves (λ up. true) running.upstreams (dot_only ∷ []) refl

-- Every address is a host with port 8853; no host is an IP literal.
abbrev pub net : Net
net = record {
  split_host_port = λ a. some (codes "h.lan", codes "8853");
  parse_ip = λ a. none;
  atoi = λ p. some (pos 8853);
}

abbrev listens : Listens
listens = record { doh = codes "h.lan:8853"; dot = []; doq = codes "h.lan:8853" }

new_ddr_zone-IsHonest_example :
    IsHonest net listens (new_ddr_zone net (codes "h.lan") listens true (codes "1.2.3.4" ∷ []))
new_ddr_zone-IsHonest_example =
    new_ddr_zone-IsHonest net (codes "h.lan") listens true (codes "1.2.3.4" ∷ [])
