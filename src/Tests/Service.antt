-- ===== src/Tests/Service.antt =====
-- The encrypted service on a concrete server.
use rcvd.Prelude.{refl, false, [], All}
use rcvd.Text.{codes, text_eq}
use rcvd.Policy.Replies.{Vouched}
use rcvd.UpstreamService.{Zone, zone_answer, decide_stream, decide_doh}
use rcvd.UpstreamService.Guarantees.{all_transports-Vouched}
use rcvd.Tests.Filters.{site}
use rcvd.Tests.Library.{lib, lib-EdnsLaws, opt_rr}
use rcvd.Tests.Policies.{query, guard}
use rcvd.Tests.Serving.{stale_server, world}

-- A zone without designations, which owns its apex alone.
abbrev pub zone : Zone
zone = record {
  owns = λ name. text_eq name (codes "resolver.arpa.");
  is_query_name = λ name. false;
  designations = [];
  soa = opt_rr 0 false;
}

all_transports-Vouched_example :
    All (Vouched guard site) (decide_stream lib zone stale_server world query).1.answer
    × All (Vouched guard site) (decide_doh lib zone stale_server world query).1.answer
unfolding zone_answer text_eq
all_transports-Vouched_example =
    all_transports-Vouched lib guard site zone stale_server world query lib-EdnsLaws refl refl refl
