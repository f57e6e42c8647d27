-- ===== src/Tests/Serving.antt =====
-- The handlers on a concrete server.
use rcvd.Prelude.{
  ℕ, zero, suc, arith, ◌+◌, ◌≡◌, refl, inr, true, none, some, [], ◌∷◌, All, is_some, length,
  if◌then◌else◌,
}
use rcvd.Prelude.Int.{pos}
use rcvd.Text.{Text, codes}
use rcvd.Dns.{Msg}
use rcvd.Dns.Rcode
use rcvd.Cache as Cache
use rcvd.Policy.Replies.{Vouched}
use rcvd.Server.{Server, World, bogus, own_reply, resolve_upstream, stale_entry}
use rcvd.Server.Handlers.{Wire, decide_udp, decide_tcp, handle_udp, handle_tcp}
use rcvd.Server.Transports.{decide_tcp-udp}
use rcvd.Server.Guarantees.{decide_udp-Vouched, resolve_upstream-Fails}
use rcvd.Server.Accounting.{totals, handle-totals}
use rcvd.Tests.Filters.{site}
use rcvd.Tests.Library.{lib, lib-EdnsLaws, no_stats}
use rcvd.Tests.Policies.{question, query, guard, leak}

-- A cache in which the answer to `query` ran out at time 5.
abbrev old_cache : Cache.Cache
old_cache = record {
  enabled = true;
  max_size = 4;
  ttl_min = 0;
  ttl_max = 3600;
  neg_ttl_max = pos 60;
  serve_stale_max_s = pos 100;
  entries = (Cache.key_of lib query question, record { response = leak; expires_at = 5 }) ∷ [];
}

abbrev pub server : Server
server = record {
  cache = none;
  policy = some guard;
  validator = some (λ m. bogus);
  stats = some no_stats;
}

abbrev pub stale_server : Server
stale_server = record server { cache = some old_cache }

abbrev pub world : World
world = record {
  at_get = 10;
  at_put = 11;
  at_stale = 12;
  upstream = λ m. some leak;
  elapsed_us = 400;
}

-- Every message packs to one byte.
abbrev pub wire : Wire
wire = record { truncate = λ m size. m; pack = λ m. some (codes "x") }

decide_udp-Vouched_example :
    All (Vouched guard site) (decide_udp lib stale_server world query).1.answer
decide_udp-Vouched_example =
    decide_udp-Vouched lib guard site stale_server world query lib-EdnsLaws refl refl

resolve_upstream-Fails_example :
    ((resolve_upstream lib server world query).1 ≡ own_reply query Rcode.server_failure)
    × ((resolve_upstream lib server world query).0.cache ≡ none)
unfolding stale_entry
resolve_upstream-Fails_example =
    resolve_upstream-Fails lib server world query (inr (leak, (λ m. bogus), refl, refl, refl)) refl

decide_tcp-udp_example : decide_tcp lib server world query ≡ decide_udp lib server world query
decide_tcp-udp_example = decide_tcp-udp lib server world query

handle-totals_example :
    (totals (handle_udp lib wire server world query).0
      ≡ (1, 0 + (if is_some (handle_udp lib wire server world query).1 then 1 else 0), true))
    × (totals (handle_tcp lib wire server world query).0
        ≡ (1, 0 + (if is_some (handle_tcp lib wire server world query).1 then 1 else 0), true))
handle-totals_example = handle-totals lib wire server world query refl

-- The client of `plain_query` sent no OPT.
abbrev plain_query : Msg
plain_query = record query { extra = [] }

-- A text of `n` bytes.
zeros : ℕ → Text
zeros zero = []
zeros (suc n) = 0 ∷ zeros n

length-zeros : (n : ℕ) → length (zeros n) ≡ n
unfolding zeros
length-zeros zero = refl
length-zeros (suc n) = omega (arith, length-zeros n)
