-- ===== src/Tests/Chain.antt =====
-- The fallback chain on two concrete upstreams.
use rcvd.Prelude.{ℕ, ◌+◌, ◌≡◌, refl, List, [], ◌∷◌, ◌==◌, if◌then◌else◌}
use rcvd.Text.{codes}
use rcvd.Dns.{Msg, empty_msg}
use rcvd.Fallback.{
  State, up, slow, down, Attempt, answered, UpstreamState, FallbackResolver, new, resolve,
}
use rcvd.Fallback.Chain.{chosen, outcome_of, fallbacks_of, resolve-first_good}
use rcvd.Fallback.Health.{AllConsistent, here, next, query, Reach-AllConsistent}
use rcvd.Tests.Library.{lib}

abbrev asked : Msg
asked = record empty_msg { question = record { name = codes "a.com."; qtype = 1; qclass = 1 } ∷ [] }

-- The right answer, and one to another type.
abbrev right : Msg
right = record empty_msg { question = record { name = codes "A.com."; qtype = 1; qclass = 1 } ∷ [] }

abbrev wrong : Msg
wrong = record empty_msg {
  question = record { name = codes "a.com."; qtype = 28; qclass = 1 } ∷ [];
}

abbrev upstream : State → UpstreamState
upstream s = record {
  name = codes "u";
  state = s;
  last_error = [];
  consecutive_errors = elim s [ up ↦ 0 | slow ↦ 1 | down ↦ 1 ];
  last_health_check = 0;
}

abbrev fresh : List UpstreamState
fresh = upstream up ∷ upstream up ∷ []

abbrev chain : FallbackResolver
chain = record {
  upstreams = fresh;
  start_time = 0;
  phase1_duration_s = 5;
  phase2_failure_threshold = 3;
  upstream_fallbacks = 0;
}

-- The first upstream answers another question, the second one the right one.
abbrev ask : ℕ → Attempt
ask i = if i == 0 then answered wrong else answered right

resolve-first_good_example :
    ((resolve lib chain 9 ask asked).1 ≡ outcome_of (chosen lib chain 9 ask asked))
    × ((resolve lib chain 9 ask asked).0.upstream_fallbacks
        ≡ 0 + fallbacks_of (chosen lib chain 9 ask asked))
resolve-first_good_example = resolve-first_good lib chain 9 ask asked refl

abbrev later : FallbackResolver
later = (resolve lib (new fresh 0 5 3) 9 ask asked).0

Reach-AllConsistent_example : AllConsistent later.phase2_failure_threshold later.upstreams
Reach-AllConsistent_example =
    Reach-AllConsistent lib fresh 0 5 3 later ((refl, refl), ((refl, refl), tt))
      (next here (query (new fresh 0 5 3) 9 ask asked))
