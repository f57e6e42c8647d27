-- ===== src/Tests/Policies.antt =====
-- The policy on concrete lists and messages.
use rcvd.Prelude.{◌≡◌, refl, ◌↔◌, true, none, some, [], ◌∷◌}
use rcvd.Text.{codes}
use rcvd.Dns.{Question, cname, Msg, empty_msg}
use rcvd.Policy as Policy
use rcvd.Policy.Decision.{PassesAllow, PassesBlock, response-Passes}
use rcvd.Tests.Filters.{ads, site}
use rcvd.Tests.Library.{lib, opt_rr}

abbrev pub question : Question
question = record { name = codes "www.ok.com."; qtype = 1; qclass = 1 }

abbrev pub query : Msg
query = record empty_msg { id = 7; question = question ∷ []; extra = opt_rr 4096 true ∷ [] }

abbrev pub guard : Policy.Policy
guard = record { allow = some site; block = some ads; qtypes = some (1 ∷ 28 ∷ []) }

-- www.ok.com. is an alias of a name outside the list.
abbrev pub leak : Msg
leak = record empty_msg {
  id = 9;
  question = question ∷ [];
  answer =
      record { name = codes "www.ok.com."; rrtype = 5; ttl = 60; body = cname (codes "evil.net.") }
      ∷ [];
}

response-Passes_example :
    (Policy.response lib (some guard) none query ≡ (none, none))
    ↔ (PassesAllow guard question × PassesBlock guard question)
response-Passes_example = response-Passes lib guard none query question [] refl
