-- ===== src/Server/Validation.antt =====
-- applyDNSSEC of internal/server/server.go with the validator of internal/dnssec.
use rcvd.Prelude.{
  ℕ, ◌≡◌, inl, inr, true, Option, none, some, arith, Option-cases, Bool-cases, All, if◌then◌else◌,
}
use rcvd.Dns.{Msg, DnsLib}
use rcvd.Dnssec.{Crypto}
use rcvd.Dnssec.Chain.{Fault, is_insecure, Validator, RrsetCache}
use rcvd.Dnssec.Secure.{Secured, validate_response-Secured}
use rcvd.Dnssec.Validator.{validate_response}
use rcvd.Server.{
  Server, World, Verdict, secure, insecure, bogus, count, stale_entry, upstream_failure_response,
  apply_dnssec,
}

-- The switch of applyDNSSEC on the error.
unfoldable pub verdict_of : Option Fault → Verdict
verdict_of none = secure
verdict_of (some e) = if is_insecure e then insecure else bogus

-- The validator as the handler sees it, at the times of `clock` and with this key cache.
abbrev pub validate_with : DnsLib → Crypto → Validator → (ℕ → ℕ → ℕ) → RrsetCache → Msg → Verdict
validate_with lib cr v clock c msg = verdict_of (validate_response lib cr v clock c msg).1

-- If the server validates with an enabled validator, no stale entry is at hand, and the response to
-- serve has the AD bit, then it has the upstream's answer, and every record of that answer that is
-- neither a signature nor a DNSKEY or DS stands in a set with a verified signature. An upstream
-- cannot set the bit itself.
pub apply_dnssec-Secured :
    (lib : DnsLib) (cr : Crypto) (v : Validator) (clock : ℕ → ℕ → ℕ) (c : RrsetCache) (srv : Server)
    (w : World) (response query : Msg)
    → v.enabled ≡ true
    → srv.validator ≡ some (validate_with lib cr v clock c)
    → stale_entry lib srv w query ≡ none
    → (apply_dnssec lib srv w response query).1.authenticated_data ≡ true
    → ((apply_dnssec lib srv w response query).1.answer ≡ response.answer)
      × All (Secured lib cr v response) response.answer
unfolding apply_dnssec upstream_failure_response stale_entry count verdict_of
apply_dnssec-Secured lib cr v clock c srv w response query on val stale ad =
    elim (Option-cases (validate_response lib cr v clock c response).1) [
      | inl e ↦ (ground (arith, val, e), validate_response-Secured lib cr v clock c response on e)
      | inr (fault, e) ↦ elim (Bool-cases (is_insecure fault)) [
        | inl y ↦ absurd (ground (arith, val, e, y, ad))
        | inr n ↦ absurd (ground (arith, val, e, n, stale, ad))
      ]
    ]
