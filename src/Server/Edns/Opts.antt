-- ===== src/Server/Edns/Opts.antt =====
-- The OPT records that ensureResponseEDNS and queryWithDO of internal/server/server.go leave.
use rcvd.Prelude.{
  ℕ, ◌≡◌, refl, ap, ◌∙◌, inl, inr, Bool, true, false, not, none, some, List, [], ◌∷◌, ◌++◌, arith,
  any, keep_if, Bool-cases, Option-cases, length, if◌then◌else◌,
}
use rcvd.Dns.{Opt, Rr, Msg, DnsLib, EdnsLaws, is_opt}
use rcvd.Dns.RrType
use rcvd.Server.{
  client_dnssec_ok, strip_opt, query_with_do, strip_dnssec_records, normalize_opt,
  ensure_response_edns, dns_udp_buf_size,
}
use rcvd.Server.Edns.{strip_opt-missing}

strip_opt-is_edns0 : (lib : DnsLib) (m : Msg) → EdnsLaws lib → lib.is_edns0 (strip_opt m) ≡ none
unfolding strip_opt
strip_opt-is_edns0 lib m laws = laws.missing (strip_opt m) (strip_opt-missing m.extra)

absent :
    (lib : DnsLib) (m : Msg) → EdnsLaws lib → lib.is_edns0 m ≡ none → any is_opt m.extra ≡ false
absent lib m laws e = elim (Bool-cases (any is_opt m.extra)) [
  | inl y ↦ let (o, f) = laws.present m y in absurd (cc (e, f))
  | inr n ↦ n
]

normalize_opt-is_edns0 :
    (lib : DnsLib) (m : Msg) (client_do : Bool)
    → EdnsLaws lib
    → (p : Opt) × (lib.is_edns0 (normalize_opt lib m client_do) ≡ some p)
      × (p.dnssec_ok ≡ client_do)
      × (p.udp_size ≡ dns_udp_buf_size)
unfolding normalize_opt
normalize_opt-is_edns0 lib m client_do laws = elim (Option-cases (lib.is_edns0 m)) [
  | inl e ↦
      let p : Opt = record { udp_size = dns_udp_buf_size; dnssec_ok = client_do; ede = [] } in
      (
        p,
        rw (e, normalize_opt) (laws.appended m dns_udp_buf_size client_do (absent lib m laws e)),
        refl,
        refl,
      )
  | inr (o, e) ↦
      let p : Opt = record o { dnssec_ok = client_do; udp_size = dns_udp_buf_size } in
      (p, rw (e, normalize_opt) (laws.updated m o p e), refl, refl)
]

-- A client without an OPT gets a reply without an OPT. A client with one gets a reply whose OPT
-- echoes the client's DO bit and advertises 1232 bytes, whatever OPT the reply had before.
pub ensure_response_edns-opt :
    (lib : DnsLib) (response query : Msg)
    → EdnsLaws lib
    → ((lib.is_edns0 query ≡ none) → lib.is_edns0 (ensure_response_edns lib response query) ≡ none)
      × ((o : Opt)
          → lib.is_edns0 query ≡ some o
          → (p : Opt) × (lib.is_edns0 (ensure_response_edns lib response query) ≡ some p)
            × (p.dnssec_ok ≡ o.dnssec_ok)
            × (p.udp_size ≡ dns_udp_buf_size))
unfolding ensure_response_edns client_dnssec_ok
ensure_response_edns-opt lib response query laws = (
  λ e. rw (ensure_response_edns, client_dnssec_ok, e) (strip_opt-is_edns0 lib _ laws),
  λ o e.
      let asked : client_dnssec_ok lib query ≡ o.dnssec_ok = rw (client_dnssec_ok, e) refl in
      let (p, has_opt, same_do, size) =
        normalize_opt-is_edns0 lib
          (if client_dnssec_ok lib query then response else strip_dnssec_records response)
          (client_dnssec_ok lib query) laws in
      (p, rw (ensure_response_edns, e) has_opt, same_do ∙ asked, size),
)

-- The number of OPT records.
abbrev pub opts : List Rr → ℕ
opts rrs = length (keep_if is_opt rrs)

opts-strip :
    (rrs : List Rr) (rr : Rr)
    → rr.rrtype ≡ RrType.opt
    → opts (keep_if (λ r. not (is_opt r)) rrs ++ rr ∷ []) ≡ 1
opts-strip [] rr e = ground (arith, e)
opts-strip (r ∷ rrs) rr e = ground (arith, opts-strip rrs rr e)

asks_do :
    (lib : DnsLib) (m : Msg) (o : Opt)
    → lib.is_edns0 m ≡ some o
    → o.dnssec_ok ≡ true
    → client_dnssec_ok lib m ≡ true
unfolding client_dnssec_ok
asks_do lib m o e d = ground (arith, e, d)

-- The query sent upstream carries exactly one OPT, which sets DO, whatever OPTs the client's query
-- carried, and asks the client's question.
pub query_with_do-one_opt :
    (lib : DnsLib) (query : Msg)
    → EdnsLaws lib
    → (opts (query_with_do lib query).extra ≡ 1)
      × (client_dnssec_ok lib (query_with_do lib query) ≡ true)
      × ((query_with_do lib query).question ≡ query.question)
unfolding query_with_do strip_opt client_dnssec_ok
query_with_do-one_opt lib query laws =
    let (rr, t, made) = laws.appends (strip_opt query) dns_udp_buf_size true in
    let found =
      laws.appended (strip_opt query) dns_udp_buf_size true (strip_opt-missing query.extra) in
    (rw made (opts-strip query.extra rr t), asks_do lib _ _ found refl, ap (λ m. m.question) made)
