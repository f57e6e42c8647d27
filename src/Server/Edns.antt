-- ===== src/Server/Edns.antt =====
-- ensureResponseEDNS of internal/server/server.go and the DNSSEC records.
pub mod Opts
use rcvd.Prelude.{
  ℕ, ◌≡◌, All, refl, inl, inr, Bool, true, false, not, none, some, List, [], ◌∷◌, arith, any, all,
  keep_if, Bool-cases, Option-cases, length, if◌then◌else◌,
}
use rcvd.Dns.{Opt, Rr, Msg, DnsLib, EdnsLaws, is_opt}
use rcvd.Dns.RrType
use rcvd.Server.{
  client_dnssec_ok, strip_opt, query_with_do, is_dnssec_type, filter_dnssec, strip_dnssec_records,
  normalize_opt, ensure_response_edns, dns_udp_buf_size,
}

-- A section without a DNSSEC record.
abbrev pub is_plain : List Rr → Bool
is_plain rrs = all (λ rr. not (is_dnssec_type rr.rrtype)) rrs

pub strip_opt-missing : (rrs : List Rr) → any is_opt (keep_if (λ rr. not (is_opt rr)) rrs) ≡ false
strip_opt-missing [] = refl
strip_opt-missing (rr ∷ rrs) = ground (arith, strip_opt-missing rrs)

-- No section holds a record of a type that is_dnssec_type accepts.
record IsStripped (m : Msg) : Type 0 where
  pub answer_plain : is_plain m.answer ≡ true
  pub ns_plain : is_plain m.ns ≡ true
  pub extra_plain : is_plain m.extra ≡ true

-- Not an RRSIG (46), NSEC (47), NSEC3 (50), DNSKEY (48) or DS (43).
abbrev pub IsPlain : ℕ → Type 0
IsPlain t = (t ≡ 46 → ⊥) × (t ≡ 47 → ⊥) × (t ≡ 50 → ⊥) × (t ≡ 48 → ⊥) × (t ≡ 43 → ⊥)

pub record HasNoDnssec (m : Msg) : Type 0 where
  pub answer_plain : All (λ rr. IsPlain rr.rrtype) m.answer
  pub ns_plain : All (λ rr. IsPlain rr.rrtype) m.ns
  pub extra_plain : All (λ rr. IsPlain rr.rrtype) m.extra

normalize_opt-sections :
    (lib : DnsLib) (m : Msg) (client_do : Bool)
    → EdnsLaws lib
    → ((normalize_opt lib m client_do).answer ≡ m.answer)
      × ((normalize_opt lib m client_do).ns ≡ m.ns)
unfolding normalize_opt
normalize_opt-sections lib m client_do laws = elim (Option-cases (lib.is_edns0 m)) [
  | inl e ↦
      let (rr, t, made) = laws.appends m dns_udp_buf_size client_do in
      rw (e, normalize_opt, made) (refl, refl)
  | inr (o, e) ↦
      let (extra, types, written) =
        laws.in_place m (record o { dnssec_ok = client_do; udp_size = dns_udp_buf_size }) in
      rw (e, normalize_opt, written) (refl, refl)
]

-- Only the additional section is touched besides.
ensure_response_edns-sections :
    (lib : DnsLib) (response query : Msg)
    → EdnsLaws lib
    → client_dnssec_ok lib query ≡ false
    → ((ensure_response_edns lib response query).answer ≡ filter_dnssec response.answer)
      × ((ensure_response_edns lib response query).ns ≡ filter_dnssec response.ns)
unfolding ensure_response_edns strip_opt strip_dnssec_records
ensure_response_edns-sections lib response query laws plain =
    elim (Option-cases (lib.is_edns0 query)) [
      | inl e ↦ rw (ensure_response_edns, e, plain) (refl, refl)
      | inr (o, e) ↦
          rw (ensure_response_edns, e, plain)
            (normalize_opt-sections lib (strip_dnssec_records response) false laws)
    ]

-- A client that set DO gets the answer section as it is.
ensure_response_edns-answer_kept :
    (lib : DnsLib) (response query : Msg)
    → EdnsLaws lib
    → client_dnssec_ok lib query ≡ true
    → (ensure_response_edns lib response query).answer ≡ response.answer
unfolding ensure_response_edns strip_opt
ensure_response_edns-answer_kept lib response query laws asked =
    elim (Option-cases (lib.is_edns0 query)) [
      | inl e ↦ rw (ensure_response_edns, e, asked) refl
      | inr (o, e) ↦
          rw (ensure_response_edns, e, asked) (normalize_opt-sections lib response true laws).0
    ]

All-filter_dnssec : (P : Rr → Type 0) (rrs : List Rr) → All P rrs → All P (filter_dnssec rrs)
unfolding filter_dnssec
All-filter_dnssec P [] a = tt
All-filter_dnssec P (rr ∷ rrs) a = elim (Bool-cases (is_dnssec_type rr.rrtype)) [
  | inl drop ↦ rw drop (All-filter_dnssec P rrs a.1)
  | inr keep ↦ rw keep (a.0, All-filter_dnssec P rrs a.1)
]

-- What holds of all answer records of a response holds of those that are sent.
pub All-ensure_response_edns :
    (lib : DnsLib) (P : Rr → Type 0) (response query : Msg)
    → EdnsLaws lib
    → All P response.answer
    → All P (ensure_response_edns lib response query).answer
All-ensure_response_edns lib P response query laws a =
    elim (Bool-cases (client_dnssec_ok lib query)) [
      | inl asked ↦ rw (ensure_response_edns-answer_kept lib response query laws asked) a
      | inr plain ↦
          rw (ensure_response_edns-sections lib response query laws plain).0
            (All-filter_dnssec P response.answer a)
    ]
