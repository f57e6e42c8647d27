-- ===== src/Dnssec/Chain.antt =====
-- internal/dnssec/chain.go: fetching and caching the DNSKEY and DS sets, and the walk from a zone up
-- to a trust anchor. What the upstream chain returns for a zone and a type is an argument; the
-- readings of the clock at one level of the walk are one. Error texts are left out.
use rcvd.Prelude.{
  ℕ, zero, suc, ◌+◌, ◌*◌, Bool, true, false, not, ◌&&◌, ◌||◌, Option, none, some, List, [], ◌∷◌,
  ◌++◌, ltb, ◌==◌, is_empty, keep_if, if◌then◌else◌,
}
use rcvd.Prelude.Result.{Result, ok, err}
use rcvd.Text.{Text, text_eq}
use rcvd.Table.{Table, lookup, insert, delete}
use rcvd.Dns.{Dnskey, Ds, ds, Rr, Msg, empty_msg, DnsLib}
use rcvd.Dns.Rcode
use rcvd.Dns.RrType
use rcvd.Dnssec.{
  Sig, Crypto, TrustAnchor, verified, rejected, matches_anchor, equal_hex_digest,
  verify_rrset_with_key_set, unprocessable_key, sigs_for, rrset_for, dnskeys, rrset_key,
  parent_zone,
}
use rcvd.Dnssec.Denial.{proves_no_ds}

-- errInsecureDelegation, errInsecureAnswer, or any other error.
pub data Fault : Type 0 where
  insecure_delegation : Fault
  insecure_answer : Fault
  failure : Fault

-- IsInsecure
unfoldable pub is_insecure : Fault → Bool
is_insecure failure = false
is_insecure _ = true

pub record RrsetCacheEntry : Type 0 where
  pub rrs : List Rr
  pub expires_at : ℕ

abbrev pub RrsetCache : Type 0
RrsetCache = Table RrsetCacheEntry

-- rrsetCache.get
unfoldable pub cache_get : DnsLib → ℕ → Text → ℕ → RrsetCache → RrsetCache × Option (List Rr)
cache_get lib now zone t c = elim (lookup (rrset_key lib zone t) c) [
  | none ↦ (c, none)
  | some e ↦
      if ltb e.expires_at now then (delete (rrset_key lib zone t) c, none) else (c, some e.rrs)
]

-- rrsetCache.put
unfoldable pub cache_put : DnsLib → ℕ → Text → ℕ → List Rr → ℕ → RrsetCache → RrsetCache
cache_put lib now zone t rrs ttl c =
    if is_empty rrs
    then c
    else (let clamped = if ltb ttl 60 then 60 else if ltb 86400 ttl then 86400 else ttl in
        insert (rrset_key lib zone t)
          (record { rrs = rrs; expires_at = now + clamped * 1_000_000_000 }) c)

smallest_from : ℕ → List Rr → ℕ
smallest_from m [] = m
smallest_from m (rr ∷ rrs) = smallest_from (if ltb rr.ttl m then rr.ttl else m) rrs

-- minRRsetTTL
unfoldable pub min_rrset_ttl : List Rr → ℕ
unfolding smallest_from
min_rrset_ttl [] = 0
min_rrset_ttl (rr ∷ rrs) = smallest_from rr.ttl rrs

-- The wired resolver's answer, if it is wired: nothing for an error or a nil response.
pub record Validator : Type 0 where
  pub enabled : Bool
  pub validate_all : Bool
  pub trust_anchors : List TrustAnchor
  pub fetcher : Option (Text → ℕ → Option Msg)

-- The records that fetchRRset keeps.
abbrev kept : ℕ → List Rr → List Rr
kept t rrs = keep_if (λ rr. rr.rrtype == t || rr.rrtype == RrType.rrsig) rrs

-- fetchRRset
unfoldable pub fetch_rrset :
    DnsLib
    → Crypto
    → Validator
    → ℕ
    → RrsetCache
    → Text
    → ℕ
    → RrsetCache × Result Fault (List Rr × List Sig)
fetch_rrset lib cr v now c zone t = elim v.fetcher [
  | none ↦ (c, err failure)
  | some ask ↦
      let (c', cached) = cache_get lib now zone t c in
      elim cached [
        | some rrs ↦ (c', ok (rrset_for t rrs, sigs_for t rrs))
        | none ↦ elim (ask (cr.fqdn zone) t) [
          | none ↦ (c', err failure)
          | some resp ↦
              if not (resp.rcode == Rcode.success) || is_empty (rrset_for t (kept t resp.answer))
              then (c', err failure)
              else (
                cache_put lib now zone t (kept t resp.answer)
                    (min_rrset_ttl (rrset_for t (kept t resp.answer))) c',
                ok (rrset_for t (kept t resp.answer), sigs_for t (kept t resp.answer)),
              )
        ]
      ]
]

-- fetchDSResponse
unfoldable pub fetch_ds_response :
    DnsLib → Crypto → Validator → ℕ → RrsetCache → Text → RrsetCache × Result Fault Msg
fetch_ds_response lib cr v now c zone = elim v.fetcher [
  | none ↦ (c, err failure)
  | some ask ↦
      let (c', cached) = cache_get lib now zone RrType.ds c in
      elim cached [
        | some rrs ↦ (c', ok (record empty_msg { answer = rrs }))
        | none ↦ elim (ask (cr.fqdn zone) RrType.ds) [
          | none ↦ (c', err failure)
          | some resp ↦
              let found = rrset_for RrType.ds resp.answer in
              if is_empty found then (c', ok resp) else (
                cache_put lib now zone RrType.ds (kept RrType.ds resp.answer) (min_rrset_ttl found)
                    c',
                ok resp,
              )
        ]
      ]
]

-- The keys of the set whose digest is the one of this DS record.
unfoldable pub ds_matches : Crypto → List Dnskey → Ds → List Dnskey
ds_matches cr keys d =
    keep_if
      (λ k.
        cr.key_tag k == d.key_tag && k.algorithm == d.algorithm && elim (cr.to_ds k d.digest_type) [
          | none ↦ false
          | some computed ↦ equal_hex_digest computed.digest d.digest
        ])
      keys

-- The loop that collects trustedSEPs below the root.
unfoldable pub seps_from : Crypto → List Dnskey → List Rr → List Dnskey
seps_from cr keys [] = []
seps_from cr keys (rr ∷ rrs) =
    let rest = seps_from cr keys rrs in
    elim rr.body [ ds d ↦ ds_matches cr keys d ++ rest | _ ↦ rest ]

-- The end of authenticatedDNSKEYs: the set must be signed by a trusted key.
unfoldable pub self_signed : Crypto → List Rr → List Sig → List Dnskey → Result Fault (List Dnskey)
self_signed cr rrs sigs seps =
    if is_empty seps then err failure else elim (verify_rrset_with_key_set cr rrs sigs seps) [
      | verified ↦ ok (dnskeys rrs)
      | rejected e ↦ if unprocessable_key e then err insecure_delegation else err failure
    ]

-- The branch of the root zone.
unfoldable pub root_keys :
    Crypto → List TrustAnchor → List Rr → List Sig → Result Fault (List Dnskey)
root_keys cr anchors rrs sigs =
    self_signed cr rrs sigs (keep_if (λ k. matches_anchor cr k anchors) (dnskeys rrs))

-- The branch below the root, behind the authentication of the parent's keys.
unfoldable pub child_keys :
    DnsLib → Crypto → Text → Msg → List Dnskey → List Rr → List Sig → Result Fault (List Dnskey)
child_keys lib cr zone ds_resp parent_keys rrs sigs =
    let ds_rrs = rrset_for RrType.ds ds_resp.answer in
    if is_empty ds_rrs
    then (if ds_resp.rcode == Rcode.success && proves_no_ds lib cr zone ds_resp.ns parent_keys
        then err insecure_delegation
        else err failure)
    else elim (verify_rrset_with_key_set cr ds_rrs (sigs_for RrType.ds ds_resp.answer)
        parent_keys) [
          | rejected e ↦ if unprocessable_key e then err insecure_delegation else err failure
          | verified ↦ self_signed cr rrs sigs (seps_from cr (dnskeys rrs) ds_rrs)
        ]

abbrev pub root : Text
root = b'.' ∷ []

-- authenticatedDNSKEYs with `levels` levels of the walk left. The call at depth d has
-- maxChainDepth + 1 - d of them, so running out of levels is the code's own depth error.
unfoldable pub authenticated_dnskeys :
    DnsLib
    → Crypto
    → Validator
    → (ℕ → ℕ)
    → ℕ
    → RrsetCache
    → Text
    → RrsetCache × Result Fault (List Dnskey)
authenticated_dnskeys lib cr v clock zero c zone = (c, err failure)
authenticated_dnskeys lib cr v clock (suc levels) c zone =
    let name = lib.canonical_name zone in
    let (c1, fetched) = fetch_rrset lib cr v (clock levels) c name RrType.dnskey in
    elim fetched [
      | err e ↦ (c1, err e)
      | ok (rrs, sigs) ↦ elim (is_empty (dnskeys rrs)) [
        | true ↦ (c1, err failure)
        | false ↦ elim (text_eq name root) [
          | true ↦ (c1, root_keys cr v.trust_anchors rrs sigs)
          | false ↦
              let (c2, ds_fetched) = fetch_ds_response lib cr v (clock levels) c1 name in
              elim ds_fetched [
                | err e ↦ (c2, err e)
                | ok ds_resp ↦
                    let (c3, above) =
                      authenticated_dnskeys lib cr v clock levels c2 (parent_zone lib cr name) in
                    elim above [
                      | err e ↦ (c3, err e)
                      | ok parent_keys ↦ (c3, child_keys lib cr name ds_resp parent_keys rrs sigs)
                    ]
              ]
        ]
      ]
    ]

-- maxChainDepth
abbrev pub max_chain_depth : ℕ
max_chain_depth = 24
