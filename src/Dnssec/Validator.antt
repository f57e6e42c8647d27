-- ===== src/Dnssec/Validator.antt =====
-- internal/dnssec/validator.go: ValidateResponse and its helpers. The result is the error, nothing
-- for nil, beside the key cache.
use rcvd.Prelude.{
  ℕ, ◌+◌, ◌/◌, ◌%◌, Bool, true, false, not, ◌&&◌, ◌||◌, Option, none, some, List, [], ◌∷◌, ◌++◌,
  ◌==◌, is_empty, keep_if, length, if◌then◌else◌,
}
use rcvd.Prelude.Result.{Result, ok, err}
use rcvd.Text.{Text, TextSet, text_eq, has, add}
use rcvd.Dns.{Dnskey, dnskey, rrsig, Rr, Msg, DnsLib}
use rcvd.Dns.RrType
use rcvd.Dnssec.{Sig, Crypto, matches_anchor, unprocessable_key, rrset_key}
use rcvd.Dnssec.Chain.{
  Fault, insecure_delegation, insecure_answer, failure, Validator, RrsetCache, root,
  authenticated_dnskeys, max_chain_depth,
}

-- The *dns.RRSIG records.
unfoldable pub rrsigs : List Rr → List Sig
rrsigs [] = []
rrsigs (rr ∷ rrs) =
    let rest = rrsigs rrs in
    elim rr.body [ rrsig s ↦ record { owner = rr.name; sig = s } ∷ rest | _ ↦ rest ]

-- rrsets[key] of buildRRsets; the empty list for a missing key.
unfoldable pub rrset_at : DnsLib → Text → List Rr → List Rr
rrset_at lib key rrs =
    keep_if (λ rr. not (rr.rrtype == RrType.rrsig) && text_eq (rrset_key lib rr.name rr.rrtype) key)
      rrs

-- The test of findDNSKEY.
unfoldable pub is_signer : DnsLib → Crypto → Sig → Dnskey → Bool
is_signer lib cr s k =
    cr.key_tag k == s.sig.key_tag
    && k.algorithm == s.sig.algorithm
    && text_eq (cr.fqdn (lib.canonical_name k.owner))
        (cr.fqdn (lib.canonical_name s.sig.signer_name))

-- findDNSKEY
unfoldable pub find_dnskey : DnsLib → Crypto → Sig → List Rr → Option Dnskey
find_dnskey lib cr s [] = none
find_dnskey lib cr s (rr ∷ rrs) =
    let rest = find_dnskey lib cr s rrs in
    elim rr.body [ dnskey k ↦ if is_signer lib cr s k then some k else rest | _ ↦ rest ]

-- The loop that picks the signing key of an authenticated set.
unfoldable pub pick : Crypto → Sig → List Dnskey → Option Dnskey
pick cr s [] = none
pick cr s (k ∷ keys) =
    let rest = pick cr s keys in
    if cr.key_tag k == s.sig.key_tag && k.algorithm == s.sig.algorithm then some k else rest

-- isRootKSK: the flags SEP (bit 0) and ZONE (bit 8).
unfoldable pub is_root_ksk : Dnskey → Bool
is_root_ksk k = text_eq k.owner root && k.flags % 2 == 1 && (k.flags / 256) % 2 == 1

-- errors.Is(err, errInsecureDelegation) turned into errInsecureAnswer.
unfoldable pub as_answer_fault : Fault → Fault
as_answer_fault insecure_delegation = insecure_answer
as_answer_fault e = e

-- The fast path and the chain path to the signing key.
unfoldable pub signing_key :
    DnsLib
    → Crypto
    → Validator
    → (ℕ → ℕ)
    → List Rr
    → RrsetCache
    → Sig
    → RrsetCache × Result Fault Dnskey
signing_key lib cr v clock all_rrs c s = elim (find_dnskey lib cr s all_rrs) [
  | some k ↦ (c, ok k)
  | none ↦ elim v.fetcher [
    | none ↦ (c, err failure)
    | some ask ↦
        let (c', fetched) =
          authenticated_dnskeys lib cr v clock (max_chain_depth + 1) c s.sig.signer_name in
        elim fetched [
          | err e ↦ (c', err (as_answer_fault e))
          | ok keys ↦ elim (pick cr s keys) [ none ↦ (c', err failure) | some k ↦ (c', ok k) ]
        ]
  ]
]

-- len(v.trustAnchors) > 0 && isRootKSK(signingKey) && VerifyKeyAgainstAnchors(...) != nil
unfoldable pub contradicts_anchor : Crypto → Validator → Dnskey → Bool
contradicts_anchor cr v k =
    not (is_empty v.trust_anchors) && is_root_ksk k && not (matches_anchor cr k v.trust_anchors)

-- One signature over its set with its key: the error, if there is one.
unfoldable pub check_signature : Crypto → Validator → Sig → Dnskey → List Rr → Option Fault
check_signature cr v s k rrset = elim (cr.verify s k rrset) [
  | some e ↦ some (if unprocessable_key (some e) then insecure_answer else failure)
  | none ↦ if contradicts_anchor cr v k then some failure else none
]

-- The loop over the signatures; `validated` are the keys of the sets that passed. The walks of
-- different turns read the clock at different times.
unfoldable pub validate_sigs :
    DnsLib
    → Crypto
    → Validator
    → (ℕ → ℕ → ℕ)
    → List Rr
    → List Rr
    → RrsetCache
    → TextSet
    → List Sig
    → RrsetCache × Result Fault TextSet
validate_sigs lib cr v clock answer all_rrs c validated [] = (c, ok validated)
validate_sigs lib cr v clock answer all_rrs c validated (s ∷ sigs) = elim (cr.in_period s) [
  | false ↦ (c, err failure)
  | true ↦
      let key = rrset_key lib s.owner s.sig.type_covered in
      elim (is_empty (rrset_at lib key answer)) [
        | true ↦ validate_sigs lib cr v clock answer all_rrs c validated sigs
        | false ↦
            let (c', signer) = signing_key lib cr v (clock (length sigs)) all_rrs c s in
            elim signer [
              | err e ↦ (c', err e)
              | ok k ↦ elim (check_signature cr v s k (rrset_at lib key answer)) [
                | some e ↦ (c', err e)
                | none ↦ validate_sigs lib cr v clock answer all_rrs c' (add validated key) sigs
              ]
            ]
      ]
]

-- The types that the coverage check leaves out, and the signatures, which are in no set.
unfoldable pub is_exempt : ℕ → Bool
is_exempt t = t == RrType.rrsig || t == RrType.dnskey || t == RrType.ds

-- The coverage loop. All records of a set have its type, so the first one's type is each one's.
unfoldable pub is_covered : DnsLib → TextSet → List Rr → Bool
is_covered lib validated [] = true
is_covered lib validated (rr ∷ rrs) =
    (is_exempt rr.rrtype || has validated (rrset_key lib rr.name rr.rrtype))
    && is_covered lib validated rrs

-- ValidateResponse
unfoldable pub validate_response :
    DnsLib → Crypto → Validator → (ℕ → ℕ → ℕ) → RrsetCache → Msg → RrsetCache × Option Fault
validate_response lib cr v clock c msg =
    if not v.enabled || is_empty msg.answer
    then (c, none)
    else if is_empty (rrsigs msg.answer)
    then (c, some (if v.validate_all then failure else insecure_answer))
    else (let (c', result) =
          validate_sigs lib cr v clock msg.answer (msg.answer ++ msg.ns) c [] (rrsigs msg.answer) in
        elim result [
          | err e ↦ (c', some e)
          | ok validated ↦
              (c', if is_covered lib validated msg.answer then none else some insecure_answer)
        ])
