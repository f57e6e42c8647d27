-- ===== src/Dnssec/Secure.antt =====
-- What it takes for ValidateResponse of internal/dnssec/validator.go to find a response secure.
use rcvd.Prelude.{
  ℕ, ◌+◌, ◌≡◌, refl, ◌⊎◌, inl, inr, true, false, none, some, List, [], ◌∷◌, ◌++◌, arith, Bool-cases,
  Option-cases, List-cases, All, is_empty, length,
}
use rcvd.Prelude.Result.{ok, Result-cases}
use rcvd.Text.{Text, TextSet, has, add, has-add_inv, has-add_self, text_eq_refl}
use rcvd.Dns.{Rrsig, Dnskey, rrsig, dnskey, other, Rr, Msg, DnsLib}
use rcvd.Dns.RrType
use rcvd.Dnssec.{Sig, Crypto, rrset_key}
use rcvd.Dnssec.Chain.{Validator, RrsetCache, authenticated_dnskeys, max_chain_depth}
use rcvd.Dnssec.Trust.{Trusted, authenticated_dnskeys-Sound}
use rcvd.Dnssec.Validator.{
  rrsigs, rrset_at, is_signer, find_dnskey, pick, signing_key, check_signature, contradicts_anchor,
  validate_sigs, is_exempt, is_covered, validate_response,
}

module _ (lib : DnsLib) (cr : Crypto) (v : Validator) (answer all_rrs : List Rr) where
  -- Where the signing key comes from: from the message itself, or from an authenticated set.
  abbrev pub Source : Sig → Dnskey → Type 0
  Source s k =
      (find_dnskey lib cr s all_rrs ≡ some k)
      ⊎ ((keys : List Dnskey) × Trusted lib cr v.trust_anchors
            (lib.canonical_name s.sig.signer_name) keys
          × (pick cr s keys ≡ some k))

  -- A signature in its period covers the set of the answer under the key and verifies.
  pub record IsSigned (key : Text) : Type 0 where
    pub signature : Sig
    pub signer : Dnskey
    pub covers : rrset_key lib signature.owner signature.sig.type_covered ≡ key
    pub timely : cr.in_period signature ≡ true
    pub source : Source signature signer
    pub verifies : cr.verify signature signer (rrset_at lib key answer) ≡ none
    pub anchored : contradicts_anchor cr v signer ≡ false

  signing_key-Source :
      (clock : ℕ → ℕ) (c : RrsetCache) (s : Sig) (k : Dnskey)
      → (signing_key lib cr v clock all_rrs c s).1 ≡ ok k
      → Source s k
  unfolding signing_key
  signing_key-Source clock c s k h = elim (Option-cases (find_dnskey lib cr s all_rrs)) [
    | inr (k', e) ↦ inl (ground (arith, e, h))
    | inl e ↦ elim (Option-cases v.fetcher) [
      | inl f ↦ absurd (ground (arith, e, f, h))
      | inr (ask, f) ↦
          let sound =
            authenticated_dnskeys-Sound lib cr v clock (max_chain_depth + 1) c s.sig.signer_name in
          elim (Result-cases
            (authenticated_dnskeys lib cr v clock (max_chain_depth + 1) c s.sig.signer_name).1) [
              | inr (bad, g) ↦ absurd (ground (arith, e, f, g, h))
              | inl (keys, g) ↦ inr (keys, rw g at sound, ground (arith, e, f, g, h))
            ]
    ]
  ]

  check_signature-none :
      (s : Sig) (k : Dnskey) (rrset : List Rr)
      → check_signature cr v s k rrset ≡ none
      → (cr.verify s k rrset ≡ none) × (contradicts_anchor cr v k ≡ false)
  unfolding check_signature
  check_signature-none s k rrset h = (ground (arith, h), ground (arith, h))

  -- Every key in the result of the loop is signed, if those at its start are.
  validate_sigs-IsSigned :
      (clock : ℕ → ℕ → ℕ) (c : RrsetCache) (start : TextSet) (sigs : List Sig) (vs : TextSet)
      → ((key : Text) → has start key ≡ true → IsSigned key)
      → (validate_sigs lib cr v clock answer all_rrs c start sigs).1 ≡ ok vs
      → (key : Text) → has vs key ≡ true
      → IsSigned key
  unfolding validate_sigs
  validate_sigs-IsSigned clock c start [] vs h e key y = h key (ground (arith, e, y))
  validate_sigs-IsSigned clock c start (s ∷ sigs) vs h e key y =
      let covered_key = rrset_key lib s.owner s.sig.type_covered in
      elim (Bool-cases (cr.in_period s)) [
        | inr late ↦ absurd (ground (arith, late, e))
        | inl timely ↦ elim (Bool-cases (is_empty (rrset_at lib covered_key answer))) [
          | inl nothing ↦
              validate_sigs-IsSigned clock c start sigs vs h
                (rw (validate_sigs, timely, nothing) at e) key y
          | inr something ↦
              let found = signing_key lib cr v (clock (length sigs)) all_rrs c s in
              elim (Result-cases found.1) [
                | inr (bad, g) ↦ absurd (ground (arith, timely, something, g, e))
                | inl (k, g) ↦
                    elim (Option-cases
                      (check_signature cr v s k (rrset_at lib covered_key answer))) [
                        | inr (bad, q) ↦ absurd (ground (arith, timely, something, g, q, e))
                        | inl q ↦
                            let (verifies, anchored) =
                              check_signature-none s k (rrset_at lib covered_key answer) q in
                            let signed : IsSigned covered_key = record {
                              signature = s;
                              signer = k;
                              covers = refl;
                              timely = timely;
                              source = signing_key-Source (clock (length sigs)) c s k g;
                              verifies = verifies;
                              anchored = anchored;
                            } in
                            validate_sigs-IsSigned clock found.0 (add start covered_key) sigs vs
                              (λ j p. elim (has-add_inv start covered_key j p) [
                                | inl same ↦ rw same signed
                                | inr old ↦ h j old
                              ])
                              (rw (validate_sigs, timely, something, g, q) at e) key y
                      ]
              ]
        ]
      ]

-- Every record of the answer is a signature, is verification material, or stands in a signed set.
abbrev pub Secured : DnsLib → Crypto → Validator → Msg → Rr → Type 0
Secured lib cr v msg rr =
    (is_exempt rr.rrtype ≡ true)
    ⊎ IsSigned lib cr v msg.answer (msg.answer ++ msg.ns) (rrset_key lib rr.name rr.rrtype)

is_covered-Secured :
    (lib : DnsLib) (cr : Crypto) (v : Validator) (msg : Msg) (vs : TextSet) (rrs : List Rr)
    → ((key : Text) → has vs key ≡ true → IsSigned lib cr v msg.answer (msg.answer ++ msg.ns) key)
    → is_covered lib vs rrs ≡ true
    → All (Secured lib cr v msg) rrs
unfolding is_covered
is_covered-Secured lib cr v msg vs [] signed h = tt
is_covered-Secured lib cr v msg vs (rr ∷ rrs) signed h = (
  elim (Bool-cases (is_exempt rr.rrtype)) [
    | inl y ↦ inl y
    | inr n ↦ inr (signed (rrset_key lib rr.name rr.rrtype) (ground (arith, n, h)))
  ],
  is_covered-Secured lib cr v msg vs rrs signed (ground (arith, h)),
)

has-nothing : (key : Text) → has [] key ≡ true → ⊥
unfolding has
has-nothing key y = cc y

-- If an enabled validator finds a response secure, then every record of its answer that is neither
-- a signature nor a DNSKEY or DS stands in a set that a signature in its period covers and that
-- verifies under a key which is found in the message itself or belongs to a set of the signer that
-- is linked to a trust anchor. An empty answer counts as secure.
pub validate_response-Secured :
    (lib : DnsLib) (cr : Crypto) (v : Validator) (clock : ℕ → ℕ → ℕ) (c : RrsetCache) (msg : Msg)
    → v.enabled ≡ true
    → (validate_response lib cr v clock c msg).1 ≡ none
    → All (Secured lib cr v msg) msg.answer
unfolding validate_response
validate_response-Secured lib cr v clock c msg on h = elim (List-cases msg.answer) [
  | inl nothing ↦ rw nothing tt
  | inr (r, rs, something) ↦
      let some_answer : is_empty msg.answer ≡ false = ground (arith, something) in
      elim (Bool-cases (is_empty (rrsigs msg.answer))) [
        | inl unsigned ↦ absurd (ground (arith, on, some_answer, unsigned, h))
        | inr signed ↦
            let run =
              validate_sigs lib cr v clock msg.answer (msg.answer ++ msg.ns) c []
                (rrsigs msg.answer) in
            elim (Result-cases run.1) [
              | inr (bad, g) ↦ absurd (ground (arith, on, some_answer, signed, g, h))
              | inl (vs, g) ↦
                  is_covered-Secured lib cr v msg vs msg.answer
                    (validate_sigs-IsSigned lib cr v msg.answer (msg.answer ++ msg.ns) clock c []
                      (rrsigs msg.answer) vs (λ key y. absurd (has-nothing key y)) g)
                    (ground (arith, on, some_answer, signed, g, h))
            ]
      ]
]

-- One record, a signature over its set, and a key, as the answer of a message.
abbrev pub signed_answer : Rr → Text → Rrsig → Text → Dnskey → List Rr
signed_answer rr name s owner k =
    rr
    ∷ record { name = name; rrtype = RrType.rrsig; ttl = 0; body = rrsig s }
    ∷ record { name = owner; rrtype = RrType.dnskey; ttl = 0; body = dnskey k }
    ∷ []

-- A key that stands in the message is believed: a record of any other type is found secure if a
-- signature over it verifies under a key of the same message that bears the signer's name, whatever
-- the trust anchors are, unless the key claims to be a root key; nothing is fetched, and no link of
-- the key to an anchor is asked for.
pub validate_response_own_key :
    (lib : DnsLib) (cr : Crypto) (v : Validator) (clock : ℕ → ℕ → ℕ) (c : RrsetCache) (msg : Msg)
    (rr : Rr) (content : Text) (name owner : Text) (s : Rrsig) (k : Dnskey)
    → msg.answer ≡ signed_answer rr name s owner k
    → rr.body ≡ other content
    → is_exempt rr.rrtype ≡ false
    → rrset_key lib name s.type_covered ≡ rrset_key lib rr.name rr.rrtype
    → cr.in_period (record { owner = name; sig = s }) ≡ true
    → is_signer lib cr (record { owner = name; sig = s }) k ≡ true
    → cr.verify
        (record { owner = name; sig = s })
        k
        (rrset_at lib (rrset_key lib name s.type_covered) msg.answer)
      ≡ none
    → contradicts_anchor cr v k ≡ false
    → validate_response lib cr v clock c msg ≡ (c, none)
unfolding validate_response validate_sigs rrsigs signing_key find_dnskey check_signature is_covered
    rrset_at is_exempt
validate_response_own_key lib cr v clock c msg rr content name owner s k shape plain ordinary same
      timely signer good fine =
    let key = rrset_key lib name s.type_covered in
    ground (
      arith,
      shape,
      plain,
      ordinary,
      same,
      timely,
      signer,
      good,
      fine,
      has-add_self [] key,
      text_eq_refl key,
    )
