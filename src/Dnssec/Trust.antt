-- ===== src/Dnssec/Trust.antt =====
-- What the walk of internal/dnssec/chain.go establishes about the keys that it returns.
use rcvd.Prelude.{
  ℕ, zero, suc, ◌≡◌, refl, ◌⊎◌, inl, inr, true, Option, List, arith, Bool-cases, is_empty, keep_if,
  ◌==◌,
}
use rcvd.Prelude.Result.{Result, ok, err, Result-cases}
use rcvd.Text.{Text, text_eq, text_eq_iff}
use rcvd.Dns.{Dnskey, Rr, Msg, DnsLib}
use rcvd.Dns.Rcode
use rcvd.Dns.RrType
use rcvd.Dnssec.{
  Sig, Crypto, TrustAnchor, VerifyError, Outcome, verified, rejected, matches_anchor,
  verify_rrset_with_key_set, unprocessable_key, sigs_for, rrset_for, dnskeys, parent_zone,
}
use rcvd.Dnssec.Denial.{proves_no_ds}
use rcvd.Dnssec.Chain.{
  Fault, insecure_delegation, insecure_answer, failure, Validator, RrsetCache, fetch_rrset,
  fetch_ds_response, seps_from, self_signed, root_keys, child_keys, root, authenticated_dnskeys,
}

-- The keys are linked to a trust anchor: those of the root are signed by one that matches an
-- anchor; those of another zone are signed by one whose digest stands in a DS set that the keys of
-- the parent zone sign, and these are linked themselves.
pub data Trusted (lib : DnsLib) (cr : Crypto) (anchors : List TrustAnchor)
    : Text → List Dnskey → Type 0 where
  at_root :
      (rrs : List Rr) (sigs : List Sig)
      → verify_rrset_with_key_set cr rrs sigs
          (keep_if (λ k. matches_anchor cr k anchors) (dnskeys rrs))
        ≡ verified
      → Trusted lib cr anchors root (dnskeys rrs)
  below :
      (zone : Text) (parent_keys : List Dnskey) (rrs ds_rrs : List Rr) (sigs ds_sigs : List Sig)
      → Trusted lib cr anchors (lib.canonical_name (parent_zone lib cr zone)) parent_keys
      → verify_rrset_with_key_set cr ds_rrs ds_sigs parent_keys ≡ verified
      → verify_rrset_with_key_set cr rrs sigs (seps_from cr (dnskeys rrs) ds_rrs) ≡ verified
      → Trusted lib cr anchors zone (dnskeys rrs)

-- A zone may be taken for insecure: linked keys of its parent sign a proof that it has no DS, or the
-- library cannot process the key of a signature on the way, or the parent itself is insecure.
pub data Insecure (lib : DnsLib) (cr : Crypto) (anchors : List TrustAnchor) : Text → Type 0 where
  no_ds :
      (zone : Text) (parent_keys : List Dnskey) (authority : List Rr)
      → Trusted lib cr anchors (lib.canonical_name (parent_zone lib cr zone)) parent_keys
      → proves_no_ds lib cr zone authority parent_keys ≡ true
      → Insecure lib cr anchors zone
  unprocessable_ds :
      (zone : Text) (parent_keys : List Dnskey) (ds_rrs : List Rr) (ds_sigs : List Sig)
      (e : Option VerifyError)
      → Trusted lib cr anchors (lib.canonical_name (parent_zone lib cr zone)) parent_keys
      → verify_rrset_with_key_set cr ds_rrs ds_sigs parent_keys ≡ rejected e
      → unprocessable_key e ≡ true
      → Insecure lib cr anchors zone
  unprocessable_keys :
      (zone : Text) (rrs : List Rr) (sigs : List Sig) (seps : List Dnskey) (e : Option VerifyError)
      → verify_rrset_with_key_set cr rrs sigs seps ≡ rejected e
      → unprocessable_key e ≡ true
      → Insecure lib cr anchors zone
  above :
      (zone : Text)
      → Insecure lib cr anchors (lib.canonical_name (parent_zone lib cr zone))
      → Insecure lib cr anchors zone

-- What a result of the walk for a zone promises.
abbrev pub Sound : DnsLib → Crypto → List TrustAnchor → Text → Result Fault (List Dnskey) → Type 0
Sound lib cr anchors zone (ok keys) = Trusted lib cr anchors zone keys
Sound lib cr anchors zone (err insecure_delegation) = Insecure lib cr anchors zone
Sound lib cr anchors zone (err insecure_answer) = ⊥
Sound lib cr anchors zone (err failure) = Unit

module _ (lib : DnsLib) (cr : Crypto) (anchors : List TrustAnchor) where
  Outcome-cases : (o : Outcome) → (o ≡ verified) ⊎ ((e : Option VerifyError) × (o ≡ rejected e))
  Outcome-cases verified = inl refl
  Outcome-cases (rejected e) = inr (e, refl)

  -- The last step, given what its success means.
  self_signed-Sound :
      (zone : Text) (rrs : List Rr) (sigs : List Sig) (seps : List Dnskey)
      → (verify_rrset_with_key_set cr rrs sigs seps ≡ verified
          → Trusted lib cr anchors zone (dnskeys rrs))
      → Sound lib cr anchors zone (self_signed cr rrs sigs seps)
  unfolding self_signed
  self_signed-Sound zone rrs sigs seps h = elim (Bool-cases (is_empty seps)) [
    | inl none_left ↦ rw (self_signed, none_left) tt
    | inr some_left ↦ elim (Outcome-cases (verify_rrset_with_key_set cr rrs sigs seps)) [
      | inl v ↦ rw (self_signed, some_left, v) (h v)
      | inr (e, v) ↦ elim (Bool-cases (unprocessable_key e)) [
        | inl y ↦ rw (self_signed, some_left, v, y) (unprocessable_keys zone rrs sigs seps e v y)
        | inr n ↦ rw (self_signed, some_left, v, n) tt
      ]
    ]
  ]

  child_keys-Sound :
      (zone : Text) (ds_resp : Msg) (parent_keys : List Dnskey) (rrs : List Rr) (sigs : List Sig)
      → Trusted lib cr anchors (lib.canonical_name (parent_zone lib cr zone)) parent_keys
      → Sound lib cr anchors zone (child_keys lib cr zone ds_resp parent_keys rrs sigs)
  unfolding child_keys
  child_keys-Sound zone ds_resp parent_keys rrs sigs t =
      let ds_rrs = rrset_for RrType.ds ds_resp.answer in
      let ds_sigs = sigs_for RrType.ds ds_resp.answer in
      elim (Bool-cases (is_empty ds_rrs)) [
        | inl absent ↦ elim (Bool-cases (ds_resp.rcode == Rcode.success)) [
          | inl fine ↦ elim (Bool-cases (proves_no_ds lib cr zone ds_resp.ns parent_keys)) [
            | inl y ↦ rw (child_keys, absent, fine, y) (no_ds zone parent_keys ds_resp.ns t y)
            | inr n ↦ rw (child_keys, absent, fine, n) tt
          ]
          | inr bad ↦ rw (child_keys, absent, bad) tt
        ]
        | inr present ↦
            elim (Outcome-cases (verify_rrset_with_key_set cr ds_rrs ds_sigs parent_keys)) [
              | inl v ↦
                  rw (child_keys, present, v)
                    (self_signed-Sound zone rrs sigs (seps_from cr (dnskeys rrs) ds_rrs)
                      (λ w. below zone parent_keys rrs ds_rrs sigs ds_sigs t v w))
              | inr (e, v) ↦ elim (Bool-cases (unprocessable_key e)) [
                | inl y ↦
                    rw (child_keys, present, v, y)
                      (unprocessable_ds zone parent_keys ds_rrs ds_sigs e t v y)
                | inr n ↦ rw (child_keys, present, v, n) tt
              ]
            ]
      ]

module _ (lib : DnsLib) (cr : Crypto) (v : Validator) (clock : ℕ → ℕ) where
  fetch_rrset_fault :
      (now : ℕ) (c : RrsetCache) (zone : Text) (t : ℕ) (e : Fault)
      → (fetch_rrset lib cr v now c zone t).1 ≡ err e
      → failure ≡ e
  unfolding fetch_rrset
  fetch_rrset_fault now c zone t e h = ground (arith, h)

  fetch_ds_response_fault :
      (now : ℕ) (c : RrsetCache) (zone : Text) (e : Fault)
      → (fetch_ds_response lib cr v now c zone).1 ≡ err e
      → failure ≡ e
  unfolding fetch_ds_response
  fetch_ds_response_fault now c zone e h = ground (arith, h)

  root_keys-Sound :
      (name : Text) (rrs : List Rr) (sigs : List Sig)
      → name ≡ root
      → Sound lib cr v.trust_anchors name (root_keys cr v.trust_anchors rrs sigs)
  unfolding root_keys
  root_keys-Sound name rrs sigs e =
      rw (e, root_keys)
        (self_signed-Sound lib cr v.trust_anchors root rrs sigs
          (keep_if (λ k. matches_anchor cr k v.trust_anchors) (dnskeys rrs))
          (λ w. at_root rrs sigs w))

  -- A fault of the walk above is passed on.
  passed_on :
      (name : Text) (e : Fault)
      → Sound lib cr v.trust_anchors (lib.canonical_name (parent_zone lib cr name)) (err e)
      → Sound lib cr v.trust_anchors name (err e)
  passed_on name insecure_delegation h = above name h
  passed_on name insecure_answer h = h
  passed_on name failure h = tt

  -- Whatever the upstream chain answers, whatever the cache holds and whenever it expires: keys that
  -- the walk returns are linked to a trust anchor, and a zone that it takes for insecure has a reason
  -- to be taken so.
  pub authenticated_dnskeys-Sound :
      (levels : ℕ) (c : RrsetCache) (zone : Text)
      → Sound lib cr v.trust_anchors
          (lib.canonical_name zone)
          (authenticated_dnskeys lib cr v clock levels c zone).1
  unfolding authenticated_dnskeys
  authenticated_dnskeys-Sound zero c zone = tt
  authenticated_dnskeys-Sound (suc levels) c zone =
      let name = lib.canonical_name zone in
      let step1 = fetch_rrset lib cr v (clock levels) c name RrType.dnskey in
      elim (Result-cases step1.1) [
        | inr (e, f) ↦
            rw
              (
                authenticated_dnskeys,
                f,
                ← fetch_rrset_fault (clock levels) c name RrType.dnskey e f,
              )
              tt
        | inl ((rrs, sigs), f) ↦ elim (Bool-cases (is_empty (dnskeys rrs))) [
          | inl bare ↦ rw (authenticated_dnskeys, f, bare) tt
          | inr keyed ↦ elim (Bool-cases (text_eq name root)) [
            | inl top ↦
                rw (authenticated_dnskeys, f, keyed, top)
                  (root_keys-Sound name rrs sigs ((text_eq_iff name root).0 top))
            | inr inner ↦
                let step2 = fetch_ds_response lib cr v (clock levels) step1.0 name in
                elim (Result-cases step2.1) [
                  | inr (e, g) ↦
                      rw
                        (
                          authenticated_dnskeys,
                          f,
                          keyed,
                          inner,
                          g,
                          ← fetch_ds_response_fault (clock levels) step1.0 name e g,
                        )
                        tt
                  | inl (resp, g) ↦
                      let up =
                        authenticated_dnskeys-Sound levels step2.0 (parent_zone lib cr name) in
                      elim (Result-cases
                        (authenticated_dnskeys lib cr v clock levels step2.0
                          (parent_zone lib cr name)).1) [
                            | inr (e, k) ↦
                                rw (authenticated_dnskeys, f, keyed, inner, g, k)
                                  (passed_on name e (rw k at up))
                            | inl (parent_keys, k) ↦
                                rw (authenticated_dnskeys, f, keyed, inner, g, k)
                                  (child_keys-Sound lib cr v.trust_anchors name resp parent_keys rrs
                                    sigs (rw k at up))
                          ]
                ]
          ]
        ]
      ]
