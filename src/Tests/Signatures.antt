-- ===== src/Tests/Signatures.antt =====
-- The validator on a root zone with one key, whose signatures all verify.
use rcvd.Prelude.{ℕ, ◌≡◌, refl, true, false, none, some, List, [], ◌∷◌, All}
use rcvd.Text.{codes, text_eq, to_lower, has, add}
use rcvd.Table.{lookup}
use rcvd.Dns.{other, rrsig, dnskey, nsec, Rrsig, Dnskey, Rr, Msg, empty_msg}
use rcvd.Dns.RrType
use rcvd.Dnssec.{
  Crypto, bitmap_has, equal_hex_digest, hex_digit, hex_encode, matches_anchor, verify_keys,
  verify_sigs, verify_rrset_with_key_set, sigs_for, rrset_for, is_rrsig, dnskeys, decimal,
  rrset_key,
}
use rcvd.Dnssec.Chain.{
  Validator, cache_get, cache_put, fetch_rrset, self_signed, root_keys, root, authenticated_dnskeys,
  min_rrset_ttl,
}
use rcvd.Dnssec.Denial.{
  proves_no_ds, nsec3s, nsecs, nsec_proves_no_ds, verify_denial_record, covering, is_verified,
  is_bare_delegation,
}
use rcvd.Dnssec.Denied.{NoDsProof, proves_no_ds-NoDsProof}
use rcvd.Dnssec.Secure.{Secured, validate_response-Secured}
use rcvd.Dnssec.Trust.{Trusted, authenticated_dnskeys-Sound}
use rcvd.Dnssec.Validator.{
  validate_response, validate_sigs, rrsigs, rrset_at, signing_key, find_dnskey, pick,
  check_signature, contradicts_anchor, is_root_ksk, is_covered, is_exempt,
}
use rcvd.Server.{Server, World, apply_dnssec, stale_entry, count}
use rcvd.Server.Validation.{validate_with, verdict_of, apply_dnssec-Secured}
use rcvd.Tests.Library.{lib, no_stats}
use rcvd.Tests.Policies.{query}

-- Every signature is in its period and verifies.
abbrev pub crypto : Crypto
crypto = record {
  key_tag = λ k. 42;
  in_period = λ s. true;
  verify = λ s k rrs. none;
  to_ds = λ k t.
      some (record { key_tag = 42; algorithm = k.algorithm; digest_type = t; digest = codes "AB" });
  nsec3_match = λ rr n. false;
  nsec3_cover = λ rr n. false;
  fqdn = λ n. n;
  split_domain_name = λ n. [];
}

abbrev pub root_key : Dnskey
root_key = record { owner = root; flags = 257; protocol = 3; algorithm = 8; public_key = codes "k" }

abbrev signature : ℕ → Rrsig
signature t = record {
  type_covered = t;
  algorithm = 8;
  key_tag = 42;
  signer_name = root;
  inception = 0;
  expiration = 9;
  signature = codes "s";
}

abbrev sig_rr : ℕ → Rr
sig_rr t = record { name = root; rrtype = RrType.rrsig; ttl = 60; body = rrsig (signature t) }

abbrev pub key_rr : Rr
key_rr = record { name = root; rrtype = RrType.dnskey; ttl = 60; body = dnskey root_key }

abbrev key_reply : Msg
key_reply = record empty_msg { answer = key_rr ∷ sig_rr 48 ∷ [] }

abbrev pub validator : Validator
validator = record {
  enabled = true;
  validate_all = false;
  trust_anchors = record { key_tag = 42; algorithm = 8; digest_type = 2; digest = 171 ∷ [] } ∷ [];
  fetcher = some (λ zone t. some key_reply);
}

authenticated_dnskeys-Sound_example :
    Trusted lib crypto validator.trust_anchors root (root_key ∷ [])
unfolding authenticated_dnskeys fetch_rrset cache_get cache_put min_rrset_ttl rrset_key decimal
    lookup to_lower text_eq rrset_for sigs_for is_rrsig dnskeys root_keys self_signed matches_anchor
    equal_hex_digest hex_encode hex_digit verify_rrset_with_key_set verify_sigs verify_keys
authenticated_dnskeys-Sound_example =
    authenticated_dnskeys-Sound lib crypto validator (λ levels. 5) 1 [] root

-- An A record of the root with its signature; the key has to be fetched.
abbrev data_rr : Rr
data_rr = record { name = root; rrtype = 1; ttl = 60; body = other (codes "1.2.3.4") }

abbrev reply : Msg
reply = record empty_msg { answer = data_rr ∷ sig_rr 1 ∷ [] }

validate_response-Secured_example :
    All (Secured lib crypto validator reply) (data_rr ∷ sig_rr 1 ∷ [])
unfolding validate_response validate_sigs rrsigs rrset_at signing_key find_dnskey pick
    check_signature contradicts_anchor is_root_ksk is_covered is_exempt has add
    authenticated_dnskeys fetch_rrset cache_get cache_put min_rrset_ttl rrset_key decimal lookup
    to_lower text_eq rrset_for sigs_for is_rrsig dnskeys root_keys self_signed matches_anchor
    equal_hex_digest hex_encode hex_digit verify_rrset_with_key_set verify_sigs verify_keys
validate_response-Secured_example =
    validate_response-Secured lib crypto validator (λ i levels. 5) [] reply refl refl

-- A signed NSEC of a delegation without DS.
abbrev denial : List Rr
denial =
    record { name = root; rrtype = RrType.nsec; ttl = 60; body = nsec (RrType.ns ∷ []) }
    ∷ sig_rr 47
    ∷ []

proves_no_ds-NoDsProof_example :
    NoDsProof lib crypto denial (root_key ∷ []) (lib.canonical_name root)
unfolding proves_no_ds nsec3s nsecs nsec_proves_no_ds verify_denial_record covering is_verified
    is_bare_delegation bitmap_has sigs_for verify_rrset_with_key_set verify_sigs verify_keys text_eq
    to_lower
proves_no_ds-NoDsProof_example = proves_no_ds-NoDsProof lib crypto denial (root_key ∷ []) root refl

abbrev server : Server
server = record {
  cache = none;
  policy = none;
  validator = some (validate_with lib crypto validator (λ i levels. 5) []);
  stats = some no_stats;
}

abbrev world : World
world = record { at_get = 0; at_put = 0; at_stale = 0; upstream = λ m. some reply; elapsed_us = 1 }

apply_dnssec-Secured_example :
    ((apply_dnssec lib server world reply query).1.answer ≡ reply.answer)
    × All (Secured lib crypto validator reply) reply.answer
unfolding apply_dnssec count stale_entry verdict_of validate_response validate_sigs rrsigs rrset_at
    signing_key find_dnskey pick check_signature contradicts_anchor is_root_ksk is_covered is_exempt
    has add authenticated_dnskeys fetch_rrset cache_get cache_put min_rrset_ttl rrset_key decimal
    lookup to_lower text_eq rrset_for sigs_for is_rrsig dnskeys root_keys self_signed matches_anchor
    equal_hex_digest hex_encode hex_digit verify_rrset_with_key_set verify_sigs verify_keys
apply_dnssec-Secured_example =
    apply_dnssec-Secured lib crypto validator (λ i levels. 5) [] server world reply query refl refl
      refl refl
