-- ===== src/Dnssec.antt =====
-- internal/dnssec: the checks on one RRset and on trust anchors (chain.go, nsec3.go, anchors.go).
-- The cryptography of package dns, its name functions and the clock behind ValidityPeriod are the
-- fields of an argument. A DNSKEY or RRSIG carries its owner name.
pub mod Denial
pub mod Chain
pub mod Trust
pub mod Validator
pub mod Secure
pub mod NoDs
pub mod Denied
pub mod Anchors
use rcvd.Prelude.{
  ℕ, zero, suc, ◌+◌, ◌/◌, ◌%◌, Bool, true, false, not, ◌&&◌, ◌||◌, Option, none, some, List, [],
  ◌∷◌, ◌++◌, map, leb, ltb, ◌==◌, is_empty, mem, if◌then◌else◌,
}
use rcvd.Text.{Text, text_eq, to_lower}
use rcvd.Dns.{Body, Rrsig, Dnskey, Ds, rrsig, dnskey, ds, Rr, DnsLib}
use rcvd.Dns.RrType

-- A signature with the name in its header.
pub record Sig : Type 0 where
  pub owner : Text
  pub sig : Rrsig

-- How RRSIG.Verify fails: ErrSig, or one of ErrKey, ErrAlg and ErrKeyAlg.
pub data VerifyError : Type 0 where
  bad_signature : VerifyError
  cannot_process : VerifyError

pub record Crypto : Type 0 where
  -- key.KeyTag()
  pub key_tag : Dnskey → ℕ
  -- sig.ValidityPeriod(time.Now())
  pub in_period : Sig → Bool
  -- sig.Verify(key, rrset); nothing for a nil error
  pub verify : Sig → Dnskey → List Rr → Option VerifyError
  -- key.ToDS(digestType)
  pub to_ds : Dnskey → ℕ → Option Ds
  -- n3.Match(name) and n3.Cover(name)
  pub nsec3_match : Rr → Text → Bool
  pub nsec3_cover : Rr → Text → Bool
  -- dns.Fqdn and dns.SplitDomainName
  pub fqdn : Text → Text
  pub split_domain_name : Text → List Text

pub record TrustAnchor : Type 0 where
  pub key_tag : ℕ
  pub algorithm : ℕ
  pub digest_type : ℕ
  pub digest : List ℕ

-- bitmapHas
unfoldable pub bitmap_has : List ℕ → ℕ → Bool
bitmap_has [] t = false
bitmap_has (b ∷ bitmap) t = b == t || bitmap_has bitmap t

-- equalHexDigest: byte for byte, letters without their case.
unfoldable pub equal_hex_digest : Text → Text → Bool
equal_hex_digest a b = text_eq (to_lower a) (to_lower b)

-- One digit of hex.EncodeToString.
unfoldable pub hex_digit : ℕ → ℕ
hex_digit d = if ltb d 10 then 48 + d else 87 + d

-- hex.EncodeToString
unfoldable pub hex_encode : List ℕ → Text
hex_encode [] = []
hex_encode (b ∷ bytes) = hex_digit (b / 16) ∷ hex_digit (b % 16) ∷ hex_encode bytes

-- VerifyKeyAgainstAnchors(...) == nil. Equality in upper case is equality in lower case.
unfoldable pub matches_anchor : Crypto → Dnskey → List TrustAnchor → Bool
matches_anchor cr key [] = false
matches_anchor cr key (anchor ∷ anchors) =
    let rest = matches_anchor cr key anchors in
    if not (cr.key_tag key == anchor.key_tag)
    then rest
    else if not (key.algorithm == anchor.algorithm)
    then rest
    else elim (cr.to_ds key anchor.digest_type) [
      | none ↦ rest
      | some d ↦ if equal_hex_digest d.digest (hex_encode anchor.digest) then true else rest
    ]

-- What verifyRRsetWithKeySet returns: nil, or an error that wraps the last one of Verify.
pub data Outcome : Type 0 where
  verified : Outcome
  rejected : Option VerifyError → Outcome

-- The inner loop: one signature, the candidate keys, the last error.
unfoldable pub verify_keys : Crypto → List Rr → Sig → Option VerifyError → List Dnskey → Outcome
verify_keys cr rrset s last [] = rejected last
verify_keys cr rrset s last (k ∷ keys) =
    if not (cr.key_tag k == s.sig.key_tag) || not (k.algorithm == s.sig.algorithm)
    then verify_keys cr rrset s last keys
    else elim (cr.verify s k rrset) [
      | none ↦ verified
      | some e ↦ verify_keys cr rrset s (some e) keys
    ]

-- The outer loop.
unfoldable pub verify_sigs :
    Crypto → List Rr → List Dnskey → Option VerifyError → List Sig → Outcome
verify_sigs cr rrset keys last [] = rejected last
verify_sigs cr rrset keys last (s ∷ sigs) =
    if not (cr.in_period s)
    then verify_sigs cr rrset keys last sigs
    else elim (verify_keys cr rrset s last keys) [
      | verified ↦ verified
      | rejected e ↦ verify_sigs cr rrset keys e sigs
    ]

-- verifyRRsetWithKeySet; without a signature the loop ends with no error of Verify at once.
unfoldable pub verify_rrset_with_key_set : Crypto → List Rr → List Sig → List Dnskey → Outcome
verify_rrset_with_key_set cr rrset sigs keys = verify_sigs cr rrset keys none sigs

-- unprocessableKey
unfoldable pub unprocessable_key : Option VerifyError → Bool
unprocessable_key (some cannot_process) = true
unprocessable_key _ = false

-- The signatures of splitRRSIGs.
unfoldable pub sigs_for : ℕ → List Rr → List Sig
sigs_for t [] = []
sigs_for t (rr ∷ rrs) =
    let rest = sigs_for t rrs in
    elim rr.body [
      | rrsig s ↦ if s.type_covered == t then record { owner = rr.name; sig = s } ∷ rest else rest
      | _ ↦ rest
    ]

unfoldable pub is_rrsig : Body → Bool
is_rrsig (rrsig s) = true
is_rrsig _ = false

-- The RRset of splitRRSIGs.
unfoldable pub rrset_for : ℕ → List Rr → List Rr
rrset_for t [] = []
rrset_for t (rr ∷ rrs) =
    let rest = rrset_for t rrs in
    if not (is_rrsig rr.body) && rr.rrtype == t then rr ∷ rest else rest

-- The records that are a *dns.DNSKEY.
unfoldable pub dnskeys : List Rr → List Dnskey
dnskeys [] = []
dnskeys (rr ∷ rrs) = let rest = dnskeys rrs in elim rr.body [ dnskey k ↦ k ∷ rest | _ ↦ rest ]

drop_zeros : Text → Text
drop_zeros [] = []
drop_zeros (c ∷ s) = let rest = drop_zeros s in if c == 48 then rest else c ∷ s

abbrev digit : ℕ → ℕ
digit n = 48 + n % 10

-- %d of a uint16.
unfoldable pub decimal : ℕ → Text
unfolding drop_zeros
decimal t =
    drop_zeros (digit (t / 10000) ∷ digit (t / 1000) ∷ digit (t / 100) ∷ digit (t / 10) ∷ [])
    ++ digit t ∷ []

-- rrsetKey
unfoldable pub rrset_key : DnsLib → Text → ℕ → Text
rrset_key lib name t = lib.canonical_name name ++ b'/' ∷ decimal t

-- joinLabels
unfoldable pub join_labels : List Text → Text
join_labels [] = []
join_labels (l ∷ []) = l
join_labels (l ∷ m ∷ labels) = l ++ b'.' ∷ join_labels (m ∷ labels)

-- parentZone
unfoldable pub parent_zone : DnsLib → Crypto → Text → Text
parent_zone lib cr zone =
    let z = lib.canonical_name zone in
    if text_eq z (b'.' ∷ []) then b'.' ∷ [] else elim (cr.split_domain_name z) [
      | [] ↦ b'.' ∷ []
      | l ∷ [] ↦ b'.' ∷ []
      | l ∷ m ∷ labels ↦ cr.fqdn (lib.canonical_name (join_labels (m ∷ labels)))
    ]
