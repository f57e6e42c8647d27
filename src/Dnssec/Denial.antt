-- ===== src/Dnssec/Denial.antt =====
-- internal/dnssec/nsec3.go: the proof that a delegation has no DS record.
use rcvd.Prelude.{
  ℕ, zero, suc, ◌+◌, ◌%◌, Bool, true, false, not, ◌&&◌, Option, none, some, List, [], ◌∷◌, ◌==◌,
  is_empty, any, if◌then◌else◌, length, keep_if,
}
use rcvd.Text.{Text, text_eq}
use rcvd.Dns.{Dnskey, Nsec3, nsec, nsec3, Rr, DnsLib}
use rcvd.Dns.RrType
use rcvd.Dnssec.{
  Sig, Crypto, Outcome, verified, rejected, bitmap_has, verify_rrset_with_key_set, sigs_for,
  parent_zone,
}

-- The covering signatures of verifyDenialRecord, among those of the authority section.
unfoldable pub covering : DnsLib → Rr → List Sig → List Sig
covering lib rr sigs =
    keep_if (λ s. text_eq (lib.canonical_name s.owner) (lib.canonical_name rr.name)) sigs

unfoldable pub is_verified : Outcome → Bool
is_verified verified = true
is_verified (rejected e) = false

-- verifyDenialRecord: without a covering signature nothing verifies.
unfoldable pub verify_denial_record : DnsLib → Crypto → List Rr → List Dnskey → Rr → Bool
verify_denial_record lib cr authority keys rr =
    is_verified
      (verify_rrset_with_key_set cr (rr ∷ []) (covering lib rr (sigs_for rr.rrtype authority)) keys)

-- NS set, DS and SOA clear.
unfoldable pub is_bare_delegation : List ℕ → Bool
is_bare_delegation bitmap =
    bitmap_has bitmap RrType.ns
    && not (bitmap_has bitmap RrType.ds)
    && not (bitmap_has bitmap RrType.soa)

-- The *dns.NSEC3 and *dns.NSEC records of the authority section, with their bitmaps.
unfoldable pub nsec3s : List Rr → List (Rr × Nsec3)
nsec3s [] = []
nsec3s (rr ∷ rrs) = let rest = nsec3s rrs in elim rr.body [ nsec3 n ↦ (rr, n) ∷ rest | _ ↦ rest ]

unfoldable pub nsecs : List Rr → List (Rr × List ℕ)
nsecs [] = []
nsecs (rr ∷ rrs) = let rest = nsecs rrs in elim rr.body [ nsec ts ↦ (rr, ts) ∷ rest | _ ↦ rest ]

-- The loop over matching records: the verdict of the first verified match, if there is one.
unfoldable pub matching_nsec3 : (Rr → Bool) → (Rr → Bool) → List (Rr × Nsec3) → Option Bool
matching_nsec3 ok hit [] = none
matching_nsec3 ok hit ((rr, n) ∷ ns) =
    if not (ok rr)
    then matching_nsec3 ok hit ns
    else if hit rr
    then some (is_bare_delegation n.types)
    else matching_nsec3 ok hit ns

-- The loop of closestEncloserMatch, which leaves at the root or where the parent is the name. Each
-- turn drops a label, so the number of bytes of the name is fuel enough for a name the library
-- parses.
unfoldable pub encloser_from : DnsLib → Crypto → Rr → ℕ → Text → Bool
encloser_from lib cr rr zero name = false
encloser_from lib cr rr (suc fuel) name =
    let above = encloser_from lib cr rr fuel (parent_zone lib cr name) in
    if is_empty name
    then false
    else if cr.nsec3_match rr name
    then true
    else if text_eq (parent_zone lib cr name) name
    then false
    else above

-- closestEncloserMatch
unfoldable pub closest_encloser_match : DnsLib → Crypto → Text → Rr → Bool
closest_encloser_match lib cr child rr =
    let name = lib.canonical_name child in encloser_from lib cr rr (length name + 1) name

-- nsec3ProvesNoDS
unfoldable pub nsec3_proves_no_ds : DnsLib → Crypto → Text → List (Rr × Nsec3) → (Rr → Bool) → Bool
nsec3_proves_no_ds lib cr child ns ok =
    elim (matching_nsec3 ok (λ rr. cr.nsec3_match rr child) ns) [
      | some verdict ↦ verdict
      | none ↦
          any (λ x. ok x.0 && (x.1.flags % 2 == 1 && cr.nsec3_cover x.0 child)) ns
          && any (λ x. ok x.0 && closest_encloser_match lib cr child x.0) ns
    ]

-- nsecProvesNoDS
unfoldable pub nsec_proves_no_ds : DnsLib → Text → List (Rr × List ℕ) → (Rr → Bool) → Bool
nsec_proves_no_ds lib child [] ok = false
nsec_proves_no_ds lib child ((rr, types) ∷ ns) ok =
    if not (ok rr)
    then nsec_proves_no_ds lib child ns ok
    else if text_eq (lib.canonical_name rr.name) child
    then is_bare_delegation types
    else nsec_proves_no_ds lib child ns ok

-- provesNoDS
unfoldable pub proves_no_ds : DnsLib → Crypto → Text → List Rr → List Dnskey → Bool
proves_no_ds lib cr child authority parent_keys =
    let name = lib.canonical_name child in
    let ok = verify_denial_record lib cr authority parent_keys in
    if not (is_empty (nsec3s authority))
    then nsec3_proves_no_ds lib cr name (nsec3s authority) ok
    else nsec_proves_no_ds lib name (nsecs authority) ok
