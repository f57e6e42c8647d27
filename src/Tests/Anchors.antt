-- ===== src/Tests/Anchors.antt =====
-- The two formats of anchor files at one key.
use rcvd.Prelude.{
  ℕ, ◌≡◌, ◌↔◌, refl, arith, true, false, Option, none, some, List, [], ◌∷◌, Elem, is_empty,
}
use rcvd.Text.{Text, codes, to_lower, to_lower_byte}
use rcvd.Dnssec.{TrustAnchor, matches_anchor}
use rcvd.Dnssec.Anchors.{
  hex_value, hex_decode, ZoneFile, anchor_of_rr, anchors_of, parse_root_key, KeyDigest, until_of,
  anchor_of_digest, current_anchors, parse_root_anchors,
}
use rcvd.Dnssec.Anchors.RootKey.{DsLaws, InFile, parse_root_key-matches_anchor}
use rcvd.Dnssec.Anchors.InForce.{FromCurrent, parse_root_anchors-Elem}
use rcvd.Tests.Signatures.{crypto, root_key, key_rr, validator}

abbrev zone : ZoneFile
zone = record { records = key_rr ∷ []; failed = false }

ds_laws : DsLaws crypto
ds_laws = record { same_key = λ k d e. (ground (arith, e), ground (arith, e), ground (arith, e)) }

parse_root_key-matches_anchor_example :
    (matches_anchor crypto root_key validator.trust_anchors ≡ true)
    ↔ InFile crypto zone.records root_key
unfolding parse_root_key anchors_of anchor_of_rr hex_decode hex_value to_lower to_lower_byte
parse_root_key-matches_anchor_example =
    parse_root_key-matches_anchor crypto ds_laws root_key zone validator.trust_anchors refl

-- One entry in force, one that has ended and one that has not begun.
abbrev entry : Text → Text → KeyDigest
entry from until = record {
  valid_from = from;
  valid_until = until;
  key_tag = 42;
  algorithm = 8;
  digest_type = 2;
  digest = codes "A B";
}

abbrev key_digests : List KeyDigest
key_digests = entry (codes "1") [] ∷ entry (codes "1") (codes "3") ∷ entry (codes "9") [] ∷ []

abbrev unmarshal : Text → Option (List KeyDigest)
unmarshal t = some key_digests

-- A time of one digit.
abbrev parse_time : Text → Option ℕ
parse_time (c ∷ []) = hex_value c
parse_time _ = none

parse_root_anchors-Elem_example :
    (is_empty validator.trust_anchors ≡ false)
    × ((kds : List KeyDigest) × (unmarshal (codes "<KeyDigest") ≡ some kds)
        × ((a : TrustAnchor) → Elem a validator.trust_anchors ↔ FromCurrent parse_time 5 kds a))
unfolding parse_root_anchors current_anchors anchor_of_digest until_of hex_decode hex_value
parse_root_anchors-Elem_example =
    parse_root_anchors-Elem parse_time 5 unmarshal (codes "<KeyDigest") validator.trust_anchors refl
