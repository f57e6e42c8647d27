-- ===== src/Dnssec/Anchors.antt =====
-- internal/dnssec/anchors.go: the root trust anchors, from the XML of IANA or from a root.key file.
-- The parsers of XML, of times and of zone files are arguments. A time is the number of nanoseconds
-- since the zero time.
pub mod RootKey
pub mod InForce
use rcvd.Prelude.{
  ℕ, ◌+◌, ◌-◌, ◌*◌, Bool, true, false, not, ◌&&◌, ◌||◌, Option, none, some, List, [], ◌∷◌, leb, ltb,
  ◌==◌, is_empty, keep_if, if◌then◌else◌,
}
use rcvd.Prelude.Result.{Result, ok, err, ◌>>=◌}
use rcvd.Text.{Text, codes, to_lower}
use rcvd.Text.Affix.{has_prefix}
use rcvd.Dns.{Body, Dnskey, dnskey, Rr}
use rcvd.Dnssec.{Crypto, TrustAnchor}

pub data AnchorError : Type 0 where
  no_file : AnchorError
  no_xml : AnchorError
  bad_time : AnchorError
  bad_digest : AnchorError
  bad_zone : AnchorError
  no_anchors : AnchorError

-- One digit of hex.DecodeString.
unfoldable pub hex_value : ℕ → Option ℕ
hex_value c =
    if leb b'0' c && leb c b'9'
    then some (c - 48)
    else if leb b'a' c && leb c b'f'
    then some (c - 87)
    else if leb b'A' c && leb c b'F'
    then some (c - 55)
    else none

abbrev pub join_byte : Option ℕ → Option ℕ → Option (List ℕ) → Option (List ℕ)
join_byte (some h) (some l) (some bytes) = some ((h * 16 + l) ∷ bytes)
join_byte _ _ _ = none

-- hex.DecodeString
unfoldable pub hex_decode : Text → Option (List ℕ)
hex_decode [] = some []
hex_decode (c ∷ []) = none
hex_decode (c ∷ d ∷ s) = join_byte (hex_value c) (hex_value d) (hex_decode s)

-- dns.SHA256
abbrev pub sha256 : ℕ
sha256 = 2

-- What a zone parser reads: records, and whether it then failed.
pub record ZoneFile : Type 0 where
  pub records : List Rr
  pub failed : Bool

abbrev pub key_of_body : Body → Option Dnskey
key_of_body (dnskey k) = some k
key_of_body _ = none

-- One turn of the loop of parseRootKey, before the anchors of the others.
unfoldable pub anchor_of_rr :
    Crypto → Rr → Result AnchorError (List TrustAnchor) → Result AnchorError (List TrustAnchor)
anchor_of_rr cr rr rest = elim (key_of_body rr.body) [
  | none ↦ rest
  | some key ↦ elim (cr.to_ds key sha256) [
    | none ↦ rest
    | some d ↦ elim (hex_decode (to_lower d.digest)) [
      | none ↦ err bad_digest
      | some digest ↦ rest >>= λ anchors. ok (
          record {
            key_tag = d.key_tag;
            algorithm = d.algorithm;
            digest_type = d.digest_type;
            digest = digest;
          }
          ∷ anchors)
    ]
  ]
]

unfoldable pub anchors_of : Crypto → List Rr → Result AnchorError (List TrustAnchor)
anchors_of cr [] = ok []
anchors_of cr (rr ∷ rrs) = anchor_of_rr cr rr (anchors_of cr rrs)

abbrev pub some_anchor : List TrustAnchor → Result AnchorError (List TrustAnchor)
some_anchor anchors = if is_empty anchors then err no_anchors else ok anchors

-- parseRootKey
unfoldable pub parse_root_key : Crypto → ZoneFile → Result AnchorError (List TrustAnchor)
parse_root_key cr zone = anchors_of cr zone.records >>= λ anchors.
    if zone.failed then err bad_zone else some_anchor anchors

-- keyDigestXML
pub record KeyDigest : Type 0 where
  pub valid_from : Text
  pub valid_until : Text
  pub key_tag : ℕ
  pub algorithm : ℕ
  pub digest_type : ℕ
  pub digest : Text

-- The end of validity: the zero time where there is none.
unfoldable pub until_of : (Text → Option ℕ) → KeyDigest → Option ℕ
until_of parse_time kd = if is_empty kd.valid_until then some 0 else parse_time kd.valid_until

-- The two tests that skip an anchor.
abbrev pub is_current : ℕ → ℕ → ℕ → Bool
is_current now from until = not (ltb now from) && not (not (until == 0) && ltb until now)

-- One turn of the loop of ParseRootAnchors, before the anchors of the others.
unfoldable pub anchor_of_digest :
    (Text → Option ℕ)
    → ℕ
    → KeyDigest
    → Result AnchorError (List TrustAnchor)
    → Result AnchorError (List TrustAnchor)
anchor_of_digest parse_time now kd rest = elim (parse_time kd.valid_from) [
  | none ↦ err bad_time
  | some from ↦ elim (until_of parse_time kd) [
    | none ↦ err bad_time
    | some until ↦
        if not (is_current now from until)
        then rest
        else elim (hex_decode (keep_if (λ c. not (c == 32)) kd.digest)) [
          | none ↦ err bad_digest
          | some digest ↦ rest >>= λ anchors. ok (
              record {
                key_tag = kd.key_tag;
                algorithm = kd.algorithm;
                digest_type = kd.digest_type;
                digest = digest;
              }
              ∷ anchors)
        ]
  ]
]

unfoldable pub current_anchors :
    (Text → Option ℕ) → ℕ → List KeyDigest → Result AnchorError (List TrustAnchor)
current_anchors parse_time now [] = ok []
current_anchors parse_time now (kd ∷ kds) =
    anchor_of_digest parse_time now kd (current_anchors parse_time now kds)

-- ParseRootAnchors, where `unmarshal` is xml.Unmarshal.
unfoldable pub parse_root_anchors :
    (Text → Option (List KeyDigest))
    → (Text → Option ℕ)
    → ℕ
    → Text
    → Result AnchorError (List TrustAnchor)
parse_root_anchors unmarshal parse_time now content = elim (unmarshal content) [
  | none ↦ err no_xml
  | some kds ↦ current_anchors parse_time now kds >>= λ anchors. some_anchor anchors
]

-- strings.Contains
unfoldable pub contains : Text → Text → Bool
contains [] t = has_prefix [] t
contains (c ∷ s) t = has_prefix (c ∷ s) t || contains s t

-- LoadTrustAnchorsFromFile
unfoldable pub load_trust_anchors_from_file :
    Crypto
    → (Text → Option Text)
    → (Text → ZoneFile)
    → (Text → Option (List KeyDigest))
    → (Text → Option ℕ)
    → ℕ
    → Text
    → Result AnchorError (List TrustAnchor)
load_trust_anchors_from_file cr read_file parse_zone unmarshal parse_time now path =
    elim (read_file path) [
      | none ↦ err no_file
      | some content ↦
          if contains content (codes "<TrustAnchor") || contains content (codes "<KeyDigest")
          then parse_root_anchors unmarshal parse_time now content
          else parse_root_key cr (parse_zone content)
    ]
