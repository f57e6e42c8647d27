-- ===== src/Transport/Pin.antt =====
-- internal/resolver/pin.go and ParsePin and SPKIPin of internal/config/pin.go: a pinned public key in
-- place of the chain of certificate authorities. Hashing, base64 and the check of a host name are
-- arguments. The constant-time comparison is equality.
use rcvd.Prelude.{
  ◌≡◌, refl, ap, ◌↔◌, Bool, true, false, ◌&&◌, ◌||◌, Option, none, some, List, [], ◌∷◌, ◌++◌, arith,
  ◌==◌, length, is_empty, is_some, if◌then◌else◌,
}
use rcvd.Text.{Text, codes, text_eq, text_eq_iff, text_eq_refl}
use rcvd.Text.Affix.{strip_prefix, strip_prefix-append}
use rcvd.Config.{Host, is_pin}

abbrev pub pin_prefix : Text
pin_prefix = codes "sha256//"

-- ParsePin, by base64.StdEncoding.DecodeString; the digest, or nothing for an error.
unfoldable pub parse_pin : (Text → Option Text) → Text → Option Text
parse_pin decode s = elim (strip_prefix pin_prefix s) [
  | none ↦ none
  | some b64 ↦ elim (decode b64) [
    | none ↦ none
    | some raw ↦ if length raw == 32 then some raw else none
  ]
]

-- The checks of the configuration accept exactly the pins that the handshake can use.
pub is_pin-parse_pin : (h : Host) (s : Text) → is_pin h s ≡ is_some (parse_pin h.decode_base64 s)
unfolding is_pin parse_pin
is_pin-parse_pin h s = ground arith

-- A certificate of the peer: its public key, and leaf.VerifyHostname.
pub record Cert : Type 0 where
  pub raw_subject_public_key_info : Text
  pub covers : Text → Bool

-- SPKIPin, by sha256.Sum256 and base64.StdEncoding.EncodeToString.
unfoldable pub spki_pin : (Text → Text) → (Text → Text) → Cert → Text
spki_pin sha256 encode cert = pin_prefix ++ encode (sha256 cert.raw_subject_public_key_info)

-- The two fields of tls.Config that the pin sets.
pub record TlsConfig : Type 0 where
  pub insecure_skip_verify : Bool
  pub verify_connection : Option (List Cert → Bool)

abbrev head_or : Cert → List Cert → Cert
head_or c [] = c
head_or c (d ∷ ds) = d

-- The closure that VerifyConnection gets; true is the nil error.
unfoldable pub verify_pinned : (Text → Text) → Text → Text → List Cert → Bool
verify_pinned sha256 host want [] = false
verify_pinned sha256 host want (leaf ∷ rest) =
    leaf.covers host && text_eq (sha256 leaf.raw_subject_public_key_info) want

-- pinnedTLSConfig
unfoldable pub pinned_tls_config :
    (Text → Text) → (Text → Option Text) → TlsConfig → Text → Text → TlsConfig
pinned_tls_config sha256 decode conf host pin =
    if is_empty pin then conf else elim (parse_pin decode pin) [
      | none ↦ conf
      | some want ↦ record {
        insecure_skip_verify = true;
        verify_connection = some (verify_pinned sha256 host want);
      }
    ]

-- What package tls documents: the chain and the host name are verified unless InsecureSkipVerify is
-- set, `chain_ok` being the verdict, and then VerifyConnection has to succeed.
abbrev pub accepts : TlsConfig → Bool → List Cert → Bool
accepts conf chain_ok certs =
    (conf.insecure_skip_verify || chain_ok)
    && elim conf.verify_connection [ none ↦ true | some verify ↦ verify certs ]

abbrev pub plain_config : TlsConfig
plain_config = record { insecure_skip_verify = false; verify_connection = none }

pub parse_pin-spki_pin :
    (sha256 encode : Text → Text) (decode : Text → Option Text) (cert : Cert)
    → ((s : Text) → decode (encode s) ≡ some s)
    → ((s : Text) → length (sha256 s) ≡ 32)
    → parse_pin decode (spki_pin sha256 encode cert)
      ≡ some (sha256 cert.raw_subject_public_key_info)
unfolding parse_pin spki_pin
parse_pin-spki_pin sha256 encode decode cert back size =
    let s = cert.raw_subject_public_key_info in
    rw (parse_pin, strip_prefix-append pin_prefix (encode (sha256 s)), back (sha256 s), size s) refl

verify_pinned_iff :
    (sha256 : Text → Text) (host want : Text) (certs : List Cert)
    → (verify_pinned sha256 host want certs ≡ true) ↔ (
        (leaf : Cert) × (rest : List Cert) × (certs ≡ leaf ∷ rest)
        × (leaf.covers host ≡ true)
        × (sha256 leaf.raw_subject_public_key_info ≡ want))
unfolding verify_pinned
verify_pinned_iff sha256 host want [] = (λ h. absurd (cc h), λ (l, r, e, c, k). absurd (cc e))
verify_pinned_iff sha256 host want (leaf ∷ rest) =
    let s = sha256 leaf.raw_subject_public_key_info in
    (
      λ h. (leaf, rest, refl, ground arith, ground (arith, text_eq_iff s want)),
      λ (l, r, e, c, k).
          let same : leaf ≡ l = ap (λ (cs : List Cert). head_or leaf cs) e in
          rw same (rw c (rw k (text_eq_refl want))),
    )

-- A client that pins what SPKIPin prints of a certificate accepts a handshake exactly if the peer
-- presents a first certificate that covers the host name and whose public key has the same digest,
-- whatever the certificate authorities say of it.
pub pinned_tls_config-spki_pin :
    (sha256 encode : Text → Text) (decode : Text → Option Text) (cert : Cert) (host : Text)
    (chain_ok : Bool) (certs : List Cert)
    → ((s : Text) → decode (encode s) ≡ some s)
    → ((s : Text) → length (sha256 s) ≡ 32)
    → (accepts
          (pinned_tls_config sha256 decode plain_config host (spki_pin sha256 encode cert))
          chain_ok
          certs
        ≡ true)
      ↔ ((leaf : Cert) × (rest : List Cert) × (certs ≡ leaf ∷ rest)
          × (leaf.covers host ≡ true)
          × (sha256 leaf.raw_subject_public_key_info ≡ sha256 cert.raw_subject_public_key_info))
unfolding pinned_tls_config
pinned_tls_config-spki_pin sha256 encode decode cert host chain_ok certs back size =
    let want = sha256 cert.raw_subject_public_key_info in
    let set : pinned_tls_config sha256 decode plain_config host (spki_pin sha256 encode cert)
        ≡ record {
          insecure_skip_verify = true;
          verify_connection = some (verify_pinned sha256 host want);
        } =
      rw (pinned_tls_config, parse_pin-spki_pin sha256 encode decode cert back size)
        (unfold spki_pin in refl) in
    rw set (verify_pinned_iff sha256 host want certs)

-- Without a pin, or with one that does not parse, the certificate authorities decide alone.
pub pinned_tls_config-unpinned :
    (sha256 : Text → Text) (decode : Text → Option Text) (host pin : Text) (chain_ok : Bool)
    (certs : List Cert)
    → parse_pin decode pin ≡ none
    → accepts (pinned_tls_config sha256 decode plain_config host pin) chain_ok certs ≡ chain_ok
unfolding pinned_tls_config
pinned_tls_config-unpinned sha256 decode host pin chain_ok certs bad = ground (arith, bad)
