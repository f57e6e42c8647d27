-- ===== src/Dnssec/Anchors/RootKey.antt =====
-- The anchors of a root.key file against the keys in it.
use rcvd.Prelude.{
  ℕ, ◌+◌, ◌*◌, ◌/◌, ◌%◌, ◌<◌, ◌≡◌, refl, sym, ap, ◌∙◌, ◌↔◌, ◌⊎◌, inl, inr, true, ◌&&◌, some, List,
  [], ◌∷◌, arith, ◌==◌, Elem, Bool-cases, Option-cases,
}
use mathlib.Core.Path.{subst}
use rcvd.Prelude.Result.{ok, Result-cases}
use rcvd.Text.{Text, text_eq, text_eq_iff, to_lower, to_lower_byte, to_lower_idem}
use rcvd.Dns.{Dnskey, Ds, Rr}
use rcvd.Dnssec.{Crypto, TrustAnchor, hex_digit, hex_encode, equal_hex_digest, matches_anchor}
use rcvd.Dnssec.Anchors.{
  hex_value, hex_decode, sha256, ZoneFile, key_of_body, anchor_of_rr, anchors_of, parse_root_key,
}

hex_digit-hex_value : (c h : ℕ) → hex_value c ≡ some h → (h < 16) × (hex_digit h ≡ to_lower_byte c)
unfolding hex_value hex_digit to_lower_byte
hex_digit-hex_value c h e = (ground (arith, e), ground (arith, e))

-- Decoding loses nothing but the case of letters.
pub hex_encode-hex_decode :
    (s : Text) (bytes : List ℕ) → hex_decode s ≡ some bytes → hex_encode bytes ≡ to_lower s
unfolding hex_decode hex_encode to_lower
hex_encode-hex_decode [] bytes e = let same : [] ≡ bytes = ground (arith, e) in rw (← same) refl
hex_encode-hex_decode (c ∷ []) bytes e = absurd (cc e)
hex_encode-hex_decode (c ∷ d ∷ s) bytes e = elim (Option-cases (hex_value c)) [
  | inl n ↦ absurd (ground (arith, n, e))
  | inr (h, y) ↦ elim (Option-cases (hex_value d)) [
    | inl n ↦ absurd (ground (arith, y, n, e))
    | inr (l, z) ↦ elim (Option-cases (hex_decode s)) [
      | inl n ↦ absurd (ground (arith, y, z, n, e))
      | inr (rest, w) ↦
          let same : (h * 16 + l) ∷ rest ≡ bytes = ground (arith, y, z, w, e) in
          let (hs, hd) = hex_digit-hex_value c h y in
          let (ls, ld) = hex_digit-hex_value d l z in
          let ih = hex_encode-hex_decode s rest w in
          let high : (h * 16 + l) / 16 ≡ h = omega (arith, hs, ls) in
          let low : (h * 16 + l) % 16 ≡ l = omega (arith, hs, ls) in
          rw (← same) (rw (hex_encode, high, low, hd, ld, ih) refl)
    ]
  ]
]

-- What is documented of ToDS with SHA-256: a digest of that type, for the key's tag and algorithm.
pub record DsLaws (cr : Crypto) : Type 0 where
  pub same_key :
      (k : Dnskey) (d : Ds)
      → cr.to_ds k sha256 ≡ some d
      → (d.key_tag ≡ cr.key_tag k) × (d.algorithm ≡ k.algorithm) × (d.digest_type ≡ sha256)

-- Two keys that agree in tag, algorithm and SHA-256 digest.
abbrev pub SameDigest : Crypto → Dnskey → Dnskey → Type 0
SameDigest cr k key =
    (d e : Ds) × (cr.to_ds k sha256 ≡ some d)
    × (cr.to_ds key sha256 ≡ some e)
    × (cr.key_tag k ≡ cr.key_tag key)
    × (k.algorithm ≡ key.algorithm)
    × (to_lower d.digest ≡ to_lower e.digest)

-- The file has such a key.
abbrev pub InFile : Crypto → List Rr → Dnskey → Type 0
InFile cr rrs k =
    (rr : Rr) × (key : Dnskey) × Elem rr rrs
    × (key_of_body rr.body ≡ some key)
    × SameDigest cr k key

abbrev anchor_from : Ds → List ℕ → TrustAnchor
anchor_from d digest = record {
  key_tag = d.key_tag;
  algorithm = d.algorithm;
  digest_type = d.digest_type;
  digest = digest;
}

-- The comparison with the anchor of a key is one with the key.
equal_digests :
    (a : Text) (d : Ds) (digest : List ℕ)
    → hex_decode (to_lower d.digest) ≡ some digest
    → equal_hex_digest a (hex_encode digest) ≡ text_eq (to_lower a) (to_lower d.digest)
unfolding equal_hex_digest
equal_digests a d digest e =
    rw
      (
        hex_encode-hex_decode (to_lower d.digest) digest e,
        to_lower_idem d.digest,
        to_lower_idem d.digest,
      )
      refl

matches_first :
    (cr : Crypto) (laws : DsLaws cr) (k key : Dnskey) (d : Ds) (digest : List ℕ)
    (more : List TrustAnchor)
    → cr.to_ds key sha256 ≡ some d
    → hex_decode (to_lower d.digest) ≡ some digest
    → (matches_anchor cr k (anchor_from d digest ∷ more) ≡ true)
      ↔ (SameDigest cr k key ⊎ (matches_anchor cr k more ≡ true))
unfolding matches_anchor
matches_first cr laws k key d digest more made decoded =
    let (tag, alg, kind) = laws.same_key key d made in
    elim (Option-cases (cr.to_ds k sha256)) [
      | inl n ↦ (
        λ h. inr (ground (arith, tag, alg, kind, n, h)),
        λ s. elim s [
          | inl (a, e, p, q, tags, algs, low) ↦ absurd (ground (arith, n, p))
          | inr m ↦ ground (arith, tag, alg, kind, n, m)
        ],
      )
      | inr (a, y) ↦
          let eq = equal_digests a.digest d digest decoded in
          (
            λ h.
                elim (Bool-cases (
                  cr.key_tag k == cr.key_tag key
                  && (k.algorithm == key.algorithm
                      && equal_hex_digest a.digest (hex_encode digest)))) [
                        | inl all ↦ inl (
                          a,
                          d,
                          y,
                          made,
                          ground (arith, all),
                          ground (arith, all),
                          (text_eq_iff (to_lower a.digest) (to_lower d.digest)).0
                              (sym eq ∙ ground (arith, all)),
                        )
                        | inr other ↦ inr (ground (arith, tag, alg, kind, y, h, other))
                      ],
            λ s. elim s [
              | inl (b, e, p, q, tags, algs, low) ↦
                  let first : b ≡ a = ground (arith, y, p) in
                  let second : e ≡ d = ground (arith, made, q) in
                  let digests : to_lower a.digest ≡ to_lower d.digest =
                    rw (← first, ← second) low in
                  let hit : equal_hex_digest a.digest (hex_encode digest) ≡ true =
                    eq ∙ (text_eq_iff (to_lower a.digest) (to_lower d.digest)).1 digests in
                  ground (arith, tag, alg, kind, y, tags, algs, hit)
              | inr m ↦ ground (arith, tag, alg, kind, y, m)
            ],
          )
    ]

-- A record that gives no anchor adds nothing.
passed_over :
    (cr : Crypto) (k : Dnskey) (rr : Rr) (rrs : List Rr) (P : Type 0)
    → ((key : Dnskey) → key_of_body rr.body ≡ some key → SameDigest cr k key → ⊥)
    → P ↔ InFile cr rrs k
    → P ↔ InFile cr (rr ∷ rrs) k
passed_over cr k rr rrs P misses ih = (
  λ m. let (r, key, e, b, s) = ih.0 m in (r, key, inr e, b, s),
  λ (r, key, e, b, s). elim e [
    | inl here ↦ absurd (misses key (ap (λ (z : Rr). key_of_body z.body) (sym here) ∙ b) s)
    | inr there ↦ ih.1 (r, key, there, b, s)
  ],
)

-- A record with a key adds that key.
added :
    (cr : Crypto) (k key : Dnskey) (rr : Rr) (rrs : List Rr) (P Q : Type 0)
    → key_of_body rr.body ≡ some key
    → P ↔ (SameDigest cr k key ⊎ Q)
    → Q ↔ InFile cr rrs k
    → P ↔ InFile cr (rr ∷ rrs) k
added cr k key rr rrs P Q is_key first ih = (
  λ m. elim (first.0 m) [
    | inl s ↦ (rr, key, inl refl, is_key, s)
    | inr q ↦ let (r, key', e, b, s) = ih.0 q in (r, key', inr e, b, s)
  ],
  λ (r, key', e, b, s). elim e [
    | inl here ↦
        let at : some key' ≡ some key = sym b ∙ ap (λ (z : Rr). key_of_body z.body) here ∙ is_key in
        let same : key' ≡ key = ground (arith, at) in first.1 (inl (subst (SameDigest cr k) same s))
    | inr there ↦ first.1 (inr (ih.1 (r, key', there, b, s)))
  ],
)

-- What parseRootKey makes of the records.
anchors_of-matches_anchor :
    (cr : Crypto) (laws : DsLaws cr) (k : Dnskey) (rrs : List Rr) (anchors : List TrustAnchor)
    → anchors_of cr rrs ≡ ok anchors
    → (matches_anchor cr k anchors ≡ true) ↔ InFile cr rrs k
unfolding anchors_of anchor_of_rr
anchors_of-matches_anchor cr laws k [] anchors h =
    let same : [] ≡ anchors = ground (arith, h) in
    rw (← same) (λ m. absurd (unfold matches_anchor in cc m), λ (rr, key, e, b, s). absurd e)
anchors_of-matches_anchor cr laws k (rr ∷ rrs) anchors h =
    elim (Option-cases (key_of_body rr.body)) [
      | inl other ↦
          let rest : anchors_of cr rrs ≡ ok anchors = ground (arith, other, h) in
          passed_over cr k rr rrs (matches_anchor cr k anchors ≡ true)
            (λ key b s. ground (arith, other, b))
            (anchors_of-matches_anchor cr laws k rrs anchors rest)
      | inr (key, is_key) ↦ elim (Option-cases (cr.to_ds key sha256)) [
        | inl unmade ↦
            let rest : anchors_of cr rrs ≡ ok anchors = ground (arith, is_key, unmade, h) in
            passed_over cr k rr rrs (matches_anchor cr k anchors ≡ true)
              (λ key' b (d, e, p, q, tags, algs, low). ground (arith, is_key, unmade, b, q))
              (anchors_of-matches_anchor cr laws k rrs anchors rest)
        | inr (d, made) ↦ elim (Option-cases (hex_decode (to_lower d.digest))) [
          | inl bad ↦ absurd (ground (arith, is_key, made, bad, h))
          | inr (digest, decoded) ↦ elim (Result-cases (anchors_of cr rrs)) [
            | inr (e, failed) ↦ absurd (ground (arith, is_key, made, decoded, failed, h))
            | inl (more, rest) ↦
                let same : anchor_from d digest ∷ more ≡ anchors =
                  ground (arith, is_key, made, decoded, rest, h) in
                rw (← same) (
                  added cr k key rr rrs (matches_anchor cr k (anchor_from d digest ∷ more) ≡ true)
                    (matches_anchor cr k more ≡ true) is_key
                    (matches_first cr laws k key d digest more made decoded)
                    (anchors_of-matches_anchor cr laws k rrs more rest))
          ]
        ]
      ]
    ]

-- A DNSKEY passes the check against the anchors of a root.key file exactly if the file has a DNSKEY
-- with the same key tag, algorithm and SHA-256 digest: the anchors lose nothing of the file's keys,
-- and they admit no other key. The condition is that the digest that ToDS gives is labelled as
-- documented.
pub parse_root_key-matches_anchor :
    (cr : Crypto) (laws : DsLaws cr) (k : Dnskey) (zone : ZoneFile) (anchors : List TrustAnchor)
    → parse_root_key cr zone ≡ ok anchors
    → (matches_anchor cr k anchors ≡ true) ↔ InFile cr zone.records k
unfolding parse_root_key
parse_root_key-matches_anchor cr laws k zone anchors h =
    elim (Result-cases (anchors_of cr zone.records)) [
      | inr (e, failed) ↦ absurd (ground (arith, failed, h))
      | inl (found, built) ↦
          let same : found ≡ anchors = ground (arith, built, h) in
          anchors_of-matches_anchor cr laws k zone.records anchors
            (built ∙ ap (λ (z : List TrustAnchor). ok z) same)
    ]
