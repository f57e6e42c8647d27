-- ===== src/Dnssec/Anchors/InForce.antt =====
-- The anchors of the XML that are in force.
use rcvd.Prelude.{
  ℕ, ◌≤◌, ◌≡◌, refl, sym, ap, ◌∙◌, ◌↔◌, ◌⊎◌, inl, inr, true, false, not, Option, some, List, [],
  ◌∷◌, arith, ◌==◌, is_empty, keep_if, Elem, Bool-cases, Option-cases,
}
use mathlib.Core.Path.{subst}
use rcvd.Prelude.Result.{ok, Result-cases}
use rcvd.Text.{Text}
use rcvd.Dnssec.{TrustAnchor}
use rcvd.Dnssec.Anchors.{
  hex_decode, KeyDigest, until_of, is_current, anchor_of_digest, current_anchors,
  parse_root_anchors,
}

-- The anchor of an entry with that digest.
abbrev pub anchor_from : KeyDigest → List ℕ → TrustAnchor
anchor_from kd digest = record {
  key_tag = kd.key_tag;
  algorithm = kd.algorithm;
  digest_type = kd.digest_type;
  digest = digest;
}

is_current_iff :
    (now from until : ℕ)
    → (is_current now from until ≡ true) ↔ ((from ≤ now) × ((until ≡ 0) ⊎ (now ≤ until)))
is_current_iff now from until = (
  λ h. (
    ground (arith, h),
    elim (Bool-cases (until == 0)) [
      | inl z ↦ inl (ground (arith, z))
      | inr n ↦ inr (ground (arith, n, h))
    ],
  ),
  λ p. ground (arith, p),
)

module _ (parse_time : Text → Option ℕ) (now : ℕ) where
  -- The entry is in force now, and the anchor is the entry's.
  pub record IsAnchorOf (kd : KeyDigest) (a : TrustAnchor) : Type 0 where
    pub from : ℕ
    pub until : ℕ
    pub bytes : List ℕ
    pub starts : parse_time kd.valid_from ≡ some from
    pub ends : until_of parse_time kd ≡ some until
    pub begun : from ≤ now
    pub going : (until ≡ 0) ⊎ (now ≤ until)
    pub decoded : hex_decode (keep_if (λ c. not (c == 32)) kd.digest) ≡ some bytes
    pub same : a ≡ anchor_from kd bytes

  abbrev pub FromCurrent : List KeyDigest → TrustAnchor → Type 0
  FromCurrent kds a = (kd : KeyDigest) × Elem kd kds × IsAnchorOf kd a

  over :
      (kd : KeyDigest) (kds : List KeyDigest) (a : TrustAnchor) (P : Type 0)
      → (IsAnchorOf kd a → ⊥)
      → P ↔ FromCurrent kds a
      → P ↔ FromCurrent (kd ∷ kds) a
  over kd kds a P misses ih = (
    λ p. let (k, e, i) = ih.0 p in (k, inr e, i),
    λ (k, e, i). elim e [
      | inl here ↦ absurd (misses (subst (λ z. IsAnchorOf z a) here i))
      | inr there ↦ ih.1 (k, there, i)
    ],
  )

  one_more :
      (kd : KeyDigest) (kds : List KeyDigest) (a x : TrustAnchor) (more : List TrustAnchor)
      → IsAnchorOf kd x
      → (IsAnchorOf kd a → a ≡ x)
      → Elem a more ↔ FromCurrent kds a
      → Elem a (x ∷ more) ↔ FromCurrent (kd ∷ kds) a
  one_more kd kds a x more is only ih = (
    λ m. elim m [
      | inl here ↦ (kd, inl refl, subst (IsAnchorOf kd) (sym here) is)
      | inr there ↦ let (k, e, i) = ih.0 there in (k, inr e, i)
    ],
    λ (k, e, i). elim e [
      | inl here ↦ inl (only (subst (λ z. IsAnchorOf z a) here i))
      | inr there ↦ inr (ih.1 (k, there, i))
    ],
  )

  current_anchors-Elem :
      (kds : List KeyDigest) (anchors : List TrustAnchor) (a : TrustAnchor)
      → current_anchors parse_time now kds ≡ ok anchors
      → Elem a anchors ↔ FromCurrent kds a
  unfolding current_anchors anchor_of_digest
  current_anchors-Elem [] anchors a h =
      let none_left : [] ≡ anchors = ground (arith, h) in
      rw (← none_left) (λ m. absurd m, λ (k, e, i). absurd e)
  current_anchors-Elem (kd ∷ kds) anchors a h = elim (Option-cases (parse_time kd.valid_from)) [
    | inl bad ↦ absurd (ground (arith, bad, h))
    | inr (from, starts) ↦ elim (Option-cases (until_of parse_time kd)) [
      | inl bad ↦ absurd (ground (arith, starts, bad, h))
      | inr (until, ends) ↦ elim (Bool-cases (is_current now from until)) [
        | inr stale ↦
            let rest : current_anchors parse_time now kds ≡ ok anchors =
              ground (arith, starts, ends, stale, h) in
            over kd kds a (Elem a anchors)
              (λ i.
                let first : i.from ≡ from = ground (arith, starts, i.starts) in
                let last : i.until ≡ until = ground (arith, ends, i.ends) in
                ground
                  (arith, stale, (is_current_iff now from until).1, first, last, i.begun, i.going))
              (current_anchors-Elem kds anchors a rest)
        | inl current ↦ elim (Option-cases (hex_decode (keep_if (λ c. not (c == 32)) kd.digest))) [
          | inl bad ↦ absurd (ground (arith, starts, ends, current, bad, h))
          | inr (bytes, decoded) ↦ elim (Result-cases (current_anchors parse_time now kds)) [
            | inr (e, failed) ↦ absurd (ground (arith, starts, ends, current, decoded, failed, h))
            | inl (more, rest) ↦
                let built : anchor_from kd bytes ∷ more ≡ anchors =
                  ground (arith, starts, ends, current, decoded, rest, h) in
                rw (← built) (
                  one_more kd kds a (anchor_from kd bytes) more
                    (record {
                      from = from;
                      until = until;
                      bytes = bytes;
                      starts = starts;
                      ends = ends;
                      begun = ((is_current_iff now from until).0 current).0;
                      going = ((is_current_iff now from until).0 current).1;
                      decoded = decoded;
                      same = refl;
                    })
                    (λ i.
                      let eq : i.bytes ≡ bytes = ground (arith, decoded, i.decoded) in
                      i.same ∙ ap (λ (z : List ℕ). anchor_from kd z) eq)
                    (current_anchors-Elem kds more a rest))
          ]
        ]
      ]
    ]
  ]

  -- What ParseRootAnchors returns without an error is not empty, and it is exactly the anchors of the
  -- entries of the XML whose start is now or earlier and whose end is now or later, or that have no
  -- end, each with the digest as its entry spells it. So an anchor whose end lies in the past or
  -- whose start lies ahead is not trusted, no other one is lost, and one is still trusted at the very
  -- instant of its end, which a comment of the code excludes.
  pub parse_root_anchors-Elem :
      (unmarshal : Text → Option (List KeyDigest)) (content : Text) (anchors : List TrustAnchor)
      → parse_root_anchors unmarshal parse_time now content ≡ ok anchors
      → (is_empty anchors ≡ false)
        × ((kds : List KeyDigest) × (unmarshal content ≡ some kds)
            × ((a : TrustAnchor) → Elem a anchors ↔ FromCurrent kds a))
  unfolding parse_root_anchors
  parse_root_anchors-Elem unmarshal content anchors h = elim (Option-cases (unmarshal content)) [
    | inl bad ↦ absurd (ground (arith, bad, h))
    | inr (kds, parsed) ↦ elim (Result-cases (current_anchors parse_time now kds)) [
      | inr (e, failed) ↦ absurd (ground (arith, parsed, failed, h))
      | inl (found, built) ↦
          let same : found ≡ anchors = ground (arith, parsed, built, h) in
          (
            ground (arith, parsed, built, h),
            (
              kds,
              parsed,
              λ a.
                  current_anchors-Elem kds anchors a
                    (built ∙ ap (λ (z : List TrustAnchor). ok z) same),
            ),
          )
    ]
  ]
