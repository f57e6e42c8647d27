-- ===== src/Dnssec/Denied.antt =====
-- The proofs of internal/dnssec/nsec3.go in the words of the records: bitmaps, signatures and enclosing
-- names.
use rcvd.Prelude.{
  ℕ, zero, suc, ◌+◌, ◌%◌, ◌≡◌, refl, sym, ◌↔◌, ◌⊎◌, inl, inr, Bool, true, not, ◌||◌, some, none,
  List, [], ◌∷◌, arith, Bool-cases, Option, Option-cases, Elem, keep_if, length, ◌==◌,
}
use mathlib.Core.Path.{subst}
use rcvd.Text.{Text, text_eq, text_eq_iff}
use rcvd.Dns.{Dnskey, Nsec3, Rr, DnsLib}
use rcvd.Dnssec.{
  Sig, Crypto, VerifyError, Outcome, verified, rejected, bitmap_has, verify_keys, verify_sigs,
  verify_rrset_with_key_set, sigs_for, parent_zone,
}
use rcvd.Dnssec.Denial.{
  verify_denial_record, covering, is_verified, is_bare_delegation, nsec3s, nsecs, encloser_from,
  closest_encloser_match, proves_no_ds,
}
use rcvd.Dnssec.NoDs.{proves_no_ds-IsAccepted}

-- The types at a delegation without DS: NS (2), but neither DS (43) nor SOA (6).
abbrev pub IsBare : List ℕ → Type 0
IsBare types = Elem 2 types × (Elem 43 types → ⊥) × (Elem 6 types → ⊥)

bitmap_has-Elem : (types : List ℕ) (t : ℕ) → (bitmap_has types t ≡ true) ↔ Elem t types
unfolding bitmap_has
bitmap_has-Elem [] t = (λ h. absurd (cc h), λ e. absurd e)
bitmap_has-Elem (b ∷ types) t = (
  λ h. elim (Bool-cases (b == t)) [
    | inl here ↦ inl (ground (arith, here))
    | inr other ↦ inr ((bitmap_has-Elem types t).0 (ground (arith, other, h)))
  ],
  λ e. elim e [
    | inl here ↦ ground (arith, here)
    | inr there ↦ ground (arith, (bitmap_has-Elem types t).1 there)
  ],
)

is_bare_delegation-IsBare : (types : List ℕ) → is_bare_delegation types ≡ true → IsBare types
unfolding is_bare_delegation
is_bare_delegation-IsBare types h = (
  (bitmap_has-Elem types 2).0 (ground (arith, h)),
  λ e. ground (arith, h, (bitmap_has-Elem types 43).1 e),
  λ e. ground (arith, h, (bitmap_has-Elem types 6).1 e),
)

-- A name that is reached from another by going to the parent some times.
abbrev pub up : DnsLib → Crypto → ℕ → Text → Text
up lib cr zero name = name
up lib cr (suc n) name = up lib cr n (parent_zone lib cr name)

encloser_from-up :
    (lib : DnsLib) (cr : Crypto) (rr : Rr) (fuel : ℕ) (name : Text)
    → encloser_from lib cr rr fuel name ≡ true
    → (n : ℕ) × (cr.nsec3_match rr (up lib cr n name) ≡ true)
unfolding encloser_from
encloser_from-up lib cr rr zero name h = absurd (cc h)
encloser_from-up lib cr rr (suc fuel) name h = elim (Bool-cases (cr.nsec3_match rr name)) [
  | inl y ↦ (0, y)
  | inr n ↦
      let (k, y) =
        encloser_from-up lib cr rr fuel (parent_zone lib cr name) (ground (arith, n, h)) in
      (suc k, y)
]

Elem-keep_if :
    {A : Type 0} (p : A → Bool) (xs : List A) (x : A)
    → Elem x (keep_if p xs)
    → Elem x xs × (p x ≡ true)
Elem-keep_if p [] x e = absurd e
Elem-keep_if p (y ∷ xs) x e = elim (Bool-cases (p y)) [
  | inl keep ↦ elim (rw keep at e) [
    | inl here ↦ (inl here, subst (λ z. p z ≡ true) (sym here) keep)
    | inr there ↦ let (at, holds) = Elem-keep_if p xs x there in (inr at, holds)
  ]
  | inr drop ↦ let (at, holds) = Elem-keep_if p xs x (rw drop at e) in (inr at, holds)
]

verified_or : (o : Outcome) → (o ≡ verified) ⊎ ((e : Option VerifyError) × (o ≡ rejected e))
verified_or verified = inl refl
verified_or (rejected e) = inr (e, refl)

is_verified_inv : (o : Outcome) → is_verified o ≡ true → o ≡ verified
unfolding is_verified
is_verified_inv verified h = refl
is_verified_inv (rejected e) h = absurd (cc h)

module _ (lib : DnsLib) (cr : Crypto) (authority : List Rr) (keys : List Dnskey) where
  -- A signature of the authority section by the owner of the record, over its type and in its period,
  -- and a key with its tag and algorithm that verifies it for the record.
  pub record IsAuthentic (rr : Rr) : Type 0 where
    pub signature : Sig
    pub signer : Dnskey
    pub present : Elem signature (sigs_for rr.rrtype authority)
    pub own : lib.canonical_name signature.owner ≡ lib.canonical_name rr.name
    pub timely : cr.in_period signature ≡ true
    pub known : Elem signer keys
    pub tag : cr.key_tag signer ≡ signature.sig.key_tag
    pub algorithm : signer.algorithm ≡ signature.sig.algorithm
    pub verifies : cr.verify signature signer (rr ∷ []) ≡ none

  verify_keys-verified :
      (rrset : List Rr) (s : Sig) (last : Option VerifyError) (ks : List Dnskey)
      → verify_keys cr rrset s last ks ≡ verified
      → (k : Dnskey) × Elem k ks
        × (cr.key_tag k ≡ s.sig.key_tag)
        × (k.algorithm ≡ s.sig.algorithm)
        × (cr.verify s k rrset ≡ none)
  unfolding verify_keys
  verify_keys-verified rrset s last [] h = absurd (cc h)
  verify_keys-verified rrset s last (k ∷ ks) h =
      elim (Bool-cases
        (not (cr.key_tag k == s.sig.key_tag) || not (k.algorithm == s.sig.algorithm))) [
          | inl other ↦
              let (j, at, t, a, v) =
                verify_keys-verified rrset s last ks (ground (arith, other, h)) in
              (j, inr at, t, a, v)
          | inr same ↦ elim (Option-cases (cr.verify s k rrset)) [
            | inl y ↦ (k, inl refl, ground (arith, same), ground (arith, same), y)
            | inr (e, n) ↦
                let (j, at, t, a, v) =
                  verify_keys-verified rrset s (some e) ks (ground (arith, same, n, h)) in
                (j, inr at, t, a, v)
          ]
        ]

  verify_sigs-verified :
      (rrset : List Rr) (last : Option VerifyError) (sigs : List Sig)
      → verify_sigs cr rrset keys last sigs ≡ verified
      → (s : Sig) × (k : Dnskey) × Elem s sigs
        × (cr.in_period s ≡ true)
        × Elem k keys
        × (cr.key_tag k ≡ s.sig.key_tag)
        × (k.algorithm ≡ s.sig.algorithm)
        × (cr.verify s k rrset ≡ none)
  unfolding verify_sigs
  verify_sigs-verified rrset last [] h = absurd (cc h)
  verify_sigs-verified rrset last (s ∷ sigs) h = elim (Bool-cases (cr.in_period s)) [
    | inr late ↦
        let (t, k, at, now, j, g, a, v) =
          verify_sigs-verified rrset last sigs (ground (arith, late, h)) in
        (t, k, inr at, now, j, g, a, v)
    | inl timely ↦ elim (verified_or (verify_keys cr rrset s last keys)) [
      | inl y ↦
          let (k, at, g, a, v) = verify_keys-verified rrset s last keys y in
          (s, k, inl refl, timely, at, g, a, v)
      | inr (e, n) ↦
          let (t, k, at, now, j, g, a, v) =
            verify_sigs-verified rrset e sigs (ground (arith, timely, n, h)) in
          (t, k, inr at, now, j, g, a, v)
    ]
  ]

  verify_denial_record-IsAuthentic :
      (rr : Rr) → verify_denial_record lib cr authority keys rr ≡ true → IsAuthentic rr
  unfolding verify_denial_record verify_rrset_with_key_set covering
  verify_denial_record-IsAuthentic rr h =
      let sigs = sigs_for rr.rrtype authority in
      let own : Sig → Bool =
        λ s. text_eq (lib.canonical_name s.owner) (lib.canonical_name rr.name) in
      let (s, k, at, timely, known, tag, algorithm, verifies) =
        verify_sigs-verified (rr ∷ []) none (keep_if own sigs)
          (is_verified_inv (verify_sigs cr (rr ∷ []) keys none (keep_if own sigs)) h) in
      let (present, same) = Elem-keep_if own sigs s at in
      record {
        signature = s;
        signer = k;
        present = present;
        own = (text_eq_iff (lib.canonical_name s.owner) (lib.canonical_name rr.name)).0 same;
        timely = timely;
        known = known;
        tag = tag;
        algorithm = algorithm;
        verifies = verifies;
      }

  -- The three shapes of a proof for a name: an NSEC3 that matches it, with the types of a delegation
  -- without DS; an opt-out NSEC3 that covers it beside one that matches it or an enclosing name; an
  -- NSEC at it, with such types. Each record relied upon is authentic.
  abbrev pub NoDsProof : Text → Type 0
  NoDsProof name =
      ((x : Rr × Nsec3) × Elem x (nsec3s authority)
        × IsAuthentic x.0
        × (cr.nsec3_match x.0 name ≡ true)
        × IsBare x.1.types)
      ⊎ ((x : Rr × Nsec3) × (y : Rr × Nsec3) × Elem x (nsec3s authority)
          × IsAuthentic x.0
          × (x.1.flags % 2 ≡ 1)
          × (cr.nsec3_cover x.0 name ≡ true)
          × Elem y (nsec3s authority)
          × IsAuthentic y.0
          × ((n : ℕ) × (cr.nsec3_match y.0 (up lib cr n (lib.canonical_name name)) ≡ true)))
      ⊎ ((x : Rr × List ℕ) × Elem x (nsecs authority)
          × IsAuthentic x.0
          × (lib.canonical_name x.0.name ≡ name)
          × IsBare x.1)

  -- A proof that the validator accepts for a child zone has one of the three shapes for the child's
  -- name: where a record at the name itself is relied upon, its bitmap has NS and neither DS nor SOA;
  -- the opt-out shape relies on no bitmap. Every record has a signature by its owner, in its period,
  -- that one of the parent's keys verifies.
  pub proves_no_ds-NoDsProof :
      (child : Text)
      → proves_no_ds lib cr child authority keys ≡ true
      → NoDsProof (lib.canonical_name child)
  unfolding closest_encloser_match
  proves_no_ds-NoDsProof child h =
      let name = lib.canonical_name child in
      elim (proves_no_ds-IsAccepted lib cr authority keys child h) [
        | inl (x, at, good, hit, bare) ↦ inl (
          x,
          at,
          verify_denial_record-IsAuthentic x.0 good,
          hit,
          is_bare_delegation-IsBare x.1.types bare,
        )
        | inr (inl (x, y, at, good, opt_out, cover, at', good', above)) ↦ inr (
            inl (
              x,
              y,
              at,
              verify_denial_record-IsAuthentic x.0 good,
              opt_out,
              cover,
              at',
              verify_denial_record-IsAuthentic y.0 good',
              encloser_from-up lib cr y.0 (length (lib.canonical_name name) + 1)
                  (lib.canonical_name name) above,
            ))
        | inr (inr (x, at, good, hit, bare)) ↦ inr (
            inr (
              x,
              at,
              verify_denial_record-IsAuthentic x.0 good,
              (text_eq_iff (lib.canonical_name x.0.name) name).0 hit,
              is_bare_delegation-IsBare x.1 bare,
            ))
      ]
