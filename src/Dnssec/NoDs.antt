-- ===== src/Dnssec/NoDs.antt =====
-- What an accepted proof of internal/dnssec/nsec3.go contains, and that the walk over the enclosing
-- names has fuel enough.
use rcvd.Prelude.{
  ℕ, zero, suc, ◌+◌, ◌%◌, ◌<◌, ◌≡◌, refl, ◌⊎◌, inl, inr, Bool, true, false, ◌&&◌, some, List, [],
  ◌∷◌, arith, Bool-cases, Option-cases, Elem, any, is_empty, length, ◌==◌,
}
use rcvd.Text.{Text, text_eq}
use rcvd.Dns.{Dnskey, Nsec3, Rr, DnsLib}
use rcvd.Dnssec.{Crypto, parent_zone}
use rcvd.Dnssec.Denial.{
  verify_denial_record, is_bare_delegation, nsec3s, nsecs, matching_nsec3, encloser_from,
  closest_encloser_match, nsec3_proves_no_ds, nsec_proves_no_ds, proves_no_ds,
}

matching_nsec3-found :
    (good hit : Rr → Bool) (ns : List (Rr × Nsec3))
    → matching_nsec3 good hit ns ≡ some true
    → (x : Rr × Nsec3) × Elem x ns
      × (good x.0 ≡ true)
      × (hit x.0 ≡ true)
      × (is_bare_delegation x.1.types ≡ true)
unfolding matching_nsec3
matching_nsec3-found good hit [] h = absurd (cc h)
matching_nsec3-found good hit ((rr, n) ∷ ns) h = elim (Bool-cases (good rr)) [
  | inr bad ↦
      let (x, at, fine', hit', bare) = matching_nsec3-found good hit ns (ground (arith, bad, h)) in
      (x, inr at, fine', hit', bare)
  | inl fine ↦ elim (Bool-cases (hit rr)) [
    | inl y ↦ ((rr, n), inl refl, fine, y, ground (arith, fine, y, h))
    | inr miss ↦
        let (x, at, fine', hit', bare) =
          matching_nsec3-found good hit ns (ground (arith, fine, miss, h)) in
        (x, inr at, fine', hit', bare)
  ]
]

any-Elem :
    {A : Type 0} (p : A → Bool) (xs : List A) → any p xs ≡ true → (x : A) × Elem x xs × (p x ≡ true)
any-Elem p [] h = absurd (cc h)
any-Elem p (x ∷ xs) h = elim (Bool-cases (p x)) [
  | inl y ↦ (x, inl refl, y)
  | inr n ↦ let (z, at, y) = any-Elem p xs (ground (arith, n, h)) in (z, inr at, y)
]

nsec_proves_no_ds-found :
    (lib : DnsLib) (child : Text) (good : Rr → Bool) (ns : List (Rr × List ℕ))
    → nsec_proves_no_ds lib child ns good ≡ true
    → (x : Rr × List ℕ) × Elem x ns
      × (good x.0 ≡ true)
      × (text_eq (lib.canonical_name x.0.name) child ≡ true)
      × (is_bare_delegation x.1 ≡ true)
unfolding nsec_proves_no_ds
nsec_proves_no_ds-found lib child good [] h = absurd (cc h)
nsec_proves_no_ds-found lib child good ((rr, types) ∷ ns) h = elim (Bool-cases (good rr)) [
  | inr bad ↦
      let (x, at, fine', hit', bare) =
        nsec_proves_no_ds-found lib child good ns (ground (arith, bad, h)) in
      (x, inr at, fine', hit', bare)
  | inl fine ↦ elim (Bool-cases (text_eq (lib.canonical_name rr.name) child)) [
    | inl y ↦ ((rr, types), inl refl, fine, y, ground (arith, fine, y, h))
    | inr miss ↦
        let (x, at, fine', hit', bare) =
          nsec_proves_no_ds-found lib child good ns (ground (arith, fine, miss, h)) in
        (x, inr at, fine', hit', bare)
  ]
]

module _ (lib : DnsLib) (cr : Crypto) (authority : List Rr) (keys : List Dnskey) where
  -- The record is signed by one of the keys, in its period.
  abbrev pub IsVerified : Rr → Type 0
  IsVerified rr = verify_denial_record lib cr authority keys rr ≡ true

  -- The three shapes of a proof for a name: a matching NSEC3 of a delegation without DS; an opt-out
  -- NSEC3 that covers the name beside one that matches a name at or above it; a matching NSEC of a
  -- delegation without DS. Each record relied upon is authentic.
  abbrev pub IsAccepted : Text → Type 0
  IsAccepted name =
      ((x : Rr × Nsec3) × Elem x (nsec3s authority)
        × IsVerified x.0
        × (cr.nsec3_match x.0 name ≡ true)
        × (is_bare_delegation x.1.types ≡ true))
      ⊎ ((x y : Rr × Nsec3) × Elem x (nsec3s authority)
          × IsVerified x.0
          × (x.1.flags % 2 ≡ 1)
          × (cr.nsec3_cover x.0 name ≡ true)
          × Elem y (nsec3s authority)
          × IsVerified y.0
          × (closest_encloser_match lib cr name y.0 ≡ true))
      ⊎ ((x : Rr × List ℕ) × Elem x (nsecs authority)
          × IsVerified x.0
          × (text_eq (lib.canonical_name x.0.name) name ≡ true)
          × (is_bare_delegation x.1 ≡ true))

  nsec3_proof :
      (name : Text)
      → nsec3_proves_no_ds lib cr name
          (nsec3s authority)
          (verify_denial_record lib cr authority keys)
        ≡ true
      → IsAccepted name
  unfolding nsec3_proves_no_ds
  nsec3_proof name h =
      let good = verify_denial_record lib cr authority keys in
      elim (Option-cases (matching_nsec3 good (λ rr. cr.nsec3_match rr name) (nsec3s authority))) [
        | inr (verdict, e) ↦ inl (
            matching_nsec3-found good (λ rr. cr.nsec3_match rr name) (nsec3s authority)
              (ground (arith, e, h)))
        | inl e ↦
            let (x, at, p) =
              any-Elem
                (λ (x : Rr × Nsec3). good x.0 && (x.1.flags % 2 == 1 && cr.nsec3_cover x.0 name))
                (nsec3s authority) (ground (arith, e, h)) in
            let (y, at', q) =
              any-Elem (λ (x : Rr × Nsec3). good x.0 && closest_encloser_match lib cr name x.0)
                (nsec3s authority) (ground (arith, e, h)) in
            inr (
              inl (
                x,
                y,
                at,
                ground (arith, p),
                ground (arith, p),
                ground (arith, p),
                at',
                ground (arith, q),
                ground (arith, q),
              ))
      ]

  -- A proof that the validator accepts for a child zone has one of the three shapes for the child's
  -- name, with records of the authority section that the parent's keys sign.
  pub proves_no_ds-IsAccepted :
      (child : Text)
      → proves_no_ds lib cr child authority keys ≡ true
      → IsAccepted (lib.canonical_name child)
  unfolding proves_no_ds
  proves_no_ds-IsAccepted child h = elim (Bool-cases (is_empty (nsec3s authority))) [
    | inr hashed ↦ nsec3_proof (lib.canonical_name child) (ground (arith, hashed, h))
    | inl plain ↦ inr (
        inr (
          nsec_proves_no_ds-found lib (lib.canonical_name child)
            (verify_denial_record lib cr authority keys) (nsecs authority)
            (ground (arith, plain, h))))
  ]

-- If a parent's name is the name itself or shorter, more fuel than the name has bytes changes
-- nothing.
pub encloser_from_enough :
    (lib : DnsLib) (cr : Crypto) (rr : Rr) (fuel : ℕ) (name : Text)
    → ((n : Text)
        → text_eq (parent_zone lib cr n) n ≡ false
        → is_empty n ≡ false
        → length (parent_zone lib cr n) < length n)
    → length name < fuel
    → encloser_from lib cr rr (fuel + 1) name ≡ encloser_from lib cr rr fuel name
unfolding encloser_from
encloser_from_enough lib cr rr zero name shorter h = absurd (omega arith)
encloser_from_enough lib cr rr (suc fuel) name shorter h = elim (Bool-cases (is_empty name)) [
  | inl y ↦ ground (arith, y)
  | inr n ↦ elim (Bool-cases (text_eq (parent_zone lib cr name) name)) [
    | inl top ↦ ground (arith, n, top)
    | inr inner ↦
        let less = shorter name inner n in
        ground (
          arith,
          n,
          inner,
          encloser_from_enough lib cr rr fuel (parent_zone lib cr name) shorter
              (omega (arith, less)),
        )
  ]
]
