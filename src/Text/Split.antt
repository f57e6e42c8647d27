-- ===== src/Text/Split.antt =====
-- strings.Split at a byte and strings.Join, and the walk over the parents of a domain name that
-- blocklist and allowlist make by them: the joined tails of the split name are the rests of the
-- name behind each dot.
use rcvd.Prelude.{
  ℕ, ◌≡◌, refl, ap, Bool, true, false, ◌||◌, inl, inr, List, [], ◌∷◌, ◌++◌, arith, ◌==◌, ==_iff,
  any, if◌then◌else◌, Bool-cases,
}
use rcvd.Text.{Text}

-- The first part of a split gets one more byte.
abbrev grow : ℕ → List Text → List Text
grow c [] = (c ∷ []) ∷ []
grow c (p ∷ ps) = (c ∷ p) ∷ ps

-- strings.Split(s, sep)
unfoldable pub split : ℕ → Text → List Text
split sep [] = [] ∷ []
split sep (c ∷ s) = let rest = split sep s in if c == sep then [] ∷ rest else grow c rest

-- strings.Join(parts, sep)
unfoldable pub join : ℕ → List Text → Text
join sep [] = []
join sep (p ∷ []) = p
join sep (p ∷ q ∷ ps) = p ++ sep ∷ join sep (q ∷ ps)

-- for i := 1; i < len(parts); i++ { test(strings.Join(parts[i:], sep)) }, from `i` on.
unfoldable pub any_tail : ℕ → (Text → Bool) → List Text → Bool
unfolding join
any_tail sep test [] = false
any_tail sep test (p ∷ ps) = test (join sep (p ∷ ps)) || any_tail sep test ps

-- parts[1:]
abbrev pub rest_of : List Text → List Text
rest_of [] = []
rest_of (p ∷ ps) = ps

-- The loop of the two filters.
unfoldable pub any_parent : (Text → Bool) → Text → Bool
unfolding split any_tail
any_parent test s = any_tail b'.' test (rest_of (split b'.' s))

-- What the walk amounts to: the rests behind each separator.
pub rests : ℕ → Text → List Text
rests sep [] = []
rests sep (c ∷ s) = let r = rests sep s in if c == sep then s ∷ r else r

split_cons : (sep : ℕ) (s : Text) → (p : Text) × (ps : List Text) × (split sep s ≡ p ∷ ps)
unfolding split
split_cons sep [] = ([], [], refl)
split_cons sep (c ∷ s) =
    let (p, ps, e) = split_cons sep s in
    elim (Bool-cases (c == sep)) [
      | inl y ↦ ([], split sep s, rw (y))
      | inr n ↦ (c ∷ p, ps, rw (n, e))
    ]

join-grow : (sep c : ℕ) (ps : List Text) → join sep (grow c ps) ≡ c ∷ join sep ps
unfolding join
join-grow sep c [] = refl
join-grow sep c (p ∷ []) = refl
join-grow sep c (p ∷ q ∷ ps) = refl

join-nil_cons :
    (sep : ℕ) (p : Text) (ps : List Text) → join sep ([] ∷ p ∷ ps) ≡ sep ∷ join sep (p ∷ ps)
unfolding join
join-nil_cons sep p ps = refl

-- Joining the parts at the separator gives the text back.
pub join-split : (sep : ℕ) (s : Text) → join sep (split sep s) ≡ s
unfolding split
join-split sep [] = unfold join in refl
join-split sep (c ∷ s) =
    let (p, ps, e) = split_cons sep s in
    let back : join sep (p ∷ ps) ≡ s = rw (← e) (join-split sep s) in
    elim (Bool-cases (c == sep)) [
      | inl y ↦ rw (y, e, join-nil_cons, back) (ground (arith, ==_iff c sep))
      | inr n ↦ rw (n, join-grow, join-split sep s)
    ]

rest_of-grow : (c : ℕ) (p : Text) (ps : List Text) → rest_of (grow c (p ∷ ps)) ≡ ps
rest_of-grow c p ps = refl

any_tail-split :
    (sep : ℕ) (test : Text → Bool) (s : Text)
    → any_tail sep test (rest_of (split sep s)) ≡ any test (rests sep s)
unfolding split rests any_tail
any_tail-split sep test [] = refl
any_tail-split sep test (c ∷ s) =
    let (p, ps, e) = split_cons sep s in
    let ih : any_tail sep test ps ≡ any test (rests sep s) = rw e at (any_tail-split sep test s) in
    let back : join sep (p ∷ ps) ≡ s = rw (← e) (join-split sep s) in
    elim (Bool-cases (c == sep)) [ inl y ↦ rw (y, e, back, ih) | inr n ↦ rw (n, e, ih) ]

-- The walk tests exactly the rests behind the dots.
any_parent-rests : (test : Text → Bool) (s : Text) → any_parent test s ≡ any test (rests b'.' s)
unfolding any_parent
any_parent-rests test s = any_tail-split b'.' test s

any-rests_sound :
    (sep : ℕ) (test : Text → Bool) (s : Text)
    → any test (rests sep s) ≡ true
    → (p : Text) × (r : Text) × (s ≡ p ++ sep ∷ r) × (test r ≡ true)
unfolding rests
any-rests_sound sep test [] h = cc
any-rests_sound sep test (c ∷ s) h = elim (Bool-cases (c == sep)) [
  | inl y ↦ elim (Bool-cases (test s)) [
    | inl t ↦ ([], s, ground (arith, ==_iff c sep), t)
    | inr f ↦
        let (p, r, e, t) = any-rests_sound sep test s (ground arith) in (c ∷ p, r, ap (◌∷◌ c) e, t)
  ]
  | inr n ↦
      let (p, r, e, t) = any-rests_sound sep test s (ground arith) in (c ∷ p, r, ap (◌∷◌ c) e, t)
]

any-rests_complete :
    (sep : ℕ) (test : Text → Bool) (p r : Text)
    → test r ≡ true
    → any test (rests sep (p ++ sep ∷ r)) ≡ true
unfolding rests
any-rests_complete sep test [] r t = ground (arith, ==_iff sep sep)
any-rests_complete sep test (c ∷ p) r t = ground (arith, any-rests_complete sep test p r t)

-- `r` is a proper parent of the name `s`: `s` is some labels, a dot, and `r`.
abbrev pub Below : Text → Text → Type 0
Below s r = (p : Text) × (s ≡ p ++ b'.' ∷ r)

-- The walk finds a parent exactly when one passes the test.
pub any_parent_sound :
    (test : Text → Bool) (s : Text)
    → any_parent test s ≡ true
    → (r : Text) × Below s r × (test r ≡ true)
any_parent_sound test s h =
    let (p, r, e, t) = any-rests_sound b'.' test s (rw (← any_parent-rests test s) h) in
    (r, (p, e), t)

pub any_parent_complete :
    (test : Text → Bool) (s r : Text) → Below s r → test r ≡ true → any_parent test s ≡ true
any_parent_complete test s r (p, e) t =
    rw any_parent-rests (rw e (any-rests_complete b'.' test p r t))
