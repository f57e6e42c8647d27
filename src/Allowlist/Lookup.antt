-- ===== src/Allowlist/Lookup.antt =====
-- Allowed against a description of what an entry covers, and what one more entry changes.
use rcvd.Prelude.{
  ◌≡◌, refl, sym, ◌↔◌, ◌⊎◌, inl, inr, true, false, [], ◌∷◌, ◌++◌, arith, Bool-cases, or_split,
  is_empty,
}
use rcvd.Text.{Text, TextSet, has, has-add_self, has-add_mono, has-add_inv}
use rcvd.Text.Split.{Below, any_parent, any_parent_sound, any_parent_complete}
use rcvd.Allowlist.{
  Allowlist, star_dot, normalize, has_none, level_allowed, allowed, Entry, exact_name,
  wildcard_name, plain_name, add_entry,
}

-- The normal name is an entry or an exact entry, or stands below an entry or a wildcard's name.
abbrev pub Allows : Allowlist → Text → Type 0
Allows a d =
    (has a.domains d ≡ true)
    ⊎ (has a.exact d ≡ true)
    ⊎ ((r : Text) × Below d r
        × ((has a.domains r ≡ true) ⊎ (has a.wildcard (star_dot ++ r) ≡ true)))

has-nonempty : (m : TextSet) (k : Text) → has m k ≡ true → is_empty m ≡ false
unfolding has
has-nonempty [] k h = cc
has-nonempty (j ∷ m) k h = refl

-- The early return for an empty list changes nothing: such a list allows no name.
Allows-has_none : (a : Allowlist) (d : Text) → Allows a d → has_none a ≡ false
unfolding has_none
Allows-has_none a d (inl h) = ground (arith, has-nonempty a.domains d h)
Allows-has_none a d (inr (inl h)) = ground (arith, has-nonempty a.exact d h)
Allows-has_none a d (inr (inr (r, below, inl h))) = ground (arith, has-nonempty a.domains r h)
Allows-has_none a d (inr (inr (r, below, inr h))) =
    ground (arith, has-nonempty a.wildcard (star_dot ++ r) h)

allowed_sound :
    (a : Allowlist) (n : Text) → allowed a n ≡ true → (is_empty n ≡ false) × Allows a (normalize n)
unfolding allowed
allowed_sound a n h = elim (Bool-cases (has a.domains (normalize n))) [
  | inl y ↦ (ground arith, inl y)
  | inr m ↦ elim (Bool-cases (has a.exact (normalize n))) [
    | inl x ↦ (ground arith, inr (inl x))
    | inr m' ↦
        let walk : any_parent (level_allowed a) (normalize n) ≡ true = ground arith in
        let (r, below, t) = any_parent_sound (level_allowed a) (normalize n) walk in
        (ground arith, inr (inr (r, below, unfold level_allowed in or_split _ _ t)))
  ]
]

allowed_complete :
    (a : Allowlist) (n : Text) → is_empty n ≡ false → Allows a (normalize n) → allowed a n ≡ true
unfolding allowed
allowed_complete a n e (inl h) = ground (arith, Allows-has_none a (normalize n) (inl h))
allowed_complete a n e (inr (inl h)) = ground (arith, Allows-has_none a (normalize n) (inr (inl h)))
allowed_complete a n e (inr (inr (r, below, t))) =
    let level : level_allowed a r ≡ true = unfold level_allowed in ground arith in
    ground (
      arith,
      any_parent_complete (level_allowed a) (normalize n) r below level,
      Allows-has_none a (normalize n) (inr (inr (r, below, t))),
    )

-- A name is allowed exactly when it is not the empty string and, in lower case and without its
-- final dot, it is a plain or an exact entry, stands below a plain entry, or stands below the name
-- of a wildcard entry. An allowlist with no entry therefore allows nothing.
pub allowed-Allows :
    (a : Allowlist) (n : Text)
    → (allowed a n ≡ true) ↔ ((is_empty n ≡ false) × Allows a (normalize n))
allowed-Allows a n = (allowed_sound a n, λ h. allowed_complete a n h.0 h.1)

-- What an entry covers among normal names: an exact entry itself and nothing below it, a plain
-- entry itself and what stands below it, a wildcard entry only what stands below its name.
abbrev pub Covers : Entry → Text → Type 0
Covers (exact_name d) n = n ≡ d
Covers (plain_name d) n = (n ≡ d) ⊎ Below n d
Covers (wildcard_name d) n = (r : Text) × (d ≡ star_dot ++ r) × Below n r

star_dot_cancel : (r q : Text) → star_dot ++ r ≡ star_dot ++ q → r ≡ q
star_dot_cancel r q h = cc

pub add_entry_sound :
    (a : Allowlist) (e : Entry) (n : Text) → Allows (add_entry a e) n → Allows a n ⊎ Covers e n
unfolding add_entry
add_entry_sound a (exact_name d) n (inl h) = inl (inl h)
add_entry_sound a (exact_name d) n (inr (inl h)) = elim (has-add_inv a.exact d n h) [
  | inl e ↦ inr e
  | inr old ↦ inl (inr (inl old))
]
add_entry_sound a (exact_name d) n (inr (inr h)) = inl (inr (inr h))
add_entry_sound a (plain_name d) n (inl h) = elim (has-add_inv a.domains d n h) [
  | inl e ↦ inr (inl e)
  | inr old ↦ inl (inl old)
]
add_entry_sound a (plain_name d) n (inr (inl h)) = inl (inr (inl h))
add_entry_sound a (plain_name d) n (inr (inr (r, below, inl h))) =
    elim (has-add_inv a.domains d r h) [
      | inl e ↦ inr (inr (rw (← e) below))
      | inr old ↦ inl (inr (inr (r, below, inl old)))
    ]
add_entry_sound a (plain_name d) n (inr (inr (r, below, inr h))) = inl (inr (inr (r, below, inr h)))
add_entry_sound a (wildcard_name d) n (inl h) = inl (inl h)
add_entry_sound a (wildcard_name d) n (inr (inl h)) = inl (inr (inl h))
add_entry_sound a (wildcard_name d) n (inr (inr (r, below, inl h))) =
    inl (inr (inr (r, below, inl h)))
add_entry_sound a (wildcard_name d) n (inr (inr (r, below, inr h))) =
    elim (has-add_inv a.wildcard d (star_dot ++ r) h) [
      | inl e ↦ inr (r, sym e, below)
      | inr old ↦ inl (inr (inr (r, below, inr old)))
    ]

pub add_entry-keeps : (a : Allowlist) (e : Entry) (n : Text) → Allows a n → Allows (add_entry a e) n
unfolding add_entry
add_entry-keeps a (exact_name d) n (inl h) = inl h
add_entry-keeps a (exact_name d) n (inr (inl h)) = inr (inl (has-add_mono a.exact d n h))
add_entry-keeps a (exact_name d) n (inr (inr h)) = inr (inr h)
add_entry-keeps a (plain_name d) n (inl h) = inl (has-add_mono a.domains d n h)
add_entry-keeps a (plain_name d) n (inr (inl h)) = inr (inl h)
add_entry-keeps a (plain_name d) n (inr (inr (r, below, inl h))) =
    inr (inr (r, below, inl (has-add_mono a.domains d r h)))
add_entry-keeps a (plain_name d) n (inr (inr (r, below, inr h))) = inr (inr (r, below, inr h))
add_entry-keeps a (wildcard_name d) n (inl h) = inl h
add_entry-keeps a (wildcard_name d) n (inr (inl h)) = inr (inl h)
add_entry-keeps a (wildcard_name d) n (inr (inr (r, below, inl h))) = inr (inr (r, below, inl h))
add_entry-keeps a (wildcard_name d) n (inr (inr (r, below, inr h))) =
    inr (inr (r, below, inr (has-add_mono a.wildcard d (star_dot ++ r) h)))

pub add_entry-Covers :
    (a : Allowlist) (e : Entry) (n : Text) → Covers e n → Allows (add_entry a e) n
unfolding add_entry
add_entry-Covers a (exact_name d) n c = inr (inl (rw c (has-add_self a.exact d)))
add_entry-Covers a (plain_name d) n (inl c) = inl (rw c (has-add_self a.domains d))
add_entry-Covers a (plain_name d) n (inr below) =
    inr (inr (d, below, inl (has-add_self a.domains d)))
add_entry-Covers a (wildcard_name d) n (r, e, below) =
    inr (inr (r, below, inr (rw (← e) (has-add_self a.wildcard d))))
