-- ===== src/Blocklist/Adding.antt =====
-- What one more entry, or a list of them, changes for the lookups.
use rcvd.Prelude.{◌≡◌, refl, ◌↔◌, ◌⊎◌, inl, inr, true, false, List, [], ◌∷◌, ◌++◌}
use rcvd.Text.{Text, add, has-add_self, has-add_mono, has-add_inv, to_lower, to_lower_idem}
use rcvd.Text.Affix.{
  has_prefix, has_prefix-cases, has_prefix-append, trim_suffix, trim_suffix-append,
  to_lower-trim_suffix,
}
use rcvd.Blocklist.{Sets, Blocklist, dot, star_dot, normalize, is_blocked, add_entry, add_domain}
use rcvd.Blocklist.Lookup.{Blocks, Covers, is_blocked-Blocks}

-- The two shapes of `add_entry`.
add_entry_plain :
    (s : Sets) (e : Text)
    → has_prefix (normalize e) star_dot ≡ false
    → add_entry s e ≡ record s { domains = add s.domains (normalize e) }
unfolding add_entry
add_entry_plain s e h = rw h

add_entry_wild :
    (s : Sets) (e r : Text)
    → normalize e ≡ star_dot ++ r
    → add_entry s e ≡ record s { wildcard = add s.wildcard (star_dot ++ r) }
unfolding add_entry
add_entry_wild s e r h = rw (h, has_prefix-append star_dot r)

star_dot_cancel : (r q : Text) → star_dot ++ r ≡ star_dot ++ q → r ≡ q
star_dot_cancel r q h = cc

plain_sound :
    (s : Sets) (d n : Text)
    → has_prefix d star_dot ≡ false
    → Blocks (record s { domains = add s.domains d }) n
    → Blocks s n ⊎ Covers d n
plain_sound s d n p (inl h) = elim (has-add_inv s.domains d n h) [
  | inl e ↦ inr (inr (p, inl e))
  | inr old ↦ inl (inl old)
]
plain_sound s d n p (inr (r, below, inl h)) = elim (has-add_inv s.domains d r h) [
  | inl e ↦ inr (inr (p, inr (rw (← e) below)))
  | inr old ↦ inl (inr (r, below, inl old))
]
plain_sound s d n p (inr (r, below, inr h)) = inl (inr (r, below, inr h))

wild_sound :
    (s : Sets) (q n : Text)
    → Blocks (record s { wildcard = add s.wildcard (star_dot ++ q) }) n
    → Blocks s n ⊎ Covers (star_dot ++ q) n
wild_sound s q n (inl h) = inl (inl h)
wild_sound s q n (inr (r, below, inl h)) = inl (inr (r, below, inl h))
wild_sound s q n (inr (r, below, inr h)) =
    elim (has-add_inv s.wildcard (star_dot ++ q) (star_dot ++ r) h) [
      | inl e ↦ inr (inl (q, refl, rw (← star_dot_cancel r q e) below))
      | inr old ↦ inl (inr (r, below, inr old))
    ]

-- An entry is only ever added.
plain_keeps :
    (s : Sets) (d n : Text) → Blocks s n → Blocks (record s { domains = add s.domains d }) n
plain_keeps s d n (inl h) = inl (has-add_mono s.domains d n h)
plain_keeps s d n (inr (r, below, inl h)) = inr (r, below, inl (has-add_mono s.domains d r h))
plain_keeps s d n (inr (r, below, inr h)) = inr (r, below, inr h)

wild_keeps :
    (s : Sets) (d n : Text) → Blocks s n → Blocks (record s { wildcard = add s.wildcard d }) n
wild_keeps s d n (inl h) = inl h
wild_keeps s d n (inr (r, below, inl h)) = inr (r, below, inl h)
wild_keeps s d n (inr (r, below, inr h)) =
    inr (r, below, inr (has-add_mono s.wildcard d (star_dot ++ r) h))

not_prefixed : (r : Text) → has_prefix (star_dot ++ r) star_dot ≡ false → ⊥
not_prefixed r h = cc (has_prefix-append star_dot r)

plain-Covers :
    (s : Sets) (d n : Text)
    → has_prefix d star_dot ≡ false
    → Covers d n
    → Blocks (record s { domains = add s.domains d }) n
plain-Covers s d n p (inl (r, e, below)) = absurd (not_prefixed r (rw (← e) p))
plain-Covers s d n p (inr (_, inl e)) = inl (rw e (has-add_self s.domains d))
plain-Covers s d n p (inr (_, inr below)) = inr (d, below, inl (has-add_self s.domains d))

wild-Covers :
    (s : Sets) (q n : Text)
    → Covers (star_dot ++ q) n
    → Blocks (record s { wildcard = add s.wildcard (star_dot ++ q) }) n
wild-Covers s q n (inl (r, e, below)) =
    inr (q, rw (star_dot_cancel q r e) below, inr (has-add_self s.wildcard (star_dot ++ q)))
wild-Covers s q n (inr (p, _)) = absurd (not_prefixed q p)

add_entry_sound :
    (s : Sets) (e n : Text) → Blocks (add_entry s e) n → Blocks s n ⊎ Covers (normalize e) n
add_entry_sound s e n h = elim (has_prefix-cases (normalize e) star_dot) [
  | inl p ↦ plain_sound s (normalize e) n p (rw (add_entry_plain s e p) at h)
  | inr (r, q) ↦ rw q (wild_sound s r n (rw (add_entry_wild s e r q) at h))
]

add_entry-keeps : (s : Sets) (e n : Text) → Blocks s n → Blocks (add_entry s e) n
add_entry-keeps s e n h = elim (has_prefix-cases (normalize e) star_dot) [
  | inl p ↦ rw (add_entry_plain s e p) (plain_keeps s (normalize e) n h)
  | inr (r, q) ↦ rw (add_entry_wild s e r q) (wild_keeps s (star_dot ++ r) n h)
]

add_entry-Covers : (s : Sets) (e n : Text) → Covers (normalize e) n → Blocks (add_entry s e) n
add_entry-Covers s e n c = elim (has_prefix-cases (normalize e) star_dot) [
  | inl p ↦ rw (add_entry_plain s e p) (plain-Covers s (normalize e) n p c)
  | inr (r, q) ↦ rw (add_entry_wild s e r q) (wild-Covers s r n (rw q at c))
]

-- On an enabled list, a name is blocked after Add exactly when it was blocked before, or the new
-- entry covers it: itself and the names below it for a plain entry, only the names below it for a
-- wildcard entry.
pub is_blocked-add_domain :
    (b : Blocklist) (e n : Text)
    → b.enabled ≡ true
    → (is_blocked (add_domain b e) n ≡ true)
      ↔ ((is_blocked b n ≡ true) ⊎ Covers (normalize e) (normalize n))
unfolding add_domain
is_blocked-add_domain b e n on = (there, back)
  where
    added : Blocklist
    added = record b { sets = add_entry b.sets e }

    there : is_blocked added n ≡ true → (is_blocked b n ≡ true) ⊎ Covers (normalize e) (normalize n)
    there h = elim (add_entry_sound b.sets e (normalize n) ((is_blocked-Blocks added n).0 h).1) [
      | inl old ↦ inl ((is_blocked-Blocks b n).1 (on, old))
      | inr c ↦ inr c
    ]

    back : (is_blocked b n ≡ true) ⊎ Covers (normalize e) (normalize n) → is_blocked added n ≡ true
    back = elim [
      | inl h ↦
          (is_blocked-Blocks added n).1
            (on, add_entry-keeps b.sets e (normalize n) ((is_blocked-Blocks b n).0 h).1)
      | inr c ↦ (is_blocked-Blocks added n).1 (on, add_entry-Covers b.sets e (normalize n) c)
    ]

-- Entries one after the other.
unfoldable pub add_entries : Sets → List Text → Sets
add_entries s [] = s
add_entries s (e ∷ es) = add_entries (add_entry s e) es

abbrev pub CoveredBy : List Text → Text → Type 0
CoveredBy [] n = ⊥
CoveredBy (e ∷ es) n = Covers (normalize e) n ⊎ CoveredBy es n

pub add_entries_sound :
    (s : Sets) (es : List Text) (n : Text)
    → Blocks (add_entries s es) n
    → Blocks s n ⊎ CoveredBy es n
unfolding add_entries
add_entries_sound s [] n h = inl h
add_entries_sound s (e ∷ es) n h = elim (add_entries_sound (add_entry s e) es n h) [
  | inr c ↦ inr (inr c)
  | inl g ↦ elim (add_entry_sound s e n g) [ inl o ↦ inl o | inr c ↦ inr (inl c) ]
]

pub add_entries-keeps :
    (s : Sets) (es : List Text) (n : Text) → Blocks s n → Blocks (add_entries s es) n
unfolding add_entries
add_entries-keeps s [] n h = h
add_entries-keeps s (e ∷ es) n h = add_entries-keeps (add_entry s e) es n (add_entry-keeps s e n h)

pub add_entries-covers :
    (s : Sets) (es : List Text) (n : Text) → CoveredBy es n → Blocks (add_entries s es) n
unfolding add_entries
add_entries-covers s (e ∷ es) n (inl c) =
    add_entries-keeps (add_entry s e) es n (add_entry-Covers s e n c)
add_entries-covers s (e ∷ es) n (inr c) = add_entries-covers (add_entry s e) es n c
add_entries-covers s [] n c = absurd c

-- The normal form does not see case.
pub normalize-to_lower : (n : Text) → normalize (to_lower n) ≡ normalize n
unfolding normalize
normalize-to_lower n = rw (← to_lower-trim_suffix n, to_lower_idem)

-- Matching sees neither the case of the query's name nor the final dot of a fully qualified name.
pub is_blocked_spelling :
    (b : Blocklist) (n : Text)
    → (is_blocked b (to_lower n) ≡ is_blocked b n)
      × (trim_suffix n dot ≡ n → is_blocked b (n ++ dot) ≡ is_blocked b n)
unfolding is_blocked
is_blocked_spelling b n = (rw normalize-to_lower, λ h. rw (fully n h))
  where
    fully : (n : Text) → trim_suffix n dot ≡ n → normalize (n ++ dot) ≡ normalize n
    fully n h = unfold normalize in rw (trim_suffix-append n b'.', h)
