-- ===== src/Blocklist/Lookup.antt =====
-- IsBlocked against a description of what an entry covers, and what Add changes.
use rcvd.Prelude.{◌≡◌, ◌↔◌, ◌⊎◌, inl, inr, true, false, ◌++◌, arith, Bool-cases, or_split}
use rcvd.Text.{Text, has}
use rcvd.Text.Affix.{has_prefix}
use rcvd.Text.Split.{Below, any_parent, any_parent_sound, any_parent_complete}
use rcvd.Blocklist.{Sets, Blocklist, star_dot, normalize, level_blocked, is_blocked}

-- The name is listed, or it stands below a listed name or below a wildcard's name.
abbrev pub Blocks : Sets → Text → Type 0
Blocks s d =
    (has s.domains d ≡ true)
    ⊎ ((r : Text) × Below d r
        × ((has s.domains r ≡ true) ⊎ (has s.wildcard (star_dot ++ r) ≡ true)))

blocked_sound :
    (b : Blocklist) (n : Text)
    → is_blocked b n ≡ true
    → (b.enabled ≡ true) × Blocks b.sets (normalize n)
unfolding is_blocked
blocked_sound b n h = elim (Bool-cases (has b.domains (normalize n))) [
  | inl y ↦ (ground arith, inl y)
  | inr m ↦
      let walk : any_parent (level_blocked b.sets) (normalize n) ≡ true = ground arith in
      let (r, below, t) = any_parent_sound (level_blocked b.sets) (normalize n) walk in
      (ground arith, inr (r, below, unfold level_blocked in or_split _ _ t))
]

blocked_complete :
    (b : Blocklist) (n : Text)
    → b.enabled ≡ true
    → Blocks b.sets (normalize n)
    → is_blocked b n ≡ true
unfolding is_blocked
blocked_complete b n on (inl y) = ground arith
blocked_complete b n on (inr (r, below, t)) =
    let level : level_blocked b.sets r ≡ true = unfold level_blocked in ground arith in
    ground (arith, any_parent_complete (level_blocked b.sets) (normalize n) r below level)

-- A name is blocked exactly when the list is enabled and, in lower case and without its final
-- dot, the name is an entry, stands below an entry, or stands below the name of a wildcard entry.
pub is_blocked-Blocks :
    (b : Blocklist) (n : Text)
    → (is_blocked b n ≡ true) ↔ ((b.enabled ≡ true) × Blocks b.sets (normalize n))
is_blocked-Blocks b n = (blocked_sound b n, λ h. blocked_complete b n h.0 h.1)

-- What one entry, in normal form, covers among normal names.
abbrev pub Covers : Text → Text → Type 0
Covers e n =
    ((r : Text) × (e ≡ star_dot ++ r) × Below n r)
    ⊎ ((has_prefix e star_dot ≡ false) × ((n ≡ e) ⊎ Below n e))
