-- ===== src/Blocklist/Loading.antt =====
-- What the loaders put into the live set, and what a reload replaces.
use rcvd.Prelude.{
  ℕ, ◌+◌, ◌≡◌, refl, ◌↔◌, inl, inr, Bool, true, not, ◌||◌, Option, none, some, List, [], ◌∷◌, ◌++◌,
  arith, length, is_empty, keep_if, if◌then◌else◌, Bool-cases, Option-cases,
}
use rcvd.Text.{Text, codes, has}
use rcvd.Text.Affix.{has_prefix}
use rcvd.Text.Fields.{Lines, trim_space, fields}
use rcvd.Blocklist.{
  Sets, Blocklist, no_sets, normalize, is_blocked, add_entry, is_valid_hostname, Scan, scan_name,
  scan_names, line_names, scan_line, scan_lines, scan_into,
}
use rcvd.Blocklist.Sources.{ReloadResult, no_reload, reload_each, replace_from_files}
use rcvd.Blocklist.Lookup.{Blocks, is_blocked-Blocks}
use rcvd.Blocklist.Adding.{add_entries, CoveredBy, add_entries_sound, add_entries-covers}

add_entries-append :
    (s : Sets) (es fs : List Text) → add_entries s (es ++ fs) ≡ add_entries (add_entries s es) fs
unfolding add_entries
add_entries-append s [] fs = refl
add_entries-append s (e ∷ es) fs = add_entries-append (add_entry s e) es fs

-- The valid names of a line: what a reader of the file would say it lists.
pub listed : (Text → Bool) → Text → List Text
listed is_ip raw =
    let line = trim_space raw in
    if is_empty line || has_prefix line (codes "#")
    then []
    else elim (line_names is_ip (fields line)) [
      | some names ↦ keep_if is_valid_hostname names
      | none ↦ []
    ]

pub listed_in : (Text → Bool) → List Text → List Text
unfolding listed
listed_in is_ip [] = []
listed_in is_ip (l ∷ ls) = listed is_ip l ++ listed_in is_ip ls

module _ (is_ip : Text → Bool) where
  scan_names-found :
      (st : Scan) (ds : List Text)
      → (scan_names st ds).found ≡ add_entries st.found (keep_if is_valid_hostname ds)
  unfolding scan_names scan_name add_entries
  scan_names-found st [] = refl
  scan_names-found st (d ∷ ds) =
      rw (scan_names-found (scan_name st d) ds)
        (elim (Bool-cases (is_valid_hostname d)) [ inl y ↦ rw y | inr n ↦ rw n ])

  scan_line-found :
      (st : Scan) (l : Text) → (scan_line is_ip st l).found ≡ add_entries st.found (listed is_ip l)
  unfolding scan_line listed add_entries
  scan_line-found st l =
      elim (Bool-cases (is_empty (trim_space l) || has_prefix (trim_space l) (codes "#"))) [
        | inl y ↦ rw y
        | inr n ↦ elim (Option-cases (line_names is_ip (fields (trim_space l)))) [
          | inl e ↦ rw (n, e)
          | inr (names, e) ↦ rw (n, e) (scan_names-found st names)
        ]
      ]

  scan_lines-found :
      (st : Scan) (ls : List Text)
      → (scan_lines is_ip st ls).found ≡ add_entries st.found (listed_in is_ip ls)
  unfolding scan_lines listed_in
  scan_lines-found st [] = unfold add_entries in refl
  scan_lines-found st (l ∷ ls) =
      rw (scan_lines-found (scan_line is_ip st l) ls, scan_line-found st l) (rw add_entries-append)

  -- What the files at the paths list, as far as they can be read.
  pub listed_at : (Text → Option Lines) → List Text → List Text
  listed_at open_at [] = []
  listed_at open_at (p ∷ ps) =
      let rest = listed_at open_at ps in
      elim (open_at p) [ none ↦ rest | some r ↦ listed_in is_ip r.lines ++ rest ]

  reload_each-found :
      (open_at : Text → Option Lines) (ps : List Text) (s : Sets) (res : ReloadResult)
      → (reload_each is_ip open_at s res ps).0 ≡ add_entries s (listed_at open_at ps)
  unfolding reload_each listed_at scan_into
  reload_each-found open_at [] s res = unfold add_entries in refl
  reload_each-found open_at (p ∷ ps) s res = elim (Option-cases (open_at p)) [
    | inl e ↦ rw (e, reload_each, listed_at) (reload_each-found open_at ps s _)
    | inr (r, e) ↦
        rw (e, reload_each, listed_at)
          (rw (reload_each-found open_at ps _ _, scan_lines-found _ r.lines)
            (rw add_entries-append))
  ]

  none_blocked : (n : Text) → Blocks no_sets n → ⊥
  unfolding has
  none_blocked n (inl h) = cc
  none_blocked n (inr (r, below, inl h)) = cc
  none_blocked n (inr (r, below, inr h)) = cc

  -- After a reload an enabled list blocks a name exactly when a valid name of a readable line of
  -- one of the files covers it: nothing of the old set is left, a file that does not open adds
  -- nothing, so that the list is empty if none opens, and the lines of a file before the one where
  -- its scan fails count. (The comments of the code say that a file that vanished should not wipe
  -- the set and that a file whose scan fails is skipped.)
  pub replace_from_files-blocks :
      (open_at : Text → Option Lines) (b : Blocklist) (paths : List Text) (n : Text)
      → (is_blocked (replace_from_files is_ip open_at b paths).0 n ≡ true)
        ↔ ((b.enabled ≡ true) × CoveredBy (listed_at open_at paths) (normalize n))
  unfolding replace_from_files
  replace_from_files-blocks open_at b paths n = (there, back)
    where
      after : Blocklist
      after = record b { sets = (reload_each is_ip open_at no_sets no_reload paths).0 }

      there :
          is_blocked after n ≡ true
          → (b.enabled ≡ true) × CoveredBy (listed_at open_at paths) (normalize n)
      there h =
          let (on, bl) = (is_blocked-Blocks after n).0 h in
          (
            on,
            elim (add_entries_sound no_sets (listed_at open_at paths) (normalize n)
                (rw (reload_each-found open_at paths no_sets no_reload) at bl)) [
                  | inl o ↦ absurd (none_blocked (normalize n) o)
                  | inr c ↦ c
                ],
          )

      back :
          (b.enabled ≡ true) × CoveredBy (listed_at open_at paths) (normalize n)
          → is_blocked after n ≡ true
      back h = (is_blocked-Blocks after n).1 (
        h.0,
        rw (reload_each-found open_at paths no_sets no_reload)
            (add_entries-covers no_sets (listed_at open_at paths) (normalize n) h.1),
      )

  -- What a scan counts as dropped: the invalid names of each loadable line, and each line of
  -- several words that begins with no address.
  pub dropped : Text → ℕ
  dropped raw =
      let line = trim_space raw in
      if is_empty line || has_prefix line (codes "#")
      then 0
      else elim (line_names is_ip (fields line)) [
        | some names ↦ length (keep_if (λ d. not (is_valid_hostname d)) names)
        | none ↦ 1
      ]

  pub dropped_in : List Text → ℕ
  dropped_in [] = 0
  dropped_in (l ∷ ls) = dropped l + dropped_in ls

  scan_names-skipped :
      (st : Scan) (ds : List Text)
      → (scan_names st ds).skipped
        ≡ st.skipped + length (keep_if (λ d. not (is_valid_hostname d)) ds)
  unfolding scan_names scan_name
  scan_names-skipped st [] = omega arith
  scan_names-skipped st (d ∷ ds) =
      rw (scan_names-skipped (scan_name st d) ds)
        (elim (Bool-cases (is_valid_hostname d)) [ inl y ↦ rw y | inr n ↦ rw n (omega arith) ])

  scan_line-skipped :
      (st : Scan) (l : Text) → (scan_line is_ip st l).skipped ≡ st.skipped + dropped l
  unfolding scan_line dropped
  scan_line-skipped st l =
      elim (Bool-cases (is_empty (trim_space l) || has_prefix (trim_space l) (codes "#"))) [
        | inl y ↦ rw y (omega arith)
        | inr n ↦ elim (Option-cases (line_names is_ip (fields (trim_space l)))) [
          | inl e ↦ rw (n, e)
          | inr (names, e) ↦ rw (n, e) (scan_names-skipped st names)
        ]
      ]

  scan_lines-skipped :
      (st : Scan) (ls : List Text) → (scan_lines is_ip st ls).skipped ≡ st.skipped + dropped_in ls
  unfolding scan_lines dropped_in
  scan_lines-skipped st [] = omega arith
  scan_lines-skipped st (l ∷ ls) =
      omega (arith, scan_lines-skipped (scan_line is_ip st l) ls, scan_line-skipped st l)

  -- A scan loads exactly the valid names of the lines and counts exactly the invalid ones and the
  -- malformed lines; no entry is lost without being counted.
  pub scan_into_lem :
      (r : Lines) (s : Sets)
      → ((scan_into is_ip r s).0.found ≡ add_entries s (listed_in is_ip r.lines))
        × ((scan_into is_ip r s).0.skipped ≡ dropped_in r.lines)
        × ((scan_into is_ip r s).1 ≡ r.failed)
  unfolding scan_into
  scan_into_lem r s = (
    scan_lines-found _ r.lines,
    omega (arith, scan_lines-skipped (record { found = s; skipped = 0 }) r.lines),
    refl,
  )
