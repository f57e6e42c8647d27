-- ===== src/Allowlist/Loading.antt =====
-- The strict loader: all or nothing, and never an empty list.
use rcvd.Prelude.{
  ℕ, ◌+◌, ◌≡◌, refl, ◌↔◌, ◌⊎◌, inl, inr, Bool, true, false, Option, none, some, List, [], ◌∷◌, ◌++◌,
  arith, Option-cases, is_empty,
}
use rcvd.Prelude.Result.{Result, ok, err, Result-cases}
use rcvd.Text.{Text, has}
use rcvd.Text.Fields.{Lines}
use rcvd.Allowlist.{
  Allowlist, new, normalize, has_none, allowed, LoadError, Reason, Entry, parse_line, add_entry,
  scan_lines, scan_reader, scan_files, load_files,
}
use rcvd.Allowlist.Lookup.{
  Allows, allowed-Allows, Covers, add_entry_sound, add_entry-keeps, add_entry-Covers,
}

abbrev pub CoveredBy : List Entry → Text → Type 0
CoveredBy [] n = ⊥
CoveredBy (e ∷ es) n = Covers e n ⊎ CoveredBy es n

add_entries : Allowlist → List Entry → Allowlist
add_entries a [] = a
add_entries a (e ∷ es) = add_entries (add_entry a e) es

add_entries-append :
    (a : Allowlist) (es fs : List Entry)
    → add_entries a (es ++ fs) ≡ add_entries (add_entries a es) fs
unfolding add_entries
add_entries-append a [] fs = refl
add_entries-append a (e ∷ es) fs = add_entries-append (add_entry a e) es fs

add_entries_sound :
    (a : Allowlist) (es : List Entry) (n : Text)
    → Allows (add_entries a es) n
    → Allows a n ⊎ CoveredBy es n
unfolding add_entries
add_entries_sound a [] n h = inl h
add_entries_sound a (e ∷ es) n h = elim (add_entries_sound (add_entry a e) es n h) [
  | inr c ↦ inr (inr c)
  | inl g ↦ elim (add_entry_sound a e n g) [ inl o ↦ inl o | inr c ↦ inr (inl c) ]
]

add_entries-keeps :
    (a : Allowlist) (es : List Entry) (n : Text) → Allows a n → Allows (add_entries a es) n
unfolding add_entries
add_entries-keeps a [] n h = h
add_entries-keeps a (e ∷ es) n h = add_entries-keeps (add_entry a e) es n (add_entry-keeps a e n h)

add_entries-covers :
    (a : Allowlist) (es : List Entry) (n : Text) → CoveredBy es n → Allows (add_entries a es) n
unfolding add_entries
add_entries-covers a (e ∷ es) n (inl c) =
    add_entries-keeps (add_entry a e) es n (add_entry-Covers a e n c)
add_entries-covers a (e ∷ es) n (inr c) = add_entries-covers (add_entry a e) es n c
add_entries-covers a [] n c = absurd c

-- Every line is blank, a comment, or one good entry, and these are the entries.
pub data Reads (is_ip : Text → Bool) : List Text → List Entry → Type 0 where
  done : Reads is_ip [] []
  blank :
      {ls : List Text} {es : List Entry} (l : Text)
      → parse_line is_ip l ≡ ok none
      → Reads is_ip ls es
      → Reads is_ip (l ∷ ls) es
  entry :
      {ls : List Text} {es : List Entry} (l : Text) (e : Entry)
      → parse_line is_ip l ≡ ok (some e)
      → Reads is_ip ls es
      → Reads is_ip (l ∷ ls) (e ∷ es)

-- Every file opens, is read to its end, and has only such lines.
pub data ReadsAll (is_ip : Text → Bool) (open_at : Text → Option Lines)
    : List Text → List Entry → Type 0 where
  done : ReadsAll is_ip open_at [] []
  file :
      {ps : List Text} {fs : List Entry} (p : Text) (r : Lines) (es : List Entry)
      → open_at p ≡ some r
      → r.failed ≡ false
      → Reads is_ip r.lines es
      → ReadsAll is_ip open_at ps fs
      → ReadsAll is_ip open_at (p ∷ ps) (es ++ fs)

Option-Entry-cases :
    (is_ip : Text → Bool) (l : Text)
    → (parse_line is_ip l ≡ ok none)
      ⊎ ((e : Entry) × (parse_line is_ip l ≡ ok (some e)))
      ⊎ ((why : Reason) × (parse_line is_ip l ≡ err why))
Option-Entry-cases is_ip l = go (parse_line is_ip l) refl
  where
    go :
        (r : Result Reason (Option Entry))
        → parse_line is_ip l ≡ r
        → (parse_line is_ip l ≡ ok none)
          ⊎ ((e : Entry) × (parse_line is_ip l ≡ ok (some e)))
          ⊎ ((why : Reason) × (parse_line is_ip l ≡ err why))
    go (ok none) h = inl h
    go (ok (some e)) h = inr (inl (e, h))
    go (err why) h = inr (inr (why, h))

module _ (is_ip : Text → Bool) where
  scan_lines_sound :
      (label : Text) (ls : List Text) (n : ℕ) (a a' : Allowlist)
      → scan_lines is_ip label n a ls ≡ ok a'
      → (es : List Entry) × Reads is_ip ls es × (a' ≡ add_entries a es)
  unfolding scan_lines add_entries
  scan_lines_sound label [] n a a' h = ([], done, ground arith)
  scan_lines_sound label (l ∷ ls) n a a' h = elim (Option-Entry-cases is_ip l) [
    | inl e ↦
        let (es, r, q) = scan_lines_sound label ls (n + 1) a a' (rw (e, scan_lines) at h) in
        (es, blank l e r, q)
    | inr (inl (x, e)) ↦
        let (es, r, q) =
          scan_lines_sound label ls (n + 1) (add_entry a x) a' (rw (e, scan_lines) at h) in
        (x ∷ es, entry l x e r, q)
    | inr (inr (why, e)) ↦ absurd (unfold scan_lines in cc (rw (e, scan_lines) at h))
  ]

  scan_reader_sound :
      (label : Text) (a a' : Allowlist) (r : Lines)
      → scan_reader is_ip label a r ≡ ok a'
      → (es : List Entry) × (r.failed ≡ false) × Reads is_ip r.lines es × (a' ≡ add_entries a es)
  unfolding scan_reader
  scan_reader_sound label a a' r h = elim (Result-cases (scan_lines is_ip label 0 a r.lines)) [
    | inl (b, e) ↦
        let (es, rs, q) = scan_lines_sound label r.lines 0 a b e in
        (es, ground arith, rs, ground arith)
    | inr (x, e) ↦ absurd (ground arith)
  ]

  scan_files_sound :
      (open_at : Text → Option Lines) (ps : List Text) (a a' : Allowlist)
      → scan_files is_ip open_at a ps ≡ ok a'
      → (es : List Entry) × ReadsAll is_ip open_at ps es × (a' ≡ add_entries a es)
  unfolding scan_files
  scan_files_sound open_at [] a a' h = ([], done, unfold add_entries in ground arith)
  scan_files_sound open_at (p ∷ ps) a a' h = elim (Option-cases (open_at p)) [
    | inl e ↦ absurd (ground arith)
    | inr (r, e) ↦ elim (Result-cases (scan_reader is_ip p a r)) [
      | inr (x, q) ↦ absurd (ground arith)
      | inl (b, q) ↦
          let (es, fine, rs, eq) = scan_reader_sound p a b r q in
          let (fs, all, eq') = scan_files_sound open_at ps b a' (ground arith) in
          (es ++ fs, file p r es e fine rs all, rw add_entries-append (rw (← eq) eq'))
    ]
  ]

  none_allowed : (n : Text) → Allows new n → ⊥
  unfolding has
  none_allowed n (inl h) = cc
  none_allowed n (inr (inl h)) = cc
  none_allowed n (inr (inr (r, below, inl h))) = cc
  none_allowed n (inr (inr (r, below, inr h))) = cc

  -- If LoadFiles reports an error, the live set is what it was.
  pub load_files_atomic :
      (open_at : Text → Option Lines) (live : Allowlist) (paths : List Text) (e : LoadError)
      → (load_files is_ip open_at live paths).1 ≡ some e
      → (load_files is_ip open_at live paths).0 ≡ live
  unfolding load_files
  load_files_atomic open_at live paths e h = ground arith

  -- If LoadFiles reports no error, then every file opened and was read to its end, every line of
  -- them was blank, a comment or one well-formed entry, the new set is not empty, and it allows
  -- exactly the non-empty names that one of these entries covers.
  pub load_files_exact :
      (open_at : Text → Option Lines) (live : Allowlist) (paths : List Text)
      → (load_files is_ip open_at live paths).1 ≡ none
      → (es : List Entry) × ReadsAll is_ip open_at paths es
        × (has_none (load_files is_ip open_at live paths).0 ≡ false)
        × ((n : Text)
            → (allowed (load_files is_ip open_at live paths).0 n ≡ true)
              ↔ ((is_empty n ≡ false) × CoveredBy es (normalize n)))
  unfolding load_files
  load_files_exact open_at live paths h = elim (Result-cases (scan_files is_ip open_at new paths)) [
    | inr (e, q) ↦ absurd (ground arith)
    | inl (a, q) ↦
        let (es, reads, eq) = scan_files_sound open_at paths new a q in
        let full : has_none a ≡ false = ground arith in
        let live' : (load_files is_ip open_at live paths).0 ≡ a = ground arith in
        (es, reads, rw live' full, λ n. rw live' (there a es eq n, back a es eq n))
  ]
    where
      there :
          (a : Allowlist) (es : List Entry)
          → a ≡ add_entries new es
          → (n : Text) → allowed a n ≡ true
          → (is_empty n ≡ false) × CoveredBy es (normalize n)
      there a es eq n y =
          let (ne, al) = (allowed-Allows a n).0 y in
          (
            ne,
            elim (add_entries_sound new es (normalize n) (rw eq at al)) [
              | inl o ↦ absurd (none_allowed (normalize n) o)
              | inr c ↦ c
            ],
          )

      back :
          (a : Allowlist) (es : List Entry)
          → a ≡ add_entries new es
          → (n : Text) → (is_empty n ≡ false) × CoveredBy es (normalize n)
          → allowed a n ≡ true
      back a es eq n c =
          (allowed-Allows a n).1 (c.0, rw eq (add_entries-covers new es (normalize n) c.1))
