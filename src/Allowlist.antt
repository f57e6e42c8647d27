-- ===== src/Allowlist.antt =====
-- internal/allowlist/allowlist.go: the default-deny filter, its strict loader and the lookup.
pub mod Lookup
pub mod Loading
use rcvd.Prelude.{
  ℕ, zero, suc, ◌+◌, Bool, true, false, not, ◌&&◌, ◌||◌, Option, none, some, List, [], ◌∷◌, ◌++◌,
  map, leb, ltb, ◌==◌, length, is_empty, all, if◌then◌else◌,
}
use rcvd.Prelude.Result.{Result, ok, err}
use rcvd.Text.{Text, TextSet, codes, to_lower, has, add}
use rcvd.Text.Affix.{trim_suffix, has_prefix, trim_prefix}
use rcvd.Text.Split.{split, any_parent}
use rcvd.Text.Hostname.{is_alnum, label_of}
use rcvd.Text.Fields.{Lines, trim_space, fields}

pub record Allowlist : Type 0 where
  pub domains : TextSet
  pub wildcard : TextSet
  pub exact : TextSet

-- New
abbrev pub new : Allowlist
new = record { domains = []; wildcard = []; exact = [] }

abbrev pub dot : Text
dot = codes "."

abbrev pub star_dot : Text
star_dot = codes "*."

-- strings.ToLower(strings.TrimSuffix(name, "."))
unfoldable pub normalize : Text → Text
normalize name = to_lower (trim_suffix name dot)

-- len(a.domains) == 0 && len(a.wildcard) == 0 && len(a.exact) == 0
unfoldable pub has_none : Allowlist → Bool
has_none a = is_empty a.domains && is_empty a.wildcard && is_empty a.exact

-- One level of the walk in Allowed.
unfoldable pub level_allowed : Allowlist → Text → Bool
level_allowed a suffix = has a.domains suffix || has a.wildcard (star_dot ++ suffix)

-- Allowed
unfoldable pub allowed : Allowlist → Text → Bool
allowed a name =
    if is_empty name
    then false
    else if has_none a
    then false
    else (let d = normalize name in
        if has a.domains d || has a.exact d then true else any_parent (level_allowed a) d)

pub data Reason : Type 0 where
  hosts_format : Reason
  not_single : Reason
  exact_wildcard : Reason
  entry_empty : Reason
  wildcard_empty : Reason
  bare_tld : Reason
  bad_hostname : Reason
  bad_label : Reason

pub data LoadError : Type 0 where
  open_file : Text → LoadError
  -- label, line number, reason
  bad_line : Text → ℕ → Reason → LoadError
  scan_file : Text → LoadError
  empty_allowlist : LoadError

-- hostLabelRE
unfoldable pub is_label : Text → Bool
is_label s = label_of is_alnum s

-- allowlistHostRE: an optional "*." and two labels or more.
unfoldable pub matches_host : Text → Bool
matches_host host =
    let parts = split b'.' (trim_prefix host star_dot) in ltb 1 (length parts) && all is_label parts

-- strings.Contains(s, ".")
unfoldable pub has_dot : Text → Bool
has_dot [] = false
has_dot (c ∷ s) = c == b'.' || has_dot s

-- The checks of validateAllowlistEntry behind the optional wildcard prefix.
unfoldable pub validate_host : Text → Option Reason
validate_host host =
    if not (has_dot host)
    then some bare_tld
    else if not (matches_host host)
    then some bad_hostname
    else if all is_label (split b'.' host)
    then none
    else some bad_label

-- validateAllowlistEntry
unfoldable pub validate_entry : Text → Option Reason
validate_entry entry =
    let host = trim_suffix entry dot in
    if is_empty host
    then some entry_empty
    else if has_prefix host star_dot
    then (let rest = trim_prefix host star_dot in
        if is_empty rest then some wildcard_empty else validate_host rest)
    else validate_host host

-- firstField
unfoldable pub first_field : Text → Text
first_field [] = []
first_field (c ∷ s) = let rest = c ∷ first_field s in if c == 32 || c == 9 then [] else rest

-- What a line contributes: a name for one of the three maps.
pub data Entry : Type 0 where
  exact_name : Text → Entry
  wildcard_name : Text → Entry
  plain_name : Text → Entry

-- The tail of the loop body, for the one word of a line.
unfoldable pub parse_word : Text → Result Reason Entry
parse_word word =
    let exact_only = has_prefix word (codes "=") in
    let entry = trim_prefix word (codes "=") in
    if exact_only && has_prefix entry star_dot
    then err exact_wildcard
    else elim (validate_entry entry) [
      | some why ↦ err why
      | none ↦
          let normal = normalize entry in
          ok (
            if exact_only
            then exact_name normal
            else if has_prefix normal star_dot
            then wildcard_name normal
            else plain_name normal)
    ]

-- len(fields) != 1
unfoldable pub parse_fields : List Text → Result Reason Entry
parse_fields [] = err not_single
parse_fields (w ∷ []) = parse_word w
parse_fields (w ∷ v ∷ ws) = err not_single

-- The body of the loop of scanAllowlistReader: nothing for a blank or comment line.
unfoldable pub parse_line : (Text → Bool) → Text → Result Reason (Option Entry)
parse_line is_ip text =
    let raw = trim_space text in
    if is_empty raw || has_prefix raw (codes "#")
    then ok none
    else if is_ip (first_field raw)
    then err hosts_format
    else elim (parse_fields (fields raw)) [ ok e ↦ ok (some e) | err why ↦ err why ]

unfoldable pub add_entry : Allowlist → Entry → Allowlist
add_entry a (exact_name d) = record a { exact = add a.exact d }
add_entry a (wildcard_name d) = record a { wildcard = add a.wildcard d }
add_entry a (plain_name d) = record a { domains = add a.domains d }

-- The loop of scanAllowlistReader; `n` is the number of the line before.
unfoldable pub scan_lines :
    (Text → Bool) → Text → ℕ → Allowlist → List Text → Result LoadError Allowlist
scan_lines is_ip label n a [] = ok a
scan_lines is_ip label n a (l ∷ ls) = elim (parse_line is_ip l) [
  | err why ↦ err (bad_line label (n + 1) why)
  | ok none ↦ scan_lines is_ip label (n + 1) a ls
  | ok (some e) ↦ scan_lines is_ip label (n + 1) (add_entry a e) ls
]

-- scanAllowlistReader
unfoldable pub scan_reader : (Text → Bool) → Text → Allowlist → Lines → Result LoadError Allowlist
scan_reader is_ip label a r = elim (scan_lines is_ip label 0 a r.lines) [
  | err e ↦ err e
  | ok a' ↦ if r.failed then err (scan_file label) else ok a'
]

-- The loop of LoadFiles over scanAllowlistFile; `open_at` is os.Open with the reader's lines.
unfoldable pub scan_files :
    (Text → Bool) → (Text → Option Lines) → Allowlist → List Text → Result LoadError Allowlist
scan_files is_ip open_at a [] = ok a
scan_files is_ip open_at a (p ∷ ps) = elim (open_at p) [
  | none ↦ err (open_file p)
  | some r ↦ elim (scan_reader is_ip p a r) [
    | err e ↦ err e
    | ok a' ↦ scan_files is_ip open_at a' ps
  ]
]

-- LoadFiles: the live set and the error.
unfoldable pub load_files :
    (Text → Bool) → (Text → Option Lines) → Allowlist → List Text → Allowlist × Option LoadError
load_files is_ip open_at live paths = elim (scan_files is_ip open_at new paths) [
  | err e ↦ (live, some e)
  | ok a ↦ if has_none a then (live, some empty_allowlist) else (a, none)
]

-- Size
unfoldable pub size : Allowlist → ℕ
size a = length a.domains + length a.wildcard + length a.exact

-- s <= t, byte by byte, as sort.Strings compares.
unfoldable pub text_le : Text → Text → Bool
text_le [] t = true
text_le (b ∷ s) [] = false
text_le (b ∷ s) (c ∷ t) = ltb b c || b == c && text_le s t

insert_sorted : Text → List Text → List Text
insert_sorted s [] = s ∷ []
insert_sorted s (t ∷ ts) =
    let rest = insert_sorted s ts in if text_le s t then s ∷ t ∷ ts else t ∷ rest

-- sort.Strings
unfoldable pub sort_texts : List Text → List Text
unfolding insert_sorted
sort_texts [] = []
sort_texts (t ∷ ts) = insert_sorted t (sort_texts ts)

-- Entries
unfoldable pub entries : Allowlist → List Text
entries a = sort_texts (a.domains ++ a.wildcard ++ map (λ e. b'=' ∷ e) a.exact)
