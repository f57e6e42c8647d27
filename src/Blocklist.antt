-- ===== src/Blocklist.antt =====
-- internal/blocklist/blocklist.go: the set of blocked names, its loaders and the lookup.
pub mod Lookup
pub mod Adding
pub mod Sources
pub mod Loading
pub mod Growth
use rcvd.Prelude.{
  ℕ, zero, suc, ◌+◌, Bool, true, false, not, ◌&&◌, ◌||◌, Option, none, some, List, [], ◌∷◌, ◌++◌,
  leb, ◌==◌, length, is_empty, all, if◌then◌else◌,
}
use rcvd.Text.{Text, TextSet, codes, to_lower, has, add}
use rcvd.Text.Affix.{trim_suffix, has_prefix, trim_prefix}
use rcvd.Text.Split.{split, any_parent}
use rcvd.Text.Hostname.{is_alnum, label_of}
use rcvd.Text.Fields.{Lines, trim_space, fields}

-- The maps of a `Blocklist`, without the switch: what a scan fills.
pub record Sets : Type 0 where
  pub domains : TextSet
  pub wildcard : TextSet

pub record Blocklist : Type 0 where
  pub sets : Sets
  pub open sets use *
  pub enabled : Bool

abbrev pub no_sets : Sets
no_sets = record { domains = []; wildcard = [] }

abbrev pub dot : Text
dot = codes "."

abbrev pub star_dot : Text
star_dot = codes "*."

-- New
abbrev pub new : Bool → Blocklist
new enabled = record { sets = no_sets; enabled = enabled }

-- strings.ToLower(strings.TrimSuffix(domain, "."))
unfoldable pub normalize : Text → Text
normalize domain = to_lower (trim_suffix domain dot)

-- One level of the walk: a bare entry for the suffix, or a wildcard above it.
unfoldable pub level_blocked : Sets → Text → Bool
level_blocked s suffix = has s.domains suffix || has s.wildcard (star_dot ++ suffix)

-- IsBlocked
unfoldable pub is_blocked : Blocklist → Text → Bool
is_blocked b domain =
    if not b.enabled
    then false
    else (let d = normalize domain in
        if has b.domains d then true else any_parent (level_blocked b.sets) d)

-- The closure `addEntry` of scanInto, and the body of addDomainNoLock.
unfoldable pub add_entry : Sets → Text → Sets
add_entry s domain =
    let d = normalize domain in
    if has_prefix d star_dot
    then record s { wildcard = add s.wildcard d }
    else record s { domains = add s.domains d }

-- The first and last bytes of a label of hostLabelRE.
unfoldable pub is_edge : ℕ → Bool
is_edge c = is_alnum c || c == b'_'

-- hostLabelRE
unfoldable pub is_label : Text → Bool
is_label s = label_of is_edge s

-- isValidHostname
unfoldable pub is_valid_hostname : Text → Bool
is_valid_hostname name =
    let host = trim_prefix (trim_suffix name dot) star_dot in
    if is_empty host then false else all is_label (split b'.' host)

-- Add, addDomain and addDomainNoLock.
unfoldable pub add_domain : Blocklist → Text → Blocklist
add_domain b domain = record b { sets = add_entry b.sets domain }

-- The state of a scan: the maps that it fills, and the count of lines dropped.
pub record Scan : Type 0 where
  pub found : Sets
  pub skipped : ℕ

-- if b.isValidHostname(domain) { addEntry(domain) } else { skipped++ }
unfoldable pub scan_name : Scan → Text → Scan
scan_name st domain =
    if is_valid_hostname domain
    then record st { found = add_entry st.found domain }
    else record st { skipped = st.skipped + 1 }

unfoldable pub scan_names : Scan → List Text → Scan
scan_names st [] = st
scan_names st (d ∷ ds) = scan_names (scan_name st d) ds

-- The names of a line, if it is loadable: behind an address, or alone. `none` is a malformed line.
-- `is_ip` is net.ParseIP(...) != nil.
unfoldable pub line_names : (Text → Bool) → List Text → Option (List Text)
line_names is_ip [] = some []
line_names is_ip (f ∷ fs) = if is_ip f then some fs else if is_empty fs then some (f ∷ []) else none

unfoldable pub scan_line : (Text → Bool) → Scan → Text → Scan
scan_line is_ip st raw =
    let line = trim_space raw in
    if is_empty line || has_prefix line (codes "#")
    then st
    else elim (line_names is_ip (fields line)) [
      | some names ↦ scan_names st names
      | none ↦ record st { skipped = st.skipped + 1 }
    ]

unfoldable pub scan_lines : (Text → Bool) → Scan → List Text → Scan
scan_lines is_ip st [] = st
scan_lines is_ip st (l ∷ ls) = scan_lines is_ip (scan_line is_ip st l) ls

-- scanInto: the maps are filled in place, so what was read before an error stays in them.
unfoldable pub scan_into : (Text → Bool) → Lines → Sets → Scan × Bool
scan_into is_ip r s = (scan_lines is_ip (record { found = s; skipped = 0 }) r.lines, r.failed)

-- Clear
unfoldable pub clear : Blocklist → Blocklist
clear b = record b { sets = no_sets }

-- Size
unfoldable pub size : Blocklist → ℕ
size b = length b.domains + length b.wildcard

pub record Stats : Type 0 where
  pub total : ℕ
  pub domains_count : ℕ
  pub wildcard_count : ℕ

-- Stats
unfoldable pub stats : Blocklist → Stats
stats b = record {
  total = length b.domains + length b.wildcard;
  domains_count = length b.domains;
  wildcard_count = length b.wildcard;
}
