-- ===== src/Tests/Filters.antt =====
-- The block and allow lists, their loaders and the policy on concrete lists and messages.
use rcvd.Prelude.{
  ◌≡◌, refl, ◌↔◌, Bool, true, false, Option, none, some, List, [], ◌∷◌, is_empty, ◌==◌,
  if◌then◌else◌,
}
use rcvd.Text.{Text, codes, to_lower, has, add}
use rcvd.Text.Affix.{trim_suffix, trim_prefix, has_prefix}
use rcvd.Text.Fields.{Lines, trim_space, fields}
use rcvd.Text.Hostname.{is_alnum, label_of}
use rcvd.Text.Split.{split}
use rcvd.Blocklist as Blocklist
use rcvd.Blocklist.Sources.{replace_from_files}
use rcvd.Blocklist.Adding.{CoveredBy}
use rcvd.Blocklist.Loading.{replace_from_files-blocks, listed_at}
use rcvd.Allowlist as Allowlist
use rcvd.Allowlist.Loading.{ReadsAll, load_files_atomic, load_files_exact}
use rcvd.Allowlist.Loading as AllowLoading

abbrev pub ads : Blocklist.Blocklist
ads = record {
  sets = record { domains = codes "ads.com" ∷ []; wildcard = codes "*.bad.org" ∷ [] };
  enabled = true;
}

-- net.ParseIP, as far as the examples need it.
abbrev is_ip : Text → Bool
is_ip word = elim word [ [] ↦ false | c ∷ rest ↦ c == b'0' ]

abbrev hosts_file : Lines
hosts_file = record {
  lines = codes "# ads" ∷ codes "0.0.0.0 ads.com t.co" ∷ codes "bad name" ∷ [];
  failed = false;
}

-- The file stands at the path "h" alone.
abbrev open_at : Text → Option Lines
open_at path = elim path [ [] ↦ none | c ∷ rest ↦ if c == b'h' then some hosts_file else none ]

replace_from_files-blocks_example :
    (Blocklist.is_blocked
        (replace_from_files is_ip open_at ads (codes "h" ∷ codes "x" ∷ [])).0
        (codes "t.co")
      ≡ true)
    ↔ ((true ≡ true)
        × CoveredBy
            (listed_at is_ip open_at (codes "h" ∷ codes "x" ∷ []))
            (Blocklist.normalize (codes "t.co")))
replace_from_files-blocks_example =
    replace_from_files-blocks is_ip open_at ads (codes "h" ∷ codes "x" ∷ []) (codes "t.co")

abbrev pub site : Allowlist.Allowlist
site = record { domains = codes "ok.com" ∷ []; wildcard = []; exact = codes "one.org" ∷ [] }

abbrev allow_file : Lines
allow_file = record { lines = codes "# site" ∷ codes " ok.com " ∷ []; failed = false }

abbrev allow_at : Text → Option Lines
allow_at path = elim path [ [] ↦ none | c ∷ rest ↦ if c == b'h' then some allow_file else none ]

load_files_exact_example :
    (es : List Allowlist.Entry) × ReadsAll is_ip allow_at (codes "h" ∷ []) es
    × (Allowlist.has_none (Allowlist.load_files is_ip allow_at site (codes "h" ∷ [])).0 ≡ false)
    × ((n : Text)
        → (Allowlist.allowed (Allowlist.load_files is_ip allow_at site (codes "h" ∷ [])).0 n ≡ true)
          ↔ ((is_empty n ≡ false) × AllowLoading.CoveredBy es (Allowlist.normalize n)))
unfolding Allowlist.load_files Allowlist.scan_files Allowlist.scan_reader Allowlist.scan_lines
    Allowlist.parse_line Allowlist.parse_fields Allowlist.parse_word Allowlist.validate_entry
    Allowlist.validate_host Allowlist.matches_host Allowlist.is_label Allowlist.has_dot
    Allowlist.first_field Allowlist.add_entry Allowlist.normalize Allowlist.has_none trim_space
    fields has_prefix trim_prefix trim_suffix split label_of is_alnum to_lower add has
load_files_exact_example = load_files_exact is_ip allow_at site (codes "h" ∷ []) refl
