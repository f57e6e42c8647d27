-- ===== src/Blocklist/Sources.antt =====
-- LoadFiles, LoadURLs and ReplaceFromFiles of internal/blocklist/blocklist.go: the sources that feed
-- the scanner, and how much of a failed one stays.
use rcvd.Prelude.{
  ℕ, ◌+◌, Bool, true, false, Option, none, some, List, [], ◌∷◌, ◌==◌, length, if◌then◌else◌,
}
use rcvd.Text.{Text, TextSet, add}
use rcvd.Text.Fields.{Lines}
use rcvd.Blocklist.{Sets, Blocklist, no_sets, scan_into}

unfoldable pub add_all : TextSet → TextSet → TextSet
add_all m [] = m
add_all m (k ∷ ks) = add_all (add m k) ks

pub data LoadError : Type 0 where
  open_file : Text → LoadError
  scan_file : Text → LoadError
  fetch : Text → LoadError
  status : Text → ℕ → LoadError

-- parseFile: scan into fresh maps, and merge them only if the scan ended well.
unfoldable pub parse_file : (Text → Bool) → Blocklist → Lines → Blocklist × ℕ × Bool
parse_file is_ip b r =
    let (st, failed) = scan_into is_ip r no_sets in
    if failed then (b, st.skipped, true) else (
      record b {
        sets = record {
          domains = add_all b.domains st.found.domains;
          wildcard = add_all b.wildcard st.found.wildcard;
        };
      },
      st.skipped,
      false,
    )

-- loadFile; `open_at` is os.Open with the reader's lines.
unfoldable pub load_file :
    (Text → Bool) → (Text → Option Lines) → Blocklist → Text → Blocklist × ℕ × Option LoadError
load_file is_ip open_at b path = elim (open_at path) [
  | none ↦ (b, 0, some (open_file path))
  | some r ↦
      let (b', n, failed) = parse_file is_ip b r in
      (b', n, if failed then some (scan_file path) else none)
]

-- The accumulating loop of LoadFiles and LoadURLs over a loader of one source.
unfoldable pub load_each :
    (Blocklist → Text → Blocklist × ℕ × Option LoadError)
    → Blocklist
    → ℕ
    → List Text
    → Blocklist × ℕ × Option LoadError
load_each load b skipped [] = (b, skipped, none)
load_each load b skipped (p ∷ ps) =
    let (b', n, err) = load b p in
    let rest = load_each load b' (skipped + n) ps in
    elim err [ none ↦ rest | some e ↦ (b', skipped + n, some e) ]

-- LoadFiles
unfoldable pub load_files :
    (Text → Bool) → (Text → Option Lines) → Blocklist → List Text → Blocklist × ℕ × Option LoadError
load_files is_ip open_at b paths = load_each (load_file is_ip open_at) b 0 paths

-- loadURL; `get_url` is the HTTP client's answer: the status and the body.
unfoldable pub load_url :
    (Text → Bool)
    → (Text → Option (ℕ × Lines))
    → Blocklist
    → Text
    → Blocklist × ℕ × Option LoadError
load_url is_ip get_url b url = elim (get_url url) [
  | none ↦ (b, 0, some (fetch url))
  | some (code, body) ↦
      if code == 200
      then (let (b', n, failed) = parse_file is_ip b body in
          (b', n, if failed then some (scan_file url) else none))
      else (b, 0, some (status url code))
]

-- LoadURLs
unfoldable pub load_urls :
    (Text → Bool)
    → (Text → Option (ℕ × Lines))
    → Blocklist
    → List Text
    → Blocklist × ℕ × Option LoadError
load_urls is_ip get_url b urls = load_each (load_url is_ip get_url) b 0 urls

pub record ReloadResult : Type 0 where
  pub domains_loaded : ℕ
  pub wildcards_loaded : ℕ
  pub files_ok : ℕ
  pub files_err : ℕ
  pub skipped : ℕ

abbrev pub no_reload : ReloadResult
no_reload = record {
  domains_loaded = 0;
  wildcards_loaded = 0;
  files_ok = 0;
  files_err = 0;
  skipped = 0;
}

-- The loop of ReplaceFromFiles: a file that does not open adds nothing, and one whose scan fails
-- leaves what was read of it.
unfoldable pub reload_each :
    (Text → Bool) → (Text → Option Lines) → Sets → ReloadResult → List Text → Sets × ReloadResult
reload_each is_ip open_at s res [] = (s, res)
reload_each is_ip open_at s res (p ∷ ps) =
    let bad : ReloadResult = record res { files_err = res.files_err + 1 } in
    let skip = reload_each is_ip open_at s bad ps in
    elim (open_at p) [
      | none ↦ skip
      | some r ↦
          let (st, failed) = scan_into is_ip r s in
          reload_each is_ip open_at st.found
            (if failed
              then bad
              else record res { files_ok = res.files_ok + 1; skipped = res.skipped + st.skipped })
            ps
    ]

-- ReplaceFromFiles
unfoldable pub replace_from_files :
    (Text → Bool) → (Text → Option Lines) → Blocklist → List Text → Blocklist × ReloadResult
replace_from_files is_ip open_at b paths =
    let (s, res) = reload_each is_ip open_at no_sets no_reload paths in
    (
      record b { sets = s },
      record res { domains_loaded = length s.domains; wildcards_loaded = length s.wildcard },
    )
