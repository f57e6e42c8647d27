-- ===== src/Config/Token.antt =====
-- resolveDNSAPIToken and tokenFromDotenv of internal/config/config.go: the DNS-01 token from its one
-- source. The environment, the file system and package filepath are arguments; the warning about a
-- readable file is left out.
pub mod Dotenv
use rcvd.Prelude.{
  ℕ, ◌+◌, ◌-◌, Bool, true, false, not, ◌&&◌, ◌||◌, Option, none, some, List, [], ◌∷◌, ◌++◌, ltb,
  ◌==◌, length, is_empty, if◌then◌else◌,
}
use rcvd.Prelude.Result.{Result, ok, err, ◌>>=◌}
use rcvd.Text.{Text, codes, text_eq}
use rcvd.Text.Affix.{has_prefix, trim_prefix}
use rcvd.Text.Split.{split}
use rcvd.Text.Fields.{trim_space}
use rcvd.Config.{TlsAutomationConfig}

pub data TokenError : Type 0 where
  multiple_sources : TokenError
  key_without_file : TokenError
  env_unset : TokenError
  file_without_key : TokenError
  no_file : TokenError
  empty_value : TokenError
  key_not_found : TokenError

pub record Env : Type 0 where
  -- os.Getenv
  pub getenv : Text → Text
  -- os.Stat and os.ReadFile; nothing for an error of either
  pub read_file : Text → Option Text
  -- filepath.IsAbs and filepath.Join
  pub is_abs : Text → Bool
  pub join_path : Text → Text → Text

-- strings.Cut at a byte
unfoldable pub cut : ℕ → Text → Option (Text × Text)
cut sep [] = none
cut sep (c ∷ s) =
    if c == sep
    then some ([], s)
    else elim (cut sep s) [ none ↦ none | some (k, v) ↦ some (c ∷ k, v) ]

-- v[:len(v)-1] and v[len(v)-1], for a text `c ∷ v`.
unfoldable pub init_of : ℕ → Text → Text
init_of c [] = []
init_of c (d ∷ v) = c ∷ init_of d v

unfoldable pub last_of : ℕ → Text → ℕ
last_of c [] = c
last_of c (d ∷ v) = last_of d v

-- The one layer of quotes that is stripped.
unfoldable pub unquote : Text → Text
unquote [] = []
unquote (c ∷ []) = c ∷ []
unquote (c ∷ d ∷ v) =
    if (c == b'"' || c == b'\'') && last_of d v == c then init_of d v else c ∷ d ∷ v

-- What the loop does with a line: go on, or return.
unfoldable pub token_in_line : Text → Text → Option (Result TokenError Text)
token_in_line key raw =
    let line = trim_space raw in
    if is_empty line || has_prefix line (codes "#")
    then none
    else elim (cut b'=' (trim_prefix line (codes "export "))) [
      | none ↦ none
      | some (k, v) ↦
          if not (text_eq (trim_space k) key)
          then none
          else (let value = unquote (trim_space v) in
              some (if is_empty value then err empty_value else ok value))
    ]

unfoldable pub token_in_lines : Text → List Text → Result TokenError Text
token_in_lines key [] = err key_not_found
token_in_lines key (raw ∷ raws) =
    let rest = token_in_lines key raws in elim (token_in_line key raw) [ some r ↦ r | none ↦ rest ]

-- tokenFromDotenv
unfoldable pub token_from_dotenv : Env → Text → Text → Result TokenError Text
token_from_dotenv env path key = elim (env.read_file path) [
  | none ↦ err no_file
  | some content ↦ token_in_lines key (split b'\n' content)
]

-- len(set)
abbrev pub sources : TlsAutomationConfig → ℕ
sources t =
    (if is_empty t.dns_api_token then 0 else 1)
    + (if is_empty t.dns_api_token_env then 0 else 1)
    + (if is_empty t.dns_api_token_file then 0 else 1)

abbrev with_token : TlsAutomationConfig → Text → TlsAutomationConfig
with_token t token = record t { dns_api_token = token }

-- The switch of resolveDNSAPIToken.
unfoldable pub materialize :
    Env → Text → TlsAutomationConfig → Result TokenError TlsAutomationConfig
materialize env config_dir t =
    if not (is_empty t.dns_api_token_env)
    then (let val = env.getenv t.dns_api_token_env in
        if is_empty val then err env_unset else ok (with_token t val))
    else if not (is_empty t.dns_api_token_file)
    then (if is_empty t.dns_api_token_key
        then err file_without_key
        else (let path =
              if env.is_abs t.dns_api_token_file
              then t.dns_api_token_file
              else env.join_path config_dir t.dns_api_token_file in
            token_from_dotenv env path t.dns_api_token_key >>= λ val. ok (with_token t val)))
    else ok t

-- resolveDNSAPIToken
unfoldable pub resolve_dns_api_token :
    Env → Text → TlsAutomationConfig → Result TokenError TlsAutomationConfig
resolve_dns_api_token env config_dir t =
    if ltb 1 (sources t)
    then err multiple_sources
    else if not (is_empty t.dns_api_token_key) && is_empty t.dns_api_token_file
    then err key_without_file
    else materialize env config_dir t
