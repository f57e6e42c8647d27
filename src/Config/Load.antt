-- ===== src/Config/Load.antt =====
-- load of internal/config/config.go: a file to a running configuration, or the first error. The TOML
-- decoder is an argument: what it gives besides the configuration are the keys that it did not
-- decode, and those that the file has under [cache]. The defaults that it starts from are part of it.
pub mod Guards
use rcvd.Prelude.{
  ◌≡◌, refl, ◌⊎◌, inl, inr, Bool, true, false, not, ◌&&◌, Option, none, some, List, [], ◌∷◌, arith,
  is_empty, any, if◌then◌else◌, Bool-cases, Option-cases,
}
use rcvd.Prelude.Result.{Result, ok, err, Result-cases}
use rcvd.Text.{Text, codes, text_eq, has}
use rcvd.Config.{Host, TlsAutomationConfig, Config, ConfigError}
use rcvd.Config.Validate.{validate}
use rcvd.Config.Accepted.{IsSafe, validate-IsSafe}
use rcvd.Config.Token.{TokenError, Env, resolve_dns_api_token}

pub record Decoded : Type 0 where
  pub config : Config
  pub undecoded : List Text
  -- md.IsDefined("cache", key)
  pub cache_keys : List Text

pub data LoadError : Type 0 where
  no_file : LoadError
  no_parse : LoadError
  unknown_keys : LoadError
  cache_conflict : LoadError
  bad_token : TokenError → LoadError
  invalid : ConfigError → LoadError

-- The keys that a cache type excludes.
abbrev pub manual_keys : List Text
manual_keys =
    codes "ttl_min" ∷ codes "ttl_max" ∷ codes "neg_ttl_max" ∷ codes "serve_stale_max_s" ∷ []

-- The check on md.IsDefined("cache", "type").
unfoldable pub cache_conflicts : List Text → Bool
cache_conflicts keys = has keys (codes "type") && any (λ key. has keys key) manual_keys

-- The part of load behind the token.
unfoldable pub validated : Host → Bool → Config → Result LoadError Config
validated h require_token c = elim (validate h require_token c) [
  | err e ↦ err (invalid e)
  | ok d ↦ ok d
]

-- The part of load behind the decoder.
unfoldable pub check_decoded : Host → Env → Text → Bool → Decoded → Result LoadError Config
check_decoded h env config_dir materialize_token d =
    if not (is_empty d.undecoded)
    then err unknown_keys
    else if cache_conflicts d.cache_keys
    then err cache_conflict
    else if materialize_token
    then elim (resolve_dns_api_token env config_dir d.config.tls_automation) [
      | err e ↦ err (bad_token e)
      | ok t ↦ validated h true (record d.config { tls_automation = t })
    ]
    else validated h false d.config

-- load; `config_dir` is filepath.Dir(path).
unfoldable pub load :
    Host → Env → (Text → Option Decoded) → Text → Text → Bool → Result LoadError Config
load h env decode path config_dir materialize_token = elim (env.read_file path) [
  | none ↦ err no_file
  | some content ↦ elim (decode content) [
    | none ↦ err no_parse
    | some d ↦ check_decoded h env config_dir materialize_token d
  ]
]
