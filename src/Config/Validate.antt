-- ===== src/Config/Validate.antt =====
-- validate, validateTLSAutomation, validateAllowlist, QTypeCodes and resolveCacheType of
-- internal/config/config.go: the checks in their order, and the defaults that they set.
use rcvd.Prelude.{
  ℕ, ◌-◌, Bool, true, false, not, ◌&&◌, ◌||◌, Option, none, some, List, [], ◌∷◌, leb, is_empty, all,
  map, mem, if◌then◌else◌,
}
use rcvd.Prelude.Int.{ℤ, pos, is_zero}
use rcvd.Prelude.Result.{Result, ok, err, ◌>>=◌, ◌>>◌}
use rcvd.Text.{Text, codes, text_eq, to_lower}
use rcvd.Text.Fields.{trim_space}
use rcvd.Config.{
  Host, CacheConfig, AllowlistConfig, TlsAutomationConfig, Config, ConfigError, no_mode, bad_listen,
  port_53, no_upstream, bad_upstream, bad_advertise_ips, autogen_with_pin, bad_tls_automation,
  bad_allowlist, no_root_key_file, bad_cache_type, bad_logging, reject_if, with_listen,
  is_listen_addr, listen_addrs, exposes_53, is_upstream, advertise_ok, autogen_ok,
}

-- strings.ToUpper, its ASCII part.
unfoldable pub to_upper : Text → Text
to_upper s = map (λ c. if leb b'a' c && leb c b'z' then c - 32 else c) s

-- The loop of QTypeCodes: the codes so far, and an error as nothing.
unfoldable pub codes_from : Host → List ℕ → List Text → Option (List ℕ)
codes_from h seen [] = some []
codes_from h seen (name ∷ names) = elim (h.string_to_type (to_upper (trim_space name))) [
  | none ↦ none
  | some code ↦ elim (mem code seen) [
    | true ↦ none
    | false ↦ elim (codes_from h (code ∷ seen) names) [
      | none ↦ none
      | some rest ↦ some (code ∷ rest)
    ]
  ]
]

-- QTypeCodes
unfoldable pub qtype_codes : Host → AllowlistConfig → Option (List ℕ)
qtype_codes h a = codes_from h [] a.qtypes

-- validateAllowlist; "exempt" and an unknown mode are both rejected.
unfoldable pub allowlist_ok : Host → AllowlistConfig → Bool
allowlist_ok h a =
    not a.enabled
    || text_eq a.mode (codes "default-deny")
      && not (is_empty a.files)
      && elim (qtype_codes h a) [ none ↦ false | some _ ↦ true ]

-- IsSupportedDNSProvider
unfoldable pub is_supported_dns_provider : Text → Bool
is_supported_dns_provider name = text_eq name (codes "cloudflare")

-- validateTLSAutomation(requireToken) == nil
unfoldable pub tls_automation_ok : Bool → TlsAutomationConfig → Bool
tls_automation_ok require_token t =
    if text_eq t.challenge (codes "dns01")
    then not (is_empty t.dns_provider)
      && is_supported_dns_provider t.dns_provider
      && not (require_token && is_empty t.dns_api_token)
    else (is_empty t.challenge || text_eq t.challenge (codes "http"))
      && is_empty t.dns_provider
      && is_empty t.dns_api_token
      && is_empty t.dns_api_token_env
      && is_empty t.dns_api_token_file
      && is_empty t.dns_api_token_key

abbrev with_ttls : CacheConfig → Text → ℕ → ℕ → ℕ → ℕ → CacheConfig
with_ttls k mode ttl_min ttl_max neg_ttl_max stale = record k {
  cache_type = mode;
  ttl_min = pos ttl_min;
  ttl_max = pos ttl_max;
  neg_ttl_max = pos neg_ttl_max;
  serve_stale_max_s = pos stale;
}

-- resolveCacheType
unfoldable pub resolve_cache_type : CacheConfig → Result ConfigError CacheConfig
resolve_cache_type k =
    let mode = to_lower (trim_space k.cache_type) in
    if text_eq mode (codes "light")
    then ok (with_ttls k mode 0 3600 0 0)
    else if text_eq mode (codes "standard")
    then ok (with_ttls k mode 60 86400 0 0)
    else if text_eq mode (codes "aggressive")
    then ok (with_ttls k mode 300 604800 300 3600)
    else if is_empty mode
    then ok (record k {
      cache_type = mode;
      ttl_min = if is_zero k.ttl_min then pos 60 else k.ttl_min;
      ttl_max = if is_zero k.ttl_max then pos 86400 else k.ttl_max;
    })
    else err bad_cache_type

-- `if x == 0 { x = d }`
abbrev pub or_default : ℕ → ℤ → ℤ
or_default d x = if is_zero x then pos d else x

-- The defaults behind the cache type.
unfoldable pub with_defaults : CacheConfig → Config → Config
with_defaults k c = record c {
  cache = if k.enabled then record k { max_size = or_default 4096 k.max_size } else k;
  phase1_timeout_ms = or_default 2000 c.phase1_timeout_ms;
  phase1_duration_s = or_default 300 c.phase1_duration_s;
  phase2_failure_threshold = or_default 3 c.phase2_failure_threshold;
  health_check_interval_s = or_default 30 c.health_check_interval_s;
  log_level = if is_empty c.log_level then codes "info" else c.log_level;
  log_format = if is_empty c.log_format then codes "text" else c.log_format;
  log_timestamp = if is_empty c.log_timestamp then codes "second" else c.log_timestamp;
  log_file = if is_empty c.log_file then codes "/var/log/rcvd/rcvd.log" else c.log_file;
}

-- The two switches on the logging settings.
unfoldable pub logging_ok : Config → Bool
logging_ok c =
    text_eq c.log_format (codes "text")
    && (text_eq c.log_timestamp (codes "second")
        || text_eq c.log_timestamp (codes "ms")
        || text_eq c.log_timestamp (codes "us"))

-- The checks of validate before the cache type, on the configuration with its listen address.
unfoldable pub check_fields : Host → Bool → Config → Result ConfigError (Unit {0})
check_fields h require_token c =
    reject_if (not (all (λ a. is_listen_addr h a) (listen_addrs c))) bad_listen
    >> reject_if (exposes_53 h c) port_53
    >> reject_if (is_empty c.upstreams) no_upstream
    >> reject_if (not (all (λ up. is_upstream h up) c.upstreams)) bad_upstream
    >> reject_if (not (advertise_ok h c.upstream_service)) bad_advertise_ips
    >> reject_if (not (autogen_ok c)) autogen_with_pin
    >> reject_if (not (tls_automation_ok require_token c.tls_automation)) bad_tls_automation
    >> reject_if (not (allowlist_ok h c.allowlist)) bad_allowlist
    >> reject_if
        (c.dnssec_enabled && not (is_empty c.root_key_file) && not (h.exists c.root_key_file))
        no_root_key_file

-- The end of validate.
unfoldable pub finish : Config → CacheConfig → Result ConfigError Config
finish c k = let c' = with_defaults k c in if logging_ok c' then ok c' else err bad_logging

-- validate
unfoldable pub validate : Host → Bool → Config → Result ConfigError Config
validate h require_token c =
    if not c.resolver_enabled && not c.upstream_service.enabled
    then err no_mode
    else (let c' = with_listen c in
        check_fields h require_token c' >> (resolve_cache_type c'.cache >>= finish c'))
