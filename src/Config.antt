-- ===== src/Config.antt =====
-- internal/config/config.go and pin.go: the checks and defaults of a decoded configuration. The TOML
-- decoder is left out. The parsers of package net, the services database, base64 and the file system
-- are the fields of an argument. Error texts are constructors.
pub mod Validate
pub mod Accepted
pub mod Token
pub mod Load
use rcvd.Prelude.{
  ℕ, Bool, true, false, not, ◌&&◌, ◌||◌, Option, none, some, List, [], ◌∷◌, ltb, ◌==◌, length,
  is_empty, all, any, is_some, mem, if◌then◌else◌,
}
use rcvd.Prelude.Int.{ℤ, pos, negsuc, is_zero}
use rcvd.Prelude.Result.{Result, ok, err, ◌>>=◌, ◌>>◌}
use rcvd.Text.{Text, codes, text_eq, to_lower}
use rcvd.Text.Affix.{strip_prefix}
use rcvd.Text.Fields.{trim_space}

pub record Ip : Type 0 where
  pub is_loopback : Bool
  pub is_unspecified : Bool

-- What the checks call outside the program.
pub record Host : Type 0 where
  -- net.SplitHostPort
  pub split_host_port : Text → Option (Text × Text)
  -- net.ParseIP; nothing for nil
  pub parse_ip : Text → Option Ip
  -- netip.ParseAddr, without an error
  pub is_addr : Text → Bool
  -- strconv.Atoi, then net.LookupPort("udp", port)
  pub atoi : Text → Option ℤ
  pub lookup_port : Text → Option ℕ
  -- base64.StdEncoding.DecodeString
  pub decode_base64 : Text → Option (List ℕ)
  -- dns.StringToType
  pub string_to_type : Text → Option ℕ
  -- os.Stat, without an error
  pub exists : Text → Bool

pub record UpstreamServer : Type 0 where
  pub name : Text
  pub host : Text
  pub ip : Text
  pub port : ℤ
  pub doq : Bool
  pub dot : Bool
  pub doh : Bool
  pub doh3 : Bool
  pub doh_path : Text
  pub pinned_pubkey : Text

pub record UpstreamConfig : Type 0 where
  pub enabled : Bool
  pub listen_doh : Text
  pub listen_dot : Text
  pub listen_doq : Text
  pub advertise_ips : List Text
  pub tls_cert : Text
  pub tls_key : Text
  pub tls_cert_autogen : Bool
  pub tls_cert_hosts : List Text
  pub tls_automation : Bool

pub record AllowlistConfig : Type 0 where
  pub enabled : Bool
  pub mode : Text
  pub files : List Text
  pub qtypes : List Text

pub record CacheConfig : Type 0 where
  pub enabled : Bool
  pub cache_type : Text
  pub max_size : ℤ
  pub ttl_min : ℤ
  pub ttl_max : ℤ
  pub neg_ttl_max : ℤ
  pub serve_stale_max_s : ℤ

pub record TlsAutomationConfig : Type 0 where
  pub on_demand : Bool
  pub allowed_domains : List Text
  pub storage_dir : Text
  pub email : Text
  pub staging : Bool
  pub challenge : Text
  pub dns_provider : Text
  pub dns_api_token : Text
  pub dns_api_token_env : Text
  pub dns_api_token_file : Text
  pub dns_api_token_key : Text

-- The fields that the checks read or set.
pub record Config : Type 0 where
  pub resolver_enabled : Bool
  pub resolver_listen : Text
  pub upstream_service : UpstreamConfig
  pub upstreams : List UpstreamServer
  pub dnssec_enabled : Bool
  pub root_key_file : Text
  pub allowlist : AllowlistConfig
  pub cache : CacheConfig
  pub metrics_listen : Text
  pub log_level : Text
  pub log_format : Text
  pub log_timestamp : Text
  pub log_file : Text
  pub phase1_timeout_ms : ℤ
  pub phase1_duration_s : ℤ
  pub phase2_failure_threshold : ℤ
  pub health_check_interval_s : ℤ
  pub tls_automation : TlsAutomationConfig

pub data ConfigError : Type 0 where
  no_mode : ConfigError
  bad_listen : ConfigError
  port_53 : ConfigError
  no_upstream : ConfigError
  bad_upstream : ConfigError
  bad_advertise_ips : ConfigError
  autogen_with_pin : ConfigError
  bad_tls_automation : ConfigError
  bad_allowlist : ConfigError
  no_root_key_file : ConfigError
  bad_cache_type : ConfigError
  bad_logging : ConfigError

-- `if bad { return err }`
abbrev pub reject_if : Bool → ConfigError → Result ConfigError (Unit {0})
reject_if true e = err e
reject_if false e = ok tt

-- The default of resolver.listen.
unfoldable pub with_listen : Config → Config
with_listen c =
    if c.resolver_enabled && is_empty c.resolver_listen
    then record c { resolver_listen = codes "127.0.0.1:5300" }
    else c

-- validateListenAddr(...) == nil
unfoldable pub is_listen_addr : Host → Text → Bool
is_listen_addr h addr = if is_empty addr then true else elim (h.split_host_port addr) [
  | none ↦ false
  | some (host, port) ↦
      if is_empty port then false else if is_empty host then true else h.is_addr host
]

-- The five listen addresses.
abbrev pub listen_addrs : Config → List Text
listen_addrs c =
    c.resolver_listen ∷ c.upstream_service.listen_doh ∷ c.upstream_service.listen_dot
    ∷ c.upstream_service.listen_doq ∷ c.metrics_listen ∷ []

-- n == 53
abbrev is_53 : ℤ → Bool
is_53 (pos n) = n == 53
is_53 (negsuc n) = false

-- listenPortIs53
unfoldable pub listen_port_is_53 : Host → Text → Bool
listen_port_is_53 h port = elim (h.atoi port) [
  | some n ↦ is_53 n
  | none ↦ elim (h.lookup_port port) [ none ↦ false | some n ↦ n == 53 ]
]

-- A literal loopback address.
abbrev pub is_loopback_host : Host → Text → Bool
is_loopback_host h host = elim (h.parse_ip host) [ none ↦ false | some ip ↦ ip.is_loopback ]

-- The condition of the port 53 rule.
unfoldable pub exposes_53 : Host → Config → Bool
exposes_53 h c = c.resolver_enabled && elim (h.split_host_port c.resolver_listen) [
  | none ↦ false
  | some (host, port) ↦ listen_port_is_53 h port && not (is_loopback_host h host)
]

-- ParsePin(...) == nil: "sha256//" and 32 bytes in base64.
unfoldable pub is_pin : Host → Text → Bool
is_pin h pin = elim (strip_prefix (codes "sha256//") pin) [
  | none ↦ false
  | some b64 ↦ elim (h.decode_base64 b64) [ none ↦ false | some raw ↦ length raw == 32 ]
]

abbrev pub is_port : ℤ → Bool
is_port (pos n) = not (n == 0) && not (ltb 65535 n)
is_port (negsuc n) = false

-- The checks on one upstream.
unfoldable pub is_upstream : Host → UpstreamServer → Bool
is_upstream h up =
    not (is_empty up.name)
    && not (is_empty up.host)
    && (is_empty up.ip || is_some (h.parse_ip up.ip))
    && (up.doq || up.dot || up.doh)
    && (not up.doh3 || up.doh)
    && is_port up.port
    && (is_empty up.pinned_pubkey || is_pin h up.pinned_pubkey)

-- The checks on advertise_ips.
unfoldable pub advertise_ok : Host → UpstreamConfig → Bool
advertise_ok h u =
    is_empty u.advertise_ips
    || u.enabled
      && not (is_empty u.listen_doh && is_empty u.listen_dot && is_empty u.listen_doq)
      && all (λ a. elim (h.parse_ip a) [ none ↦ false | some ip ↦ not ip.is_unspecified ])
          u.advertise_ips

-- The rule on tls_cert_autogen.
unfoldable pub autogen_ok : Config → Bool
autogen_ok c =
    not (c.upstream_service.enabled && c.upstream_service.tls_cert_autogen)
    || all (λ up. is_empty up.pinned_pubkey) c.upstreams
