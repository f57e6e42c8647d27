-- ===== src/Tests/Settings.antt =====
-- The configuration of a router: a plaintext listener on 127.0.0.1:53 and one upstream over TLS.
use rcvd.Prelude.{refl, true, false, none, some, [], ◌∷◌}
use rcvd.Prelude.Int.{pos}
use rcvd.Text.{codes, text_eq, to_lower}
use rcvd.Text.Fields.{trim_space}
use rcvd.Config.{
  Host, Config, with_listen, is_listen_addr, exposes_53, listen_port_is_53, is_upstream,
  advertise_ok, autogen_ok,
}
use rcvd.Config.Accepted.{IsSafe, validate-IsSafe}
use rcvd.Config.Validate.{
  validate, check_fields, tls_automation_ok, allowlist_ok, resolve_cache_type, with_defaults,
  finish, logging_ok,
}

-- Every address is 127.0.0.1 with port 53; nothing else is needed.
abbrev pub host : Host
host = record {
  split_host_port = λ a. some (codes "127.0.0.1", codes "53");
  parse_ip = λ a. some (record { is_loopback = true; is_unspecified = false });
  is_addr = λ a. true;
  atoi = λ p. some (pos 53);
  lookup_port = λ p. none;
  decode_base64 = λ s. none;
  string_to_type = λ s. none;
  exists = λ p. false;
}

abbrev pub router : Config
router = record {
  resolver_enabled = true;
  resolver_listen = codes "127.0.0.1:53";
  upstream_service = record {
    enabled = false;
    listen_doh = [];
    listen_dot = [];
    listen_doq = [];
    advertise_ips = [];
    tls_cert = [];
    tls_key = [];
    tls_cert_autogen = false;
    tls_cert_hosts = [];
    tls_automation = false;
  };
  upstreams =
      record {
        name = codes "q";
        host = codes "dns.q.net";
        ip = codes "9.9.9.9";
        port = pos 853;
        doq = false;
        dot = true;
        doh = false;
        doh3 = false;
        doh_path = [];
        pinned_pubkey = [];
      }
      ∷ [];
  dnssec_enabled = true;
  root_key_file = [];
  allowlist = record { enabled = false; mode = []; files = []; qtypes = [] };
  cache = record {
    enabled = true;
    cache_type = codes "light";
    max_size = pos 0;
    ttl_min = pos 0;
    ttl_max = pos 0;
    neg_ttl_max = pos 0;
    serve_stale_max_s = pos 0;
  };
  metrics_listen = [];
  log_level = [];
  log_format = codes "text";
  log_timestamp = codes "ms";
  log_file = [];
  phase1_timeout_ms = pos 0;
  phase1_duration_s = pos 0;
  phase2_failure_threshold = pos 5;
  health_check_interval_s = pos 0;
  tls_automation = record {
    on_demand = false;
    allowed_domains = [];
    storage_dir = [];
    email = [];
    staging = false;
    challenge = [];
    dns_provider = [];
    dns_api_token = [];
    dns_api_token_env = [];
    dns_api_token_file = [];
    dns_api_token_key = [];
  };
}

-- The router with the defaults filled in.
abbrev pub running : Config
running = record router {
  cache = record {
    enabled = true;
    cache_type = codes "light";
    max_size = pos 4096;
    ttl_min = pos 0;
    ttl_max = pos 3600;
    neg_ttl_max = pos 0;
    serve_stale_max_s = pos 0;
  };
  log_level = codes "info";
  log_file = codes "/var/log/rcvd/rcvd.log";
  phase1_timeout_ms = pos 2000;
  phase1_duration_s = pos 300;
  health_check_interval_s = pos 30;
}

validate-IsSafe_example : IsSafe host running
unfolding validate check_fields with_listen is_listen_addr exposes_53 listen_port_is_53 is_upstream
    advertise_ok autogen_ok tls_automation_ok allowlist_ok resolve_cache_type with_defaults finish
    logging_ok text_eq to_lower trim_space
validate-IsSafe_example = validate-IsSafe host true router running refl
