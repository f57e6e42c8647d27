-- ===== src/Tests/Certification.antt =====
-- A router whose encrypted listeners get their certificate by DNS-01.
use rcvd.Prelude.{◌≡◌, ◌↔◌, refl, arith, true, none, some, [], ◌∷◌}
use rcvd.Prelude.Int.{negsuc}
use rcvd.Prelude.Result.{ok}
use rcvd.Text.{codes, text_eq, to_lower}
use rcvd.Text.Fields.{trim_space}
use rcvd.Config.{
  UpstreamConfig, TlsAutomationConfig, Config, with_listen, is_listen_addr, exposes_53,
  listen_port_is_53, is_upstream, advertise_ok, autogen_ok,
}
use rcvd.Config.Validate.{
  validate, check_fields, tls_automation_ok, is_supported_dns_provider, allowlist_ok,
  resolve_cache_type, with_defaults, finish, logging_ok,
}
use rcvd.Certificates.{
  Disk, Manager, Acme, check_automation, storage_at, solver_of, manager_of, new_manager,
  new_no_cleartext_dns01_solver, get_tls_config,
}
use rcvd.Certificates.Setup.{
  KeyStore, Identity, automation_of, automated, setup_tls, new_service, fetch_certs,
}
use rcvd.Certificates.Issuing.{IsGuarded, new_service-IsGuarded}
use rcvd.Certificates.Ready.{Fetched, validate-new_service}
use rcvd.Tests.Settings.{host, router, running}
use rcvd.Tests.Starting.{net}

abbrev encrypted : UpstreamConfig
encrypted = record router.upstream_service {
  enabled = true;
  listen_dot = codes "h.lan:8853";
  tls_automation = true;
}

abbrev automation : TlsAutomationConfig
automation = record router.tls_automation {
  allowed_domains = codes "h.lan" ∷ [];
  storage_dir = codes "/c";
  challenge = codes "dns01";
  dns_provider = codes "cloudflare";
  dns_api_token = codes "t";
}

abbrev written : Config
written = record router { upstream_service = encrypted; tls_automation = automation }

abbrev accepted : Config
accepted = record running { upstream_service = encrypted; tls_automation = automation }

abbrev disk : Disk
disk = record { home = none; certs_of = λ h. h; make_dir = λ d. true }

abbrev key_store : KeyStore
key_store = record { self_sign = λ t. none; key_pair = λ c k. none; load_key_pair = λ c k. none }

abbrev acme : Acme
acme = record { manage_async = λ m ds. true; manage_sync = λ m ds. true }

abbrev manager : Manager
manager = manager_of (automation_of automation) (codes "/c") (
    some (record { api_token = codes "t"; propagation_timeout = negsuc 0; propagation_delay = 30 }))

abbrev identity : Identity
identity = record {
  advertise_host = codes "h.lan";
  tls_config = get_tls_config manager;
  tls_manager = some manager;
}

new_service-IsGuarded_example :
    (encrypted.tls_automation ≡ true)
    × (identity.tls_config ≡ get_tls_config manager)
    × IsGuarded (automation_of automation) manager
unfolding new_service setup_tls automated new_manager check_automation storage_at solver_of
    new_no_cleartext_dns01_solver text_eq
new_service-IsGuarded_example =
    new_service-IsGuarded net disk key_store accepted identity manager refl refl

validate-new_service_example :
    (s : Identity) × (m : Manager) × (new_service net disk key_store accepted ≡ ok s)
    × (s.tls_manager ≡ some m)
    × ((fetch_certs acme s ≡ ok tt) ↔ Fetched acme automation m)
unfolding validate check_fields with_listen is_listen_addr exposes_53 listen_port_is_53 is_upstream
    advertise_ok autogen_ok tls_automation_ok is_supported_dns_provider allowlist_ok
    resolve_cache_type with_defaults finish logging_ok text_eq to_lower trim_space storage_at
validate-new_service_example =
    validate-new_service host net disk key_store acme written accepted (codes "/c") refl refl refl
      (λ on. ground (arith, on)) refl
