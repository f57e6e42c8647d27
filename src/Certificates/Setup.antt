-- ===== src/Certificates/Setup.antt =====
-- internal/upstream/upstream.go: New, setupTLS, generateSelfSignedCert and the start of Start. Keys and
-- certificates are made and read by the record KeyStore.
use rcvd.Prelude.{◌||◌, Option, none, some, List, [], ◌∷◌, is_empty, if◌then◌else◌}
use rcvd.Prelude.Result.{Result, ok, err}
use rcvd.Text.{Text, codes}
use rcvd.Config.{UpstreamConfig, TlsAutomationConfig, Config}
use rcvd.UpstreamService.Ddr.{Ip, Net, Listens, autogen_san_hosts}
use rcvd.Certificates.{
  AutomationConfig, Manager, ManagerError, Disk, new_manager, TlsConfig, one_cert, get_tls_config,
  Acme, manage_domains,
}

-- The names of an x509.Certificate.
pub record Template : Type 0 where
  pub common_name : Text
  pub dns_names : List Text
  pub ip_addresses : List Ip

pub record KeyStore : Type 0 where
  -- a new key, the certificate that it signs and their PEM
  pub self_sign : Template → Option (Text × Text)
  -- tls.X509KeyPair and tls.LoadX509KeyPair
  pub key_pair : Text → Text → Option Text
  pub load_key_pair : Text → Text → Option Text

abbrev pub default_hosts : List Text → List Text
default_hosts [] = codes "127.0.0.1" ∷ codes "localhost" ∷ []
default_hosts (h ∷ hosts) = h ∷ hosts

abbrev pub first_of : List Text → Text
first_of [] = []
first_of (h ∷ hosts) = h

-- The loop that splits the hosts.
unfoldable pub split_hosts : Net → List Text → List Text × List Ip
split_hosts net [] = ([], [])
split_hosts net (h ∷ hosts) =
    let (dns_names, ip_addrs) = split_hosts net hosts in
    elim (net.parse_ip h) [
      | none ↦ (h ∷ dns_names, ip_addrs)
      | some ip ↦ (dns_names, ip ∷ ip_addrs)
    ]

unfoldable pub template_of : Net → List Text → Template
template_of net hosts =
    let (dns_names, ip_addrs) = split_hosts net hosts in
    record { common_name = first_of hosts; dns_names = dns_names; ip_addresses = ip_addrs }

-- generateSelfSignedCert
unfoldable pub generate_self_signed_cert : Net → KeyStore → List Text → Option (Text × Text)
generate_self_signed_cert net store hosts = store.self_sign (template_of net (default_hosts hosts))

pub data ServiceError : Type 0 where
  not_enabled : ServiceError
  bad_manager : ManagerError → ServiceError
  no_generated_cert : ServiceError
  bad_generated_cert : ServiceError
  no_cert : ServiceError
  bad_cert : ServiceError
  no_domain_certs : ServiceError

abbrev pub automation_of : TlsAutomationConfig → AutomationConfig
automation_of t = record {
  on_demand = t.on_demand;
  allowed_domains = t.allowed_domains;
  storage_dir = t.storage_dir;
  email = t.email;
  staging = t.staging;
  challenge = t.challenge;
  dns_provider = t.dns_provider;
  dns_api_token = t.dns_api_token;
}

abbrev listens_of : UpstreamConfig → Listens
listens_of u = record { doh = u.listen_doh; dot = u.listen_dot; doq = u.listen_doq }

abbrev pub Tls : Type 0
Tls = Result ServiceError (TlsConfig × Option Manager)

unfoldable pub automated : Disk → TlsAutomationConfig → Tls
automated d t = elim (new_manager d (some (automation_of t))) [
  | err e ↦ err (bad_manager e)
  | ok m ↦ ok (get_tls_config m, some m)
]

unfoldable pub self_signed_tls : Net → KeyStore → UpstreamConfig → Tls
self_signed_tls net store u =
    elim (generate_self_signed_cert net store
      (autogen_san_hosts net (listens_of u) u.tls_cert_hosts)) [
        | none ↦ err no_generated_cert
        | some (cert, key) ↦ elim (store.key_pair cert key) [
          | none ↦ err bad_generated_cert
          | some c ↦ ok (one_cert c, none)
        ]
      ]

unfoldable pub from_files : KeyStore → UpstreamConfig → Tls
from_files store u =
    if is_empty u.tls_cert || is_empty u.tls_key
    then err no_cert
    else elim (store.load_key_pair u.tls_cert u.tls_key) [
      | none ↦ err bad_cert
      | some c ↦ ok (one_cert c, none)
    ]

-- setupTLS
unfoldable pub setup_tls : Net → Disk → KeyStore → UpstreamConfig → TlsAutomationConfig → Tls
setup_tls net d store u t =
    if u.tls_automation
    then automated d t
    else if u.tls_cert_autogen
    then self_signed_tls net store u
    else from_files store u

-- What New decides for the service.
pub record Identity : Type 0 where
  pub advertise_host : Text
  pub tls_config : TlsConfig
  pub tls_manager : Option Manager

-- New
unfoldable pub new_service : Net → Disk → KeyStore → Config → Result ServiceError Identity
new_service net d store c =
    if c.upstream_service.enabled
    then elim (setup_tls net d store c.upstream_service c.tls_automation) [
      | err e ↦ err e
      | ok (tls, manager) ↦ ok (record {
        advertise_host = first_of c.tls_automation.allowed_domains;
        tls_config = tls;
        tls_manager = manager;
      })
    ]
    else err not_enabled

-- Start up to the listeners.
unfoldable pub fetch_certs : Acme → Identity → Result ServiceError (Unit {0})
fetch_certs acme s = elim s.tls_manager [
  | none ↦ ok tt
  | some m ↦ if manage_domains acme m then ok tt else err no_domain_certs
]
