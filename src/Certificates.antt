-- ===== src/Certificates.antt =====
-- internal/rcvd_tls/automation.go: the manager of certificates over certmagic. What certmagic does
-- with its settings is outside; its two calls that fetch certificates are the record Acme, and the
-- file system is the record Disk. What is logged is left out.
pub mod Setup
pub mod Issuing
pub mod Ready
use rcvd.Prelude.{
  ℕ, Bool, true, false, not, ◌&&◌, ◌||◌, Option, none, some, List, [], ◌∷◌, is_empty, if◌then◌else◌,
}
use rcvd.Prelude.Int.{ℤ, negsuc}
use rcvd.Prelude.Result.{Result, ok, err, ◌>>=◌}
use rcvd.Text.{Text, codes, text_eq, has}

pub record AutomationConfig : Type 0 where
  pub on_demand : Bool
  pub allowed_domains : List Text
  pub storage_dir : Text
  pub email : Text
  pub staging : Bool
  pub challenge : Text
  pub dns_provider : Text
  pub dns_api_token : Text

-- certmagic.DNS01Solver over the one provider. A timeout of -1 is how certmagic is told not to look
-- for the record itself. The delay is in seconds.
pub record Solver : Type 0 where
  pub api_token : Text
  pub propagation_timeout : ℤ
  pub propagation_delay : ℕ

-- The addresses of Let's Encrypt in certmagic.
pub data Authority : Type 0 where
  staging_ca : Authority
  production_ca : Authority

-- certmagic.ACMEIssuer; nothing for a test authority that is left to certmagic.
pub record Issuer : Type 0 where
  pub email : Text
  pub agreed : Bool
  pub disable_http_challenge : Bool
  pub disable_tlsalpn_challenge : Bool
  pub dns01_solver : Option Solver
  pub ca : Authority
  pub test_ca : Option Authority

-- certmagic.Config: the decision function where certificates are fetched on demand.
pub record Magic : Type 0 where
  pub storage : Text
  pub issuer : Issuer
  pub on_demand : Option (Text → Bool)

pub record Manager : Type 0 where
  pub cfg : AutomationConfig
  pub magic : Magic

pub data ManagerError : Type 0 where
  no_config : ManagerError
  no_domains : ManagerError
  no_provider : ManagerError
  no_token : ManagerError
  bad_challenge : ManagerError
  no_home : ManagerError
  no_storage : ManagerError
  unsupported_provider : ManagerError

pub record Disk : Type 0 where
  -- os.UserHomeDir
  pub home : Option Text
  -- filepath.Join(home, ".rcvd", "certs")
  pub certs_of : Text → Text
  -- os.MkdirAll without an error
  pub make_dir : Text → Bool

-- IsAllowed(...) == nil
unfoldable pub is_allowed : List Text → Text → Bool
is_allowed [] name = false
is_allowed (allowed ∷ domains) name = text_eq name allowed || is_allowed domains name

-- newNoCleartextDNS01Solver
unfoldable pub new_no_cleartext_dns01_solver : AutomationConfig → Result ManagerError Solver
new_no_cleartext_dns01_solver cfg =
    if text_eq cfg.dns_provider (codes "cloudflare")
    then ok (record {
      api_token = cfg.dns_api_token;
      propagation_timeout = negsuc 0;
      propagation_delay = 30;
    })
    else err unsupported_provider

abbrev pub is_dns01 : AutomationConfig → Bool
is_dns01 cfg = text_eq cfg.challenge (codes "dns01")

-- The checks at the start of NewManager.
unfoldable pub check_automation : AutomationConfig → Result ManagerError (Unit {0})
check_automation cfg =
    if cfg.on_demand && is_empty cfg.allowed_domains
    then err no_domains
    else if is_dns01 cfg
    then if is_empty cfg.dns_provider
      then err no_provider
      else if is_empty cfg.dns_api_token
      then err no_token
      else ok tt
    else if not (is_empty cfg.challenge) && not (text_eq cfg.challenge (codes "http"))
    then err bad_challenge
    else ok tt

abbrev pub made_dir : Disk → Text → Result ManagerError Text
made_dir d dir = if d.make_dir dir then ok dir else err no_storage

-- The directory of the storage, which is made.
unfoldable pub storage_at : Disk → AutomationConfig → Result ManagerError Text
storage_at d cfg =
    if is_empty cfg.storage_dir
    then elim d.home [ none ↦ err no_home | some home ↦ made_dir d (d.certs_of home) ]
    else made_dir d cfg.storage_dir

unfoldable pub solver_of : AutomationConfig → Result ManagerError (Option Solver)
solver_of cfg =
    if is_dns01 cfg
    then (new_no_cleartext_dns01_solver cfg >>= λ solver. ok (some solver))
    else ok none

unfoldable pub issuer_of : AutomationConfig → Option Solver → Issuer
issuer_of cfg solver = record {
  email = cfg.email;
  agreed = true;
  disable_http_challenge = is_dns01 cfg;
  disable_tlsalpn_challenge = is_dns01 cfg;
  dns01_solver = solver;
  ca = if cfg.staging then staging_ca else production_ca;
  test_ca = if cfg.staging then some staging_ca else none;
}

unfoldable pub manager_of : AutomationConfig → Text → Option Solver → Manager
manager_of cfg storage solver = record {
  cfg = cfg;
  magic = record {
    storage = storage;
    issuer = issuer_of cfg solver;
    on_demand = if cfg.on_demand then some (is_allowed cfg.allowed_domains) else none;
  };
}

-- NewManager; the configuration is a pointer, which can be nil.
unfoldable pub new_manager : Disk → Option AutomationConfig → Result ManagerError Manager
new_manager d none = err no_config
new_manager d (some cfg) = check_automation cfg >>= λ _.
    storage_at d cfg >>= λ storage. solver_of cfg >>= λ solver. ok (manager_of cfg storage solver)

-- The *tls.Config of the listeners: certmagic's own, with its certificates alone and the protocols,
-- or with one certificate.
pub data TlsConfig : Type 0 where
  magic_tls : Magic → TlsConfig
  magic_certs : Magic → List Text → TlsConfig
  one_cert : Text → TlsConfig

-- GetTLSConfig
unfoldable pub get_tls_config : Manager → TlsConfig
get_tls_config m =
    if m.cfg.on_demand then magic_tls m.magic else magic_certs m.magic (codes "h2" ∷ [])

-- certmagic's ManageAsync and ManageSync, without an error.
pub record Acme : Type 0 where
  pub manage_async : Magic → List Text → Bool
  pub manage_sync : Magic → List Text → Bool

-- ManageDomains(...) == nil
unfoldable pub manage_domains : Acme → Manager → Bool
manage_domains acme m =
    if is_empty m.cfg.allowed_domains
    then true
    else if m.cfg.on_demand
    then acme.manage_async m.magic m.cfg.allowed_domains
    else acme.manage_sync m.magic m.cfg.allowed_domains
