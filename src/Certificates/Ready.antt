-- ===== src/Certificates/Ready.antt =====
-- An accepted configuration against the checks of NewManager.
use rcvd.Prelude.{
  ◌≡◌, refl, ◌↔◌, ◌⊎◌, inl, inr, true, false, Option, some, arith, is_empty, Bool-cases,
}
use rcvd.Prelude.Result.{ok, Result-cases}
use rcvd.Text.{Text}
use rcvd.Config.{Host, TlsAutomationConfig, Config, with_listen}
use rcvd.Config.Validate.{validate, tls_automation_ok, is_supported_dns_provider}
use rcvd.Config.Accepted.{validate-Checked, with_defaults-tls_automation}
use rcvd.UpstreamService.Ddr.{Net}
use rcvd.Certificates.{
  Solver, Manager, Disk, new_no_cleartext_dns01_solver, check_automation, storage_at, solver_of,
  manager_of, new_manager, get_tls_config, Acme, manage_domains,
}
use rcvd.Certificates.Setup.{
  KeyStore, automation_of, automated, setup_tls, Identity, new_service, fetch_certs, first_of,
}

-- The domains that NewManager asks for in on-demand mode.
abbrev pub HasDomains : TlsAutomationConfig → Type 0
HasDomains t = t.on_demand ≡ true → is_empty t.allowed_domains ≡ false

checked_automation :
    (t : TlsAutomationConfig)
    → tls_automation_ok true t ≡ true
    → HasDomains t
    → check_automation (automation_of t) ≡ ok tt
unfolding tls_automation_ok check_automation
checked_automation t checked domains = elim (Bool-cases t.on_demand) [
  | inl on ↦ ground (arith, on, domains on, checked)
  | inr off ↦ ground (arith, off, checked)
]

solved_automation :
    (t : TlsAutomationConfig)
    → tls_automation_ok true t ≡ true
    → (solver : Option Solver) × (solver_of (automation_of t) ≡ ok solver)
unfolding tls_automation_ok is_supported_dns_provider solver_of new_no_cleartext_dns01_solver
solved_automation t checked = elim (Result-cases (solver_of (automation_of t))) [
  | inl s ↦ s
  | inr (e, bad) ↦ absurd (ground (arith, checked, bad))
]

validate-tls_automation_ok :
    (h : Host) (c d : Config)
    → validate h true c ≡ ok d
    → tls_automation_ok true d.tls_automation ≡ true
validate-tls_automation_ok h c d e =
    let (k, checked, result) = validate-Checked h true c d e in
    let same = with_defaults-tls_automation k (with_listen c) in
    ground (arith, checked.certificates, same, result)

-- Every certificate that can be had before a query is there.
abbrev pub Fetched : Acme → TlsAutomationConfig → Manager → Type 0
Fetched acme t m =
    (is_empty t.allowed_domains ≡ true)
    ⊎ (((t.on_demand ≡ true) × (acme.manage_async m.magic t.allowed_domains ≡ true))
        ⊎ ((t.on_demand ≡ false) × (acme.manage_sync m.magic t.allowed_domains ≡ true)))

manage_domains_iff :
    (acme : Acme) (t : TlsAutomationConfig) (storage : Text) (solver : Option Solver)
    → (manage_domains acme (manager_of (automation_of t) storage solver) ≡ true)
      ↔ Fetched acme t (manager_of (automation_of t) storage solver)
unfolding manage_domains manager_of
manage_domains_iff acme t storage solver = (
  λ h. elim (Bool-cases (is_empty t.allowed_domains)) [
    | inl idle ↦ inl idle
    | inr some_left ↦ elim (Bool-cases t.on_demand) [
      | inl on ↦ inr (inl (on, ground (arith, some_left, on, h)))
      | inr off ↦ inr (inr (off, ground (arith, some_left, off, h)))
    ]
  ],
  λ f. elim (Bool-cases (is_empty t.allowed_domains)) [
    | inl idle ↦ ground (arith, idle)
    | inr some_left ↦ elim f [
      | inl idle ↦ absurd (ground (arith, idle, some_left))
      | inr (inl (on, done)) ↦ ground (arith, some_left, on, done)
      | inr (inr (off, done)) ↦ ground (arith, some_left, off, done)
    ]
  ],
)

fetch_certs_iff :
    (acme : Acme) (s : Identity) (m : Manager)
    → s.tls_manager ≡ some m
    → (fetch_certs acme s ≡ ok tt) ↔ (manage_domains acme m ≡ true)
unfolding fetch_certs
fetch_certs_iff acme s m e = (
  λ h. elim (Bool-cases (manage_domains acme m)) [
    | inl done ↦ done
    | inr failed ↦ absurd (ground (arith, e, failed, h))
  ],
  λ h. ground (arith, e, h),
)

-- If validate accepts a configuration, with its token, that serves with automated certificates,
-- then New succeeds and gives the service a manager, under two conditions: the storage can be made,
-- and an on-demand configuration names a domain, which validate does not ask for. No challenge,
-- provider or token that validate lets through is refused later. Start then reaches its listeners
-- exactly if certmagic reports no error for the domains, having waited for the certificates unless
-- they are fetched on demand, or if there is no domain at all: then nothing is issued, and the
-- service goes on without a certificate, which the comments of the code mean to exclude.
pub validate-new_service :
    (h : Host) (net : Net) (d : Disk) (store : KeyStore) (acme : Acme) (c c' : Config) (dir : Text)
    → validate h true c ≡ ok c'
    → c'.upstream_service.enabled ≡ true
    → c'.upstream_service.tls_automation ≡ true
    → HasDomains c'.tls_automation
    → storage_at d (automation_of c'.tls_automation) ≡ ok dir
    → (s : Identity) × (m : Manager) × (new_service net d store c' ≡ ok s)
      × (s.tls_manager ≡ some m)
      × ((fetch_certs acme s ≡ ok tt) ↔ Fetched acme c'.tls_automation m)
unfolding new_service setup_tls automated new_manager
validate-new_service h net d store acme c c' dir e on auto domains stored =
    let t = c'.tls_automation in
    let ready = validate-tls_automation_ok h c c' e in
    let checked = checked_automation t ready domains in
    let (solver, solved) = solved_automation t ready in
    let m = manager_of (automation_of t) dir solver in
    let s : Identity = record {
      advertise_host = first_of t.allowed_domains;
      tls_config = get_tls_config m;
      tls_manager = some m;
    } in
    let starts = fetch_certs_iff acme s m refl in
    let fetched = manage_domains_iff acme t dir solver in
    (
      s,
      m,
      rw (on, auto, checked, stored, solved) refl,
      refl,
      (λ z. fetched.0 (starts.0 z), λ z. starts.1 (fetched.1 z)),
    )
