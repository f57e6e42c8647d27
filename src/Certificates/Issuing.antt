-- ===== src/Certificates/Issuing.antt =====
-- What certmagic is told, for every service that New builds.
use rcvd.Prelude.{
  ◌≡◌, refl, sym, ap, ◌∙◌, ◌↔◌, ◌⊎◌, inl, inr, Bool, true, false, Option, none, some, List, [], ◌∷◌,
  arith, is_empty, Elem, Bool-cases,
}
use rcvd.Prelude.Int.{negsuc}
use rcvd.Prelude.Result.{ok, Result-cases}
use rcvd.Text.{Text, codes, text_eq, text_eq_iff}
use rcvd.Config.{UpstreamConfig, TlsAutomationConfig, Config}
use rcvd.UpstreamService.Ddr.{Net}
use rcvd.Certificates.{
  AutomationConfig, Solver, Issuer, Manager, Disk, is_allowed, is_dns01,
  new_no_cleartext_dns01_solver, check_automation, storage_at, solver_of, issuer_of, manager_of,
  new_manager, TlsConfig, get_tls_config,
}
use rcvd.Certificates.Setup.{
  KeyStore, automation_of, automated, self_signed_tls, from_files, setup_tls, Identity, new_service,
}

pub is_allowed-Elem :
    (domains : List Text) (name : Text) → (is_allowed domains name ≡ true) ↔ Elem name domains
unfolding is_allowed
is_allowed-Elem [] name = (λ h. absurd (cc h), λ e. absurd e)
is_allowed-Elem (d ∷ domains) name = (
  λ h. elim (Bool-cases (text_eq name d)) [
    | inl same ↦ inl ((text_eq_iff name d).0 same)
    | inr other ↦ inr ((is_allowed-Elem domains name).0 (ground (arith, other, h)))
  ],
  λ e. elim e [
    | inl same ↦ ground (arith, (text_eq_iff name d).1 same)
    | inr there ↦ ground (arith, (is_allowed-Elem domains name).1 there)
  ],
)

-- By DNS-01 alone, with a token and without the check of propagation.
pub record ByDns01 (cfg : AutomationConfig) (i : Issuer) : Type 0 where
  pub solver : Solver
  pub solved : i.dns01_solver ≡ some solver
  pub token : solver.api_token ≡ cfg.dns_api_token
  pub has_token : is_empty cfg.dns_api_token ≡ false
  pub unprobed : solver.propagation_timeout ≡ negsuc 0
  pub no_http : i.disable_http_challenge ≡ true
  pub no_alpn : i.disable_tlsalpn_challenge ≡ true

-- By the challenges that come in from outside.
pub record ByInbound (i : Issuer) : Type 0 where
  pub unsolved : i.dns01_solver ≡ none
  pub http : i.disable_http_challenge ≡ false
  pub alpn : i.disable_tlsalpn_challenge ≡ false

-- A decision function is that of the allowed domains, of which there are some.
abbrev pub IsDecision : AutomationConfig → (Text → Bool) → Type 0
IsDecision cfg f =
    (cfg.on_demand ≡ true)
    × (is_empty cfg.allowed_domains ≡ false)
    × ((name : Text) → (f name ≡ true) ↔ Elem name cfg.allowed_domains)

pub record IsGuarded (cfg : AutomationConfig) (m : Manager) : Type 0 where
  pub own : m.cfg ≡ cfg
  pub challenge :
      ((is_dns01 cfg ≡ true) × ByDns01 cfg m.magic.issuer)
      ⊎ ((is_dns01 cfg ≡ false) × ByInbound m.magic.issuer)
  pub decision : (f : Text → Bool) → m.magic.on_demand ≡ some f → IsDecision cfg f

checked_domains :
    (cfg : AutomationConfig)
    → check_automation cfg ≡ ok tt
    → cfg.on_demand ≡ true
    → is_empty cfg.allowed_domains ≡ false
unfolding check_automation
checked_domains cfg h on = ground (arith, h, on)

checked_token :
    (cfg : AutomationConfig)
    → check_automation cfg ≡ ok tt
    → is_dns01 cfg ≡ true
    → is_empty cfg.dns_api_token ≡ false
unfolding check_automation
checked_token cfg h dns01 = ground (arith, h, dns01)

manager_of-IsDecision :
    (cfg : AutomationConfig) (storage : Text) (solver : Option Solver)
    → check_automation cfg ≡ ok tt
    → (f : Text → Bool) → (manager_of cfg storage solver).magic.on_demand ≡ some f
    → IsDecision cfg f
unfolding manager_of
manager_of-IsDecision cfg storage solver checked f e = elim (Bool-cases cfg.on_demand) [
  | inr off ↦ absurd (ground (arith, off, e))
  | inl on ↦
      let same : is_allowed cfg.allowed_domains ≡ f = ground (arith, on, e) in
      (
        on,
        checked_domains cfg checked on,
        λ name. rw (← same) (is_allowed-Elem cfg.allowed_domains name),
      )
]

challenge_of :
    (cfg : AutomationConfig) (solver : Option Solver)
    → check_automation cfg ≡ ok tt
    → solver_of cfg ≡ ok solver
    → ((is_dns01 cfg ≡ true) × ByDns01 cfg (issuer_of cfg solver))
      ⊎ ((is_dns01 cfg ≡ false) × ByInbound (issuer_of cfg solver))
unfolding solver_of issuer_of new_no_cleartext_dns01_solver
challenge_of cfg solver checked solved = elim (Bool-cases (is_dns01 cfg)) [
  | inr other ↦
      inr (other, record { unsolved = ground (arith, other, solved); http = other; alpn = other })
  | inl dns01 ↦ elim (Bool-cases (text_eq cfg.dns_provider (codes "cloudflare"))) [
    | inr bad ↦ absurd (ground (arith, dns01, bad, solved))
    | inl known ↦ inl (
      dns01,
      record {
        solver = record {
          api_token = cfg.dns_api_token;
          propagation_timeout = negsuc 0;
          propagation_delay = 30;
        };
        solved = ground (arith, dns01, known, solved);
        token = refl;
        has_token = checked_token cfg checked dns01;
        unprobed = refl;
        no_http = dns01;
        no_alpn = dns01;
      },
    )
  ]
]

pub new_manager-IsGuarded :
    (d : Disk) (cfg : AutomationConfig) (m : Manager)
    → new_manager d (some cfg) ≡ ok m
    → IsGuarded cfg m
unfolding new_manager manager_of
new_manager-IsGuarded d cfg m h = elim (Result-cases (check_automation cfg)) [
  | inr (e, bad) ↦ absurd (ground (arith, bad, h))
  | inl (u, checked) ↦ elim (Result-cases (storage_at d cfg)) [
    | inr (e, bad) ↦ absurd (ground (arith, checked, bad, h))
    | inl (storage, stored) ↦ elim (Result-cases (solver_of cfg)) [
      | inr (e, bad) ↦ absurd (ground (arith, checked, stored, bad, h))
      | inl (solver, solved) ↦
          let same : manager_of cfg storage solver ≡ m =
            ground (arith, checked, stored, solved, h) in
          rw (← same) (record {
            own = refl;
            challenge = challenge_of cfg solver checked solved;
            decision = manager_of-IsDecision cfg storage solver checked;
          })
    ]
  ]
]

self_signed_tls_unmanaged :
    (net : Net) (store : KeyStore) (u : UpstreamConfig) (tls : TlsConfig) (m : Manager)
    → self_signed_tls net store u ≡ ok (tls, some m)
    → ⊥
unfolding self_signed_tls
self_signed_tls_unmanaged net store u tls m h = ground (arith, h)

from_files_unmanaged :
    (store : KeyStore) (u : UpstreamConfig) (tls : TlsConfig) (m : Manager)
    → from_files store u ≡ ok (tls, some m)
    → ⊥
unfolding from_files
from_files_unmanaged store u tls m h = ground (arith, h)

setup_tls-managed :
    (net : Net) (d : Disk) (store : KeyStore) (u : UpstreamConfig) (t : TlsAutomationConfig)
    (tls : TlsConfig) (m : Manager)
    → setup_tls net d store u t ≡ ok (tls, some m)
    → (u.tls_automation ≡ true)
      × (tls ≡ get_tls_config m)
      × (new_manager d (some (automation_of t)) ≡ ok m)
unfolding setup_tls automated
setup_tls-managed net d store u t tls m h = elim (Bool-cases u.tls_automation) [
  | inl on ↦ elim (Result-cases (new_manager d (some (automation_of t)))) [
    | inr (e, bad) ↦ absurd (ground (arith, on, bad, h))
    | inl (n, built) ↦
        let same : n ≡ m = ground (arith, on, built, h) in
        (on, ground (arith, on, built, h), built ∙ ap (λ (z : Manager). ok z) same)
  ]
  | inr off ↦ elim (Bool-cases u.tls_cert_autogen) [
    | inl auto ↦ absurd (self_signed_tls_unmanaged net store u tls m (ground (arith, off, auto, h)))
    | inr files ↦ absurd (from_files_unmanaged store u tls m (ground (arith, off, files, h)))
  ]
]

-- Every service that New builds with a manager of certificates was configured for it and uses the
-- manager's TLS settings. With the DNS-01 challenge the solver has the configured token, which is
-- not empty, its timeout for the propagation of the record is -1, which switches certmagic's check
-- of it off, and the inbound challenges are off; with any other challenge there is no solver. If
-- certificates are fetched on demand, they are fetched for the configured domains and for no other
-- name, and there are some.
pub new_service-IsGuarded :
    (net : Net) (d : Disk) (store : KeyStore) (c : Config) (s : Identity) (m : Manager)
    → new_service net d store c ≡ ok s
    → s.tls_manager ≡ some m
    → (c.upstream_service.tls_automation ≡ true)
      × (s.tls_config ≡ get_tls_config m)
      × IsGuarded (automation_of c.tls_automation) m
unfolding new_service
new_service-IsGuarded net d store c s m h e = elim (Bool-cases c.upstream_service.enabled) [
  | inr off ↦ absurd (ground (arith, off, h))
  | inl on ↦ elim (Result-cases (setup_tls net d store c.upstream_service c.tls_automation)) [
    | inr (bad, failed) ↦ absurd (ground (arith, on, failed, h))
    | inl ((tls, manager), set) ↦
        let managed : manager ≡ some m = ground (arith, on, set, h, e) in
        let own : tls ≡ s.tls_config = ground (arith, on, set, h) in
        let (auto, cfg, built) =
          setup_tls-managed net d store c.upstream_service c.tls_automation tls m
            (set ∙ ap (λ (z : Option Manager). ok (tls, z)) managed) in
        (auto, sym own ∙ cfg, new_manager-IsGuarded d (automation_of c.tls_automation) m built)
  ]
]
