-- ===== src/Config/Load/Guards.antt =====
-- What a configuration that load returns has passed.
use rcvd.Prelude.{
  ◌≡◌, inl, inr, Bool, true, false, not, ◌||◌, Option, some, arith, is_empty, Bool-cases,
  Option-cases,
}
use rcvd.Prelude.Result.{ok, Result-cases}
use rcvd.Text.{Text, codes, text_eq}
use rcvd.Config.{Host, Config, with_listen}
use rcvd.Config.Validate.{validate, tls_automation_ok}
use rcvd.Config.Accepted.{IsSafe, validate-Checked, validate-IsSafe, with_defaults-tls_automation}
use rcvd.Config.Token.{Env, resolve_dns_api_token}
use rcvd.Config.Load.{Decoded, cache_conflicts, validated, check_decoded, load}

-- A DNS-01 configuration has its token.
abbrev pub HasToken : Config → Type 0
HasToken c =
    text_eq c.tls_automation.challenge (codes "dns01") ≡ true
    → is_empty c.tls_automation.dns_api_token ≡ false

validated-validate :
    (h : Host) (require_token : Bool) (c d : Config)
    → validated h require_token c ≡ ok d
    → validate h require_token c ≡ ok d
unfolding validated
validated-validate h require_token c d e = elim (Result-cases (validate h require_token c)) [
  | inl (k, f) ↦ ground (arith, f, e)
  | inr (bad, f) ↦ absurd (ground (arith, f, e))
]

validate-HasToken : (h : Host) (c d : Config) → validate h true c ≡ ok d → HasToken d
unfolding tls_automation_ok
validate-HasToken h c d e dns01 =
    let (k, checked, result) = validate-Checked h true c d e in
    let same = with_defaults-tls_automation k (with_listen c) in
    ground (arith, checked.certificates, same, result, dns01)

-- What the decoder must have found.
abbrev pub IsClean : Decoded → Type 0
IsClean d = (is_empty d.undecoded ≡ true) × (cache_conflicts d.cache_keys ≡ false)

check_decoded-IsSafe :
    (h : Host) (env : Env) (config_dir : Text) (materialize : Bool) (d : Decoded) (c : Config)
    → check_decoded h env config_dir materialize d ≡ ok c
    → IsClean d × IsSafe h c × (materialize ≡ true → HasToken c)
unfolding check_decoded
check_decoded-IsSafe h env config_dir materialize d c e =
    elim (Bool-cases (not (is_empty d.undecoded) || cache_conflicts d.cache_keys)) [
      | inl bad ↦ absurd (ground (arith, bad, e))
      | inr clean ↦ elim (Bool-cases materialize) [
        | inl on ↦
            elim (Result-cases (resolve_dns_api_token env config_dir d.config.tls_automation)) [
              | inr (bad, f) ↦ absurd (ground (arith, clean, on, f, e))
              | inl (t, f) ↦
                  let c' = record d.config { tls_automation = t } in
                  let v = validated-validate h true c' c (ground (arith, clean, on, f, e)) in
                  (
                    (ground (arith, clean), ground (arith, clean)),
                    validate-IsSafe h true c' c v,
                    λ _. validate-HasToken h c' c v,
                  )
            ]
        | inr off ↦
            let v = validated-validate h false d.config c (ground (arith, clean, off, e)) in
            (
              (ground (arith, clean), ground (arith, clean)),
              validate-IsSafe h false d.config c v,
              λ on. absurd (ground (arith, on, off)),
            )
      ]
    ]

-- A configuration that load returns was decoded from its file, had no key that the decoder does not
-- know, did not name a cache type beside one of the settings that the type excludes, and keeps the
-- promises of a safe configuration (the plaintext listener on port 53 is loopback, the listen addresses
-- are literal, there is an upstream and every one is encrypted, an enabled allowlist denies by
-- default, no pin beside a certificate made anew). If load was to materialize the token, as it is
-- for the daemon and not for the diagnostics, a DNS-01 configuration also has a token.
pub load-IsSafe :
    (h : Host) (env : Env) (decode : Text → Option Decoded) (path config_dir : Text)
    (materialize : Bool) (c : Config)
    → load h env decode path config_dir materialize ≡ ok c
    → (content : Text) × (d : Decoded) × (env.read_file path ≡ some content)
      × (decode content ≡ some d)
      × IsClean d
      × IsSafe h c
      × (materialize ≡ true → HasToken c)
unfolding load
load-IsSafe h env decode path config_dir materialize c e =
    elim (Option-cases (env.read_file path)) [
      | inl f ↦ absurd (ground (arith, f, e))
      | inr (content, f) ↦ elim (Option-cases (decode content)) [
        | inl g ↦ absurd (ground (arith, f, g, e))
        | inr (d, g) ↦
            let (clean, safe, token) =
              check_decoded-IsSafe h env config_dir materialize d c (ground (arith, f, g, e)) in
            (content, d, f, g, clean, safe, token)
      ]
    ]
