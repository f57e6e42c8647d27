-- ===== src/Config/Accepted.antt =====
-- What a configuration that validate accepts is like.
use rcvd.Prelude.{
  ℕ, ◌≤◌, ◌<◌, ◌≡◌, refl, inl, inr, Bool, true, false, not, ◌&&◌, ◌||◌, some, List, [], ◌∷◌, arith,
  All, Bool-cases, is_empty, is_some, all,
}
use rcvd.Prelude.Int.{ℤ, pos, negsuc}
use rcvd.Prelude.Result.{ok, Result-cases}
use rcvd.Text.{Text, codes, text_eq_iff}
use rcvd.Config.{
  Host, UpstreamServer, Config, CacheConfig, with_listen, is_listen_addr, listen_addrs, exposes_53,
  listen_port_is_53, is_loopback_host, is_upstream, is_port, advertise_ok, autogen_ok,
}
use rcvd.Config.Validate.{
  allowlist_ok, tls_automation_ok, check_fields, resolve_cache_type, with_defaults, finish,
  validate,
}

-- What check_fields leaves true.
pub record Checked (h : Host) (require_token : Bool) (c : Config) : Type 0 where
  pub listens : all (λ a. is_listen_addr h a) (listen_addrs c) ≡ true
  pub hidden : exposes_53 h c ≡ false
  pub some_upstream : is_empty c.upstreams ≡ false
  pub each_upstream : all (λ up. is_upstream h up) c.upstreams ≡ true
  pub advertised : advertise_ok h c.upstream_service ≡ true
  pub stable_key : autogen_ok c ≡ true
  pub certificates : tls_automation_ok require_token c.tls_automation ≡ true
  pub filtered : allowlist_ok h c.allowlist ≡ true

check_fields-Checked :
    (h : Host) (require_token : Bool) (c : Config)
    → check_fields h require_token c ≡ ok tt
    → Checked h require_token c
unfolding check_fields
check_fields-Checked h require_token c e = record {
  listens = ground (arith, e);
  hidden = ground (arith, e);
  some_upstream = ground (arith, e);
  each_upstream = ground (arith, e);
  advertised = ground (arith, e);
  stable_key = ground (arith, e);
  certificates = ground (arith, e);
  filtered = ground (arith, e);
}

-- A port that can be dialled.
abbrev pub InRange : ℤ → Type 0
InRange port = (n : ℕ) × (port ≡ pos n) × (0 < n) × (n ≤ 65535)

-- An upstream has an encrypted protocol and a port.
abbrev pub IsEncrypted : UpstreamServer → Type 0
IsEncrypted up = ((up.doq || up.dot || up.doh) ≡ true) × InRange up.port

-- The IP of an upstream, if it has one, is an address.
abbrev pub IsAddressed : Host → UpstreamServer → Type 0
IsAddressed h up = is_empty up.ip ≡ false → is_some (h.parse_ip up.ip) ≡ true

-- The host of a listen address is empty or an address.
abbrev pub IsLiteral : Host → Text → Type 0
IsLiteral h addr =
    (host port : Text)
    → is_empty addr ≡ false
    → h.split_host_port addr ≡ some (host, port)
    → is_empty host ≡ false
    → h.is_addr host ≡ true

-- What the design promises of a running configuration.
pub record IsSafe (h : Host) (c : Config) : Type 0 where
  pub local_53 :
      (host port : Text)
      → c.resolver_enabled ≡ true
      → h.split_host_port c.resolver_listen ≡ some (host, port)
      → listen_port_is_53 h port ≡ true
      → is_loopback_host h host ≡ true
  pub literal : All (IsLiteral h) (listen_addrs c)
  pub some_upstream : is_empty c.upstreams ≡ false
  pub encrypted : All IsEncrypted c.upstreams
  pub addressed : All (IsAddressed h) c.upstreams
  pub default_deny :
      c.allowlist.enabled ≡ true
      → (c.allowlist.mode ≡ codes "default-deny") × (is_empty c.allowlist.files ≡ false)
  pub stable_key :
      c.upstream_service.enabled ≡ true
      → c.upstream_service.tls_cert_autogen ≡ true
      → All (λ up. is_empty up.pinned_pubkey ≡ true) c.upstreams

is_port-InRange : (p : ℤ) → is_port p ≡ true → InRange p
is_port-InRange (pos n) e = (n, refl, ground (arith, e), ground (arith, e))
is_port-InRange (negsuc n) e = absurd (cc e)

is_upstream-IsEncrypted :
    (h : Host) (up : UpstreamServer) → is_upstream h up ≡ true → IsEncrypted up
unfolding is_upstream
is_upstream-IsEncrypted h up e = (ground (arith, e), is_port-InRange up.port (ground (arith, e)))

all-IsEncrypted :
    (h : Host) (ups : List UpstreamServer)
    → all (λ up. is_upstream h up) ups ≡ true
    → All IsEncrypted ups
all-IsEncrypted h [] e = tt
all-IsEncrypted h (up ∷ ups) e =
    (is_upstream-IsEncrypted h up (ground (arith, e)), all-IsEncrypted h ups (ground (arith, e)))

all-IsAddressed :
    (h : Host) (ups : List UpstreamServer)
    → all (λ up. is_upstream h up) ups ≡ true
    → All (IsAddressed h) ups
unfolding is_upstream
all-IsAddressed h [] e = tt
all-IsAddressed h (up ∷ ups) e =
    (λ given. ground (arith, e, given), all-IsAddressed h ups (ground (arith, e)))

is_listen_addr-IsLiteral :
    (h : Host) (addr : Text) → is_listen_addr h addr ≡ true → IsLiteral h addr
unfolding is_listen_addr
is_listen_addr-IsLiteral h addr e host port given split named =
    ground (arith, e, given, split, named)

all-IsLiteral :
    (h : Host) (addrs : List Text)
    → all (λ a. is_listen_addr h a) addrs ≡ true
    → All (IsLiteral h) addrs
all-IsLiteral h [] e = tt
all-IsLiteral h (a ∷ addrs) e =
    (is_listen_addr-IsLiteral h a (ground (arith, e)), all-IsLiteral h addrs (ground (arith, e)))

all_unpinned :
    (ups : List UpstreamServer)
    → all (λ up. is_empty up.pinned_pubkey) ups ≡ true
    → All (λ up. is_empty up.pinned_pubkey ≡ true) ups
all_unpinned [] e = tt
all_unpinned (up ∷ ups) e = (ground (arith, e), all_unpinned ups (ground (arith, e)))

Checked-IsSafe :
    (h : Host) (require_token : Bool) (c : Config) → Checked h require_token c → IsSafe h c
unfolding exposes_53 allowlist_ok autogen_ok
Checked-IsSafe h require_token c k = record {
  local_53 = λ host port on split is_53. ground (arith, k.hidden, on, split, is_53);
  literal = all-IsLiteral h (listen_addrs c) k.listens;
  some_upstream = k.some_upstream;
  encrypted = all-IsEncrypted h c.upstreams k.each_upstream;
  addressed = all-IsAddressed h c.upstreams k.each_upstream;
  default_deny = λ on. (
    (text_eq_iff c.allowlist.mode (codes "default-deny")).0 (ground (arith, k.filtered, on)),
    ground (arith, k.filtered, on),
  );
  stable_key = λ on auto. all_unpinned c.upstreams (ground (arith, k.stable_key, on, auto));
}

-- The defaults set at the end leave the promises alone.
with_defaults-IsSafe :
    (h : Host) (k : CacheConfig) (c : Config) → IsSafe h c → IsSafe h (with_defaults k c)
unfolding with_defaults
with_defaults-IsSafe h k c s = record {
  local_53 = s.local_53;
  literal = s.literal;
  some_upstream = s.some_upstream;
  encrypted = s.encrypted;
  addressed = s.addressed;
  default_deny = s.default_deny;
  stable_key = s.stable_key;
}

pub with_defaults-tls_automation :
    (k : CacheConfig) (c : Config) → (with_defaults k c).tls_automation ≡ c.tls_automation
unfolding with_defaults
with_defaults-tls_automation k c = refl

-- The way through validate of a configuration that it accepts.
pub validate-Checked :
    (h : Host) (require_token : Bool) (c d : Config)
    → validate h require_token c ≡ ok d
    → (k : CacheConfig) × Checked h require_token (with_listen c)
      × (with_defaults k (with_listen c) ≡ d)
unfolding validate finish
validate-Checked h require_token c d e =
    let c' = with_listen c in
    elim (Bool-cases (not c.resolver_enabled && not c.upstream_service.enabled)) [
      | inl off ↦ absurd (ground (arith, off, e))
      | inr on ↦ elim (Result-cases (check_fields h require_token c')) [
        | inr (bad, f) ↦ absurd (ground (arith, on, f, e))
        | inl (u, f) ↦ elim (Result-cases (resolve_cache_type c'.cache)) [
          | inr (bad, g) ↦ absurd (ground (arith, on, f, g, e))
          | inl (k, g) ↦ (k, check_fields-Checked h require_token c' f, ground (arith, on, f, g, e))
        ]
      ]
    ]

-- A configuration that validate accepts, for the daemon or for a diagnostic command, is safe: if
-- its plaintext listener uses port 53, the host is a literal loopback address; every listen address
-- names its host by an address or not at all, so that binding looks up no name; there is an
-- upstream, and every upstream has an encrypted protocol, a port from 1 to 65535 and, where it has
-- an IP at all, one that is an address (an upstream without one is accepted, and is dialled by its
-- host name); an enabled allowlist has the mode "default-deny" and a file; and no upstream is
-- pinned beside a certificate that is made anew at every start.
pub validate-IsSafe :
    (h : Host) (require_token : Bool) (c d : Config)
    → validate h require_token c ≡ ok d
    → IsSafe h d
validate-IsSafe h require_token c d e =
    let (k, checked, result) = validate-Checked h require_token c d e in
    rw (← result) (
      with_defaults-IsSafe h k (with_listen c)
        (Checked-IsSafe h require_token (with_listen c) checked))
