-- ===== src/Startup/Chain.antt =====
-- The chain that cmd/rcvd/main.go builds of a configuration.
use rcvd.Prelude.{
  ◌≡◌, refl, ap, ◌∙◌, inl, inr, Bool, true, false, not, ◌&&◌, List, [], ◌∷◌, ◌++◌, arith, All,
  is_empty, Bool-cases,
}
use rcvd.Prelude.Result.{ok, Result-cases}
use rcvd.Text.{Text}
use rcvd.Config.{Host, Config, UpstreamServer}
use rcvd.Config.Validate.{validate}
use rcvd.Config.Accepted.{IsEncrypted, validate-IsSafe}
use rcvd.Startup.{
  Endpoint, Dialer, doq_resolver, tls_resolver, http_resolver, endpoint_of, doh_path_of, dial_host,
  ChainEntry, doq_entry, dot_entry, doh_entry, if_enabled, entries_of, build_from,
  build_upstream_chain,
}

-- The three protocols of a server.
pub data WireProtocol : Type 0 where
  by_quic : WireProtocol
  by_tls : WireProtocol
  by_https : WireProtocol

-- A protocol is asked for: once for each time that it is enabled.
abbrev pub asked : UpstreamServer → Bool → WireProtocol → List (UpstreamServer × WireProtocol)
asked up true p = (up, p) ∷ []
asked up false p = []

-- The connections that a configuration asks for: each server in its order, with QUIC before TLS before
-- HTTPS.
unfoldable pub wanted : List UpstreamServer → List (UpstreamServer × WireProtocol)
wanted [] = []
wanted (up ∷ ups) =
    asked up up.doq by_quic ++ (asked up up.dot by_tls ++ (asked up up.doh by_https ++ wanted ups))

-- What the configuration says of the server: its name and port, its address, which is the host where
-- no IP is given, and its pin.
pub record IsEndpoint (up : UpstreamServer) (e : Endpoint) : Type 0 where
  pub host : e.host ≡ up.host
  pub by_ip : is_empty up.ip ≡ false → e.dial_host ≡ up.ip
  pub by_host : is_empty up.ip ≡ true → e.dial_host ≡ up.host
  pub port : e.port ≡ up.port
  pub pin : e.pin ≡ up.pinned_pubkey

-- The resolver is one of the protocol, for the server.
abbrev pub Dials : UpstreamServer → WireProtocol → Dialer → Type 0
Dials up by_quic d = (e : Endpoint) × (d ≡ doq_resolver e) × IsEndpoint up e
Dials up by_tls d = (e : Endpoint) × (d ≡ tls_resolver e) × IsEndpoint up e
Dials up by_https d =
    (e : Endpoint) × (path : Text) × (d ≡ http_resolver e path up.doh3)
    × IsEndpoint up e
    × (is_empty up.doh_path ≡ false → path ≡ up.doh_path)

-- The chain has one entry for each connection, in their order.
abbrev pub Serves : List (UpstreamServer × WireProtocol) → List ChainEntry → Type 0
Serves [] [] = Unit
Serves ((up, p) ∷ ws) (e ∷ chain) = Dials up p e.dialer × Serves ws chain
Serves [] (e ∷ chain) = ⊥
Serves (w ∷ ws) [] = ⊥

endpoint_of-IsEndpoint : (up : UpstreamServer) → IsEndpoint up (endpoint_of up)
unfolding dial_host
endpoint_of-IsEndpoint up = record {
  host = refl;
  by_ip = λ h. ground (arith, h);
  by_host = λ h. ground (arith, h);
  port = refl;
  pin = refl;
}

doh_path_given : (up : UpstreamServer) → is_empty up.doh_path ≡ false → doh_path_of up ≡ up.doh_path
doh_path_given up h = ground (arith, h)

-- One protocol of a server.
Serves-asked :
    (up : UpstreamServer) (b : Bool) (p : WireProtocol) (e : ChainEntry)
    (ws : List (UpstreamServer × WireProtocol)) (chain : List ChainEntry)
    → Dials up p e.dialer
    → Serves ws chain
    → Serves (asked up b p ++ ws) (if_enabled b e ++ chain)
Serves-asked up true p e ws chain d s = (d, s)
Serves-asked up false p e ws chain d s = s

append_assoc : (xs ys zs : List ChainEntry) → (xs ++ ys) ++ zs ≡ xs ++ (ys ++ zs)
append_assoc [] ys zs = refl
append_assoc (x ∷ xs) ys zs = ap (◌∷◌ x) (append_assoc xs ys zs)

Serves-entries_of :
    (up : UpstreamServer) (ws : List (UpstreamServer × WireProtocol)) (chain : List ChainEntry)
    → Serves ws chain
    → Serves
        (asked up up.doq by_quic ++ (asked up up.dot by_tls ++ (asked up up.doh by_https ++ ws)))
        (entries_of up ++ chain)
Serves-entries_of up ws chain s =
    let own = endpoint_of-IsEndpoint up in
    let third =
      Serves-asked up up.doh by_https (doh_entry up) ws chain
        (endpoint_of up, doh_path_of up, refl, own, doh_path_given up) s in
    let second =
      Serves-asked up up.dot by_tls (dot_entry up) _ _ (endpoint_of up, refl, own) third in
    let first =
      Serves-asked up up.doq by_quic (doq_entry up) _ _ (endpoint_of up, refl, own) second in
    rw
      (
        append_assoc (if_enabled up.doq (doq_entry up))
            (if_enabled up.dot (dot_entry up) ++ if_enabled up.doh (doh_entry up)) chain,
        append_assoc (if_enabled up.dot (dot_entry up)) (if_enabled up.doh (doh_entry up)) chain,
      )
      first

build_from-Serves :
    (new_http : UpstreamServer → Bool) (ups : List UpstreamServer) (chain : List ChainEntry)
    → build_from new_http ups ≡ ok chain
    → Serves (wanted ups) chain
unfolding build_from wanted
build_from-Serves new_http [] chain e = let same : [] ≡ chain = ground (arith, e) in rw (← same) tt
build_from-Serves new_http (up ∷ ups) chain e = elim (Bool-cases (up.doh && not (new_http up))) [
  | inl bad ↦ absurd (ground (arith, bad, e))
  | inr fine ↦ elim (Result-cases (build_from new_http ups)) [
    | inr (f, bad) ↦ absurd (ground (arith, fine, bad, e))
    | inl (rest, built) ↦
        let same : entries_of up ++ rest ≡ chain = ground (arith, fine, built, e) in
        rw (← same)
          (Serves-entries_of up (wanted ups) rest (build_from-Serves new_http ups rest built))
  ]
]

-- A chain that is built has exactly one entry for each protocol that each server enables, in the order
-- of the configuration and with QUIC before TLS before HTTPS. Each entry dials its own server: the
-- host, the address, the port and the pin are the server's, and over HTTPS also its path where it has
-- one and HTTP/3 where it asks for it.
pub build_upstream_chain-Serves :
    (new_http : UpstreamServer → Bool) (ups : List UpstreamServer) (chain : List ChainEntry)
    → build_upstream_chain new_http ups ≡ ok chain
    → Serves (wanted ups) chain
unfolding build_upstream_chain
build_upstream_chain-Serves new_http ups chain e = elim (Result-cases (build_from new_http ups)) [
  | inr (f, bad) ↦ absurd (ground (arith, bad, e))
  | inl (c, built) ↦
      let same : c ≡ chain = ground (arith, built, e) in
      build_from-Serves new_http ups chain (built ∙ ap (λ (z : List ChainEntry). ok z) same)
]

build_from_ok :
    (new_http : UpstreamServer → Bool) (ups : List UpstreamServer)
    → All (λ up. new_http up ≡ true) ups
    → (chain : List ChainEntry) × (build_from new_http ups ≡ ok chain)
unfolding build_from
build_from_ok new_http [] a = ([], refl)
build_from_ok new_http (up ∷ ups) a =
    let (rest, e) = build_from_ok new_http ups a.1 in
    (entries_of up ++ rest, ground (arith, e, a.0))

entries_of_some : (up : UpstreamServer) → IsEncrypted up → is_empty (entries_of up) ≡ false
entries_of_some up h = ground (arith, h.0)

is_empty-append : (xs ys : List ChainEntry) → is_empty xs ≡ false → is_empty (xs ++ ys) ≡ false
is_empty-append [] ys h = absurd (cc h)
is_empty-append (x ∷ xs) ys h = refl

builds :
    (new_http : UpstreamServer → Bool) (ups : List UpstreamServer)
    → is_empty ups ≡ false
    → All IsEncrypted ups
    → All (λ up. new_http up ≡ true) ups
    → (chain : List ChainEntry) × (build_upstream_chain new_http ups ≡ ok chain)
unfolding build_upstream_chain build_from
builds new_http [] ne enc a = absurd (cc ne)
builds new_http (up ∷ ups) ne enc a =
    let (rest, e) = build_from_ok new_http ups a.1 in
    let some_entry = is_empty-append (entries_of up) rest (entries_of_some up enc.0) in
    (entries_of up ++ rest, ground (arith, e, a.0, some_entry))

-- A configuration that validate accepts always gives a chain, if the constructor of the HTTPS resolver
-- fails for no upstream: the error for an empty chain is never reached.
pub validate-build_upstream_chain :
    (h : Host) (require_token : Bool) (c d : Config) (new_http : UpstreamServer → Bool)
    → validate h require_token c ≡ ok d
    → All (λ up. new_http up ≡ true) d.upstreams
    → (chain : List ChainEntry) × (build_upstream_chain new_http d.upstreams ≡ ok chain)
validate-build_upstream_chain h require_token c d new_http e a =
    let safe = validate-IsSafe h require_token c d e in
    builds new_http d.upstreams safe.some_upstream safe.encrypted a
