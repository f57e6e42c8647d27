-- ===== src/UpstreamService/Ddr.antt =====
-- internal/upstream/ddr.go, the part that advertises: newDDRZone, advertPort, ddrHints and the
-- parameters of the SVCB records; and autogenSANHosts of upstream.go, the names of a generated
-- certificate. Package net and strconv are arguments.
pub mod Advertised
pub mod San
use rcvd.Prelude.{
  ℕ, Bool, true, false, not, ◌&&◌, ◌||◌, Option, none, some, List, [], ◌∷◌, ◌++◌, leb, ◌==◌,
  is_empty, if◌then◌else◌,
}
use rcvd.Prelude.Int.{ℤ, pos, negsuc}
use rcvd.Text.{Text, codes, has}

-- What net.ParseIP gives: IsUnspecified and whether To4 is not nil.
pub record Ip : Type 0 where
  pub unspecified : Bool
  pub is_v4 : Bool
  pub literal : Text

pub record Net : Type 0 where
  -- net.SplitHostPort
  pub split_host_port : Text → Option (Text × Text)
  -- net.ParseIP; nothing for nil
  pub parse_ip : Text → Option Ip
  -- strconv.Atoi
  pub atoi : Text → Option ℤ

pub record Designation : Type 0 where
  pub priority : ℕ
  pub alpn : List Text
  pub port : ℕ
  pub default_port : ℕ
  pub doh_path : Bool

pub record DdrZone : Type 0 where
  pub host : Text
  pub designations : List Designation
  pub v4 : List Ip
  pub v6 : List Ip

-- The configured addresses of the three listeners.
pub record Listens : Type 0 where
  pub doh : Text
  pub dot : Text
  pub doq : Text

-- The number of a port that can be dialled.
abbrev pub port_of : ℤ → Option ℕ
port_of (pos n) = if leb 1 n && leb n 65535 then some n else none
port_of (negsuc n) = none

-- advertPort
unfoldable pub advert_port : Net → Text → ℕ → ℕ
advert_port net listen_addr def = elim (net.split_host_port listen_addr) [
  | none ↦ def
  | some (host, port) ↦ elim (net.atoi port) [
    | none ↦ def
    | some p ↦ elim (port_of p) [ none ↦ def | some n ↦ n ]
  ]
]

abbrev both_empty : List Ip × List Ip
both_empty = ([], [])

abbrev add_hint : Ip → List Ip × List Ip → List Ip × List Ip
add_hint ip (v4, v6) = if ip.is_v4 then (ip ∷ v4, v6) else (v4, ip ∷ v6)

-- A parsed address, unless it is nil or unspecified.
abbrev keep_hint : Option Ip → List Ip × List Ip → List Ip × List Ip
keep_hint none hints = hints
keep_hint (some ip) hints = if ip.unspecified then hints else add_hint ip hints

-- The loop over advertiseIPs.
unfoldable pub explicit_hints : Net → List Text → List Ip × List Ip
explicit_hints net [] = both_empty
explicit_hints net (addr ∷ addrs) = keep_hint (net.parse_ip addr) (explicit_hints net addrs)

-- The hint that the address of a listener gives.
unfoldable pub derived_hints : Net → Text → List Ip × List Ip
derived_hints net listen_addr = elim (net.split_host_port listen_addr) [
  | none ↦ both_empty
  | some (host, port) ↦ keep_hint (net.parse_ip host) both_empty
]

-- ddrHints
unfoldable pub ddr_hints : Net → Text → List Text → List Ip × List Ip
ddr_hints net listen_addr advertise_ips =
    if is_empty advertise_ips
    then derived_hints net listen_addr
    else explicit_hints net advertise_ips

-- `if listen != "" { append }`
abbrev pub if_listening : Text → Designation → List Designation
if_listening addr d = if is_empty addr then [] else d ∷ []

abbrev pub doh_designation : Net → Text → Bool → Designation
doh_designation net addr doh3 = record {
  priority = 1;
  alpn = if doh3 then codes "h3" ∷ codes "h2" ∷ [] else codes "h2" ∷ [];
  port = advert_port net addr 443;
  default_port = 443;
  doh_path = true;
}

abbrev pub dot_designation : Net → Text → Designation
dot_designation net addr = record {
  priority = 2;
  alpn = codes "dot" ∷ [];
  port = advert_port net addr 853;
  default_port = 853;
  doh_path = false;
}

abbrev pub doq_designation : Net → Text → Designation
doq_designation net addr = record {
  priority = 3;
  alpn = codes "doq" ∷ [];
  port = advert_port net addr 853;
  default_port = 853;
  doh_path = false;
}

-- The address from which hints are derived.
abbrev pub bind_of : Listens → Text
bind_of l = if is_empty l.doh then (if is_empty l.dot then l.doq else l.dot) else l.doh

-- newDDRZone
unfoldable pub new_ddr_zone : Net → Text → Listens → Bool → List Text → DdrZone
new_ddr_zone net host l doh3 advertise_ips =
    if is_empty host
    then record { host = host; designations = []; v4 = []; v6 = [] }
    else (let (v4, v6) = ddr_hints net (bind_of l) advertise_ips in
        record {
          host = host;
          designations =
              if_listening l.doh (doh_designation net l.doh doh3)
              ++ if_listening l.dot (dot_designation net l.dot)
              ++ if_listening l.doq (doq_designation net l.doq);
          v4 = v4;
          v6 = v6;
        })

-- advertises
unfoldable pub advertises : DdrZone → Bool
advertises z = not (is_empty z.designations)

pub data SvcParam : Type 0 where
  alpn_param : List Text → SvcParam
  port_param : ℕ → SvcParam
  doh_path_param : Text → SvcParam
  ipv4_hint : List Ip → SvcParam
  ipv6_hint : List Ip → SvcParam

-- The parameters of the record that svcbResponse makes of a designation.
unfoldable pub svcb_params : DdrZone → Designation → List SvcParam
svcb_params z d =
    alpn_param d.alpn ∷ (if d.port == d.default_port then [] else port_param d.port ∷ [])
    ++ (if d.doh_path then doh_path_param (codes "/dns-query{?dns}") ∷ [] else [])
    ++ (if is_empty z.v4 then [] else ipv4_hint z.v4 ∷ [])
    ++ (if is_empty z.v6 then [] else ipv6_hint z.v6 ∷ [])

-- `add` of autogenSANHosts; the map has the hosts that are in the list.
unfoldable pub add_host : Net → List Text → Text → List Text
add_host net hosts h = if is_empty h || has hosts h then hosts else elim (net.parse_ip h) [
  | none ↦ hosts ++ h ∷ []
  | some ip ↦ if ip.unspecified then hosts else hosts ++ h ∷ []
]

unfoldable pub add_listen_host : Net → List Text → Text → List Text
add_listen_host net hosts addr =
    if is_empty addr
    then hosts
    else elim (net.split_host_port addr) [ none ↦ hosts | some (h, port) ↦ add_host net hosts h ]

unfoldable pub add_hosts : Net → List Text → List Text → List Text
add_hosts net hosts [] = hosts
add_hosts net hosts (h ∷ hs) = add_hosts net (add_host net hosts h) hs

-- autogenSANHosts
unfoldable pub autogen_san_hosts : Net → Listens → List Text → List Text
autogen_san_hosts net l tls_cert_hosts =
    let listening =
      add_listen_host net (add_listen_host net (add_listen_host net [] l.doh) l.dot) l.doq in
    add_host net (add_host net (add_hosts net listening tls_cert_hosts) (codes "127.0.0.1"))
      (codes "localhost")
