-- ===== src/Startup.antt =====
-- cmd/rcvd/main.go, what it builds before it serves: buildUpstreamChain and loadAllowlistAtStartup; and
-- DialHost of internal/config/config.go. The constructors of the resolvers keep what they are given;
-- only that of DoH can fail, which is an argument.
pub mod Chain
use rcvd.Prelude.{
  Bool, true, false, not, ◌&&◌, Option, none, some, List, [], ◌∷◌, ◌++◌, is_empty, if◌then◌else◌,
}
use rcvd.Prelude.Int.{ℤ}
use rcvd.Prelude.Result.{Result, ok, err, ◌>>=◌}
use rcvd.Text.{Text, codes}
use rcvd.Text.Fields.{Lines}
use rcvd.Allowlist as Allowlist
use rcvd.Config.{UpstreamServer, AllowlistConfig}

-- What NewDoQResolver, NewTLSResolver and NewHTTPResolver are told of a server.
pub record Endpoint : Type 0 where
  pub host : Text
  pub dial_host : Text
  pub port : ℤ
  pub pin : Text

pub data Dialer : Type 0 where
  doq_resolver : Endpoint → Dialer
  tls_resolver : Endpoint → Dialer
  http_resolver : Endpoint → Text → Bool → Dialer

-- resolver.UpstreamState as it is built.
pub record ChainEntry : Type 0 where
  pub name : Text
  pub dialer : Dialer

pub data ChainError : Type 0 where
  no_http_resolver : ChainError
  no_resolvers : ChainError

-- DialHost
unfoldable pub dial_host : UpstreamServer → Text
dial_host up = if is_empty up.ip then up.host else up.ip

abbrev pub endpoint_of : UpstreamServer → Endpoint
endpoint_of up = record {
  host = up.host;
  dial_host = dial_host up;
  port = up.port;
  pin = up.pinned_pubkey;
}

abbrev pub base_name : UpstreamServer → Text
base_name up = if is_empty up.name then up.host else up.name

abbrev pub doq_entry : UpstreamServer → ChainEntry
doq_entry up = record {
  name = base_name up ++ codes " (DoQ)";
  dialer = doq_resolver (endpoint_of up);
}

abbrev pub dot_entry : UpstreamServer → ChainEntry
dot_entry up = record {
  name = base_name up ++ codes " (DoT)";
  dialer = tls_resolver (endpoint_of up);
}

abbrev pub doh_path_of : UpstreamServer → Text
doh_path_of up = if is_empty up.doh_path then codes "/dns-query" else up.doh_path

abbrev pub doh_entry : UpstreamServer → ChainEntry
doh_entry up = record {
  name = base_name up ++ (if up.doh3 then codes " (DoH3)" else codes " (DoH)");
  dialer = http_resolver (endpoint_of up) (doh_path_of up) up.doh3;
}

-- `if up.DoX { append }`
abbrev pub if_enabled : Bool → ChainEntry → List ChainEntry
if_enabled enabled e = if enabled then e ∷ [] else []

-- The entries of one upstream.
abbrev pub entries_of : UpstreamServer → List ChainEntry
entries_of up =
    if_enabled up.doq (doq_entry up)
    ++ (if_enabled up.dot (dot_entry up) ++ if_enabled up.doh (doh_entry up))

-- The loop, where `new_http` says whether NewHTTPResolver succeeds.
unfoldable pub build_from :
    (UpstreamServer → Bool) → List UpstreamServer → Result ChainError (List ChainEntry)
build_from new_http [] = ok []
build_from new_http (up ∷ ups) =
    let rest = build_from new_http ups in
    if up.doh && not (new_http up)
    then err no_http_resolver
    else rest >>= λ chain. ok (entries_of up ++ chain)

-- buildUpstreamChain
unfoldable pub build_upstream_chain :
    (UpstreamServer → Bool) → List UpstreamServer → Result ChainError (List ChainEntry)
build_upstream_chain new_http ups =
    build_from new_http ups >>= λ chain. if is_empty chain then err no_resolvers else ok chain

-- loadAllowlistAtStartup: nothing where the allowlist is off.
unfoldable pub load_allowlist_at_startup :
    (Text → Bool)
    → (Text → Option Lines)
    → AllowlistConfig
    → Result Allowlist.LoadError (Option Allowlist.Allowlist)
load_allowlist_at_startup is_ip open_at a =
    if not a.enabled
    then ok none
    else (let (live, failed) = Allowlist.load_files is_ip open_at Allowlist.new a.files in
        elim failed [ none ↦ ok (some live) | some e ↦ err e ])
