-- ===== src/Verify.antt =====
-- internal/verify/pin.go and showpin.go: the checks of pinned keys that an operator runs. The
-- connection is an argument: what certificates the peer presents and the address that was reached,
-- or nothing for an error of the dialer. The texts that are printed are left out, but for the pin.
pub mod Pins
use rcvd.Prelude.{
  ℕ, Bool, true, false, not, ◌&&◌, ◌||◌, Option, none, some, List, [], ◌∷◌, map, all, is_empty,
  keep_if, length, get_elem?, if◌then◌else◌,
}
use rcvd.Prelude.Int.{ℤ, pos, negsuc}
use rcvd.Prelude.Result.{Result, ok, err}
use rcvd.Text.{Text, text_eq}
use rcvd.Config.{UpstreamServer}
use rcvd.Startup.{dial_host}
use rcvd.Transport.Pin.{Cert, parse_pin, spki_pin}

pub data Protocol : Type 0 where
  over_quic : Protocol
  over_tls : Protocol
  over_https : Protocol
  unset : Protocol

-- What is dialled: QUIC or TCP, the server name, the address.
pub record Target : Type 0 where
  pub quic : Bool
  pub server_name : Text
  pub dial_host : Text
  pub port : ℤ

pub record Probe : Type 0 where
  -- the handshake with InsecureSkipVerify
  pub dial : Target → Option (List Cert × Text)
  -- sha256.Sum256, and base64.StdEncoding
  pub sha256 : Text → Text
  pub encode : Text → Text
  pub decode : Text → Option Text

abbrev pub target_of : UpstreamServer → Target
target_of up = record {
  quic = up.doq;
  server_name = up.host;
  dial_host = dial_host up;
  port = up.port;
}

-- leafFrom
unfoldable pub leaf_from : List Cert → Option Cert
leaf_from [] = none
leaf_from (leaf ∷ rest) = some leaf

-- probePinLeaf: the leaf, or nothing for an error, and the address that was reached.
unfoldable pub probe_pin_leaf : Probe → UpstreamServer → Option Cert × Text
probe_pin_leaf p up = elim (p.dial (target_of up)) [
  | none ↦ (none, [])
  | some (certs, remote) ↦ (leaf_from certs, remote)
]

-- pinResult, where `failed` is that err is set.
pub record PinResult : Type 0 where
  pub name : Text
  pub host : Text
  pub port : ℤ
  pub protocol : Protocol
  pub pinned : Bool
  pub ok : Bool
  pub observed : Text
  pub dial_host : Text
  pub remote : Text
  pub failed : Bool

unfoldable pub protocol_of : UpstreamServer → Protocol
protocol_of up =
    if up.doq then over_quic else if up.dot then over_tls else if up.doh then over_https else unset

-- The result before the probe.
abbrev pub unprobed : UpstreamServer → PinResult
unprobed up = record {
  name = up.name;
  host = up.host;
  port = up.port;
  protocol = protocol_of up;
  pinned = not (is_empty up.pinned_pubkey);
  ok = false;
  observed = [];
  dial_host = [];
  remote = [];
  failed = false;
}

unfoldable pub judge_leaf : Probe → UpstreamServer → Option Cert → PinResult → PinResult
judge_leaf p up none r = record r { failed = true }
judge_leaf p up (some leaf) r = elim (parse_pin p.decode up.pinned_pubkey) [
  | none ↦ record r { failed = true }
  | some want ↦ record r {
    observed = spki_pin p.sha256 p.encode leaf;
    ok = text_eq (p.sha256 leaf.raw_subject_public_key_info) want;
  }
]

-- One turn of the first loop of VerifyPins.
unfoldable pub pin_result : Probe → UpstreamServer → PinResult
pin_result p up =
    if is_empty up.pinned_pubkey
    then unprobed up
    else let (leaf, remote) = probe_pin_leaf p up in
      judge_leaf p up leaf (record (unprobed up) { dial_host = dial_host up; remote = remote })

pub data PinVerdict : Type 0 where
  unpinned : PinVerdict
  probe_failed : PinVerdict
  matching : PinVerdict
  mismatch : PinVerdict

-- The switch of the second loop.
unfoldable pub pin_verdict : PinResult → PinVerdict
pin_verdict r =
    if not r.pinned
    then unpinned
    else if r.failed
    then probe_failed
    else if r.ok
    then matching
    else mismatch

abbrev pub is_good : PinVerdict → Bool
is_good unpinned = true
is_good matching = true
is_good _ = false

abbrev pub is_counted : PinVerdict → Bool
is_counted unpinned = false
is_counted _ = true

pub record Report : Type 0 where
  pub verdicts : List PinVerdict
  pub pinned_count : ℕ
  pub all_ok : Bool

-- VerifyPins
unfoldable pub verify_pins : Probe → List UpstreamServer → Report
verify_pins p ups =
    let verdicts = map (λ up. pin_verdict (pin_result p up)) ups in
    record {
      verdicts = verdicts;
      pinned_count = length (keep_if is_counted verdicts);
      all_ok = all is_good verdicts;
    }

pub data ShowError : Type 0 where
  no_upstreams : ShowError
  bad_index : ShowError
  bad_probe : ShowError

abbrev pub at_index : List UpstreamServer → ℤ → Option UpstreamServer
at_index ups (pos n) = get_elem? ups n
at_index ups (negsuc n) = none

-- ShowPin
unfoldable pub show_pin : Probe → List UpstreamServer → ℤ → Result ShowError Text
show_pin p ups index = if is_empty ups then err no_upstreams else elim (at_index ups index) [
  | none ↦ err bad_index
  | some up ↦ elim ((probe_pin_leaf p up).0) [
    | none ↦ err bad_probe
    | some leaf ↦ ok (spki_pin p.sha256 p.encode leaf)
  ]
]
