-- ===== src/Tests/Pinning.antt =====
-- One upstream whose peer presents one certificate, with a digest of 32 equal bytes and an encoding
-- that changes nothing.
use rcvd.Prelude.{◌≡◌, ◌↔◌, refl, true, false, some, [], ◌∷◌, Elem, is_empty}
use rcvd.Prelude.Int.{pos}
use rcvd.Text.{codes}
use rcvd.Config.{UpstreamServer}
use rcvd.Transport.Pin.{spki_pin}
use rcvd.Verify.{Probe, matching, verify_pins, show_pin, probe_pin_leaf, leaf_from}
use rcvd.Verify.Pins.{Presents, verify_pins-Presents, show_pin-verify_pins}
use rcvd.Tests.Transports.{cert, digest}

abbrev far_end : Probe
far_end = record {
  dial = λ t. some (cert ∷ [], codes "9.9.9.9:853");
  sha256 = digest;
  encode = λ s. s;
  decode = λ s. some s;
}

abbrev upstream : UpstreamServer
upstream = record {
  name = codes "q";
  host = codes "dns.q.net";
  ip = codes "9.9.9.9";
  port = pos 853;
  doq = false;
  dot = true;
  doh = false;
  doh3 = false;
  doh_path = [];
  pinned_pubkey = codes "sha256//dddddddddddddddddddddddddddddddd";
}

verify_pins-Presents_example : ((verify_pins far_end (upstream ∷ [])).all_ok ≡ true) ↔ (
    (up : UpstreamServer)
    → Elem up (upstream ∷ [])
    → is_empty up.pinned_pubkey ≡ false
    → Presents far_end up)
verify_pins-Presents_example = verify_pins-Presents far_end (upstream ∷ [])

show_pin-verify_pins_example :
    verify_pins far_end (upstream ∷ [])
    ≡ record { verdicts = matching ∷ []; pinned_count = 1; all_ok = true }
unfolding show_pin spki_pin probe_pin_leaf leaf_from
show_pin-verify_pins_example =
    show_pin-verify_pins far_end (upstream ∷ []) (pos 0) upstream upstream.pinned_pubkey (λ s. refl)
      (λ s. refl) refl refl
