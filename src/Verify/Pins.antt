-- ===== src/Verify/Pins.antt =====
-- What the checks of pinned keys promise, against the handshake of the transports.
use rcvd.Prelude.{
  ◌≡◌, refl, sym, ap, ◌∙◌, ◌↔◌, inl, inr, Bool, true, false, some, List, [], ◌∷◌, arith, map, all,
  length, is_empty, Elem, Bool-cases, Option-cases,
}
use rcvd.Prelude.Int.{ℤ}
use rcvd.Prelude.Result.{ok}
use rcvd.Text.{Text, text_eq, text_eq_iff, text_eq_refl}
use rcvd.Config.{UpstreamServer}
use rcvd.Transport.Pin.{
  Cert, parse_pin, spki_pin, verify_pinned, pinned_tls_config, accepts, plain_config,
  parse_pin-spki_pin,
}
use rcvd.Verify.{
  Probe, target_of, leaf_from, probe_pin_leaf, judge_leaf, pin_result, pin_verdict, is_good,
  verify_pins, at_index, show_pin, matching,
}
use rcvd.Startup.{dial_host}

-- The peer of the upstream presents a first certificate with the pinned key, and the handshake of the
-- transports with that pin accepts it if it covers the host name, and not otherwise.
pub record Presents (p : Probe) (up : UpstreamServer) : Type 0 where
  pub leaf : Cert
  pub rest : List Cert
  pub remote : Text
  pub dialled : p.dial (target_of up) ≡ some (leaf ∷ rest, remote)
  pub pinned :
      parse_pin p.decode up.pinned_pubkey ≡ some (p.sha256 leaf.raw_subject_public_key_info)
  pub live :
      (chain_ok : Bool)
      → accepts
          (pinned_tls_config p.sha256 p.decode plain_config up.host up.pinned_pubkey)
          chain_ok
          (leaf ∷ rest)
        ≡ leaf.covers up.host

abbrev pub IsMatched : Probe → UpstreamServer → Type 0
IsMatched p up = is_empty up.pinned_pubkey ≡ false → Presents p up

pinned_key_accepts :
    (p : Probe) (host pin : Text) (leaf : Cert) (rest : List Cert)
    → is_empty pin ≡ false
    → parse_pin p.decode pin ≡ some (p.sha256 leaf.raw_subject_public_key_info)
    → (chain_ok : Bool)
    → accepts (pinned_tls_config p.sha256 p.decode plain_config host pin) chain_ok (leaf ∷ rest)
      ≡ leaf.covers host
unfolding pinned_tls_config verify_pinned
pinned_key_accepts p host pin leaf rest given e chain_ok =
    rw (given, e, text_eq_refl (p.sha256 leaf.raw_subject_public_key_info)) (ground arith)

good_pinned :
    (p : Probe) (up : UpstreamServer) (leaf : Cert) (rest : List Cert) (remote want : Text)
    → is_empty up.pinned_pubkey ≡ false
    → p.dial (target_of up) ≡ some (leaf ∷ rest, remote)
    → parse_pin p.decode up.pinned_pubkey ≡ some want
    → is_good (pin_verdict (pin_result p up))
      ≡ text_eq (p.sha256 leaf.raw_subject_public_key_info) want
unfolding pin_result pin_verdict probe_pin_leaf leaf_from judge_leaf
good_pinned p up leaf rest remote want given dialled parsed = ground (arith, given, dialled, parsed)

good_iff :
    (p : Probe) (up : UpstreamServer)
    → (is_good (pin_verdict (pin_result p up)) ≡ true) ↔ IsMatched p up
unfolding pin_result pin_verdict probe_pin_leaf leaf_from judge_leaf
good_iff p up = (
  λ h given. elim (Option-cases (p.dial (target_of up))) [
    | inl down ↦ absurd (ground (arith, given, down, h))
    | inr (([], remote), bare) ↦ absurd (ground (arith, given, bare, h))
    | inr ((leaf ∷ rest, remote), dialled) ↦
        elim (Option-cases (parse_pin p.decode up.pinned_pubkey)) [
          | inl bad ↦ absurd (ground (arith, given, dialled, bad, h))
          | inr (want, parsed) ↦
              let digest = p.sha256 leaf.raw_subject_public_key_info in
              let good = good_pinned p up leaf rest remote want given dialled parsed in
              let same : digest ≡ want = (text_eq_iff digest want).0 (sym good ∙ h) in
              let pinned : parse_pin p.decode up.pinned_pubkey ≡ some digest =
                parsed ∙ ap (λ (z : Text). some z) (sym same) in
              record {
                leaf = leaf;
                rest = rest;
                remote = remote;
                dialled = dialled;
                pinned = pinned;
                live = pinned_key_accepts p up.host up.pinned_pubkey leaf rest given pinned;
              }
        ]
  ],
  λ m. elim (Bool-cases (is_empty up.pinned_pubkey)) [
    | inl bare ↦ ground (arith, bare)
    | inr given ↦
        let x = m given in
        let digest = p.sha256 x.leaf.raw_subject_public_key_info in
        good_pinned p up x.leaf x.rest x.remote digest given x.dialled x.pinned
        ∙ text_eq_refl digest
  ],
)

matching_leaf :
    (p : Probe) (up : UpstreamServer) (leaf : Cert) (rest : List Cert) (remote : Text)
    → is_empty up.pinned_pubkey ≡ false
    → p.dial (target_of up) ≡ some (leaf ∷ rest, remote)
    → parse_pin p.decode up.pinned_pubkey ≡ some (p.sha256 leaf.raw_subject_public_key_info)
    → pin_verdict (pin_result p up) ≡ matching
unfolding pin_result pin_verdict probe_pin_leaf leaf_from judge_leaf
matching_leaf p up leaf rest remote given dialled parsed =
    ground (arith, given, dialled, parsed, text_eq_refl (p.sha256 leaf.raw_subject_public_key_info))

verdicts_iff :
    (p : Probe) (ups : List UpstreamServer)
    → (all is_good (map (λ up. pin_verdict (pin_result p up)) ups) ≡ true)
      ↔ ((up : UpstreamServer) → Elem up ups → IsMatched p up)
verdicts_iff p [] = (λ h up e. absurd e, λ h. refl)
verdicts_iff p (u ∷ ups) = (
  λ h up e. elim e [
    | inl here ↦ rw here ((good_iff p u).0 (ground (arith, h)))
    | inr there ↦ (verdicts_iff p ups).0 (ground (arith, h)) up there
  ],
  λ h.
      let first = (good_iff p u).1 (h u (inl refl)) in
      let others = (verdicts_iff p ups).1 (λ up e. h up (inr e)) in ground (arith, first, others),
)

-- VerifyPins reports success exactly if the peer of every upstream with a pin presents a first
-- certificate with the pinned key. For each of them the handshake that the transports make with that
-- pin then accepts the same certificates, whatever the certificate authorities say, if the first one
-- covers the host name, which VerifyPins does not look at, and refuses them otherwise.
pub verify_pins-Presents :
    (p : Probe) (ups : List UpstreamServer)
    → ((verify_pins p ups).all_ok ≡ true)
      ↔ ((up : UpstreamServer) → Elem up ups → is_empty up.pinned_pubkey ≡ false → Presents p up)
unfolding verify_pins
verify_pins-Presents p ups = verdicts_iff p ups

-- An operator who writes the pin that ShowPin prints for an upstream into its configuration gets a
-- match from VerifyPins for it, and success if it is the only one, as long as the peer presents the
-- same certificates. The conditions are that base64 decodes what it encodes and that a digest has
-- 32 bytes.
pub show_pin-verify_pins :
    (p : Probe) (ups : List UpstreamServer) (index : ℤ) (up : UpstreamServer) (pin : Text)
    → ((s : Text) → p.decode (p.encode s) ≡ some s)
    → ((s : Text) → length (p.sha256 s) ≡ 32)
    → at_index ups index ≡ some up
    → show_pin p ups index ≡ ok pin
    → verify_pins p (record up { pinned_pubkey = pin } ∷ [])
      ≡ record { verdicts = matching ∷ []; pinned_count = 1; all_ok = true }
unfolding show_pin probe_pin_leaf leaf_from dial_host spki_pin verify_pins
show_pin-verify_pins p ups index up pin back size at h = elim (Bool-cases (is_empty ups)) [
  | inl none_there ↦ absurd (ground (arith, none_there, h))
  | inr some_there ↦ elim (Option-cases (p.dial (target_of up))) [
    | inl down ↦ absurd (ground (arith, some_there, at, down, h))
    | inr (([], remote), bare) ↦ absurd (ground (arith, some_there, at, bare, h))
    | inr ((leaf ∷ rest, remote), dialled) ↦
        let shown : spki_pin p.sha256 p.encode leaf ≡ pin =
          ground (arith, some_there, at, dialled, h) in
        let parsed = parse_pin-spki_pin p.sha256 p.encode p.decode leaf back size in
        let up' : UpstreamServer = record up { pinned_pubkey = pin } in
        let matched : pin_verdict (pin_result p up') ≡ matching =
          matching_leaf p up' leaf rest remote (rw (← shown) refl) dialled (rw (← shown) parsed) in
        rw matched refl
  ]
]
