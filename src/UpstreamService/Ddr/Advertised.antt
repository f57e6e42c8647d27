-- ===== src/UpstreamService/Ddr/Advertised.antt =====
-- What internal/upstream/ddr.go advertises.
use rcvd.Prelude.{
  ℕ, ◌≤◌, ◌<◌, ◌≡◌, refl, sym, ap, ◌∙◌, ◌++◌, ◌⊎◌, inl, inr, Bool, true, false, not, ◌&&◌, ◌||◌,
  Option, none, some, List, [], ◌∷◌, arith, All, is_empty, Bool-cases, Option-cases,
}
use rcvd.Prelude.Int.{ℤ, pos, negsuc}
use rcvd.Text.{Text, codes}
use rcvd.UpstreamService.Ddr.{
  Ip, Net, Designation, DdrZone, Listens, advert_port, port_of, explicit_hints, derived_hints,
  ddr_hints, new_ddr_zone, advertises, bind_of, keep_hint, both_empty, if_listening,
  doh_designation, dot_designation, doq_designation,
}

abbrev pub InRange : ℕ → Type 0
InRange port = (0 < port) × (port ≤ 65535)

port_of-InRange : (p : ℤ) (n : ℕ) → port_of p ≡ some n → InRange n
port_of-InRange (pos m) n h = ground (arith, h)
port_of-InRange (negsuc m) n h = absurd (cc h)

advert_port-InRange :
    (net : Net) (addr : Text) (def : ℕ) → InRange def → InRange (advert_port net addr def)
unfolding advert_port
advert_port-InRange net addr def h = elim (Option-cases (net.split_host_port addr)) [
  | inl n ↦ rw (advert_port, n) h
  | inr ((host, port), y) ↦ elim (Option-cases (net.atoi port)) [
    | inl n ↦ rw (advert_port, y, n) h
    | inr (p, z) ↦ elim (Option-cases (port_of p)) [
      | inl n ↦ rw (advert_port, y, z, n) h
      | inr (q, w) ↦ rw (advert_port, y, z, w) (port_of-InRange p q w)
    ]
  ]
]

-- Hints of one address family that can be dialled.
abbrev pub Concrete : Bool → List Ip → Type 0
Concrete v4 ips = All (λ ip. (ip.unspecified ≡ false) × (ip.is_v4 ≡ v4)) ips

abbrev BothConcrete : List Ip × List Ip → Type 0
BothConcrete (v4, v6) = Concrete true v4 × Concrete false v6

keep_hint-BothConcrete :
    (o : Option Ip) (hints : List Ip × List Ip)
    → BothConcrete hints
    → BothConcrete (keep_hint o hints)
keep_hint-BothConcrete none hints k = k
keep_hint-BothConcrete (some ip) (v4, v6) k = ground (arith, k)

explicit_hints-BothConcrete :
    (net : Net) (addrs : List Text) → BothConcrete (explicit_hints net addrs)
unfolding explicit_hints
explicit_hints-BothConcrete net [] = (tt, tt)
explicit_hints-BothConcrete net (addr ∷ addrs) =
    keep_hint-BothConcrete (net.parse_ip addr) (explicit_hints net addrs)
      (explicit_hints-BothConcrete net addrs)

derived_hints-BothConcrete : (net : Net) (addr : Text) → BothConcrete (derived_hints net addr)
unfolding derived_hints
derived_hints-BothConcrete net addr = elim (Option-cases (net.split_host_port addr)) [
  | inl n ↦ rw (derived_hints, n) (tt, tt)
  | inr ((host, port), y) ↦
      rw (derived_hints, y) (keep_hint-BothConcrete (net.parse_ip host) both_empty (tt, tt))
]

ddr_hints-BothConcrete :
    (net : Net) (addr : Text) (ips : List Text) → BothConcrete (ddr_hints net addr ips)
unfolding ddr_hints
ddr_hints-BothConcrete net addr [] = derived_hints-BothConcrete net addr
ddr_hints-BothConcrete net addr (ip ∷ ips) = explicit_hints-BothConcrete net (ip ∷ ips)

-- The address of a listener names the port.
abbrev pub Names : Net → Text → ℕ → Type 0
Names net addr n =
    (host port : Text) × (net.split_host_port addr ≡ some (host, port))
    × (net.atoi port ≡ some (pos n))
    × InRange n

-- The port that clients reach the listener on: the one that its address names, or the default where it
-- names none.
abbrev pub IsPortOf : Net → Text → ℕ → ℕ → Type 0
IsPortOf net addr def n = Names net addr n ⊎ ((n ≡ def) × ((m : ℕ) → Names net addr m → ⊥))

port_of-InRange_back : (n : ℕ) → InRange n → port_of (pos n) ≡ some n
port_of-InRange_back n h = ground (arith, h)

port_of-pos : (p : ℤ) (n : ℕ) → port_of p ≡ some n → p ≡ pos n
port_of-pos (pos m) n h = ground (arith, h)
port_of-pos (negsuc m) n h = absurd (cc h)

advert_port-IsPortOf :
    (net : Net) (addr : Text) (def : ℕ) → IsPortOf net addr def (advert_port net addr def)
unfolding advert_port
advert_port-IsPortOf net addr def = elim (Option-cases (net.split_host_port addr)) [
  | inl n ↦ rw (advert_port, n) (inr (refl, λ m (h, p, split, a, r). ground (arith, n, split)))
  | inr ((host, port), y) ↦ elim (Option-cases (net.atoi port)) [
    | inl n ↦
        rw (advert_port, y, n)
          (inr (
            refl,
            λ m (h, p, split, a, r).
                let same : p ≡ port = ground (arith, y, split) in
                let got : net.atoi port ≡ some (pos m) =
                  ap (λ (v : Text). net.atoi v) (sym same) ∙ a in
                ground (arith, n, got),
          ))
    | inr (q, z) ↦ elim (Option-cases (port_of q)) [
      | inl n ↦
          rw (advert_port, y, z, n)
            (inr (
              refl,
              λ m (h, p, split, a, r).
                  let same : p ≡ port = ground (arith, y, split) in
                  let got : net.atoi port ≡ some (pos m) =
                    ap (λ (v : Text). net.atoi v) (sym same) ∙ a in
                  let at : q ≡ pos m = ground (arith, z, got) in
                  let none_there : port_of (pos m) ≡ none =
                    ap (λ (v : ℤ). port_of v) (sym at) ∙ n in
                  ground (arith, none_there, port_of-InRange_back m r),
            ))
      | inr (n, w) ↦
          rw (advert_port, y, z, w)
            (inl (
              host,
              port,
              refl,
              z ∙ ap (λ (v : ℤ). some v) (port_of-pos q n w),
              port_of-InRange q n w,
            ))
    ]
  ]
]

-- A designation is that of a listener that is configured, with that listener's port.
abbrev pub IsListening : Net → Listens → Designation → Type 0
IsListening net l d =
    (d.priority ≡ 1)
      × (d.doh_path ≡ true)
      × (is_empty l.doh ≡ false)
      × IsPortOf net l.doh 443 d.port
    ⊎ ((d.priority ≡ 2)
          × (d.alpn ≡ codes "dot" ∷ [])
          × (is_empty l.dot ≡ false)
          × IsPortOf net l.dot 853 d.port
        ⊎ (d.priority ≡ 3)
          × (d.alpn ≡ codes "doq" ∷ [])
          × (is_empty l.doq ≡ false)
          × IsPortOf net l.doq 853 d.port)

All-append :
    (P : Designation → Type 0) (ds es : List Designation) → All P ds → All P es → All P (ds ++ es)
All-append P [] es a b = b
All-append P (d ∷ ds) es a b = (a.0, All-append P ds es a.1 b)

All-if_listening :
    (P : Designation → Type 0) (addr : Text) (d : Designation)
    → (is_empty addr ≡ false → P d)
    → All P (if_listening addr d)
All-if_listening P [] d h = tt
All-if_listening P (c ∷ addr) d h = (h refl, tt)

-- The preferences ascend from above `p`.
abbrev pub Ascends : ℕ → List Designation → Type 0
Ascends p [] = Unit
Ascends p (d ∷ ds) = (p < d.priority) × Ascends d.priority ds

pub record IsHonest (net : Net) (l : Listens) (z : DdrZone) : Type 0 where
  pub listening : All (IsListening net l) z.designations
  pub ports : All (λ d. InRange d.port) z.designations
  pub ordered : Ascends 0 z.designations
  pub hints_v4 : Concrete true z.v4
  pub hints_v6 : Concrete false z.v6

-- Whatever the addresses are: each advertised endpoint is a listener that is configured, with the port
-- that the address of that listener names or, where it names none, the default of its protocol, which
-- is from 1 to 65535; the endpoints come in ascending order of preference, each at most once; and
-- the hints of each address family have no unspecified address.
pub new_ddr_zone-IsHonest :
    (net : Net) (host : Text) (l : Listens) (doh3 : Bool) (advertise_ips : List Text)
    → IsHonest net l (new_ddr_zone net host l doh3 advertise_ips)
unfolding new_ddr_zone
new_ddr_zone-IsHonest net host l doh3 advertise_ips = elim (Bool-cases (is_empty host)) [
  | inl nameless ↦
      rw (new_ddr_zone, nameless)
        (record { listening = tt; ports = tt; ordered = tt; hints_v4 = tt; hints_v6 = tt })
  | inr named ↦
      let doh = advert_port-InRange net l.doh 443 (omega arith, omega arith) in
      let dot = advert_port-InRange net l.dot 853 (omega arith, omega arith) in
      let doq = advert_port-InRange net l.doq 853 (omega arith, omega arith) in
      let hints = ddr_hints-BothConcrete net (bind_of l) advertise_ips in
      rw (new_ddr_zone, named)
        (record {
          listening =
              All-append (IsListening net l) _ _
                (All-append (IsListening net l) _ _
                  (All-if_listening (IsListening net l) l.doh (doh_designation net l.doh doh3)
                    (λ e. inl (refl, refl, e, advert_port-IsPortOf net l.doh 443)))
                  (All-if_listening (IsListening net l) l.dot (dot_designation net l.dot)
                    (λ e. inr (inl (refl, refl, e, advert_port-IsPortOf net l.dot 853)))))
                (All-if_listening (IsListening net l) l.doq (doq_designation net l.doq)
                  (λ e. inr (inr (refl, refl, e, advert_port-IsPortOf net l.doq 853))));
          ports = ground (arith, doh, dot, doq);
          ordered = ground arith;
          hints_v4 = hints.0;
          hints_v6 = hints.1;
        })
]

-- Something is advertised exactly if the host has a name and some listener is configured.
pub advertises-new_ddr_zone :
    (net : Net) (host : Text) (l : Listens) (doh3 : Bool) (advertise_ips : List Text)
    → advertises (new_ddr_zone net host l doh3 advertise_ips) ≡ (
        not (is_empty host)
        && (not (is_empty l.doh) || not (is_empty l.dot) || not (is_empty l.doq)))
unfolding advertises new_ddr_zone
advertises-new_ddr_zone net host l doh3 advertise_ips = ground arith
