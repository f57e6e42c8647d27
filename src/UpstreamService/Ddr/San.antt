-- ===== src/UpstreamService/Ddr/San.antt =====
-- The names of the generated certificate, by autogenSANHosts of internal/upstream/upstream.go.
use rcvd.Prelude.{
  ◌≡◌, refl, ◌⊎◌, inl, inr, true, false, ◌||◌, some, List, [], ◌∷◌, ◌++◌, arith, All, is_empty,
  Bool-cases, Option-cases,
}
use mathlib.Core.Path.{subst}
use rcvd.Text.{Text, codes, text_eq, text_eq_iff, text_eq_refl, has}
use rcvd.UpstreamService.Ddr.{
  Ip, Net, Listens, add_host, add_listen_host, add_hosts, autogen_san_hosts,
}

-- A name that can stand in a certificate: not empty, and no unspecified address.
abbrev pub IsName : Net → Text → Type 0
IsName net h =
    (is_empty h ≡ false) × ((ip : Ip) → net.parse_ip h ≡ some ip → ip.unspecified ≡ false)

abbrev NoTwice : List Text → Type 0
NoTwice [] = Unit
NoTwice (h ∷ hs) = (has hs h ≡ false) × NoTwice hs

-- No name stands twice, and every one can stand in a certificate.
abbrev pub IsSan : Net → List Text → Type 0
IsSan net hosts = NoTwice hosts × All (IsName net) hosts

has-snoc : (hosts : List Text) (h k : Text) → has (hosts ++ h ∷ []) k ≡ (has hosts k || text_eq h k)
unfolding has
has-snoc [] h k = ground arith
has-snoc (j ∷ hosts) h k = ground (arith, has-snoc hosts h k)

NoTwice-snoc :
    (hosts : List Text) (h : Text) → has hosts h ≡ false → NoTwice hosts → NoTwice (hosts ++ h ∷ [])
unfolding has
NoTwice-snoc [] h n d = (refl, tt)
NoTwice-snoc (j ∷ hosts) h n d = (
  ground (arith, has-snoc hosts h j, text_eq_iff j h, text_eq_iff h j, d.0, n),
  NoTwice-snoc hosts h (ground (arith, n)) d.1,
)

All-snoc :
    (net : Net) (hosts : List Text) (h : Text)
    → IsName net h
    → All (IsName net) hosts
    → All (IsName net) (hosts ++ h ∷ [])
All-snoc net [] h n a = (n, tt)
All-snoc net (j ∷ hosts) h n a = (a.0, All-snoc net hosts h n a.1)

-- add leaves the list, or appends a name that can stand in a certificate and is not there.
add_host_cases :
    (net : Net) (hosts : List Text) (h : Text)
    → ((add_host net hosts h ≡ hosts) × (IsName net h → has hosts h ≡ true))
      ⊎ ((add_host net hosts h ≡ hosts ++ h ∷ []) × (has hosts h ≡ false) × IsName net h)
unfolding add_host
add_host_cases net hosts h = elim (Bool-cases (is_empty h || has hosts h)) [
  | inl stop ↦ inl (rw (add_host, stop) refl, λ n. ground (arith, stop, n))
  | inr go ↦ elim (Option-cases (net.parse_ip h)) [
    | inl name ↦ inr (
      rw (add_host, go, name) refl,
      ground (arith, go),
      (ground (arith, go), λ ip e. absurd (ground (arith, name, e))),
    )
    | inr (ip, y) ↦ elim (Bool-cases ip.unspecified) [
      | inl any ↦ inl (ground (arith, go, y, any), λ n. absurd (ground (arith, n.1 ip y, any)))
      | inr one ↦ inr (
        ground (arith, go, y, one),
        ground (arith, go),
        (ground (arith, go), λ ip' e. ground (arith, y, e, one)),
      )
    ]
  ]
]

add_host-IsSan :
    (net : Net) (hosts : List Text) (h : Text) → IsSan net hosts → IsSan net (add_host net hosts h)
add_host-IsSan net hosts h s = elim (add_host_cases net hosts h) [
  | inl (e, f) ↦ rw e s
  | inr (e, fresh, n) ↦ rw e (NoTwice-snoc hosts h fresh s.0, All-snoc net hosts h n s.1)
]

-- A name stays.
add_host_keeps :
    (net : Net) (hosts : List Text) (h k : Text)
    → has hosts k ≡ true
    → has (add_host net hosts h) k ≡ true
add_host_keeps net hosts h k y = elim (add_host_cases net hosts h) [
  | inl (e, f) ↦ rw e y
  | inr (e, fresh, n) ↦ rw e (ground (arith, has-snoc hosts h k, y))
]

add_host_adds :
    (net : Net) (hosts : List Text) (h : Text) → IsName net h → has (add_host net hosts h) h ≡ true
add_host_adds net hosts h n = elim (add_host_cases net hosts h) [
  | inl (e, f) ↦ rw e (f n)
  | inr (e, fresh, m) ↦ rw e (ground (arith, has-snoc hosts h h, text_eq_refl h))
]

add_listen_host-IsSan :
    (net : Net) (hosts : List Text) (addr : Text)
    → IsSan net hosts
    → IsSan net (add_listen_host net hosts addr)
unfolding add_listen_host
add_listen_host-IsSan net hosts [] s = s
add_listen_host-IsSan net hosts (c ∷ addr) s =
    elim (Option-cases (net.split_host_port (c ∷ addr))) [
      | inl n ↦ rw n s
      | inr ((h, port), y) ↦ rw y (add_host-IsSan net hosts h s)
    ]

add_listen_host_keeps :
    (net : Net) (hosts : List Text) (addr k : Text)
    → has hosts k ≡ true
    → has (add_listen_host net hosts addr) k ≡ true
unfolding add_listen_host
add_listen_host_keeps net hosts [] k s = s
add_listen_host_keeps net hosts (c ∷ addr) k s =
    elim (Option-cases (net.split_host_port (c ∷ addr))) [
      | inl n ↦ rw n s
      | inr ((h, port), y) ↦ rw y (add_host_keeps net hosts h k s)
    ]

-- The host of an address that is configured.
abbrev pub IsHostOf : Net → Text → Text → Type 0
IsHostOf net addr h =
    (is_empty addr ≡ false) × ((port : Text) × (net.split_host_port addr ≡ some (h, port)))

add_listen_host_adds :
    (net : Net) (hosts : List Text) (addr h : Text)
    → IsName net h
    → IsHostOf net addr h
    → has (add_listen_host net hosts addr) h ≡ true
unfolding add_listen_host
add_listen_host_adds net hosts addr h n (given, (port, y)) =
    rw (add_listen_host, given, y) (add_host_adds net hosts h n)

add_hosts-IsSan :
    (net : Net) (hosts more : List Text) → IsSan net hosts → IsSan net (add_hosts net hosts more)
unfolding add_hosts
add_hosts-IsSan net hosts [] s = s
add_hosts-IsSan net hosts (h ∷ hs) s =
    add_hosts-IsSan net (add_host net hosts h) hs (add_host-IsSan net hosts h s)

add_hosts_keeps :
    (net : Net) (hosts more : List Text) (k : Text)
    → has hosts k ≡ true
    → has (add_hosts net hosts more) k ≡ true
unfolding add_hosts
add_hosts_keeps net hosts [] k y = y
add_hosts_keeps net hosts (h ∷ hs) k y =
    add_hosts_keeps net (add_host net hosts h) hs k (add_host_keeps net hosts h k y)

add_hosts_adds :
    (net : Net) (hosts more : List Text) (k : Text)
    → IsName net k
    → has more k ≡ true
    → has (add_hosts net hosts more) k ≡ true
unfolding add_hosts has
add_hosts_adds net hosts [] k n y = absurd (cc y)
add_hosts_adds net hosts (h ∷ hs) k n y = elim (Bool-cases (text_eq h k)) [
  | inl same ↦ add_hosts_keeps net (add_host net hosts h) hs k (
      rw (← (text_eq_iff h k).0 same) (add_host_adds net hosts h (rw ((text_eq_iff h k).0 same) n)))
  | inr other ↦ add_hosts_adds net (add_host net hosts h) hs k n (ground (arith, other, y))
]

-- The hosts that a client may connect to.
abbrev pub IsWanted : Net → Listens → List Text → Text → Type 0
IsWanted net l more h =
    (IsHostOf net l.doh h ⊎ (IsHostOf net l.dot h ⊎ IsHostOf net l.doq h))
    ⊎ ((has more h ≡ true) ⊎ ((h ≡ codes "127.0.0.1") ⊎ (h ≡ codes "localhost")))

wanted :
    (net : Net) (l : Listens) (more : List Text) (h : Text)
    → IsName net h
    → IsWanted net l more h
    → has (autogen_san_hosts net l more) h ≡ true
unfolding autogen_san_hosts
wanted net l more h n w =
    let a = add_listen_host net [] l.doh in
    let b = add_listen_host net a l.dot in
    let c = add_listen_host net b l.doq in
    let d = add_hosts net c more in
    let loop = codes "127.0.0.1" in
    let from_d = λ (y : has d h ≡ true).
      add_host_keeps net (add_host net d loop) (codes "localhost") h
        (add_host_keeps net d loop h y) in
    let from_c = λ (y : has c h ≡ true). from_d (add_hosts_keeps net c more h y) in
    elim w [
      | inl (inl doh) ↦ from_c (
          add_listen_host_keeps net b l.doq h
            (add_listen_host_keeps net a l.dot h (add_listen_host_adds net [] l.doh h n doh)))
      | inl (inr (inl dot)) ↦
          from_c (add_listen_host_keeps net b l.doq h (add_listen_host_adds net a l.dot h n dot))
      | inl (inr (inr doq)) ↦ from_c (add_listen_host_adds net b l.doq h n doq)
      | inr (inl extra) ↦ from_d (add_hosts_adds net c more h n extra)
      | inr (inr (inl e)) ↦
          add_host_keeps net (add_host net d loop) (codes "localhost") h
            (rw e (add_host_adds net d loop (subst (IsName net) e n)))
      | inr (inr (inr e)) ↦
          rw e
            (add_host_adds net (add_host net d loop) (codes "localhost") (subst (IsName net) e n))
    ]

-- The generated certificate names each host once, none empty and none an unspecified address; and
-- it names every other host that a client may connect to: those of the configured listen addresses,
-- the extra ones of the configuration, and the loopback.
pub autogen_san_hosts-IsSan :
    (net : Net) (l : Listens) (more : List Text)
    → IsSan net (autogen_san_hosts net l more)
      × ((h : Text)
          → IsName net h
          → IsWanted net l more h
          → has (autogen_san_hosts net l more) h ≡ true)
unfolding autogen_san_hosts
autogen_san_hosts-IsSan net l more =
    let a = add_listen_host-IsSan net [] l.doh (tt, tt) in
    let b = add_listen_host-IsSan net _ l.dot a in
    let c = add_listen_host-IsSan net _ l.doq b in
    let d = add_hosts-IsSan net _ more c in
    let e = add_host-IsSan net _ (codes "127.0.0.1") d in
    (add_host-IsSan net _ (codes "localhost") e, λ h n w. wanted net l more h n w)
