-- ===== src/Tests/Library.antt =====
-- A concrete DNS library that behaves as documented, and a few messages: what the examples run on.
use rcvd.Prelude.{
  ℕ, ◌≡◌, refl, Bool, true, false, Option, none, some, List, [], ◌∷◌, ◌++◌, arith, map, any,
  is_empty, ◌==◌, if◌then◌else◌, Bool-cases, Option-cases, inl, inr,
}
use rcvd.Text.{Text, codes, to_lower}
use rcvd.Dns.{Opt, Body, opt, Rr, DnsLib, EdnsLaws, is_opt}
use rcvd.Dns.RrType
use rcvd.Statistics.{Stats, Latency}
use rcvd.Cache.Key.{holds, KeyLaws}

-- TypeToString and ClassToString on a few keys.
unfoldable pub type_name : ℕ → Text
type_name t =
    if t == 1
    then codes "A"
    else if t == 5
    then codes "CNAME"
    else if t == 28
    then codes "AAAA"
    else []

unfoldable pub class_name : ℕ → Text
class_name c = if c == 1 then codes "IN" else if c == 3 then codes "CH" else []

-- The OPT behind a record whose type says it is one.
abbrev pub opt_of : Body → Opt
opt_of (opt o) = o
opt_of _ = record { udp_size = 0; dnssec_ok = false; ede = [] }

-- The last OPT of the additional section.
unfoldable pub find_opt : List Rr → Option Opt
find_opt [] = none
find_opt (rr ∷ rrs) = elim (find_opt rrs) [
  | some o ↦ some o
  | none ↦ if is_opt rr then some (opt_of rr.body) else none
]

-- The same with that OPT changed.
unfoldable pub write_opt : Opt → List Rr → List Rr
write_opt o [] = []
write_opt o (rr ∷ rrs) =
    let rest = write_opt o rrs in
    elim (find_opt rrs) [
      | some _ ↦ rr ∷ rest
      | none ↦ (if is_opt rr then record rr { body = opt o } else rr) ∷ rest
    ]

abbrev pub opt_rr : ℕ → Bool → Rr
opt_rr size dnssec_ok = record {
  name = codes ".";
  rrtype = RrType.opt;
  ttl = 0;
  body = opt (record { udp_size = size; dnssec_ok = dnssec_ok; ede = [] });
}

abbrev pub lib : DnsLib
lib = record {
  canonical_name = λ n. to_lower n;
  type_to_string = λ t. type_name t;
  class_to_string = λ c. class_name c;
  is_edns0 = λ m. find_opt m.extra;
  set_edns0 = λ m size dnssec_ok. record m { extra = m.extra ++ opt_rr size dnssec_ok ∷ [] };
  update_edns0 = λ m o. record m { extra = write_opt o m.extra };
}

type_name-plain : (t : ℕ) → holds b'|' (type_name t) ≡ false
unfolding type_name
type_name-plain t = ground arith

class_name-plain : (t : ℕ) → holds b'|' (class_name t) ≡ false
unfolding class_name
class_name-plain t = ground arith

type_name-known : (t u : ℕ) → is_empty (type_name t) ≡ false → type_name t ≡ type_name u → t ≡ u
unfolding type_name
type_name-known t u h e = ground arith

class_name-known : (t u : ℕ) → is_empty (class_name t) ≡ false → class_name t ≡ class_name u → t ≡ u
unfolding class_name
class_name-known t u h e = ground arith

pub lib-KeyLaws : KeyLaws lib
lib-KeyLaws = record {
  type_plain = type_name-plain;
  class_plain = class_name-plain;
  type_known = type_name-known;
  class_known = class_name-known;
}

find_opt-missing : (rrs : List Rr) → any is_opt rrs ≡ false → find_opt rrs ≡ none
unfolding find_opt
find_opt-missing [] h = refl
find_opt-missing (rr ∷ rrs) h = ground (arith, find_opt-missing rrs)

find_opt-present : (rrs : List Rr) → any is_opt rrs ≡ true → (o : Opt) × (find_opt rrs ≡ some o)
unfolding find_opt
find_opt-present [] h = absurd (cc h)
find_opt-present (rr ∷ rrs) h = elim (Bool-cases (any is_opt rrs)) [
  | inl y ↦ let (o, e) = find_opt-present rrs y in (o, ground (arith, e))
  | inr n ↦ (opt_of rr.body, ground (arith, find_opt-missing rrs n))
]

find_opt-append :
    (rrs : List Rr) (size : ℕ) (dnssec_ok : Bool)
    → find_opt (rrs ++ opt_rr size dnssec_ok ∷ [])
      ≡ some (record { udp_size = size; dnssec_ok = dnssec_ok; ede = [] })
unfolding find_opt
find_opt-append [] size dnssec_ok = refl
find_opt-append (rr ∷ rrs) size dnssec_ok = rw (find_opt-append rrs size dnssec_ok) refl

types-write_opt :
    (o : Opt) (rrs : List Rr) → map (λ rr. rr.rrtype) (write_opt o rrs) ≡ map (λ rr. rr.rrtype) rrs
unfolding write_opt
types-write_opt o [] = refl
types-write_opt o (rr ∷ rrs) = ground (arith, types-write_opt o rrs)

find_opt-write_missing :
    (o : Opt) (rrs : List Rr) → find_opt rrs ≡ none → find_opt (write_opt o rrs) ≡ none
unfolding find_opt write_opt
find_opt-write_missing o [] h = refl
find_opt-write_missing o (rr ∷ rrs) h = ground (arith, find_opt-write_missing o rrs)

find_opt-write :
    (o o' : Opt) (rrs : List Rr) → find_opt rrs ≡ some o → find_opt (write_opt o' rrs) ≡ some o'
unfolding find_opt write_opt
find_opt-write o o' [] h = absurd (cc h)
find_opt-write o o' (rr ∷ rrs) h = elim (Option-cases (find_opt rrs)) [
  | inl n ↦ ground (arith, n, find_opt-write_missing o' rrs n)
  | inr (p, e) ↦ ground (arith, e, find_opt-write p o' rrs e)
]

pub lib-EdnsLaws : EdnsLaws lib
lib-EdnsLaws = record {
  missing = λ m. find_opt-missing m.extra;
  present = λ m. find_opt-present m.extra;
  appends = λ m size dnssec_ok. (opt_rr size dnssec_ok, refl, refl);
  appended = λ m size dnssec_ok h. find_opt-append m.extra size dnssec_ok;
  in_place = λ m o. (write_opt o m.extra, types-write_opt o m.extra, refl);
  updated = λ m o o' h. find_opt-write o o' m.extra h;
}

abbrev pub no_latency : Latency
no_latency = record { min_us = 0; max_us = 0; total_us = 0; count = 0 }

abbrev pub no_stats : Stats
no_stats = record {
  total_queries = 0;
  cache_hits = 0;
  cache_misses = 0;
  stale_served = 0;
  blocked_queries = 0;
  blocklist_files_loaded = 0;
  denied_queries = 0;
  servfail_responses = 0;
  nxdomain_responses = 0;
  success_responses = 0;
  other_responses = 0;
  upstream_queries = 0;
  upstream_errors = 0;
  dnssec_validated = 0;
  dnssec_failed = 0;
  dnssec_unsigned = 0;
  latency = no_latency;
  mode2_latency = no_latency;
}
