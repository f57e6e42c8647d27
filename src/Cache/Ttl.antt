-- ===== src/Cache/Ttl.antt =====
-- The lifetimes that Put gives: the smallest TTL of the response between the configured bounds.
use Prim.Native.Nat.{min}
use rcvd.Prelude.{
  ℕ, ◌≤◌, ◌<◌, ◌≡◌, refl, ◌⊎◌, inl, inr, true, false, not, some, List, [], ◌∷◌, ◌++◌, arith, ◌==◌,
  ltb, All, keep_if, Bool-cases, if◌then◌else◌,
}
use rcvd.Prelude.Int.{is_positive, pos_part}
use rcvd.Dns.{Rr, Msg}
use rcvd.Dns.RrType
use rcvd.Cache.{Cache, is_negative, neg_ttl, min_ttl_from, min_ttl_extra, extract_min_ttl, ttl_for}

-- The smallest TTL of the records, and 86400 at most.
pub smallest_ttl : List Rr → ℕ
smallest_ttl [] = 86400
smallest_ttl (rr ∷ rrs) = min rr.ttl (smallest_ttl rrs)

-- The records whose TTL field is one.
abbrev pub timed : Msg → List Rr
timed resp = resp.answer ++ resp.ns ++ keep_if (λ rr. not (rr.rrtype == RrType.opt)) resp.extra

min_ttl_from-min :
    (m : ℕ) (rrs : List Rr) → m ≤ 86400 → min_ttl_from m rrs ≡ min m (smallest_ttl rrs)
unfolding min_ttl_from smallest_ttl
min_ttl_from-min m [] h = omega arith
min_ttl_from-min m (rr ∷ rrs) h = elim (Bool-cases (ltb rr.ttl m)) [
  | inl y ↦ rw y (ground (arith, min_ttl_from-min rr.ttl rrs))
  | inr n ↦ rw n (ground (arith, min_ttl_from-min m rrs))
]

min_ttl_extra-from :
    (m : ℕ) (rrs : List Rr)
    → min_ttl_extra m rrs ≡ min_ttl_from m (keep_if (λ rr. not (rr.rrtype == RrType.opt)) rrs)
unfolding min_ttl_extra min_ttl_from
min_ttl_extra-from m [] = refl
min_ttl_extra-from m (rr ∷ rrs) = elim (Bool-cases (rr.rrtype == RrType.opt)) [
  | inl y ↦ rw y (min_ttl_extra-from m rrs)
  | inr n ↦ rw n (min_ttl_extra-from (if ltb rr.ttl m then rr.ttl else m) rrs)
]

min_ttl_from-append :
    (m : ℕ) (xs ys : List Rr) → min_ttl_from m (xs ++ ys) ≡ min_ttl_from (min_ttl_from m xs) ys
unfolding min_ttl_from
min_ttl_from-append m [] ys = refl
min_ttl_from-append m (x ∷ xs) ys = min_ttl_from-append (if ltb x.ttl m then x.ttl else m) xs ys

smallest_ttl-le : (rrs : List Rr) → smallest_ttl rrs ≤ 86400
unfolding smallest_ttl
smallest_ttl-le [] = omega arith
smallest_ttl-le (rr ∷ rrs) = omega (arith, smallest_ttl-le rrs)

-- The three loops compute the smallest TTL over answer, authority and additional section, OPT left
-- out, except that 86400 stands for "no record": a response all of whose TTLs are a day or more
-- gets 60 seconds, as an empty one does.
pub extract_min_ttl-smallest :
    (resp : Msg)
    → extract_min_ttl resp
      ≡ (if smallest_ttl (timed resp) == 86400 then 60 else smallest_ttl (timed resp))
unfolding extract_min_ttl
extract_min_ttl-smallest resp = rw e refl
  where
    kept : List Rr
    kept = keep_if (λ rr. not (rr.rrtype == RrType.opt)) resp.extra

    e :
        min_ttl_extra (min_ttl_from (min_ttl_from 86400 resp.answer) resp.ns) resp.extra
        ≡ smallest_ttl (resp.answer ++ resp.ns ++ kept)
    e =
        rw
          (
            min_ttl_extra-from,
            ← min_ttl_from-append 86400 resp.answer resp.ns,
            ← min_ttl_from-append 86400 (resp.answer ++ resp.ns) kept,
          )
          (omega (
            arith,
            min_ttl_from-min 86400 (resp.answer ++ resp.ns ++ kept),
            smallest_ttl-le (resp.answer ++ resp.ns ++ kept),
          ))

-- Every record lives a day or longer.
long_lived : (rrs : List Rr) → All (λ rr. 86400 ≤ rr.ttl) rrs → smallest_ttl rrs ≡ 86400
unfolding smallest_ttl
long_lived [] h = refl
long_lived (rr ∷ rrs) h = let ih = long_lived rrs h.1 in omega arith

-- A response whose records all live a day or longer is given 60 seconds (before the floor ttl_min).
pub extract_min_ttl_of_long :
    (resp : Msg) → All (λ rr. 86400 ≤ rr.ttl) (timed resp) → extract_min_ttl resp ≡ 60
extract_min_ttl_of_long resp h = rw (extract_min_ttl-smallest, long_lived (timed resp) h)

-- The lifetime of a stored response is at most ttl_max, and at least ttl_min where that is not
-- above ttl_max; that of a negative response is at most neg_ttl_max, and such a response is
-- stored only where that limit is positive and its SOA has a TTL.
pub ttl_for_bounds :
    (c : Cache) (resp : Msg) (ttl : ℕ)
    → ttl_for c resp ≡ some ttl
    → ((is_negative resp ≡ true)
        × (is_positive c.neg_ttl_max ≡ true)
        × (0 < ttl)
        × (ttl ≤ pos_part c.neg_ttl_max)
        × (ttl ≤ neg_ttl resp))
      ⊎ ((is_negative resp ≡ false) × (ttl ≤ c.ttl_max) × (c.ttl_min ≤ c.ttl_max → c.ttl_min ≤ ttl))
unfolding ttl_for
ttl_for_bounds c resp ttl h = elim (Bool-cases (is_negative resp)) [
  | inl y ↦ inl (y, ground arith, ground arith, ground arith, ground arith)
  | inr n ↦ inr (n, ground arith, λ w. ground arith)
]
