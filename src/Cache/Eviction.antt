-- ===== src/Cache/Eviction.antt =====
-- Which entry evictOldest removes.
use rcvd.Prelude.{
  ℕ, suc, ◌≤◌, ◌<◌, ◌≡◌, refl, sym, All, ◌⊎◌, inl, inr, false, none, some, [], ◌∷◌, arith, ltb,
  length, is_empty, Elem, Bool-cases, if◌then◌else◌,
}
use rcvd.Text.{Text, text_eq}
use rcvd.Table.{
  Table, lookup, Distinct, Distinct-delete, lookup-delete, length-delete_of_some, lookup_of_Elem,
  All-lookup,
}
use rcvd.Cache.{CacheEntry, oldest_from, evict_oldest}

-- The key and time are those of an entry, and no entry expires sooner.
record Oldest (m : Table CacheEntry) (key : Text) : Type 0 where
  victim : CacheEntry
  stored : lookup key m ≡ some victim
  soonest : (k : Text) (e : CacheEntry) → lookup k m ≡ some e → victim.expires_at ≤ e.expires_at

abbrev Later : ℕ → Text × CacheEntry → Type 0
Later t x = t ≤ x.1.expires_at

-- What the loop holds at its end: the time `t` of the key it returns, which is the initial one or
-- that of an entry of the rest, and no entry of the rest is sooner.
abbrev LoopEnd : Text → ℕ → Table CacheEntry → Text → ℕ → Type 0
LoopEnd key t m key' t' =
    (((key' ≡ key) × (t' ≡ t)) ⊎ ((e : CacheEntry) × Elem (key', e) m × (e.expires_at ≡ t')))
    × (is_empty key' ≡ false)
    × (t' ≤ t)
    × All (Later t') m

not_empty_of : (k : Text) → text_eq k [] ≡ false → is_empty k ≡ false
unfolding text_eq
not_empty_of [] h = cc
not_empty_of (c ∷ k) h = refl

oldest_from_lem :
    (m : Table CacheEntry) (key : Text) (t : ℕ)
    → is_empty key ≡ false
    → lookup [] m ≡ none
    → (key' : Text) × (t' : ℕ) × (oldest_from key t m ≡ key') × LoopEnd key t m key' t'
unfolding oldest_from lookup
oldest_from_lem [] key t ne h = (key, t, refl, (inl (refl, refl), ne, omega arith, tt))
oldest_from_lem ((k, e) ∷ m) key t ne h =
    let named : text_eq k [] ≡ false = ground arith in
    elim (Bool-cases (ltb e.expires_at t)) [
      | inl y ↦
          let (key', t', same, (at, ne', le, all)) =
            oldest_from_lem m k e.expires_at (not_empty_of k named) (ground arith) in
          (
            key',
            t',
            rw (ne, y) same,
            (
              inr (elim at [
                | inl (p, time) ↦ (e, inl (rw p), sym time)
                | inr (e', x, time) ↦ (e', inr x, time)
              ]),
              ne',
              ground arith,
              (le, all),
            ),
          )
      | inr n ↦
          let (key', t', same, (at, ne', le, all)) = oldest_from_lem m key t ne (ground arith) in
          (
            key',
            t',
            rw (ne, n) same,
            (
              elim at [ inl p ↦ inl p | inr (e', x, time) ↦ inr (e', inr x, time) ],
              ne',
              le,
              (ground arith, all),
            ),
          )
    ]

-- On a table that is not empty the loop ends with the key of an entry that expires soonest.
oldest_from-Oldest :
    (m : Table CacheEntry)
    → 0 < length m
    → Distinct m
    → lookup [] m ≡ none
    → (is_empty (oldest_from [] 0 m) ≡ false) × Oldest m (oldest_from [] 0 m)
oldest_from-Oldest [] h d named = absurd (omega arith)
oldest_from-Oldest ((k, e) ∷ m) h d named =
    let named' : text_eq k [] ≡ false = unfold lookup in ground arith in
    let rest : lookup [] m ≡ none = unfold lookup in ground arith in
    let (key', t', same, (at, ne, le, all)) =
      oldest_from_lem m k e.expires_at (not_empty_of k named') rest in
    let found : (v : CacheEntry) × Elem (key', v) ((k, e) ∷ m) × (v.expires_at ≡ t') = elim at [
      | inl (p, time) ↦ (e, inl (rw p), sym time)
      | inr (v, x, time) ↦ (v, inr x, time)
    ] in
    let whole : oldest_from [] 0 ((k, e) ∷ m) ≡ key' = unfold oldest_from in same in
    (
      rw whole ne,
      rw whole (record {
        victim = found.0;
        stored = lookup_of_Elem key' found.0 ((k, e) ∷ m) d found.1;
        soonest = λ j x p.
            let later : t' ≤ x.expires_at = All-lookup (Later t') j x ((k, e) ∷ m) (le, all) p in
            ground (arith, found.2);
      }),
    )

-- evictOldest removes exactly one entry, one that expires soonest, and leaves every other key.
pub evict_oldest_soonest :
    (m : Table CacheEntry)
    → 0 < length m
    → Distinct m
    → lookup [] m ≡ none
    → (key : Text) × (e : CacheEntry) × (lookup key m ≡ some e)
      × ((k : Text) (x : CacheEntry) → lookup k m ≡ some x → e.expires_at ≤ x.expires_at)
      × ((k : Text) → lookup k (evict_oldest m) ≡ (if text_eq key k then none else lookup k m))
unfolding evict_oldest
evict_oldest_soonest m h d named =
    let (ne, o) = oldest_from-Oldest m h d named in
    (
      oldest_from [] 0 m,
      o.victim,
      o.stored,
      o.soonest,
      λ k. rw ne (lookup-delete (oldest_from [] 0 m) k m),
    )

pub evict_oldest-shrinks :
    (m : Table CacheEntry)
    → 0 < length m
    → Distinct m
    → lookup [] m ≡ none
    → suc (length (evict_oldest m)) ≤ length m
unfolding evict_oldest
evict_oldest-shrinks m h d named =
    let (ne, o) = oldest_from-Oldest m h d named in
    rw ne (length-delete_of_some (oldest_from [] 0 m) m (rw o.stored))

pub Distinct-evict_oldest : (m : Table CacheEntry) → Distinct m → Distinct (evict_oldest m)
unfolding evict_oldest
Distinct-evict_oldest m d = elim (Bool-cases (is_empty (oldest_from [] 0 m))) [
  | inl y ↦ rw y d
  | inr n ↦ rw n (Distinct-delete _ m d)
]

pub named-evict_oldest :
    (m : Table CacheEntry) → lookup [] m ≡ none → lookup [] (evict_oldest m) ≡ none
unfolding evict_oldest
named-evict_oldest m h = elim (Bool-cases (is_empty (oldest_from [] 0 m))) [
  | inl y ↦ rw y h
  | inr n ↦ rw n (ground (arith, lookup-delete (oldest_from [] 0 m) [] m))
]
