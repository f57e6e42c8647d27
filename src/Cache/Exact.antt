-- ===== src/Cache/Exact.antt =====
-- As long as the cache has not been full, it is as good as its ideal.
use rcvd.Prelude.{
  ℕ, suc, ◌+◌, ◌≤◌, ◌<◌, ◌≡◌, refl, ◌⊎◌, inl, inr, true, false, none, some, List, [], ◌∷◌, arith,
  leb, length, Bool-cases, Option-cases, List-cases,
}
use rcvd.Text.{Text, text_eq, text_eq_iff, text_eq_refl}
use rcvd.Table.{
  Table, lookup, insert, delete, lookup-insert, lookup-delete, length-insert, length-delete-le,
}
use rcvd.Dns.{Question, Msg, DnsLib}
use rcvd.Cache.{CacheEntry, Cache, Options, new, key_of, get, get_read, store, clear, is_expired}
use rcvd.Cache.Bounds.{Call, get_call, put_call, clear_call, late_delete_call, step, run}
use rcvd.Cache.Ideal.{
  Ideal, remember, nothing, ideal_get, ideal_step, ideal_run, with_entries, put_both, get_both,
}
use rcvd.Cache.Refinement.{IsPart, step-IsPart, step-settings}

-- From `t` on the clock of the calls does not go back, and it is at most `now` at their end.
abbrev pub Ascending : ℕ → List Call → ℕ → Type 0
Ascending t [] now = t ≤ now
Ascending t (get_call u req ∷ calls) now = (t ≤ u) × Ascending u calls now
Ascending t (put_call u req resp ∷ calls) now = (t ≤ u) × Ascending u calls now
Ascending t (clear_call ∷ calls) now = Ascending t calls now
Ascending t (late_delete_call k ∷ calls) now = Ascending t calls now

-- How many of the calls put.
abbrev pub puts : List Call → ℕ
puts [] = 0
puts (get_call u req ∷ calls) = puts calls
puts (put_call u req resp ∷ calls) = suc (puts calls)
puts (clear_call ∷ calls) = puts calls
puts (late_delete_call k ∷ calls) = puts calls

-- No call came between the two locks of a Get.
abbrev pub IsSequential : List Call → Type 0
IsSequential [] = Unit
IsSequential (late_delete_call k ∷ calls) = ⊥
IsSequential (get_call u req ∷ calls) = IsSequential calls
IsSequential (put_call u req resp ∷ calls) = IsSequential calls
IsSequential (clear_call ∷ calls) = IsSequential calls

-- What the ideal has and the table has not is over.
abbrev IsWhole : ℕ → Table CacheEntry → Ideal → Type 0
IsWhole t m a =
    (k : Text) (x : CacheEntry) → a k ≡ some x → (lookup k m ≡ some x) ⊎ (is_expired x t ≡ true)

later-IsWhole : (t u : ℕ) (m : Table CacheEntry) (a : Ideal) → t ≤ u → IsWhole t m a → IsWhole u m a
unfolding is_expired
later-IsWhole t u m a h w k x e = elim (w k x e) [
  | inl y ↦ inl y
  | inr old ↦ inr (ground (arith, old, h))
]

delete-IsWhole :
    (t : ℕ) (m : Table CacheEntry) (a : Ideal) (k : Text) (x : CacheEntry)
    → lookup k m ≡ some x
    → is_expired x t ≡ true
    → IsWhole t m a
    → IsWhole t (delete k m) a
delete-IsWhole t m a k x found old w j y e = elim (w j y e) [
  | inr over ↦ inr over
  | inl there ↦ elim (Bool-cases (text_eq k j)) [
    | inl same ↦
        let at : lookup j m ≡ some x = rw (← (text_eq_iff k j).0 same) found in
        let eq : x ≡ y = ground (arith, at, there) in inr (rw (← eq) old)
    | inr other ↦ inl (ground (arith, lookup-delete k j m, other, there))
  ]
]

-- Where there is room, a store is an insertion.
store_roomy :
    (s : Cache) (m : Table CacheEntry) (k : Text) (e : CacheEntry)
    → length m < s.max_size
    → (store (with_entries s m) k e).entries ≡ insert k e m
unfolding store
store_roomy s m k e h =
    let room : leb s.max_size (length m) ≡ false = ground (arith, h) in rw room refl

insert-IsWhole :
    (t : ℕ) (m : Table CacheEntry) (a : Ideal) (k : Text) (e : CacheEntry)
    → IsWhole t m a
    → IsWhole t (insert k e m) (remember k e a)
insert-IsWhole t m a k e w j y h = elim (Bool-cases (text_eq k j)) [
  | inl same ↦ inl (ground (arith, lookup-insert k j e m, same, h))
  | inr other ↦ elim (w j y (ground (arith, other, h))) [
    | inl there ↦ inl (ground (arith, lookup-insert k j e m, other, there))
    | inr over ↦ inr over
  ]
]

get-length :
    (lib : DnsLib) (s : Cache) (m : Table CacheEntry) (u : ℕ) (req : Msg)
    → length (get lib (with_entries s m) u req).0.entries ≤ length m
get-length lib s m u req = elim (get_both lib s m u req) [
  | inl e ↦ rw e (omega arith)
  | inr (k, x, found, old, e) ↦ rw e (length-delete-le k m)
]

get-IsWhole :
    (lib : DnsLib) (s : Cache) (m : Table CacheEntry) (a : Ideal) (t u : ℕ) (req : Msg)
    → t ≤ u
    → IsWhole t m a
    → IsWhole u (get lib (with_entries s m) u req).0.entries a
get-IsWhole lib s m a t u req h w = elim (get_both lib s m u req) [
  | inl e ↦ rw e (later-IsWhole t u m a h w)
  | inr (k, x, found, old, e) ↦
      rw e (delete-IsWhole u m a k x found old (later-IsWhole t u m a h w))
]

put-IsWhole :
    (lib : DnsLib) (s : Cache) (m : Table CacheEntry) (a : Ideal) (t u : ℕ) (req resp : Msg)
    → length m < s.max_size
    → t ≤ u
    → IsWhole t m a
    → IsWhole u
        (step lib (with_entries s m) (put_call u req resp)).entries
        (ideal_step lib s a (put_call u req resp))
      × (length (step lib (with_entries s m) (put_call u req resp)).entries ≤ suc (length m))
unfolding step
put-IsWhole lib s m a t u req resp room h w = elim (put_both lib s m a u req resp) [
  | inl (e, i) ↦ rw (e, i) (later-IsWhole t u m a h w, omega arith)
  | inr (k, x, e, i) ↦
      rw (e, i, store_roomy s m k x room)
        (insert-IsWhole u m a k x (later-IsWhole t u m a h w), ground (arith, length-insert k x m))
]

-- The table at the end of a run that never fills it.
run-IsWhole :
    (lib : DnsLib) (s : Cache) (m : Table CacheEntry) (a : Ideal) (t now : ℕ) (calls : List Call)
    → Ascending t calls now
    → IsSequential calls
    → length m + puts calls ≤ s.max_size
    → IsPart m a
    → IsWhole t m a
    → (end : Table CacheEntry) × (run lib (with_entries s m) calls ≡ with_entries s end)
      × IsPart end (ideal_run lib s a calls)
      × IsWhole now end (ideal_run lib s a calls)
unfolding run step
run-IsWhole lib s m a t now [] asc seq room part w = (m, refl, part, later-IsWhole t now m a asc w)
run-IsWhole lib s m a t now (get_call u req ∷ calls) asc seq room part w =
    let k = get_call u req in
    let less = get-length lib s m u req in
    let (end, e, p, v) =
      run-IsWhole lib s (step lib (with_entries s m) k).entries a u now calls asc.1 seq
        (omega arith) (step-IsPart lib s m a k part) (get-IsWhole lib s m a t u req asc.0 w) in
    (end, rw (step-settings lib s m k) e, p, v)
run-IsWhole lib s m a t now (put_call u req resp ∷ calls) asc seq room part w =
    let k = put_call u req resp in
    let (w', more) = put-IsWhole lib s m a t u req resp (omega arith) asc.0 w in
    let (end, e, p, v) =
      run-IsWhole lib s (step lib (with_entries s m) k).entries (ideal_step lib s a k) u now calls
        asc.1 seq (omega arith) (step-IsPart lib s m a k part) w' in
    (end, rw (step-settings lib s m k) e, p, v)
run-IsWhole lib s m a t now (clear_call ∷ calls) asc seq room part w =
    let (end, e, p, v) =
      run-IsWhole lib s (step lib (with_entries s m) clear_call).entries nothing t now calls asc seq
        (unfold clear in omega arith) (step-IsPart lib s m a clear_call part)
        (λ k x h. absurd (cc h)) in
    (end, rw (step-settings lib s m clear_call) e, p, v)
run-IsWhole lib s m a t now (late_delete_call k ∷ calls) asc seq room part w = absurd seq

get_whole :
    (lib : DnsLib) (s : Cache) (m : Table CacheEntry) (a : Ideal) (now : ℕ) (req : Msg)
    → IsPart m a
    → IsWhole now m a
    → (get lib (with_entries s m) now req).1 ≡ ideal_get lib s a now req
unfolding get get_read
get_whole lib s m a now req part w = elim (List-cases req.question) [
  | inl e ↦ rw (e, get, get_read) refl
  | inr (q, qs, e) ↦ elim (Option-cases (lookup (key_of lib req q) m)) [
    | inr (x, y) ↦ let there = part (key_of lib req q) x y in ground (arith, e, y, there)
    | inl n ↦ elim (Option-cases (a (key_of lib req q))) [
      | inl dry ↦ ground (arith, e, n, dry)
      | inr (x, y) ↦ elim (w (key_of lib req q) x y) [
        | inl there ↦ absurd (ground (arith, n, there))
        | inr over ↦ ground (arith, e, n, y, over)
      ]
    ]
  ]
]

-- If the clock does not go back, there were no more puts than the cache has room for, and no call came
-- between the two locks of a Get, then Get returns exactly what the cache without a bound would: no
-- answer is lost before its time. (Where a Put comes between them, its answer is lost.)
pub get_exact :
    (lib : DnsLib) (opts : Options) (calls : List Call) (now : ℕ) (req : Msg)
    → Ascending 0 calls now
    → IsSequential calls
    → puts calls ≤ (new opts).max_size
    → (get lib (run lib (new opts) calls) now req).1
      ≡ ideal_get lib (new opts) (ideal_run lib (new opts) nothing calls) now req
get_exact lib opts calls now req asc seq room =
    let (end, e, part, w) =
      run-IsWhole lib (new opts) [] nothing 0 now calls asc seq (omega arith)
        (unfold lookup in λ k x p. absurd (cc p)) (λ k x h. absurd (cc h)) in
    let same : run lib (new opts) calls ≡ with_entries (new opts) end = unfold new in e in
    rw same (get_whole lib (new opts) end (ideal_run lib (new opts) nothing calls) now req part w)

-- The delete of a Get that read before a Put and locks behind it loses what was put.
pub late_delete-loses :
    (lib : DnsLib) (c : Cache) (q : Question) (qs : List Question) (now : ℕ) (req : Msg)
    → req.question ≡ q ∷ qs
    → (get lib (step lib c (late_delete_call (key_of lib req q))) now req).1 ≡ none
unfolding get get_read step
late_delete-loses lib c q qs now req e =
    let k = key_of lib req q in
    let gone : lookup k (delete k c.entries) ≡ none =
      ground (arith, lookup-delete k k c.entries, text_eq_refl k) in
    rw (e, get, get_read, gone) (ground arith)
