-- ===== src/Cache/Refinement.antt =====
-- The cache against its ideal: what it serves is what the ideal has, and nothing is lost before it is
-- full.
use rcvd.Prelude.{ℕ, ◌≡◌, refl, inl, inr, some, List, [], ◌∷◌, arith, Option-cases, List-cases}
use rcvd.Text.{Text, text_eq_iff}
use rcvd.Table.{Table, lookup, delete, lookup-delete}
use rcvd.Dns.{Msg, DnsLib}
use rcvd.Cache.{CacheEntry, Cache, Options, new, key_of, get, get_read, store, clear}
use rcvd.Cache.Bounds.{Call, get_call, put_call, clear_call, late_delete_call, step, run}
use rcvd.Cache.Honest.{store_inv}
use rcvd.Cache.Ideal.{
  Ideal, remember, nothing, ideal_get, ideal_step, ideal_run, with_entries, put_both, get_both,
}

-- Every entry is that of the ideal.
abbrev pub IsPart : Table CacheEntry → Ideal → Type 0
IsPart m a = (k : Text) (x : CacheEntry) → lookup k m ≡ some x → a k ≡ some x

store-settings :
    (s : Cache) (m : Table CacheEntry) (k : Text) (e : CacheEntry)
    → store (with_entries s m) k e ≡ with_entries s (store (with_entries s m) k e).entries
unfolding store
store-settings s m k e = refl

pub step-settings :
    (lib : DnsLib) (s : Cache) (m : Table CacheEntry) (call : Call)
    → step lib (with_entries s m) call ≡ with_entries s (step lib (with_entries s m) call).entries
unfolding step
step-settings lib s m (get_call now req) = elim (get_both lib s m now req) [
  | inl e ↦ rw e refl
  | inr (k, x, found, old, e) ↦ rw e refl
]
step-settings lib s m (put_call now req resp) = elim (put_both lib s m (nothing) now req resp) [
  | inl (e, i) ↦ rw e refl
  | inr (k, x, e, i) ↦ rw e (store-settings s m k x)
]
step-settings lib s m clear_call = unfold clear in refl
step-settings lib s m (late_delete_call k) = refl

store-IsPart :
    (lib : DnsLib) (s : Cache) (m : Table CacheEntry) (a : Ideal) (k : Text) (e : CacheEntry)
    → IsPart m a
    → IsPart (store (with_entries s m) k e).entries (remember k e a)
store-IsPart lib s m a k e part j x p = elim (store_inv lib (with_entries s m) k e j x p) [
  | inl (at, same) ↦ ground (arith, at, same, text_eq_iff k j)
  | inr (other, old) ↦ rw other (part j x old)
]

delete-IsPart : (m : Table CacheEntry) (a : Ideal) (k : Text) → IsPart m a → IsPart (delete k m) a
delete-IsPart m a k part j x p = part j x (ground (arith, lookup-delete k j m))

pub step-IsPart :
    (lib : DnsLib) (s : Cache) (m : Table CacheEntry) (a : Ideal) (call : Call)
    → IsPart m a
    → IsPart (step lib (with_entries s m) call).entries (ideal_step lib s a call)
unfolding step
step-IsPart lib s m a (get_call now req) part = elim (get_both lib s m now req) [
  | inl e ↦ rw e part
  | inr (k, x, found, old, e) ↦ rw e (delete-IsPart m a k part)
]
step-IsPart lib s m a (put_call now req resp) part = elim (put_both lib s m a now req resp) [
  | inl (e, i) ↦ rw (e, i) part
  | inr (k, x, e, i) ↦ rw (e, i) (store-IsPart lib s m a k x part)
]
step-IsPart lib s m a clear_call part = unfold clear lookup in λ k x p. absurd (cc p)
step-IsPart lib s m a (late_delete_call k) part = delete-IsPart m a k part

-- A run from the settings `s`: the settings stay, and the entries are part of the ideal.
run-IsPart :
    (lib : DnsLib) (s : Cache) (m : Table CacheEntry) (a : Ideal) (calls : List Call)
    → IsPart m a
    → (end : Table CacheEntry) × (run lib (with_entries s m) calls ≡ with_entries s end)
      × IsPart end (ideal_run lib s a calls)
unfolding run
run-IsPart lib s m a [] part = (m, refl, part)
run-IsPart lib s m a (call ∷ calls) part =
    let m' = (step lib (with_entries s m) call).entries in
    let (end, e, part') =
      run-IsPart lib s m' (ideal_step lib s a call) calls (step-IsPart lib s m a call part) in
    (end, rw (step-settings lib s m call) e, part')

get-ideal_get :
    (lib : DnsLib) (s : Cache) (m : Table CacheEntry) (a : Ideal) (now : ℕ) (req resp : Msg)
    → IsPart m a
    → (get lib (with_entries s m) now req).1 ≡ some resp
    → ideal_get lib s a now req ≡ some resp
unfolding get get_read
get-ideal_get lib s m a now req resp part h = elim (List-cases req.question) [
  | inl e ↦ let g = rw (e, get, get_read) at h in absurd (ground arith)
  | inr (q, qs, e) ↦ elim (Option-cases (lookup (key_of lib req q) m)) [
    | inl n ↦ let g = rw (e, get, get_read) at h in absurd (ground arith)
    | inr (x, y) ↦ let there = part (key_of lib req q) x y in ground (arith, e, y, h, there)
  ]
]

-- After any calls on a new cache, at any times, also if the clock went back and if calls came between
-- the two locks of a Get: what Get returns is what
-- a cache without a bound on its size would return that keeps the last accepted response under
-- each key since the last Clear. No answer that was replaced, evicted or cleared comes back.
pub get_refines :
    (lib : DnsLib) (opts : Options) (calls : List Call) (now : ℕ) (req resp : Msg)
    → (get lib (run lib (new opts) calls) now req).1 ≡ some resp
    → ideal_get lib (new opts) (ideal_run lib (new opts) nothing calls) now req ≡ some resp
get_refines lib opts calls now req resp h =
    let (end, e, part) =
      run-IsPart lib (new opts) [] nothing calls (unfold lookup in λ k x p. absurd (cc p)) in
    get-ideal_get lib (new opts) end (ideal_run lib (new opts) nothing calls) now req resp part
      (unfold new in rw e at h)
