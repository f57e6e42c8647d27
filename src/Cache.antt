-- ===== src/Cache.antt =====
-- internal/cache/cache.go: the response cache. Times are nanoseconds, `now` is time.Now() at the
-- call. A method returns the new cache beside its result; what a lock protects is one step.
pub mod Key
pub mod Ttl
pub mod Eviction
pub mod Bounds
pub mod Serving
pub mod Honest
pub mod Ideal
pub mod Refinement
pub mod Exact
use rcvd.Prelude.{
  ℕ, ◌+◌, ◌-◌, ◌*◌, Bool, true, false, not, ◌&&◌, ◌||◌, Option, none, some, List, [], ◌∷◌, ◌++◌,
  leb, ltb, ◌==◌, length, is_empty, is_some, if◌then◌else◌,
}
use rcvd.Prelude.Int.{ℤ, pos, is_positive, pos_part}
use rcvd.Text.{Text, codes, text_eq}
use rcvd.Table.{Table, lookup, insert, delete}
use rcvd.Dns.{Question, Body, soa, Rr, Msg, DnsLib}
use rcvd.Dns.Rcode
use rcvd.Dns.RrType

pub record CacheEntry : Type 0 where
  pub response : Msg
  pub expires_at : ℕ

-- IsExpired
unfoldable pub is_expired : CacheEntry → ℕ → Bool
is_expired e now = ltb e.expires_at now

pub record Options : Type 0 where
  pub enabled : Bool
  pub max_size : ℤ
  pub ttl_min : ℤ
  pub ttl_max : ℤ
  pub neg_ttl_max : ℤ
  pub serve_stale_max_s : ℤ

-- The sizes that New makes positive, or not negative, are natural numbers.
pub record Cache : Type 0 where
  pub enabled : Bool
  pub max_size : ℕ
  pub ttl_min : ℕ
  pub ttl_max : ℕ
  pub neg_ttl_max : ℤ
  pub serve_stale_max_s : ℤ
  pub entries : Table CacheEntry

-- New
unfoldable pub new : Options → Cache
new opts = record {
  enabled = opts.enabled;
  max_size = if is_positive opts.max_size then pos_part opts.max_size else 4096;
  ttl_min = pos_part opts.ttl_min;
  ttl_max = if is_positive opts.ttl_max then pos_part opts.ttl_max else 86400;
  neg_ttl_max = opts.neg_ttl_max;
  serve_stale_max_s = opts.serve_stale_max_s;
  entries = [];
}

-- time.Duration(s) * time.Second
abbrev pub seconds : ℕ → ℕ
seconds s = s * 1_000_000_000

-- The flag of the key: the DO bit of the request's OPT.
unfoldable pub do_flag : DnsLib → Msg → Text
do_flag lib req = elim (lib.is_edns0 req) [
  | none ↦ codes "0"
  | some o ↦ if o.dnssec_ok then codes "1" else codes "0"
]

-- cacheKey, for the request's first question.
unfoldable pub key_of : DnsLib → Msg → Question → Text
key_of lib req q =
    q.name
    ++ b'|' ∷ lib.type_to_string q.qtype
    ++ b'|' ∷ lib.class_to_string q.qclass
    ++ b'|' ∷ do_flag lib req

-- Get up to the write lock: the key that it is going to delete, if any, and what it returns.
unfoldable pub get_read : DnsLib → Cache → ℕ → Msg → Option Text × Option Msg
get_read lib c now req = elim req.question [
  | [] ↦ (none, none)
  | q ∷ qs ↦ if not c.enabled then (none, none) else elim (lookup (key_of lib req q) c.entries) [
    | none ↦ (none, none)
    | some e ↦
        if is_expired e now
        then (if is_positive c.serve_stale_max_s then none else some (key_of lib req q), none)
        else (none, some e.response)
  ]
]

-- The delete under the write lock, which looks at nothing.
abbrev pub delete_key : Option Text → Cache → Cache
delete_key none c = c
delete_key (some k) c = record c { entries = delete k c.entries }

-- Get, where no other call comes between its two locks.
unfoldable pub get : DnsLib → Cache → ℕ → Msg → Cache × Option Msg
unfolding get_read
get lib c now req = let (late, found) = get_read lib c now req in (delete_key late c, found)

-- GetStale
unfoldable pub get_stale : DnsLib → Cache → ℕ → Msg → Option Msg
get_stale lib c now req = elim req.question [
  | [] ↦ none
  | q ∷ qs ↦
      if not c.enabled || not (is_positive c.serve_stale_max_s)
      then none
      else elim (lookup (key_of lib req q) c.entries) [
        | none ↦ none
        | some e ↦
            if leb now e.expires_at
            then none
            else if ltb (seconds (pos_part c.serve_stale_max_s)) (now - e.expires_at)
            then none
            else some e.response
      ]
]

-- isNegative
unfoldable pub is_negative : Msg → Bool
is_negative resp =
    resp.rcode == Rcode.name_error || resp.rcode == Rcode.success && is_empty resp.answer

-- The loop of negTTL.
unfoldable pub soa_ttl : List Rr → ℕ
soa_ttl [] = 0
soa_ttl (rr ∷ rrs) = elim rr.body [ soa ↦ rr.ttl | _ ↦ soa_ttl rrs ]

-- negTTL
unfoldable pub neg_ttl : Msg → ℕ
neg_ttl resp = soa_ttl resp.ns

-- One of the three loops of extractMinTTL.
unfoldable pub min_ttl_from : ℕ → List Rr → ℕ
min_ttl_from m [] = m
min_ttl_from m (rr ∷ rrs) = min_ttl_from (if ltb rr.ttl m then rr.ttl else m) rrs

-- The loop over the additional records, which skips the OPT pseudo-record.
unfoldable pub min_ttl_extra : ℕ → List Rr → ℕ
min_ttl_extra m [] = m
min_ttl_extra m (rr ∷ rrs) =
    min_ttl_extra (if rr.rrtype == RrType.opt then m else if ltb rr.ttl m then rr.ttl else m) rrs

-- extractMinTTL
unfoldable pub extract_min_ttl : Msg → ℕ
extract_min_ttl resp =
    let m = min_ttl_extra (min_ttl_from (min_ttl_from 86400 resp.answer) resp.ns) resp.extra in
    if m == 86400 then 60 else m

-- The guard of Put on the response's own question.
unfoldable pub question_agrees : DnsLib → Question → List Question → Bool
question_agrees lib q [] = true
question_agrees lib q (r ∷ []) =
    q.qtype == r.qtype
    && q.qclass == r.qclass
    && text_eq (lib.canonical_name q.name) (lib.canonical_name r.name)
question_agrees lib q (r ∷ s ∷ rs) = false

-- The lifetime that Put gives a response, in seconds; `none` where it does not store it.
unfoldable pub ttl_for : Cache → Msg → Option ℕ
ttl_for c resp =
    if is_negative resp
    then (let ttl = neg_ttl resp in
        if not (is_positive c.neg_ttl_max) || ttl == 0
        then none
        else some (if ltb (pos_part c.neg_ttl_max) ttl then pos_part c.neg_ttl_max else ttl))
    else (let ttl = extract_min_ttl resp in
        let floored = if ltb ttl c.ttl_min then c.ttl_min else ttl in
        some (if ltb c.ttl_max floored then c.ttl_max else floored))

-- The loop of evictOldest: the best key and its time so far.
unfoldable pub oldest_from : Text → ℕ → Table CacheEntry → Text
oldest_from key t [] = key
oldest_from key t ((k, e) ∷ m) =
    let better = is_empty key || ltb e.expires_at t in
    oldest_from (if better then k else key) (if better then e.expires_at else t) m

-- evictOldest; the zero time is the initial `oldestTime`, which no test reads.
unfoldable pub evict_oldest : Table CacheEntry → Table CacheEntry
evict_oldest m = let key = oldest_from [] 0 m in if is_empty key then m else delete key m

-- The locked part of Put.
unfoldable pub store : Cache → Text → CacheEntry → Cache
store c key e =
    let room =
      if leb c.max_size (length c.entries) && not (is_some (lookup key c.entries))
      then evict_oldest c.entries
      else c.entries in
    record c { entries = insert key e room }

-- Put
unfoldable pub put : DnsLib → Cache → ℕ → Msg → Msg → Cache
put lib c now req resp = elim req.question [
  | [] ↦ c
  | q ∷ qs ↦
      if not c.enabled || not (question_agrees lib q resp.question)
      then c
      else elim (ttl_for c resp) [
        | none ↦ c
        | some ttl ↦
            store c (key_of lib req q) (record { response = resp; expires_at = now + seconds ttl })
      ]
]

-- Clear
unfoldable pub clear : Cache → Cache
clear c = record c { entries = [] }

-- Size
unfoldable pub size : Cache → ℕ
size c = length c.entries

pub record Stats : Type 0 where
  pub size_now : ℕ
  pub max_size : ℕ
  pub ttl_min : ℕ
  pub ttl_max : ℕ
  pub neg_ttl_max : ℤ
  pub serve_stale_max_s : ℤ

-- GetStats
unfoldable pub get_stats : Cache → Stats
get_stats c = record {
  size_now = length c.entries;
  max_size = c.max_size;
  ttl_min = c.ttl_min;
  ttl_max = c.ttl_max;
  neg_ttl_max = c.neg_ttl_max;
  serve_stale_max_s = c.serve_stale_max_s;
}

-- NegativeCachingEnabled
unfoldable pub negative_caching_enabled : Cache → Bool
negative_caching_enabled c = is_positive c.neg_ttl_max

-- ServeStaleEnabled
unfoldable pub serve_stale_enabled : Cache → Bool
serve_stale_enabled c = is_positive c.serve_stale_max_s
