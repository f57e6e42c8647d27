-- ===== src/Cache/Bounds.antt =====
-- The size bound and the well-formedness of the cache, for every sequence of calls.
use rcvd.Prelude.{
  ℕ, ◌+◌, ◌≤◌, ◌<◌, ◌≡◌, refl, ◌∙◌, List-cases, ◌⊎◌, inl, inr, true, false, not, ◌&&◌, ◌||◌, none,
  some, List, [], ◌∷◌, ◌++◌, arith, leb, length, is_empty, is_some, Bool-cases, Option-cases,
  if◌then◌else◌,
}
use rcvd.Prelude.Int.{is_positive, pos_part}
use rcvd.Text.{Text, text_eq_iff}
use rcvd.Table.{
  Table, lookup, insert, delete, Distinct, Distinct-insert, Distinct-delete, lookup-insert,
  lookup-delete, length-insert, length-delete-le,
}
use rcvd.Dns.{Question, Msg, DnsLib}
use rcvd.Cache.{
  CacheEntry, Options, Cache, new, key_of, do_flag, get, get_read, delete_key, evict_oldest, store,
  put, clear, is_expired, question_agrees, ttl_for, seconds,
}
use rcvd.Cache.Eviction.{evict_oldest-shrinks, Distinct-evict_oldest, named-evict_oldest}

pub record IsValid (c : Cache) : Type 0 where
  pub room : 0 < c.max_size
  pub bounded : length c.entries ≤ c.max_size
  pub distinct : Distinct c.entries
  -- no entry has the empty key, which evictOldest takes for "none yet"
  pub named : lookup [] c.entries ≡ none

named-insert :
    (k : Text) (e : CacheEntry) (m : Table CacheEntry)
    → is_empty k ≡ false
    → lookup [] m ≡ none
    → lookup [] (insert k e m) ≡ none
named-insert k e m ne h = ground (arith, lookup-insert k [] e m, text_eq_iff k [])

length-store :
    (c : Cache) (k : Text) (e : CacheEntry) → IsValid c → length (store c k e).entries ≤ c.max_size
unfolding store
length-store c k e v = elim (Bool-cases (is_some (lookup k c.entries))) [
  | inl y ↦ ground (arith, length-insert k e c.entries)
  | inr n ↦ elim (Bool-cases (leb c.max_size (length c.entries))) [
    | inl full ↦
        rw (n, full)
          (ground
            (arith, length-insert k e (evict_oldest c.entries), evict_oldest-shrinks c.entries))
    | inr room ↦ rw (n, room) (ground (arith, length-insert k e c.entries))
  ]
]

pub store-IsValid :
    (c : Cache) (k : Text) (e : CacheEntry) → is_empty k ≡ false → IsValid c → IsValid (store c k e)
store-IsValid c k e ne v = record {
  room = unfold store in v.room;
  bounded = unfold store in length-store c k e v;
  distinct =
      unfold store in
      elim (Bool-cases (leb c.max_size (length c.entries) && not (is_some (lookup k c.entries)))) [
        | inl y ↦ rw y (Distinct-insert k e _ (Distinct-evict_oldest c.entries v.distinct))
        | inr n ↦ rw n (Distinct-insert k e _ v.distinct)
      ];
  named =
      unfold store in
      elim (Bool-cases (leb c.max_size (length c.entries) && not (is_some (lookup k c.entries)))) [
        | inl y ↦ rw y (named-insert k e _ ne (named-evict_oldest c.entries v.named))
        | inr n ↦ rw n (named-insert k e _ ne v.named)
      ];
}

is_empty-append_mid : (p : Text) (b : ℕ) (s : Text) → is_empty (p ++ b ∷ s) ≡ false
is_empty-append_mid [] b s = refl
is_empty-append_mid (c ∷ p) b s = refl

key_of_nonempty : (lib : DnsLib) (req : Msg) (q : Question) → is_empty (key_of lib req q) ≡ false
unfolding key_of
key_of_nonempty lib req q = is_empty-append_mid _ b'|' (do_flag lib req)

new-IsValid : (opts : Options) → IsValid (new opts)
unfolding new
new-IsValid opts = record {
  room = ground arith;
  bounded = ground arith;
  distinct = tt;
  named = unfold lookup in refl;
}

-- Get leaves the cache or deletes one key.
pub get_cases :
    (lib : DnsLib) (c : Cache) (now : ℕ) (req : Msg)
    → ((get lib c now req).0 ≡ c)
      ⊎ ((k : Text) × ((get lib c now req).0 ≡ record c { entries = delete k c.entries }))
unfolding get get_read
get_cases lib c now req = elim (List-cases req.question) [
  | inl e ↦ inl (rw (e, get, get_read))
  | inr (q, qs, e) ↦ elim (Bool-cases c.enabled) [
    | inr off ↦ inl (rw (e, get, get_read) (ground arith))
    | inl on ↦ elim (Option-cases (lookup (key_of lib req q) c.entries)) [
      | inl n ↦ inl (rw (e, get, get_read) (ground arith))
      | inr (x, y) ↦ elim (Bool-cases (is_expired x now)) [
        | inr fresh ↦ inl (rw (e, get, get_read) (ground arith))
        | inl old ↦ elim (Bool-cases (is_positive c.serve_stale_max_s)) [
          | inl stale ↦ inl (rw (e, get, get_read) (ground arith))
          | inr none_stale ↦ inr (key_of lib req q, rw (e, get, get_read) (ground arith))
        ]
      ]
    ]
  ]
]

delete-IsValid :
    (c : Cache) (k : Text) → IsValid c → IsValid (record c { entries = delete k c.entries })
delete-IsValid c k v = record {
  room = v.room;
  bounded = omega (arith, length-delete-le k c.entries, v.bounded);
  distinct = Distinct-delete k c.entries v.distinct;
  named = ground (arith, lookup-delete k [] c.entries, v.named);
}

get-IsValid :
    (lib : DnsLib) (c : Cache) (now : ℕ) (req : Msg) → IsValid c → IsValid (get lib c now req).0
get-IsValid lib c now req v = elim (get_cases lib c now req) [
  | inl e ↦ rw e v
  | inr (k, e) ↦ rw e (delete-IsValid c k v)
]

-- Put leaves the cache or stores one entry under the request's key.
pub put_cases :
    (lib : DnsLib) (c : Cache) (now : ℕ) (req resp : Msg)
    → (put lib c now req resp ≡ c)
      ⊎ ((q : Question) × (qs : List Question) × (ttl : ℕ) × (req.question ≡ q ∷ qs)
          × (question_agrees lib q resp.question ≡ true)
          × (ttl_for c resp ≡ some ttl)
          × (put lib c now req resp
              ≡ store c
                  (key_of lib req q)
                  (record { response = resp; expires_at = now + seconds ttl })))
unfolding put
put_cases lib c now req resp = elim (List-cases req.question) [
  | inl e ↦ inl (rw (e, put))
  | inr (q, qs, e) ↦
      elim (Bool-cases (not c.enabled || not (question_agrees lib q resp.question))) [
        | inl stop ↦ inl (rw (e, put) (ground arith))
        | inr go ↦ elim (Option-cases (ttl_for c resp)) [
          | inl n ↦ inl (rw (e, put) (ground arith))
          | inr (ttl, y) ↦ inr (q, qs, ttl, e, ground arith, y, rw (e, put) (ground arith))
        ]
      ]
]

put-IsValid :
    (lib : DnsLib) (c : Cache) (now : ℕ) (req resp : Msg)
    → IsValid c
    → IsValid (put lib c now req resp)
put-IsValid lib c now req resp v = elim (put_cases lib c now req resp) [
  | inl e ↦ rw e v
  | inr (q, qs, ttl, e, agrees, t, stored) ↦
      rw stored (store-IsValid c (key_of lib req q) _ (key_of_nonempty lib req q) v)
]

-- The calls that change the cache, each with its time, and the delete of a Get between whose locks
-- other calls came, of whatever key.
pub data Call : Type 0 where
  get_call : ℕ → Msg → Call
  put_call : ℕ → Msg → Msg → Call
  clear_call : Call
  late_delete_call : Text → Call

unfoldable pub step : DnsLib → Cache → Call → Cache
step lib c (get_call now req) = (get lib c now req).0
step lib c (put_call now req resp) = put lib c now req resp
step lib c clear_call = clear c
step lib c (late_delete_call k) = delete_key (some k) c

unfoldable pub run : DnsLib → Cache → List Call → Cache
unfolding step
run lib c [] = c
run lib c (k ∷ ks) = run lib (step lib c k) ks

step-IsValid : (lib : DnsLib) (c : Cache) (k : Call) → IsValid c → IsValid (step lib c k)
unfolding step
step-IsValid lib c (get_call now req) v = get-IsValid lib c now req v
step-IsValid lib c (put_call now req resp) v = put-IsValid lib c now req resp v
step-IsValid lib c clear_call v =
    unfold clear lookup in
    record { room = v.room; bounded = omega arith; distinct = tt; named = refl }
step-IsValid lib c (late_delete_call k) v = delete-IsValid c k v

max_size-step : (lib : DnsLib) (c : Cache) (k : Call) → (step lib c k).max_size ≡ c.max_size
unfolding step
max_size-step lib c (get_call now req) = elim (get_cases lib c now req) [
  | inl e ↦ rw e
  | inr (k, e) ↦ rw e
]
max_size-step lib c (put_call now req resp) = elim (put_cases lib c now req resp) [
  | inl e ↦ rw e
  | inr (q, qs, ttl, e, agrees, t, stored) ↦ rw stored (unfold store in refl)
]
max_size-step lib c clear_call = unfold clear in refl
max_size-step lib c (late_delete_call k) = refl

run_lem :
    (lib : DnsLib) (ks : List Call) (c : Cache)
    → IsValid c
    → IsValid (run lib c ks) × ((run lib c ks).max_size ≡ c.max_size)
unfolding run
run_lem lib [] c v = (v, refl)
run_lem lib (k ∷ ks) c v =
    let (v', e) = run_lem lib ks (step lib c k) (step-IsValid lib c k v) in
    (v', e ∙ max_size-step lib c k)

-- From New on, whatever is put, read and cleared at whatever times, also where calls come between the
-- two locks of a Get, the cache is well formed, and
-- it never holds more entries than the configured maximum, or 4096 where that is not positive.
pub run-new-IsValid :
    (lib : DnsLib) (opts : Options) (ks : List Call)
    → IsValid (run lib (new opts) ks)
      × (length (run lib (new opts) ks).entries
          ≤ (if is_positive opts.max_size then pos_part opts.max_size else 4096))
run-new-IsValid lib opts ks =
    let (v, e) = run_lem lib ks (new opts) (new-IsValid opts) in
    let start : (new opts).max_size
        ≡ (if is_positive opts.max_size then pos_part opts.max_size else 4096) =
      unfold new in refl in
    (v, rw (← (e ∙ start)) v.bounded)
