-- ===== src/Cache/Ideal.antt =====
-- What the cache of internal/cache/cache.go promises, without a size, an order or a deletion: the last
-- response that was put under each key since the last Clear. The real cache holds a part of it.
use rcvd.Prelude.{
  ℕ, ◌+◌, ◌≡◌, refl, ◌⊎◌, inl, inr, true, not, ◌||◌, Option, none, some, List, [], ◌∷◌, arith,
  Bool-cases, Option-cases, List-cases, if◌then◌else◌,
}
use rcvd.Prelude.Int.{is_positive}
use rcvd.Text.{Text, text_eq}
use rcvd.Table.{Table, lookup, delete}
use rcvd.Dns.{Msg, DnsLib}
use rcvd.Cache.{
  CacheEntry, Cache, key_of, get, get_read, store, put, is_expired, question_agrees, ttl_for,
  seconds,
}
use rcvd.Cache.Bounds.{Call, get_call, put_call, clear_call, late_delete_call}

abbrev pub Ideal : Type 0
Ideal = Text → Option CacheEntry

abbrev pub remember : Text → CacheEntry → Ideal → Ideal
remember k e a j = if text_eq k j then some e else a j

abbrev pub ideal_get : DnsLib → Cache → Ideal → ℕ → Msg → Option Msg
ideal_get lib settings a now req = elim req.question [
  | [] ↦ none
  | q ∷ qs ↦ if not settings.enabled then none else elim (a (key_of lib req q)) [
    | none ↦ none
    | some e ↦ if is_expired e now then none else some e.response
  ]
]

unfoldable pub ideal_put : DnsLib → Cache → Ideal → ℕ → Msg → Msg → Ideal
ideal_put lib settings a now req resp = elim req.question [
  | [] ↦ a
  | q ∷ qs ↦
      if not settings.enabled || not (question_agrees lib q resp.question)
      then a
      else elim (ttl_for settings resp) [
        | none ↦ a
        | some ttl ↦
            remember (key_of lib req q) (record { response = resp; expires_at = now + seconds ttl })
              a
      ]
]

abbrev pub ideal_step : DnsLib → Cache → Ideal → Call → Ideal
ideal_step lib settings a (get_call now req) = a
ideal_step lib settings a (put_call now req resp) = ideal_put lib settings a now req resp
ideal_step lib settings a clear_call = λ k. none
ideal_step lib settings a (late_delete_call k) = a

abbrev pub ideal_run : DnsLib → Cache → Ideal → List Call → Ideal
ideal_run lib settings a [] = a
ideal_run lib settings a (k ∷ ks) = ideal_run lib settings (ideal_step lib settings a k) ks

abbrev pub nothing : Ideal
nothing k = none

-- The cache with the settings of `s` and other entries.
abbrev pub with_entries : Cache → Table CacheEntry → Cache
with_entries s m = record s { entries = m }

-- Put does the same to both: nothing, or one entry under one key.
pub put_both :
    (lib : DnsLib) (s : Cache) (m : Table CacheEntry) (a : Ideal) (now : ℕ) (req resp : Msg)
    → ((put lib (with_entries s m) now req resp ≡ with_entries s m)
        × (ideal_put lib s a now req resp ≡ a))
      ⊎ ((k : Text) × (e : CacheEntry) × (put lib (with_entries s m) now req resp
            ≡ store (with_entries s m) k e)
          × (ideal_put lib s a now req resp ≡ remember k e a))
unfolding put ideal_put ttl_for
put_both lib s m a now req resp = elim (List-cases req.question) [
  | inl e ↦ inl (rw (e, put) refl, rw (e, ideal_put) refl)
  | inr (q, qs, e) ↦
      elim (Bool-cases (not s.enabled || not (question_agrees lib q resp.question))) [
        | inl stop ↦ inl (rw (e, put, stop) refl, rw (e, ideal_put, stop) refl)
        | inr go ↦ elim (Option-cases (ttl_for s resp)) [
          | inl n ↦ inl (rw (e, put, go, n) refl, rw (e, ideal_put, go, n) refl)
          | inr (ttl, y) ↦ inr (
            key_of lib req q,
            record { response = resp; expires_at = now + seconds ttl },
            rw (e, put) (ground arith),
            rw (e, ideal_put) (ground arith),
          )
        ]
      ]
]

-- Get deletes at most an entry that has expired.
pub get_both :
    (lib : DnsLib) (s : Cache) (m : Table CacheEntry) (now : ℕ) (req : Msg)
    → ((get lib (with_entries s m) now req).0 ≡ with_entries s m)
      ⊎ ((k : Text) × (x : CacheEntry) × (lookup k m ≡ some x)
          × (is_expired x now ≡ true)
          × ((get lib (with_entries s m) now req).0 ≡ with_entries s (delete k m)))
unfolding get get_read
get_both lib s m now req = elim (List-cases req.question) [
  | inl e ↦ inl (rw (e, get, get_read) refl)
  | inr (q, qs, e) ↦ elim (Bool-cases s.enabled) [
    | inr off ↦ inl (rw (e, get, get_read) (ground arith))
    | inl on ↦ elim (Option-cases (lookup (key_of lib req q) m)) [
      | inl n ↦ inl (rw (e, get, get_read) (ground arith))
      | inr (x, y) ↦ elim (Bool-cases (is_expired x now)) [
        | inr fresh ↦ inl (rw (e, get, get_read) (ground arith))
        | inl old ↦ elim (Bool-cases (is_positive s.serve_stale_max_s)) [
          | inl stale ↦ inl (rw (e, get, get_read) (ground arith))
          | inr fast ↦ inr (key_of lib req q, x, y, old, rw (e, get, get_read) (ground arith))
        ]
      ]
    ]
  ]
]
