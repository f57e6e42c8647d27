-- ===== src/Cache/Serving.antt =====
-- What Get and GetStale return: when, and for which request the answer was stored.
use rcvd.Prelude.{
  ℕ, ◌+◌, ◌-◌, ◌≤◌, ◌≡◌, refl, true, ◌&&◌, none, some, List, [], ◌∷◌, arith, leb, ltb,
  if◌then◌else◌,
}
use rcvd.Prelude.Int.{is_positive, pos_part}
use rcvd.Text.{Text, text_eq_refl}
use rcvd.Table.{lookup, lookup-insert}
use rcvd.Dns.{Question, Msg, DnsLib}
use rcvd.Cache.{
  CacheEntry, Cache, key_of, do_flag, get, get_read, get_stale, store, put, is_expired,
  question_agrees, ttl_for, seconds,
}

lookup-store_self :
    (c : Cache) (k : Text) (e : CacheEntry) → lookup k (store c k e).entries ≡ some e
unfolding store
lookup-store_self c k e = rw (lookup-insert k k e, text_eq_refl k)

module _ (lib : DnsLib) where
  -- Put of a response that agrees with the request and has a lifetime stores it.
  put_stores :
      (c : Cache) (now : ℕ) (req resp : Msg) (q : Question) (qs : List Question) (ttl : ℕ)
      → c.enabled ≡ true
      → req.question ≡ q ∷ qs
      → question_agrees lib q resp.question ≡ true
      → ttl_for c resp ≡ some ttl
      → put lib c now req resp
        ≡ store c (key_of lib req q) (record { response = resp; expires_at = now + seconds ttl })
  unfolding put
  put_stores c now req resp q qs ttl on e agrees t = rw (e, put) (ground arith)

  get_at :
      (c : Cache) (now : ℕ) (req : Msg) (q : Question) (qs : List Question) (x : CacheEntry)
      → c.enabled ≡ true
      → req.question ≡ q ∷ qs
      → lookup (key_of lib req q) c.entries ≡ some x
      → (get lib c now req).1 ≡ (if is_expired x now then none else some x.response)
  unfolding get
  get_at c now req q qs x on e y = rw (e, get, get_read) (ground arith)

  get_stale_at :
      (c : Cache) (now : ℕ) (req : Msg) (q : Question) (qs : List Question) (x : CacheEntry)
      → c.enabled ≡ true
      → req.question ≡ q ∷ qs
      → lookup (key_of lib req q) c.entries ≡ some x
      → get_stale lib c now req ≡ (
          if is_positive c.serve_stale_max_s
            && ltb x.expires_at now
            && leb (now - x.expires_at) (seconds (pos_part c.serve_stale_max_s))
          then some x.response
          else none)
  unfolding get_stale
  get_stale_at c now req q qs x on e y = rw (e, get_stale) (ground arith)

  -- A stored response is served by Get through the last nanosecond of its lifetime and no longer;
  -- from then on GetStale serves it, if it is enabled, for serve_stale_max_s seconds and no longer.
  pub get-put :
      (c : Cache) (now later : ℕ) (req resp : Msg) (q : Question) (qs : List Question) (ttl : ℕ)
      → c.enabled ≡ true
      → req.question ≡ q ∷ qs
      → question_agrees lib q resp.question ≡ true
      → ttl_for c resp ≡ some ttl
      → ((get lib (put lib c now req resp) later req).1
          ≡ (if leb later (now + seconds ttl) then some resp else none))
        × (get_stale lib (put lib c now req resp) later req ≡ (
            if is_positive c.serve_stale_max_s
              && ltb (now + seconds ttl) later
              && leb (later - (now + seconds ttl)) (seconds (pos_part c.serve_stale_max_s))
            then some resp
            else none))
  get-put c now later req resp q qs ttl on e agrees t =
      rw (put_stores c now req resp q qs ttl on e agrees t) (
        rw (get_at after later req q qs entry on' e found) (unfold is_expired in ground arith),
        rw (get_stale_at after later req q qs entry on' e found) (unfold store in refl),
      )
    where
      entry : CacheEntry
      entry = record { response = resp; expires_at = now + seconds ttl }

      after : Cache
      after = store c (key_of lib req q) entry

      on' : after.enabled ≡ true
      on' = unfold store in on

      found : lookup (key_of lib req q) after.entries ≡ some entry
      found = lookup-store_self c (key_of lib req q) entry

  -- Two types that the library has no name for share a cache key: after a Put for the one, Get
  -- serves the stored response for a request of the other, through its lifetime, though the
  -- response answers another question.
  pub unnamed_types_collide :
      (c : Cache) (now later : ℕ) (req req' resp : Msg) (q q' : Question) (qs qs' : List Question)
      (ttl : ℕ)
      → c.enabled ≡ true
      → req.question ≡ q ∷ qs
      → req'.question ≡ q' ∷ qs'
      → q.name ≡ q'.name
      → q.qclass ≡ q'.qclass
      → do_flag lib req ≡ do_flag lib req'
      → lib.type_to_string q.qtype ≡ []
      → lib.type_to_string q'.qtype ≡ []
      → question_agrees lib q resp.question ≡ true
      → ttl_for c resp ≡ some ttl
      → later ≤ now + seconds ttl
      → (get lib (put lib c now req resp) later req').1 ≡ some resp
  unnamed_types_collide c now later req req' resp q q' qs qs' ttl on e e' n cl d t t' agrees life
        fresh =
      rw (put_stores c now req resp q qs ttl on e agrees life)
        (rw (get_at after later req' q' qs' entry on' e' found) (unfold is_expired in ground arith))
    where
      entry : CacheEntry
      entry = record { response = resp; expires_at = now + seconds ttl }

      after : Cache
      after = store c (key_of lib req q) entry

      on' : after.enabled ≡ true
      on' = unfold store in on

      same : key_of lib req' q' ≡ key_of lib req q
      same = unfold key_of in cc (n, cl, d, t, t')

      found : lookup (key_of lib req' q') after.entries ≡ some entry
      found = rw same (lookup-store_self c (key_of lib req q) entry)
