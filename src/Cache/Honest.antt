-- ===== src/Cache/Honest.antt =====
-- What the cache holds was stored for the request that it is served to.
use rcvd.Prelude.{
  ℕ, ◌≡◌, sym, ap, ◌∙◌, ◌⊎◌, inl, inr, true, false, not, ◌&&◌, some, List, [], ◌∷◌, arith, leb,
  length, is_empty, is_some, Bool-cases, Option-cases, List-cases, if◌then◌else◌,
}
use rcvd.Text.{Text, text_eq, text_eq_iff}
use rcvd.Table.{Table, lookup, delete, lookup-insert, lookup-delete}
use rcvd.Dns.{Question, Msg, DnsLib}
use rcvd.Cache.{
  CacheEntry, Cache, Options, new, key_of, get, get_read, evict_oldest, oldest_from, store, clear,
  question_agrees,
}
use rcvd.Cache.Key.{KeyLaws, key_of-injective}
use rcvd.Cache.Bounds.{
  get_cases, put_cases, Call, get_call, put_call, clear_call, late_delete_call, step, run,
}

module _ (lib : DnsLib) where
  -- Every entry stands under the key of a request whose question agrees with the response's.
  abbrev pub IsHonest : Cache → Type 0
  IsHonest c =
      (k : Text) (x : CacheEntry)
      → lookup k c.entries ≡ some x
      → (req : Msg) × (q : Question) × (k ≡ key_of lib req q)
        × (question_agrees lib q x.response.question ≡ true)

  delete-IsHonest :
      (c : Cache) (k : Text) → IsHonest c → IsHonest (record c { entries = delete k c.entries })
  delete-IsHonest c k h j x p = h j x (ground (arith, lookup-delete k j c.entries))

  lookup-evict_oldest :
      (m : Table CacheEntry) (j : Text) (x : CacheEntry)
      → lookup j (evict_oldest m) ≡ some x
      → lookup j m ≡ some x
  unfolding evict_oldest
  lookup-evict_oldest m j x p = elim (Bool-cases (is_empty (oldest_from [] 0 m))) [
    | inl y ↦ ground arith
    | inr n ↦ ground (arith, lookup-delete (oldest_from [] 0 m) j m)
  ]

  -- An entry found after a store is the new one, under its key, or one that was there.
  pub store_inv :
      (c : Cache) (k : Text) (e : CacheEntry) (j : Text) (x : CacheEntry)
      → lookup j (store c k e).entries ≡ some x
      → ((k ≡ j) × (e ≡ x)) ⊎ ((text_eq k j ≡ false) × (lookup j c.entries ≡ some x))
  unfolding store
  store_inv c k e j x p = elim (Bool-cases (text_eq k j)) [
    | inl y ↦ inl ((text_eq_iff k j).0 y, cc (rw (lookup-insert k j e, y) at p))
    | inr n ↦ inr (n, kept (rw (lookup-insert k j e, n) at p))
  ]
    where
      kept :
          lookup j (
              if leb c.max_size (length c.entries) && not (is_some (lookup k c.entries))
              then evict_oldest c.entries
              else c.entries)
            ≡ some x
          → lookup j c.entries ≡ some x
      kept q =
          elim (Bool-cases
            (leb c.max_size (length c.entries) && not (is_some (lookup k c.entries)))) [
              | inl y ↦ lookup-evict_oldest c.entries j x (rw y at q)
              | inr n ↦ rw n at q
            ]

  step-IsHonest : (c : Cache) (k : Call) → IsHonest c → IsHonest (step lib c k)
  unfolding step
  step-IsHonest c (get_call now req) h = elim (get_cases lib c now req) [
    | inl e ↦ rw e h
    | inr (k, e) ↦ rw e (delete-IsHonest c k h)
  ]
  step-IsHonest c (put_call now req resp) h = elim (put_cases lib c now req resp) [
    | inl e ↦ rw e h
    | inr (q, qs, ttl, e, agrees, t, stored) ↦ rw stored (λ j x p.
        elim (store_inv c (key_of lib req q) _ j x p) [
          | inl (at, same) ↦ (req, q, sym at, rw (← same) agrees)
          | inr (other, old) ↦ h j x old
        ])
  ]
  step-IsHonest c clear_call h = unfold clear lookup in λ j x p. cc
  step-IsHonest c (late_delete_call k) h = delete-IsHonest c k h

  run-IsHonest : (c : Cache) (ks : List Call) → IsHonest c → IsHonest (run lib c ks)
  unfolding run
  run-IsHonest c [] h = h
  run-IsHonest c (k ∷ ks) h = run-IsHonest (step lib c k) ks (step-IsHonest c k h)

  -- A hit of Get stands in the table under the request's key.
  get_hit :
      (c : Cache) (now : ℕ) (req resp : Msg)
      → (get lib c now req).1 ≡ some resp
      → (q : Question) × (qs : List Question) × (x : CacheEntry) × (req.question ≡ q ∷ qs)
        × (lookup (key_of lib req q) c.entries ≡ some x)
        × (x.response ≡ resp)
  unfolding get
  get_hit c now req resp h = elim (List-cases req.question) [
    | inl e ↦ let g = rw (e, get, get_read) at h in absurd (ground arith)
    | inr (q, qs, e) ↦
        let g = rw (e, get, get_read) at h in
        elim (Option-cases (lookup (key_of lib req q) c.entries)) [
          | inl n ↦ absurd (ground arith)
          | inr (x, y) ↦ (q, qs, x, e, y, ground arith)
        ]
  ]

  agrees-same :
      (q q' : Question) (rs : List Question)
      → q.name ≡ q'.name
      → q.qtype ≡ q'.qtype
      → q.qclass ≡ q'.qclass
      → question_agrees lib q rs ≡ question_agrees lib q' rs
  agrees-same q q' rs n t c =
      ap (λ (z : Question). question_agrees lib z rs)
        (λ i. record { name = n i; qtype = t i; qclass = c i })

  honest_hit :
      (laws : KeyLaws lib) (c : Cache) (now : ℕ) (req resp : Msg)
      → IsHonest c
      → (get lib c now req).1 ≡ some resp
      → (q : Question) × (qs : List Question) × (req.question ≡ q ∷ qs)
        × (is_empty (lib.type_to_string q.qtype) ≡ false
            → is_empty (lib.class_to_string q.qclass) ≡ false
            → question_agrees lib q resp.question ≡ true)
  honest_hit laws c now req resp honest h =
      let (q, qs, x, e, found, same) = get_hit c now req resp h in
      let (req', q', k, agrees) = honest (key_of lib req q) x found in
      let (n, t, cl, d) = (key_of-injective lib laws req req' q q').0 k in
      (
        q,
        qs,
        e,
        λ known_type known_class.
            agrees-same q q' resp.question n (laws.type_known q.qtype q'.qtype known_type t)
              (laws.class_known q.qclass q'.qclass known_class cl)
            ∙ rw (← same) agrees,
      )

  -- After any calls on a new cache, what Get returns for a request whose type and class have a name
  -- in the library carries no question or the request's own: same type, same class, and the same
  -- name up to case. No put under one name, type or class is ever served under another.
  pub get_answers_question :
      (laws : KeyLaws lib) (opts : Options) (ks : List Call) (now : ℕ) (req resp : Msg)
      → (get lib (run lib (new opts) ks) now req).1 ≡ some resp
      → (q : Question) × (qs : List Question) × (req.question ≡ q ∷ qs)
        × (is_empty (lib.type_to_string q.qtype) ≡ false
            → is_empty (lib.class_to_string q.qclass) ≡ false
            → question_agrees lib q resp.question ≡ true)
  get_answers_question laws opts ks now req resp h =
      honest_hit laws (run lib (new opts) ks) now req resp
        (run-IsHonest (new opts) ks (unfold new lookup in λ k x p. cc)) h
