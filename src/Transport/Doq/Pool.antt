-- ===== src/Transport/Doq/Pool.antt =====
-- The pool of internal/resolver/doq.go under concurrent calls. q.mu makes getConnection one step and
-- the test and write of recycleConn another; the close behind it comes at any later time, and a call
-- goes on using a connection that another call gives up.
use rcvd.Prelude.{
  ℕ, suc, ◌<◌, ◌≡◌, refl, Bool, true, false, Option, none, some, List, [], ◌∷◌, arith, ◌==◌, mem,
  all, ltb, if◌then◌else◌,
}
use rcvd.Transport.Doq.{Pooled, DoqResolver, is_fresh, get_connection, recycle_conn}

-- The resolver, the connections that calls hold, those that are about to be closed and those that
-- were closed by it, and the number of the next connection.
pub record Shared : Type 0 where
  pub resolver : DoqResolver
  pub held : List ℕ
  pub closing : List ℕ
  pub closed : List ℕ
  pub next : ℕ

-- The connection that getConnection closes because it has been idle for too long.
abbrev expired : Option Pooled → ℕ → List ℕ
expired none now = []
expired (some p) now = if is_fresh p now then [] else p.conn ∷ []

abbrev holding : Option ℕ → List ℕ → List ℕ
holding none held = held
holding (some c) held = c ∷ held

abbrev push_all : List ℕ → List ℕ → List ℕ
push_all [] cs = cs
push_all (x ∷ xs) cs = x ∷ push_all xs cs

-- A call gets a connection; `dials` says whether a dial would succeed.
abbrev pub after_get : Shared → ℕ → Bool → Shared
after_get s now dials =
    let (q, got) = get_connection s.resolver now (if dials then some s.next else none) in
    record s {
      resolver = q;
      held = holding got s.held;
      closed = push_all (expired s.resolver.pool now) s.closed;
      next = suc s.next;
    }

-- The locked half of recycleConn.
abbrev pub after_recycle : Shared → ℕ → Shared
after_recycle s bad = record s { resolver = recycle_conn s.resolver bad; closing = bad ∷ s.closing }

-- closeConnection
abbrev pub after_close : Shared → Shared
after_close s = elim s.resolver.pool [
  | none ↦ s
  | some p ↦ record s { resolver = record s.resolver { pool = none }; closed = p.conn ∷ s.closed }
]

-- An exchange that went well notes the time.
abbrev pub after_use : Shared → ℕ → Shared
after_use s now = elim s.resolver.pool [
  | none ↦ s
  | some p ↦ record s {
    resolver = record s.resolver { pool = some (record p { last_used = now }) };
  }
]

pub data Step (s : Shared) : Shared → Type 0 where
  get : (now : ℕ) (dials : Bool) → Step s (after_get s now dials)
  use_conn : (now : ℕ) → Step s (after_use s now)
  recycle : (bad : ℕ) → mem bad s.held ≡ true → Step s (after_recycle s bad)
  close_bad : (bad : ℕ) → mem bad s.closing ≡ true → Step s (record s { closed = bad ∷ s.closed })
  close_pool : Step s (after_close s)

pub data Reach (s : Shared) : Shared → Type 0 where
  here : Reach s s
  later : {t u : Shared} → Reach s t → Step t u → Reach s u

-- Every number is below `n`.
abbrev Old : ℕ → List ℕ → Type 0
Old n cs = all (λ c. ltb c n) cs ≡ true

abbrev Free : Option Pooled → Shared → Type 0
Free none s = Unit
Free (some p) s = (mem p.conn s.closed ≡ false) × (mem p.conn s.closing ≡ false) × (p.conn < s.next)

-- The pooled connection is open and nobody is about to close it; numbers are not used twice.
record IsSound (s : Shared) : Type 0 where
  free : Free s.resolver.pool s
  closed_old : Old s.next s.closed
  closing_old : Old s.next s.closing
  held_old : Old s.next s.held

mem_new : (n : ℕ) (cs : List ℕ) → Old n cs → mem n cs ≡ false
mem_new n [] a = refl
mem_new n (c ∷ cs) a = ground (arith, mem_new n cs)

mem-Old : (n c : ℕ) (cs : List ℕ) → Old n cs → mem c cs ≡ true → c < n
mem-Old n c [] a h = absurd (cc h)
mem-Old n c (d ∷ cs) a h = ground (arith, mem-Old n c cs)

Old-suc : (n : ℕ) (cs : List ℕ) → Old n cs → Old (suc n) cs
Old-suc n [] a = refl
Old-suc n (c ∷ cs) a = ground (arith, Old-suc n cs)

get-IsSound : (s : Shared) (now : ℕ) (dials : Bool) → IsSound s → IsSound (after_get s now dials)
unfolding get_connection
get-IsSound s now dials v = ground (
  arith,
  mem_new s.next s.closed,
  mem_new s.next s.closing,
  Old-suc s.next s.closed,
  Old-suc s.next s.closing,
  Old-suc s.next s.held,
)

use-IsSound : (s : Shared) (now : ℕ) → IsSound s → IsSound (after_use s now)
use-IsSound s now v = ground arith

recycle-IsSound :
    (s : Shared) (bad : ℕ) → mem bad s.held ≡ true → IsSound s → IsSound (after_recycle s bad)
unfolding recycle_conn
recycle-IsSound s bad h v = ground (arith, mem-Old s.next bad s.held)

close_bad-IsSound :
    (s : Shared) (bad : ℕ)
    → mem bad s.closing ≡ true
    → IsSound s
    → IsSound (record s { closed = bad ∷ s.closed })
close_bad-IsSound s bad h v = ground (arith, mem-Old s.next bad s.closing)

close_pool-IsSound : (s : Shared) → IsSound s → IsSound (after_close s)
close_pool-IsSound s v = ground arith

Step-IsSound : {s t : Shared} → Step s t → IsSound s → IsSound t
Step-IsSound {s} (get now dials) v = get-IsSound s now dials v
Step-IsSound {s} (use_conn now) v = use-IsSound s now v
Step-IsSound {s} (recycle bad h) v = recycle-IsSound s bad h v
Step-IsSound {s} (close_bad bad h) v = close_bad-IsSound s bad h v
Step-IsSound {s} close_pool v = close_pool-IsSound s v

-- A new resolver.
abbrev pub start : Shared
start = record {
  resolver = record { pool = none; doq_queries = 0; doq_idle_retries = 0 };
  held = [];
  closing = [];
  closed = [];
  next = 0;
}

Reach-IsSound : {s : Shared} → Reach start s → IsSound s
Reach-IsSound here = record { free = tt; closed_old = refl; closing_old = refl; held_old = refl }
Reach-IsSound (later r st) = Step-IsSound st (Reach-IsSound r)

recycle_other :
    (q : DoqResolver) (p : Pooled) (bad : ℕ)
    → q.pool ≡ some p
    → (p.conn == bad) ≡ false
    → (recycle_conn q bad).pool ≡ some p
unfolding recycle_conn
recycle_other q p bad pooled other = ground (arith, pooled, other)

-- In every order in which concurrent calls get, use, give up and close connections: the connection in
-- the pool was not closed by the resolver and no call is about to close it, and a call that gives up
-- another connection leaves it in the pool.
pub Reach-pool :
    {s : Shared} (p : Pooled)
    → Reach start s
    → s.resolver.pool ≡ some p
    → (mem p.conn s.closed ≡ false)
      × (mem p.conn s.closing ≡ false)
      × ((bad : ℕ) → (p.conn == bad) ≡ false → (recycle_conn s.resolver bad).pool ≡ some p)
Reach-pool {s} p r pooled =
    let v = Reach-IsSound r in
    (
      ground (arith, v, pooled),
      ground (arith, v, pooled),
      λ bad other. recycle_other s.resolver p bad pooled other,
    )
