-- ===== src/Transport/Dot/Answers.antt =====
-- What Resolve of internal/resolver/dot.go returns and what it leaves in the pool.
use rcvd.Prelude.{
  ◌+◌, ◌≤◌, ◌≡◌, refl, ◌∙◌, ◌⊎◌, inl, inr, true, none, some, [], ◌++◌, arith, length, ltb, ◌==◌,
  Bool-cases, Option-cases,
}
use mathlib.Core.Path.{subst}
use rcvd.Prelude.Result.{Result, ok, err, Result-cases}
use rcvd.Text.{Text}
use rcvd.Dns.{Msg}
use rcvd.Framing.{frame, read_frame}
use rcvd.Framing.RoundTrip.{Fits, read_frame-frame}
use rcvd.Transport.{Codec}
use rcvd.Transport.Dot.{
  TlsResolver, Exchange, DotError, no_pack, too_long, is_pooled, get_connection, close_connection,
  receive, resolve_once, resolve,
}

-- What an exchange may leave: an answer with the query's ID and the connection still pooled, or an
-- error and an empty pool, unless the query itself was at fault.
abbrev pub IsSettled : Msg → TlsResolver × Result DotError Msg → Type 0
IsSettled msg (t, ok resp) = (resp.id ≡ msg.id) × (is_pooled t ≡ true)
IsSettled msg (t, err e) = (t.conn ≡ none) ⊎ ((e ≡ no_pack) ⊎ (e ≡ too_long))

receive-IsSettled :
    (codec : Codec) (t : TlsResolver) (msg : Msg) (incoming : Text)
    → IsSettled msg (receive codec t msg incoming)
unfolding receive close_connection is_pooled
receive-IsSettled codec t msg incoming = elim (Option-cases (read_frame incoming)) [
  | inl e ↦ rw (receive, e) (inl refl)
  | inr ((buf, rest), e) ↦ elim (Option-cases (codec.unpack buf)) [
    | inl bad ↦ rw (receive, e, bad) (inl refl)
    | inr (resp, parsed) ↦ elim (Bool-cases (resp.id == msg.id)) [
      | inl same ↦ rw (receive, e, parsed, same) (ground arith, refl)
      | inr other ↦ rw (receive, e, parsed, other) (inl refl)
    ]
  ]
]

-- Without a connection the pool is empty.
get_connection-none :
    (t : TlsResolver) (x : Exchange)
    → (get_connection t x).1 ≡ none
    → (get_connection t x).0.conn ≡ none
unfolding get_connection
get_connection-none t x h = ground arith

resolve_once-IsSettled :
    (codec : Codec) (t : TlsResolver) (x : Exchange) (msg : Msg)
    → IsSettled msg (resolve_once codec t x msg)
unfolding resolve_once close_connection
resolve_once-IsSettled codec t x msg = elim (Option-cases (get_connection t x).1) [
  | inl e ↦ rw (resolve_once, e) (inl (get_connection-none t x e))
  | inr (c, e) ↦ elim (Option-cases (codec.pack msg)) [
    | inl bad ↦ rw (resolve_once, e, bad) (inr (inl refl))
    | inr (buf, packed) ↦ elim (Bool-cases (ltb 65535 (length buf))) [
      | inl long ↦ rw (resolve_once, e, packed, long) (inr (inr refl))
      | inr short ↦ elim (Bool-cases x.writes) [
        | inl sent ↦ rw (resolve_once, e, packed, short, sent) (receive-IsSettled codec _ msg _)
        | inr unsent ↦ rw (resolve_once, e, packed, short, unsent) (inl refl)
      ]
    ]
  ]
]

-- Whatever the network does: an answer that Resolve returns has the ID of the query, and its
-- connection is kept; after an error no connection is kept, unless the query did not pack or is too
-- long, so no later query can read what was left behind by a failed one.
pub resolve-IsSettled :
    (codec : Codec) (t : TlsResolver) (x y : Exchange) (msg : Msg)
    → IsSettled msg (resolve codec t x y msg)
unfolding resolve
resolve-IsSettled codec t x y msg =
    let counted : TlsResolver = record t { dot_queries = t.dot_queries + 1 } in
    let first = resolve_once-IsSettled codec counted x msg in
    elim (Result-cases (resolve_once codec counted x msg).1) [
      | inl (resp, e) ↦
          rw (resolve, e)
            (subst (λ z. IsSettled msg ((resolve_once codec counted x msg).0, z)) e first)
      | inr (e', e) ↦ elim (Bool-cases (is_pooled counted)) [
        | inl pooled ↦ rw (resolve, e, pooled) (resolve_once-IsSettled codec _ y msg)
        | inr dry ↦
            rw (resolve, e, dry)
              (subst (λ z. IsSettled msg ((resolve_once codec counted x msg).0, z)) e first)
      ]
    ]

-- A failed exchange with a query that can be sent leaves the pool empty, and the count as it was.
dot_queries-resolve_once :
    (codec : Codec) (t : TlsResolver) (x : Exchange) (msg : Msg)
    → (resolve_once codec t x msg).0.dot_queries ≡ t.dot_queries
unfolding resolve_once get_connection receive close_connection
dot_queries-resolve_once codec t x msg = ground arith

dropped :
    (codec : Codec) (t : TlsResolver) (x : Exchange) (msg : Msg) (e : DotError) (buf : Text)
    → codec.pack msg ≡ some buf
    → length buf ≤ 65535
    → (resolve_once codec t x msg).1 ≡ err e
    → (resolve_once codec t x msg).0.conn ≡ none
unfolding resolve_once get_connection receive close_connection
dropped codec t x msg e buf packed short h = ground (arith, packed, short, h)

-- A fresh connection that answers.
answered_by :
    (codec : Codec) (t : TlsResolver) (y : Exchange) (msg resp : Msg) (buf reply later : Text)
    → t.conn ≡ none
    → codec.pack msg ≡ some buf
    → length buf ≤ 65535
    → y.dial ≡ some (record { unread = [] })
    → y.writes ≡ true
    → y.arrives (frame buf) ≡ frame reply ++ later
    → Fits reply
    → codec.unpack reply ≡ some resp
    → resp.id ≡ msg.id
    → resolve_once codec t y msg ≡ (record t { conn = some (record { unread = later }) }, ok resp)
unfolding resolve_once get_connection receive
answered_by codec t y msg resp buf reply later dry packed short dialed writes arrives fits parsed
      same =
    let read : read_frame (y.arrives (frame buf)) ≡ some (reply, later) =
      rw arrives (read_frame-frame reply later fits) in
    ground (arith, dry, packed, short, dialed, writes, read, parsed, same)

-- A query that a pooled connection fails, for whatever reason, is answered if a fresh connection
-- answers it: the server may have closed the old one long ago.
pub resolve_recovers :
    (codec : Codec) (t : TlsResolver) (x y : Exchange) (msg resp : Msg) (e : DotError)
    (buf reply later : Text)
    → is_pooled t ≡ true
    → (resolve_once codec (record t { dot_queries = t.dot_queries + 1 }) x msg).1 ≡ err e
    → codec.pack msg ≡ some buf
    → length buf ≤ 65535
    → y.dial ≡ some (record { unread = [] })
    → y.writes ≡ true
    → y.arrives (frame buf) ≡ frame reply ++ later
    → Fits reply
    → codec.unpack reply ≡ some resp
    → resp.id ≡ msg.id
    → resolve codec t x y msg ≡ (
      record t { conn = some (record { unread = later }); dot_queries = t.dot_queries + 1 },
      ok resp,
    )
unfolding resolve is_pooled
resolve_recovers codec t x y msg resp e buf reply later pooled failed packed short dialed writes
      arrives fits parsed same =
    let counted : TlsResolver = record t { dot_queries = t.dot_queries + 1 } in
    let t' = (resolve_once codec counted x msg).0 in
    let count = dot_queries-resolve_once codec counted x msg in
    rw (resolve, failed, pooled)
      (answered_by codec t' y msg resp buf reply later
          (dropped codec counted x msg e buf packed short failed) packed short dialed writes arrives
          fits parsed same
        ∙ rw count refl)
