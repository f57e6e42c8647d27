-- ===== src/Transport/Doq/Recovery.antt =====
-- What a second exchange of Resolve in internal/resolver/doq.go makes good.
use rcvd.Prelude.{
  ℕ, ◌+◌, ◌≤◌, ◌≡◌, ◌∙◌, inl, inr, true, Option, none, some, ◌++◌, arith, length, ◌==◌, Bool-cases,
  Option-cases,
}
use rcvd.Text.{Text}
use rcvd.Dns.{Msg, DnsLib}
use rcvd.Framing.{frame, read_frame}
use rcvd.Framing.RoundTrip.{Fits, read_frame-frame}
use rcvd.Transport.{Codec}
use rcvd.Transport.Doq.{
  Pooled, DoqResolver, DoqError, Exchange, is_fresh, get_connection, recycle_conn,
  doq_response_matches_query, doq_response_usable, answered, failed, receive, exchange_on,
  reconnect, exchange_once, log_retry, resolve,
}

-- The connection that getConnection returns is the pooled one.
get_connection-pool :
    (q : DoqResolver) (now : ℕ) (dial : Option ℕ) (c : ℕ)
    → (get_connection q now dial).1 ≡ some c
    → (p : Pooled) × ((get_connection q now dial).0.pool ≡ some p) × ((p.conn == c) ≡ true)
unfolding get_connection
get_connection-pool q now dial c h = elim (Option-cases q.pool) [
  | inl dry ↦ elim (Option-cases dial) [
    | inl off ↦ absurd (ground arith)
    | inr (d, on) ↦ (record { conn = d; last_used = now }, ground arith, ground arith)
  ]
  | inr (p, pooled) ↦ elim (Bool-cases (is_fresh p now)) [
    | inl fresh ↦ (p, ground arith, ground arith)
    | inr old ↦ elim (Option-cases dial) [
      | inl off ↦ absurd (ground arith)
      | inr (d, on) ↦ (record { conn = d; last_used = now }, ground arith, ground arith)
    ]
  ]
]

-- A stream-scoped failure takes the connection out of the pool.
receive_drops :
    (lib : DnsLib) (codec : Codec) (q : DoqResolver) (c done : ℕ) (msg : Msg) (incoming : Text)
    (p : Pooled) (e : DoqError)
    → q.pool ≡ some p
    → (p.conn == c) ≡ true
    → (receive lib codec q c done msg incoming).1 ≡ failed true e
    → (receive lib codec q c done msg incoming).0.pool ≡ none
unfolding receive recycle_conn
receive_drops lib codec q c done msg incoming p e pooled same h = ground (arith, pooled, same, h)

exchange_on_drops :
    (lib : DnsLib) (codec : Codec) (q : DoqResolver) (c : ℕ) (x : Exchange) (msg : Msg) (p : Pooled)
    (e : DoqError)
    → q.pool ≡ some p
    → (p.conn == c) ≡ true
    → (exchange_on lib codec q c x msg).1 ≡ failed true e
    → (exchange_on lib codec q c x msg).0.pool ≡ none
unfolding exchange_on recycle_conn
exchange_on_drops lib codec q c x msg p e pooled same h = elim (Option-cases (codec.pack msg)) [
  | inl bad ↦ absurd (ground (arith, bad, h))
  | inr (buf, packed) ↦
      ground (arith, packed, receive_drops lib codec q c x.done msg (x.arrives (frame buf)) p e)
]

reconnect_drops :
    (lib : DnsLib) (codec : Codec) (q : DoqResolver) (x : Exchange) (msg : Msg) (e : DoqError)
    → (reconnect lib codec q x msg).1 ≡ failed true e
    → (reconnect lib codec q x msg).0.pool ≡ none
unfolding reconnect
reconnect_drops lib codec q x msg e h = elim (Option-cases (get_connection q x.now x.redial).1) [
  | inl dry ↦ absurd (ground (arith, dry, h))
  | inr (c, got) ↦
      let (p, pooled, same) = get_connection-pool q x.now x.redial c got in
      let on =
        exchange_on_drops lib codec (get_connection q x.now x.redial).0 c x msg p e pooled same in
      ground (arith, got, on, h)
]

exchange_once_drops :
    (lib : DnsLib) (codec : Codec) (q : DoqResolver) (x : Exchange) (msg : Msg) (e : DoqError)
    → (exchange_once lib codec q x msg).1 ≡ failed true e
    → (exchange_once lib codec q x msg).0.pool ≡ none
unfolding exchange_once
exchange_once_drops lib codec q x msg e h = elim (Option-cases (get_connection q x.now x.dial).1) [
  | inl dry ↦ absurd (ground (arith, dry, h))
  | inr (c, got) ↦
      let (p, pooled, same) = get_connection-pool q x.now x.dial c got in
      let on =
        exchange_on_drops lib codec (get_connection q x.now x.dial).0 c x msg p e pooled same in
      let again =
        reconnect_drops lib codec (recycle_conn (get_connection q x.now x.dial).0 c) x msg e in
      ground (arith, got, on, again, h)
]

-- A fresh connection that answers the query.
answered_by :
    (lib : DnsLib) (codec : Codec) (q : DoqResolver) (y : Exchange) (msg resp : Msg) (d : ℕ)
    (buf reply later : Text)
    → q.pool ≡ none
    → y.dial ≡ some d
    → y.opens d ≡ true
    → codec.pack msg ≡ some buf
    → length buf ≤ 65535
    → y.writes ≡ true
    → y.arrives (frame buf) ≡ frame reply ++ later
    → Fits reply
    → codec.unpack reply ≡ some resp
    → doq_response_matches_query lib msg resp ≡ true
    → doq_response_usable resp ≡ none
    → (exchange_once lib codec q y msg).1 ≡ answered resp
unfolding exchange_once get_connection exchange_on receive
answered_by lib codec q y msg resp d buf reply later dry dialed opens packed short writes arrives
      fits parsed matches usable =
    let read : read_frame (y.arrives (frame buf)) ≡ some (reply, later) =
      rw arrives (read_frame-frame reply later fits) in
    ground (arith, dry, dialed, opens, packed, short, writes, read, parsed, matches, usable)

pool-log_retry : (e : DoqError) (q : DoqResolver) → (log_retry e q).pool ≡ q.pool
unfolding log_retry
pool-log_retry e q = ground arith

-- A query that fails on its stream, for whatever reason, is answered if a fresh connection answers
-- it: the second exchange never uses the connection of the first.
pub resolve_redials :
    (lib : DnsLib) (codec : Codec) (q : DoqResolver) (x y : Exchange) (msg resp : Msg)
    (e : DoqError) (d : ℕ) (buf reply later : Text)
    → (exchange_once lib codec (record q { doq_queries = q.doq_queries + 1 }) x msg).1
      ≡ failed true e
    → y.dial ≡ some d
    → y.opens d ≡ true
    → codec.pack msg ≡ some buf
    → length buf ≤ 65535
    → y.writes ≡ true
    → y.arrives (frame buf) ≡ frame reply ++ later
    → Fits reply
    → codec.unpack reply ≡ some resp
    → doq_response_matches_query lib msg resp ≡ true
    → doq_response_usable resp ≡ none
    → (resolve lib codec q x y msg).1 ≡ answered resp
unfolding resolve
resolve_redials lib codec q x y msg resp e d buf reply later first dialed opens packed short writes
      arrives fits parsed matches usable =
    let q' = (exchange_once lib codec (record q { doq_queries = q.doq_queries + 1 }) x msg).0 in
    let dry : (log_retry e q').pool ≡ none =
      pool-log_retry e q'
      ∙ exchange_once_drops lib codec (record q { doq_queries = q.doq_queries + 1 }) x msg e
          first in
    rw (resolve, first)
      (answered_by lib codec (log_retry e q') y msg resp d buf reply later dry dialed opens packed
        short writes arrives fits parsed matches usable)
