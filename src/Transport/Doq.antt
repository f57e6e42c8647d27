-- ===== src/Transport/Doq.antt =====
-- internal/resolver/doq.go: DNS over QUIC, a stream for each query on a pooled connection. A call
-- here runs without others in between; Doq.Pool is about the calls that share the pool.
pub mod Pool
pub mod Answers
pub mod Recovery
use rcvd.Prelude.{
  ℕ, ◌+◌, ◌-◌, ◌*◌, Bool, true, false, not, ◌&&◌, Option, none, some, List, [], ◌∷◌, ◌++◌, ltb,
  ◌==◌, length, is_empty, any, if◌then◌else◌,
}
use rcvd.Text.{Text}
use rcvd.Dns.{Body, soa, Rr, Msg, DnsLib}
use rcvd.Dns.Rcode
use rcvd.Fallback.{questions_match}
use rcvd.Framing.{frame, read_frame}
use rcvd.Transport.{Codec}

-- A connection, by a number that no other has, and when it was last used, in nanoseconds.
pub record Pooled : Type 0 where
  pub conn : ℕ
  pub last_used : ℕ

-- `doq_queries` and `doq_idle_retries` are counters of stats.
pub record DoqResolver : Type 0 where
  pub pool : Option Pooled
  pub doq_queries : ℕ
  pub doq_idle_retries : ℕ

pub data DoqError : Type 0 where
  no_connection : DoqError
  no_reconnect : DoqError
  no_stream : DoqError
  no_pack : DoqError
  too_long : DoqError
  no_write : DoqError
  no_read : DoqError
  no_unpack : DoqError
  question_mismatch : DoqError
  truncated : DoqError
  empty_no_soa : DoqError

-- One exchange: the clock, what two dials give, on which connections a stream opens, whether both
-- writes succeed, and what arrives on the stream for what was written.
pub record Exchange : Type 0 where
  pub now : ℕ
  pub dial : Option ℕ
  pub redial : Option ℕ
  pub opens : ℕ → Bool
  pub writes : Bool
  pub arrives : Text → Text
  pub done : ℕ

-- time.Since(lastUsed) < 20*time.Second
abbrev pub is_fresh : Pooled → ℕ → Bool
is_fresh p now = ltb (now - p.last_used) (20 * 1_000_000_000)

-- getConnection
unfoldable pub get_connection : DoqResolver → ℕ → Option ℕ → DoqResolver × Option ℕ
get_connection q now dial =
    let dialed : DoqResolver × Option ℕ = elim dial [
      | none ↦ (record q { pool = none }, none)
      | some c ↦ (record q { pool = some (record { conn = c; last_used = now }) }, some c)
    ] in
    elim q.pool [ none ↦ dialed | some p ↦ if is_fresh p now then (q, some p.conn) else dialed ]

-- recycleConn, as far as the pool goes: only the connection itself is taken out.
unfoldable pub recycle_conn : DoqResolver → ℕ → DoqResolver
recycle_conn q bad = elim q.pool [
  | none ↦ q
  | some p ↦ if p.conn == bad then record q { pool = none } else q
]

-- doqResponseMatchesQuery
unfoldable pub doq_response_matches_query : DnsLib → Msg → Msg → Bool
doq_response_matches_query lib query resp = questions_match lib query.question resp.question

abbrev pub is_soa : Body → Bool
is_soa soa = true
is_soa _ = false

-- hasSOA
unfoldable pub has_soa : List Rr → Bool
has_soa ns = any (λ rr. is_soa rr.body) ns

-- doqResponseUsable; nothing is the nil error.
unfoldable pub doq_response_usable : Msg → Option DoqError
doq_response_usable resp =
    if resp.truncated
    then some truncated
    else if resp.rcode == Rcode.success && is_empty resp.answer && not (has_soa resp.ns)
    then some empty_no_soa
    else none

-- (resp, nil), or (retryable, err).
pub data Outcome : Type 0 where
  answered : Msg → Outcome
  failed : Bool → DoqError → Outcome

-- The end of exchangeOnce, behind the writes on the connection `c`.
unfoldable pub receive : DnsLib → Codec → DoqResolver → ℕ → ℕ → Msg → Text → DoqResolver × Outcome
receive lib codec q c done msg incoming = elim (read_frame incoming) [
  | none ↦ (recycle_conn q c, failed true no_read)
  | some (buf, rest) ↦ elim (codec.unpack buf) [
    | none ↦ (recycle_conn q c, failed true no_unpack)
    | some resp ↦
        if not (doq_response_matches_query lib msg resp)
        then (recycle_conn q c, failed true question_mismatch)
        else elim (doq_response_usable resp) [
          | some e ↦ (recycle_conn q c, failed true e)
          | none ↦ (
            record q {
              pool = elim q.pool [ none ↦ none | some p ↦ some (record p { last_used = done }) ];
            },
            answered resp,
          )
        ]
  ]
]

-- The part of exchangeOnce behind the open stream.
unfoldable pub exchange_on :
    DnsLib → Codec → DoqResolver → ℕ → Exchange → Msg → DoqResolver × Outcome
exchange_on lib codec q c x msg = elim (codec.pack msg) [
  | none ↦ (q, failed false no_pack)
  | some buf ↦
      if ltb 65535 (length buf)
      then (q, failed false too_long)
      else if not x.writes
      then (recycle_conn q c, failed true no_write)
      else receive lib codec q c x.done msg (x.arrives (frame buf))
]

-- The second attempt of exchangeOnce to open a stream.
unfoldable pub reconnect : DnsLib → Codec → DoqResolver → Exchange → Msg → DoqResolver × Outcome
reconnect lib codec q x msg =
    let (q', got) = get_connection q x.now x.redial in
    elim got [
      | none ↦ (q', failed false no_reconnect)
      | some c ↦
          if x.opens c
          then exchange_on lib codec q' c x msg
          else (recycle_conn q' c, failed false no_stream)
    ]

-- exchangeOnce
unfoldable pub exchange_once : DnsLib → Codec → DoqResolver → Exchange → Msg → DoqResolver × Outcome
exchange_once lib codec q x msg =
    let (q', got) = get_connection q x.now x.dial in
    elim got [
      | none ↦ (q', failed false no_connection)
      | some c ↦
          if x.opens c
          then exchange_on lib codec q' c x msg
          else reconnect lib codec (recycle_conn q' c) x msg
    ]

abbrev pub is_mismatch : DoqError → Bool
is_mismatch question_mismatch = true
is_mismatch _ = false

-- The count that logIdleRetry makes, for an error that is no mismatch.
unfoldable pub log_retry : DoqError → DoqResolver → DoqResolver
log_retry e q = if is_mismatch e then q else record q { doq_idle_retries = q.doq_idle_retries + 1 }

-- Resolve, with the first exchange and the second.
unfoldable pub resolve :
    DnsLib → Codec → DoqResolver → Exchange → Exchange → Msg → DoqResolver × Outcome
resolve lib codec q x y msg =
    let (q', first) =
      exchange_once lib codec (record q { doq_queries = q.doq_queries + 1 }) x msg in
    elim first [
      | answered resp ↦ (q', answered resp)
      | failed retryable e ↦
          if retryable then exchange_once lib codec (log_retry e q') y msg else (q', failed false e)
    ]
