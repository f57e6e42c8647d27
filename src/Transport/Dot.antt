-- ===== src/Transport/Dot.antt =====
-- internal/resolver/dot.go: DNS over TLS on one pooled connection. exchMu makes an exchange one step.
pub mod Answers
use rcvd.Prelude.{
  ℕ, ◌+◌, Bool, true, false, not, ◌&&◌, Option, none, some, List, ◌++◌, ltb, ◌==◌, length, is_some,
  if◌then◌else◌,
}
use rcvd.Prelude.Result.{Result, ok, err}
use rcvd.Text.{Text}
use rcvd.Dns.{Msg}
use rcvd.Framing.{frame, read_frame}
use rcvd.Transport.{Codec}

-- A connection, by the bytes that arrived on it and were not read.
pub record Conn : Type 0 where
  pub unread : Text

-- The fields that change; `dot_queries` is stats.DoTQueries.
pub record TlsResolver : Type 0 where
  pub conn : Option Conn
  pub dot_queries : ℕ

-- One exchange: what a dial gives, whether both writes succeed, and what arrives then. What is
-- written is the argument of `arrives`.
pub record Exchange : Type 0 where
  pub dial : Option Conn
  pub writes : Bool
  pub arrives : Text → Text

pub data DotError : Type 0 where
  no_connection : DotError
  no_pack : DotError
  too_long : DotError
  no_write : DotError
  -- a short read, or the length 0
  no_read : DotError
  no_unpack : DotError
  id_mismatch : DotError

-- isPooled
unfoldable pub is_pooled : TlsResolver → Bool
is_pooled t = is_some t.conn

-- getConnection
unfoldable pub get_connection : TlsResolver → Exchange → TlsResolver × Option Conn
get_connection t x = elim t.conn [
  | some c ↦ (t, some c)
  | none ↦ (record t { conn = x.dial }, x.dial)
]

-- closeConnection
unfoldable pub close_connection : TlsResolver → TlsResolver
close_connection t = record t { conn = none }

-- What resolveOnce does with the bytes of the connection behind the write.
unfoldable pub receive : Codec → TlsResolver → Msg → Text → TlsResolver × Result DotError Msg
receive codec t msg incoming = elim (read_frame incoming) [
  | none ↦ (close_connection t, err no_read)
  | some (buf, rest) ↦ elim (codec.unpack buf) [
    | none ↦ (close_connection t, err no_unpack)
    | some resp ↦
        if resp.id == msg.id
        then (record t { conn = some (record { unread = rest }) }, ok resp)
        else (close_connection t, err id_mismatch)
  ]
]

-- resolveOnce
unfoldable pub resolve_once :
    Codec → TlsResolver → Exchange → Msg → TlsResolver × Result DotError Msg
resolve_once codec t x msg =
    let (t', got) = get_connection t x in
    elim got [
      | none ↦ (t', err no_connection)
      | some c ↦ elim (codec.pack msg) [
        | none ↦ (t', err no_pack)
        | some buf ↦
            if ltb 65535 (length buf)
            then (t', err too_long)
            else if not x.writes
            then (close_connection t', err no_write)
            else receive codec t' msg (c.unread ++ x.arrives (frame buf))
      ]
    ]

-- Resolve, with the first exchange and the second.
unfoldable pub resolve :
    Codec → TlsResolver → Exchange → Exchange → Msg → TlsResolver × Result DotError Msg
resolve codec t x y msg =
    let counted : TlsResolver = record t { dot_queries = t.dot_queries + 1 } in
    let (t', first) = resolve_once codec counted x msg in
    elim first [
      | ok resp ↦ (t', ok resp)
      | err e ↦ if is_pooled counted then resolve_once codec t' y msg else (t', err e)
    ]

-- Close
unfoldable pub close : TlsResolver → TlsResolver
close t = close_connection t
