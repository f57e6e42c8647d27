-- ===== src/Framing/Loop.antt =====
-- The loop of handleTCPConnection of internal/server/server.go and of handleConnection of
-- internal/upstream/dot.go, over the bytes that a client sends until a read fails, one query after
-- the other. The end of the service is a failed read, as is the deadline of a read (Framing.Timed);
-- the writes succeed.
pub mod Ends
pub mod Answers
use rcvd.Prelude.{ℕ, zero, suc, ◌+◌, Option, none, some, [], ◌++◌, length}
use rcvd.Text.{Text}
use rcvd.Dns.{Msg}
use rcvd.Framing.{frame, read_frame}

-- What a loop does with a message: msg.Unpack, and the rest of the n-th turn, which ends with the
-- reply's bytes or returns.
pub record Handler (S : Type 0) : Type 0 where
  pub unpack : Text → Option Msg
  pub turn : ℕ → S → Msg → S × Option Text

-- The loop, from the n-th query on: it goes on behind a message that does not parse, and returns
-- where a read fails or a reply does not pack.
unfoldable pub serve : {S : Type 0} → Handler S → ℕ → ℕ → S → Text → S × Text
serve h zero n s sent = (s, [])
serve h (suc fuel) n s sent = elim (read_frame sent) [
  | none ↦ (s, [])
  | some (msg, rest) ↦ elim (h.unpack msg) [
    | none ↦ serve h fuel n s rest
    | some query ↦
        let (s', reply) = h.turn n s query in
        elim reply [
          | none ↦ (s', [])
          | some buf ↦ let (end, out) = serve h fuel (n + 1) s' rest in (end, frame buf ++ out)
        ]
  ]
]

-- Each turn takes bytes, so there are no more turns than bytes.
abbrev pub serve_all : {S : Type 0} → Handler S → S → Text → S × Text
serve_all h s sent = serve h (length sent) 0 s sent
