-- ===== src/Framing.antt =====
-- The length prefix of two bytes that DNS over TCP, TLS and QUIC puts before a message: how
-- internal/server/server.go, internal/upstream/dot.go and doq.go and internal/resolver/dot.go and
-- doq.go write it and read it. The bytes of a connection are a text.
pub mod RoundTrip
pub mod Loop
pub mod Timed
use rcvd.Prelude.{
  ℕ, zero, suc, ◌+◌, ◌*◌, ◌/◌, ◌%◌, Option, none, some, List, [], ◌∷◌, ◌++◌, ◌==◌, length,
  if◌then◌else◌,
}
use rcvd.Text.{Text}

-- []byte{byte(n >> 8), byte(n)}
abbrev pub length_prefix : ℕ → Text
length_prefix n = (n / 256 % 256) ∷ (n % 256) ∷ []

-- The two writes of a message.
unfoldable pub frame : Text → Text
frame buf = length_prefix (length buf) ++ buf

-- io.ReadFull of `n` bytes: what was read, and what is left; nothing for an error.
unfoldable pub read_full : ℕ → Text → Option (Text × Text)
read_full zero s = some ([], s)
read_full (suc n) [] = none
read_full (suc n) (c ∷ s) = elim (read_full n s) [
  | none ↦ none
  | some (read, rest) ↦ some (c ∷ read, rest)
]

-- int(lenBuf[0])<<8 | int(lenBuf[1])
abbrev pub length_of : ℕ → ℕ → ℕ
length_of hi lo = hi * 256 + lo

-- The prefix and the message behind it: nothing where a read fails or the length is 0. Two bytes
-- say at most 65,535.
unfoldable pub read_frame : Text → Option (Text × Text)
read_frame [] = none
read_frame (hi ∷ []) = none
read_frame (hi ∷ lo ∷ s) = if length_of hi lo == 0 then none else read_full (length_of hi lo) s

-- The messages of `bufs`, one after the other.
unfoldable pub frames : List Text → Text
frames [] = []
frames (buf ∷ bufs) = frame buf ++ frames bufs

-- What a reader that goes on until a read fails gets, in at most `fuel` messages.
unfoldable pub read_frames : ℕ → Text → List Text
read_frames zero s = []
read_frames (suc fuel) s = elim (read_frame s) [
  | none ↦ []
  | some (buf, rest) ↦ buf ∷ read_frames fuel rest
]
