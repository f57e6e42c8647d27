-- ===== src/Framing/Timed.antt =====
-- SetReadDeadline at the start of each turn of the loops over a connection: the bytes that arrive in
-- time. Times are milliseconds.
use rcvd.Prelude.{
  ℕ, suc, ◌+◌, ◌-◌, ◌≤◌, ◌<◌, ◌≡◌, refl, sym, ap, ◌∙◌, ◌/◌, ◌%◌, false, List, [], ◌∷◌, ◌++◌, arith,
  map, length, ltb, All, if◌then◌else◌,
}
use rcvd.Text.{Text}
use rcvd.Framing.{frame, frames, length_of}
use rcvd.Framing.RoundTrip.{Fits, prefix_value}

-- The bytes that a client sends, each with the time that the reader waits for it.
abbrev pub Timed : Type 0
Timed = List (ℕ × ℕ)

-- Where in a message the reader is: at the first byte of the prefix, at the second, or behind it with
-- that many bytes to go.
pub data Place : Type 0 where
  at_first : Place
  at_second : ℕ → Place
  in_body : ℕ → Place

-- The place behind a byte; with the last byte of a message the turn is over.
abbrev pub next_place : Place → ℕ → Place
next_place at_first b = at_second b
next_place (at_second hi) b = in_body (length_of hi b)
next_place (in_body (suc (suc n))) b = in_body (suc n)
next_place (in_body _) b = at_first

-- What is left of the time for the turn.
abbrev pub time_left : ℕ → ℕ → Place → ℕ
time_left limit left (in_body (suc (suc n))) = left
time_left limit left (in_body _) = limit
time_left limit left at_first = left
time_left limit left (at_second hi) = left

-- The bytes up to the first one that comes behind the deadline of its turn; the read that waits for
-- that one fails.
unfoldable pub in_time : ℕ → ℕ → Place → Timed → Text
in_time limit left p [] = []
in_time limit left p ((wait, b) ∷ sent) =
    let rest = in_time limit (time_left limit (left - wait) p) (next_place p b) sent in
    if ltb left wait then [] else b ∷ rest

abbrev pub bytes_of : Timed → Text
bytes_of sent = map (λ x. x.1) sent

abbrev pub waits : Timed → ℕ
waits [] = 0
waits ((wait, b) ∷ sent) = wait + waits sent

-- The messages arrive framed, one after the other, and for none the reader waits longer than `limit`.
abbrev pub Arrives : ℕ → List Text → List Timed → Type 0
Arrives limit [] [] = Unit
Arrives limit (msg ∷ msgs) (t ∷ ts) =
    (bytes_of t ≡ frame msg) × (waits t ≤ limit) × Arrives limit msgs ts
Arrives limit [] (t ∷ ts) = ⊥
Arrives limit (msg ∷ msgs) [] = ⊥

abbrev pub all_of : List Timed → Timed
all_of [] = []
all_of (t ∷ ts) = t ++ all_of ts

in_time-body :
    (limit left : ℕ) (t rest : Timed)
    → 0 < length t
    → waits t ≤ left
    → in_time limit left (in_body (length t)) (t ++ rest)
      ≡ bytes_of t ++ in_time limit limit at_first rest
unfolding in_time
in_time-body limit left [] rest h k = absurd (omega arith)
in_time-body limit left ((w, b) ∷ []) rest h k =
    let fine : ltb left w ≡ false = ground (arith, k) in rw (in_time, fine) refl
in_time-body limit left ((w, b) ∷ x ∷ t) rest h k =
    let fine : ltb left w ≡ false = ground (arith, k) in
    let ih = in_time-body limit (left - w) (x ∷ t) rest (ground arith) (ground (arith, k)) in
    rw (in_time, fine) (ap (◌∷◌ b) ih)

length-bytes_of : (t : Timed) → length (bytes_of t) ≡ length t
length-bytes_of [] = refl
length-bytes_of (x ∷ t) = ap suc (length-bytes_of t)

in_time-frame :
    (limit : ℕ) (msg : Text) (t rest : Timed)
    → Fits msg
    → bytes_of t ≡ frame msg
    → waits t ≤ limit
    → in_time limit limit at_first (t ++ rest) ≡ frame msg ++ in_time limit limit at_first rest
unfolding frame in_time
in_time-frame limit msg [] rest fits e h = absurd (cc e)
in_time-frame limit msg (x ∷ []) rest fits e h = absurd (ground (arith, e))
in_time-frame limit msg ((v, hi) ∷ (w, lo) ∷ t) rest fits e h =
    let high : hi ≡ length msg / 256 % 256 = ground (arith, e) in
    let low : lo ≡ length msg % 256 = ground (arith, e) in
    let body : bytes_of t ≡ msg = ground (arith, e) in
    let size : length_of hi lo ≡ length t =
      rw (high, low) (prefix_value (length msg) fits.1)
      ∙ sym (ap (λ (z : Text). length z) body)
      ∙ length-bytes_of t in
    let some_byte : 0 < length t = rw (← length-bytes_of t) (rw body fits.0) in
    let first : ltb limit v ≡ false = ground (arith, h) in
    let second : ltb (limit - v) w ≡ false = ground (arith, h) in
    let rest_in_time = in_time-body limit (limit - v - w) t rest some_byte (omega (arith, h)) in
    rw (in_time, first, second, size, rest_in_time, body, high, low) refl

-- If no message is late, everything arrives.
pub in_time-frames :
    (limit : ℕ) (msgs : List Text) (ts : List Timed)
    → All Fits msgs
    → Arrives limit msgs ts
    → in_time limit limit at_first (all_of ts) ≡ frames msgs
unfolding frames
in_time-frames limit [] [] a h = unfold in_time in refl
in_time-frames limit [] (t ∷ ts) a h = absurd h
in_time-frames limit (msg ∷ msgs) [] a h = absurd h
in_time-frames limit (msg ∷ msgs) (t ∷ ts) a h =
    in_time-frame limit msg t (all_of ts) a.0 h.0 h.1
    ∙ ap (λ (z : Text). frame msg ++ z) (in_time-frames limit msgs ts a.1 h.2)
