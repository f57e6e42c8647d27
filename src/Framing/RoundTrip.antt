-- ===== src/Framing/RoundTrip.antt =====
-- What is written with a length prefix is read back, whatever follows it.
use rcvd.Prelude.{
  ℕ, zero, suc, ◌+◌, ◌/◌, ◌%◌, ◌≤◌, ◌<◌, ◌≡◌, refl, ap, inl, inr, some, List, [], ◌∷◌, ◌++◌, arith,
  length, length-append, All, Option-cases,
}
use rcvd.Text.{Text}
use rcvd.Framing.{frame, read_full, read_frame, frames, read_frames, length_of}

pub read_full-append : (s rest : Text) → read_full (length s) (s ++ rest) ≡ some (s, rest)
unfolding read_full
read_full-append [] rest = refl
read_full-append (c ∷ s) rest = rw (read_full, read_full-append s rest) refl

-- The size of a message that the prefix can express.
abbrev pub Fits : Text → Type 0
Fits buf = (0 < length buf) × (length buf ≤ 65535)

pub prefix_value : (n : ℕ) → n ≤ 65535 → length_of (n / 256 % 256) (n % 256) ≡ n
prefix_value n h = omega arith

-- A reader gets exactly the message that was written, and what follows it stays.
pub read_frame-frame :
    (buf rest : Text) → Fits buf → read_frame (frame buf ++ rest) ≡ some (buf, rest)
unfolding read_frame frame
read_frame-frame buf rest (h, k) =
    ground (arith, prefix_value (length buf) k, read_full-append buf rest)

-- A read takes the prefix and at least one byte.
read_full-length :
    (n : ℕ) (s got rest : Text) → read_full n s ≡ some (got, rest) → length rest + n ≡ length s
unfolding read_full
read_full-length zero s got rest h = ground arith
read_full-length (suc n) [] got rest h = absurd (cc h)
read_full-length (suc n) (c ∷ s) got rest h = elim (Option-cases (read_full n s)) [
  | inl e ↦ absurd (ground arith)
  | inr ((g, r), e) ↦ let ih = read_full-length n s g r e in ground (arith, ih)
]

pub read_frame-shrinks :
    (s got rest : Text) → read_frame s ≡ some (got, rest) → suc (suc (suc (length rest))) ≤ length s
unfolding read_frame
read_frame-shrinks [] got rest h = absurd (cc h)
read_frame-shrinks (hi ∷ []) got rest h = absurd (cc h)
read_frame-shrinks (hi ∷ lo ∷ s) got rest h =
    ground (arith, read_full-length (length_of hi lo) s got rest)

-- Messages of any number that are written one after the other are read back one by one.
pub read_frames-frames :
    (bufs : List Text) (fuel : ℕ)
    → All Fits bufs
    → length (frames bufs) ≤ fuel
    → read_frames fuel (frames bufs) ≡ bufs
unfolding frames read_frames
read_frames-frames [] zero a h = refl
read_frames-frames [] (suc fuel) a h = unfold read_frame in refl
read_frames-frames (buf ∷ bufs) zero a h = absurd (unfold frame in omega arith)
read_frames-frames (buf ∷ bufs) (suc fuel) a h =
    let size : length (frame buf ++ frames bufs) ≡ length buf + 2 + length (frames bufs) =
      unfold frame in omega (arith, length-append buf (frames bufs)) in
    rw (read_frames, read_frame-frame buf (frames bufs) a.0)
      (ap (◌∷◌ buf) (read_frames-frames bufs fuel a.1 (omega arith)))
