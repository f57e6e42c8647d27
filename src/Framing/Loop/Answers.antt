-- ===== src/Framing/Loop/Answers.antt =====
-- The loop over a connection, seen as a list of messages and a list of replies.
use rcvd.Prelude.{
  ℕ, zero, suc, ◌+◌, ◌≤◌, ◌≡◌, refl, inl, inr, none, some, List, [], ◌∷◌, ◌++◌, arith, length,
  length-append, All, Option-cases,
}
use rcvd.Text.{Text}
use rcvd.Dns.{Msg}
use rcvd.Framing.{frame, read_frame, frames, read_frames}
use rcvd.Framing.RoundTrip.{Fits, read_frame-frame, read_frames-frames}
use rcvd.Framing.Loop.{Handler, serve, serve_all}

-- The messages that a client sends are handled one after the other, those that do not parse are
-- passed over, and a reply that does not pack ends it: the state, and the replies.
abbrev pub answers : {S : Type 0} → Handler S → ℕ → S → List Text → S × List Text
answers h n s [] = (s, [])
answers h n s (msg ∷ msgs) = elim (h.unpack msg) [
  | none ↦ answers h n s msgs
  | some query ↦
      let (s', reply) = h.turn n s query in
      elim reply [
        | none ↦ (s', [])
        | some buf ↦ let (end, bufs) = answers h (n + 1) s' msgs in (end, buf ∷ bufs)
      ]
]

serve-frames :
    {S : Type 0} (h : Handler S) (msgs : List Text) (fuel n : ℕ) (s : S)
    → All Fits msgs
    → length (frames msgs) ≤ fuel
    → serve h fuel n s (frames msgs) ≡ ((answers h n s msgs).0, frames (answers h n s msgs).1)
unfolding serve frames
serve-frames h [] zero n s a i = refl
serve-frames h [] (suc fuel) n s a i = unfold read_frame in refl
serve-frames h (msg ∷ msgs) zero n s a i = absurd (unfold frame in omega arith)
serve-frames h (msg ∷ msgs) (suc fuel) n s a i =
    let size : length (frame msg ++ frames msgs) ≡ length msg + 2 + length (frames msgs) =
      unfold frame in omega (arith, length-append msg (frames msgs)) in
    let read = read_frame-frame msg (frames msgs) a.0 in
    elim (Option-cases (h.unpack msg)) [
      | inl bad ↦ rw (serve, read, bad, answers) (serve-frames h msgs fuel n s a.1 (omega arith))
      | inr (query, parsed) ↦
          let r = h.turn n s query in
          elim (Option-cases r.1) [
            | inl lost ↦ rw (serve, read, parsed, answers, lost) refl
            | inr (buf, packed) ↦
                rw
                  (
                    serve,
                    read,
                    parsed,
                    answers,
                    packed,
                    serve-frames h msgs fuel (n + 1) r.0 a.1 (omega arith),
                  )
                  refl
          ]
    ]

-- The messages that parse to queries with the property P.
abbrev pub AllParse : {S : Type 0} → Handler S → (Msg → Type 0) → List Text → Type 0
AllParse h P msgs = All (λ msg. (query : Msg) → h.unpack msg ≡ some query → P query) msgs

-- The replies to such queries fit behind the prefix.
abbrev pub RepliesFit : {S : Type 0} → Handler S → (Msg → Type 0) → Type 0
RepliesFit {S} h P =
    (n : ℕ) (s : S) (query : Msg) (buf : Text)
    → P query
    → (h.turn n s query).1 ≡ some buf
    → Fits buf

answers-Fits :
    {S : Type 0} (h : Handler S) (P : Msg → Type 0) (msgs : List Text) (n : ℕ) (s : S)
    → RepliesFit h P
    → AllParse h P msgs
    → All Fits (answers h n s msgs).1
answers-Fits h P [] n s fit a = tt
answers-Fits h P (msg ∷ msgs) n s fit a = elim (Option-cases (h.unpack msg)) [
  | inl bad ↦ rw (answers, bad) (answers-Fits h P msgs n s fit a.1)
  | inr (query, parsed) ↦
      let r = h.turn n s query in
      elim (Option-cases r.1) [
        | inl lost ↦ rw (answers, parsed, lost) tt
        | inr (buf, packed) ↦
            rw (answers, parsed, packed)
              (
                fit n s query buf (a.0 query parsed) packed,
                answers-Fits h P msgs (n + 1) r.0 fit a.1,
              )
      ]
]

pub serve_all-answers :
    {S : Type 0} (h : Handler S) (P : Msg → Type 0) (s : S) (msgs : List Text)
    → All Fits msgs
    → RepliesFit h P
    → AllParse h P msgs
    → ((serve_all h s (frames msgs)).0 ≡ (answers h 0 s msgs).0)
      × (read_frames (length (serve_all h s (frames msgs)).1) (serve_all h s (frames msgs)).1
          ≡ (answers h 0 s msgs).1)
serve_all-answers h P s msgs small fit a =
    rw (serve-frames h msgs (length (frames msgs)) 0 s small (omega arith)) (
      refl,
      read_frames-frames (answers h 0 s msgs).1 _ (answers-Fits h P msgs 0 s fit a) (omega arith),
    )
