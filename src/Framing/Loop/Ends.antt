-- ===== src/Framing/Loop/Ends.antt =====
-- The loop over a connection comes to an end.
use rcvd.Prelude.{ℕ, zero, suc, ◌+◌, ◌≤◌, ◌≡◌, refl, inl, inr, [], ◌∷◌, arith, length, Option-cases}
use rcvd.Text.{Text}
use rcvd.Framing.{read_frame}
use rcvd.Framing.RoundTrip.{read_frame-shrinks}
use rcvd.Framing.Loop.{Handler, serve, serve_all}

serve_steady :
    {S : Type 0} (h : Handler S) (f g n : ℕ) (s : S) (sent : Text)
    → length sent ≤ f
    → length sent ≤ g
    → serve h f n s sent ≡ serve h g n s sent
unfolding serve
serve_steady h zero zero n s sent i j = refl
serve_steady h zero (suc g) n s [] i j = unfold read_frame in refl
serve_steady h zero (suc g) n s (c ∷ r) i j = absurd (omega arith)
serve_steady h (suc f) zero n s [] i j = unfold read_frame in refl
serve_steady h (suc f) zero n s (c ∷ r) i j = absurd (omega arith)
serve_steady h (suc f) (suc g) n s sent i j = elim (Option-cases (read_frame sent)) [
  | inl e ↦ rw (serve, e) refl
  | inr ((msg, rest), e) ↦
      let less = read_frame-shrinks sent msg rest e in
      elim (Option-cases (h.unpack msg)) [
        | inl bad ↦ rw (serve, e, bad) (serve_steady h f g n s rest (omega arith) (omega arith))
        | inr (query, parsed) ↦
            let r = h.turn n s query in
            elim (Option-cases r.1) [
              | inl lost ↦ rw (serve, e, parsed, lost) refl
              | inr (buf, packed) ↦
                  rw
                    (
                      serve,
                      e,
                      parsed,
                      packed,
                      serve_steady h f g (n + 1) r.0 rest (omega arith) (omega arith),
                    )
                    refl
            ]
      ]
]

-- However long the input and whatever it holds, a connection is served to its end: with any bound
-- on the turns that is not below the number of bytes, the loop leaves the same state and the same
-- output.
pub serve_ends :
    {S : Type 0} (h : Handler S) (fuel : ℕ) (s : S) (sent : Text)
    → length sent ≤ fuel
    → serve h fuel 0 s sent ≡ serve_all h s sent
serve_ends h fuel s sent i = serve_steady h fuel (length sent) 0 s sent i (omega arith)
