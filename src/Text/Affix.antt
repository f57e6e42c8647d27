-- ===== src/Text/Affix.antt =====
-- strings.HasPrefix, HasSuffix, TrimPrefix and TrimSuffix.
use rcvd.Prelude.{
  ℕ, ◌≡◌, refl, Bool, true, false, [], ◌∷◌, ◌++◌, Option, none, some, arith, ◌==◌, if◌then◌else◌,
  Option-cases, ◌⊎◌, inl, inr,
}
use rcvd.Text.{Text, text_eq, text_eq_iff, to_lower}

-- The rest of `s` behind `p`, if `s` begins with `p`.
unfoldable pub strip_prefix : Text → Text → Option Text
strip_prefix [] s = some s
strip_prefix (b ∷ p) [] = none
strip_prefix (b ∷ p) (c ∷ s) = if b == c then strip_prefix p s else none

-- strings.HasPrefix(s, p)
unfoldable pub has_prefix : Text → Text → Bool
unfolding strip_prefix
has_prefix s p = elim (strip_prefix p s) [ none ↦ false | some _ ↦ true ]

-- strings.TrimPrefix(s, p)
unfoldable pub trim_prefix : Text → Text → Text
unfolding strip_prefix
trim_prefix s p = elim (strip_prefix p s) [ none ↦ s | some r ↦ r ]

pub strip_prefix_sound : (p s r : Text) → strip_prefix p s ≡ some r → s ≡ p ++ r
unfolding strip_prefix
strip_prefix_sound [] s r h = ground arith
strip_prefix_sound (b ∷ p) [] r h = cc
strip_prefix_sound (b ∷ p) (c ∷ s) r h = ground (arith, strip_prefix_sound p s r)

pub strip_prefix-append : (p r : Text) → strip_prefix p (p ++ r) ≡ some r
unfolding strip_prefix
strip_prefix-append [] r = refl
strip_prefix-append (b ∷ p) r = ground (arith, strip_prefix-append p r)

-- strings.TrimSuffix(s, p), for the text as a whole: the loop finds where `s` is `p`.
unfoldable pub trim_suffix : Text → Text → Text
unfolding text_eq
trim_suffix [] p = []
trim_suffix (c ∷ s) p = if text_eq (c ∷ s) p then [] else c ∷ trim_suffix s p

-- A suffix that is there is cut.
pub trim_suffix-append : (s : Text) (d : ℕ) → trim_suffix (s ++ d ∷ []) (d ∷ []) ≡ s
unfolding trim_suffix
trim_suffix-append [] d = ground (arith, text_eq_iff (d ∷ []) (d ∷ []))
trim_suffix-append (c ∷ []) d =
    ground (arith, text_eq_iff (c ∷ d ∷ []) (d ∷ []), trim_suffix-append [] d)
trim_suffix-append (c ∷ b ∷ s) d =
    ground (arith, text_eq_iff (c ∷ b ∷ s ++ d ∷ []) (d ∷ []), trim_suffix-append (b ∷ s) d)

text_eq-to_lower-dot : (s : Text) → text_eq (to_lower s) (b'.' ∷ []) ≡ text_eq s (b'.' ∷ [])
unfolding text_eq to_lower
text_eq-to_lower-dot [] = refl
text_eq-to_lower-dot (c ∷ []) = ground arith
text_eq-to_lower-dot (c ∷ d ∷ s) = ground arith

-- Lower case does not move the final dot.
pub to_lower-trim_suffix :
    (s : Text) → to_lower (trim_suffix s (b'.' ∷ [])) ≡ trim_suffix (to_lower s) (b'.' ∷ [])
unfolding trim_suffix to_lower
to_lower-trim_suffix [] = refl
to_lower-trim_suffix (c ∷ s) = ground (arith, text_eq-to_lower-dot (c ∷ s), to_lower-trim_suffix s)

-- Either `s` does not begin with `p`, or it is `p` and a rest.
pub has_prefix-cases : (s p : Text) → (has_prefix s p ≡ false) ⊎ ((r : Text) × (s ≡ p ++ r))
unfolding has_prefix
has_prefix-cases s p = elim (Option-cases (strip_prefix p s)) [
  | inl e ↦ inl (rw (e, has_prefix))
  | inr (r, e) ↦ inr (r, strip_prefix_sound p s r e)
]

pub has_prefix-append : (p r : Text) → has_prefix (p ++ r) p ≡ true
unfolding has_prefix
has_prefix-append p r = rw (strip_prefix-append p r, has_prefix)
