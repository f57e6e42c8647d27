-- ===== src/Text/Fields/Trim.antt =====
-- What strings.TrimSpace leaves as it is.
use rcvd.Prelude.{ℕ, ◌≡◌, refl, true, false, not, [], ◌∷◌, ◌++◌, arith, all}
use rcvd.Text.{Text}
use rcvd.Text.Fields.{is_space, trim_left, trim_right, trim_space}

trim_right-snoc : (s : Text) (d : ℕ) → is_space d ≡ false → trim_right (s ++ d ∷ []) ≡ s ++ d ∷ []
unfolding trim_right
trim_right-snoc [] d h = ground (arith, h)
trim_right-snoc (c ∷ []) d h = ground (arith, h)
trim_right-snoc (c ∷ b ∷ s) d h = ground (arith, trim_right-snoc (b ∷ s) d)

-- A text between two bytes that are no spaces.
pub trim_space_between :
    (c : ℕ) (s : Text) (d : ℕ)
    → is_space c ≡ false
    → is_space d ≡ false
    → trim_space (c ∷ (s ++ d ∷ [])) ≡ c ∷ (s ++ d ∷ [])
unfolding trim_space trim_left
trim_space_between c s d h k =
    let right : trim_right (c ∷ (s ++ d ∷ [])) ≡ c ∷ (s ++ d ∷ []) = trim_right-snoc (c ∷ s) d k in
    rw right (ground (arith, h))

-- A text without spaces.
pub trim_space_of_all : (s : Text) → all (λ c. not (is_space c)) s ≡ true → trim_space s ≡ s
unfolding trim_space
trim_space_of_all s h = rw (right s h) (left s h)
  where
    right : (s : Text) → all (λ c. not (is_space c)) s ≡ true → trim_right s ≡ s
    right [] h = unfold trim_right in refl
    right (c ∷ s) h = let ih = right s (ground arith) in unfold trim_right in ground (arith, ih)

    left : (s : Text) → all (λ c. not (is_space c)) s ≡ true → trim_left s ≡ s
    left [] h = unfold trim_left in refl
    left (c ∷ s) h = unfold trim_left in ground arith
