-- ===== src/Text.antt =====
-- Go's strings as lists of bytes, with the functions of the package `strings` that the program
-- calls. Names reach the program in presentation form, where the parser has escaped every byte
-- that is not printable ASCII, so `strings.ToLower` is its ASCII part.
pub mod Affix
pub mod Split
pub mod Fields
pub mod Hostname
use Prim.Native.Char.{code}
use Prim.Native.String.{String}
use rcvd.Prelude.{
  ℕ, ◌+◌, ◌≡◌, refl, ◌↔◌, Bool, true, false, ◌&&◌, ◌||◌, List, [], ◌∷◌, ◌++◌, map, arith, leb, ◌==◌,
  if◌then◌else◌, ◌⊎◌,
}

abbrev pub Text : Type 0
Text = List ℕ

-- A literal.
abbrev pub codes : String → Text
codes String.[] = []
codes (String.◌∷◌ c s) = code c ∷ codes s

-- s == t
unfoldable pub text_eq : Text → Text → Bool
text_eq [] [] = true
text_eq [] (c ∷ t) = false
text_eq (b ∷ s) [] = false
text_eq (b ∷ s) (c ∷ t) = b == c && text_eq s t

pub text_eq_refl : (s : Text) → text_eq s s ≡ true
unfolding text_eq
text_eq_refl [] = refl
text_eq_refl (b ∷ s) = ground (arith, text_eq_refl s)

text_eq_sound : (s t : Text) → text_eq s t ≡ true → s ≡ t
unfolding text_eq
text_eq_sound [] [] h = refl
text_eq_sound [] (c ∷ t) h = cc
text_eq_sound (b ∷ s) [] h = cc
text_eq_sound (b ∷ s) (c ∷ t) h = ground (arith, text_eq_sound s t)

pub text_eq_iff : (s t : Text) → (text_eq s t ≡ true) ↔ (s ≡ t)
text_eq_iff s t = (text_eq_sound s t, λ e. rw e (text_eq_refl t))

-- The ASCII part of unicode.ToLower.
unfoldable pub to_lower_byte : ℕ → ℕ
to_lower_byte c = if leb b'A' c && leb c b'Z' then c + 32 else c

-- strings.ToLower
unfoldable pub to_lower : Text → Text
unfolding to_lower_byte
to_lower s = map to_lower_byte s

pub to_lower_byte_idem : (c : ℕ) → to_lower_byte (to_lower_byte c) ≡ to_lower_byte c
unfolding to_lower_byte
to_lower_byte_idem c = ground arith

pub to_lower_idem : (s : Text) → to_lower (to_lower s) ≡ to_lower s
unfolding to_lower
to_lower_idem [] = refl
to_lower_idem (c ∷ s) = cc (to_lower_byte_idem c, to_lower_idem s)

pub to_lower-append : (s t : Text) → to_lower (s ++ t) ≡ to_lower s ++ to_lower t
unfolding to_lower
to_lower-append [] t = refl
to_lower-append (c ∷ s) t = cc (to_lower-append s t)

-- A Go map[string]bool that only ever holds `true`: the list of its keys.
abbrev pub TextSet : Type 0
TextSet = List Text

-- m[k]
unfoldable pub has : TextSet → Text → Bool
has [] k = false
has (j ∷ m) k = text_eq j k || has m k

-- m[k] = true
unfoldable pub add : TextSet → Text → TextSet
unfolding has
add m k = if has m k then m else k ∷ m

pub has-add : (m : TextSet) (k j : Text) → has (add m k) j ≡ (text_eq k j || has m j)
unfolding add has
has-add m k j = ground (arith, text_eq_iff k j)

pub has-add_self : (m : TextSet) (k : Text) → has (add m k) k ≡ true
has-add_self m k = rw (has-add m k k, text_eq_refl k)

pub has-add_mono : (m : TextSet) (k j : Text) → has m j ≡ true → has (add m k) j ≡ true
has-add_mono m k j h = ground (arith, has-add m k j)

pub has-add_inv : (m : TextSet) (k j : Text) → has (add m k) j ≡ true → (j ≡ k) ⊎ (has m j ≡ true)
has-add_inv m k j h = ground (arith, has-add m k j, text_eq_iff k j)
