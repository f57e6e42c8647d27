-- ===== src/Text/Fields.antt =====
-- strings.TrimSpace, strings.Fields and bufio.Scanner over lines. White space is its ASCII part.
pub mod Trim
use rcvd.Prelude.{ℕ, Bool, ◌&&◌, ◌||◌, List, [], ◌∷◌, ◌++◌, leb, ◌==◌, is_empty, if◌then◌else◌}
use rcvd.Text.{Text}

unfoldable pub is_space : ℕ → Bool
is_space c = c == 32 || leb 9 c && leb c 13

unfoldable pub trim_left : Text → Text
unfolding is_space
trim_left [] = []
trim_left (c ∷ s) = let rest = trim_left s in if is_space c then rest else c ∷ s

unfoldable pub trim_right : Text → Text
unfolding is_space
trim_right [] = []
trim_right (c ∷ s) = let rest = trim_right s in if is_space c && is_empty rest then [] else c ∷ rest

-- strings.TrimSpace
unfoldable pub trim_space : Text → Text
unfolding trim_left trim_right
trim_space s = trim_left (trim_right s)

-- The words of `s`, the first of them begun by `word`.
fields_from : Text → Text → List Text
unfolding is_space
fields_from word [] = if is_empty word then [] else word ∷ []
fields_from word (c ∷ s) =
    let fresh = fields_from [] s in
    let longer = fields_from (word ++ c ∷ []) s in
    if is_space c then (if is_empty word then fresh else word ∷ fresh) else longer

-- strings.Fields
unfoldable pub fields : Text → List Text
unfolding fields_from
fields s = fields_from [] s

-- What a bufio.Scanner yields of a reader: the lines, and whether scanner.Err() is set at the end
-- (a read error, or a line beyond the buffer).
pub record Lines : Type 0 where
  pub lines : List Text
  pub failed : Bool
