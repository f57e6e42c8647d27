-- ===== src/Text/Hostname.antt =====
-- The label expressions of the two filters, `^E([E-]{0,61}E)?$` for a class `E` of edge bytes.
use rcvd.Prelude.{ℕ, Bool, false, ◌&&◌, ◌||◌, [], ◌∷◌, leb, ◌==◌, length, is_empty, all}
use rcvd.Text.{Text}

-- [A-Za-z0-9]
unfoldable pub is_alnum : ℕ → Bool
is_alnum c = leb b'a' c && leb c b'z' || leb b'A' c && leb c b'Z' || leb b'0' c && leb c b'9'

ends_in : (ℕ → Bool) → Text → Bool
ends_in edge [] = false
ends_in edge (c ∷ []) = edge c
ends_in edge (c ∷ d ∷ s) = ends_in edge (d ∷ s)

-- An edge byte, then nothing, or up to 61 body bytes and an edge byte.
unfoldable pub label_of : (ℕ → Bool) → Text → Bool
unfolding ends_in
label_of edge [] = false
label_of edge (c ∷ r) =
    edge c
    && (is_empty r || leb (length r) 62 && all (λ x. edge x || x == b'-') r && ends_in edge r)
