-- ===== src/Config/Token/Dotenv.antt =====
-- What tokenFromDotenv reads of the lines that an operator writes.
use rcvd.Prelude.{
  ℕ, ◌≡◌, refl, sym, ap, Bool, true, false, not, ◌&&◌, none, some, List, [], ◌∷◌, ◌++◌, arith, ◌==◌,
  is_empty, all, All, if◌then◌else◌,
}
use mathlib.Core.List.{append_assoc}
use rcvd.Prelude.Result.{ok}
use rcvd.Text.{Text, codes, text_eq_refl}
use rcvd.Text.Affix.{strip_prefix, has_prefix, trim_prefix}
use rcvd.Text.Fields.{is_space, trim_space}
use rcvd.Text.Fields.Trim.{trim_space_between, trim_space_of_all}
use rcvd.Text.Split.{split}
use rcvd.Config.Token.{
  Env, cut, init_of, last_of, unquote, token_in_line, token_in_lines, token_from_dotenv,
}

-- A byte of a variable's name.
abbrev pub is_key_byte : ℕ → Bool
is_key_byte c = not (is_space c) && not (c == b'=') && not (c == b'#')

abbrev pub IsKey : Text → Type 0
IsKey key = (is_empty key ≡ false) × (all is_key_byte key ≡ true)

abbrev quote : ℕ
quote = b'"'

-- KEY="value", with or without the word export.
abbrev pub assignment : Bool → Text → Text → Text
assignment exported key value =
    (if exported then codes "export " else []) ++ (key ++ b'=' ∷ quote ∷ (value ++ quote ∷ []))

cut_key :
    (key rest : Text)
    → all is_key_byte key ≡ true
    → cut b'=' (key ++ b'=' ∷ rest) ≡ some (key, rest)
unfolding cut
cut_key [] rest h = refl
cut_key (c ∷ key) rest h = ground (arith, cut_key key rest)

-- A prefix that ends in a space is none of a text that begins with a key and an equals sign.
no_word :
    (w key rest : Text)
    → all (λ c. not (c == b'=')) w ≡ true
    → all is_key_byte key ≡ true
    → strip_prefix (w ++ 32 ∷ []) (key ++ b'=' ∷ rest) ≡ none
unfolding strip_prefix is_space
no_word [] [] rest h k = refl
no_word [] (c ∷ key) rest h k = ground arith
no_word (b ∷ w) [] rest h k = ground arith
no_word (b ∷ w) (c ∷ key) rest h k = ground (arith, no_word w key rest)

last_of-snoc : (c : ℕ) (v : Text) (d : ℕ) → last_of c (v ++ d ∷ []) ≡ d
unfolding last_of
last_of-snoc c [] d = refl
last_of-snoc c (b ∷ v) d = last_of-snoc b v d

init_of-snoc : (c : ℕ) (v : Text) (d : ℕ) → init_of c (v ++ d ∷ []) ≡ c ∷ v
unfolding init_of
init_of-snoc c [] d = refl
init_of-snoc c (b ∷ v) d = ap (◌∷◌ c) (init_of-snoc b v d)

unquote_quoted : (value : Text) → unquote (quote ∷ (value ++ quote ∷ [])) ≡ value
unfolding unquote
unquote_quoted [] = unfold init_of last_of in refl
unquote_quoted (c ∷ v) = rw (last_of-snoc c v quote, init_of-snoc c v quote) refl

-- An assignment, by its first byte and the last quote.
assignment_shape :
    (exported : Bool) (c : ℕ) (key value : Text)
    → assignment exported (c ∷ key) value
      ≡ (if exported then b'e' else c)
        ∷ ((if exported
              then codes "xport " ++ c ∷ (key ++ b'=' ∷ quote ∷ value)
              else key ++ b'=' ∷ quote ∷ value)
            ++ quote ∷ [])
assignment_shape true c key value =
    ap (λ (s : Text). codes "export " ++ c ∷ s)
      (sym (append_assoc key (b'=' ∷ quote ∷ value) (quote ∷ [])))
assignment_shape false c key value =
    ap (λ (s : Text). c ∷ s) (sym (append_assoc key (b'=' ∷ quote ∷ value) (quote ∷ [])))

trimmed :
    (exported : Bool) (c : ℕ) (key value : Text)
    → IsKey (c ∷ key)
    → trim_space (assignment exported (c ∷ key) value) ≡ assignment exported (c ∷ key) value
unfolding is_space
trimmed true c key value k =
    rw (assignment_shape true c key value) (
      trim_space_between b'e' (codes "xport " ++ c ∷ (key ++ b'=' ∷ quote ∷ value)) quote refl refl)
trimmed false c key value k =
    rw (assignment_shape false c key value)
      (trim_space_between c (key ++ b'=' ∷ quote ∷ value) quote (ground (arith, k.1)) refl)

no_comment :
    (exported : Bool) (c : ℕ) (key value : Text)
    → IsKey (c ∷ key)
    → has_prefix (assignment exported (c ∷ key) value) (codes "#") ≡ false
unfolding has_prefix strip_prefix
no_comment true c key value k = refl
no_comment false c key value k = ground (arith, k.1)

unexported :
    (exported : Bool) (key value : Text)
    → all is_key_byte key ≡ true
    → trim_prefix (assignment exported key value) (codes "export ")
      ≡ key ++ b'=' ∷ quote ∷ (value ++ quote ∷ [])
unfolding trim_prefix
unexported true key value k = unfold strip_prefix in refl
unexported false key value k =
    rw (trim_prefix, no_word (codes "export") key (quote ∷ (value ++ quote ∷ [])) refl k) refl

no_spaces : (key : Text) → all is_key_byte key ≡ true → all (λ c. not (is_space c)) key ≡ true
no_spaces [] k = refl
no_spaces (c ∷ key) k = ground (arith, no_spaces key)

not_blank :
    (exported : Bool) (c : ℕ) (key value : Text)
    → is_empty (assignment exported (c ∷ key) value) ≡ false
not_blank true c key value = refl
not_blank false c key value = refl

token_in_assignment :
    (exported : Bool) (key value : Text)
    → IsKey key
    → is_empty value ≡ false
    → token_in_line key (assignment exported key value) ≡ some (ok value)
unfolding token_in_line
token_in_assignment exported [] value k v = absurd (cc k.0)
token_in_assignment exported (c ∷ key) value k v =
    let line = assignment exported (c ∷ key) value in
    let whole : trim_space line ≡ line = trimmed exported c key value k in
    let bare : trim_prefix line (codes "export ")
        ≡ (c ∷ key) ++ b'=' ∷ quote ∷ (value ++ quote ∷ []) =
      unexported exported (c ∷ key) value k.1 in
    let parts = cut_key (c ∷ key) (quote ∷ (value ++ quote ∷ [])) k.1 in
    let name : trim_space (c ∷ key) ≡ c ∷ key =
      trim_space_of_all (c ∷ key) (no_spaces (c ∷ key) k.1) in
    let inner : trim_space (quote ∷ (value ++ quote ∷ [])) ≡ quote ∷ (value ++ quote ∷ []) =
      trim_space_between quote value quote (unfold is_space in refl) (unfold is_space in refl) in
    let comment = no_comment exported c key value k in
    rw
      (
        token_in_line,
        whole,
        not_blank exported c key value,
        comment,
        bare,
        parts,
        name,
        text_eq_refl (c ∷ key),
        inner,
        unquote_quoted value,
        v,
      )
      refl

-- A line that the loop passes over.
abbrev pub IsSkipped : Text → Text → Type 0
IsSkipped key raw = token_in_line key raw ≡ none

token_behind :
    (key : Text) (before after : List Text) (line value : Text)
    → All (IsSkipped key) before
    → token_in_line key line ≡ some (ok value)
    → token_in_lines key (before ++ line ∷ after) ≡ ok value
unfolding token_in_lines
token_behind key [] after line value a h = rw (h, token_in_lines) refl
token_behind key (raw ∷ before) after line value a h =
    rw (token_in_lines, a.0) (token_behind key before after line value a.1 h)

-- An operator who writes KEY="value" on a line, with or without the word export, gets exactly that
-- value, whatever bytes it has, spaces, quotes and equals signs included, and whatever the file says
-- further down, if no line before it sets the key.
pub token_from_dotenv-assignment :
    (env : Env) (path content key value : Text) (exported : Bool) (before after : List Text)
    → env.read_file path ≡ some content
    → split b'\n' content ≡ before ++ assignment exported key value ∷ after
    → IsKey key
    → is_empty value ≡ false
    → All (IsSkipped key) before
    → token_from_dotenv env path key ≡ ok value
unfolding token_from_dotenv
token_from_dotenv-assignment env path content key value exported before after read lines k v a =
    rw (read, token_from_dotenv, lines)
      (token_behind key before after (assignment exported key value) value a
        (token_in_assignment exported key value k v))
