-- ===== src/Cache/Key.antt =====
-- The cache key tells requests apart by name, type, class and DO bit, as far as the library's
-- names for types and classes do.
use rcvd.Prelude.{ℕ, ◌≡◌, ◌↔◌, Bool, true, false, ◌||◌, [], ◌∷◌, ◌++◌, arith, ◌==◌, is_empty}
use rcvd.Text.{Text}
use rcvd.Dns.{Question, Msg, DnsLib}
use rcvd.Cache.{do_flag, key_of}

-- strings.Contains for one byte.
abbrev pub holds : ℕ → Text → Bool
holds b [] = false
holds b (c ∷ s) = c == b || holds b s

-- What the documentation says of TypeToString and ClassToString: their names are mnemonics, and
-- two types that have a name have different ones. A type without a name yields the empty text.
pub record KeyLaws (lib : DnsLib) : Type 0 where
  pub type_plain : (t : ℕ) → holds b'|' (lib.type_to_string t) ≡ false
  pub class_plain : (t : ℕ) → holds b'|' (lib.class_to_string t) ≡ false
  pub type_known :
      (t u : ℕ)
      → is_empty (lib.type_to_string t) ≡ false
      → lib.type_to_string t ≡ lib.type_to_string u
      → t ≡ u
  pub class_known :
      (t u : ℕ)
      → is_empty (lib.class_to_string t) ≡ false
      → lib.class_to_string t ≡ lib.class_to_string u
      → t ≡ u

holds-append_mid : (b : ℕ) (p s : Text) → holds b (p ++ b ∷ s) ≡ true
holds-append_mid b [] s = ground arith
holds-append_mid b (c ∷ p) s = ground (arith, holds-append_mid b p s)

-- A text is split at its last bar in one way only.
last_bar :
    (p q u v : Text)
    → holds b'|' u ≡ false
    → holds b'|' v ≡ false
    → p ++ b'|' ∷ u ≡ q ++ b'|' ∷ v
    → (p ≡ q) × (u ≡ v)
last_bar [] [] u v hu hv e = ground arith
last_bar [] (d ∷ q) u v hu hv e = absurd (ground (arith, holds-append_mid b'|' q v))
last_bar (c ∷ p) [] u v hu hv e = absurd (ground (arith, holds-append_mid b'|' p u))
last_bar (c ∷ p) (d ∷ q) u v hu hv e = ground (arith, last_bar p q u v)

do_flag_plain : (lib : DnsLib) (req : Msg) → holds b'|' (do_flag lib req) ≡ false
unfolding do_flag
do_flag_plain lib req = ground arith

-- Two keys are equal exactly when the names, the type names, the class names and the DO flags are.
-- The name may hold any byte, the separator too.
pub key_of-injective :
    (lib : DnsLib) (laws : KeyLaws lib) (r r' : Msg) (q q' : Question)
    → (key_of lib r q ≡ key_of lib r' q') ↔ (
        (q.name ≡ q'.name)
        × (lib.type_to_string q.qtype ≡ lib.type_to_string q'.qtype)
        × (lib.class_to_string q.qclass ≡ lib.class_to_string q'.qclass)
        × (do_flag lib r ≡ do_flag lib r'))
unfolding key_of
key_of-injective lib laws r r' q q' = (there, λ h. cc (h.0, h.1, h.2, h.3))
  where
    there :
        key_of lib r q ≡ key_of lib r' q'
        → (q.name ≡ q'.name)
          × (lib.type_to_string q.qtype ≡ lib.type_to_string q'.qtype)
          × (lib.class_to_string q.qclass ≡ lib.class_to_string q'.qclass)
          × (do_flag lib r ≡ do_flag lib r')
    there e =
        let (e1, f) = last_bar _ _ _ _ (do_flag_plain lib r) (do_flag_plain lib r') e in
        let (e2, c) =
          last_bar _ _ _ _ (laws.class_plain q.qclass) (laws.class_plain q'.qclass) e1 in
        let (n, t) = last_bar _ _ _ _ (laws.type_plain q.qtype) (laws.type_plain q'.qtype) e2 in
        (n, t, c, f)
