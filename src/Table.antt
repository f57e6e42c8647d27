-- ===== src/Table.antt =====
-- A Go map with string keys: the list of its entries. Where the program ranges over a map, the
-- order of the list stands for the order of the iteration, and the theorems hold for every order.
use rcvd.Prelude.{
  suc, ◌≤◌, ◌≡◌, refl, inl, inr, true, false, Option, none, some, List, [], ◌∷◌, arith, length,
  is_some, if◌then◌else◌, Bool-cases, ap, Elem, All,
}
use mathlib.Core.Path.{subst₂}
use rcvd.Text.{Text, text_eq, text_eq_iff}

abbrev pub Table : Type 0 → Type 0
Table V = List (Text × V)

module _ {V : Type 0} where
  -- m[k]
  unfoldable pub lookup : Text → Table V → Option V
  lookup k [] = none
  lookup k ((j, v) ∷ m) = if text_eq j k then some v else lookup k m

  -- m[k] = v
  unfoldable pub insert : Text → V → Table V → Table V
  insert k v [] = (k, v) ∷ []
  insert k v ((j, w) ∷ m) = if text_eq j k then (k, v) ∷ m else (j, w) ∷ insert k v m

  -- delete(m, k)
  unfoldable pub delete : Text → Table V → Table V
  delete k [] = []
  delete k ((j, w) ∷ m) = let rest = delete k m in if text_eq j k then rest else (j, w) ∷ rest

  pub lookup-insert :
      (k j : Text) (v : V) (m : Table V)
      → lookup j (insert k v m) ≡ (if text_eq k j then some v else lookup j m)
  unfolding lookup insert
  lookup-insert k j v [] = refl
  lookup-insert k j v ((i, w) ∷ m) =
      ground (arith, text_eq_iff k j, text_eq_iff i k, text_eq_iff i j, lookup-insert k j v m)

  pub lookup-delete :
      (k j : Text) (m : Table V)
      → lookup j (delete k m) ≡ (if text_eq k j then none else lookup j m)
  unfolding lookup delete
  lookup-delete k j [] = ground arith
  lookup-delete k j ((i, w) ∷ m) =
      ground (arith, text_eq_iff k j, text_eq_iff i k, text_eq_iff i j, lookup-delete k j m)

  -- A new key makes the map larger by one, an old one leaves its size.
  pub length-insert :
      (k : Text) (v : V) (m : Table V)
      → length (insert k v m) ≡ (if is_some (lookup k m) then length m else suc (length m))
  unfolding lookup insert
  length-insert k v [] = refl
  length-insert k v ((j, w) ∷ m) = ground (arith, length-insert k v m)

  pub length-delete-le : (k : Text) (m : Table V) → length (delete k m) ≤ length m
  unfolding delete
  length-delete-le k [] = omega arith
  length-delete-le k ((j, w) ∷ m) = ground (arith, length-delete-le k m)

  -- To delete a key that is there makes the map smaller.
  pub length-delete_of_some :
      (k : Text) (m : Table V) → is_some (lookup k m) ≡ true → suc (length (delete k m)) ≤ length m
  unfolding lookup delete
  length-delete_of_some k [] h = cc
  length-delete_of_some k ((j, w) ∷ m) h =
      ground (arith, length-delete_of_some k m, length-delete-le k m)

  -- No key stands twice.
  abbrev pub Distinct : Table V → Type 0
  Distinct [] = Unit
  Distinct ((k, v) ∷ m) = (lookup k m ≡ none) × Distinct m

  lookup-insert-none :
      (k j : Text) (v : V) (m : Table V)
      → text_eq k j ≡ false
      → lookup j m ≡ none
      → lookup j (insert k v m) ≡ none
  lookup-insert-none k j v m h e = rw (lookup-insert k j v m, h) e

  lookup-delete-none : (k j : Text) (m : Table V) → lookup j m ≡ none → lookup j (delete k m) ≡ none
  lookup-delete-none k j m e = ground (arith, lookup-delete k j m)

  pub Distinct-insert : (k : Text) (v : V) (m : Table V) → Distinct m → Distinct (insert k v m)
  unfolding insert lookup
  Distinct-insert k v [] d = (refl, tt)
  Distinct-insert k v ((j, w) ∷ m) d = elim (Bool-cases (text_eq j k)) [
    | inl y ↦ rw y (rw (← (text_eq_iff j k).0 y) d.0, d.1)
    | inr n ↦ rw n (
      lookup-insert-none k j v m (ground (arith, text_eq_iff j k, text_eq_iff k j)) d.0,
      Distinct-insert k v m d.1,
    )
  ]

  pub Distinct-delete : (k : Text) (m : Table V) → Distinct m → Distinct (delete k m)
  unfolding delete
  Distinct-delete k [] d = tt
  Distinct-delete k ((j, w) ∷ m) d = elim (Bool-cases (text_eq j k)) [
    | inl y ↦ rw y (Distinct-delete k m d.1)
    | inr n ↦ rw n (lookup-delete-none k j m d.0, Distinct-delete k m d.1)
  ]

  -- Where no key stands twice, an entry of the list is the one that a lookup finds.
  pub lookup_of_Elem :
      (k : Text) (v : V) (m : Table V) → Distinct m → Elem (k, v) m → lookup k m ≡ some v
  unfolding lookup
  lookup_of_Elem k v [] d e = absurd e
  lookup_of_Elem k v ((j, w) ∷ m) d (inl e) =
      ground (arith, text_eq_iff j k, ap (λ (x : Text × V). x.0) e, ap (λ (x : Text × V). x.1) e)
  lookup_of_Elem k v ((j, w) ∷ m) d (inr e) = elim (Bool-cases (text_eq j k)) [
    | inl y ↦ absurd (cc (lookup_of_Elem k v m d.1 e, d.0, (text_eq_iff j k).0 y))
    | inr n ↦ rw n (lookup_of_Elem k v m d.1 e)
  ]

  pub All-lookup {κ} :
      (P : Text × V → Type κ) (k : Text) (v : V) (m : Table V)
      → All P m
      → lookup k m ≡ some v
      → P (k, v)
  unfolding lookup
  All-lookup P k v [] a h = absurd (cc h)
  All-lookup P k v ((j, w) ∷ m) a h = elim (Bool-cases (text_eq j k)) [
    | inl y ↦ subst₂ (λ x z. P (x, z)) ((text_eq_iff j k).0 y) (ground arith) a.0
    | inr n ↦ All-lookup P k v m a.1 (ground arith)
  ]
