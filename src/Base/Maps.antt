-- ===== src/Base/Maps.antt =====
-- A `HashMap` with text keys as an association list. The order of the entries stands for the
-- map's iteration order, which the program leaves open.
use panops.Base.Tests.{Bool-cases, if◌then◌else◌, some_inj}
use panops.Base.Lists.{All, keep}
use panops.Base.Bytes.{Text, text_eq, text_eq_iff, text_eq_refl}
use mathlib.Core.Path.{◌≡◌}
use mathlib.Core.Logic.{inl, inr}
use mathlib.Core.Bool.{Bool, true, false, not}
use mathlib.Core.Option.{Option, none, some}
use mathlib.Core.List.{List, [], ◌∷◌}
use native.Mathlib.Omega.{arith}

abbrev pub Dict {ℓ} : Type ℓ → Type ℓ
Dict V = List (Text × V)

module _ {ℓ} {V : Type ℓ} where
  unfoldable pub lookup : Text → Dict V → Option V
  lookup k [] = none
  lookup k ((j, v) ∷ m) = if text_eq j k then some v else lookup k m

  unfoldable pub contains_key : Text → Dict V → Bool
  unfolding lookup
  contains_key k m = elim (lookup k m) [ none ↦ false | some _ ↦ true ]

  -- `m.remove(k)`
  unfoldable pub remove : Text → Dict V → Dict V
  remove k m = keep (λ e. not (text_eq e.0 k)) m

  -- `m.insert(k, v)`
  unfoldable pub insert : Text → V → Dict V → Dict V
  unfolding remove
  insert k v m = (k, v) ∷ remove k m

  -- A write through `m.get_mut(k)`.
  unfoldable pub modify : Text → (V → V) → Dict V → Dict V
  modify k f [] = []
  modify k f ((j, v) ∷ m) = (j, (if text_eq j k then f v else v)) ∷ modify k f m

  -- `m.retain(|_, v| p(v))`
  unfoldable pub retain : (V → Bool) → Dict V → Dict V
  retain p m = keep (λ e. p e.1) m

  -- `m.values()`
  unfoldable pub values : Dict V → List V
  values [] = []
  values ((k, v) ∷ m) = v ∷ values m

  -- Every key in `ks` is removed in turn.
  unfoldable pub remove_keys : List Text → Dict V → Dict V
  unfolding remove
  remove_keys [] m = m
  remove_keys (k ∷ ks) m = remove_keys ks (remove k m)

  abbrev pub Has : Dict V → Text → Type 0
  Has m k = contains_key k m ≡ true

  -- No key stands twice.
  abbrev pub Distinct : Dict V → Type 0
  Distinct [] = Unit
  Distinct ((k, v) ∷ m) = (contains_key k m ≡ false) × Distinct m

  pub lookup-remove :
      (k j : Text) (m : Dict V) → lookup j (remove k m) ≡ (if text_eq k j then none else lookup j m)
  unfolding lookup remove
  lookup-remove k j [] = ground arith
  lookup-remove k j ((i, v) ∷ m) =
      ground (arith, text_eq_iff i k, text_eq_iff i j, text_eq_iff k j, lookup-remove k j m)

  pub lookup-insert :
      (k j : Text) (v : V) (m : Dict V)
      → lookup j (insert k v m) ≡ (if text_eq k j then some v else lookup j m)
  unfolding lookup insert
  lookup-insert k j v m = ground (arith, lookup-remove k j m)

  pub lookup-modify :
      (k j : Text) (f : V → V) (m : Dict V)
      → lookup j (modify k f m) ≡ (
          if text_eq k j
          then elim (lookup j m) [ none ↦ none | some v ↦ some (f v) ]
          else lookup j m)
  unfolding lookup modify
  lookup-modify k j f [] = ground arith
  lookup-modify k j f ((i, v) ∷ m) =
      ground (arith, text_eq_iff i k, text_eq_iff i j, text_eq_iff k j, lookup-modify k j f m)

  pub contains_key-remove :
      (k j : Text) (m : Dict V)
      → contains_key j (remove k m) ≡ (if text_eq k j then false else contains_key j m)
  unfolding contains_key
  contains_key-remove k j m = ground (arith, lookup-remove k j m)

  pub contains_key-insert :
      (k j : Text) (v : V) (m : Dict V)
      → contains_key j (insert k v m) ≡ (if text_eq k j then true else contains_key j m)
  unfolding contains_key
  contains_key-insert k j v m = ground (arith, lookup-insert k j v m)

  pub contains_key-modify :
      (k j : Text) (f : V → V) (m : Dict V) → contains_key j (modify k f m) ≡ contains_key j m
  unfolding contains_key
  contains_key-modify k j f m = ground (arith, lookup-modify k j f m)

  pub Has-insert : (k : Text) (v : V) (m : Dict V) (j : Text) → Has m j → Has (insert k v m) j
  Has-insert k v m j h = ground (arith, contains_key-insert k j v m)

  pub Has-insert_self : (k : Text) (v : V) (m : Dict V) → Has (insert k v m) k
  Has-insert_self k v m = ground (arith, contains_key-insert k k v m, text_eq_refl k)

  pub Has-of_lookup : (k : Text) (m : Dict V) {v : V} → lookup k m ≡ some v → Has m k
  unfolding contains_key
  Has-of_lookup k m e = ground arith

  pub contains_key-of_none : (k : Text) (m : Dict V) → lookup k m ≡ none → contains_key k m ≡ false
  unfolding contains_key
  contains_key-of_none k m e = ground arith

  -- To remove what is not there changes no answer.
  pub contains_key-remove-none :
      (k j : Text) (m : Dict V) → lookup k m ≡ none → contains_key j (remove k m) ≡ contains_key j m
  contains_key-remove-none k j m e =
      ground (arith, text_eq_iff k j, contains_key-remove k j m, contains_key-of_none k m e)

  -- What is found satisfies what all entries do.
  pub lookup-All :
      (P : Text × V → Type 0) (k : Text) (m : Dict V) (v : V)
      → All P m
      → lookup k m ≡ some v
      → P (k, v)
  unfolding lookup
  lookup-All P k [] v h e = cc
  lookup-All P k ((j, w) ∷ m) v h e = elim (Bool-cases (text_eq j k)) [
    | inl same ↦ rw (← (text_eq_iff j k).0 same, ← some_inj (rw same at e)) h.0
    | inr other ↦ lookup-All P k m v h.1 (rw other at e)
  ]

  -- Entries that pass a filter satisfy the test too.
  pub All-keep_with :
      (P : Text × V → Type 0) (p : Text × V → Bool) (m : Dict V)
      → All P m
      → All (λ e. P e × (p e ≡ true)) (keep p m)
  All-keep_with P p [] h = tt
  All-keep_with P p (e ∷ m) h = elim (Bool-cases (p e)) [
    | inl passes ↦ rw passes ((h.0, passes), All-keep_with P p m h.1)
    | inr fails ↦ rw fails (All-keep_with P p m h.1)
  ]
