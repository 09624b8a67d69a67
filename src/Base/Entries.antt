-- ===== src/Base/Entries.antt =====
-- How each map operation treats a predicate on all entries, and the distinctness of the keys.
use panops.Base.Tests.{Bool-cases}
use panops.Base.Lists.{All, All-mono, keep}
use panops.Base.Bytes.{Text, text_eq, text_eq_iff, text_eq_refl}
use panops.Base.Maps.{
  All-keep_with, Dict, Distinct, contains_key, contains_key-modify, contains_key-remove, insert,
  lookup, lookup-remove, remove, remove_keys, retain, modify,
}
use mathlib.Core.Path.{◌≡◌, refl, ◌∙◌}
use mathlib.Core.Logic.{inl, inr}
use mathlib.Core.Bool.{Bool, true, false, not}
use mathlib.Core.List.{List, [], ◌∷◌}
use native.Mathlib.Omega.{arith}

pub text_eq_sym : (s t : Text) → text_eq s t ≡ text_eq t s
text_eq_sym s t = ground (arith, text_eq_iff s t, text_eq_iff t s)

module _ {ℓ} {V : Type ℓ} where
  pub All-remove :
      (P : Text × V → Type 0) (k : Text) (m : Dict V)
      → All P m
      → All (λ e. P e × (text_eq e.0 k ≡ false)) (remove k m)
  unfolding remove
  All-remove P k m h =
      All-mono _ _ (remove k m) (λ e p. (p.0, ground arith))
        (All-keep_with P (λ e. not (text_eq e.0 k)) m h)

  pub All-insert :
      (P : Text × V → Type 0) (k : Text) (v : V) (m : Dict V)
      → P (k, v)
      → All P m
      → All P (insert k v m)
  unfolding insert
  All-insert P k v m p h = (p, All-mono _ _ (remove k m) (λ e q. q.0) (All-remove P k m h))

  pub All-retain :
      (P : Text × V → Type 0) (p : V → Bool) (m : Dict V)
      → All P m
      → All (λ e. P e × (p e.1 ≡ true)) (retain p m)
  unfolding retain
  All-retain P p m h = All-keep_with P (λ e. p e.1) m h

  pub All-modify :
      (P : Text × V → Type 0) (k : Text) (f : V → V) (m : Dict V)
      → ((j : Text) (v : V) → P (j, v) → P (j, f v))
      → All P m
      → All P (modify k f m)
  unfolding modify
  All-modify P k f [] step h = tt
  All-modify P k f ((j, v) ∷ m) step h = elim (Bool-cases (text_eq j k)) [
    | inl same ↦ rw same (step j v h.0, All-modify P k f m step h.1)
    | inr other ↦ rw other (h.0, All-modify P k f m step h.1)
  ]

  -- Removing every key of a list.
  pub All-remove_keys :
      (ks : List Text) (P : Text × V → Type 0) (m : Dict V)
      → All P m
      → All (λ e. P e × All (λ k. text_eq e.0 k ≡ false) ks) (remove_keys ks m)
  unfolding remove_keys
  All-remove_keys [] P m h = All-mono _ _ m (λ e p. (p, tt)) h
  All-remove_keys (k ∷ ks) P m h =
      All-mono _ _ (remove_keys ks (remove k m)) (λ e p. (p.0.0, (p.0.1, p.1)))
        (All-remove_keys ks (λ e. P e × (text_eq e.0 k ≡ false)) (remove k m) (All-remove P k m h))

  pub lookup-remove_keys :
      (ks : List Text) (j : Text) (m : Dict V)
      → All (λ k. text_eq k j ≡ false) ks
      → lookup j (remove_keys ks m) ≡ lookup j m
  unfolding remove_keys
  lookup-remove_keys [] j m h = refl
  lookup-remove_keys (k ∷ ks) j m h =
      lookup-remove_keys ks j (remove k m) h.1 ∙ rw (lookup-remove k j m) (rw h.0 refl)

  contains_key-keep :
      (p : Text × V → Bool) (k : Text) (m : Dict V)
      → contains_key k m ≡ false
      → contains_key k (keep p m) ≡ false
  unfolding contains_key
  contains_key-keep p k [] h = refl
  contains_key-keep p k ((j, v) ∷ m) h = ground (arith, contains_key-keep p k m)

  Distinct-keep : (p : Text × V → Bool) (m : Dict V) → Distinct m → Distinct (keep p m)
  Distinct-keep p [] d = tt
  Distinct-keep p ((j, v) ∷ m) d = elim (Bool-cases (p (j, v))) [
    | inl e ↦ rw e (contains_key-keep p j m d.0, Distinct-keep p m d.1)
    | inr e ↦ rw e (Distinct-keep p m d.1)
  ]

  pub Distinct-remove : (k : Text) (m : Dict V) → Distinct m → Distinct (remove k m)
  unfolding remove
  Distinct-remove k m d = Distinct-keep (λ e. not (text_eq e.0 k)) m d

  pub Distinct-insert : (k : Text) (v : V) (m : Dict V) → Distinct m → Distinct (insert k v m)
  unfolding insert
  Distinct-insert k v m d =
      (ground (arith, contains_key-remove k k m, text_eq_refl k), Distinct-remove k m d)

  pub Distinct-remove_keys :
      (ks : List Text) (m : Dict V) → Distinct m → Distinct (remove_keys ks m)
  unfolding remove_keys
  Distinct-remove_keys [] m d = d
  Distinct-remove_keys (k ∷ ks) m d = Distinct-remove_keys ks (remove k m) (Distinct-remove k m d)

  pub Distinct-retain : (p : V → Bool) (m : Dict V) → Distinct m → Distinct (retain p m)
  unfolding retain
  Distinct-retain p m d = Distinct-keep (λ e. p e.1) m d

  pub Distinct-modify : (k : Text) (f : V → V) (m : Dict V) → Distinct m → Distinct (modify k f m)
  unfolding modify
  Distinct-modify k f [] d = tt
  Distinct-modify k f ((j, v) ∷ m) d =
      (contains_key-modify k j f m ∙ d.0, Distinct-modify k f m d.1)
