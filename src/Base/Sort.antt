-- ===== src/Base/Sort.antt =====
-- `slice::sort_by_key`: a stable sort by a numeric key, as insertion from the right.
use Prim.Native.Nat.{ℕ, ◌≤◌}
use mathlib.Core.Path.{◌≡◌, refl, ◌∙◌}
use mathlib.Core.Logic.{inl, inr}
use mathlib.Core.Bool.{Bool, true, false}
use mathlib.Core.List.{List, [], ◌∷◌, Perm}
use mathlib.Core.List.Perm
use native.Mathlib.Omega.{arith}
use panops.Base.Tests.{leb, ◌==◌, if◌then◌else◌, Bool-cases, leb→le}
use panops.Base.Lists.{All, All-mono, keep, All-keep}

module _ {ℓ} {A : Type ℓ} (key : A → ℕ) where
  -- An element goes in front of the first one whose key is not smaller.
  unfoldable pub insert_by : A → List A → List A
  insert_by x [] = x ∷ []
  insert_by x (y ∷ ys) = if leb (key x) (key y) then x ∷ y ∷ ys else y ∷ insert_by x ys

  unfoldable pub sort_by_key : List A → List A
  unfolding insert_by
  sort_by_key [] = []
  sort_by_key (x ∷ xs) = insert_by x (sort_by_key xs)

  -- Each element's key is at most those of all later elements.
  abbrev pub IsSortedBy : List A → Type 0
  IsSortedBy [] = Unit
  IsSortedBy (x ∷ xs) = All (λ y. key x ≤ key y) xs × IsSortedBy xs

  All-insert_by : (P : A → Type 0) (x : A) (ys : List A) → P x → All P ys → All P (insert_by x ys)
  unfolding insert_by
  All-insert_by P x [] p h = (p, tt)
  All-insert_by P x (y ∷ ys) p h = elim (Bool-cases (leb (key x) (key y))) [
    | inl e ↦ rw e (p, h)
    | inr e ↦ rw e (h.0, All-insert_by P x ys p h.1)
  ]

  insert_by-IsSortedBy : (x : A) (ys : List A) → IsSortedBy ys → IsSortedBy (insert_by x ys)
  unfolding insert_by
  insert_by-IsSortedBy x [] s = (tt, tt)
  insert_by-IsSortedBy x (y ∷ ys) s = elim (Bool-cases (leb (key x) (key y))) [
    | inl e ↦
        let le : key x ≤ key y = leb→le _ _ e in
        rw e ((le, All-mono _ _ ys (λ z h. omega arith) s.0), s)
    | inr e ↦
        rw e (
          All-insert_by (λ z. key y ≤ key z) x ys (ground arith) s.0,
          insert_by-IsSortedBy x ys s.1,
        )
  ]

  pub sort_by_key-IsSortedBy : (xs : List A) → IsSortedBy (sort_by_key xs)
  unfolding sort_by_key
  sort_by_key-IsSortedBy [] = tt
  sort_by_key-IsSortedBy (x ∷ xs) =
      insert_by-IsSortedBy x (sort_by_key xs) (sort_by_key-IsSortedBy xs)

  pub All-sort_by_key : (P : A → Type 0) (xs : List A) → All P xs → All P (sort_by_key xs)
  unfolding sort_by_key
  All-sort_by_key P [] h = tt
  All-sort_by_key P (x ∷ xs) h = All-insert_by P x (sort_by_key xs) h.0 (All-sort_by_key P xs h.1)

  All-of-insert_by :
      (P : A → Type 0) (x : A) (ys : List A) → All P (insert_by x ys) → P x × All P ys
  unfolding insert_by
  All-of-insert_by P x [] h = h
  All-of-insert_by P x (y ∷ ys) h = elim (Bool-cases (leb (key x) (key y))) [
    | inl e ↦ rw e at h
    | inr e ↦
        let k : P y × All P (insert_by x ys) = rw e at h in
        let (p, q) = All-of-insert_by P x ys k.1 in (p, (k.0, q))
  ]

  -- What holds of all sorted elements held of all given ones.
  pub All-of-sort_by_key : (P : A → Type 0) (xs : List A) → All P (sort_by_key xs) → All P xs
  unfolding sort_by_key
  All-of-sort_by_key P [] h = tt
  All-of-sort_by_key P (x ∷ xs) h =
      let (p, q) = All-of-insert_by P x (sort_by_key xs) h in (p, All-of-sort_by_key P xs q)

  insert_by-perm : (x : A) (ys : List A) → Perm (insert_by x ys) (x ∷ ys)
  unfolding insert_by
  insert_by-perm x [] = Perm.rfl
  insert_by-perm x (y ∷ ys) = elim (Bool-cases (leb (key x) (key y))) [
    | inl e ↦ rw e Perm.rfl
    | inr e ↦ rw e (Perm.trans (Perm.cons y (insert_by-perm x ys)) (Perm.swap x y ys))
  ]

  pub sort_by_key-perm : (xs : List A) → Perm (sort_by_key xs) xs
  unfolding sort_by_key
  sort_by_key-perm [] = Perm.rfl
  sort_by_key-perm (x ∷ xs) =
      Perm.trans (insert_by-perm x (sort_by_key xs)) (Perm.cons x (sort_by_key-perm xs))

  insert_by-stable :
      (k : ℕ) (x : A) (ys : List A)
      → keep (λ a. key a == k) (insert_by x ys) ≡ keep (λ a. key a == k) (x ∷ ys)
  unfolding insert_by
  insert_by-stable k x [] = refl
  insert_by-stable k x (y ∷ ys) = ground (arith, insert_by-stable k x ys)

  -- Elements of one key keep their order.
  pub sort_by_key-stable :
      (k : ℕ) (xs : List A) → keep (λ a. key a == k) (sort_by_key xs) ≡ keep (λ a. key a == k) xs
  unfolding sort_by_key
  sort_by_key-stable k [] = refl
  sort_by_key-stable k (x ∷ xs) =
      insert_by-stable k x (sort_by_key xs) ∙ ground (arith, sort_by_key-stable k xs)

  insert_by_front : (x : A) (ys : List A) → All (λ y. key x ≤ key y) ys → insert_by x ys ≡ x ∷ ys
  unfolding insert_by
  insert_by_front x [] h = refl
  insert_by_front x (y ∷ ys) h = ground arith

  -- A sorted list is left as it is.
  pub sort_by_key_of_IsSortedBy : (xs : List A) → IsSortedBy xs → sort_by_key xs ≡ xs
  unfolding sort_by_key
  sort_by_key_of_IsSortedBy [] s = refl
  sort_by_key_of_IsSortedBy (x ∷ xs) s =
      rw (sort_by_key_of_IsSortedBy xs s.1) (insert_by_front x xs s.0)

  All-below :
      (x y : A) (ys : List A)
      → key x ≤ key y
      → All (λ z. key y ≤ key z) ys
      → All (λ z. key x ≤ key z) ys
  All-below x y ys h = All-mono _ _ ys (λ z p. omega arith)

  keep-insert_by :
      (p : A → Bool) (x : A) (ys : List A)
      → IsSortedBy ys
      → keep p (insert_by x ys) ≡ (if p x then insert_by x (keep p ys) else keep p ys)
  unfolding insert_by
  keep-insert_by p x [] s = refl
  keep-insert_by p x (y ∷ ys) s = elim (Bool-cases (leb (key x) (key y))) [
    | inl e ↦
        let front =
          insert_by_front x (keep p (y ∷ ys))
            (All-keep _ p (y ∷ ys) (leb→le _ _ e, All-below x y ys (leb→le _ _ e) s.0)) in
        rw e (rw front refl)
    | inr e ↦ rw e (ground (arith, keep-insert_by p x ys s.1))
  ]

  -- A stable sort and a filter can change places.
  pub keep-sort_by_key :
      (p : A → Bool) (xs : List A) → keep p (sort_by_key xs) ≡ sort_by_key (keep p xs)
  unfolding sort_by_key
  keep-sort_by_key p [] = refl
  keep-sort_by_key p (x ∷ xs) =
      keep-insert_by p x (sort_by_key xs) (sort_by_key-IsSortedBy xs)
      ∙ ground (arith, keep-sort_by_key p xs)

-- `slice::sort_by` with a Boolean "not greater": a stable insertion sort.
module _ {ℓ} {A : Type ℓ} (le : A → A → Bool) where
  unfoldable pub insert_ordered : A → List A → List A
  insert_ordered x [] = x ∷ []
  insert_ordered x (y ∷ ys) = if le x y then x ∷ y ∷ ys else y ∷ insert_ordered x ys

  unfoldable pub sort_by : List A → List A
  unfolding insert_ordered
  sort_by [] = []
  sort_by (x ∷ xs) = insert_ordered x (sort_by xs)

  abbrev pub IsOrdered : List A → Type 0
  IsOrdered [] = Unit
  IsOrdered (x ∷ xs) = All (λ y. le x y ≡ true) xs × IsOrdered xs

  All-insert_ordered :
      (P : A → Type 0) (x : A) (ys : List A) → P x → All P ys → All P (insert_ordered x ys)
  unfolding insert_ordered
  All-insert_ordered P x [] p h = (p, tt)
  All-insert_ordered P x (y ∷ ys) p h = elim (Bool-cases (le x y)) [
    | inl e ↦ rw e (p, h)
    | inr e ↦ rw e (h.0, All-insert_ordered P x ys p h.1)
  ]

  pub All-sort_by : (P : A → Type 0) (xs : List A) → All P xs → All P (sort_by xs)
  unfolding sort_by
  All-sort_by P [] h = tt
  All-sort_by P (x ∷ xs) h = All-insert_ordered P x (sort_by xs) h.0 (All-sort_by P xs h.1)

  insert_ordered-perm : (x : A) (ys : List A) → Perm (insert_ordered x ys) (x ∷ ys)
  unfolding insert_ordered
  insert_ordered-perm x [] = Perm.rfl
  insert_ordered-perm x (y ∷ ys) = elim (Bool-cases (le x y)) [
    | inl e ↦ rw e Perm.rfl
    | inr e ↦ rw e (Perm.trans (Perm.cons y (insert_ordered-perm x ys)) (Perm.swap x y ys))
  ]

  pub sort_by-perm : (xs : List A) → Perm (sort_by xs) xs
  unfolding sort_by
  sort_by-perm [] = Perm.rfl
  sort_by-perm (x ∷ xs) =
      Perm.trans (insert_ordered-perm x (sort_by xs)) (Perm.cons x (sort_by-perm xs))

  module _ (trans : (x y z : A) → le x y ≡ true → le y z ≡ true → le x z ≡ true)
      (total : (x y : A) → le x y ≡ false → le y x ≡ true) where
    insert_ordered-IsOrdered :
        (x : A) (ys : List A) → IsOrdered ys → IsOrdered (insert_ordered x ys)
    unfolding insert_ordered
    insert_ordered-IsOrdered x [] s = (tt, tt)
    insert_ordered-IsOrdered x (y ∷ ys) s = elim (Bool-cases (le x y)) [
      | inl e ↦ rw e ((e, All-mono _ _ ys (λ z h. trans x y z e h) s.0), s)
      | inr e ↦ rw e (
        All-insert_ordered (λ z. le y z ≡ true) x ys (total x y e) s.0,
        insert_ordered-IsOrdered x ys s.1,
      )
    ]

    pub sort_by-IsOrdered : (xs : List A) → IsOrdered (sort_by xs)
    unfolding sort_by
    sort_by-IsOrdered [] = tt
    sort_by-IsOrdered (x ∷ xs) = insert_ordered-IsOrdered x (sort_by xs) (sort_by-IsOrdered xs)
