-- ===== src/Wer/Edits.antt =====
-- Edit scripts, and the Levenshtein table of crates/panops-core/src/wer.rs as the least of their costs.
use panops.Base.{
  List, Text, [], ap, arith, get_or, length, refl, suc, ℕ, ◌+◌, ◌∷◌, ◌≡◌, ◌≤◌, inl, inr, subst, sym,
  ◌⊎◌,
}
use panops.Wer.{cell, cost, fill_row, fill_rows, first_row, levenshtein, next_row}

-- One step of a script that makes one list of words from another.
pub data Edit : Type 0 where
  replace : Text → Text → Edit
  delete : Text → Edit
  insert : Text → Edit

abbrev pub before : List Edit → List Text
before [] = []
before (Edit.replace x y ∷ s) = x ∷ before s
before (Edit.delete x ∷ s) = x ∷ before s
before (Edit.insert y ∷ s) = before s

abbrev pub after : List Edit → List Text
after [] = []
after (Edit.replace x y ∷ s) = y ∷ after s
after (Edit.delete x ∷ s) = after s
after (Edit.insert y ∷ s) = y ∷ after s

-- Every word that goes, comes or changes costs one.
abbrev pub price : Edit → ℕ
price (Edit.replace x y) = cost x y
price (Edit.delete x) = 1
price (Edit.insert y) = 1

abbrev pub total : List Edit → ℕ
total [] = 0
total (e ∷ s) = price e + total s

abbrev turned {ℓ} : {A : Type ℓ} → List A → List A → List A
turned [] acc = acc
turned (x ∷ xs) acc = turned xs (x ∷ acc)

before-turned : (s acc : List Edit) → before (turned s acc) ≡ turned (before s) (before acc)
before-turned [] acc = refl
before-turned (Edit.replace x y ∷ s) acc = before-turned s (Edit.replace x y ∷ acc)
before-turned (Edit.delete x ∷ s) acc = before-turned s (Edit.delete x ∷ acc)
before-turned (Edit.insert y ∷ s) acc = before-turned s (Edit.insert y ∷ acc)

after-turned : (s acc : List Edit) → after (turned s acc) ≡ turned (after s) (after acc)
after-turned [] acc = refl
after-turned (Edit.replace x y ∷ s) acc = after-turned s (Edit.replace x y ∷ acc)
after-turned (Edit.delete x ∷ s) acc = after-turned s (Edit.delete x ∷ acc)
after-turned (Edit.insert y ∷ s) acc = after-turned s (Edit.insert y ∷ acc)

total-turned : (s acc : List Edit) → total (turned s acc) ≡ total s + total acc
total-turned [] acc = omega arith
total-turned (e ∷ s) acc = omega (arith, total-turned s (e ∷ acc))

turned-turned {ℓ} : {A : Type ℓ} (xs acc : List A) → turned (turned xs acc) [] ≡ turned acc xs
turned-turned [] acc = refl
turned-turned (x ∷ xs) acc = turned-turned xs (x ∷ acc)

-- The distance of two prefixes, each given with its last word first.
abbrev distance : List Text → List Text → ℕ
distance [] q = length q
distance (x ∷ p) [] = suc (length p)
distance (x ∷ p) (y ∷ q) = cell x y (distance p (y ∷ q)) (distance (x ∷ p) q) (distance p q)

distance-end : (p : List Text) → distance p [] ≡ length p
distance-end [] = refl
distance-end (x ∷ p) = refl

delete-le : (x : Text) (p q : List Text) → distance (x ∷ p) q ≤ suc (distance p q)
unfolding cell
delete-le x p [] = omega (arith, distance-end p)
delete-le x p (y ∷ q) = ground arith

insert-le : (y : Text) (p q : List Text) → distance p (y ∷ q) ≤ suc (distance p q)
unfolding cell
insert-le y [] q = omega arith
insert-le y (x ∷ p) q = ground arith

replace-le : (x y : Text) (p q : List Text) → distance (x ∷ p) (y ∷ q) ≤ cost x y + distance p q
unfolding cell
replace-le x y p q = ground arith

distance-le : (s : List Edit) → distance (before s) (after s) ≤ total s
distance-le [] = omega arith
distance-le (Edit.replace x y ∷ s) =
    omega (arith, replace-le x y (before s) (after s), distance-le s)
distance-le (Edit.delete x ∷ s) = omega (arith, delete-le x (before s) (after s), distance-le s)
distance-le (Edit.insert y ∷ s) = omega (arith, insert-le y (before s) (after s), distance-le s)

cell-cases :
    (x y : Text) (up left diag : ℕ)
    → (cell x y up left diag ≡ suc up)
      ⊎ (cell x y up left diag ≡ suc left)
      ⊎ (cell x y up left diag ≡ cost x y + diag)
unfolding cell
cell-cases x y up left diag = ground arith

-- A script between two prefixes, at the price of their distance.
abbrev pub Script : List Text → List Text → ℕ → Type 0
Script p q n = (s : List Edit) × (before s ≡ p) × (after s ≡ q) × (total s ≡ n)

deleting : (x : Text) (p q : List Text) (n : ℕ) → Script p q n → Script (x ∷ p) q (suc n)
deleting x p q n (s, b, a, t) = (Edit.delete x ∷ s, ap (◌∷◌ x) b, a, omega arith)

inserting : (y : Text) (p q : List Text) (n : ℕ) → Script p q n → Script p (y ∷ q) (suc n)
inserting y p q n (s, b, a, t) = (Edit.insert y ∷ s, b, ap (◌∷◌ y) a, omega arith)

replacing :
    (x y : Text) (p q : List Text) (n : ℕ) → Script p q n → Script (x ∷ p) (y ∷ q) (cost x y + n)
replacing x y p q n (s, b, a, t) =
    (Edit.replace x y ∷ s, ap (◌∷◌ x) b, ap (◌∷◌ y) a, ap (◌+◌ (cost x y)) t)

distance-Script : (p q : List Text) → Script p q (distance p q)
distance-Script [] [] = ([], refl, refl, refl)
distance-Script [] (y ∷ q) = inserting y [] q (length q) (distance-Script [] q)
distance-Script (x ∷ p) [] =
    deleting x p [] (length p) (subst (Script p []) (distance-end p) (distance-Script p []))
distance-Script (x ∷ p) (y ∷ q) =
    let up = distance-Script p (y ∷ q) in
    let left = distance-Script (x ∷ p) q in
    let diag = distance-Script p q in
    elim (cell-cases x y (distance p (y ∷ q)) (distance (x ∷ p) q) (distance p q)) [
      | inl e ↦ subst (Script (x ∷ p) (y ∷ q)) (sym e) (deleting x p (y ∷ q) _ up)
      | inr (inl e) ↦ subst (Script (x ∷ p) (y ∷ q)) (sym e) (inserting y (x ∷ p) q _ left)
      | inr (inr e) ↦ subst (Script (x ∷ p) (y ∷ q)) (sym e) (replacing x y p q _ diag)
    ]

-- The cells of the row of `p` to the right of the column of `q`.
abbrev cells : List Text → List Text → List Text → List ℕ
cells p q [] = []
cells p q (y ∷ ys) = distance p (y ∷ q) ∷ cells p (y ∷ q) ys

fill_row-cells :
    (x : Text) (p q ys : List Text)
    → fill_row x (distance (x ∷ p) q) (distance p q) ys (cells p q ys) ≡ cells (x ∷ p) q ys
unfolding fill_row
fill_row-cells x p q [] = refl
fill_row-cells x p q (y ∷ ys) = ap (◌∷◌ (distance (x ∷ p) (y ∷ q))) (fill_row-cells x p (y ∷ q) ys)

first_row-cells : (q ys : List Text) → first_row (length q) ys ≡ distance [] q ∷ cells [] q ys
unfolding first_row
first_row-cells q [] = refl
first_row-cells q (y ∷ ys) =
    let next : length q + 1 ≡ suc (length q) = omega arith in
    ap (◌∷◌ (length q)) (rw next (first_row-cells (y ∷ q) ys))

fill_rows-cells :
    (p a b : List Text)
    → fill_rows (suc (length p)) a b (distance p [] ∷ cells p [] b)
      ≡ distance (turned a p) [] ∷ cells (turned a p) [] b
unfolding fill_rows next_row
fill_rows-cells p [] b = refl
fill_rows-cells p (x ∷ a) b =
    let next : suc (length p) + 1 ≡ suc (suc (length p)) = omega arith in
    rw next (rw (fill_row-cells x p [] b) (fill_rows-cells (x ∷ p) a b))

last-cells :
    (p q ys : List Text)
    → get_or (distance p q ∷ cells p q ys) (length ys) 0 ≡ distance p (turned ys q)
last-cells p q [] = refl
last-cells p q (y ∷ ys) = last-cells p (y ∷ q) ys

levenshtein-distance : (a b : List Text) → levenshtein a b ≡ distance (turned a []) (turned b [])
unfolding levenshtein
levenshtein-distance a b =
    let first : first_row 0 b ≡ distance [] [] ∷ cells [] [] b = first_row-cells [] b in
    let rows : fill_rows 1 a b (distance [] [] ∷ cells [] [] b)
        ≡ distance (turned a []) [] ∷ cells (turned a []) [] b =
      fill_rows-cells [] a b in
    rw first (rw rows (last-cells (turned a []) [] b))

levenshtein-Script : (a b : List Text) → Script a b (levenshtein a b)
levenshtein-Script a b =
    let (s, p, q, t) = distance-Script (turned a []) (turned b []) in
    let back : (xs : List Text) → turned (turned xs []) [] ≡ xs = λ xs. turned-turned xs [] in
    (
      turned s [],
      rw (before-turned s []) (rw p (back a)),
      rw (after-turned s []) (rw q (back b)),
      rw (levenshtein-distance a b) (omega (arith, total-turned s [])),
    )

levenshtein-le : (s : List Edit) → levenshtein (before s) (after s) ≤ total s
levenshtein-le s = rw (levenshtein-distance (before s) (after s)) (
    rw (← (before-turned s []))
      (rw (← (after-turned s [])) (omega (arith, total-turned s [], distance-le (turned s [])))))

-- The Levenshtein table answers with the cost of the cheapest edit script: some script that
-- replaces, deletes and inserts words makes `b` from `a` at that cost, and no script does for less.
pub levenshtein-IsLeast :
    (a b : List Text)
    → Script a b (levenshtein a b)
      × ((s : List Edit) → before s ≡ a → after s ≡ b → levenshtein a b ≤ total s)
levenshtein-IsLeast a b = (levenshtein-Script a b, λ s p q. rw (← p) (rw (← q) (levenshtein-le s)))
