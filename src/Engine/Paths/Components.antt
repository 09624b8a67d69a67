-- ===== src/Engine/Paths/Components.antt =====
-- Components of joined paths.
use panops.Base.{
  Bool-cases, List, Text, [], ap, append_assoc, arith, false, inl, inr, refl, sym, text_eq_refl,
  true, ℕ, ◌++◌, ◌==◌, ◌∷◌, ◌≡◌, append-nil, codes, text_eq, if◌then◌else◌, subst, ◌||◌,
}
use panops.Engine.Paths.{
  Component, body, component, component_eq, cur_dir, ends_with_slash, front, is_absolute, is_prefix,
  join, normal, parent_dir, pieces, prepend, root_dir, starts_with,
}

-- There is always a first piece.
pieces-cons : (s : Text) → (p : Text) × (ps : List Text) × (pieces s ≡ p ∷ ps)
unfolding pieces
pieces-cons [] = ([], [], refl)
pieces-cons (c ∷ s) = elim (Bool-cases (c == b'/')) [
  | inl slash ↦ ([], pieces s, rw slash refl)
  | inr other ↦ let (p, ps, e) = pieces-cons s in (c ∷ p, ps, rw (other) (rw e refl))
]

prepend-append :
    (c : ℕ) (s : Text) (ps : List Text) → prepend c (pieces s ++ ps) ≡ prepend c (pieces s) ++ ps
prepend-append c s ps = let (q, qs, e) = pieces-cons s in rw e refl

pieces-append : (s t : Text) → pieces (s ++ b'/' ∷ t) ≡ pieces s ++ pieces t
unfolding pieces
pieces-append [] t = refl
pieces-append (c ∷ s) t = elim (Bool-cases (c == b'/')) [
  | inl slash ↦ rw slash (ap (◌∷◌ []) (pieces-append s t))
  | inr other ↦ rw other (rw (pieces-append s t) (prepend-append c s (pieces t)))
]

body-append : (ps qs : List Text) → body (ps ++ qs) ≡ body ps ++ body qs
unfolding body
body-append [] qs = refl
body-append (p ∷ ps) qs =
    rw (body-append ps qs) (sym (append_assoc (component p) (body ps) (body qs)))

component_eq_refl : (c : Component) → component_eq c c ≡ true
component_eq_refl root_dir = refl
component_eq_refl cur_dir = refl
component_eq_refl parent_dir = refl
component_eq_refl (normal s) = text_eq_refl s

is_prefix-append :
    (cs ds es : List Component) → is_prefix ds es ≡ true → is_prefix (cs ++ ds) (cs ++ es) ≡ true
unfolding is_prefix
is_prefix-append [] ds es h = h
is_prefix-append (c ∷ cs) ds es h = rw (component_eq_refl c) (is_prefix-append cs ds es h)

is_prefix_self : (cs ds : List Component) → is_prefix cs (cs ++ ds) ≡ true
unfolding is_prefix
is_prefix_self [] ds = refl
is_prefix_self (c ∷ cs) ds = rw (component_eq_refl c) (is_prefix_self cs ds)

front-nil : (q : Text) (qs : List Text) → is_prefix (front ([] ∷ [])) (front ([] ∷ q ∷ qs)) ≡ true
unfolding front is_prefix component text_eq
front-nil q qs = refl

front-prefix :
    (p : Text) (ps : List Text) (q : Text) (qs : List Text)
    → is_prefix (body ps) (body (q ∷ qs)) ≡ true
    → is_prefix (front (p ∷ ps)) (front (p ∷ q ∷ qs)) ≡ true
unfolding front is_prefix text_eq
front-prefix [] [] q qs h = front-nil q qs
front-prefix [] (r ∷ ps) q qs h = h
front-prefix (c ∷ p) [] q qs h =
    let named = component (c ∷ p) in
    let rest = body (q ∷ qs) in
    elim (text_eq (c ∷ p) (codes "."))
      as (λ b.
        is_prefix (if b then cur_dir ∷ [] else named) (if b then cur_dir ∷ rest else named ++ rest)
        ≡ true) [ true ↦ refl | false ↦ is_prefix_self named rest ]
front-prefix (c ∷ p) (r ∷ ps) q qs h =
    let named = component (c ∷ p) in
    let few = body (r ∷ ps) in
    let rest = body (q ∷ qs) in
    elim (text_eq (c ∷ p) (codes "."))
      as (λ b.
        is_prefix (if b then cur_dir ∷ few else named ++ few)
          (if b then cur_dir ∷ rest else named ++ rest)
        ≡ true) [ true ↦ h | false ↦ is_prefix-append named few rest h ]

is_prefix-nil : (ps : List Text) → is_prefix [] (body ps) ≡ true
unfolding is_prefix
is_prefix-nil ps = refl

-- Two paths with the same pieces at the front.
front-append :
    (s : Text) (ps : List Text) (q : Text) (qs : List Text)
    → is_prefix (body ps) (body (q ∷ qs)) ≡ true
    → is_prefix (front (pieces s ++ ps)) (front (pieces s ++ q ∷ qs)) ≡ true
front-append s ps q qs h = let (p, rest, e) = pieces-cons s in rw e (after p rest)
  where
    after :
        (p : Text) (rest : List Text)
        → is_prefix (front (p ∷ rest ++ ps)) (front (p ∷ rest ++ q ∷ qs)) ≡ true
    after p [] = front-prefix p ps q qs h
    after p (r ∷ rest) = front-prefix p ((r ∷ rest) ++ ps) r (rest ++ q ∷ qs) (
        rw (body-append (r ∷ rest) ps) (
          rw (body-append (r ∷ rest) (q ∷ qs))
            (is_prefix-append (body (r ∷ rest)) (body ps) (body (q ∷ qs)) h)))

starts_with-slash : (base path : Text) → starts_with (base ++ b'/' ∷ path) base ≡ true
unfolding starts_with
starts_with-slash base path =
    let (q, qs, e) = pieces-cons path in
    rw (pieces-append base path) (
      rw e (
        subst (λ ps. is_prefix (front ps) (front (pieces base ++ q ∷ qs)) ≡ true)
          (append-nil (pieces base)) (front-append base [] q qs (is_prefix-nil (q ∷ qs)))))

starts_with-after_slash :
    (base path : Text) → starts_with ((base ++ b'/' ∷ []) ++ path) (base ++ b'/' ∷ []) ≡ true
unfolding starts_with text_eq
starts_with-after_slash base path =
    let (q, qs, e) = pieces-cons path in
    rw (append_assoc base (b'/' ∷ []) path) (
      rw (pieces-append base path) (
        rw (pieces-append base [])
          (rw e (front-append base ([] ∷ []) q qs (is_prefix-nil (q ∷ qs))))))

starts_with-nil : (path : Text) → starts_with path [] ≡ true
unfolding starts_with pieces front component text_eq
starts_with-nil path = refl

-- A path that ends with a slash has it last.
ends_with_slash-split : (s : Text) → ends_with_slash s ≡ true → (t : Text) × (s ≡ t ++ b'/' ∷ [])
unfolding ends_with_slash
ends_with_slash-split [] h = cc
ends_with_slash-split (c ∷ []) h = ([], ground arith)
ends_with_slash-split (c ∷ d ∷ s) h =
    let (t, e) = ends_with_slash-split (d ∷ s) h in (c ∷ t, ap (◌∷◌ c) e)

-- A relative path that is joined to a base stays under the base.
pub starts_with-join :
    (base path : Text) → is_absolute path ≡ false → starts_with (join base path) base ≡ true
unfolding join text_eq
starts_with-join base path rel = rw rel (onto base)
  where
    -- The base ends with a slash.
    onto_slash : (base t : Text) → base ≡ t ++ b'/' ∷ [] → starts_with (base ++ path) base ≡ true
    onto_slash base t e = rw e (starts_with-after_slash t path)

    onto :
        (base : Text)
        → starts_with
            (if text_eq base [] || ends_with_slash base then base ++ path else base ++ b'/' ∷ path)
            base
          ≡ true
    onto [] = starts_with-nil (if text_eq [] [] || false then path else b'/' ∷ path)
    onto (c ∷ base) = elim (Bool-cases (ends_with_slash (c ∷ base))) [
      | inl slash ↦
          let (t, e) = ends_with_slash-split (c ∷ base) slash in
          rw slash (onto_slash (c ∷ base) t e)
      | inr other ↦ rw other (starts_with-slash (c ∷ base) path)
    ]
