-- ===== src/Storage/Memory/Clearing.antt =====
-- Lemmas on the loops that clear assignments and drop projects.
use panops.Base.{
  All, All-mono, All-remove_keys, Bool-cases, Dict, Distinct, List, Text, [], any, arith,
  contains_key, false, inl, inr, lookup, lookup-remove_keys, refl, remove, remove_keys, some,
  some_inj, text_eq, text_eq_iff, text_eq_refl, true, ◌∙◌, ◌∷◌, ◌≡◌,
}
use panops.Storage.Memory.{Inner}
use panops.Storage.Memory.Organize.{clear_assignments, drop_projects, keys_with}

abbrev pub OneOf : Text → List Text → Type 0
OneOf k ks = any (text_eq k) ks ≡ true

abbrev pub Outside : Text → List Text → Type 0
Outside k ks = All (λ j. text_eq k j ≡ false) ks

pub not_both : (k : Text) (ks : List Text) → Outside k ks → ¬ OneOf k ks
not_both k [] h o = cc
not_both k (j ∷ ks) h o = not_both k ks h.1 (ground arith)

module _ (id : Text) where
  -- The list of keys may be longer than what is collected from the entries.
  covered_by :
      (ks : List Text) (m : Dict Text)
      → ((k : Text) → OneOf k (keys_with id m) → OneOf k ks)
      → All (λ e. text_eq e.1 id ≡ true → OneOf e.0 ks) m
  unfolding keys_with
  covered_by ks [] h = tt
  covered_by ks ((k, v) ∷ m) h = (
    λ same. h k (rw same (ground (arith, text_eq_refl k))),
    covered_by ks m (λ j o. h j (ground (arith, o))),
  )

  keys_with-cover :
      (m : Dict Text) → All (λ e. text_eq e.1 id ≡ true → OneOf e.0 (keys_with id m)) m
  keys_with-cover m = covered_by (keys_with id m) m (λ k o. o)

  -- No entry with the cleared value is left.
  pub All-clear_assignments :
      (P : Text × Text → Type 0) (m : Dict Text)
      → All P m
      → All (λ e. P e × (text_eq e.1 id ≡ false)) (clear_assignments id m)
  unfolding clear_assignments
  All-clear_assignments P m h =
      All-mono _ _ (remove_keys (keys_with id m) m) (λ e x. (x.0.0, differs e x.0.1 x.1))
        (All-remove_keys (keys_with id m)
          (λ e. P e × (text_eq e.1 id ≡ true → OneOf e.0 (keys_with id m))) m
          (both m (keys_with id m) h (keys_with-cover m)))
    where
      both :
          (xs : Dict Text) (ks : List Text)
          → All P xs
          → All (λ e. text_eq e.1 id ≡ true → OneOf e.0 ks) xs
          → All (λ e. P e × (text_eq e.1 id ≡ true → OneOf e.0 ks)) xs
      both [] ks h k = tt
      both (x ∷ xs) ks h k = ((h.0, k.0), both xs ks h.1 k.1)

      differs :
          (e : Text × Text)
          → (text_eq e.1 id ≡ true → OneOf e.0 (keys_with id m))
          → Outside e.0 (keys_with id m)
          → text_eq e.1 id ≡ false
      differs e f out = elim (Bool-cases (text_eq e.1 id)) [
        | inl same ↦ absurd (not_both e.0 (keys_with id m) out (f same))
        | inr other ↦ other
      ]

  keys_without :
      (k : Text) (m : Dict Text)
      → contains_key k m ≡ false
      → All (λ j. text_eq j k ≡ false) (keys_with id m)
  unfolding keys_with contains_key lookup
  keys_without k [] h = tt
  keys_without k ((j, v) ∷ m) h =
      let first : text_eq j k ≡ false = ground arith in
      let rest : contains_key k m ≡ false = ground arith in
      elim (Bool-cases (text_eq v id)) [
        | inl e ↦ rw e (first, keys_without k m rest)
        | inr e ↦ rw e (keys_without k m rest)
      ]

  keys_spare :
      (k w : Text) (m : Dict Text)
      → Distinct m
      → lookup k m ≡ some w
      → text_eq w id ≡ false
      → All (λ j. text_eq j k ≡ false) (keys_with id m)
  unfolding keys_with lookup
  keys_spare k w [] d e ne = tt
  keys_spare k w ((j, v) ∷ m) d e ne = elim (Bool-cases (text_eq j k)) [
    | inl same ↦
        let found : v ≡ w = some_inj (rw same at e) in
        let free : contains_key k m ≡ false = rw (← (text_eq_iff j k).0 same) d.0 in
        let other : text_eq v id ≡ false = cc (found, ne) in rw other (keys_without k m free)
    | inr other ↦ elim (Bool-cases (text_eq v id)) [
      | inl cleared ↦ rw cleared (other, keys_spare k w m d.1 (rw other at e) ne)
      | inr kept ↦ rw kept (keys_spare k w m d.1 (rw other at e) ne)
    ]
  ]

  -- An assignment to anything else stays.
  pub lookup-clear_assignments :
      (k w : Text) (m : Dict Text)
      → Distinct m
      → lookup k m ≡ some w
      → text_eq w id ≡ false
      → lookup k (clear_assignments id m) ≡ some w
  unfolding clear_assignments
  lookup-clear_assignments k w m d e ne =
      lookup-remove_keys (keys_with id m) k m (keys_spare k w m d e ne) ∙ e

-- The loop of `delete_space` on each of the two tables that it changes.
pub clear_all : List Text → Dict Text → Dict Text
clear_all [] m = m
clear_all (id ∷ ids) m = clear_all ids (clear_assignments id m)

pub drop_projects_lem :
    (ids : List Text) (s : Inner)
    → drop_projects ids s ≡ record s {
      projects = remove_keys ids s.projects;
      meeting_projects = clear_all ids s.meeting_projects;
    }
unfolding drop_projects remove_keys clear_all
drop_projects_lem [] s = refl
drop_projects_lem (id ∷ ids) s = drop_projects_lem ids (record s {
  projects = remove id s.projects;
  meeting_projects = clear_assignments id s.meeting_projects;
})

pub All-clear_all :
    (ids : List Text) (P : Text × Text → Type 0) (m : Dict Text)
    → All P m
    → All (λ e. P e × Outside e.1 ids) (clear_all ids m)
unfolding clear_all
All-clear_all [] P m h = All-mono _ _ m (λ e p. (p, tt)) h
All-clear_all (id ∷ ids) P m h =
    All-mono _ _ (clear_all ids (clear_assignments id m)) (λ e p. (p.0.0, (p.0.1, p.1)))
      (All-clear_all ids (λ e. P e × (text_eq e.1 id ≡ false)) (clear_assignments id m)
        (All-clear_assignments id P m h))
