-- ===== src/Notes/Anchoring/Nearest.antt =====
-- Which section `section_for_timestamp` chooses.
use panops.Base.{
  All, Bool-cases, List, [], false, inl, inr, length, none, some, ℕ, ◌++◌, ◌<◌, ◌∷◌, ◌≡◌, ◌≤◌,
  All-append, All-mono, Option, append-nil, append_assoc, arith, if◌then◌else◌, length-append, ltb,
  refl, suc, u64_mod, ◌-◌, ltb→lt, ◌⊎◌,
}
use panops.Notes.Topics.{RawSection}
use panops.Notes.Anchoring.{
  contains, find_containing, distance, nearest_loop, section_for_timestamp,
}

abbrev Excludes : ℕ → RawSection → Type 0
Excludes ms s = contains s ms ≡ false

-- Index `i` is the first at which the section holds the timestamp.
pub record IsFirstContaining (sections : List RawSection) (ms i : ℕ) : Type 0 where
  pub before : List RawSection
  pub section : RawSection
  pub after : List RawSection
  pub split : sections ≡ before ++ section ∷ after
  pub position : length before ≡ i
  pub holds : (section.start ≤ ms) × (ms < section.end)
  pub earlier : All (Excludes ms) before

abbrev Found : List RawSection → ℕ → Option ℕ → Type 0
Found sections ms none = All (Excludes ms) sections
Found sections ms (some i) = IsFirstContaining sections ms i

find_containing-Found :
    (i : ℕ) (done sections : List RawSection) (ms : ℕ)
    → length done ≡ i
    → All (Excludes ms) done
    → Found (done ++ sections) ms (find_containing i sections ms)
unfolding find_containing
find_containing-Found i done [] ms e h = rw (append-nil done) h
find_containing-Found i done (s ∷ sections) ms e h = elim (Bool-cases (contains s ms)) [
  | inl here ↦ rw here (record {
    before = done;
    section = s;
    after = sections;
    split = refl;
    position = e;
    holds = ground arith;
    earlier = h;
  })
  | inr later ↦ rw later (
      rw (append_assoc done (s ∷ []) sections) at (
        find_containing-Found (suc i) (done ++ s ∷ []) sections ms
          (omega (arith, length-append done (s ∷ []))) (All-append _ done (s ∷ []) h (later, tt))))
]

-- Index `i` is the first at which the midpoint is as near to the timestamp as any, at distance `d`.
pub record IsNearest (sections : List RawSection) (ms i d : ℕ) : Type 0 where
  pub before : List RawSection
  pub section : RawSection
  pub after : List RawSection
  pub split : sections ≡ before ++ section ∷ after
  pub position : length before ≡ i
  pub at_distance : distance section ms ≡ d
  pub farther_before : All (λ u. d < distance u ms) before
  pub no_nearer_after : All (λ u. d ≤ distance u ms) after

distance-lt : (ms : ℕ) (s : RawSection) → ms < u64_mod → distance s ms < u64_mod
unfolding distance
distance-lt ms s h = ground arith

-- What the second loop knows after the sections `done`.
abbrev Near : ℕ → List RawSection → ℕ × ℕ → Type 0
Near ms [] (best, best_dist) = (best ≡ 0) × (best_dist ≡ u64_mod - 1)
Near ms (s ∷ done) (best, best_dist) = IsNearest (s ∷ done) ms best best_dist

extend :
    {done : List RawSection} {ms i d : ℕ} (s : RawSection)
    → IsNearest done ms i d
    → d ≤ distance s ms
    → IsNearest (done ++ s ∷ []) ms i d
extend s n h = record {
  before = n.before;
  section = n.section;
  after = n.after ++ s ∷ [];
  split = rw n.split (append_assoc n.before (n.section ∷ n.after) (s ∷ []));
  position = n.position;
  at_distance = n.at_distance;
  farther_before = n.farther_before;
  no_nearer_after = All-append _ n.after (s ∷ []) n.no_nearer_after (h, tt);
}

replaces :
    {done : List RawSection} {ms i d j : ℕ} (s : RawSection)
    → IsNearest done ms i d
    → length done ≡ j
    → distance s ms < d
    → IsNearest (done ++ s ∷ []) ms j (distance s ms)
replaces {done} s n e h = record {
  before = done;
  section = s;
  after = [];
  split = refl;
  position = e;
  at_distance = refl;
  farther_before = rw n.split (
      All-append _ n.before (n.section ∷ n.after)
        (All-mono _ _ n.before (λ u p. omega arith) n.farther_before)
        (
          omega (arith, n.at_distance),
          All-mono _ _ n.after (λ u p. omega arith) n.no_nearer_after,
        ));
  no_nearer_after = tt;
}

only : (s : RawSection) (ms d : ℕ) → distance s ms ≡ d → IsNearest (s ∷ []) ms 0 d
only s ms d e = record {
  before = [];
  section = s;
  after = [];
  split = refl;
  position = refl;
  at_distance = e;
  farther_before = tt;
  no_nearer_after = tt;
}

abbrev nearer : ℕ → ℕ → RawSection → ℕ × ℕ → ℕ × ℕ
nearer ms i s (best, best_dist) =
    if ltb (distance s ms) best_dist then (i, distance s ms) else (best, best_dist)

nearer-Near :
    (ms i : ℕ) (done : List RawSection) (s : RawSection) (state : ℕ × ℕ)
    → ms < u64_mod
    → length done ≡ i
    → Near ms done state
    → Near ms (done ++ s ∷ []) (nearer ms i s state)
nearer-Near ms i [] s (best, best_dist) b e (p, q) =
    elim (Bool-cases (ltb (distance s ms) best_dist)) [
      | inl closer ↦ rw (closer, ← e) (only s ms _ refl)
      | inr not_closer ↦ rw (not_closer, p) (only s ms _ (ground (arith, distance-lt ms s b)))
    ]
nearer-Near ms i (d ∷ done) s (best, best_dist) b e n =
    elim (Bool-cases (ltb (distance s ms) best_dist)) [
      | inl closer ↦ rw closer (replaces s n e (ltb→lt _ _ closer))
      | inr not_closer ↦ rw not_closer (extend s n (ground arith))
    ]

nearest_loop-Near :
    (ms i : ℕ) (done sections : List RawSection) (state : ℕ × ℕ)
    → ms < u64_mod
    → length done ≡ i
    → Near ms done state
    → (d : ℕ) × Near ms (done ++ sections) (nearest_loop i sections ms state, d)
unfolding nearest_loop
nearest_loop-Near ms i done [] (best, best_dist) b e h = (best_dist, rw (append-nil done) h)
nearest_loop-Near ms i done (s ∷ sections) state b e h =
    rw (append_assoc done (s ∷ []) sections) at (
      nearest_loop-Near ms (suc i) (done ++ s ∷ []) sections (nearer ms i s state) b
        (omega (arith, length-append done (s ∷ []))) (nearer-Near ms i done s state b e h))

-- The section that holds the timestamp and is the first to, or where none holds it the first of
-- those with the nearest midpoint.
abbrev pub Anchors : List RawSection → ℕ → ℕ → Type 0
Anchors sections ms i =
    IsFirstContaining sections ms i
    ⊎ (All (λ s. contains s ms ≡ false) sections × ((d : ℕ) × IsNearest sections ms i d))

Anchors-of_Found :
    (s : RawSection) (sections : List RawSection) (ms : ℕ) (found : Option ℕ)
    → ms < u64_mod
    → Found (s ∷ sections) ms found
    → Anchors
        (s ∷ sections)
        ms
        (elim found [ some i ↦ i | none ↦ nearest_loop 0 (s ∷ sections) ms (0, u64_mod - 1) ])
Anchors-of_Found s sections ms none b h =
    inr (h, nearest_loop-Near ms 0 [] (s ∷ sections) (0, u64_mod - 1) b refl (refl, refl))
Anchors-of_Found s sections ms (some i) b h = inl h

-- For a timestamp of 64 bits and at least one section: the section that is chosen holds the
-- timestamp and is the first to, or no section holds it and the chosen one is the first of those
-- whose midpoint is nearest.
pub section_for_timestamp-Anchors :
    (s : RawSection) (sections : List RawSection) (ms : ℕ)
    → ms < u64_mod
    → Anchors (s ∷ sections) ms (section_for_timestamp (s ∷ sections) ms)
unfolding section_for_timestamp
section_for_timestamp-Anchors s sections ms b =
    Anchors-of_Found s sections ms _ b (find_containing-Found 0 [] (s ∷ sections) ms refl tt)

position-lt :
    (before after : List RawSection) (s : RawSection) (sections : List RawSection) (i : ℕ)
    → sections ≡ before ++ s ∷ after
    → length before ≡ i
    → i < length sections
position-lt before after s sections i e p =
    rw e (omega (arith, p, length-append before (s ∷ after)))

-- The chosen index is in range.
pub section_for_timestamp-lt :
    (s : RawSection) (sections : List RawSection) (ms : ℕ)
    → ms < u64_mod
    → section_for_timestamp (s ∷ sections) ms < length (s ∷ sections)
section_for_timestamp-lt s sections ms b = elim (section_for_timestamp-Anchors s sections ms b) [
  | inl c ↦ position-lt c.before c.after c.section (s ∷ sections) _ c.split c.position
  | inr (_, (d, n)) ↦ position-lt n.before n.after n.section (s ∷ sections) _ n.split n.position
]
