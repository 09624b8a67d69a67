-- ===== src/Engine/Jobs/Settling.antt =====
-- The notes jobs stay within their bound, and every one of them ends with one event.
use panops.Base.{
  Bool-cases, List, Text, [], ap, arith, inl, inr, none, refl, suc, zero, ℕ, ◌++◌, ◌+◌, ◌∙◌, ◌∷◌,
  ◌≡◌, ◌≤◌, ◌⊎◌,
}
use panops.Engine.Jobs.{
  Inside, Job, Phase, Pool, Reachable, acquire, from_inside, leaving, max_concurrent_notes_jobs,
  over, refuse, release, report, running, unwind, unwound, waiting,
}
use panops.Engine.Jobs.Counting.{
  Inside-work, IsSound, Reachable-IsSound, accepted_as, ended_as, in_progress, permits, reported,
  reported_as, steps_left, sum_of, when, work,
}

-- A job that counts for something, if the sum does.
find :
    (f : Phase → ℕ) (js : List Job)
    → (sum_of (λ j. f j.1) js ≡ 0)
      ⊎ ((xs ys : List Job) × (id : Text) × (ph : Phase) × (js ≡ xs ++ (id, ph) ∷ ys) × (1 ≤ f ph))
find f [] = inl refl
find f ((id, ph) ∷ js) = elim (find f js) [
  | inr (xs, ys, id', ph', e, h) ↦ inr ((id, ph) ∷ xs, ys, id', ph', ap (◌∷◌ (id, ph)) e, h)
  | inl none_left ↦ elim (zero_or (f ph)) [
    | inl z ↦ inl (omega arith)
    | inr pos ↦ inr ([], js, id, ph, refl, pos)
  ]
]
  where
    zero_or : (n : ℕ) → (n ≡ 0) ⊎ (1 ≤ n)
    zero_or zero = inl refl
    zero_or (suc n) = inr (omega arith)

all_reported : (id : Text) (js : List Job) → work js ≡ 0 → reported_as id js ≡ accepted_as id js
all_reported id [] h = refl
all_reported id ((i, ph) ∷ js) h =
    let rest = all_reported id js (omega arith) in
    let last : when id i (reported ph) ≡ when id i 1 = is_over ph (omega arith) in
    omega (arith, rest, last)
  where
    is_over : (ph : Phase) → steps_left ph ≡ 0 → when id i (reported ph) ≡ when id i 1
    is_over waiting h = absurd (omega arith)
    is_over running h = absurd (omega arith)
    is_over leaving h = absurd (omega arith)
    is_over (unwound msg) h = absurd (omega arith)
    is_over over h = refl

reported-le : (id : Text) (js : List Job) → reported_as id js ≤ accepted_as id js
reported-le id [] = omega arith
reported-le id ((i, ph) ∷ js) = omega (arith, reported-le id js, one ph)
  where
    one : (ph : Phase) → when id i (reported ph) ≤ when id i 1
    one waiting = ground arith
    one running = ground arith
    one leaving = ground arith
    one (unwound msg) = ground arith
    one over = ground arith

module _ (R : Type 0) where
  abbrev Moves : Pool R → Type 0
  Moves p = (q : Pool R) × Inside R p q

  -- A job with a permit can always go on.
  holder-Moves : (p : Pool R) → 1 ≤ in_progress p.jobs → Moves p
  holder-Moves p busy = elim (find permits p.jobs) [
    | inl nobody ↦ absurd (omega arith)
    | inr (xs, ys, id, ph, e, h) ↦ go xs ys id ph e h
  ]
    where
      go :
          (xs ys : List Job) (id : Text) (ph : Phase)
          → p.jobs ≡ xs ++ (id, ph) ∷ ys
          → 1 ≤ permits ph
          → Moves p
      go xs ys id running e h = (_, unwind p xs ys id none e)
      go xs ys id leaving e h = (_, release p xs ys id e)
      go xs ys id waiting e h = absurd (omega arith)
      go xs ys id (unwound msg) e h = absurd (omega arith)
      go xs ys id over e h = absurd (omega arith)

  waiting-Moves :
      (p : Pool R) (xs ys : List Job) (id : Text)
      → IsSound R p
      → p.jobs ≡ xs ++ (id, waiting) ∷ ys
      → Moves p
  waiting-Moves p xs ys id s e = elim (Bool-cases p.closed) [
    | inl is_closed ↦ (_, refuse p xs ys id e is_closed)
    | inr is_open ↦ elim (zero_or_suc p.free) [
      | inr (n, free) ↦ (_, acquire p xs ys id n e is_open free)
      | inl none_free ↦ holder-Moves p (omega (arith, s.bounded))
    ]
  ]
    where
      zero_or_suc : (n : ℕ) → (n ≡ 0) ⊎ ((m : ℕ) × (n ≡ suc m))
      zero_or_suc zero = inl refl
      zero_or_suc (suc m) = inr (m, refl)

  moves : (p : Pool R) → IsSound R p → (work p.jobs ≡ 0) ⊎ Moves p
  moves p s = elim (find steps_left p.jobs) [
    | inl settled ↦ inl settled
    | inr (xs, ys, id, ph, e, h) ↦ inr (go xs ys id ph e h)
  ]
    where
      go :
          (xs ys : List Job) (id : Text) (ph : Phase)
          → p.jobs ≡ xs ++ (id, ph) ∷ ys
          → 1 ≤ steps_left ph
          → Moves p
      go xs ys id waiting e h = waiting-Moves p xs ys id s e
      go xs ys id running e h = (_, unwind p xs ys id none e)
      go xs ys id leaving e h = (_, release p xs ys id e)
      go xs ys id (unwound msg) e h = (_, report p xs ys id msg e)
      go xs ys id over e h = absurd (omega arith)

  -- Steps of the tasks alone, with their number.
  pub data Run (p : Pool R) : ℕ → Pool R → Type 0 where
    still : Run p 0 p
    further : {n : ℕ} {q r : Pool R} → Run p n q → Inside R q r → Run p (suc n) r

  run_lem :
      {p q : Pool R} {n : ℕ}
      → Reachable R p
      → Run p n q
      → Reachable R q × (n + work q.jobs ≤ work p.jobs)
  run_lem reach still = (reach, omega arith)
  run_lem reach (further run st) =
      let (reach', less) = run_lem reach run in
      (from_inside reach' st, omega (arith, less, Inside-work R st))

  -- Each id has as many last events as it was accepted.
  abbrev pub IsSettled : Pool R → Type 0
  IsSettled p = (id : Text) → ended_as R id p.events ≡ accepted_as id p.jobs

  -- From any pool that can come about, whatever the tasks do and in whatever order: they make no
  -- more steps than three for each job, never more than two jobs hold a permit, no id has more last
  -- events than it was accepted, and where no task has a step left, every accepted job has had
  -- exactly one.
  pub jobs-settle :
      {p q : Pool R} {n : ℕ}
      → Reachable R p
      → Run p n q
      → (n ≤ work p.jobs)
        × (in_progress q.jobs ≤ max_concurrent_notes_jobs)
        × ((id : Text) → ended_as R id q.events ≤ accepted_as id q.jobs)
        × (IsSettled q ⊎ ((r : Pool R) × Inside R q r))
  jobs-settle {q} reach run =
      let (reach', less) = run_lem reach run in
      let s = Reachable-IsSound R reach' in
      (
        omega arith,
        omega (arith, s.bounded),
        λ id. rw (s.once id) (reported-le id q.jobs),
        (elim (moves q s) [
          | inr step ↦ inr step
          | inl idle ↦ inl (λ id. s.once id ∙ all_reported id q.jobs idle)
        ]),
      )
