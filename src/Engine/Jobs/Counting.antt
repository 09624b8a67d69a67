-- ===== src/Engine/Jobs/Counting.antt =====
-- What the steps of the notes jobs keep: the permits, and one last event for each job.
use panops.Base.{
  List, Text, [], arith, if◌then◌else◌, text_eq, ℕ, ◌++◌, ◌+◌, ◌∷◌, ◌≡◌, err, ok, refl, suc, ◌≤◌,
}
use panops.Engine.Jobs.{
  Inside, Job, Outside, Phase, Pool, Reachable, Terminal, accept, acquire, close, from_inside,
  from_outside, is_new, job_done, job_error, leaving, max_concurrent_notes_jobs, over,
  outcome_event, refuse, release, report, running, send, unwind, unwound, waiting, join_message,
}

-- The permits that a job holds, the steps that it still has to make at most, and whether its event
-- was sent.
abbrev pub permits : Phase → ℕ
permits running = 1
permits leaving = 1
permits _ = 0

abbrev pub steps_left : Phase → ℕ
steps_left waiting = 3
steps_left running = 2
steps_left leaving = 1
steps_left (unwound msg) = 1
steps_left over = 0

abbrev pub reported : Phase → ℕ
reported leaving = 1
reported over = 1
reported _ = 0

abbrev pub sum_of : (Job → ℕ) → List Job → ℕ
sum_of f [] = 0
sum_of f (j ∷ js) = f j + sum_of f js

sum_of-append : (f : Job → ℕ) (xs ys : List Job) → sum_of f (xs ++ ys) ≡ sum_of f xs + sum_of f ys
sum_of-append f [] ys = omega arith
sum_of-append f (x ∷ xs) ys = omega (arith, sum_of-append f xs ys)

abbrev pub in_progress : List Job → ℕ
in_progress = sum_of (λ j. permits j.1)

abbrev pub work : List Job → ℕ
work = sum_of (λ j. steps_left j.1)

-- Only under one id.
abbrev pub when : Text → Text → ℕ → ℕ
when id id' n = if text_eq id' id then n else 0

-- How often an id was accepted, and how many of its jobs have sent their event.
abbrev pub accepted_as : Text → List Job → ℕ
accepted_as id = sum_of (λ j. when id j.0 1)

abbrev pub reported_as : Text → List Job → ℕ
reported_as id = sum_of (λ j. when id j.0 (reported j.1))

module _ (R : Type 0) where
  abbrev pub id_of : Terminal R → Text
  id_of (job_done id r) = id
  id_of (job_error id e) = id

  abbrev pub ended_as : Text → List (Terminal R) → ℕ
  ended_as id [] = 0
  ended_as id (e ∷ es) = when id (id_of e) 1 + ended_as id es

  pub record IsSound (p : Pool R) : Type 0 where
    pub bounded : in_progress p.jobs + p.free ≡ max_concurrent_notes_jobs
    pub once : (id : Text) → ended_as id p.events ≡ reported_as id p.jobs

  -- One job among others goes to another phase.
  moved :
      (f : Job → ℕ) (js xs ys : List Job) (j k : Job)
      → js ≡ xs ++ j ∷ ys
      → sum_of f (xs ++ k ∷ ys) + f j ≡ sum_of f js + f k
  moved f js xs ys j k e =
      rw e (omega (arith, sum_of-append f xs (k ∷ ys), sum_of-append f xs (j ∷ ys)))

  Outside-IsSound : {p q : Pool R} → Outside R p q → IsSound p → IsSound q
  Outside-IsSound (accept p id) s = record {
    bounded = omega (arith, s.bounded);
    once = λ i. let before = s.once i in ground (arith, before);
  }
  Outside-IsSound (close p) s = record { bounded = s.bounded; once = s.once }

  permits_moved :
      (p : Pool R) (xs ys : List Job) (j k : Job)
      → p.jobs ≡ xs ++ j ∷ ys
      → in_progress (xs ++ k ∷ ys) + permits j.1 ≡ in_progress p.jobs + permits k.1
  permits_moved p xs ys j k e = moved (λ i. permits i.1) p.jobs xs ys j k e

  reported_moved :
      (p : Pool R) (xs ys : List Job) (id i : Text) (a b : Phase)
      → p.jobs ≡ xs ++ (id, a) ∷ ys
      → reported_as i (xs ++ (id, b) ∷ ys) + when i id (reported a)
        ≡ reported_as i p.jobs + when i id (reported b)
  reported_moved p xs ys id i a b e =
      moved (λ j. when i j.0 (reported j.1)) p.jobs xs ys (id, a) (id, b) e

  Inside-IsSound : {p q : Pool R} → Inside R p q → IsSound p → IsSound q
  unfolding outcome_event
  Inside-IsSound (acquire p xs ys id n e is_open free) s = record {
    bounded = omega (arith, s.bounded, permits_moved p xs ys (id, waiting) (id, running) e);
    once = λ i.
        let before = s.once i in
        let now = reported_moved p xs ys id i waiting running e in ground (arith, before, now);
  }
  Inside-IsSound (refuse p xs ys id e is_closed) s = record {
    bounded = omega (arith, s.bounded, permits_moved p xs ys (id, waiting) (id, over) e);
    once = λ i.
        let before = s.once i in
        let now = reported_moved p xs ys id i waiting over e in ground (arith, before, now);
  }
  Inside-IsSound (send p xs ys id (ok r) e) s = record {
    bounded = omega (arith, s.bounded, permits_moved p xs ys (id, running) (id, leaving) e);
    once = λ i.
        let before = s.once i in
        let now = reported_moved p xs ys id i running leaving e in ground (arith, before, now);
  }
  Inside-IsSound (send p xs ys id (err m) e) s = record {
    bounded = omega (arith, s.bounded, permits_moved p xs ys (id, running) (id, leaving) e);
    once = λ i.
        let before = s.once i in
        let now = reported_moved p xs ys id i running leaving e in ground (arith, before, now);
  }
  Inside-IsSound (release p xs ys id e) s = record {
    bounded = omega (arith, s.bounded, permits_moved p xs ys (id, leaving) (id, over) e);
    once = λ i.
        let before = s.once i in
        let now = reported_moved p xs ys id i leaving over e in ground (arith, before, now);
  }
  Inside-IsSound (unwind p xs ys id j e) s =
      let m = join_message R j in
      record {
        bounded = omega (arith, s.bounded, permits_moved p xs ys (id, running) (id, unwound m) e);
        once = λ i.
            let before = s.once i in
            let now = reported_moved p xs ys id i running (unwound m) e in
            ground (arith, before, now);
      }
  Inside-IsSound (report p xs ys id m e) s = record {
    bounded = omega (arith, s.bounded, permits_moved p xs ys (id, unwound m) (id, over) e);
    once = λ i.
        let before = s.once i in
        let now = reported_moved p xs ys id i (unwound m) over e in ground (arith, before, now);
  }

  pub Reachable-IsSound : {p : Pool R} → Reachable R p → IsSound p
  Reachable-IsSound is_new = record { bounded = refl; once = λ i. refl }
  Reachable-IsSound (from_outside r st) = Outside-IsSound st (Reachable-IsSound r)
  Reachable-IsSound (from_inside r st) = Inside-IsSound st (Reachable-IsSound r)

  -- Every step of a task leaves less to do.
  work_moved :
      (p : Pool R) (xs ys : List Job) (j k : Job)
      → p.jobs ≡ xs ++ j ∷ ys
      → work (xs ++ k ∷ ys) + steps_left j.1 ≡ work p.jobs + steps_left k.1
  work_moved p xs ys j k e = moved (λ i. steps_left i.1) p.jobs xs ys j k e

  pub Inside-work : {p q : Pool R} → Inside R p q → suc (work q.jobs) ≤ work p.jobs
  Inside-work (acquire p xs ys id n e o f) =
      omega (arith, work_moved p xs ys (id, waiting) (id, running) e)
  Inside-work (refuse p xs ys id e c) = omega (arith, work_moved p xs ys (id, waiting) (id, over) e)
  Inside-work (send p xs ys id o e) =
      omega (arith, work_moved p xs ys (id, running) (id, leaving) e)
  Inside-work (release p xs ys id e) = omega (arith, work_moved p xs ys (id, leaving) (id, over) e)
  Inside-work (unwind p xs ys id j e) =
      omega (arith, work_moved p xs ys (id, running) (id, unwound (join_message R j)) e)
  Inside-work (report p xs ys id m e) =
      omega (arith, work_moved p xs ys (id, unwound m) (id, over) e)
