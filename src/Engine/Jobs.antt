-- ===== src/Engine/Jobs.antt =====
-- The tasks of `enqueue_notes_job` in crates/panops-engine/src/server/handlers.rs and the semaphore
-- of server/mod.rs that bounds them, as steps of one system: any task may go on at any time.
pub mod Counting
pub mod Settling
use panops.Base.{
  Bool, List, Option, Result, Text, [], codes, err, false, none, ok, some, suc, true, ℕ, ◌++◌, ◌∷◌,
  ◌≡◌,
}
use panops.Protocol.{IpcError, internal}

abbrev pub max_concurrent_notes_jobs : ℕ
max_concurrent_notes_jobs = 2

-- What a job has done: it waits for a permit; it runs the pipeline with a permit; it has sent its
-- event and still holds the permit; it has lost the permit without an event, by a panic or by being
-- cancelled, and `join_err` is yet to be reported; or it is over.
pub data Phase : Type 0 where
  waiting running leaving over : Phase
  unwound : Text → Phase

abbrev pub Job : Type 0
Job = Text × Phase

-- The events that end a job; the result of the pipeline is left as it is.
pub data Terminal (R : Type 0) : Type 0 where
  job_done : Text → R → Terminal R
  job_error : Text → IpcError → Terminal R

module _ (R : Type 0) where
  pub record Pool : Type 0 where
    pub jobs : List Job
    pub free : ℕ
    pub closed : Bool
    pub events : List (Terminal R)

  abbrev pub new_pool : Pool
  new_pool = record { jobs = []; free = max_concurrent_notes_jobs; closed = false; events = [] }

  -- What the pipeline's task sends with its outcome.
  unfoldable pub outcome_event : Text → Result IpcError R → Terminal R
  outcome_event job_id (ok result) = job_done job_id result
  outcome_event job_id (err error) = job_error job_id error

  abbrev pub permit_lost : Text → Terminal R
  permit_lost job_id = job_error job_id (IpcError.internal (codes "notes.generate internal error"))

  -- The message of a join error.
  unfoldable pub join_message : Option Text → Text
  join_message none = codes "pipeline panicked"
  join_message (some e) = codes "pipeline cancelled: " ++ e

  -- A client's request, and the shutdown of the engine.
  pub data Outside : Pool → Pool → Type 0 where
    accept : (p : Pool) (job_id : Text) → Outside p (record p { jobs = (job_id, waiting) ∷ p.jobs })
    close : (p : Pool) → Outside p (record p { closed = true })

  -- What the tasks do.
  pub data Inside : Pool → Pool → Type 0 where
    acquire :
        (p : Pool) (xs ys : List Job) (job_id : Text) (n : ℕ)
        → p.jobs ≡ xs ++ (job_id, waiting) ∷ ys
        → p.closed ≡ false
        → p.free ≡ suc n
        → Inside p (record p { jobs = xs ++ (job_id, running) ∷ ys; free = n })
    refuse :
        (p : Pool) (xs ys : List Job) (job_id : Text)
        → p.jobs ≡ xs ++ (job_id, waiting) ∷ ys
        → p.closed ≡ true
        → Inside p
            (record p { jobs = xs ++ (job_id, over) ∷ ys; events = permit_lost job_id ∷ p.events })
    send :
        (p : Pool) (xs ys : List Job) (job_id : Text) (outcome : Result IpcError R)
        → p.jobs ≡ xs ++ (job_id, running) ∷ ys
        → Inside p (record p {
          jobs = xs ++ (job_id, leaving) ∷ ys;
          events = outcome_event job_id outcome ∷ p.events;
        })
    release :
        (p : Pool) (xs ys : List Job) (job_id : Text)
        → p.jobs ≡ xs ++ (job_id, leaving) ∷ ys
        → Inside p (record p { jobs = xs ++ (job_id, over) ∷ ys; free = suc p.free })
    unwind :
        (p : Pool) (xs ys : List Job) (job_id : Text) (join_err : Option Text)
        → p.jobs ≡ xs ++ (job_id, running) ∷ ys
        → Inside p (record p {
          jobs = xs ++ (job_id, unwound (join_message join_err)) ∷ ys;
          free = suc p.free;
        })
    report :
        (p : Pool) (xs ys : List Job) (job_id msg : Text)
        → p.jobs ≡ xs ++ (job_id, unwound msg) ∷ ys
        → Inside p (record p {
          jobs = xs ++ (job_id, over) ∷ ys;
          events = job_error job_id (IpcError.internal msg) ∷ p.events;
        })

  -- The pools that can come about.
  pub data Reachable : Pool → Type 0 where
    is_new : Reachable new_pool
    from_outside : {p q : Pool} → Reachable p → Outside p q → Reachable q
    from_inside : {p q : Pool} → Reachable p → Inside p q → Reachable q
