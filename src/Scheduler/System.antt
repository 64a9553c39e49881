-- ===== src/Scheduler/System.antt =====
-- The scheduler with its workers: every interleaving of submissions, workers and shutdown, as a step
-- relation. A step is one critical section of the lock.
use cachew.Base.{ℕ, ◌<◌, ◌≡◌, List, [], ◌∷◌, ◌++◌, length}
use cachew.Base.Int.{ℤ}
use cachew.Scheduler.{
  Job, Scheduler, runs, submit, try_submit, drain, stop, worker_turn, mark_queue_inactive, new,
  effective_concurrency,
}

-- `running` has the jobs that workers are in; there are `workers` of them at most.
pub record System : Type 0 where
  pub scheduler : Scheduler
  pub running : List Job
  pub workers : ℕ

pub data Step : System → System → Type 0 where
  submits : (y : System) (job : Job) → Step y (record y { scheduler = submit y.scheduler job })
  tries :
      (y : System) (job : Job) (max_queued : ℤ)
      → Step y (record y { scheduler = (try_submit y.scheduler job max_queued).0 })
  drains : (y : System) → Step y (record y { scheduler = drain y.scheduler })
  stops : (y : System) → Step y (record y { scheduler = stop y.scheduler })
  takes :
      (y : System) (s : Scheduler) (job : Job)
      → length y.running < y.workers
      → worker_turn y.scheduler ≡ (s, runs job)
      → Step y (record y { scheduler = s; running = y.running ++ job ∷ [] })
  finishes :
      (y : System) (front : List Job) (job : Job) (back : List Job)
      → y.running ≡ front ++ job ∷ back
      → Step y (record y {
        scheduler = mark_queue_inactive y.scheduler job.queue;
        running = front ++ back;
      })

pub data Reach (y : System) : System → Type 0 where
  here : Reach y y
  next : {z w : System} → Reach y z → Step z w → Reach y w

-- The system that New starts.
abbrev pub initial : ℕ → ℕ → ℕ → System
initial concurrency max_clones cpus = record {
  scheduler = new concurrency max_clones cpus;
  running = [];
  workers = effective_concurrency concurrency cpus;
}
