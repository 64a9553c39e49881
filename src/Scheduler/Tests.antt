-- ===== src/Scheduler/Tests.antt =====
-- The scheduler on small inputs.
use cachew.Base.{
  ◌≤◌, ◌≡◌, ◌⊎◌, refl, true, false, [], ◌∷◌, ◌++◌, codes, length, All, arith, has_suffix,
}
use cachew.Base.Assoc.{lookup, insert}
use cachew.Scheduler.{
  Job, new, effective_concurrency, effective_max_clones, submit, drain, eligible, is_clone_job,
  count_clone, take_first, take_next, start_job, worker_turn, ends, waits, runs,
}
use cachew.Scheduler.System.{System, submits, takes, Reach, here, next, initial}
use cachew.Scheduler.Queue.{Takes, worker_turn_lem}
use cachew.Scheduler.Safety.{IsSafe}
use cachew.Scheduler.Reachable.{Reach-initial-IsSafe, drain_queue}

abbrev job_a : Job
job_a = record { id = codes "repo:clone"; queue = codes "q" }

abbrev job_b : Job
job_b = record { id = codes "repo:fetch"; queue = codes "q" }

abbrev start : System
start = initial 2 0 4

abbrev queued : System
queued = record start { scheduler = submit start.scheduler job_a }

abbrev busy : System
busy = record queued {
  scheduler = (worker_turn queued.scheduler).0;
  running = queued.running ++ job_a ∷ [];
}

queued-Reach : Reach start queued
queued-Reach = next here (submits start job_a)

busy-Reach : Reach start busy
unfolding new effective_concurrency effective_max_clones submit worker_turn take_next take_first
    eligible start_job count_clone is_clone_job lookup insert has_suffix
busy-Reach =
    next queued-Reach (takes queued (worker_turn queued.scheduler).0 job_a (omega arith) refl)

Reach-initial-IsSafe_example : IsSafe busy
Reach-initial-IsSafe_example = Reach-initial-IsSafe 2 0 4 busy-Reach

abbrev drained : System
drained = record busy { scheduler = drain busy.scheduler }

abbrev refused : System
refused = record drained { scheduler = submit drained.scheduler job_b }

refused-Reach : Reach drained refused
refused-Reach = next here (submits drained job_b)

drain_queue_example :
    (refused.scheduler.draining ≡ true)
    × (length refused.scheduler.queue ≤ length busy.scheduler.queue)
drain_queue_example = drain_queue busy refused-Reach

not_done : queued.scheduler.done ≡ false
unfolding new submit
not_done = refl

one_queued : queued.scheduler.queue ≡ job_a ∷ []
unfolding new submit
one_queued = refl

worker_turn_lem_example :
    ((queued.scheduler.done ≡ true) × (worker_turn queued.scheduler ≡ (queued.scheduler, ends)))
    ⊎ ((queued.scheduler.done ≡ false)
        × (((job : Job) × ((worker_turn queued.scheduler).1 ≡ runs job)
              × Takes queued.scheduler (worker_turn queued.scheduler).0 job)
            ⊎ ((worker_turn queued.scheduler ≡ (queued.scheduler, waits))
                × All (λ j. eligible queued.scheduler j ≡ false) queued.scheduler.queue)))
worker_turn_lem_example = worker_turn_lem queued.scheduler
