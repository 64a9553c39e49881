-- ===== src/Scheduler.antt =====
-- The job scheduler, internal/jobscheduler/jobs.go: RootScheduler and the handles with a prefix. The
-- body of a job is not modelled: its error or panic reaches the logs and the metrics only.
pub mod System
pub mod Queue
pub mod Running
pub mod Safety
pub mod Reachable
mod Tests
use cachew.Base.{
  ℕ, ◌+◌, ◌-◌, ◌/◌, ◌<◌, max, Bool, true, false, ◌&&◌, ◌||◌, not, Option, none, some, List, [], ◌∷◌,
  ◌++◌, Text, codes, length, has_suffix, ltb, leb, ◌==◌, if◌then◌else◌, is_some,
}
use cachew.Base.Int.{ℤ, pos, ◌+ℤ◌, ◌-ℤ◌, leb_ℤ}
use cachew.Base.Assoc.{Assoc, lookup, insert, remove}

-- queueJob
pub record Job : Type 0 where
  pub id : Text
  pub queue : Text

-- jobKey
unfoldable pub job_key : Text → Text → Text
job_key queue id = id ++ b':' ∷ queue

-- RootScheduler, as the lock protects it. `active` maps a queue to the id of its running job.
pub record Scheduler : Type 0 where
  pub done : Bool
  pub draining : Bool
  pub queue : List Job
  pub active : Assoc Text
  pub active_clones : ℤ
  pub max_clones : ℕ

-- The default of New for MaxCloneConcurrency; `cpus` is runtime.NumCPU().
unfoldable pub effective_concurrency : ℕ → ℕ → ℕ
effective_concurrency concurrency cpus = if concurrency == 0 then cpus else concurrency

unfoldable pub effective_max_clones : ℕ → ℕ → ℕ
effective_max_clones max_clones concurrency =
    if max_clones == 0 && ltb 1 concurrency then max 1 (concurrency / 2) else max_clones

-- New
unfoldable pub new : ℕ → ℕ → ℕ → Scheduler
unfolding effective_concurrency effective_max_clones
new concurrency max_clones cpus = record {
  done = false;
  draining = false;
  queue = [];
  active = [];
  active_clones = pos 0;
  max_clones = effective_max_clones max_clones (effective_concurrency concurrency cpus);
}

-- isCloneJob
unfoldable pub is_clone_job : Text → Bool
unfolding has_suffix
is_clone_job id = has_suffix id (codes "clone") || has_suffix id (codes "deferred-mirror-restore")

pub data JobType : Type 0 where
  clone fetch snapshot repack other : JobType

-- jobType
unfoldable pub job_type : Text → JobType
unfolding has_suffix
job_type id =
    if has_suffix id (codes "clone")
    then clone
    else if has_suffix id (codes "deferred-mirror-restore")
    then clone
    else if has_suffix id (codes "fetch")
    then fetch
    else if has_suffix id (codes "snapshot-periodic")
        || has_suffix id (codes "mirror-snapshot-periodic")
    then snapshot
    else if has_suffix id (codes "repack-periodic")
    then repack
    else other

-- Submit
unfoldable pub submit : Scheduler → Job → Scheduler
submit s job = if s.done || s.draining then s else record s { queue = s.queue ++ job ∷ [] }

-- TrySubmit
unfoldable pub try_submit : Scheduler → Job → ℤ → Scheduler × Bool
try_submit s job max_queued =
    if s.done
      || (s.draining || (leb_ℤ max_queued (pos 0) || leb_ℤ max_queued (pos (length s.queue))))
    then (s, false)
    else (record s { queue = s.queue ++ job ∷ [] }, true)

-- Drain
unfoldable pub drain : Scheduler → Scheduler
drain s = record s { draining = true }

-- What the goroutine of New does when the context ends.
unfoldable pub stop : Scheduler → Scheduler
stop s = record s { done = true }

-- Whether the loop of takeNextJobLocked takes a job.
unfoldable pub eligible : Scheduler → Job → Bool
unfolding is_clone_job lookup
eligible s job =
    not (is_some (lookup job.queue s.active))
    && not (ltb 0 s.max_clones && (is_clone_job job.id && leb_ℤ (pos s.max_clones) s.active_clones))

-- The first job that passes, and the others in their order.
unfoldable pub take_first : (Job → Bool) → List Job → Option (Job × List Job)
take_first p [] = none
take_first p (j ∷ js) =
    let rest = take_first p js in
    if p j
    then some (j, js)
    else elim rest [ none ↦ none | some (taken, left) ↦ some (taken, j ∷ left) ]

unfoldable pub count_clone : Text → ℤ
count_clone id = if is_clone_job id then pos 1 else pos 0

-- The state after a job is taken.
unfoldable pub start_job : Scheduler → Job → List Job → Scheduler
unfolding insert count_clone
start_job s job left = record s {
  queue = left;
  active = insert job.queue job.id s.active;
  active_clones = s.active_clones +ℤ count_clone job.id;
}

-- takeNextJobLocked
unfoldable pub take_next : Scheduler → Scheduler × Option Job
unfolding eligible take_first start_job
take_next s = elim (take_first (eligible s) s.queue) [
  | none ↦ (s, none)
  | some (job, left) ↦ (start_job s job left, some job)
]

-- One round of the loop of waitForJob: the worker ends, runs a job, or waits on the condition.
pub data Turn : Type 0 where
  ends waits : Turn
  runs : Job → Turn

turn_of : Option Job → Turn
turn_of none = waits
turn_of (some job) = runs job

unfoldable pub worker_turn : Scheduler → Scheduler × Turn
unfolding turn_of
worker_turn s = if s.done then (s, ends) else (let (s', job) = take_next s in (s', turn_of job))

active_id : Option Text → Text
active_id none = []
active_id (some id) = id

-- markQueueInactive
unfoldable pub mark_queue_inactive : Scheduler → Text → Scheduler
unfolding active_id count_clone lookup remove
mark_queue_inactive s queue = record s {
  active = remove queue s.active;
  active_clones = s.active_clones -ℤ count_clone (active_id (lookup queue s.active));
}

-- prefixedScheduler, over the root
pub record Prefixed : Type 0 where
  pub prefix : Text

-- RootScheduler.WithQueuePrefix and prefixedScheduler.WithQueuePrefix
unfoldable pub with_queue_prefix : Text → Prefixed
with_queue_prefix prefix = record { prefix = prefix ++ b'-' ∷ [] }

unfoldable pub nested_prefix : Prefixed → Text → Prefixed
nested_prefix p prefix = record { prefix = p.prefix ++ b'-' ∷ prefix }

-- prefixedScheduler.Submit and TrySubmit
unfoldable pub prefixed_job : Prefixed → Job → Job
prefixed_job p job = record { id = p.prefix ++ job.id; queue = job.queue }

unfoldable pub prefixed_submit : Prefixed → Scheduler → Job → Scheduler
unfolding prefixed_job submit
prefixed_submit p s job = submit s (prefixed_job p job)

unfoldable pub prefixed_try_submit : Prefixed → Scheduler → Job → ℤ → Scheduler × Bool
unfolding prefixed_job try_submit
prefixed_try_submit p s job max_queued = try_submit s (prefixed_job p job) max_queued

-- What the schedule store answers: there is none, it fails or has no record, or the last run.
pub data LastRun : Type 0 where
  no_store unknown : LastRun
  at : ℕ → LastRun

-- periodicDelay, at the time `now`
unfoldable pub periodic_delay : LastRun → ℕ → ℕ → ℕ
periodic_delay (at last) interval now = last + interval - now
periodic_delay _ interval now = 0

-- SubmitPeriodicJob: refused, submitted at once, or submitted after a delay if no drain and no end of
-- the context comes first.
pub data Periodic : Type 0 where
  refused submitted_now : Periodic
  submitted_after : ℕ → Periodic

unfoldable pub submit_periodic_job : Scheduler → Bool → LastRun → ℕ → ℕ → Job → Scheduler × Periodic
unfolding periodic_delay submit
submit_periodic_job s ended last interval now job =
    let delay = periodic_delay last interval now in
    if ended || s.draining
    then (s, refused)
    else if delay == 0
    then (submit s job, submitted_now)
    else (s, submitted_after delay)
