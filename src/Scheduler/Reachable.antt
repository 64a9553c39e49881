-- ===== src/Scheduler/Reachable.antt =====
-- The scheduler over every reachable state: exclusion, the spare worker, the drain and progress.
use cachew.Base.{
  ℕ, ◌≤◌, ◌≡◌, refl, ap, ◌∙◌, true, false, none, some, List, [], ◌∷◌, Text, length, length-append,
  arith,
}
use cachew.Base.Int.{pos}
use cachew.Base.Assoc.{lookup}
use cachew.Scheduler.{
  Job, Scheduler, submit, try_submit, drain, stop, eligible, take_next, take_first, worker_turn,
  runs, mark_queue_inactive, new,
}
use cachew.Scheduler.System.{
  System, Step, submits, tries, drains, stops, takes, finishes, Reach, here, next, initial,
}
use cachew.Scheduler.Running.{entries_of, count_clones}
use cachew.Scheduler.Safety.{IsSafe, Step-IsSafe, taken, start_draining}

Reach-IsSafe : {y z : System} → Reach y z → IsSafe y → IsSafe z
Reach-IsSafe here h = h
Reach-IsSafe (next r st) h = Step-IsSafe st (Reach-IsSafe r h)

initial-IsSafe : (concurrency max_clones cpus : ℕ) → IsSafe (initial concurrency max_clones cpus)
unfolding new
initial-IsSafe concurrency max_clones cpus = record {
  exclusive = tt;
  tracked = refl;
  counted = refl;
  limited = λ p. omega arith;
  staffed = omega arith;
}

-- Whatever the interleaving of submissions, workers, drain and shutdown: no two jobs of one queue run
-- at once, the scheduler tracks exactly the jobs that run, its count of clones is right and within
-- the limit, and no more jobs run than there are workers.
pub Reach-initial-IsSafe :
    (concurrency max_clones cpus : ℕ) {z : System}
    → Reach (initial concurrency max_clones cpus) z
    → IsSafe z
Reach-initial-IsSafe concurrency max_clones cpus r =
    Reach-IsSafe r (initial-IsSafe concurrency max_clones cpus)

-- A scheduler that drains takes no more jobs in.
Step-drained :
    {y z : System}
    → Step y z
    → y.scheduler.draining ≡ true
    → (z.scheduler.draining ≡ true) × (length z.scheduler.queue ≤ length y.scheduler.queue)
unfolding submit try_submit drain stop mark_queue_inactive
Step-drained (submits y job) h = (ground arith, ground arith)
Step-drained (tries y job m) h = (ground arith, ground arith)
Step-drained (drains y) h = (refl, omega arith)
Step-drained (stops y) h = (h, omega arith)
Step-drained (takes y s job room e) h =
    let t = taken y.scheduler s job e in
    (
      ap (λ (x : Scheduler). x.draining) t.started ∙ start_draining y.scheduler job _ ∙ h,
      omega (
        arith,
        ap (length {A = Job}) t.left,
        ap (length {A = Job}) t.found,
        length-append t.front (job ∷ t.back),
        length-append t.front t.back,
      ),
    )
Step-drained (finishes y front job back e) h = (h, omega arith)

-- After Drain no step, of whatever interleaving, adds a job to the queue.
pub drain_queue :
    (y : System) {z : System}
    → Reach (record y { scheduler = drain y.scheduler }) z
    → (z.scheduler.draining ≡ true) × (length z.scheduler.queue ≤ length y.scheduler.queue)
unfolding drain
drain_queue y here = (refl, omega arith)
drain_queue y (next r st) =
    let (d, l) = drain_queue y r in let (d', l') = Step-drained st d in (d', omega (arith, l, l'))

idle_eligible :
    (s : Scheduler) (job : Job) → s.active ≡ [] → s.active_clones ≡ pos 0 → eligible s job ≡ true
unfolding eligible
idle_eligible s job a c =
    let free : lookup job.queue s.active ≡ none = ap (lookup job.queue) a ∙ nothing in
    ground (arith, free)
  where
    nothing : lookup {V = Text} job.queue [] ≡ none
    nothing = refl

taken_head :
    (s : Scheduler) (job : Job) (rest : List Job)
    → s.queue ≡ job ∷ rest
    → eligible s job ≡ true
    → take_first (eligible s) s.queue ≡ some (job, rest)
unfolding take_first
taken_head s job rest e ok = rw e (ground arith)

-- With no job running and the scheduler not done, a worker takes the first job of the queue.
pub idle_progress :
    (y : System) (job : Job) (rest : List Job)
    → IsSafe y
    → y.running ≡ []
    → y.scheduler.done ≡ false
    → y.scheduler.queue ≡ job ∷ rest
    → (worker_turn y.scheduler).1 ≡ runs job
unfolding worker_turn take_next
idle_progress y job rest h idle open_ e =
    let none_active = h.tracked ∙ ap entries_of idle in
    let no_clones = h.counted ∙ ap (λ js. pos (count_clones js)) idle in
    ground (
      arith,
      taken_head y.scheduler job rest e (idle_eligible y.scheduler job none_active no_clones),
    )
