-- ===== src/Scheduler/Safety.antt =====
-- Mutual exclusion, the limit on clones and the drain, over every reachable state.
use cachew.Base.{
  ℕ, ◌+◌, ◌≤◌, ◌<◌, ◌≡◌, refl, ap, sym, ◌∙◌, subst, true, Option, none, List, [], ◌∷◌, ◌++◌, Text,
  length, length-append, if◌then◌else◌, inl, inr, arith,
}
use cachew.Base.Int.{pos, ◌+ℤ◌, ◌-ℤ◌, pos_part, neg_part, int_laws}
use cachew.Base.Assoc.{Assoc, IsMap, lookup, insert, remove}
use cachew.Scheduler.{
  Job, Scheduler, submit, try_submit, drain, stop, is_clone_job, eligible, count_clone, start_job,
  worker_turn, Turn, runs, active_id, mark_queue_inactive,
}
use cachew.Scheduler.Queue.{Takes, worker_turn_lem}
use cachew.Scheduler.System.{System, Step, submits, tries, drains, stops, takes, finishes}
use cachew.Scheduler.Running.{
  entries_of, count_clones, entries_of-append, insert-Fresh, IsMap-snoc, count_clones-append,
  IsMap-middle, lookup-middle, remove-middle,
}

-- Of the jobs that run, no two have one queue; `active` has exactly these, `active_clones` counts the
-- clones among them, which the limit bounds if there is one; and there is a worker for each.
pub record IsSafe (y : System) : Type 0 where
  pub exclusive : IsMap (entries_of y.running)
  pub tracked : y.scheduler.active ≡ entries_of y.running
  pub counted : y.scheduler.active_clones ≡ pos (count_clones y.running)
  pub limited : 0 < y.scheduler.max_clones → count_clones y.running ≤ y.scheduler.max_clones
  pub staffed : length y.running ≤ y.workers

pub start_job_fields :
    (s t : Scheduler) (job : Job) (left : List Job)
    → t ≡ start_job s job left
    → (t.active ≡ insert job.queue job.id s.active)
      × (t.active_clones ≡ s.active_clones +ℤ count_clone job.id)
      × (t.max_clones ≡ s.max_clones)
unfolding start_job
start_job_fields s t job left e = (
  ap (λ (x : Scheduler). x.active) e,
  ap (λ (x : Scheduler). x.active_clones) e,
  ap (λ (x : Scheduler). x.max_clones) e,
)

clone_size :
    (id : Text)
    → (pos_part (count_clone id) ≡ (if is_clone_job id then 1 else 0))
      × (neg_part (count_clone id) ≡ 0)
unfolding count_clone
clone_size id = ground arith

-- What it means for the job to be admitted.
eligible_idle :
    (s : Scheduler) (job : Job) → eligible s job ≡ true → lookup job.queue s.active ≡ none
unfolding eligible
eligible_idle s job e = ground arith

eligible_room :
    (s : Scheduler) (job : Job) (n : ℕ)
    → eligible s job ≡ true
    → s.active_clones ≡ pos n
    → 0 < s.max_clones
    → n ≤ s.max_clones
    → n + (if is_clone_job job.id then 1 else 0) ≤ s.max_clones
unfolding eligible
eligible_room s job n e c p h = ground arith

Takes-IsSafe :
    (y : System) (s : Scheduler) (job : Job)
    → length y.running < y.workers
    → Takes y.scheduler s job
    → IsSafe y
    → IsSafe (record y { scheduler = s; running = y.running ++ job ∷ [] })
Takes-IsSafe y s job room t h =
    let idle =
      subst (λ m. lookup job.queue m ≡ none) h.tracked (eligible_idle y.scheduler job t.admitted) in
    let (active, clones, same_max) =
      start_job_fields y.scheduler s job (t.front ++ t.back) t.started in
    record {
      exclusive =
          rw (entries_of-append y.running (job ∷ []))
            (IsMap-snoc job.queue job.id (entries_of y.running) idle h.exclusive);
      tracked =
          active
          ∙ ap (insert job.queue job.id) h.tracked
          ∙ insert-Fresh job.queue job.id (entries_of y.running) idle
          ∙ sym (entries_of-append y.running (job ∷ []));
      counted = omega (
        int_laws,
        clone_size job.id,
        ap pos_part clones,
        ap neg_part clones,
        ap pos_part h.counted,
        ap neg_part h.counted,
        count_clones-append y.running (job ∷ []),
      );
      limited = λ p.
          let some_limit : 0 < y.scheduler.max_clones = omega (arith, same_max) in
          omega (
            arith,
            same_max,
            count_clones-append y.running (job ∷ []),
            eligible_room y.scheduler job (count_clones y.running) t.admitted h.counted some_limit
                (h.limited some_limit),
          );
      staffed = omega (arith, length-append y.running (job ∷ []));
    }

finished_active :
    (s : Scheduler) (front : List Job) (job : Job) (back : List Job)
    → IsMap (entries_of (front ++ job ∷ back))
    → s.active ≡ entries_of (front ++ job ∷ back)
    → ((mark_queue_inactive s job.queue).active ≡ entries_of (front ++ back))
      × ((mark_queue_inactive s job.queue).active_clones ≡ s.active_clones -ℤ count_clone job.id)
      × ((mark_queue_inactive s job.queue).max_clones ≡ s.max_clones)
unfolding mark_queue_inactive
finished_active s front job back h e = (
  ap (remove job.queue) e ∙ remove-middle front job back h,
  ap (λ (m : Assoc Text). s.active_clones -ℤ count_clone (active_id (lookup job.queue m))) e
      ∙ ap (λ (o : Option Text). s.active_clones -ℤ count_clone (active_id o))
          (lookup-middle front job back h),
  refl,
)

finishes-IsSafe :
    (y : System) (front : List Job) (job : Job) (back : List Job)
    → y.running ≡ front ++ job ∷ back
    → IsSafe y
    → IsSafe (record y {
      scheduler = mark_queue_inactive y.scheduler job.queue;
      running = front ++ back;
    })
finishes-IsSafe y front job back e h =
    let exclusive : IsMap (entries_of (front ++ job ∷ back)) = rw (← e) h.exclusive in
    let (active, clones, same_max) =
      finished_active y.scheduler front job back exclusive (h.tracked ∙ ap entries_of e) in
    let fewer = count_clones-append front (job ∷ back) in
    let rest = count_clones-append front back in
    let total = ap count_clones e in
    record {
      exclusive = IsMap-middle front job back exclusive;
      tracked = active;
      counted = omega (
        int_laws,
        fewer,
        rest,
        total,
        clone_size job.id,
        ap pos_part clones,
        ap neg_part clones,
        ap pos_part h.counted,
        ap neg_part h.counted,
      );
      limited =
          λ p. omega (arith, same_max, h.limited (omega (arith, same_max)), fewer, rest, total);
      staffed = omega (
        arith,
        length-append front (job ∷ back),
        length-append front back,
        ap (length {A = Job}) e,
      );
    }

-- A step that changes no more than the queue and the flags.
same-IsSafe :
    (y : System) (s : Scheduler)
    → s.active ≡ y.scheduler.active
    → s.active_clones ≡ y.scheduler.active_clones
    → s.max_clones ≡ y.scheduler.max_clones
    → IsSafe y
    → IsSafe (record y { scheduler = s })
same-IsSafe y s a c m h = record {
  exclusive = h.exclusive;
  tracked = a ∙ h.tracked;
  counted = c ∙ h.counted;
  limited = rw m h.limited;
  staffed = h.staffed;
}

runs_injective :
    (s : Scheduler) (t : Scheduler) (j job : Job)
    → worker_turn s ≡ (t, runs job)
    → (worker_turn s).1 ≡ runs j
    → j ≡ job
runs_injective s t j job e f = cc

pub start_draining :
    (s : Scheduler) (job : Job) (left : List Job) → (start_job s job left).draining ≡ s.draining
unfolding start_job
start_draining s job left = refl

pub taken : (s t : Scheduler) (job : Job) → worker_turn s ≡ (t, runs job) → Takes s t job
taken s t job e = elim (worker_turn_lem s) [
  | inl (d, f) ↦ cc
  | inr (d, inl (j, f, takes_j)) ↦
      subst (λ x. Takes s x job) (ap (λ (p : Scheduler × Turn). p.0) e)
        (subst (λ x. Takes s (worker_turn s).0 x) (runs_injective s t j job e f) takes_j)
  | inr (d, inr (f, none_left)) ↦ cc
]

pub Step-IsSafe : {y z : System} → Step y z → IsSafe y → IsSafe z
unfolding submit try_submit drain stop
Step-IsSafe (submits y job) h =
    same-IsSafe y (submit y.scheduler job) (ground arith) (ground arith) (ground arith) h
Step-IsSafe (tries y job m) h =
    same-IsSafe y (try_submit y.scheduler job m).0 (ground arith) (ground arith) (ground arith) h
Step-IsSafe (drains y) h = same-IsSafe y (drain y.scheduler) refl refl refl h
Step-IsSafe (stops y) h = same-IsSafe y (stop y.scheduler) refl refl refl h
Step-IsSafe (takes y s job room e) h = Takes-IsSafe y s job room (taken y.scheduler s job e) h
Step-IsSafe (finishes y front job back e) h = finishes-IsSafe y front job back e h
