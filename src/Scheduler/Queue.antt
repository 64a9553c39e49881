-- ===== src/Scheduler/Queue.antt =====
-- Which job a worker takes, and what the submissions do to the queue.
use cachew.Base.{
  ◌≡◌, ◌↔◌, ◌⊎◌, ap, ◌∙◌, Bool, true, false, none, some, List, [], ◌∷◌, ◌++◌, All, length,
  length-append, Bool-cases, Option-cases, inl, inr, arith,
}
use cachew.Base.Int.{ℤ, pos, leb_ℤ, ltb_ℤ}
use cachew.Scheduler.{
  Job, Scheduler, submit, try_submit, eligible, take_first, start_job, take_next, worker_turn, ends,
  waits, runs,
}

-- The split of the queue at the job that is taken.
pub take_first-some :
    (p : Job → Bool) (js : List Job) (job : Job) (left : List Job)
    → take_first p js ≡ some (job, left)
    → (front : List Job) × (back : List Job) × (js ≡ front ++ job ∷ back)
      × (left ≡ front ++ back)
      × (p job ≡ true)
      × All (λ j. p j ≡ false) front
unfolding take_first
take_first-some p [] job left h = cc
take_first-some p (j ∷ js) job left h = elim (Bool-cases (p j)) [
  | inl e ↦ ([], js, ground arith, ground arith, ground arith, tt)
  | inr e ↦ elim (Option-cases (take_first p js)) [
    | inl m ↦ absurd (ground arith)
    | inr ((taken, rest), m) ↦
        let (front, back, a, b, c, d) = take_first-some p js taken rest m in
        (j ∷ front, back, ground arith, ground arith, ground arith, (e, d))
  ]
]

pub take_first-none :
    (p : Job → Bool) (js : List Job) → take_first p js ≡ none → All (λ j. p j ≡ false) js
unfolding take_first
take_first-none p [] h = tt
take_first-none p (j ∷ js) h = elim (Bool-cases (p j)) [
  | inl e ↦ absurd (ground arith)
  | inr e ↦ elim (Option-cases (take_first p js)) [
    | inl m ↦ (e, take_first-none p js m)
    | inr (x, m) ↦ absurd (ground arith)
  ]
]

-- What `take_next` promises: the first job of the queue whose queue is idle and which the limit on
-- clones admits, with the others in their order; and no job only if there is none.
pub record Takes (s : Scheduler) (s' : Scheduler) (job : Job) : Type 0 where
  pub front : List Job
  pub back : List Job
  pub found : s.queue ≡ front ++ job ∷ back
  pub left : s'.queue ≡ front ++ back
  pub admitted : eligible s job ≡ true
  pub passed_over : All (λ j. eligible s j ≡ false) front
  pub started : s' ≡ start_job s job (front ++ back)

pub take_next-some : (s s' : Scheduler) (job : Job) → take_next s ≡ (s', some job) → Takes s s' job
unfolding take_next
take_next-some s s' job h = elim (Option-cases (take_first (eligible s) s.queue)) [
  | inl m ↦ absurd (ground arith)
  | inr ((j, left), m) ↦
      let (front, back, a, b, c, d) = take_first-some (eligible s) s.queue j left m in
      let same : j ≡ job = ground arith in
      let started : s' ≡ start_job s job left = ground arith in
      record {
        front = front;
        back = back;
        found = a ∙ ap (λ x. front ++ x ∷ back) same;
        left = ap (λ (t : Scheduler). t.queue) started ∙ b;
        admitted = rw (← same) c;
        passed_over = d;
        started = started ∙ ap (start_job s job) b;
      }
]

-- A worker's turn ends the worker exactly when the scheduler is done; it takes the first job of the
-- queue that is admitted; and it waits only if no job of the queue is admitted, changing nothing.
pub worker_turn_lem :
    (s : Scheduler)
    → ((s.done ≡ true) × (worker_turn s ≡ (s, ends)))
      ⊎ ((s.done ≡ false)
          × (((job : Job) × ((worker_turn s).1 ≡ runs job) × Takes s (worker_turn s).0 job)
              ⊎ ((worker_turn s ≡ (s, waits)) × All (λ j. eligible s j ≡ false) s.queue)))
unfolding worker_turn
worker_turn_lem s = elim (Bool-cases s.done) [
  | inl e ↦ inl (e, ground arith)
  | inr e ↦ elim (Option-cases (take_first (eligible s) s.queue)) [
    | inl m ↦
        inr (e, inr (unfold take_next in ground arith, take_first-none (eligible s) s.queue m))
    | inr ((job, left), m) ↦
        let t : take_next s ≡ (start_job s job left, some job) = unfold take_next in ground arith in
        inr (
          e,
          inl (
            job,
            ground (arith, t),
            (let same : (worker_turn s).0 ≡ start_job s job left = ground (arith, t) in
                rw same (take_next-some s (start_job s job left) job t)),
          ),
        )
  ]
]

-- TrySubmit admits a job exactly when the scheduler takes jobs and fewer than `max_queued` wait; the
-- job is then the last of the queue, which is no longer than `max_queued`. A refusal changes nothing.
pub try_submit_lem :
    (s : Scheduler) (job : Job) (max_queued : ℤ)
    → ((try_submit s job max_queued).1 ≡ true ↔ (
        (s.done ≡ false) × (s.draining ≡ false) × (ltb_ℤ (pos (length s.queue)) max_queued ≡ true)))
      × ((try_submit s job max_queued).1 ≡ true
          → ((try_submit s job max_queued).0 ≡ submit s job)
            × (leb_ℤ (pos (length (try_submit s job max_queued).0.queue)) max_queued ≡ true))
      × ((try_submit s job max_queued).1 ≡ false → (try_submit s job max_queued).0 ≡ s)
unfolding try_submit submit
try_submit_lem s job max_queued = (
  (λ h. ground arith, λ h. ground arith),
  (λ h. ground (arith, length-append s.queue (job ∷ []))),
  λ h. ground arith,
)
