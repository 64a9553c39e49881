-- ===== src/Scheduler/Running.antt =====
-- The jobs that run as a map from queues to ids, and the clones among them.
use cachew.Base.{
  ℕ, ◌+◌, ◌≡◌, refl, ap, some, List, [], ◌∷◌, ◌++◌, Text, if◌then◌else◌, text_eq_iff, text_eq_refl,
  arith,
}
use cachew.Base.Assoc.{Assoc, Fresh, IsMap, lookup, insert, remove, remove_absent}
use cachew.Scheduler.{Job, is_clone_job}

-- The map of the jobs that run.
abbrev pub entries_of : List Job → Assoc Text
entries_of [] = []
entries_of (j ∷ js) = (j.queue, j.id) ∷ entries_of js

abbrev pub count_clones : List Job → ℕ
count_clones [] = 0
count_clones (j ∷ js) = (if is_clone_job j.id then 1 else 0) + count_clones js

pub entries_of-append : (xs ys : List Job) → entries_of (xs ++ ys) ≡ entries_of xs ++ entries_of ys
entries_of-append [] ys = refl
entries_of-append (x ∷ xs) ys =
    ap (λ (m : Assoc Text). (x.queue, x.id) ∷ m) (entries_of-append xs ys)

pub insert-Fresh : (k v : Text) (m : Assoc Text) → Fresh k m → insert k v m ≡ m ++ (k, v) ∷ []
unfolding insert lookup
insert-Fresh k v [] h = refl
insert-Fresh k v ((j, w) ∷ m) h = ground (arith, insert-Fresh k v m)

Fresh-append : (k : Text) (m n : Assoc Text) → Fresh k m → Fresh k n → Fresh k (m ++ n)
unfolding lookup
Fresh-append k [] n h g = g
Fresh-append k ((j, w) ∷ m) n h g = ground (arith, Fresh-append k m n)

pub IsMap-snoc : (k v : Text) (m : Assoc Text) → Fresh k m → IsMap m → IsMap (m ++ (k, v) ∷ [])
unfolding lookup
IsMap-snoc k v [] h g = (refl, tt)
IsMap-snoc k v ((j, w) ∷ m) h (fresh, g) = (
  Fresh-append j m ((k, v) ∷ []) fresh (ground (arith, text_eq_iff j k, text_eq_iff k j)),
  IsMap-snoc k v m (ground arith) g,
)

pub count_clones-append :
    (xs ys : List Job) → count_clones (xs ++ ys) ≡ count_clones xs + count_clones ys
count_clones-append [] ys = omega arith
count_clones-append (x ∷ xs) ys = omega (arith, count_clones-append xs ys)

-- Taking a job out of the middle of those that run.
Fresh-middle :
    (k : Text) (front : List Job) (job : Job) (back : List Job)
    → Fresh k (entries_of (front ++ job ∷ back))
    → Fresh k (entries_of (front ++ back))
unfolding lookup
Fresh-middle k [] job back h = ground arith
Fresh-middle k (x ∷ front) job back h = ground (arith, Fresh-middle k front job back)

pub IsMap-middle :
    (front : List Job) (job : Job) (back : List Job)
    → IsMap (entries_of (front ++ job ∷ back))
    → IsMap (entries_of (front ++ back))
IsMap-middle [] job back h = h.1
IsMap-middle (x ∷ front) job back (fresh, h) =
    (Fresh-middle x.queue front job back fresh, IsMap-middle front job back h)

pub lookup-middle :
    (front : List Job) (job : Job) (back : List Job)
    → IsMap (entries_of (front ++ job ∷ back))
    → lookup job.queue (entries_of (front ++ job ∷ back)) ≡ some job.id
unfolding lookup
lookup-middle [] job back h = rw (text_eq_refl job.queue) refl
lookup-middle (x ∷ front) job back (fresh, h) =
    ground (arith, lookup-middle front job back h, text_eq_iff x.queue job.queue)

pub remove-middle :
    (front : List Job) (job : Job) (back : List Job)
    → IsMap (entries_of (front ++ job ∷ back))
    → remove job.queue (entries_of (front ++ job ∷ back)) ≡ entries_of (front ++ back)
unfolding remove
remove-middle [] job back (fresh, h) =
    ground (arith, text_eq_refl job.queue, remove_absent job.queue (entries_of back) fresh)
remove-middle (x ∷ front) job back (fresh, h) = ground (
  arith,
  remove-middle front job back h,
  lookup-middle front job back h,
  text_eq_iff x.queue job.queue,
)
