-- ===== src/Cache/Tiered/Write.antt =====
-- The writes of the tiered cache, internal/cache/tiered.go: Create and its writer, Delete, Invalidate
-- and Stats, with the entity tags that the tiers share. The calls that the code makes on all tiers at
-- once are given by their results.
pub mod Fresh
use cachew.Base.{
  ℕ, ◌+◌, Bool, true, false, ◌&&◌, ◌||◌, not, Option, none, some, List, [], ◌∷◌, ◌++◌, Text,
  text_eq, if◌then◌else◌, is_some,
}
use cachew.Base.Assoc.{Assoc, insert, remove}
use cachew.Base.Result.{Result, ok, err}
use cachew.Client.Etag.{EtagError}
use cachew.Client.Options.{RequestOption}
use cachew.Http
use cachew.Http.{etag_key}
use cachew.Cache.Short.{create_etag}
use cachew.Cache.Tiered.{TierError, missing, StatAnswer, error_list}

-- tieredWriter, less its tiers' writers
pub record TieredWriter : Type 0 where
  pub key : Text
  pub etag : Text
  pub replace_etag : Bool
  pub closed : Bool
  pub aborted : Bool

pub data CreateError : Type 0 where
  bad_etag : EtagError → CreateError
  tier : TierError → CreateError

-- replacementETag, from the answer of the last tier's Stat
unfoldable pub replacement_etag : StatAnswer → Text → Result TierError Bool
replacement_etag a new_etag = elim a.error [
  | some missing ↦ ok false
  | some e ↦ err e
  | none ↦ ok (not (text_eq (Http.get a.headers etag_key) new_etag))
]

-- The end of Create: `failures` are the errors of the tiers' Create, the first in time first. When all
-- of them have ended before the select, it may take the case `done` though there was an error.
wait_creates : TieredWriter → List TierError → Bool → Result CreateError TieredWriter
wait_creates w [] picks_done = ok w
wait_creates w (e ∷ failures) picks_done = if picks_done then ok w else err (tier e)

-- Create; `fresh` is the text of a new UUID, and `last` the answer of the last tier's Stat.
unfoldable pub create :
    Text
    → List RequestOption
    → Text
    → StatAnswer
    → List TierError
    → Bool
    → Result CreateError TieredWriter
unfolding replacement_etag wait_creates
create key opts fresh last failures picks_done = elim (create_etag opts fresh) [
  | err e ↦ err (bad_etag e)
  | ok quoted ↦ elim (replacement_etag last quoted) [
    | err e ↦ err (tier e)
    | ok replaces ↦
        wait_creates
          (record {
            key = key;
            etag = quoted;
            replace_etag = replaces;
            closed = false;
            aborted = false;
          })
          failures picks_done
  ]
]

-- Write, from what the tiers' writers return in turn.
unfoldable pub write : List (ℕ × Option TierError) → ℕ × Option TierError
write [] = (0, none)
write ((n, none) ∷ []) = (n, none)
write ((n, none) ∷ next ∷ rest) = write (next ∷ rest)
write ((n, some e) ∷ rest) = (n, some e)

-- errors.Join of the results; no error is nil.
unfoldable pub join : List (Option TierError) → List TierError
join [] = []
join (r ∷ results) = error_list r ++ join results

-- The calls of Set and Delete on the map of entity tags; an error of the store leaves the map alone.
store_tag : Assoc Text → Assoc Text → Option TierError → Assoc Text × List TierError
store_tag etags etags' none = (etags', [])
store_tag etags etags' (some e) = (etags, e ∷ [])

-- Close, from the results of the tiers' Close and of the store of entity tags.
unfoldable pub close :
    TieredWriter
    → List (Option TierError)
    → Option TierError
    → Assoc Text
    → TieredWriter × Assoc Text × List TierError
unfolding join store_tag
close w results stored etags =
    let w' = record w { closed = true } in
    if w.closed then (w, etags, []) else elim (join results) [
      | e ∷ es ↦ (w', etags, e ∷ es)
      | [] ↦
          if not w.aborted && w.replace_etag
          then (let (etags', errors) = store_tag etags (insert w.key w.etag etags) stored in
              (w', etags', errors))
          else (w', etags, [])
    ]

-- Abort
unfoldable pub abort :
    TieredWriter
    → List (Option TierError)
    → Option TierError
    → Assoc Text
    → TieredWriter × Assoc Text × List TierError
unfolding close
abort w results stored etags = close (record w { aborted = true }) results stored etags

-- Delete
unfoldable pub delete :
    Text → List (Option TierError) → Option TierError → Assoc Text → Assoc Text × List TierError
unfolding join store_tag
delete key results stored etags = elim (join results) [
  | e ∷ es ↦ (etags, e ∷ es)
  | [] ↦ store_tag etags (remove key etags) stored
]

-- Invalidate, from what each tier's Invalidate returns when it is called; the last tier's is not.
unfoldable pub invalidate : List (Option TierError) → List TierError
invalidate [] = []
invalidate (r ∷ []) = []
invalidate (r ∷ next ∷ results) = error_list r ++ invalidate (next ∷ results)

pub record Stats : Type 0 where
  pub objects : ℕ
  pub size : ℕ
  pub capacity : ℕ

-- What a tier's Stats returns: its numbers, ErrStatsUnavailable, or another error.
pub data StatsAnswer : Type 0 where
  numbers : Stats → StatsAnswer
  unavailable : StatsAnswer
  stats_failed : TierError → StatsAnswer

add_stats : Stats → Stats → Stats
add_stats a b = record {
  objects = a.objects + b.objects;
  size = a.size + b.size;
  capacity = a.capacity + b.capacity;
}

combine : Stats → List StatsAnswer → Result TierError Stats
unfolding add_stats
combine total [] = ok total
combine total (numbers s ∷ tiers) = combine (add_stats total s) tiers
combine total (unavailable ∷ tiers) = combine total tiers
combine total (stats_failed e ∷ tiers) = err e

-- Stats
unfoldable pub stats : List StatsAnswer → Result TierError Stats
unfolding combine
stats tiers = combine (record { objects = 0; size = 0; capacity = 0 }) tiers
