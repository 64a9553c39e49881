-- ===== src/Metadata/Journal.antt =====
-- The journal of the S3 backend, internal/metadatadb/s3: segments in a canonical order above a rollup.
-- The operations are those of any replayed state; JSON is taken to give back the state that was
-- written. The zero time is 0 and every stamp of a listing is positive.
pub mod Order
pub mod Sort
pub mod Last
pub mod Canonical
pub mod Rebuild
pub mod Resolve
pub mod Compaction
use cachew.Base.{
  ℕ, ◌+◌, ◌-◌, ◌≡◌, Bool, true, false, ◌&&◌, ◌||◌, not, Option, none, some, List, [], ◌∷◌, ◌++◌,
  Text, keep, length, ltb, leb, ◌==◌, if◌then◌else◌, is_some,
}
use cachew.Base.Sort.{insert_in, sort}
use cachew.Base.Assoc.{Assoc, lookup, insert, remove}

-- strings.Compare(s, t) <= 0
unfoldable pub text_le : Text → Text → Bool
text_le [] t = true
text_le (x ∷ s) [] = false
text_le (x ∷ s) (y ∷ t) = if x == y then text_le s t else ltb x y

-- mark: a position in the canonical order
pub record Mark : Type 0 where
  pub lm : ℕ
  pub key : Text

-- mark.covers
unfoldable pub covers : Mark → ℕ → Text → Bool
unfolding text_le
covers m lm key = if lm == m.lm then text_le key m.key else ltb lm m.lm

module _ (Op : Type 0) where
  -- cacheEntry
  pub record CacheEntry : Type 0 where
    pub ops : List Op
    pub lm : ℕ
    pub listed : Bool
    pub inserted_at : ℕ

  abbrev pub Cache : Type 0
  Cache = Assoc CacheEntry

-- heldRollup, with its state decoded
pub record Rollup (S : Type 0) : Type 0 where
  pub etag : Text
  pub mark : Mark
  pub state : S

-- listing: one LIST, its newest stamp and the time at which it started
pub record Listing : Type 0 where
  pub entries : Assoc ℕ
  pub newest : ℕ
  pub start : ℕ

-- The order of replay: listed entries first, by stamp and key; the others by key.
unfoldable pub replays_before : {Op : Type 0} → Text × CacheEntry Op → Text × CacheEntry Op → Bool
unfolding text_le
replays_before (k, a) (j, b) =
    if a.listed
    then if b.listed then if a.lm == b.lm then text_le k j else ltb a.lm b.lm else true
    else if b.listed
    then false
    else text_le k j

-- Whether replay skips an entry: it is listed, at or below the mark.
unfoldable pub folded : {Op : Type 0} → Mark → Text × CacheEntry Op → Bool
unfolding covers
folded m (k, e) = e.listed && covers m e.lm k

module _ {S Op : Type 0} (apply : S → Op → S) where
  unfoldable pub apply_all : S → List Op → S
  apply_all s [] = s
  apply_all s (o ∷ ops) = apply_all (apply s o) ops

  unfoldable pub apply_entries : S → List (Text × CacheEntry Op) → S
  unfolding apply_all
  apply_entries s [] = s
  apply_entries s ((k, e) ∷ rest) = apply_entries (apply_all s e.ops) rest

  -- replay
  unfoldable pub replay : Rollup S → Cache Op → S
  unfolding folded replays_before sort apply_entries
  replay r input =
      apply_entries r.state (sort replays_before (keep (λ x. not (folded r.mark x)) input))

module _ {S Op : Type 0} where
  -- The first critical section of rebuild: entries at or below the mark go, and entries that no
  -- listing shows although they are older than it.
  unfoldable pub evict_folded : Rollup S → Listing → Cache Op → Cache Op
  unfolding folded lookup
  evict_folded r lst cache =
      keep
        (λ (x : Text × CacheEntry Op).
          if x.1.listed
          then not (folded r.mark x)
          else is_some (lookup x.0 lst.entries) || not (ltb x.1.inserted_at lst.start))
        cache

module _ {Op : Type 0} where
  -- maps.Copy(dst, src)
  unfoldable pub copy : Cache Op → Cache Op → Cache Op
  unfolding insert
  copy dst [] = dst
  copy dst ((k, e) ∷ src) = copy (insert k e dst) src

  unfoldable pub late_entries : Cache Op → Cache Op → List (Text × CacheEntry Op)
  unfolding lookup text_le sort
  late_entries input cache =
      sort (λ (x y : Text × CacheEntry Op). text_le x.0 y.0)
        (keep (λ (x : Text × CacheEntry Op). not (is_some (lookup x.0 input))) cache)

module _ {S Op : Type 0} (apply : S → Op → S) where
  -- rebuild: `cache'` is the cache when the second critical section starts, after what the writer put
  -- in meanwhile; the result is the new state and the new cache.
  unfoldable pub rebuild : Rollup S → Listing → Cache Op → Cache Op → Cache Op → S × Cache Op
  unfolding evict_folded copy replay late_entries apply_entries
  rebuild r lst cache staged cache' =
      let input = copy (evict_folded r lst cache) staged in
      (apply_entries apply (replay apply r input) (late_entries input cache'), copy cache' staged)

-- Whether the ladder looks at a segment: it is old enough, in the time of the store.
unfoldable pub aged : Listing → ℕ → ℕ → Bool
aged lst threshold lm = not (ltb (lst.newest - lm) threshold)

unfoldable pub last_mark : {Op : Type 0} → Mark → List (Text × CacheEntry Op) → Mark
last_mark m [] = m
last_mark m ((k, e) ∷ rest) = last_mark (record { lm = e.lm; key = k }) rest

-- The candidates of the ladder: the segments of the listing that are old enough and above the mark.
-- The others that are old enough are its leftovers, which it only deletes from the store.
unfoldable pub ladder_candidates : {S : Type 0} → Rollup S → Listing → ℕ → Assoc ℕ
unfolding aged covers
ladder_candidates r lst threshold =
    keep (λ (x : Text × ℕ). aged lst threshold x.1 && not (covers r.mark x.1 x.0)) lst.entries

-- Whether a segment of the cache is a candidate, by its own stamp.
unfoldable pub candidate : {S Op : Type 0} → Rollup S → Listing → ℕ → Text × CacheEntry Op → Bool
unfolding aged covers
candidate r lst threshold (k, e) =
    e.listed && (aged lst threshold e.lm && not (covers r.mark e.lm k))

-- The segments of the candidates, with the stamps of the listing; none if the cache misses one.
unfoldable pub resolve : {Op : Type 0} → Cache Op → Assoc ℕ → Option (List (Text × CacheEntry Op))
unfolding lookup
resolve cache [] = some []
resolve cache ((k, lm) ∷ keys) =
    let rest = resolve cache keys in
    elim (lookup k cache) [
      | none ↦ none
      | some e ↦ elim rest [
        | none ↦ none
        | some es ↦ some ((k, record e { lm = lm; listed = true }) ∷ es)
      ]
    ]

module _ {S Op : Type 0} (apply : S → Op → S) where
  -- The fold of compact, in canonical order: the new rollup, marked with the last segment. `etag` is
  -- that of the new object.
  unfoldable pub fold_candidates : Rollup S → List (Text × CacheEntry Op) → Text → Rollup S
  unfolding replays_before sort apply_entries last_mark
  fold_candidates r candidates etag =
      let sorted = sort replays_before candidates in
      record {
        etag = etag;
        mark = last_mark r.mark sorted;
        state = apply_entries apply r.state sorted;
      }

  -- compact, where the rollup has not changed since the tick and the conditional PUT succeeds; none is
  -- the error for a candidate that the cache misses.
  unfoldable pub compact : Rollup S → Cache Op → Assoc ℕ → Text → Option (Rollup S)
  unfolding resolve fold_candidates
  compact r cache keys etag = elim (resolve cache keys) [
    | none ↦ none
    | some candidates ↦ some (fold_candidates r candidates etag)
  ]

-- What the ladder keeps between ticks, and what it does.
pub record Counters : Type 0 where
  pub last_newest : ℕ
  pub stall : ℕ
  pub sustain : ℕ

pub data Action : Type 0 where
  idle compacts probes : Action

-- ladder: `aged_count` candidates of `live` listed segments
unfoldable pub ladder : Counters → ℕ → ℕ → ℕ → ℕ → Counters × Action
ladder c newest aged_count live threshold =
    let fresh = ltb c.last_newest newest in
    let stall = if fresh then 0 else c.stall in
    let last = if fresh then newest else c.last_newest in
    if leb threshold aged_count
    then if ltb (c.sustain + 1) 2
      then (record { last_newest = last; stall = 0; sustain = c.sustain + 1 }, idle)
      else (record { last_newest = last; stall = 0; sustain = 0 }, compacts)
    else if leb threshold live
    then if ltb (stall + 1) 2
      then (record { last_newest = last; stall = stall + 1; sustain = 0 }, idle)
      else (record { last_newest = last; stall = 0; sustain = 0 }, probes)
    else (record { last_newest = last; stall = 0; sustain = 0 }, idle)
