-- ===== src/Cache/Tiered.antt =====
-- The tiered cache, internal/cache/tiered.go: how Stat and Open resolve a request from the answers of
-- the tiers. A tier is another cache behind the interface; a call asks each tier at most once, so that
-- the tiers are the answers that they give to the request, in order, the authoritative one last.
pub mod Write
pub mod Readers
pub mod Open
pub mod Plain
pub mod Backfill
pub mod Agree
use cachew.Base.{
  ℕ, zero, suc, ◌+◌, ◌<◌, ◌≡◌, Bool, true, false, ◌&&◌, ◌||◌, not, Option, none, some, List, [],
  ◌∷◌, ◌++◌, Text, text_eq, if◌then◌else◌, is_some,
}
use cachew.Client.Options.{
  CondError, not_modified, precondition_failed, range_not_satisfiable, RequestOptions,
  if_range_misses, is_blank,
}
use cachew.Http
use cachew.Http.{Header, etag_key}

-- The errors of a tier: os.ErrNotExist, those of a conditional request, and any other.
pub data TierError : Type 0 where
  missing : TierError
  conditional : CondError → TierError
  failed : ℕ → TierError

-- What a tier's Open returns: headers and a reader of the bytes, or headers and an error.
pub data OpenAnswer : Type 0 where
  opened : Header → List ℕ → OpenAnswer
  refused : Header → TierError → OpenAnswer

-- What a tier's Stat returns.
pub record StatAnswer : Type 0 where
  pub headers : Header
  pub error : Option TierError

-- The calls on tiers and on their readers that a request makes, by the tier's index.
pub data Action : Type 0 where
  opens discards invalidates : ℕ → Action

-- The test of invalidateStale; `want` is the recorded entity tag of the key.
unfoldable pub is_stale : Option Text → Header → Bool
is_stale none h = false
is_stale (some want) h = not (text_eq want (Http.get h etag_key))

-- The outcome of Stat; no error is nil, and more than one is their join.
pub record Stated : Type 0 where
  pub headers : Option Header
  pub errors : List TierError

pub record StatState : Type 0 where
  pub rejected : Bool
  pub probe_errs : List TierError
  pub errs : List TierError
  pub log : List Action

abbrev pub error_list : Option TierError → List TierError
error_list none = []
error_list (some e) = e ∷ []

pub data StatTurn : Type 0 where
  returns : Stated → List Action → StatTurn
  goes_on : StatState → StatTurn

-- A definitive answer of a tier, unless the tier is not the last and its copy is stale.
unfoldable pub stat_settle : Option Text → Bool → ℕ → StatState → StatAnswer → StatTurn
unfolding is_stale
stat_settle want last i s a =
    if not last && is_stale want a.headers
    then goes_on
        (record s { errs = s.errs ++ error_list a.error; log = s.log ++ invalidates i ∷ [] })
    else returns (record { headers = some a.headers; errors = error_list a.error }) s.log

-- One round of the loop of Stat.
unfoldable pub stat_turn : Option Text → Bool → ℕ → StatState → StatAnswer → StatTurn
unfolding stat_settle
stat_turn want last i s a =
    let noted = record s { errs = s.errs ++ error_list a.error } in
    elim a.error [
      | some missing ↦ goes_on noted
      | some (conditional precondition_failed) ↦ goes_on (record noted { rejected = true })
      | some (conditional not_modified) ↦ stat_settle want last i s a
      | some e ↦
          if s.rejected
          then goes_on (record noted { probe_errs = s.probe_errs ++ e ∷ [] })
          else returns (record { headers = some a.headers; errors = e ∷ [] }) s.log
      | none ↦ stat_settle want last i s a
    ]

-- The part of Stat after its loop.
unfoldable pub stat_end : StatState → Stated
stat_end s = elim s.probe_errs [
  | e ∷ es ↦ record { headers = none; errors = e ∷ es }
  | [] ↦ record {
    headers = none;
    errors = if s.rejected then conditional precondition_failed ∷ [] else s.errs;
  }
]

abbrev pub is_last {ℓ} : {A : Type ℓ} → List A → Bool
is_last [] = true
is_last (x ∷ xs) = false

unfoldable pub stat_loop : Option Text → ℕ → StatState → List StatAnswer → Stated × List Action
unfolding stat_turn stat_end
stat_loop want i s [] = (stat_end s, s.log)
stat_loop want i s (a ∷ rest) = elim (stat_turn want (is_last rest) i s a) [
  | returns result log ↦ (result, log)
  | goes_on s' ↦ stat_loop want (suc i) s' rest
]

-- Stat
unfoldable pub stat : Option Text → List StatAnswer → Stated × List Action
unfolding stat_loop
stat want tiers =
    stat_loop want 0 (record { rejected = false; probe_errs = []; errs = []; log = [] }) tiers

-- What convergeTier0 starts for an object that a deeper tier served.
pub data Converge : Type 0 where
  nothing backfills : Converge
  heals : Text → Converge

-- healTier0, on a cache with a healer
unfoldable pub heal_tier0 : Option Text → Text → Converge
heal_tier0 none served = nothing
heal_tier0 (some want) served =
    if is_blank served || not (text_eq want served) then nothing else heals want

-- convergeTier0
unfoldable pub converge_tier0 : Option Text → Bool → ℕ → Header → Converge
unfolding heal_tier0
converge_tier0 want partial zero h = nothing
converge_tier0 want partial (suc i) h =
    if partial then heal_tier0 want (Http.get h etag_key) else backfills

-- The outcome of Open: `tier` is the tier whose answer is returned.
pub record Opened : Type 0 where
  pub body : Option (List ℕ)
  pub headers : Option Header
  pub errors : List TierError
  pub tier : Option ℕ
  pub converge : Converge

-- The reader that is held in case no deeper tier has the version that If-Range names.
pub record Fallback : Type 0 where
  pub tier : ℕ
  pub headers : Header
  pub body : List ℕ

pub record OpenState : Type 0 where
  pub fallback : Option Fallback
  pub rejected : Bool
  pub probe_errs : List TierError
  pub errs : List TierError
  pub log : List Action

pub data OpenTurn : Type 0 where
  returns : Opened → List Action → OpenTurn
  goes_on : OpenState → OpenTurn

pub discard_held : Option Fallback → List Action
discard_held none = []
discard_held (some held) = discards held.tier ∷ []

-- ErrNotModified and ErrRangeNotSatisfiable: definitive, unless invalidateStaleConditional says stale.
unfoldable pub refuse : Option Text → Bool → ℕ → OpenState → Header → CondError → OpenTurn
unfolding is_stale discard_held
refuse want last i s h c =
    if not last && is_stale want h
    then OpenTurn.goes_on
        (record s { errs = s.errs ++ missing ∷ []; log = s.log ++ invalidates i ∷ [] })
    else OpenTurn.returns
        (record {
          body = none;
          headers = some h;
          errors = conditional c ∷ [];
          tier = some i;
          converge = nothing;
        })
        (s.log ++ discard_held s.fallback)

-- A tier that opened its object.
unfoldable pub take_reader :
    Option Text → RequestOptions → Bool → ℕ → OpenState → Header → List ℕ → OpenTurn
unfolding is_stale discard_held if_range_misses converge_tier0
take_reader want ro last i s h body =
    let log = s.log ++ opens i ∷ [] in
    if not last && is_stale want h
    then OpenTurn.goes_on (record s { log = log ++ invalidates i ∷ discards i ∷ [] })
    else if if_range_misses ro (Http.get h etag_key)
    then if is_some s.fallback
      then OpenTurn.goes_on (record s { log = log ++ discards i ∷ [] })
      else OpenTurn.goes_on
          (record s { fallback = some (record { tier = i; headers = h; body = body }); log = log })
    else OpenTurn.returns
        (record {
          body = some body;
          headers = some h;
          errors = [];
          tier = some i;
          converge = converge_tier0 want (not (is_blank ro.range)) i h;
        })
        (log ++ discard_held s.fallback)

-- One round of the loop of Open.
unfoldable pub open_turn :
    Option Text → RequestOptions → Bool → ℕ → OpenState → OpenAnswer → OpenTurn
unfolding refuse take_reader
open_turn want ro last i s (opened h body) = take_reader want ro last i s h body
open_turn want ro last i s (refused h missing) =
    OpenTurn.goes_on (record s { errs = s.errs ++ missing ∷ [] })
open_turn want ro last i s (refused h (conditional precondition_failed)) =
    OpenTurn.goes_on
      (record s { rejected = true; errs = s.errs ++ conditional precondition_failed ∷ [] })
open_turn want ro last i s (refused h (conditional not_modified)) =
    refuse want last i s h not_modified
open_turn want ro last i s (refused h (conditional range_not_satisfiable)) =
    refuse want last i s h range_not_satisfiable
open_turn want ro last i s (refused h (failed e)) =
    if is_some s.fallback || s.rejected
    then OpenTurn.goes_on
        (record s { probe_errs = s.probe_errs ++ failed e ∷ []; errs = s.errs ++ failed e ∷ [] })
    else OpenTurn.returns
        (record {
          body = none;
          headers = some h;
          errors = failed e ∷ [];
          tier = none;
          converge = nothing;
        })
        s.log

joined : List TierError → Opened
joined errors = record {
  body = none;
  headers = none;
  errors = errors;
  tier = none;
  converge = nothing;
}

-- The part of Open after its loop; a Close of the fallback that fails adds its error, which is not
-- modelled.
unfoldable pub open_end : OpenState → Opened × List Action
unfolding joined discard_held
open_end s = elim s.probe_errs [
  | e ∷ es ↦ (joined (e ∷ es), s.log ++ discard_held s.fallback)
  | [] ↦ elim s.fallback [
    | some held ↦ (
      record {
        body = some held.body;
        headers = some held.headers;
        errors = [];
        tier = some held.tier;
        converge = nothing;
      },
      s.log,
    )
    | none ↦ (joined (if s.rejected then conditional precondition_failed ∷ [] else s.errs), s.log)
  ]
]

unfoldable pub open_loop :
    Option Text → RequestOptions → ℕ → OpenState → List OpenAnswer → Opened × List Action
unfolding open_turn open_end
open_loop want ro i s [] = open_end s
open_loop want ro i s (a ∷ rest) = elim (open_turn want ro (is_last rest) i s a) [
  | OpenTurn.returns result log ↦ (result, log)
  | OpenTurn.goes_on s' ↦ open_loop want ro (suc i) s' rest
]

abbrev pub open_start : OpenState
open_start = record { fallback = none; rejected = false; probe_errs = []; errs = []; log = [] }

-- Open
unfoldable pub open_tiers : Option Text → RequestOptions → List OpenAnswer → Opened × List Action
unfolding open_loop
open_tiers want ro tiers = open_loop want ro 0 open_start tiers
