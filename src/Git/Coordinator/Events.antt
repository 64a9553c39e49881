-- ===== src/Git/Coordinator/Events.antt =====
-- Histories of the operations of internal/strategy/git/snapshotcoord.go on one view of the map.
use cachew.Base.{
  ℕ, Bool, true, false, ◌&&◌, not, Option, none, some, List, [], ◌∷◌, Text, ltb, ◌==◌,
  if◌then◌else◌, text_eq,
}
use cachew.Base.Assoc.{lookup}
use cachew.Client.Options.{is_blank}
use cachew.Git.Coordinator.{
  GenRecord, Coordinator, Calls, snapshot_gen_key, suppresses, claim_record, claim_with_ttl,
  completed_record, skipped_record, released_record, complete, skip, complete_claim, skip_claim,
  fail,
}

-- An operation of a replica, with the answers of the store.
pub data Event : Type 0 where
  claims : Calls → ℕ → Text → Text → Text → ℕ → ℕ → Event
  completes_claim : Calls → ℕ → Text → Text → Text → Text → Event
  skips_claim : Calls → ℕ → Text → Text → Text → Event
  fails : Calls → Text → Text → Text → Event
  completes : Calls → ℕ → Text → Text → Text → Event
  skips : Calls → ℕ → Text → Text → Event

-- The key that an operation is about.
abbrev pub key_of : Event → Text
key_of (claims calls now fresh job url interval ttl) = snapshot_gen_key job url
key_of (completes_claim calls now job url id commit) = snapshot_gen_key job url
key_of (skips_claim calls now job url id) = snapshot_gen_key job url
key_of (fails calls job url id) = snapshot_gen_key job url
key_of (completes calls now job url commit) = snapshot_gen_key job url
key_of (skips calls now job url) = snapshot_gen_key job url

unfoldable pub record_at : Text → Coordinator → Option GenRecord
record_at key none = none
record_at key (some gens) = lookup key gens

-- What an operation that needs a claim makes of the record.
unfoldable pub owned : Calls → Text → (GenRecord → GenRecord) → GenRecord → GenRecord
owned calls id f r = if calls.flushes && (text_eq r.claim_id id && calls.sets) then f r else r

module _ (snapshot_claim_ttl : ℕ) where
  unfoldable pub happen : Event → Coordinator → Coordinator
  happen (claims calls now fresh job url interval ttl) c =
      (claim_with_ttl snapshot_claim_ttl calls now fresh job url interval ttl c).0
  happen (completes_claim calls now job url id commit) c =
      (complete_claim calls now job url id commit c).0
  happen (skips_claim calls now job url id) c = (skip_claim calls now job url id c).0
  happen (fails calls job url id) c = (fail calls job url id c).0
  happen (completes calls now job url commit) c = (complete calls now job url commit c).0
  happen (skips calls now job url) c = (skip calls now job url c).0

  -- Whether an operation is a claim that is held.
  unfoldable pub wins : Event → Coordinator → Bool
  wins (claims calls now fresh job url interval ttl) c =
      (claim_with_ttl snapshot_claim_ttl calls now fresh job url interval ttl c).1.held
  wins (completes_claim calls now job url id commit) c = false
  wins (skips_claim calls now job url id) c = false
  wins (fails calls job url id) c = false
  wins (completes calls now job url commit) c = false
  wins (skips calls now job url) c = false

  unfoldable pub run : List Event → Coordinator → Coordinator
  unfolding happen
  run [] c = c
  run (e ∷ es) c = run es (happen e c)

  -- Every claim of a key that a history makes is declined.
  unfoldable pub all_declined : Text → List Event → Coordinator → Bool
  unfolding happen wins
  all_declined key [] c = true
  all_declined key (e ∷ es) c =
      not (text_eq (key_of e) key && wins e c) && all_declined key es (happen e c)

  -- What an operation on its key makes of the record.
  unfoldable pub next : Event → GenRecord → GenRecord
  unfolding owned
  next (claims calls now fresh job url interval ttl) r =
      if not (suppresses snapshot_claim_ttl now interval r) && calls.sets
      then claim_record now fresh (if ttl == 0 then snapshot_claim_ttl else ttl) r
      else r
  next (completes_claim calls now job url id commit) r =
      if is_blank id then r else owned calls id (completed_record now commit) r
  next (skips_claim calls now job url id) r =
      if is_blank id then r else owned calls id (skipped_record now) r
  next (fails calls job url id) r =
      if is_blank id
      then r
      else if ltb r.completed_at r.started_at
      then owned calls id released_record r
      else r
  next (completes calls now job url commit) r =
      if calls.sets then completed_record now commit r else r
  next (skips calls now job url) r = if calls.sets then skipped_record now r else r
