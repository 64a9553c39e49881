-- ===== src/Git/Coordinator/Replicas.antt =====
-- The replicas of internal/strategy/git/snapshotcoord.go on an asynchronous store: each has a view of the
-- map of generations, reads that view, and sees what others have written when it next refreshes. A call is
-- one step on the view of its replica.
use cachew.Base.{
  ℕ, ◌≡◌, Bool, true, false, ◌&&◌, ◌||◌, ◌==◌, ◌⊎◌, not, none, some, List, [], ◌∷◌, Text,
  if◌then◌else◌, text_eq,
}
use cachew.Base.Assoc.{lookup, insert}
use cachew.Client.Options.{is_blank}
use cachew.Git.Coordinator.{Gens, Coordinator, Calls, or_none, owns, in_progress, snapshot_gen_key}
use cachew.Git.Coordinator.Events.{
  Event, claims, completes_claim, skips_claim, fails, completes, skips, key_of, happen, wins,
  record_at,
}

-- What the store has, and the view that each replica has of it
pub record Replicas : Type 0 where
  pub shared : Gens
  pub view : ℕ → Gens

-- A call of a replica, and a refresh of its view: a tick of the store, or Prime
pub data Act : Type 0 where
  calls : ℕ → Event → Act
  syncs : ℕ → Act

-- Whether a call refreshes the view first: CompleteClaim, SkipClaim and Fail do.
unfoldable pub primes : Event → Bool
primes (claims c now fresh job url interval ttl) = false
primes (completes_claim c now job url id commit) = not (is_blank id) && c.flushes
primes (skips_claim c now job url id) = not (is_blank id) && c.flushes
primes (fails c job url id) = not (is_blank id) && c.flushes
primes (completes c now job url commit) = false
primes (skips c now job url) = false

abbrev pub changes : Calls → Text → Text → Gens → Bool
changes c id key v = not (is_blank id) && (c.flushes && (owns id (lookup key v) && c.sets))

abbrev pub gens_of : Coordinator → Gens
gens_of none = []
gens_of (some gens) = gens

unfoldable pub with_view : ℕ → Gens → (ℕ → Gens) → ℕ → Gens
with_view i v view j = if i == j then v else view j

-- The replicas that see what is in question; a refresh adds one.
unfoldable pub with_replica : Bool → ℕ → (ℕ → Bool) → ℕ → Bool
with_replica b i up j = up j || (b && (i == j))

module _ (ttl : ℕ) where
  -- Whether a call writes the record of its key.
  unfoldable pub writes_record : Event → Gens → Bool
  unfolding owns in_progress
  writes_record (claims c now fresh job url interval ttl') v =
      wins ttl (claims c now fresh job url interval ttl') (some v) && c.sets
  writes_record (completes_claim c now job url id commit) v =
      changes c id (snapshot_gen_key job url) v
  writes_record (skips_claim c now job url id) v = changes c id (snapshot_gen_key job url) v
  writes_record (fails c job url id) v =
      in_progress (lookup (snapshot_gen_key job url) v) && changes c id (snapshot_gen_key job url) v
  writes_record (completes c now job url commit) v = c.sets
  writes_record (skips c now job url) v = c.sets

  -- The view on which a call of a replica runs
  unfoldable pub seen : ℕ → Event → Replicas → Gens
  unfolding primes
  seen i e s = if primes e then s.shared else s.view i

  unfoldable pub act : Act → Replicas → Replicas
  unfolding seen writes_record with_view happen or_none
  act (syncs i) s = record s { view = with_view i s.shared s.view }
  act (calls i e) s =
      let v = seen i e s in
      let after = happen ttl e (some v) in
      record {
        shared =
            if writes_record e v
            then insert (key_of e) (or_none (record_at (key_of e) after)) s.shared
            else s.shared;
        view = with_view i (gens_of after) s.view;
      }

  unfoldable pub run_acts : List Act → Replicas → Replicas
  unfolding act
  run_acts [] s = s
  run_acts (a ∷ acts) s = run_acts acts (act a s)

  -- Every claim of a key is declined.
  unfoldable pub none_wins : Text → List Act → Replicas → Bool
  unfolding act seen
  none_wins key [] s = true
  none_wins key (syncs i ∷ acts) s = none_wins key acts (act (syncs i) s)
  none_wins key (calls i e ∷ acts) s =
      let rest = none_wins key acts (act (calls i e) s) in
      not (text_eq (key_of e) key && wins ttl e (some (seen i e s))) && rest

-- Every call about the key fits, and is of a replica that sees what is in question, from the replicas
-- `up` that do and by the refreshes in between.
abbrev pub AllSee : Text → (Event → Type 0) → (ℕ → Bool) → List Act → Type 0
AllSee key Fits up [] = Unit
AllSee key Fits up (syncs i ∷ acts) = AllSee key Fits (with_replica true i up) acts
AllSee key Fits up (calls i e ∷ acts) =
    ((text_eq (key_of e) key ≡ false) ⊎ (((up i || primes e) ≡ true) × Fits e))
    × AllSee key Fits (with_replica (primes e) i up) acts
