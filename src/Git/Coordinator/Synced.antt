-- ===== src/Git/Coordinator/Synced.antt =====
-- One replica generates a snapshot at a time, as far as the replicas see the claim:
-- internal/strategy/git/snapshotcoord.go over a store that the replicas refresh from.
use cachew.Base.{
  ℕ, ◌+◌, ◌<◌, ◌≡◌, ◌==◌, refl, ap, ◌∙◌, true, false, some, List, Text, text_eq_refl, arith,
}
use cachew.Base.Assoc.{lookup}
use cachew.Client.Options.{is_blank}
use cachew.Git.Coordinator.{
  GenRecord, Gens, snapshot_gen_key, claim_with_ttl, claim_record, complete_claim, change_owned,
  set_record, completed_record, owns,
}
use cachew.Git.Coordinator.Events.{
  Event, claims, completes_claim, key_of, happen, wins, record_at, next,
}
use cachew.Git.Coordinator.Records.{happen-same}
use cachew.Git.Coordinator.Replicas.{
  Replicas, Act, calls, seen, act, run_acts, none_wins, AllSee, writes_record, primes,
}
use cachew.Git.Coordinator.Known.{acts-Known, writer-Known}
use cachew.Git.Coordinator.Exclusive.{Waits, Rests, IsHeld, held_keeps, held_declines}
use cachew.Git.Coordinator.Fresh.{Done, Done-keeps, Done-declines}
use cachew.Git.Coordinator.Generations.{good, ttl_of, new, claimed_lem, new-IsHeld, next-completed}

module _ (ttl i now : ℕ) (id job url : Text) (interval claim_ttl : ℕ) (s : Replicas) where
  abbrev name : Text
  name = snapshot_gen_key job url

  abbrev its_end : ℕ
  its_end = now + ttl_of ttl claim_ttl

  -- The claim, on the replica's view, and what it leaves
  abbrev claimed : Replicas
  claimed = act ttl (calls i (claims good now id job url interval claim_ttl)) s

  abbrev held : GenRecord
  held = new ttl now id job url interval claim_ttl (s.view i)

  module _
      (c : (claim_with_ttl ttl good now id job url interval claim_ttl (some (s.view i))).1.held
        ≡ true)
      (p : 0 < now) (q : 0 < interval) where
    held-IsHeld : IsHeld id its_end held
    held-IsHeld =
        new-IsHeld ttl now id job url interval claim_ttl (s.view i) p q
          (claimed_lem ttl now id job url interval claim_ttl (s.view i) c).0

    claim_writes :
        writes_record ttl
          (claims good now id job url interval claim_ttl)
          (seen ttl i (claims good now id job url interval claim_ttl) s)
        ≡ true
    unfolding writes_record seen primes wins
    claim_writes = rw c refl

    held_on :
        (acts : List Act)
        → AllSee name (Waits id its_end) (λ j. i == j) acts
        → (none_wins ttl name acts claimed ≡ true)
          × ((r : GenRecord) × (lookup name (run_acts ttl acts claimed).shared ≡ some r)
              × (r ≡ held))
    held_on acts see =
        let keeps = λ (e : Event) (r : GenRecord) (same : r ≡ held) (w : Waits id its_end e).
          ap (next ttl e) same ∙ held_keeps ttl id its_end held held-IsHeld e w in
        let declines =
          λ (e : Event) (gens : Gens) (r : GenRecord) (found : lookup (key_of e) gens ≡ some r)
              (same : r ≡ held) (w : Waits id its_end e).
            held_declines ttl id its_end held held-IsHeld e gens (found ∙ ap some same) w in
        acts-Known ttl name (λ r. r ≡ held) (Waits id its_end) keeps declines acts (λ j. i == j)
          claimed see
          (writer-Known ttl name (λ r. r ≡ held) (Waits id its_end) keeps declines i
            (claims good now id job url interval claim_ttl) s held refl claim_writes
            (unfold seen primes happen in
              (claimed_lem ttl now id job url interval claim_ttl (s.view i) c).1)
            refl)

    module _ (acts : List Act) (see : AllSee name (Waits id its_end) (λ j. i == j) acts) (since : ℕ)
        (commit : Text) (named : is_blank id ≡ false) where
      -- The state at the completion, and the completion
      abbrev before : Replicas
      before = run_acts ttl acts claimed

      abbrev completing : Event
      completing = completes_claim good since job url id commit

      seen_before : seen ttl i completing before ≡ before.shared
      unfolding seen primes
      seen_before = rw named refl

      found_before : lookup name (seen ttl i completing before) ≡ some held
      found_before =
          let (r, found, same) = (held_on acts see).1 in
          ap (lookup name) seen_before ∙ found ∙ ap some same

      completes_well :
          (complete_claim good since job url id commit (some (seen ttl i completing before))).1
          ≡ false
      unfolding complete_claim change_owned owns set_record claim_record
      completes_well = ground (arith, found_before, text_eq_refl id, named)

      completion_writes : writes_record ttl completing (seen ttl i completing before) ≡ true
      unfolding writes_record owns claim_record
      completion_writes = rw (named, found_before) (rw (text_eq_refl id) refl)

      completion_stands :
          record_at name (happen ttl completing (some (seen ttl i completing before)))
          ≡ some (completed_record since commit held)
      completion_stands =
          happen-same ttl completing (seen ttl i completing before) held found_before
          ∙ ap some
              (next-completed ttl now id job url interval claim_ttl (s.view i) since commit named)

      -- Replicas with a view each of a store that works, a call being one step on its replica's
      -- view: a replica's claim is held, at a positive time, for a positive interval and under an id
      -- that is not empty. Through any refreshes, any calls for other snapshots, and, by replicas
      -- that have refreshed since the claim or do so in the call, claims before its end and calls
      -- under other ids: every claim of the snapshot is declined. The holder's completion then
      -- reports no error; and claims less than their interval after it, by replicas that have
      -- refreshed since, are declined, through any such refreshes and calls that do not complete it
      -- at an earlier time. Nothing is said of claims by replicas that have not refreshed.
      pub one_generation :
          (later : List Act)
          → 0 < since
          → AllSee name (Rests since) (λ j. i == j) later
          → (none_wins ttl name acts claimed ≡ true)
            × ((complete_claim good since job url id commit (some (seen ttl i completing before))).1
                ≡ false)
            × (none_wins ttl name later (act ttl (calls i completing) before) ≡ true)
      one_generation later z rests =
          let keeps = λ (e : Event) (r : GenRecord) (d : Done since r) (w : Rests since e).
            Done-keeps ttl since r e z d w in
          let declines =
            λ (e : Event) (gens : Gens) (r : GenRecord) (found : lookup (key_of e) gens ≡ some r)
                (d : Done since r) (w : Rests since e).
              Done-declines ttl since r e gens found d w in
          let known =
            writer-Known ttl name (Done since) (Rests since) keeps declines i completing before
              (completed_record since commit held) refl completion_writes completion_stands
              (unfold Done completed_record in (z, omega arith)) in
          (
            (held_on acts see).0,
            completes_well,
            (acts-Known ttl name (Done since) (Rests since) keeps declines later (λ j. i == j)
                (act ttl (calls i completing) before) rests known).0,
          )
