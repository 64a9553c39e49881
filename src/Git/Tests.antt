-- ===== src/Git/Tests.antt =====
-- The coordination of snapshots and the response spool on small inputs.
use cachew.Base.{
  ◌&&◌, ◌==◌, ℕ, ◌≤◌, ◌≡◌, refl, true, false, inl, inr, List, [], ◌∷◌, Text, codes, arith, some,
  ◌+◌, text_eq,
}
use cachew.Base.Assoc.{lookup}
use cachew.Git.Coordinator.{snapshot_gen_key, claim_with_ttl, complete_claim, fail}
use cachew.Git.Coordinator.Events.{Event, claims, completes_claim, fails, completes, skips, run}
use cachew.Git.Coordinator.Generations.{good, next_generation}
use cachew.Git.Coordinator.Replicas.{
  Replicas, Act, calls, syncs, primes, with_replica, seen, act, run_acts, none_wins,
}
use cachew.Git.Coordinator.Synced.{one_generation}
use cachew.Git.Spool.{
  Spool, Reader, new_response_spool, capture_header, write, mark_complete, new_reader, turn, done,
  is_nil,
}
use cachew.Git.Spool.Flow.{Flow}
use cachew.Git.Spool.Tee
use cachew.Git.Spool.Tee.{Tee, new_spool_tee_writer, Shares}
use cachew.Git.Spool.Shared.{shares_lem}
use cachew.Git.Spool.Ends.{whole_turn, serve_to, is_done, serve_to-ends}

abbrev me : Text
me = codes "a"

abbrev peer : Text
peer = codes "b"

abbrev job : Text
job = codes "snapshot"

abbrev url : Text
url = codes "https://example.com/r"

abbrev during : List Event
during =
    claims good 50 peer job url 100 0
    ∷ fails good job url peer
    ∷ claims good 60 peer (codes "mirror") url 100 0
    ∷ completes good 70 (codes "mirror") url (codes "c0")
    ∷ []

abbrev key : Text
key = snapshot_gen_key job url

is_claimed : (claim_with_ttl 1800 good 10 me job url 100 0 (some [])).1.held ≡ true
unfolding claim_with_ttl lookup
is_claimed = refl

-- Replicas that have all seen the store when it was empty
abbrev fresh_store : Replicas
fresh_store = record { shared = []; view = λ i. [] }

abbrev claimed_by_0 : Replicas
claimed_by_0 = act 1800 (calls 0 (claims good 10 me job url 100 0)) fresh_store

-- Replica 1 refreshes and claims; replica 2, which has not, fails to release the claim under another id
-- and claims another snapshot.
abbrev acts_during : List Act
acts_during =
    syncs 1
    ∷ calls 1 (claims good 50 peer job url 100 0)
    ∷ calls 2 (claims good 60 peer (codes "mirror") url 100 0)
    ∷ calls 2 (fails good job url peer)
    ∷ []

abbrev acts_later : List Act
acts_later =
    syncs 1
    ∷ calls 1 (claims good 300 peer job url 100 0)
    ∷ calls 1 (skips good 310 job url)
    ∷ calls 1 (claims good 340 peer job url 100 0)
    ∷ []

abbrev completes_0 : Event
completes_0 = completes_claim good 250 job url me (codes "c1")

one_generation_example :
    (none_wins 1800 key acts_during claimed_by_0 ≡ true)
    × ((complete_claim good 250 job url me
          (codes "c1")
          (some (seen 1800 0 completes_0 (run_acts 1800 acts_during claimed_by_0)))).1
        ≡ false)
    × (none_wins 1800 key acts_later
          (act 1800 (calls 0 completes_0) (run_acts 1800 acts_during claimed_by_0))
        ≡ true)
unfolding text_eq primes with_replica
one_generation_example =
    one_generation 1800 0 10 me job url 100 0 fresh_store is_claimed (omega arith) (omega arith)
      acts_during (inr (refl, omega arith), (inl refl, (inr (refl, refl), tt))) 250 (codes "c1")
      refl acts_later (omega arith)
      (inr (refl, omega arith), (inr (refl, tt), (inr (refl, omega arith), tt)))

next_generation_example :
    ((claim_with_ttl 1800 good 90 peer job url 100 0
        (fail good job url me
          (run 1800 during (claim_with_ttl 1800 good 10 me job url 100 0 (some [])).0)).0).1.held
      ≡ true)
    × (10 + 1800 ≤ 90
        → (claim_with_ttl 1800 good 90 peer job url 100 0
            (run 1800 during (claim_with_ttl 1800 good 10 me job url 100 0 (some [])).0)).1.held
          ≡ true)
unfolding text_eq
next_generation_example =
    next_generation 1800 10 me job url 100 0 [] is_claimed (omega arith) (omega arith) during
      (inr (omega arith), (inr refl, (inl refl, (inl refl, tt)))) 90 peer 100 0 refl (omega arith)
      (omega arith)

abbrev spool : Spool
spool = mark_complete false (write 10 (1 ∷ 2 ∷ 3 ∷ []) (capture_header 200 [] new_response_spool)).0

spooled : Flow spool new_reader
spooled = Flow.completes false (
    Flow.writes 10 (1 ∷ 2 ∷ 3 ∷ [])
      (Flow.captures 200 [] Flow.starts (unfold new_response_spool in refl) (omega arith)))

is_complete : spool.complete ≡ true
unfolding mark_complete write capture_header new_response_spool
is_complete = refl

has_header : ((spool.status == 0) && is_nil spool.errors) ≡ false
unfolding mark_complete write capture_header new_response_spool
has_header = refl

serve_to-ends_example :
    (is_done (serve_to (spool.written + 6) spool new_reader).phase ≡ true)
    × ((serve_to (spool.written + 6) spool new_reader).phase ≡ done []
        → (serve_to (spool.written + 6) spool new_reader).sent ≡ spool.file)
serve_to-ends_example = serve_to-ends spooled is_complete has_header

abbrev teed : Tee
teed = (Tee.write false 10 10 [] (1 ∷ 2 ∷ 3 ∷ []) (new_spool_tee_writer new_response_spool)).0

abbrev ended : Tee
ended = record teed { spool = mark_complete false teed.spool }

abbrev after : ℕ → Reader
after n = serve_to n ended.spool new_reader

has_ended : (after 4).phase ≡ done []
unfolding serve_to turn mark_complete Tee.write new_spool_tee_writer new_response_spool new_reader
    write capture_header
has_ended = refl

shares_lem_example :
    (ended.spool.complete ≡ true)
    × ((after 4).sent ≡ ended.spool.file)
    × ((after 4).status ≡ ended.client_status)
    × ((after 4).headers ≡ ended.spool.headers)
    × (ended.spool.errors ≡ [] → (after 4).sent ≡ ended.client_sent)
unfolding serve_to
shares_lem_example =
    shares_lem
      (Shares.turns whole_turn (
        Shares.turns whole_turn (
          Shares.turns whole_turn (
            Shares.turns whole_turn (
              Shares.completes false
                (Shares.writes false 10 10 [] (1 ∷ 2 ∷ 3 ∷ []) Shares.starts))))))
      has_ended
