-- ===== src/Git/Coordinator/Generations.antt =====
-- What a claim that is held leaves on a view, and when the next is held: internal/strategy/git/snapshotcoord.go.
use cachew.Base.{
  ℕ, ◌+◌, ◌≤◌, ◌<◌, ◌≡◌, refl, sym, ap, ◌∙◌, true, false, Option, none, some, List, [], All, Text,
  ◌==◌, if◌then◌else◌, text_eq_refl, Bool-cases, inl, inr, arith,
}
use cachew.Base.Assoc.{lookup, insert, lookup-insert_self}
use cachew.Client.Options.{is_blank}
use cachew.Git.Coordinator.{
  GenRecord, Gens, Coordinator, Calls, or_none, snapshot_gen_key, set_record, is_fresh, claim_end,
  suppresses, claim_record, claim_with_ttl, completed_record, released_record, fail, make_claim,
  declined,
}
use cachew.Git.Coordinator.Events.{
  Event, completes_claim, fails, happen, run, all_declined, record_at, next, owned,
}
use cachew.Git.Coordinator.Records.{happen-same}
use cachew.Git.Coordinator.Exclusive.{run_keeps, Waits, At, IsHeld, held_keeps, held_declines}
use cachew.Git.Coordinator.Fresh.{record_some, released_ready, ended_ready}

abbrev pub good : Calls
good = record { flushes = true; sets = true }

abbrev pub ttl_of : ℕ → ℕ → ℕ
ttl_of ttl claim_ttl = if claim_ttl == 0 then ttl else claim_ttl

declined-or_none :
    (ttl now interval : ℕ) (o : Option GenRecord)
    → declined o ttl now interval ≡ suppresses ttl now interval (or_none o)
unfolding declined or_none suppresses is_fresh claim_end
declined-or_none ttl now interval none = refl
declined-or_none ttl now interval (some r) = refl

module _ (ttl now : ℕ) (id job url : Text) (interval claim_ttl : ℕ) (gens : Gens) where
  abbrev found_at : Option GenRecord
  found_at = lookup (snapshot_gen_key job url) gens

  claim_is : claim_with_ttl ttl good now id job url interval claim_ttl (some gens) ≡ (
      if declined found_at ttl now interval
      then (some gens, record { id = []; held = false; error = false })
      else (
        some (
            insert
              (snapshot_gen_key job url)
              (claim_record now id (ttl_of ttl claim_ttl) (or_none found_at))
              gens),
        record { id = id; held = true; error = false },
      ))
  unfolding claim_with_ttl make_claim set_record
  claim_is = refl

  -- Nothing declines a claim whose record does not.
  claim_wins :
      suppresses ttl now interval (or_none found_at) ≡ false
      → (claim_with_ttl ttl good now id job url interval claim_ttl (some gens)).1.held ≡ true
  claim_wins q = ap (λ p. p.1.held) (rw (declined-or_none ttl now interval found_at, q) at claim_is)

module _ (ttl now : ℕ) (id job url : Text) (interval claim_ttl : ℕ) (gens : Gens) where
  abbrev pub key : Text
  key = snapshot_gen_key job url

  abbrev old : GenRecord
  old = or_none (lookup key gens)

  abbrev pub new : GenRecord
  new = claim_record now id (ttl_of ttl claim_ttl) old

  abbrev claimed : Coordinator
  claimed = (claim_with_ttl ttl good now id job url interval claim_ttl (some gens)).0

  abbrev IsClaimed : Type 0
  IsClaimed = (claim_with_ttl ttl good now id job url interval claim_ttl (some gens)).1.held ≡ true

  -- A claim that is held had no reason to decline, and its record stands.
  pub claimed_lem :
      IsClaimed → (suppresses ttl now interval old ≡ false) × (record_at key claimed ≡ some new)
  claimed_lem c = elim (Bool-cases (declined (lookup key gens) ttl now interval)) [
    | inl e ↦
        cc (ap (λ p. p.1.held) (rw e at (claim_is ttl now id job url interval claim_ttl gens)), c)
    | inr e ↦
        let held = rw e at (claim_is ttl now id job url interval claim_ttl gens) in
        (
          sym (declined-or_none ttl now interval (lookup key gens)) ∙ e,
          ap (λ p. record_at key p.0) held ∙ (unfold record_at in lookup-insert_self key new gens),
        )
  ]

  pub new-IsHeld :
      0 < now
      → 0 < interval
      → suppresses ttl now interval old ≡ false
      → IsHeld id (now + ttl_of ttl claim_ttl) new
  unfolding claim_record suppresses is_fresh
  new-IsHeld p q free = record {
    holder = refl;
    until = refl;
    going = ground arith;
    timed = omega (arith, p);
  }

  pub next-completed :
      (since : ℕ) (commit : Text)
      → is_blank id ≡ false
      → next ttl (completes_claim good since job url id commit) new
        ≡ completed_record since commit new
  unfolding next owned claim_record
  next-completed since commit named = rw (named, text_eq_refl id) refl

  next-released :
      is_blank id ≡ false
      → new.completed_at < new.started_at
      → next ttl (fails good job url id) new ≡ released_record new
  unfolding next owned claim_record
  next-released named going = rw (named, text_eq_refl id) (ground arith)

  module _ (c : IsClaimed) (p : 0 < now) (q : 0 < interval) (es : List Event)
      (waits : All (At key (Waits id (now + ttl_of ttl claim_ttl))) es) where
    abbrev free : suppresses ttl now interval old ≡ false
    free = (claimed_lem c).0

    held_through :
        (all_declined ttl key es claimed ≡ true) × (record_at key (run ttl es claimed) ≡ some new)
    held_through =
        let held = new-IsHeld p q free in
        let end = now + ttl_of ttl claim_ttl in
        let (lost, (r, found, same)) =
          run_keeps ttl key (λ r. r ≡ new) (Waits id end)
            (λ e r same w. ap (next ttl e) same ∙ held_keeps ttl id end new held e w)
            (λ e gens' r found same w.
              held_declines ttl id end new held e gens' (found ∙ ap some same) w)
            es claimed new (claimed_lem c).1 refl waits in
        (lost, found ∙ ap some same)

    abbrev after : Coordinator
    after = run ttl es claimed

    abbrev ClaimsAgain : Coordinator → ℕ → Text → ℕ → ℕ → Type 0
    ClaimsAgain c' now' id' interval' ttl' =
        (claim_with_ttl ttl good now' id' job url interval' ttl' c').1.held ≡ true

    again :
        (c' : Coordinator) (r : GenRecord) (now' : ℕ) (id' : Text) (interval' ttl' : ℕ)
        → record_at key c' ≡ some r
        → suppresses ttl now' interval' r ≡ false
        → ClaimsAgain c' now' id' interval' ttl'
    again c' r now' id' interval' ttl' found ready =
        let (gens', is_some, h) = record_some key c' r found in
        rw is_some
          (claim_wins ttl now' id' job url interval' ttl' gens' (rw h (unfold or_none in ready)))

    -- For replicas that share one view: after a claim that is held, at a positive time, for a
    -- positive interval and under an id that is not empty, in a working store, and any calls for
    -- other snapshots, claims of this one before the claim's end, and calls under other ids, once
    -- its holder has released it, or once it has ended, the next claim, at a time no earlier and
    -- for an interval no longer than those of the first, is held.
    pub next_generation :
        (now' : ℕ) (id' : Text) (interval' ttl' : ℕ)
        → is_blank id ≡ false
        → now ≤ now'
        → interval' ≤ interval
        → ClaimsAgain (fail good job url id after).0 now' id' interval' ttl'
          × (now + ttl_of ttl claim_ttl ≤ now' → ClaimsAgain after now' id' interval' ttl')
    next_generation now' id' interval' ttl' named h i =
        let (gens', is_some, found) = record_some key after new held_through.1 in
        let held = new-IsHeld p q free in
        let same : record_at key (fail good job url id (some gens')).0
            ≡ some (next ttl (fails good job url id) new) =
          unfold happen in happen-same ttl (fails good job url id) gens' new found in
        let moved : record_at key (fail good job url id after).0 ≡ some (released_record new) =
          rw is_some (same ∙ ap some (next-released named held.going)) in
        (
          again (fail good job url id after).0 (released_record new) now' id' interval' ttl' moved (
              released_ready ttl now now' id (ttl_of ttl claim_ttl) interval interval' old free h
                i),
          λ past. again after new now' id' interval' ttl' held_through.1 (
              ended_ready ttl now now' id (ttl_of ttl claim_ttl) interval interval' old free h i
                past p),
        )
