-- ===== src/Git/Coordinator/Known.antt =====
-- What the replicas that have refreshed see of a record: internal/strategy/git/snapshotcoord.go.
use cachew.Base.{
  ℕ, ◌≡◌, refl, sym, ap, ◌∙◌, subst, Bool, true, false, ◌&&◌, ◌||◌, ◌==◌, ◌⊎◌, none, some, List, [],
  ◌∷◌, Text, if◌then◌else◌, text_eq, text_eq_iff, text_eq_refl, Bool-cases, inl, inr, arith,
}
use cachew.Base.Assoc.{lookup, insert, lookup-insert}
use cachew.Git.Coordinator.{GenRecord, Gens, Coordinator, or_none}
use cachew.Git.Coordinator.Events.{Event, key_of, happen, wins, record_at, next}
use cachew.Git.Coordinator.Records.{happen-same, happen-other}
use cachew.Git.Coordinator.Replicas.{
  Replicas, Act, calls, syncs, primes, gens_of, with_view, with_replica, writes_record, seen, act,
  run_acts, none_wins, AllSee,
}

module _ (ttl : ℕ) (key : Text) (P : GenRecord → Type 0) (Fits : Event → Type 0)
    (keeps : (e : Event) (r : GenRecord) → P r → Fits e → P (next ttl e r))
    (declines : (e : Event) (gens : Gens) (r : GenRecord)
      → lookup (key_of e) gens ≡ some r
      → P r
      → Fits e
      → wins ttl e (some gens) ≡ false) where
  -- The record of the key in a map has the predicate.
  abbrev Has : Gens → Type 0
  Has gens = (r : GenRecord) × (lookup key gens ≡ some r) × P r

  -- So it has in the store and in the views of the replicas that see it.
  pub record Known (up : ℕ → Bool) (s : Replicas) : Type 0 where
    pub stored : Has s.shared
    pub viewed : (i : ℕ) → up i ≡ true → Has (s.view i)

  lookup-gens_of : (c : Coordinator) → lookup key (gens_of c) ≡ record_at key c
  unfolding record_at lookup
  lookup-gens_of none = refl
  lookup-gens_of (some gens) = refl

  view-Has :
      (up : ℕ → Bool) (b : Bool) (i : ℕ) (v : Gens) (view : ℕ → Gens)
      → ((up i || b) ≡ true → Has v)
      → ((j : ℕ) → up j ≡ true → Has (view j))
      → (j : ℕ) → with_replica b i up j ≡ true
      → Has (with_view i v view j)
  view-Has up b i v view here there j h = elim (Bool-cases (i == j)) [
    | inl e ↦
        let same : i ≡ j = ground (arith, e) in
        let sees : (up i || b) ≡ true =
          unfold with_replica in
          subst (λ (k : ℕ). (up k || b) ≡ true) (sym same) (ground (arith, h, e)) in
        unfold with_view in rw e (here sees)
    | inr e ↦ unfold with_view with_replica in rw e (there j (ground (arith, h, e)))
  ]

  seen-Has :
      (up : ℕ → Bool) (s : Replicas) (i : ℕ) (e : Event)
      → Known up s
      → (up i || primes e) ≡ true
      → Has (seen ttl i e s)
  unfolding seen
  seen-Has up s i e k h = elim (Bool-cases (primes e)) [
    | inl q ↦ rw q k.stored
    | inr q ↦ rw q (k.viewed i (ground (arith, h, q)))
  ]

  -- A call that fits keeps the predicate, and one about another key keeps the record.
  happen-Has :
      (e : Event) (v : Gens)
      → (text_eq (key_of e) key ≡ false) ⊎ Fits e
      → Has v
      → Has (gens_of (happen ttl e (some v)))
  happen-Has e v (inl other) (r, h, p) =
      (r, lookup-gens_of (happen ttl e (some v)) ∙ happen-other ttl e key v other ∙ h, p)
  happen-Has e v (inr fits) (r, h, p) = elim (Bool-cases (text_eq (key_of e) key)) [
    | inr other ↦
        (r, lookup-gens_of (happen ttl e (some v)) ∙ happen-other ttl e key v other ∙ h, p)
    | inl same ↦
        let k = (text_eq_iff (key_of e) key).0 same in
        let found : lookup (key_of e) v ≡ some r = rw k h in
        (
          next ttl e r,
          lookup-gens_of (happen ttl e (some v))
              ∙ ap (λ (j : Text). record_at j (happen ttl e (some v))) (sym k)
              ∙ happen-same ttl e v r found,
          keeps e r p fits,
        )
  ]

  -- What a call publishes has the predicate.
  publish-Has :
      (e : Event) (v shared : Gens)
      → (text_eq (key_of e) key ≡ false) ⊎ (Has v × Fits e)
      → Has shared
      → Has (
          if writes_record ttl e v
          then insert (key_of e) (or_none (record_at (key_of e) (happen ttl e (some v)))) shared
          else shared)
  publish-Has e v shared fits k = elim (Bool-cases (writes_record ttl e v)) [
    | inr q ↦ rw q k
    | inl q ↦ elim (Bool-cases (text_eq (key_of e) key)) [
      | inr other ↦ let (r, h, p) = k in rw (q, lookup-insert, other) (r, h, p)
      | inl same ↦ elim fits [
        | inl other ↦ absurd (ground (arith, other, same))
        | inr ((r, h, p), f) ↦
            let j = (text_eq_iff (key_of e) key).0 same in
            let found : lookup (key_of e) v ≡ some r = rw j h in
            rw (q, lookup-insert, same, happen-same ttl e v r found)
              (next ttl e r, unfold or_none in refl, keeps e r p f)
      ]
    ]
  ]

  act-Known :
      (i : ℕ) (e : Event) (up : ℕ → Bool) (s : Replicas)
      → (text_eq (key_of e) key ≡ false) ⊎ (((up i || primes e) ≡ true) × Fits e)
      → Known up s
      → Known (with_replica (primes e) i up) (act ttl (calls i e) s)
  unfolding act
  act-Known i e up s (inl other) k = record {
    stored = publish-Has e (seen ttl i e s) s.shared (inl other) k.stored;
    viewed =
        view-Has up (primes e) i _ s.view
          (λ h. happen-Has e (seen ttl i e s) (inl other) (seen-Has up s i e k h)) k.viewed;
  }
  act-Known i e up s (inr (sees, fits)) k =
      let has = seen-Has up s i e k sees in
      record {
        stored = publish-Has e (seen ttl i e s) s.shared (inr (has, fits)) k.stored;
        viewed =
            view-Has up (primes e) i _ s.view (λ h. happen-Has e (seen ttl i e s) (inr fits) has)
              k.viewed;
      }

  call_loses :
      (i : ℕ) (e : Event) (up : ℕ → Bool) (s : Replicas)
      → (text_eq (key_of e) key ≡ false) ⊎ (((up i || primes e) ≡ true) × Fits e)
      → Known up s
      → (text_eq (key_of e) key && wins ttl e (some (seen ttl i e s))) ≡ false
  call_loses i e up s (inl other) k = rw other refl
  call_loses i e up s (inr (sees, fits)) k = elim (Bool-cases (text_eq (key_of e) key)) [
    | inr other ↦ rw other refl
    | inl same ↦
        let (r, h, p) = seen-Has up s i e k sees in
        let j = (text_eq_iff (key_of e) key).0 same in
        rw (same, declines e (seen ttl i e s) r (rw j h) p fits) refl
  ]

  sync-Known :
      (i : ℕ) (up : ℕ → Bool) (s : Replicas)
      → Known up s
      → Known (with_replica true i up) (act ttl (syncs i) s)
  unfolding act
  sync-Known i up s k = record {
    stored = k.stored;
    viewed = view-Has up true i s.shared s.view (λ h. k.stored) k.viewed;
  }

  pub acts-Known :
      (acts : List Act) (up : ℕ → Bool) (s : Replicas)
      → AllSee key Fits up acts
      → Known up s
      → (none_wins ttl key acts s ≡ true) × Has (run_acts ttl acts s).shared
  unfolding none_wins run_acts
  acts-Known [] up s a k = (refl, k.stored)
  acts-Known (syncs i ∷ acts) up s a k =
      acts-Known acts (with_replica true i up) (act ttl (syncs i) s) a (sync-Known i up s k)
  acts-Known (calls i e ∷ acts) up s (a, more) k =
      let (lost, has) =
        acts-Known acts (with_replica (primes e) i up) (act ttl (calls i e) s) more
          (act-Known i e up s a k) in
      (rw (call_loses i e up s a k, lost) refl, has)

  -- The replica that writes the record sees it.
  pub writer-Known :
      (i : ℕ) (e : Event) (s : Replicas) (r : GenRecord)
      → key_of e ≡ key
      → writes_record ttl e (seen ttl i e s) ≡ true
      → record_at key (happen ttl e (some (seen ttl i e s))) ≡ some r
      → P r
      → Known (λ j. i == j) (act ttl (calls i e) s)
  unfolding act
  writer-Known i e s r same q found p = record {
    stored = rw (q, same, found, lookup-insert, text_eq_refl key) (r, unfold or_none in refl, p);
    viewed = λ j h.
        unfold with_view in
        rw h (r, lookup-gens_of (happen ttl e (some (seen ttl i e s))) ∙ found, p);
  }
