-- ===== src/Git/Coordinator/Records.antt =====
-- What the operations of a replica make of the record of a key: internal/strategy/git/snapshotcoord.go.
use cachew.Base.{
  ℕ, ◌≡◌, refl, ap, ◌∙◌, Bool, true, false, ◌&&◌, not, some, [], Text, ltb, ◌==◌, if◌then◌else◌,
  text_eq, text_eq_refl, Bool-cases, inl, inr, arith,
}
use cachew.Base.Assoc.{lookup, lookup-insert}
use cachew.Client.Options.{is_blank}
use cachew.Git.Coordinator.{
  GenRecord, Gens, Coordinator, Calls, or_none, snapshot_gen_key, set_record, suppresses,
  claim_record, claim_with_ttl, completed_record, skipped_record, released_record, complete, skip,
  owns, change_owned, complete_claim, skip_claim, fail, in_progress, make_claim, declined,
}
use cachew.Git.Coordinator.Events.{
  Event, claims, completes_claim, skips_claim, fails, completes, skips, key_of, record_at, happen,
  owned, next,
}

module _ (snapshot_claim_ttl : ℕ) where
  module _ (calls : Calls) (now : ℕ) (fresh job url : Text) (interval ttl : ℕ) (gens : Gens)
      (r : GenRecord) (h : lookup (snapshot_gen_key job url) gens ≡ some r) where
    pub claim_declined :
        suppresses snapshot_claim_ttl now interval r ≡ true
        → claim_with_ttl snapshot_claim_ttl calls now fresh job url interval ttl (some gens)
          ≡ (some gens, record { id = []; held = false; error = false })
    unfolding claim_with_ttl
    claim_declined e = rw (h, claim_with_ttl) (rw e refl)

    pub claim_held :
        suppresses snapshot_claim_ttl now interval r ≡ false
        → claim_with_ttl snapshot_claim_ttl calls now fresh job url interval ttl (some gens)
          ≡ make_claim fresh (
              set_record calls
                (snapshot_gen_key job url)
                (claim_record now fresh (if ttl == 0 then snapshot_claim_ttl else ttl) r)
                gens)
    unfolding claim_with_ttl
    claim_held e = rw (h, claim_with_ttl) (rw e refl)

  set-same :
      (calls : Calls) (key : Text) (r r' : GenRecord) (gens : Gens)
      → lookup key gens ≡ some r
      → record_at key (set_record calls key r' gens).0 ≡ some (if calls.sets then r' else r)
  unfolding set_record record_at
  set-same calls key r r' gens h = elim (Bool-cases calls.sets) [
    | inl e ↦ rw (e, lookup-insert, text_eq_refl key) refl
    | inr e ↦ rw e h
  ]

  set-other :
      (calls : Calls) (key other : Text) (r' : GenRecord) (gens : Gens)
      → text_eq key other ≡ false
      → record_at other (set_record calls key r' gens).0 ≡ lookup other gens
  unfolding set_record record_at
  set-other calls key other r' gens h = elim (Bool-cases calls.sets) [
    | inl e ↦ rw (e, lookup-insert, h) refl
    | inr e ↦ rw e refl
  ]

  make_claim-coordinator : (fresh : Text) (p : Coordinator × Bool) → (make_claim fresh p).0 ≡ p.0
  unfolding make_claim
  make_claim-coordinator fresh (c, e) = refl

  owned_off :
      (calls : Calls) (id : Text) (f : GenRecord → GenRecord) (r : GenRecord)
      → calls.flushes ≡ false
      → owned calls id f r ≡ r
  unfolding owned
  owned_off calls id f r e = rw e refl

  owned-same :
      (calls : Calls) (job url id : Text) (f : GenRecord → GenRecord) (gens : Gens) (r : GenRecord)
      → lookup (snapshot_gen_key job url) gens ≡ some r
      → record_at (snapshot_gen_key job url) (change_owned calls job url id f gens).0
        ≡ some (owned calls id f r)
  unfolding change_owned owned owns or_none
  owned-same calls job url id f gens r h = elim (Bool-cases calls.flushes) [
    | inr e ↦ rw e (unfold record_at in h)
    | inl e ↦
        rw (h, change_owned)
          (elim (Bool-cases (text_eq r.claim_id id)) [
            | inl q ↦ rw (e, q) (set-same calls _ r (f r) gens h)
            | inr q ↦ rw (e, q) (unfold record_at in h)
          ])
  ]

  owned_other :
      (calls : Calls) (job url id other : Text) (f : GenRecord → GenRecord) (gens : Gens)
      → text_eq (snapshot_gen_key job url) other ≡ false
      → record_at other (change_owned calls job url id f gens).0 ≡ lookup other gens
  unfolding change_owned
  owned_other calls job url id other f gens h = elim (Bool-cases calls.flushes) [
    | inr e ↦ rw e (unfold record_at in refl)
    | inl e ↦ elim (Bool-cases (owns id (lookup (snapshot_gen_key job url) gens))) [
      | inl q ↦ rw (e, q) (set-other calls _ other _ gens h)
      | inr q ↦ rw (e, q) (unfold record_at in refl)
    ]
  ]

  module _ (calls : Calls) (now : ℕ) (job url id commit : Text) (gens : Gens) where
    complete_claim-same :
        (r : GenRecord)
        → lookup (snapshot_gen_key job url) gens ≡ some r
        → record_at
            (snapshot_gen_key job url)
            (complete_claim calls now job url id commit (some gens)).0
          ≡ some (if is_blank id then r else owned calls id (completed_record now commit) r)
    unfolding complete_claim record_at
    complete_claim-same r h = elim (Bool-cases (is_blank id)) [
      | inl e ↦ rw e h
      | inr e ↦ rw e (owned-same calls job url id (completed_record now commit) gens r h)
    ]

    complete_claim_other :
        (other : Text)
        → text_eq (snapshot_gen_key job url) other ≡ false
        → record_at other (complete_claim calls now job url id commit (some gens)).0
          ≡ lookup other gens
    unfolding complete_claim record_at
    complete_claim_other other h = elim (Bool-cases (is_blank id)) [
      | inl e ↦ rw e refl
      | inr e ↦ rw e (owned_other calls job url id other (completed_record now commit) gens h)
    ]

  module _ (calls : Calls) (now : ℕ) (job url id : Text) (gens : Gens) where
    skip_claim-same :
        (r : GenRecord)
        → lookup (snapshot_gen_key job url) gens ≡ some r
        → record_at (snapshot_gen_key job url) (skip_claim calls now job url id (some gens)).0
          ≡ some (if is_blank id then r else owned calls id (skipped_record now) r)
    unfolding skip_claim record_at
    skip_claim-same r h = elim (Bool-cases (is_blank id)) [
      | inl e ↦ rw e h
      | inr e ↦ rw e (owned-same calls job url id (skipped_record now) gens r h)
    ]

    skip_claim_other :
        (other : Text)
        → text_eq (snapshot_gen_key job url) other ≡ false
        → record_at other (skip_claim calls now job url id (some gens)).0 ≡ lookup other gens
    unfolding skip_claim record_at
    skip_claim_other other h = elim (Bool-cases (is_blank id)) [
      | inl e ↦ rw e refl
      | inr e ↦ rw e (owned_other calls job url id other (skipped_record now) gens h)
    ]

  module _ (calls : Calls) (job url id : Text) (gens : Gens) where
    fail-same :
        (r : GenRecord)
        → lookup (snapshot_gen_key job url) gens ≡ some r
        → record_at (snapshot_gen_key job url) (fail calls job url id (some gens)).0
          ≡ some (
              if is_blank id
              then r
              else if ltb r.completed_at r.started_at
              then owned calls id released_record r
              else r)
    unfolding fail record_at
    fail-same r h =
        let going : in_progress (lookup (snapshot_gen_key job url) gens)
            ≡ ltb r.completed_at r.started_at =
          unfold in_progress in rw h refl in
        let same = owned-same calls job url id released_record gens r h in
        let key = snapshot_gen_key job url in
        elim (Bool-cases (is_blank id)) [
          | inl e ↦ rw e h
          | inr e ↦ elim (Bool-cases (calls.flushes && not (in_progress (lookup key gens)))) [
            | inl c ↦
                let q : ltb r.completed_at r.started_at ≡ false = ground arith in rw (e, c, q) h
            | inr c ↦ elim (Bool-cases (ltb r.completed_at r.started_at)) [
              | inl q ↦ rw (e, c, q) same
              | inr q ↦
                  rw (e, c, q)
                    (same ∙ ap some (owned_off calls id released_record r (ground arith)))
            ]
          ]
        ]

    fail_other :
        (other : Text)
        → text_eq (snapshot_gen_key job url) other ≡ false
        → record_at other (fail calls job url id (some gens)).0 ≡ lookup other gens
    unfolding fail record_at
    fail_other other h = elim (Bool-cases (is_blank id)) [
      | inl e ↦ rw e refl
      | inr e ↦
          elim (Bool-cases
            (calls.flushes && not (in_progress (lookup (snapshot_gen_key job url) gens)))) [
              | inl q ↦ rw (e, q) refl
              | inr q ↦ rw (e, q) (owned_other calls job url id other released_record gens h)
            ]
    ]

  claim-same :
      (calls : Calls) (now : ℕ) (fresh job url : Text) (interval ttl : ℕ) (gens : Gens)
      (r : GenRecord)
      → lookup (snapshot_gen_key job url) gens ≡ some r
      → record_at
          (snapshot_gen_key job url)
          (claim_with_ttl snapshot_claim_ttl calls now fresh job url interval ttl (some gens)).0
        ≡ some (next snapshot_claim_ttl (claims calls now fresh job url interval ttl) r)
  unfolding next
  claim-same calls now fresh job url interval ttl gens r h =
      elim (Bool-cases (suppresses snapshot_claim_ttl now interval r)) [
        | inl e ↦
            rw (claim_declined calls now fresh job url interval ttl gens r h e, e)
              (unfold record_at in h)
        | inr e ↦
            rw
              (
                claim_held calls now fresh job url interval ttl gens r h e,
                make_claim-coordinator,
                e,
              )
              (set-same calls _ r _ gens h)
      ]

  claim_other :
      (calls : Calls) (now : ℕ) (fresh job url : Text) (interval ttl : ℕ) (gens : Gens)
      (other : Text)
      → text_eq (snapshot_gen_key job url) other ≡ false
      → record_at other
          (claim_with_ttl snapshot_claim_ttl calls now fresh job url interval ttl (some gens)).0
        ≡ lookup other gens
  unfolding claim_with_ttl
  claim_other calls now fresh job url interval ttl gens other h =
      elim (Bool-cases
        (declined (lookup (snapshot_gen_key job url) gens) snapshot_claim_ttl now interval)) [
          | inl e ↦ rw e (unfold record_at in refl)
          | inr e ↦ rw (e, make_claim-coordinator) (set-other calls _ other _ gens h)
        ]

  complete-same :
      (calls : Calls) (now : ℕ) (job url commit : Text) (gens : Gens) (r : GenRecord)
      → lookup (snapshot_gen_key job url) gens ≡ some r
      → record_at (snapshot_gen_key job url) (complete calls now job url commit (some gens)).0
        ≡ some (if calls.sets then completed_record now commit r else r)
  unfolding complete or_none
  complete-same calls now job url commit gens r h =
      rw (h, complete) (set-same calls _ r (completed_record now commit r) gens h)

  skip-same :
      (calls : Calls) (now : ℕ) (job url : Text) (gens : Gens) (r : GenRecord)
      → lookup (snapshot_gen_key job url) gens ≡ some r
      → record_at (snapshot_gen_key job url) (skip calls now job url (some gens)).0
        ≡ some (if calls.sets then skipped_record now r else r)
  unfolding skip or_none
  skip-same calls now job url gens r h =
      rw (h, skip) (set-same calls _ r (skipped_record now r) gens h)

  -- An operation changes the record of its key as `next` says.
  pub happen-same :
      (e : Event) (gens : Gens) (r : GenRecord)
      → lookup (key_of e) gens ≡ some r
      → record_at (key_of e) (happen snapshot_claim_ttl e (some gens))
        ≡ some (next snapshot_claim_ttl e r)
  unfolding happen next
  happen-same (claims calls now fresh job url interval ttl) gens r h =
      claim-same calls now fresh job url interval ttl gens r h
  happen-same (completes_claim calls now job url id commit) gens r h =
      complete_claim-same calls now job url id commit gens r h
  happen-same (skips_claim calls now job url id) gens r h =
      skip_claim-same calls now job url id gens r h
  happen-same (fails calls job url id) gens r h = fail-same calls job url id gens r h
  happen-same (completes calls now job url commit) gens r h =
      complete-same calls now job url commit gens r h
  happen-same (skips calls now job url) gens r h = skip-same calls now job url gens r h

  -- The records of other keys are as before.
  pub happen-other :
      (e : Event) (other : Text) (gens : Gens)
      → text_eq (key_of e) other ≡ false
      → record_at other (happen snapshot_claim_ttl e (some gens)) ≡ lookup other gens
  unfolding happen
  happen-other (claims calls now fresh job url interval ttl) other gens h =
      claim_other calls now fresh job url interval ttl gens other h
  happen-other (completes_claim calls now job url id commit) other gens h =
      complete_claim_other calls now job url id commit gens other h
  happen-other (skips_claim calls now job url id) other gens h =
      skip_claim_other calls now job url id gens other h
  happen-other (fails calls job url id) other gens h = fail_other calls job url id gens other h
  happen-other (completes calls now job url commit) other gens h =
      unfold complete in set-other calls _ other _ gens h
  happen-other (skips calls now job url) other gens h =
      unfold skip in set-other calls _ other _ gens h
