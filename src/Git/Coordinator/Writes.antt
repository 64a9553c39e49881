-- ===== src/Git/Coordinator/Writes.antt =====
-- The calls of internal/strategy/git/snapshotcoord.go change a view exactly by the record that they write.
use cachew.Base.{ℕ, ◌≡◌, refl, Bool, ◌&&◌, some, Text, if◌then◌else◌, Bool-cases, inl, inr}
use cachew.Base.Assoc.{lookup, insert, lookup-insert_self}
use cachew.Client.Options.{is_blank}
use cachew.Git.Coordinator.{
  completed_record, skipped_record, released_record, claim_with_ttl, make_claim, declined, complete,
  skip, complete_claim, skip_claim, fail, change_owned, set_record, GenRecord, Gens, Coordinator,
  Calls, or_none, owns, in_progress, snapshot_gen_key,
}
use cachew.Git.Coordinator.Events.{
  Event, claims, completes_claim, skips_claim, fails, completes, skips, key_of, happen, wins,
  record_at,
}
use cachew.Git.Coordinator.Replicas.{changes, gens_of, writes_record}

-- What `writes_record` says of a call is what its operation does to the view.
abbrev Writes : Text → Bool → Gens → Coordinator → Type 0
Writes key w v after =
    gens_of after ≡ (if w then insert key (or_none (record_at key after)) v else v)

set-Writes :
    (c : Calls) (key : Text) (r : GenRecord) (v : Gens)
    → Writes key c.sets v (set_record c key r v).0
unfolding set_record record_at or_none
set-Writes c key r v = elim (Bool-cases c.sets) [
  | inl e ↦ rw (e, lookup-insert_self) refl
  | inr e ↦ rw e refl
]

owned-Writes :
    (c : Calls) (job url id : Text) (f : GenRecord → GenRecord) (v : Gens)
    → Writes
        (snapshot_gen_key job url)
        (c.flushes && (owns id (lookup (snapshot_gen_key job url) v) && c.sets))
        v
        (change_owned c job url id f v).0
unfolding change_owned
owned-Writes c job url id f v = elim (Bool-cases c.flushes) [
  | inr e ↦ rw e refl
  | inl e ↦ elim (Bool-cases (owns id (lookup (snapshot_gen_key job url) v))) [
    | inr q ↦ rw (e, q) refl
    | inl q ↦ rw (e, q) (set-Writes c (snapshot_gen_key job url) _ v)
  ]
]

module _ (ttl : ℕ) (v : Gens) where
  made-Writes :
      (c : Calls) (fresh key : Text) (r : GenRecord)
      → Writes key
          ((make_claim fresh (set_record c key r v)).1.held && c.sets)
          v
          (make_claim fresh (set_record c key r v)).0
  unfolding make_claim
  made-Writes c fresh key r = set-Writes c key r v

  claim-Writes :
      (c : Calls) (now : ℕ) (fresh job url : Text) (interval ttl' : ℕ)
      → Writes
          (snapshot_gen_key job url)
          ((claim_with_ttl ttl c now fresh job url interval ttl' (some v)).1.held && c.sets)
          v
          (claim_with_ttl ttl c now fresh job url interval ttl' (some v)).0
  unfolding claim_with_ttl
  claim-Writes c now fresh job url interval ttl' =
      elim (Bool-cases (declined (lookup (snapshot_gen_key job url) v) ttl now interval)) [
        | inl e ↦ rw e refl
        | inr e ↦ rw e (made-Writes c fresh (snapshot_gen_key job url) _)
      ]

  fail-Writes :
      (c : Calls) (job url id : Text)
      → Writes
          (snapshot_gen_key job url)
          (in_progress (lookup (snapshot_gen_key job url) v)
            && changes c id (snapshot_gen_key job url) v)
          v
          (fail c job url id (some v)).0
  unfolding fail
  fail-Writes c job url id = elim (Bool-cases (is_blank id)) [
    | inl e ↦ elim (Bool-cases (in_progress (lookup (snapshot_gen_key job url) v))) [
      | inl q ↦ rw (e, q) refl
      | inr q ↦ rw (e, q) refl
    ]
    | inr e ↦ elim (Bool-cases (in_progress (lookup (snapshot_gen_key job url) v))) [
      | inl q ↦ elim (Bool-cases c.flushes) [
        | inl z ↦ rw (e, q, z) (rw z at (owned-Writes c job url id released_record v))
        | inr z ↦ rw (e, q, z) (rw z at (owned-Writes c job url id released_record v))
      ]
      | inr q ↦ elim (Bool-cases c.flushes) [
        | inl z ↦ rw (e, q, z) refl
        | inr z ↦ unfold change_owned in rw (e, q, z) refl
      ]
    ]
  ]

  complete_claim-Writes :
      (c : Calls) (now : ℕ) (job url id commit : Text)
      → Writes
          (snapshot_gen_key job url)
          (changes c id (snapshot_gen_key job url) v)
          v
          (complete_claim c now job url id commit (some v)).0
  unfolding complete_claim
  complete_claim-Writes c now job url id commit = elim (Bool-cases (is_blank id)) [
    | inl e ↦ rw e refl
    | inr e ↦ rw e (owned-Writes c job url id (completed_record now commit) v)
  ]

  skip_claim-Writes :
      (c : Calls) (now : ℕ) (job url id : Text)
      → Writes
          (snapshot_gen_key job url)
          (changes c id (snapshot_gen_key job url) v)
          v
          (skip_claim c now job url id (some v)).0
  unfolding skip_claim
  skip_claim-Writes c now job url id = elim (Bool-cases (is_blank id)) [
    | inl e ↦ rw e refl
    | inr e ↦ rw e (owned-Writes c job url id (skipped_record now) v)
  ]

  -- A call changes the record of its key in the view exactly when it writes one.
  happen-Writes : (e : Event) → Writes (key_of e) (writes_record ttl e v) v (happen ttl e (some v))
  unfolding happen writes_record wins complete skip
  happen-Writes (claims c now fresh job url interval ttl') =
      claim-Writes c now fresh job url interval ttl'
  happen-Writes (completes_claim c now job url id commit) =
      complete_claim-Writes c now job url id commit
  happen-Writes (skips_claim c now job url id) = skip_claim-Writes c now job url id
  happen-Writes (fails c job url id) = fail-Writes c job url id
  happen-Writes (completes c now job url commit) = set-Writes c (snapshot_gen_key job url) _ v
  happen-Writes (skips c now job url) = set-Writes c (snapshot_gen_key job url) _ v
