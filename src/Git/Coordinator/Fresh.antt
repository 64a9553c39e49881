-- ===== src/Git/Coordinator/Fresh.antt =====
-- Which records suppress a claim, and until when: internal/strategy/git/snapshotcoord.go.
use cachew.Base.{ℕ, ◌+◌, ◌≤◌, ◌<◌, ◌≡◌, refl, ap, true, false, none, some, Text, arith}
use cachew.Base.Assoc.{lookup}
use cachew.Git.Coordinator.{
  GenRecord, Gens, Coordinator, is_fresh, claim_end, suppresses, claim_record, completed_record,
  skipped_record, released_record,
}
use cachew.Git.Coordinator.Events.{
  Event, claims, completes_claim, skips_claim, fails, completes, skips, key_of, wins, record_at,
  next, owned,
}
use cachew.Git.Coordinator.Records.{claim_declined}
use cachew.Git.Coordinator.Exclusive.{Rests}

-- A record stands in a map.
pub record_some :
    (key : Text) (c : Coordinator) (r : GenRecord)
    → record_at key c ≡ some r
    → (gens : Gens) × (c ≡ some gens) × (lookup key gens ≡ some r)
unfolding record_at
record_some key none r h = cc
record_some key (some gens) r h = (gens, refl, h)

-- A completion is fresh until its interval has passed.
unfoldable pub Done : ℕ → GenRecord → Type 0
Done since r = (0 < r.completed_at) × (since ≤ r.completed_at)

module _ (ttl since : ℕ) (r : GenRecord) where
  Done-suppresses :
      (now interval : ℕ)
      → Done since r
      → now < since + interval
      → suppresses ttl now interval r ≡ true
  unfolding Done suppresses is_fresh
  Done-suppresses now interval (p, q) h = ground arith

  pub Done-keeps :
      (e : Event) → 0 < since → Done since r → Rests since e → Done since (next ttl e r)
  unfolding Done next owned completed_record skipped_record released_record
  Done-keeps (claims calls now fresh job url interval ttl') z d w =
      rw (Done-suppresses now interval d w) d
  Done-keeps (completes_claim calls now job url id commit) z (p, q) w = ground arith
  Done-keeps (skips_claim calls now job url id) z (p, q) w = ground arith
  Done-keeps (fails calls job url id) z (p, q) w = ground arith
  Done-keeps (completes calls now job url commit) z (p, q) w = ground arith
  Done-keeps (skips calls now job url) z (p, q) w = ground arith

  pub Done-declines :
      (e : Event) (gens : Gens)
      → lookup (key_of e) gens ≡ some r
      → Done since r
      → Rests since e
      → wins ttl e (some gens) ≡ false
  unfolding wins
  Done-declines (claims calls now fresh job url interval ttl') gens found d w =
      ap (λ p. p.1.held)
        (claim_declined ttl calls now fresh job url interval ttl' gens r found
          (Done-suppresses now interval d w))
  Done-declines (completes_claim calls now job url other commit) gens found d w = refl
  Done-declines (skips_claim calls now job url other) gens found d w = refl
  Done-declines (fails calls job url other) gens found d w = refl
  Done-declines (completes calls now job url commit) gens found d w = refl
  Done-declines (skips calls now job url) gens found d w = refl

module _ (ttl now now' : ℕ) (id : Text) (claim_ttl interval interval' : ℕ) (r : GenRecord)
    (free : suppresses ttl now interval r ≡ false) (h : now ≤ now') (i : interval' ≤ interval) where
  pub released_ready :
      suppresses ttl now' interval' (released_record (claim_record now id claim_ttl r)) ≡ false
  unfolding suppresses is_fresh released_record claim_record
  released_ready = ground arith

  pub ended_ready :
      now + claim_ttl ≤ now'
      → 0 < now
      → suppresses ttl now' interval' (claim_record now id claim_ttl r) ≡ false
  unfolding suppresses is_fresh claim_record claim_end
  ended_ready past p = ground arith
