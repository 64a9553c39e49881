-- ===== src/Git/Coordinator/Exclusive.antt =====
-- Who holds a claim, until when, and when the next is given.
use cachew.Base.{
  ℕ, ◌+◌, ◌≤◌, ◌<◌, ◌≡◌, refl, sym, ap, ◌∙◌, true, false, ◌&&◌, ◌⊎◌, none, some, List, [], ◌∷◌, All,
  Text, text_eq, text_eq_iff, Bool-cases, inl, inr, arith,
}
use cachew.Base.Assoc.{lookup}
use cachew.Git.Coordinator.{GenRecord, Gens, Coordinator, suppresses}
use cachew.Git.Coordinator.Events.{
  Event, claims, completes_claim, skips_claim, fails, completes, skips, key_of, happen, wins, run,
  all_declined, record_at, next, owned,
}
use cachew.Git.Coordinator.Records.{happen-same, happen-other, claim_declined}

-- A predicate of the record of a key that every fitting operation keeps, and by which claims are
-- declined.
module _ (ttl : ℕ) (key : Text) (P : GenRecord → Type 0) (Fits : Event → Type 0)
    (keeps : (e : Event) (r : GenRecord) → P r → Fits e → P (next ttl e r))
    (declines : (e : Event) (gens : Gens) (r : GenRecord)
      → lookup (key_of e) gens ≡ some r
      → P r
      → Fits e
      → wins ttl e (some gens) ≡ false) where
  abbrev FitsAt : Event → Type 0
  FitsAt e = (text_eq (key_of e) key ≡ false) ⊎ Fits e

  happen_keeps :
      (e : Event) (gens : Gens) (r : GenRecord)
      → lookup key gens ≡ some r
      → P r
      → FitsAt e
      → ((text_eq (key_of e) key && wins ttl e (some gens)) ≡ false)
        × ((r' : GenRecord) × (record_at key (happen ttl e (some gens)) ≡ some r') × P r')
  happen_keeps e gens r h p (inl other) =
      (rw other refl, (r, happen-other ttl e key gens other ∙ h, p))
  happen_keeps e gens r h p (inr fits) = elim (Bool-cases (text_eq (key_of e) key)) [
    | inr other ↦ (rw other refl, (r, happen-other ttl e key gens other ∙ h, p))
    | inl same ↦
        let k = (text_eq_iff (key_of e) key).0 same in
        let h' : lookup (key_of e) gens ≡ some r = rw k h in
        (
          rw (same, declines e gens r h' p fits) refl,
          (
            next ttl e r,
            ap (λ (j : Text). record_at j (happen ttl e (some gens))) (sym k)
                ∙ happen-same ttl e gens r h',
            keeps e r p fits,
          ),
        )
  ]

  pub run_keeps :
      (es : List Event) (c : Coordinator) (r : GenRecord)
      → record_at key c ≡ some r
      → P r
      → All FitsAt es
      → (all_declined ttl key es c ≡ true)
        × ((r' : GenRecord) × (record_at key (run ttl es c) ≡ some r') × P r')
  unfolding all_declined run
  run_keeps [] c r h p f = (refl, (r, h, p))
  run_keeps (e ∷ es) none r h p f = unfold record_at in cc
  run_keeps (e ∷ es) (some gens) r h p (f, fs) =
      let (lost, (r', h', p')) = happen_keeps e gens r (unfold record_at in h) p f in
      let (rest, last) = run_keeps es (happen ttl e (some gens)) r' h' p' fs in
      (rw (lost, rest) refl, last)

-- While a claim is held: claims come before its end, the claims that others complete, skip or release
-- are their own, and nobody completes or skips without a claim.
abbrev pub Waits : Text → ℕ → Event → Type 0
Waits id end (claims calls now fresh job url interval ttl) = now < end
Waits id end (completes_claim calls now job url other commit) = text_eq id other ≡ false
Waits id end (skips_claim calls now job url other) = text_eq id other ≡ false
Waits id end (fails calls job url other) = text_eq id other ≡ false
Waits id end (completes calls now job url commit) = ⊥
Waits id end (skips calls now job url) = ⊥

-- After a completion at `since`: claims come within their interval of it, and clocks go on.
abbrev pub Rests : ℕ → Event → Type 0
Rests since (claims calls now fresh job url interval ttl) = now < since + interval
Rests since (completes_claim calls now job url id commit) = since ≤ now
Rests since (skips_claim calls now job url id) = Unit
Rests since (fails calls job url id) = Unit
Rests since (completes calls now job url commit) = since ≤ now
Rests since (skips calls now job url) = Unit

abbrev pub At : Text → (Event → Type 0) → Event → Type 0
At key Fits e = (text_eq (key_of e) key ≡ false) ⊎ Fits e

-- A record of a claim that is held until `end`.
pub record IsHeld (id : Text) (end : ℕ) (r : GenRecord) : Type 0 where
  pub holder : r.claim_id ≡ id
  pub until : r.claim_expires_at ≡ end
  pub going : r.completed_at < r.started_at
  pub timed : 0 < end

module _ (ttl : ℕ) (id : Text) (end : ℕ) (r : GenRecord) (h : IsHeld id end r) where
  pub held_suppresses : (now interval : ℕ) → now < end → suppresses ttl now interval r ≡ true
  unfolding suppresses
  held_suppresses now interval before =
      let a = h.until in let b = h.going in let c = h.timed in ground arith

  pub held_keeps : (e : Event) → Waits id end e → next ttl e r ≡ r
  unfolding next owned
  held_keeps (claims calls now fresh job url interval ttl') w =
      rw (held_suppresses now interval w) refl
  held_keeps (completes_claim calls now job url other commit) w = let a = h.holder in ground arith
  held_keeps (skips_claim calls now job url other) w = let a = h.holder in ground arith
  held_keeps (fails calls job url other) w = let a = h.holder in ground arith
  held_keeps (completes calls now job url commit) w = absurd w
  held_keeps (skips calls now job url) w = absurd w

  pub held_declines :
      (e : Event) (gens : Gens)
      → lookup (key_of e) gens ≡ some r
      → Waits id end e
      → wins ttl e (some gens) ≡ false
  unfolding wins
  held_declines (claims calls now fresh job url interval ttl') gens found w =
      ap (λ p. p.1.held)
        (claim_declined ttl calls now fresh job url interval ttl' gens r found
          (held_suppresses now interval w))
  held_declines (completes_claim calls now job url other commit) gens found w = refl
  held_declines (skips_claim calls now job url other) gens found w = refl
  held_declines (fails calls job url other) gens found w = refl
  held_declines (completes calls now job url commit) gens found w = refl
  held_declines (skips calls now job url) gens found w = refl
