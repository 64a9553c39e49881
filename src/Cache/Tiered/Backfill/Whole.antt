-- ===== src/Cache/Tiered/Backfill/Whole.antt =====
-- What a backfill keeps in the cache that it fills.
use cachew.Base.{
  ℕ, ◌+◌, ◌<◌, ◌≤◌, ◌≡◌, ◌≢◌, refl, sym, ap, ◌∙◌, subst, Bool, true, false, ◌||◌, none, some, List,
  [], ◌∷◌, ◌++◌, length, ltb, append_assoc, append-nil, arith, Bool-cases, inl, inr,
}
use mathlib.Core.Bool.{false≢true}
use cachew.Base.Arrays.{values, values-append}
use cachew.Cache.Tiered.Backfill.{
  Backfill, backfill_buf_size, send, write_chunk, close_destination, Flow, starts, reads,
  reaches_end, cancels, closes, receives, finishes,
}

closed_send : (b : Backfill) (chunk : List ℕ) → b.closed ≡ true → send b chunk ≡ b
unfolding send
closed_send b chunk c = ground (arith, c)

room_send :
    (b : Backfill) (chunk : List ℕ)
    → b.closed ≡ false
    → ltb (length b.channel) backfill_buf_size ≡ true
    → send b chunk ≡ record b { channel = b.channel ++ chunk ∷ [] }
unfolding send
room_send b chunk c room = ground (arith, c, room)

full_send :
    (b : Backfill) (chunk : List ℕ)
    → b.closed ≡ false
    → ltb (length b.channel) backfill_buf_size ≡ false
    → send b chunk ≡ record b { closed = true; overflowed = true }
unfolding send
full_send b chunk c full = ground (arith, c, full)

no_chunk : (chunk : List ℕ) (rest : List (List ℕ)) → chunk ∷ rest ≡ [] → ⊥
no_chunk chunk rest e = cc

skip_chunk :
    (b : Backfill) (chunk : List ℕ) (fails : Bool) → b.failed ≡ true → write_chunk b chunk fails ≡ b
unfolding write_chunk
skip_chunk b chunk fails f = ground (arith, f)

fail_chunk :
    (b : Backfill) (chunk : List ℕ) (fails : Bool)
    → b.failed ≡ false
    → fails ≡ true
    → write_chunk b chunk fails ≡ record b { failed = true; cancelled = true }
unfolding write_chunk
fail_chunk b chunk fails f g = ground (arith, f, g)

copy_chunk :
    (b : Backfill) (chunk : List ℕ) (fails : Bool)
    → b.failed ≡ false
    → fails ≡ false
    → write_chunk b chunk fails ≡ record b { written = b.written ++ chunk }
unfolding write_chunk
copy_chunk b chunk fails f g = ground (arith, f, g)

concat : List (List ℕ) → List ℕ
concat [] = []
concat (c ∷ cs) = c ++ concat cs

concat-append : (cs : List (List ℕ)) (c : List ℕ) → concat (cs ++ c ∷ []) ≡ concat cs ++ c
unfolding concat
concat-append [] c = append-nil c
concat-append (d ∷ cs) c =
    ap (λ l. d ++ l) (concat-append cs c) ∙ sym (append_assoc d (concat cs) c)

module _ (content : ℕ → ℕ) (total : ℕ) where
  record IsWhole (b : Backfill) (off : ℕ) : Type 0 where
    aborts : b.failed ≡ true → b.cancelled ≡ true
    ended : b.closed ≡ true → b.overflowed ≡ false → (b.eof || b.cancelled) ≡ true
    copied :
        b.cancelled ≡ false
        → b.overflowed ≡ false
        → b.written ++ concat b.channel ≡ values content 0 off
    reached : b.eof ≡ true → off ≡ total
    drained : b.committed ≢ none → (b.closed ≡ true) × (b.channel ≡ [])
    kept : b.committed ≡ some true → b.overflowed ≡ false → b.written ≡ values content 0 total

  sent :
      (b : Backfill) (off n : ℕ)
      → b.written ++ concat b.channel ≡ values content 0 off
      → b.written ++ concat (b.channel ++ values content off n ∷ []) ≡ values content 0 (off + n)
  sent b off n e =
      let same : 0 + off ≡ off = omega arith in
      ap (λ l. b.written ++ l) (concat-append b.channel (values content off n))
      ∙ sym (append_assoc b.written (concat b.channel) (values content off n))
      ∙ ap (λ l. l ++ values content off n) e
      ∙ ap (λ k. values content 0 off ++ values content k n) (sym same)
      ∙ sym (values-append content 0 off n)

  -- A read of an object that has not ended finds the channel open, unless the copy has been given up.
  still_open :
      (b : Backfill) (off n : ℕ)
      → IsWhole b off
      → 0 < n
      → off + n ≤ total
      → b.closed ≡ true
      → b.cancelled ≡ false
      → b.overflowed ≡ false
      → ⊥
  still_open b off n h pos inside c live small =
      let eof : b.eof ≡ true = ground (arith, h.ended c small, live) in
      omega (arith, h.reached eof, pos, inside)

  not_eof : (b : Backfill) (off n : ℕ) → IsWhole b off → 0 < n → off + n ≤ total → b.eof ≡ true → ⊥
  not_eof b off n h pos inside e = omega (arith, h.reached e, pos, inside)

  send-IsWhole :
      (b : Backfill) (off n : ℕ)
      → IsWhole b off
      → 0 < n
      → off + n ≤ total
      → IsWhole (send b (values content off n)) (off + n)
  unfolding send
  send-IsWhole b off n h pos inside = elim (Bool-cases b.closed) [
    | inl c ↦
        subst (λ s. IsWhole s (off + n)) (sym (closed_send b (values content off n) c))
          (record {
            aborts = h.aborts;
            ended = h.ended;
            copied = λ live small. absurd (still_open b off n h pos inside c live small);
            reached = λ e. absurd (not_eof b off n h pos inside e);
            drained = h.drained;
            kept = h.kept;
          })
    | inr o ↦
        let unclosed = λ (k : b.committed ≢ none). false≢true (sym o ∙ (h.drained k).0) in
        let undecided = λ (k : b.committed ≡ some true). unclosed (λ e. cc) in
        elim (Bool-cases (ltb (length b.channel) backfill_buf_size)) [
          | inl room ↦
              subst (λ s. IsWhole s (off + n)) (sym (room_send b (values content off n) o room))
                (record {
                  aborts = h.aborts;
                  ended = h.ended;
                  copied = λ live small. sent b off n (h.copied live small);
                  reached = λ e. absurd (not_eof b off n h pos inside e);
                  drained = λ k. absurd (unclosed k);
                  kept = λ k small. absurd (undecided k);
                })
          | inr full ↦
              subst (λ s. IsWhole s (off + n)) (sym (full_send b (values content off n) o full))
                (record {
                  aborts = h.aborts;
                  ended = λ c small. absurd (false≢true (sym small));
                  copied = λ live small. absurd (false≢true (sym small));
                  reached = λ e. absurd (not_eof b off n h pos inside e);
                  drained = λ k. absurd (unclosed k);
                  kept = λ k small. absurd (undecided k);
                })
        ]
  ]

  cancel-IsWhole :
      (b : Backfill) (off : ℕ) → IsWhole b off → IsWhole (record b { cancelled = true }) off
  cancel-IsWhole b off h = record {
    aborts = λ f. refl;
    ended = λ c small. ground arith;
    copied = λ live small. absurd (false≢true (sym live));
    reached = h.reached;
    drained = h.drained;
    kept = h.kept;
  }

  write_chunk-IsWhole :
      (b : Backfill) (off : ℕ) (chunk : List ℕ) (rest : List (List ℕ)) (fails : Bool)
      → IsWhole b off
      → b.channel ≡ chunk ∷ rest
      → IsWhole (write_chunk (record b { channel = rest }) chunk fails) off
  unfolding concat
  write_chunk-IsWhole b off chunk rest fails h e =
      let unfinished = λ (k : b.committed ≢ none). no_chunk chunk rest (sym e ∙ (h.drained k).1) in
      let undecided = λ (k : b.committed ≡ some true). unfinished (λ e'. cc) in
      let received = record b { channel = rest } in
      elim (Bool-cases b.failed) [
        | inl f ↦
            subst (λ s. IsWhole s off) (sym (skip_chunk received chunk fails f))
              (record {
                aborts = h.aborts;
                ended = h.ended;
                copied = λ live small. absurd (false≢true (sym live ∙ h.aborts f));
                reached = h.reached;
                drained = λ k. absurd (unfinished k);
                kept = λ k small. absurd (undecided k);
              })
        | inr f ↦ elim (Bool-cases fails) [
          | inl g ↦
              subst (λ s. IsWhole s off) (sym (fail_chunk received chunk fails f g))
                (record {
                  aborts = λ k. refl;
                  ended = λ c small. ground arith;
                  copied = λ live small. absurd (false≢true (sym live));
                  reached = h.reached;
                  drained = λ k. absurd (unfinished k);
                  kept = λ k small. absurd (undecided k);
                })
          | inr g ↦
              subst (λ s. IsWhole s off) (sym (copy_chunk received chunk fails f g))
                (record {
                  aborts = h.aborts;
                  ended = h.ended;
                  copied = λ live small.
                      append_assoc b.written chunk (concat rest)
                      ∙ ap (λ cs. b.written ++ concat cs) (sym e)
                      ∙ h.copied live small;
                  reached = h.reached;
                  drained = λ k. absurd (unfinished k);
                  kept = λ k small. absurd (undecided k);
                })
        ]
      ]

  finish-IsWhole :
      (b : Backfill) (off : ℕ)
      → IsWhole b off
      → b.closed ≡ true
      → b.channel ≡ []
      → IsWhole (close_destination b) off
  unfolding close_destination concat
  finish-IsWhole b off h c e = record {
    aborts = h.aborts;
    ended = h.ended;
    copied = h.copied;
    reached = h.reached;
    drained = λ k. (c, e);
    kept = λ k small.
        let live : b.cancelled ≡ false = ground (arith, k) in
        let eof : b.eof ≡ true = ground (arith, h.ended c small, live) in
        let all_ : b.written ++ concat [] ≡ values content 0 off = rw e at (h.copied live small) in
        sym (append-nil b.written) ∙ all_ ∙ ap (values content 0) (h.reached eof);
  }

  Flow-IsWhole : {b : Backfill} {off : ℕ} → Flow content total b off → IsWhole b off
  unfolding concat
  Flow-IsWhole starts = record {
    aborts = λ e. absurd (false≢true e);
    ended = λ c small. absurd (false≢true c);
    copied = λ live small. refl;
    reached = λ e. absurd (false≢true e);
    drained = λ k. absurd (k refl);
    kept = λ k small. cc;
  }
  Flow-IsWhole (reads n run pos inside) = send-IsWhole _ _ n (Flow-IsWhole run) pos inside
  Flow-IsWhole (reaches_end run e) =
      let h = Flow-IsWhole run in
      record {
        aborts = h.aborts;
        ended = λ c small. refl;
        copied = h.copied;
        reached = λ k. e;
        drained = h.drained;
        kept = h.kept;
      }
  Flow-IsWhole (cancels run) = cancel-IsWhole _ _ (Flow-IsWhole run)
  Flow-IsWhole (closes run over) =
      let h = Flow-IsWhole run in
      record {
        aborts = h.aborts;
        ended = λ c small. over;
        copied = h.copied;
        reached = h.reached;
        drained = λ k. (refl, (h.drained k).1);
        kept = h.kept;
      }
  Flow-IsWhole (receives chunk rest fails run e) =
      write_chunk-IsWhole _ _ chunk rest fails (Flow-IsWhole run) e
  Flow-IsWhole (finishes run c e fresh) = finish-IsWhole _ _ (Flow-IsWhole run) c e

  -- In any history of a backfill in which the channel never was full: when the destination has been
  -- closed with its context not cancelled, so that it keeps the copy, the copy is the whole object.
  pub backfill_lem :
      {b : Backfill} {off : ℕ}
      → Flow content total b off
      → b.overflowed ≡ false
      → b.committed ≡ some true
      → b.written ≡ values content 0 total
  backfill_lem run small kept = (Flow-IsWhole run).kept kept small
