-- ===== src/Cache/Tiered/Backfill.antt =====
-- backfillReadCloser, internal/cache/tiered.go: a reader that copies what it reads into another cache,
-- through a channel to a goroutine that writes.
pub mod Whole
use cachew.Base.{
  ℕ, suc, ◌+◌, ◌<◌, ◌≤◌, ◌≡◌, ◌≢◌, refl, sym, ap, ◌∙◌, subst, Bool, true, false, ◌||◌, not, Option,
  none, some, List, [], ◌∷◌, ◌++◌, length, ltb, if◌then◌else◌, append_assoc, append-nil, arith,
  Bool-cases, inl, inr,
}
use mathlib.Core.Bool.{false≢true}
use cachew.Base.Arrays.{values, values-append}

-- backfillBufSize
abbrev pub backfill_buf_size : ℕ
backfill_buf_size = 128

-- The channel, the flags of the reader, whether the write context is cancelled, and of the writing
-- goroutine: what it has written, whether a write has failed, and whether its Close committed. The
-- flag `overflowed` is not the code's: it says that a send has found the channel full.
pub record Backfill : Type 0 where
  pub channel : List (List ℕ)
  pub closed : Bool
  pub eof : Bool
  pub cancelled : Bool
  pub written : List ℕ
  pub failed : Bool
  pub committed : Option Bool
  pub overflowed : Bool

-- newBackfillReadCloser
abbrev pub new_backfill : Backfill
new_backfill = record {
  channel = [];
  closed = false;
  eof = false;
  cancelled = false;
  written = [];
  failed = false;
  committed = none;
  overflowed = false;
}

-- What Read sends; when the channel is full it closes it, and cancels by a later step.
unfoldable pub send : Backfill → List ℕ → Backfill
send b chunk =
    if b.closed
    then b
    else if ltb (length b.channel) backfill_buf_size
    then record b { channel = b.channel ++ chunk ∷ [] }
    else record b { closed = true; overflowed = true }

-- A round of the writing goroutine on a chunk that it has received; `fails` is whether Write fails.
unfoldable pub write_chunk : Backfill → List ℕ → Bool → Backfill
write_chunk b chunk fails =
    if b.failed
    then b
    else if fails
    then record b { failed = true; cancelled = true }
    else record b { written = b.written ++ chunk }

-- The goroutine's Close of the destination, which keeps the object unless the context is cancelled.
unfoldable pub close_destination : Backfill → Backfill
close_destination b = record b { committed = some (not b.cancelled) }

module _ (content : ℕ → ℕ) (total : ℕ) where
  -- The histories of a backfill of an object, with the offset that Read has reached: reads, the end of
  -- the source, cancels (by a source that fails, an early Close, a full channel), closes of the channel
  -- after the end or a cancel, and the goroutine's rounds and its end.
  pub data Flow : Backfill → ℕ → Type 0 where
    starts : Flow new_backfill 0
    reads :
        {b : Backfill} {off : ℕ} (n : ℕ)
        → Flow b off
        → 0 < n
        → off + n ≤ total
        → Flow (send b (values content off n)) (off + n)
    reaches_end :
        {b : Backfill} {off : ℕ} → Flow b off → off ≡ total → Flow (record b { eof = true }) off
    cancels : {b : Backfill} {off : ℕ} → Flow b off → Flow (record b { cancelled = true }) off
    closes :
        {b : Backfill} {off : ℕ}
        → Flow b off
        → (b.eof || b.cancelled) ≡ true
        → Flow (record b { closed = true }) off
    receives :
        {b : Backfill} {off : ℕ} (chunk : List ℕ) (rest : List (List ℕ)) (fails : Bool)
        → Flow b off
        → b.channel ≡ chunk ∷ rest
        → Flow (write_chunk (record b { channel = rest }) chunk fails) off
    finishes :
        {b : Backfill} {off : ℕ}
        → Flow b off
        → b.closed ≡ true
        → b.channel ≡ []
        → b.committed ≡ none
        → Flow (close_destination b) off
