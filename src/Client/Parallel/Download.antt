-- ===== src/Client/Parallel/Download.antt =====
-- ParallelGetReader, client/parallel_get.go: the workers of ParallelGet, the gate between them, and the
-- buffer that they write to and the caller reads from.
pub mod Invariant
pub mod Steps
pub mod Result
use cachew.Base.{
  ℕ, ◌+◌, ◌*◌, ◌≤◌, ◌<◌, ◌≡◌, Bool, true, false, Option, none, some, List, [], ◌∷◌, ◌++◌, length,
  ◌==◌, if◌then◌else◌,
}
use cachew.Client.Buffer.Ring.{
  StreamBuffer, Wrote, wrote, new_stream_buffer, write_some, read, close_write, close,
}
use cachew.Client.Buffer.Ring.Pages.{Agrees}
use cachew.Client.Buffer.Ring.Stream.{bytes_of}
use cachew.Client.Parallel.{
  DispatchGate, new_dispatch_gate, admits, complete, num_chunks, chunk_range,
}

-- A chunk: not dispatched, or at the offset that fetchChunk has written it up to, or complete.
pub data Phase : Type 0 where
  idle finished : Phase
  fetching : ℕ → Phase

pub record Download : Type 0 where
  pub buffer : StreamBuffer
  pub gate : DispatchGate
  pub phases : ℕ → Phase

unfoldable pub update : (ℕ → Phase) → ℕ → Phase → ℕ → Phase
update phases seq phase s = if s == seq then phase else phases s

-- The buffer of ParallelGetReader and the gate of ParallelGet, before the first chunk.
unfoldable pub new_download : ℕ → ℕ → Download
new_download chunk_size concurrency = record {
  buffer = new_stream_buffer chunk_size concurrency;
  gate = new_dispatch_gate (2 * concurrency);
  phases = λ s. idle;
}

-- A worker takes the chunk `seq`.
unfoldable pub dispatch : ℕ → Download → ℕ → Download
dispatch chunk_size d seq = record d { phases = update d.phases seq (fetching (seq * chunk_size)) }

abbrev pub written : Wrote → ℕ
written (wrote n) = n
written (Wrote.fails n e) = n
written Wrote.waits = 0

-- A write of bytes of the chunk's response, at the offset that fetchChunk has reached.
unfoldable pub write : Download → ℕ → ℕ → List ℕ → Download
write d seq at p =
    let (result, buffer) = write_some d.buffer p at in
    record d { buffer = buffer; phases = update d.phases seq (fetching (at + written result)) }

-- The worker completes its chunk.
unfoldable pub finish : Download → ℕ → Download
finish d seq = record d { gate = (complete d.gate seq).0; phases = update d.phases seq finished }

unfoldable pub chunk_end : ℕ → ℕ → ℕ → ℕ
unfolding chunk_range
chunk_end total chunk_size seq = (chunk_range total chunk_size seq).1

module _ (content : ℕ → ℕ) (total chunk_size : ℕ) where
  -- The histories of a download, in any order of its workers, its reader and its end, with what the
  -- reads have given so far. A worker fetches each chunk once, when the gate admits it, and writes
  -- bytes of the object; ParallelGet returns no error only when every chunk is complete.
  pub data History : Download → List ℕ → Type 0 where
    starts :
        (concurrency : ℕ)
        → 0 < total
        → 0 < chunk_size
        → 0 < concurrency
        → History (new_download chunk_size concurrency) []
    dispatches :
        {d : Download} {out : List ℕ} (seq : ℕ)
        → History d out
        → d.phases seq ≡ idle
        → seq < num_chunks total chunk_size
        → admits d.gate seq ≡ true
        → History (dispatch chunk_size d seq) out
    writes :
        {d : Download} {out : List ℕ} (seq at b : ℕ) (p : List ℕ)
        → History d out
        → d.phases seq ≡ fetching at
        → at + length (b ∷ p) ≤ chunk_end total chunk_size seq
        → Agrees content (b ∷ p) at
        → History (write d seq at (b ∷ p)) out
    completes :
        {d : Download} {out : List ℕ} (seq : ℕ)
        → History d out
        → d.phases seq ≡ fetching (chunk_end total chunk_size seq)
        → History (finish d seq) out
    reads :
        {d : Download} {out : List ℕ} (len : ℕ)
        → History d out
        → History
            (record d { buffer = (read d.buffer len).1 })
            (out ++ bytes_of (read d.buffer len).0)
    succeeds :
        {d : Download} {out : List ℕ}
        → History d out
        → ((s : ℕ) → s < num_chunks total chunk_size → d.phases s ≡ finished)
        → History (record d { buffer = close_write d.buffer none }) out
    gives_up :
        {d : Download} {out : List ℕ} (err : ℕ)
        → History d out
        → History (record d { buffer = close_write d.buffer (some err) }) out
    closes :
        {d : Download} {out : List ℕ}
        → History d out
        → History (record d { buffer = close d.buffer }) out
