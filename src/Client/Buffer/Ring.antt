-- ===== src/Client/Buffer/Ring.antt =====
-- streamBuffer of client/stream_buffer.go: the ring of pages, and its operations. A call that the code
-- blocks in waits here: it changes nothing and is tried again after another call.
pub mod Pages
pub mod Store
pub mod Stream
pub mod Finish
use cachew.Base.{
  ℕ, zero, suc, ◌+◌, ◌-◌, ◌*◌, ◌/◌, ◌%◌, min, max, Bool, true, false, ◌&&◌, ◌||◌, not, Option, none,
  some, List, [], ◌∷◌, length, take, drop, ltb, leb, ◌==◌, if◌then◌else◌, is_some,
}
use cachew.Base.Arrays.{get_elem?, set, replicate, copy_at}
use cachew.Client.Buffer.{Coverage, is_none_pending, extend_locked}

-- The errors of the buffer: io.ErrClosedPipe, io.EOF, the gap that closeWrite reports, and the error
-- that the download gives to closeWrite.
pub data StreamError : Type 0 where
  closed_pipe eof : StreamError
  coverage_gap failed : ℕ → StreamError

pub record StreamBuffer : Type 0 where
  pub chunk_size : ℕ
  pub n : ℕ
  pub pages : List (Option (List ℕ))
  pub coverage : Coverage
  pub read_off : ℕ
  pub closed : Bool
  pub err : Option StreamError
  pub rclosed : Bool

-- newStreamBuffer
unfoldable pub new_stream_buffer : ℕ → ℕ → StreamBuffer
new_stream_buffer chunk_size concurrency = record {
  chunk_size = chunk_size;
  n = 2 * max concurrency 1;
  pages = replicate (2 * max concurrency 1) none;
  coverage = record { frontier = 0; pending = [] };
  read_off = 0;
  closed = false;
  err = none;
  rclosed = false;
}

-- The page of a slot; a slot out of range, at which the code panics, has none.
unfoldable pub page_of : Option (Option (List ℕ)) → Option (List ℕ)
page_of none = none
page_of (some page) = page

unfoldable pub page_or_new : ℕ → Option (List ℕ) → List ℕ
page_or_new chunk_size none = replicate chunk_size 0
page_or_new chunk_size (some page) = page

-- What a write returns: it waits, or has written some bytes and fails, or has written all it can.
pub data Wrote : Type 0 where
  waits : Wrote
  fails : ℕ → StreamError → Wrote
  wrote : ℕ → Wrote

-- The writes of writeSome, of the first `n` bytes of `p`.
unfoldable pub store : StreamBuffer → List ℕ → ℕ → ℕ → StreamBuffer
unfolding page_of page_or_new extend_locked
store s p off n =
    let slot = (off / s.chunk_size) % s.n in
    let page = page_or_new s.chunk_size (page_of (get_elem? s.pages slot)) in
    record s {
      pages = set s.pages slot (some (copy_at page (off % s.chunk_size) (take n p)));
      coverage = extend_locked s.coverage off (off + n);
    }

-- writeSome
unfoldable pub write_some : StreamBuffer → List ℕ → ℕ → Wrote × StreamBuffer
write_some s p off =
    if leb (s.read_off / s.chunk_size + s.n) (off / s.chunk_size)
    then if s.rclosed || s.closed then (Wrote.fails 0 closed_pipe, s) else (Wrote.waits, s)
    else if s.rclosed || s.closed
    then (Wrote.fails 0 closed_pipe, s)
    else let n = min (length p) (s.chunk_size - off % s.chunk_size) in (wrote n, store s p off n)

-- WriteAt, on fuel, with no other call between its calls of writeSome; `written` counts from 0.
unfoldable pub write_at : ℕ → StreamBuffer → List ℕ → ℕ → ℕ → Wrote × StreamBuffer
write_at fuel s [] off written = (wrote written, s)
write_at zero s (b ∷ p) off written = (Wrote.waits, s)
write_at (suc fuel) s (b ∷ p) off written =
    let (result, s') = write_some s (b ∷ p) off in
    elim result [
      | Wrote.waits ↦ (Wrote.waits, s')
      | Wrote.fails n e ↦ (Wrote.fails (written + n) e, s')
      | wrote n ↦ write_at fuel s' (drop n (b ∷ p)) (off + n) (written + n)
    ]

pub data Got : Type 0 where
  waits panics : Got
  fails : StreamError → Got
  got : List ℕ → Got

unfoldable pub read_end : Option StreamError → Got
read_end none = Got.fails eof
read_end (some e) = Got.fails e

-- The bytes that Read copies; it panics on a page that has never been written.
unfoldable pub read_page : Option (List ℕ) → ℕ → ℕ → Got
read_page none off n = panics
read_page (some page) off n = got (take n (drop off page))

-- The part of Read after its loop, with bytes before the frontier.
unfoldable pub emit : StreamBuffer → ℕ → Got × StreamBuffer
unfolding page_of read_page
emit s len =
    let n =
      min (min len (s.coverage.frontier - s.read_off)) (s.chunk_size - s.read_off % s.chunk_size) in
    let slot = (s.read_off / s.chunk_size) % s.n in
    (
      read_page (page_of (get_elem? s.pages slot)) (s.read_off % s.chunk_size) n,
      record s { read_off = s.read_off + n },
    )

-- Read, into a slice of `len` bytes
unfoldable pub read : StreamBuffer → ℕ → Got × StreamBuffer
unfolding read_end
read s len =
    if s.rclosed
    then (Got.fails closed_pipe, s)
    else if ltb s.read_off s.coverage.frontier
    then emit s len
    else if s.closed
    then (read_end s.err, s)
    else (Got.waits, s)

download_error : Option ℕ → Option StreamError
download_error none = none
download_error (some e) = some (failed e)

-- closeWrite; `err` is none on success, and else the error of the download.
unfoldable pub close_write : StreamBuffer → Option ℕ → StreamBuffer
unfolding download_error
close_write s err =
    let err' =
      if not (is_some err) && not (is_none_pending s.coverage.pending)
      then some (coverage_gap s.coverage.frontier)
      else download_error err in
    record s { closed = true; err = if is_some s.err then s.err else err' }

-- Close
unfoldable pub close : StreamBuffer → StreamBuffer
close s = record s { rclosed = true }
