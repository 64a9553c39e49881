-- ===== src/Git/Spool.antt =====
-- The response spool: internal/strategy/git/spool.go. One writer fills a file that readers follow. A
-- method of the spool runs under its lock and is one step; a reader that would wait in the condition
-- variable stays as it is. What the file system and the clients answer are arguments.
pub mod Flow
pub mod Turns
pub mod Follow
pub mod Ends
pub mod Tee
pub mod Shared
use cachew.Base.{
  ℕ, ◌+◌, ◌-◌, Bool, true, false, ◌&&◌, ◌||◌, not, Option, none, some, List, [], ◌∷◌, ◌++◌, Text,
  length, take, drop, ltb, leb, ◌==◌, ◌*◌, if◌then◌else◌, min,
}
use cachew.Base.Assoc.{Assoc, lookup, insert}
use cachew.Http.{Header}

-- The errors of the spool, of its file, and of the clients. An error of Go is the list of those that
-- it joins; none is nil.
pub data SpoolError : Type 0 where
  write_failed close_failed open_failed read_failed client_failed spool_failed : SpoolError
  upstream_status : ℕ → SpoolError

abbrev pub is_nil : List SpoolError → Bool
is_nil [] = true
is_nil (e ∷ es) = false

-- ResponseSpool, with what its file has; the file is closed when the spool is complete.
pub record Spool : Type 0 where
  pub file : List ℕ
  pub status : ℕ
  pub headers : Header
  pub written : ℕ
  pub complete : Bool
  pub errors : List SpoolError

-- NewResponseSpool
unfoldable pub new_response_spool : Spool
new_response_spool = record {
  file = [];
  status = 0;
  headers = [];
  written = 0;
  complete = false;
  errors = [];
}

-- CaptureHeader
unfoldable pub capture_header : ℕ → Header → Spool → Spool
capture_header status headers s = record s { status = status; headers = headers }

-- Write, of which the file takes `accepted` bytes at most, and none when it is closed
unfoldable pub write : ℕ → List ℕ → Spool → Spool × List SpoolError
write accepted p s =
    let n = if s.complete then 0 else min accepted (length p) in
    let failed = s.complete || ltb n (length p) in
    let errors = if failed then write_failed ∷ [] else [] in
    if is_nil s.errors
    then (record s { file = s.file ++ take n p; written = s.written + n; errors = errors }, errors)
    else (s, s.errors)

-- MarkComplete and MarkError, whose Close of the file may fail
unfoldable pub mark_complete : Bool → Spool → Spool
mark_complete close_fails s = if s.complete then s else record s {
  complete = true;
  errors = s.errors ++ (if close_fails then close_failed ∷ [] else []);
}

unfoldable pub mark_error : Bool → SpoolError → Spool → Spool
mark_error close_fails e s =
    if s.complete
    then s
    else record s { complete = true; errors = e ∷ (if close_fails then close_failed ∷ [] else []) }

-- Failed
unfoldable pub failed : Spool → Bool
failed s = not (is_nil s.errors)

-- Where a reader is in ServeTo: before the headers, at the lock, in the inner loop with what it saw
-- under the lock, or after its return.
pub data Phase : Type 0 where
  waiting following : Phase
  reading : ℕ → Bool → List SpoolError → Phase
  done : List SpoolError → Phase

-- A call of ServeTo, and what its client has got.
pub record Reader : Type 0 where
  pub phase : Phase
  pub offset : ℕ
  pub status : ℕ
  pub headers : Header
  pub sent : List ℕ

unfoldable pub new_reader : Reader
new_reader = record { phase = waiting; offset = 0; status = 0; headers = []; sent = [] }

-- What a turn meets: whether the file opens, whether ReadAt fails and after how many bytes, and how
-- many bytes the client takes.
pub record Turn : Type 0 where
  pub open_fails : Bool
  pub read_fails : Bool
  pub got : ℕ
  pub accepted : ℕ

abbrev pub buf_size : ℕ
buf_size = 32 * 1024

-- The wait for the headers, and what follows it
unfoldable pub await_header : Turn → Spool → Reader → Reader
await_header t s r =
    if (s.status == 0) && is_nil s.errors
    then r
    else if s.status == 0
    then record r { phase = done (spool_failed ∷ []) }
    else record r {
      phase = if t.open_fails then done (open_failed ∷ []) else following;
      status = s.status;
      headers = s.headers;
    }

-- The wait for more bytes
unfoldable pub await_bytes : Spool → Reader → Reader
await_bytes s r =
    if leb s.written r.offset && (not s.complete && is_nil s.errors)
    then r
    else record r { phase = reading s.written s.complete s.errors }

-- A round of the inner loop: ReadAt, and the write of what it gave to the client
unfoldable pub bytes_read : Turn → ℕ → ℕ
bytes_read t to_read = if t.read_fails then min t.got to_read else to_read

unfoldable pub send_bytes : Turn → ℕ → Spool → Reader → Reader
send_bytes t n s r =
    let bytes = take n (drop r.offset s.file) in
    if ltb t.accepted n
    then record r { sent = r.sent ++ take t.accepted bytes; phase = done (client_failed ∷ []) }
    else if t.read_fails
    then record r { sent = r.sent ++ bytes; offset = r.offset + n; phase = done (read_failed ∷ []) }
    else record r { sent = r.sent ++ bytes; offset = r.offset + n }

unfoldable pub copy_bytes : Turn → ℕ → Spool → Reader → Reader
unfolding bytes_read send_bytes
copy_bytes t written s r = send_bytes t (bytes_read t (min (written - r.offset) buf_size)) s r

-- The test of the inner loop, and what follows it
unfoldable pub read_round : Turn → ℕ → Bool → List SpoolError → Spool → Reader → Reader
unfolding copy_bytes
read_round t written complete errors s r =
    if ltb r.offset written
    then copy_bytes t written s r
    else if complete
    then record r { phase = done errors }
    else record r { phase = following }

-- A turn of ServeTo
turn_at : Phase → Turn → Spool → Reader → Reader
unfolding await_header await_bytes read_round
turn_at waiting t s r = await_header t s r
turn_at following t s r = await_bytes s r
turn_at (reading written complete errors) t s r = read_round t written complete errors s r
turn_at (done errors) t s r = r

unfoldable pub turn : Turn → Spool → Reader → Reader
unfolding turn_at
turn t s r = turn_at r.phase t s r
