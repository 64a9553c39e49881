-- ===== src/Client/Parallel/Fetch.antt =====
-- The requests of one chunk, client/parallel_get.go: openChunk, writeChunkAt, fetchChunk and the test
-- on which a chunk is resumed. The server is a parameter: what it answers to the request of a range at
-- each point of time, which the number of the request stands for.
pub mod Laws
use cachew.Base.{
  ℕ, zero, suc, ◌+◌, ◌-◌, Bool, true, false, ◌&&◌, ◌||◌, not, Option, none, some, List, [], ◌∷◌,
  ◌++◌, Text, codes, text_eq, length, take, ltb, leb, ◌==◌, if◌then◌else◌, has_prefix,
}
use cachew.Base.Decimal.{format_nat}
use cachew.Base.Result.{Result, ok, err}
use cachew.Http
use cachew.Http.{Header, etag_key, content_range}

-- The errors of a chunk: ErrPreconditionFailed, an HTTP status, a transport error, any other error of
-- the request; a range that was ignored, a changed tag; a response that broke or was too long.
pub data ChunkError : Type 0 where
  precondition_failed transport other : ChunkError
  status : ℕ → ChunkError
  ignored_range changed broken overlong : ChunkError

-- resumable
unfoldable pub resumable : ChunkError → Bool
resumable broken = true
resumable precondition_failed = false
resumable (status code) = leb 500 code
resumable transport = true
resumable other = false
resumable ignored_range = false
resumable changed = false
resumable overlong = false

-- A response's body: the bytes that it gives, and whether it then fails instead of ending.
pub record Body : Type 0 where
  pub bytes : List ℕ
  pub fails : Bool

pub data Reply : Type 0 where
  refused : ChunkError → Reply
  replied : Header → Body → Reply

-- The answer to the request of that number, for the range from a start to an end, with If-Match.
abbrev pub Server : Type 0
Server = ℕ → ℕ → ℕ → Reply

-- chunkRetryAttempts and chunkResumeAttempts
abbrev pub chunk_retry_attempts : ℕ
chunk_retry_attempts = 4

abbrev pub chunk_resume_attempts : ℕ
chunk_resume_attempts = 3

-- The test of openChunk on the Content-Range of a response.
unfoldable pub is_range_from : ℕ → Header → Bool
is_range_from start h =
    has_prefix (Http.get h content_range) (codes "bytes " ++ format_nat start ++ b'-' ∷ [])

-- openChunk, with the attempts that are left after the next one; also the next request's number.
unfoldable pub open_chunk : Server → Text → ℕ → ℕ → ℕ → ℕ → Result ChunkError Body × ℕ
unfolding is_range_from
open_chunk server etag start end zero t = elim (server t start end) [
  | refused e ↦ (err e, suc t)
  | replied h body ↦
      if not (is_range_from start h)
      then (err ignored_range, suc t)
      else if not (text_eq (Http.get h etag_key) etag)
      then (err changed, suc t)
      else (ok body, suc t)
]
open_chunk server etag start end (suc left) t =
    let rest = open_chunk server etag start end left (suc t) in
    elim (server t start end) [
      | refused e ↦ (err e, suc t)
      | replied h body ↦
          if not (is_range_from start h)
          then rest
          else if not (text_eq (Http.get h etag_key) etag)
          then (err changed, suc t)
          else (ok body, suc t)
    ]

-- writeChunkAt of a length that is not negative, to a destination that takes every write: the bytes
-- that it writes, and its error.
unfoldable pub write_chunk_at : ℕ → Body → List ℕ × Option ChunkError
write_chunk_at len body =
    let n = take len body.bytes in
    if body.fails && ltb (length body.bytes) len
    then (n, some broken)
    else if not (length n == len)
    then (n, some broken)
    else if ltb len (length body.bytes)
    then (n, some overlong)
    else (n, none)

-- A write to the destination.
pub record Piece : Type 0 where
  pub offset : ℕ
  pub bytes : List ℕ

-- The state of fetchChunk when it returns: the offset that it has reached, its error, the number of
-- the next request, and what it has written.
pub record Fetched : Type 0 where
  pub start : ℕ
  pub error : Option ChunkError
  pub requests : ℕ
  pub pieces : List Piece

-- The body of an attempt: the one that is at hand, or that of a fresh request.
unfoldable pub body_for : Server → Text → ℕ → ℕ → Option Body → ℕ → Result ChunkError Body × ℕ
body_for server etag start end (some body) t = (ok body, t)
body_for server etag start end none t =
    open_chunk server etag start end (chunk_retry_attempts - 1) t

unfoldable pub write_body : ℕ → ℕ → Result ChunkError Body × ℕ → Fetched
unfolding write_chunk_at
write_body start end (err e, t) = record {
  start = start;
  error = some e;
  requests = t;
  pieces = [];
}
write_body start end (ok body, t) =
    let (n, error) = write_chunk_at (end - start) body in
    record {
      start = start + length n;
      error = error;
      requests = t;
      pieces = record { offset = start; bytes = n } ∷ [];
    }

-- What an attempt gives: its offset, error, next request and writes.
unfoldable pub attempt : Server → Text → ℕ → ℕ → Option Body → ℕ → Fetched
unfolding body_for write_body
attempt server etag start end body t = write_body start end (body_for server etag start end body t)

unfoldable pub is_resumed : Fetched → Bool
unfolding resumable
is_resumed f = elim f.error [ none ↦ false | some e ↦ resumable e ]

-- fetchChunk, with the attempts that are left after the next one; `waits` is what waitToResume reports
-- with that many attempts left.
unfoldable pub fetch_chunk : Server → Text → (ℕ → Bool) → ℕ → ℕ → Option Body → ℕ → ℕ → Fetched
unfolding attempt is_resumed
fetch_chunk server etag waits start end body zero t = attempt server etag start end body t
fetch_chunk server etag waits start end body (suc left) t =
    let f = attempt server etag start end body t in
    let rest = fetch_chunk server etag waits f.start end none left f.requests in
    if is_resumed f && waits (suc left) then record rest { pieces = f.pieces ++ rest.pieces } else f
