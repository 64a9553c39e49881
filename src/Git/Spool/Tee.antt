-- ===== src/Git/Spool/Tee.antt =====
-- SpoolTeeWriter of internal/strategy/git/spool.go: a response goes to the client that asked for it and
-- to the spool that others read.
use cachew.Base.{
  ℕ, Bool, true, false, ◌&&◌, List, [], ◌∷◌, ◌++◌, length, take, ltb, leb, if◌then◌else◌,
}
use cachew.Http.{Header}
use cachew.Git.Spool
use cachew.Git.Spool.{
  SpoolError, Spool, Reader, Turn, upstream_status, client_failed, is_nil, new_response_spool,
  capture_header, mark_complete, mark_error, new_reader, turn, done,
}

-- SpoolTeeWriter, with what its client has got
pub record Tee : Type 0 where
  pub spool : Spool
  pub wrote_header : Bool
  pub client_status : ℕ
  pub client_sent : List ℕ

-- NewSpoolTeeWriter
unfoldable pub new_spool_tee_writer : Spool → Tee
new_spool_tee_writer s = record {
  spool = s;
  wrote_header = false;
  client_status = 0;
  client_sent = [];
}

-- WriteHeader: a status that is no success fails the spool.
unfoldable pub write_header : Bool → ℕ → Header → Tee → Tee
write_header close_fails code headers t = if t.wrote_header then t else record t {
  wrote_header = true;
  client_status = code;
  spool =
      if leb 200 code && ltb code 300
      then capture_header code headers t.spool
      else mark_error close_fails (upstream_status code) t.spool;
}

-- What is left of Write after the spool's: its client takes `accepted` bytes at most, and only a spool
-- that took the bytes is failed by it.
unfoldable pub write_client :
    Bool → ℕ → List ℕ → Tee → Spool × List SpoolError → Tee × List SpoolError
write_client close_fails accepted bytes t (s, errors) =
    let short = ltb accepted (length bytes) in
    let sent = t.client_sent ++ take accepted bytes in
    (
      record t {
        client_sent = sent;
        spool = if is_nil errors && short then mark_error close_fails client_failed s else s;
      },
      if short then client_failed ∷ [] else [],
    )

-- Write, of which the file takes `stored` bytes at most
unfoldable pub write : Bool → ℕ → ℕ → Header → List ℕ → Tee → Tee × List SpoolError
unfolding write_header write_client
write close_fails stored accepted headers bytes t =
    let t' = write_header close_fails 200 headers t in
    write_client close_fails accepted bytes t' (Spool.write stored bytes t'.spool)

-- The histories of a tee, the end of its response and a reader of its spool
pub data Shares : Tee → Reader → Type 0 where
  starts : Shares (new_spool_tee_writer new_response_spool) new_reader
  sends_header :
      {t : Tee} {r : Reader} (close_fails : Bool) (code : ℕ) (headers : Header)
      → Shares t r
      → Shares (write_header close_fails code headers t) r
  writes :
      {t : Tee} {r : Reader} (close_fails : Bool) (stored accepted : ℕ) (headers : Header)
      (bytes : List ℕ)
      → Shares t r
      → Shares (write close_fails stored accepted headers bytes t).0 r
  completes :
      {t : Tee} {r : Reader} (close_fails : Bool)
      → Shares t r
      → Shares (record t { spool = mark_complete close_fails t.spool }) r
  turns : {t : Tee} {r : Reader} (x : Turn) → Shares t r → Shares t (turn x t.spool r)
