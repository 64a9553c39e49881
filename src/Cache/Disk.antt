-- ===== src/Cache/Disk.antt =====
-- The disk backend, internal/cache/disk.go. A `Disk` is what the namespaced views share: the files
-- under the root by their paths, the metadata and the size counter; a `View` is one `*Disk`. Calls of
-- the file system and the database may fail, as an argument says. An operation reads the clock once.
pub mod Meta
pub mod Open
pub mod Evict
pub mod Names
pub mod State
pub mod Laws
pub mod Reads
pub mod Served
pub mod Agree
pub mod History
mod Tests
use cachew.Base.{
  ℕ, zero, suc, ◌+◌, ◌*◌, Bool, true, false, ◌&&◌, ◌||◌, not, Option, none, some, List, [], ◌∷◌,
  ◌++◌, Text, length, take, drop, ltb, ◌==◌, if◌then◌else◌, is_some, min,
}
use cachew.Base.Int.{ℤ, pos, ◌+ℤ◌, ◌-ℤ◌}
use cachew.Base.Decimal.{format_nat}
use cachew.Base.Result.{Result, ok, err}
use cachew.Base.Assoc.{Assoc, lookup, insert, remove}
use cachew.Client.Key.{Key, key_string}
use cachew.Client.Options.{RequestOption, is_blank}
use cachew.Http
use cachew.Http.{Header, content_length, last_modified, transport_headers}
use cachew.Cache.Short.{
  CacheError, Conditional, Ranged, not_exist, cond, bad_etag, cancelled, conditional_short_circuit,
  range_short_circuit, set_create_etag,
}
use cachew.Cache.Disk.Meta
use cachew.Cache.Disk.Meta.{MetaDb, new_disk_meta_db}

-- DiskConfig, as far as requests and eviction read it
pub record DiskConfig : Type 0 where
  pub limit_mb : ℕ
  pub max_ttl : ℕ

pub record File : Type 0 where
  pub bytes : List ℕ
  pub mod_time : ℕ

pub record Disk : Type 0 where
  pub files : Assoc File
  pub db : MetaDb
  pub size : ℤ

pub record View : Type 0 where
  pub config : DiskConfig
  pub namespace : Text

-- A call that may fail, other than by a file that is missing; and whether it fails for a path.
pub data Call : Type 0 where
  file_write file_close mkdir os_open os_stat os_remove os_rename : Call
  db_set db_set_ttl db_delete db_delete_all : Call

abbrev pub Fails : Type 0
Fails = Call → Text → Bool

abbrev pub works : Fails
works c path = false

-- An error of Go as the errors that it joins; none is nil.
pub data DiskError : Type 0 where
  cache : CacheError → DiskError
  io : Call → DiskError

abbrev pub Errors : Type 0
Errors = List DiskError

unfoldable pub total_bytes : Assoc File → ℕ
total_bytes [] = 0
total_bytes ((_, f) ∷ files) = length f.bytes + total_bytes files

-- NewDisk: the defaults, and the size of what the root has.
unfoldable pub default_config : DiskConfig → ℕ → DiskConfig
default_config c hour = record {
  limit_mb = if c.limit_mb == 0 then 10240 else c.limit_mb;
  max_ttl = if c.max_ttl == 0 then hour else c.max_ttl;
}

unfoldable pub new_disk : Assoc File → Assoc ℕ → Assoc Header → Disk
unfolding total_bytes new_disk_meta_db
new_disk files ttl headers = record {
  files = files;
  db = new_disk_meta_db ttl headers;
  size = pos (total_bytes files);
}

-- keyToPath
unfoldable pub key_to_path : Text → Key → Text
key_to_path namespace key =
    let hex_key = key_string key in
    let rest = take 2 hex_key ++ b'/' ∷ hex_key in
    if is_blank namespace then rest else namespace ++ b'/' ∷ rest

-- diskWriter, with what its temporary file has
pub record Writer : Type 0 where
  pub namespace : Text
  pub key : Key
  pub written : List ℕ
  pub mod_time : ℕ
  pub size : ℕ
  pub expires_at : ℕ
  pub headers : Header
  pub cancelled_ctx : Bool
  pub closed : Bool

-- Create, whose directory and temporary file are made; `date` is the print of the time and `fresh`
-- that of a new UUID.
unfoldable pub create :
    View → ℕ → Text → Text → Key → Header → ℕ → List RequestOption → Result CacheError Writer
create v now date fresh key headers ttl opts =
    let ttl' = if ltb v.config.max_ttl ttl || (ttl == 0) then v.config.max_ttl else ttl in
    let h = Http.filter_headers headers transport_headers in
    let h' = if is_blank (Http.get h last_modified) then Http.set h last_modified date else h in
    elim (set_create_etag h' opts fresh) [
      | err e ↦ err (bad_etag e)
      | ok h'' ↦ ok (record {
        namespace = v.namespace;
        key = key;
        written = [];
        mod_time = now;
        size = 0;
        expires_at = now + ttl';
        headers = h'';
        cancelled_ctx = false;
        closed = false;
      })
    ]

-- Write, of which the file takes `accepted` bytes at most
unfoldable pub write : Writer → ℕ → ℕ → List ℕ → Writer × Errors
write w now accepted p = (
  record w {
    written = w.written ++ take accepted p;
    mod_time = now;
    size = w.size + min accepted (length p);
  },
  if ltb accepted (length p) then io file_write ∷ [] else [],
)

-- commitLocked: the length of the file that is replaced is subtracted before the rename.
abbrev pub old_length : Option File → ℕ
old_length none = 0
old_length (some f) = length f.bytes

unfoldable pub replaced : Fails → Text → Disk → Disk
replaced fails path d =
    if fails os_stat path
    then d
    else record d { size = d.size -ℤ pos (old_length (lookup path d.files)) }

unfoldable pub commit_locked : Fails → Writer → Disk → Disk × Errors
unfolding replaced
commit_locked fails w d =
    let path = key_to_path w.namespace w.key in
    let d' = replaced fails path d in
    let renamed = record d' {
      files = insert path (record { bytes = w.written; mod_time = w.mod_time }) d'.files;
    } in
    if fails os_rename path
    then (d', io os_rename ∷ [])
    else if fails db_set path
    then if fails os_remove path
      then (renamed, io db_set ∷ io os_remove ∷ [])
      else (record renamed { files = remove path renamed.files }, io db_set ∷ [])
    else (record renamed { db = Meta.set w.key w.namespace w.expires_at w.headers d'.db }, [])

-- Close, with the counter after the commit
counted : Writer → Disk × Errors → Disk × Errors
counted w (d, []) = (record d { size = d.size +ℤ pos w.size }, [])
counted w (d, e ∷ es) = (d, e ∷ es)

unfoldable pub close_writer : Fails → Writer → Disk → Writer × Disk × Errors
unfolding counted
close_writer fails w d =
    let path = key_to_path w.namespace w.key in
    let w' = record w { closed = true } in
    if w.closed
    then (w, d, [])
    else if fails file_close path
    then (w', d, io file_close ∷ [])
    else if w.cancelled_ctx
    then (w', d, cache cancelled ∷ (if fails os_remove path then io os_remove ∷ [] else []))
    else if fails mkdir path
    then (w', d, io mkdir ∷ [])
    else let (d', errors) = counted w (commit_locked fails w d) in (w', d', errors)

-- Abort
unfoldable pub abort : Fails → Writer → Disk → Writer × Disk × Errors
unfolding close_writer
abort fails w d = close_writer fails (record w { cancelled_ctx = true }) d

unfoldable pub is_expired : ℕ → Option ℕ → Bool
is_expired now none = false
is_expired now (some expires_at) = ltb expires_at now

-- Delete, from the file that os.Stat finds
unfoldable pub delete_file : Fails → View → Key → Bool → File → Disk → Disk × Errors
delete_file fails v key expired f d =
    let path = key_to_path v.namespace key in
    let removed = record d { files = remove path d.files } in
    if fails os_stat path
    then (d, io os_stat ∷ [])
    else if fails os_remove path
    then (d, io os_remove ∷ [])
    else if fails db_delete path
    then (removed, io db_delete ∷ [])
    else (
      record removed {
        db = Meta.delete v.namespace key d.db;
        size = d.size -ℤ pos (length f.bytes);
      },
      if expired then cache not_exist ∷ [] else [],
    )

unfoldable pub delete : Fails → View → ℕ → Key → Disk → Disk × Errors
unfolding delete_file is_expired
delete fails v now key d =
    let expired = is_expired now (Meta.get_ttl v.namespace key d.db) in
    elim (lookup (key_to_path v.namespace key) d.files) [
      | none ↦ (d, cache not_exist ∷ [])
      | some f ↦ delete_file fails v key expired f d
    ]

-- errors.Is(err, fs.ErrNotExist)
is_not_exist : Errors → Bool
is_not_exist [] = false
is_not_exist (cache not_exist ∷ es) = true
is_not_exist (e ∷ es) = is_not_exist es

-- Invalidate
unfoldable pub invalidate : Fails → View → ℕ → Key → Disk → Disk × Errors
unfolding is_not_exist
invalidate fails v now key d =
    let (d', errors) = delete fails v now key d in (d', if is_not_exist errors then [] else errors)

pub record Stats : Type 0 where
  pub objects : ℕ
  pub size : ℤ
  pub capacity : ℕ

abbrev pub limit_bytes : DiskConfig → ℕ
limit_bytes c = c.limit_mb * 1024 * 1024

-- Stats
unfoldable pub stats : View → Disk → Stats
stats v d = record { objects = Meta.count d.db; size = d.size; capacity = limit_bytes v.config }

-- Namespace
unfoldable pub with_namespace : View → Text → View
with_namespace v namespace = record v { namespace = namespace }
