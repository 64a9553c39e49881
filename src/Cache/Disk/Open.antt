-- ===== src/Cache/Disk/Open.antt =====
-- Stat and Open of the disk cache, internal/cache/disk.go.
use cachew.Base.{
  ℕ, ◌+◌, Option, none, some, List, [], ◌∷◌, length, take, drop, ltb, if◌then◌else◌, min,
}
use cachew.Base.Decimal.{format_nat}
use cachew.Base.Assoc.{lookup}
use cachew.Client.Key.{Key}
use cachew.Client.Options.{RequestOption}
use cachew.Http
use cachew.Http.{Header, content_length, last_modified, transport_headers}
use cachew.Cache.Short.{
  Conditional, Ranged, not_exist, cond, conditional_short_circuit, range_short_circuit,
}
use cachew.Cache.Disk.Meta
use cachew.Cache.Disk.Meta.{MetaDb, new_disk_meta_db}
use cachew.Cache.Disk.{
  File, Disk, View, Fails, cache, io, os_open, os_stat, db_set_ttl, Errors, key_to_path, delete,
}

sized_headers : File → Header → Header
sized_headers f headers = Http.set headers content_length (format_nat (length f.bytes))

-- What a read returns beside the disk that it leaves.
pub record Read : Type 0 where
  pub body : Option (List ℕ)
  pub headers : Option Header
  pub errors : Errors

abbrev pub failed : Errors → Read
failed errors = record { body = none; headers = none; errors = errors }

-- Stat, of a file and headers that it has found
unfoldable pub stat_checked : Conditional → Read
stat_checked c = elim c.error [
  | some x ↦ record { body = none; headers = c.returned; errors = cache (cond x) ∷ [] }
  | none ↦ record { body = none; headers = some c.headers; errors = [] }
]

unfoldable pub stat_file : File → Header → List RequestOption → Read
unfolding sized_headers stat_checked
stat_file f headers opts = stat_checked (conditional_short_circuit (sized_headers f headers) opts)

-- A read that finds an expired entry deletes it, and joins the errors of that.
drop_expired : Disk × Errors → Disk × Read
drop_expired (d, errors) = (d, failed (cache not_exist ∷ errors))

stat_headers : File → List RequestOption → Option Header → Read
unfolding stat_file
stat_headers f opts none = failed (cache not_exist ∷ [])
stat_headers f opts (some headers) = stat_file f headers opts

stat_ttl : Fails → View → ℕ → Key → List RequestOption → File → Disk → Option ℕ → Disk × Read
unfolding stat_headers drop_expired delete
stat_ttl fails v now key opts f d none = (d, failed (cache not_exist ∷ []))
stat_ttl fails v now key opts f d (some expires_at) =
    if ltb expires_at now
    then drop_expired (delete fails v now key d)
    else (d, stat_headers f opts (Meta.get_headers v.namespace key d.db))

unfoldable pub stat : Fails → View → ℕ → Key → List RequestOption → Disk → Disk × Read
unfolding stat_ttl
stat fails v now key opts d = elim (lookup (key_to_path v.namespace key) d.files) [
  | none ↦ (d, failed (cache not_exist ∷ []))
  | some f ↦
      if fails os_stat (key_to_path v.namespace key)
      then (d, failed (io os_stat ∷ []))
      else stat_ttl fails v now key opts f d (Meta.get_ttl v.namespace key d.db)
]

-- Open after openLocked: the short circuits and the window
unfoldable pub read_window : File → Ranged → Read
read_window f r = elim r.error [
  | some x ↦ record { body = none; headers = some r.headers; errors = cache (cond x) ∷ [] }
  | none ↦ record {
    body = some (if r.partial then take r.length (drop r.start f.bytes) else f.bytes);
    headers = some r.headers;
    errors = [];
  }
]

unfoldable pub read_checked : File → List RequestOption → Conditional → Read
unfolding read_window
read_checked f opts c = elim c.error [
  | some x ↦ record { body = none; headers = c.returned; errors = cache (cond x) ∷ [] }
  | none ↦ read_window f (range_short_circuit c.headers (length f.bytes) opts)
]

unfoldable pub read_file : File → Header → List RequestOption → Read
unfolding sized_headers read_checked
read_file f headers opts =
    read_checked f opts (conditional_short_circuit (sized_headers f headers) opts)

-- The new expiry that openLocked writes.
abbrev pub touched : ℕ → ℕ → ℕ → ℕ
touched max_ttl now expires_at = min expires_at (now + max_ttl)

open_headers :
    Fails → View → ℕ → Key → List RequestOption → File → ℕ → Disk → Option Header → Disk × Read
unfolding read_file
open_headers fails v now key opts f expires_at d none = (d, failed (cache not_exist ∷ []))
open_headers fails v now key opts f expires_at d (some headers) =
    if fails db_set_ttl (key_to_path v.namespace key) then (d, failed (io db_set_ttl ∷ [])) else (
      record d { db = Meta.set_ttl v.namespace key (touched v.config.max_ttl now expires_at) d.db },
      read_file f headers opts,
    )

open_ttl : Fails → View → ℕ → Key → List RequestOption → File → Disk → Option ℕ → Disk × Read
unfolding open_headers drop_expired delete
open_ttl fails v now key opts f d none = (d, failed (cache not_exist ∷ []))
open_ttl fails v now key opts f d (some expires_at) =
    if ltb expires_at now
    then drop_expired (delete fails v now key d)
    else open_headers fails v now key opts f expires_at d (Meta.get_headers v.namespace key d.db)

-- Open, with openLocked
unfoldable pub open_entry : Fails → View → ℕ → Key → List RequestOption → Disk → Disk × Read
unfolding open_ttl
open_entry fails v now key opts d = elim (lookup (key_to_path v.namespace key) d.files) [
  | none ↦ (d, failed (cache not_exist ∷ []))
  | some f ↦
      if fails os_open (key_to_path v.namespace key)
      then (d, failed (io os_open ∷ []))
      else open_ttl fails v now key opts f d (Meta.get_ttl v.namespace key d.db)
]
