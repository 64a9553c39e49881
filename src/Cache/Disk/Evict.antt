-- ===== src/Cache/Disk/Evict.antt =====
-- The eviction of the disk cache, internal/cache/disk.go: evict, deleteExpiredEntries and evictBySize.
pub mod Visits
pub mod Drops
pub mod Erase
pub mod Result
pub mod Contract
pub mod Evicts
use cachew.Base.{
  ℕ, ◌≤◌, ◌≡◌, Bool, true, false, Option, none, some, List, [], ◌∷◌, ◌++◌, Text, All, length, ltb,
  if◌then◌else◌,
}
use cachew.Base.Int.{ℤ, pos, ◌-ℤ◌, leb_ℤ}
use cachew.Base.Assoc.{lookup, remove}
use cachew.Client.Key.{Key}
use cachew.Cache.Disk.{
  DiskConfig, File, Disk, Call, Fails, Errors, io, os_stat, os_remove, db_delete_all, key_to_path,
  limit_bytes,
}
use cachew.Cache.Disk.Meta
use cachew.Cache.Disk.Meta.{EntryKey}

-- evictFileInfo
pub record FileInfo : Type 0 where
  pub entry : EntryKey
  pub path : Text
  pub size : ℕ
  pub expires_at : ℕ
  pub accessed_at : ℕ

-- The variables of evict while it walks.
pub record Walk : Type 0 where
  pub disk : Disk
  pub remaining : List FileInfo
  pub expired : List EntryKey
  pub errors : Errors

abbrev pub info : EntryKey → ℕ → File → FileInfo
info e expires_at f = record {
  entry = e;
  path = key_to_path e.namespace e.key;
  size = length f.bytes;
  expires_at = expires_at;
  accessed_at = f.mod_time;
}

-- os.Remove, of a file of a size, and the counter with it
unfoldable pub drop_file : Text → ℕ → Disk → Disk
drop_file path size d = record d { files = remove path d.files; size = d.size -ℤ pos size }

-- The function that the walk calls, for a file that os.Stat finds
unfoldable pub visit_file : Fails → ℕ → EntryKey → ℕ → Walk → File → Walk
unfolding drop_file
visit_file fails now e expires_at w f =
    let path = key_to_path e.namespace e.key in
    if ltb expires_at now
    then if fails os_remove path
      then record w { errors = io os_remove ∷ [] }
      else record w { disk = drop_file path (length f.bytes) w.disk; expired = w.expired ++ e ∷ [] }
    else record w { remaining = w.remaining ++ info e expires_at f ∷ [] }

unfoldable pub visit : Fails → ℕ → EntryKey → ℕ → Walk → Walk
unfolding visit_file
visit fails now e expires_at w =
    let path = key_to_path e.namespace e.key in
    if fails os_stat path then w else elim (lookup path w.disk.files) [
      | none ↦ record w { expired = w.expired ++ e ∷ [] }
      | some f ↦ visit_file fails now e expires_at w f
    ]

-- The walk ends at the first error.
unfoldable pub visit_all : Fails → ℕ → List (EntryKey × ℕ) → Walk → Walk
unfolding visit
visit_all fails now [] w = w
visit_all fails now ((e, expires_at) ∷ es) w = elim w.errors [
  | [] ↦ visit_all fails now es (visit fails now e expires_at w)
  | _ ↦ w
]

-- deleteExpiredEntries, whose failure is that of its one transaction
unfoldable pub delete_expired_entries : Fails → List EntryKey → Disk → Disk × Errors
delete_expired_entries fails [] d = (d, [])
delete_expired_entries fails (e ∷ es) d =
    if fails db_delete_all []
    then (d, io db_delete_all ∷ [])
    else (record d { db = Meta.delete_all (e ∷ es) d.db }, [])

-- The loop of evictBySize: the disk, the entries that are evicted, and the error that ends it. A file
-- that is missing is no error, and its size is subtracted all the same.
pub record Shrunk : Type 0 where
  pub disk : Disk
  pub evicted : List EntryKey
  pub errors : Errors

unfoldable pub shrink : Fails → ℕ → List FileInfo → Disk → Shrunk
unfolding drop_file
shrink fails limit [] d = record { disk = d; evicted = []; errors = [] }
shrink fails limit (f ∷ fs) d =
    let rest = shrink fails limit fs (drop_file f.path f.size d) in
    if leb_ℤ d.size (pos limit)
    then record { disk = d; evicted = []; errors = [] }
    else if fails os_remove f.path
    then record { disk = d; evicted = []; errors = io os_remove ∷ [] }
    else record rest { evicted = f.entry ∷ rest.evicted }

-- The end of evictBySize: an error leaves the metadata of what was removed.
delete_evicted : Fails → Shrunk → Disk × Errors
delete_evicted fails s = elim s.errors [
  | [] ↦ delete_expired_entries fails s.evicted s.disk
  | e ∷ es ↦ (s.disk, e ∷ es)
]

-- `by_access` is what sort.Slice makes of the files, oldest access time first.
abbrev pub Sorter : Type 0
Sorter = List FileInfo → List FileInfo

unfoldable pub evict_by_size : Fails → Sorter → ℕ → List FileInfo → Disk → Disk × Errors
unfolding shrink delete_evicted delete_expired_entries
evict_by_size fails by_access limit remaining d =
    if leb_ℤ d.size (pos limit)
    then (d, [])
    else delete_evicted fails (shrink fails limit (by_access remaining) d)

-- evict, after the walk and after deleteExpiredEntries
evict_rest : Fails → Sorter → ℕ → List FileInfo → Disk × Errors → Disk × Errors
unfolding evict_by_size
evict_rest fails by_access limit remaining (d, []) = evict_by_size fails by_access limit remaining d
evict_rest fails by_access limit remaining (d, e ∷ es) = (d, e ∷ es)

evict_walked : Fails → Sorter → ℕ → Walk → Disk × Errors
unfolding evict_rest delete_expired_entries
evict_walked fails by_access limit w = elim w.errors [
  | [] ↦
      evict_rest fails by_access limit w.remaining (delete_expired_entries fails w.expired w.disk)
  | e ∷ es ↦ (w.disk, e ∷ es)
]

unfoldable pub start : Disk → Walk
start d = record { disk = d; remaining = []; expired = []; errors = [] }

-- evict
unfoldable pub evict : (Text → Key) → Fails → Sorter → DiskConfig → ℕ → Disk → Disk × Errors
unfolding evict_walked visit_all start
evict sha256 fails by_access config now d =
    evict_walked fails by_access (limit_bytes config)
      (visit_all fails now (Meta.walk sha256 d.db.ttl) (start d))
